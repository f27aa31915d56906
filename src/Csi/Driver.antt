-- ===== src/Csi/Driver.antt =====
-- `CSIDriver` of pkg/csi-common/driver.go, the identity servers, and the endpoint of utils.go.
use spdk_csi.Prelude.{
  ℕ, Bool, false, ◌||◌, Option, none, some, List, [], ◌∷◌, ◌++◌, ◌==◌, if◌then◌else◌,
}
use spdk_csi.Text.{Str, str, str_eq, to_lower, has_prefix, trim_prefix}
use spdk_csi.Effect.{Error, message, status, invalid_argument, unavailable, Result, good, bad}

-- The protobuf numbers of `ControllerServiceCapability_RPC_Type`.
abbrev pub rpc_unknown : ℕ
rpc_unknown = 0

abbrev pub create_delete_volume : ℕ
create_delete_volume = 1

abbrev pub create_delete_snapshot : ℕ
create_delete_snapshot = 5

-- The protobuf number of `SINGLE_NODE_WRITER`, and those that `stageVolume` tells apart.
abbrev pub single_node_writer : ℕ
single_node_writer = 1

abbrev pub single_node_reader_only : ℕ
single_node_reader_only = 2

abbrev pub multi_node_reader_only : ℕ
multi_node_reader_only = 3

abbrev pub multi_node_multi_writer : ℕ
multi_node_multi_writer = 5

-- A capability is its RPC type, an access mode is its mode; both messages hold nothing else.
pub record CsiDriver : Type 0 where
  pub name : Str
  pub node_id : Str
  pub version : Str
  pub caps : List ℕ
  pub modes : List ℕ

unfoldable pub new_csi_driver : Str → Str → Str → Option CsiDriver
new_csi_driver name version node_id =
    if str_eq name []
    then none
    else if str_eq node_id []
    then none
    else if str_eq version []
    then none
    else some (record { name = name; node_id = node_id; version = version; caps = []; modes = [] })

unfoldable pub has_number : ℕ → List ℕ → Bool
has_number n [] = false
has_number n (m ∷ l) = n == m || has_number n l

-- `c.String()` of a capability, by the generated code of the CSI package.
module _ (capability_text : ℕ → Str) where
  unfoldable pub validate_controller_service_request : CsiDriver → ℕ → Option Error
  validate_controller_service_request d c =
      if c == rpc_unknown
      then none
      else if has_number c d.caps
      then none
      else some (status invalid_argument (capability_text c))

unfoldable pub add_controller_service_capabilities : CsiDriver → List ℕ → CsiDriver
add_controller_service_capabilities d cl = record d { caps = cl }

unfoldable pub add_volume_capability_access_modes : CsiDriver → List ℕ → CsiDriver
add_volume_capability_access_modes d vc = record d { modes = vc }

-- `DefaultIdentityServer.GetPluginInfo`: the name and the vendor version.
unfoldable pub get_plugin_info : CsiDriver → Result (Str × Str)
get_plugin_info d =
    if str_eq d.name []
    then bad (status unavailable (str "Driver name not configured"))
    else if str_eq d.version []
    then bad (status unavailable (str "Driver is missing version"))
    else good (d.name, d.version)

-- `strings.SplitN(ep, "://", 2)`: the text before the first separator and the text after it.
unfoldable pub cut_scheme : Str → Option (Str × Str)
cut_scheme [] = none
cut_scheme (c ∷ s) =
    if has_prefix (c ∷ s) (str "://")
    then some ([], trim_prefix (c ∷ s) (str "://"))
    else elim (cut_scheme s) [ none ↦ none | some (p, a) ↦ some (c ∷ p, a) ]

unfoldable pub parse_endpoint : Str → Result (Str × Str)
unfolding cut_scheme
parse_endpoint ep =
    let invalid : Result (Str × Str) = bad (message (str "invalid endpoint: " ++ ep)) in
    if has_prefix (to_lower ep) (str "unix://") || has_prefix (to_lower ep) (str "tcp://")
    then elim (cut_scheme ep) [
      | none ↦ invalid
      | some (proto, addr) ↦ if str_eq addr [] then invalid else good (proto, addr)
    ]
    else invalid
