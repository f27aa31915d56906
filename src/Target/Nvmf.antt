-- ===== src/Target/Nvmf.antt =====
-- The methods of `nodeNVMf` in pkg/util/nvmf.go.
pub mod Methods
pub mod Footprint
pub mod Stage
use spdk_csi.Prelude.Int.{ℤ, ◌*ℤ◌, wrap64}
use spdk_csi.Prelude.{
  ℕ, Bool, true, false, not, ◌&&◌, ◌||◌, Option, none, some, List, [], ◌∷◌, ◌++◌, ◌==◌, String,
  if◌then◌else◌,
}
use spdk_csi.Text.{Str, str, str_eq, contains}
use spdk_csi.Text.Decimal.{format_int}
use spdk_csi.Effect.{
  Error, invalid_parameters, volume_deleted, message, error_text, Exec, Result, good, bad, pure,
  raise, attempt, ignore, ◌>>=◌, ◌>>◌, check,
}
use spdk_csi.Rpc.Message.{
  Address, Request, nvmf_subsystem_get_listeners, nvmf_create_subsystem, nvmf_subsystem_add_ns,
  nvmf_get_subsystems, nvmf_subsystem_add_listener, nvmf_subsystem_remove_ns, nvmf_delete_subsystem,
  nvmf_create_transport, Namespace, Subsystem, listeners_of, number_of, subsystems_of, Net,
}
use spdk_csi.Rpc.Client.{
  Client, Conn, Called, call, call_unit, error_matches, get_volume, get_lvstore, is_volume_created,
}
use spdk_csi.Rpc.Client

abbrev pub cfg_nvmf_svc_port : Str
cfg_nvmf_svc_port = str "4420"

abbrev pub cfg_allow_any_host : Bool
cfg_allow_any_host = true

abbrev pub cfg_addr_family : Str
cfg_addr_family = str "IPv4"

-- `nodeNVMf` without its client and without `transCreated`, which is part of the state.
pub record NvmfNode : Type 0 where
  pub target_type : Str
  pub target_addr : Str
  pub target_port : Str

unfoldable pub new_nvmf : Str → Str → NvmfNode
new_nvmf target_type target_addr = record {
  target_type = target_type;
  target_addr = target_addr;
  target_port = cfg_nvmf_svc_port;
}

-- A map with string keys, as the list of its entries.
abbrev pub Map : Type 0
Map = List (String × Str)

abbrev pub get_volume_model : Str → Str
get_volume_model lvol_id = lvol_id

unfoldable pub get_volume_nqn : Str → Str
get_volume_nqn lvol_id = str "nqn.2020-04.io.spdk.csi:uuid:" ++ get_volume_model lvol_id

-- `fmt.Sprintf("%s/%s", lvsName, lvolName)`, the alias of a volume.
unfoldable pub alias : Str → Str → Str
alias lvs_name lvol_name = lvs_name ++ (b'/' ∷ lvol_name)

-- The test of the loop in `isVolumePublished`.
unfoldable pub is_own_listener : NvmfNode → Address → Bool
is_own_listener node a =
    str_eq a.trtype node.target_type
    && (str_eq a.traddr node.target_addr
        && (str_eq a.trsvcid node.target_port && str_eq a.adrfam cfg_addr_family))

unfoldable pub has_own_listener : NvmfNode → List Address → Bool
unfolding is_own_listener
has_own_listener node [] = false
has_own_listener node (a ∷ l) = is_own_listener node a || has_own_listener node l

-- The two loops of `subsystemGetNsID`; the first match returns.
unfoldable pub find_namespace : Str → List Namespace → Option ℕ
find_namespace bdev [] = none
find_namespace bdev (n ∷ l) =
    let rest = find_namespace bdev l in if str_eq n.bdev_name bdev then some n.nsid else rest

abbrev or_else : Option ℕ → Option ℕ → Option ℕ
or_else (some n) rest = some n
or_else none rest = rest

unfoldable pub find_nsid : Str → Str → List Subsystem → Option ℕ
unfolding find_namespace
find_nsid nqn bdev [] = none
find_nsid nqn bdev (s ∷ l) =
    let rest = find_nsid nqn bdev l in
    if str_eq s.nqn nqn then or_else (find_namespace bdev s.namespaces) rest else rest

module _ {W : Type 0} (net : Net W) (client : Client) (node : NvmfNode) where
  unfoldable pub volume_info : Str → Exec (Conn W) Map
  volume_info lvol_id = do
    lvol ← get_volume net client lvol_id
    lvstore ← get_lvstore net client lvol_id
    pure (
        ("targetType", node.target_type)
        ∷ ("targetAddr", node.target_addr)
        ∷ ("targetPort", node.target_port)
        ∷ ("nqn", get_volume_nqn lvol_id)
        ∷ ("model", get_volume_model lvol_id)
        ∷ ("lvolSize", format_int (wrap64 (lvol.block_size *ℤ lvol.num_blocks)))
        ∷ ("lvstore", lvstore)
        ∷ [])

  unfoldable pub create_volume : Str → Str → ℤ → Exec (Conn W) Str
  create_volume lvol_name lvs_name size_mib = do
    r ← attempt (get_volume net client (alias lvs_name lvol_name))
    elim r [
      | good lvol ↦ pure lvol.uuid
      | bad _ ↦ Client.create_volume net client lvol_name lvs_name size_mib
    ]

  unfoldable pub clone_volume : Str → Str → Str → Exec (Conn W) Str
  clone_volume lvol_name lvs_name source_lvol_id = do
    r ← attempt (get_volume net client (alias lvs_name lvol_name))
    elim r [
      | good lvol ↦ pure lvol.uuid
      | bad _ ↦ Client.clone_volume net client lvol_name source_lvol_id
    ]

  -- `GetVolume`
  unfoldable pub lookup_volume : Str → Str → Exec (Conn W) Str
  lookup_volume lvol_name lvs_name = do
    lvol ← get_volume net client (alias lvs_name lvol_name)
    pure lvol.uuid

  unfoldable pub create_snapshot : Str → Str → Exec (Conn W) Str
  create_snapshot lvol_name snapshot_name = do
    lvs_name ← get_lvstore net client lvol_name
    r ← attempt (get_volume net client (alias lvs_name snapshot_name))
    elim r [
      | good lvol ↦ pure lvol.uuid
      | bad _ ↦ Client.snapshot net client lvol_name snapshot_name
    ]

  unfoldable pub is_volume_published : Str → Exec (Conn W) Bool
  is_volume_published lvol_id = do
    r ← call net client (nvmf_subsystem_get_listeners (get_volume_nqn lvol_id))
    if error_matches r.error invalid_parameters
        then pure false
        else do check r.error; pure (has_own_listener node (listeners_of r.result))

  unfoldable pub create_subsystem : Str → Exec (Conn W) Unit
  create_subsystem lvol_id = call_unit net client (
      nvmf_create_subsystem (get_volume_nqn lvol_id) cfg_allow_any_host (str "spdkcsi-sn")
        (get_volume_model lvol_id))

  unfoldable pub subsystem_add_ns : Str → Exec (Conn W) ℕ
  subsystem_add_ns lvol_id = do
    r ← call net client (nvmf_subsystem_add_ns (get_volume_nqn lvol_id) lvol_id)
    check r.error
    pure (number_of r.result)

  unfoldable pub subsystem_get_nsid : Str → Exec (Conn W) ℕ
  subsystem_get_nsid lvol_id = do
    r ← call net client nvmf_get_subsystems
    check r.error
    elim (find_nsid (get_volume_nqn lvol_id) lvol_id (subsystems_of r.result)) [
      | some n ↦ pure n
      | none ↦ raise (message (str "no such namespace"))
    ]

  unfoldable pub subsystem_add_listener : Str → Exec (Conn W) Unit
  subsystem_add_listener lvol_id = call_unit net client (
      nvmf_subsystem_add_listener (get_volume_nqn lvol_id) (record {
        trtype = node.target_type;
        adrfam = cfg_addr_family;
        traddr = node.target_addr;
        trsvcid = node.target_port;
      }))

  unfoldable pub subsystem_remove_ns : Str → Exec (Conn W) Unit
  subsystem_remove_ns lvol_id = do
    nsid ← subsystem_get_nsid lvol_id
    call_unit net client (nvmf_subsystem_remove_ns (get_volume_nqn lvol_id) nsid)

  unfoldable pub delete_subsystem : Str → Exec (Conn W) Unit
  delete_subsystem lvol_id = call_unit net client (nvmf_delete_subsystem (get_volume_nqn lvol_id))

  -- `atomic.StoreInt32(&node.transCreated, 1)`
  abbrev store_created : Exec (Conn W) Unit
  store_created s = pure tt (record s { trans_created = 1 })

  abbrev load_created : Exec (Conn W) ℕ
  load_created s = pure s.trans_created s

  abbrev transport_made : Option Error → Exec (Conn W) Unit
  transport_made none = store_created
  transport_made (some e) =
      if contains (error_text e) (str "already exists") then store_created else raise e

  unfoldable pub create_transport : Exec (Conn W) Unit
  create_transport = do
    created ← load_created
    if not (created == 0)
        then pure tt
        else do r ← call net client (nvmf_create_transport node.target_type); transport_made r.error

  -- The end of `PublishVolume`: the three steps with what each undoes when it fails.
  abbrev add_listener : Str → Result (Unit {0}) → Exec (Conn W) Unit
  add_listener lvol_id (good _) = pure tt
  add_listener lvol_id (bad e) = do
    ignore (subsystem_remove_ns lvol_id)
    ignore (delete_subsystem lvol_id)
    raise e

  abbrev add_namespace : Str → Result ℕ → Exec (Conn W) Unit
  add_namespace lvol_id (bad e) = do ignore (delete_subsystem lvol_id); raise e
  add_namespace lvol_id (good _) = do
    r ← attempt (subsystem_add_listener lvol_id)
    add_listener lvol_id r

  unfoldable pub export_volume : Str → Exec (Conn W) Unit
  export_volume lvol_id = do
    create_transport
    create_subsystem lvol_id
    r ← attempt (subsystem_add_ns lvol_id)
    add_namespace lvol_id r

  unfoldable pub publish_volume : Str → Exec (Conn W) Unit
  publish_volume lvol_id = do
    exists ← is_volume_created net client lvol_id
    if not exists then raise volume_deleted else do
      published ← is_volume_published lvol_id
      if published then pure tt else export_volume lvol_id

  unfoldable pub unpublish_volume : Str → Exec (Conn W) Unit
  unpublish_volume lvol_id = do
    exists ← is_volume_created net client lvol_id
    if not exists then raise volume_deleted else do
      published ← is_volume_published lvol_id
      if not published
          then pure tt
          else do ignore (subsystem_remove_ns lvol_id); delete_subsystem lvol_id
