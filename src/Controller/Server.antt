-- ===== src/Controller/Server.antt =====
-- The methods of `controllerServer` that its handlers call.
use spdk_csi.Prelude.Int.{ℤ, pos, ◌*ℤ◌, wrap64, ltb_ℤ}
use spdk_csi.Prelude.{
  ℕ, zero, ◌*◌, ◌⊎◌, inl, inr, Option, none, some, List, [], ◌∷◌, ◌++◌, if◌then◌else◌,
}
use spdk_csi.Text.{Str, str, str_eq, split}
use spdk_csi.Effect.{
  message, wrapped, error_text, panic, Result, good, bad, Exec, pure, raise, crash, attempt, ignore,
  on_error, ◌>>=◌, ◌>>◌, internal_status,
}
use spdk_csi.Rpc.Message.{Net}
use spdk_csi.Rpc.Client.{Conn, LvStore}
use spdk_csi.Target.Nvmf.{Map}
use spdk_csi.Target.Node.{SpdkNode, new_spdk_node}
use spdk_csi.Util.{mi, to_mib}
use spdk_csi.Controller.Message.{
  get, NodeConfig, Token, ContentSource, snapshot, CreateVolumeRequest, CsiVolume, SpdkVolume,
  Controller, find_config, add_configs,
}

-- `fmt.Sprintf("%s:%s", nodeName, lvolID)`
unfoldable pub volume_id_of : Str → Str → Str
volume_id_of node_name lvol_id = node_name ++ (b':' ∷ lvol_id)

abbrev pub two_pieces : Str → List Str → Result SpdkVolume
two_pieces id (n ∷ l ∷ []) = good (record { lvol_id = l; node_name = n })
two_pieces id _ = bad (message (str "missing nodeName in volume: " ++ id))

-- `getSPDKVol`
unfoldable pub get_spdk_vol : Str → Result SpdkVolume
get_spdk_vol csi_volume_id = two_pieces csi_volume_id (split csi_volume_id b':')

abbrev pub lift : {S A : Type 0} → Result A → Exec S A
lift (good a) = pure a
lift (bad e) = raise e

unfoldable pub find_token : Str → List Token → Option Token
find_token name [] = none
find_token name (t ∷ l) = if str_eq t.name name then some t else find_token name l

-- The loops of `schedule` over the stores of a node.
unfoldable pub find_space : ℤ → List LvStore → Option Str
find_space size_mib [] = none
find_space size_mib (l ∷ ls) =
    if ltb_ℤ size_mib l.free_size_mib then some l.name else find_space size_mib ls

-- `createVolume`: 1 GiB where the request names no size.
abbrev pub or_one_gib : ℤ → ℤ
or_one_gib (pos zero) = pos (1024 * 1024 * 1024)
or_one_gib size = size

unfoldable pub requested_mib : ℤ → ℤ
requested_mib size = to_mib (or_one_gib size)

-- `newControllerServer`, once the configuration is parsed.
unfoldable pub new_controller_server : List ℕ → Result (List NodeConfig) → Result Controller
new_controller_server modes (bad e) = bad e
new_controller_server modes (good nodes) = elim (add_configs [] nodes) [
  | [] ↦ bad (message (str "no valid spdk node found"))
  | c ∷ m ↦ good (record { spdk_node_configs = c ∷ m; access_modes = modes })
]

-- A node object lives as long as the handler that made it: its counters start at 0, and only the
-- world stays. A method called on a nil interface panics.
abbrev pub run_on : {W A : Type 0} → Option (SpdkNode W) → (SpdkNode W → Exec (Conn W) A) → Exec W A
run_on none m w = (panic, w)
run_on (some node) m w =
    let (r, s) = m node (record { rpc_id = 0; trans_created = 0; world = w }) in (r, s.world)

-- What `json.Unmarshal` makes of the secrets: the text of its error, or the tokens.
abbrev pub SecretsReader : Type 0
SecretsReader = Str → Str ⊎ List Token

-- `NewSpdkSecrets`
abbrev pub new_spdk_secrets : SecretsReader → Str → Result (List Token)
new_spdk_secrets read s = elim (read s) [ inl m ↦ bad (message m) | inr l ↦ good l ]

module _ {W : Type 0} (net : Net W) (read : SecretsReader) where
  abbrev pub node_for : NodeConfig → Option Token → Exec W (Option (SpdkNode W))
  node_for c none = raise (message (str "failed to find secret for spdk node " ++ c.name))
  node_for c (some t) =
      elim (new_spdk_node net c.url t.user_name t.password c.target_type c.target_addr) [
        | good node ↦ pure (some node)
        | bad _ ↦ pure none
      ]

  -- `getSpdkNode`: a name that is not configured dereferences a nil pointer; a node that cannot be
  -- made is returned as nil with no error.
  unfoldable pub get_spdk_node : Controller → Str → Map → Exec W (Option (SpdkNode W))
  get_spdk_node cs node_name secrets = do
    tokens ← lift (new_spdk_secrets read (get secrets "secret.json"))
    elim (find_config node_name cs.spdk_node_configs) [
      | none ↦ crash
      | some c ↦ node_for c (find_token node_name tokens)
    ]

  -- The inner loop of `getVolume`: a failed lookup is not an error.
  unfoldable pub find_in_stores : SpdkNode W → Str → List LvStore → Exec (Conn W) (Option Str)
  find_in_stores node name [] = pure none
  find_in_stores node name (l ∷ ls) = do
    r ← attempt (node.lookup_volume name l.name)
    elim r [ good id ↦ pure (some id) | bad _ ↦ find_in_stores node name ls ]

  -- `getVolume`, over the configurations in the order in which the map is visited.
  unfoldable pub get_volume : Controller → List NodeConfig → CreateVolumeRequest → Exec W Str
  get_volume cs [] req = raise (message (str "volume not found"))
  get_volume cs (c ∷ cfgs) req = do
    node ←
        on_error
          (λ e. message (str "failed to get spdkNode " ++ (c.name ++ (str ": " ++ error_text e))))
          (get_spdk_node cs c.name req.secrets)
    found ← run_on node λ n. do
      stores ←
          on_error (wrapped (str "get lvstores of node:" ++ (c.name ++ str " failed"))) n.lv_stores
      find_in_stores n req.name stores
    elim found [ some id ↦ pure (volume_id_of c.name id) | none ↦ get_volume cs cfgs req ]

  -- `schedule`: the first node and store with more free space than is asked for.
  unfoldable pub schedule : Controller → List NodeConfig → ℤ → Map → Exec W (Str × Str)
  schedule cs [] size_mib secrets =
      raise (message (str "failed to find node with enough free space"))
  schedule cs (c ∷ cfgs) size_mib secrets = do
    node ← attempt (get_spdk_node cs c.name secrets)
    elim node [
      | bad _ ↦ schedule cs cfgs size_mib secrets
      | good n ↦ do
        stores ← run_on n (λ m. attempt m.lv_stores)
        elim stores [
          | bad _ ↦ schedule cs cfgs size_mib secrets
          | good l ↦ elim (find_space size_mib l) [
            | some lvstore ↦ pure (c.name, lvstore)
            | none ↦ schedule cs cfgs size_mib secrets
          ]
        ]
    ]

  unfoldable pub delete_volume : Controller → Str → Map → Exec W Unit
  delete_volume cs volume_id secrets = do
    vol ← lift (get_spdk_vol volume_id)
    node ← get_spdk_node cs vol.node_name secrets
    run_on node (λ n. n.delete_volume vol.lvol_id)

  unfoldable pub unpublish_volume : Controller → Str → Map → Exec W Unit
  unpublish_volume cs volume_id secrets = do
    vol ← lift (get_spdk_vol volume_id)
    node ← get_spdk_node cs vol.node_name secrets
    run_on node (λ n. n.unpublish_volume vol.lvol_id)

  -- `publishVolume`: the error of `VolumeInfo` comes back beside the state, since the unpublishing
  -- that follows it runs on a node object of its own.
  unfoldable pub publish_volume : Controller → Str → Map → Exec W Map
  publish_volume cs volume_id secrets = do
    vol ← lift (get_spdk_vol volume_id)
    node ← on_error internal_status (get_spdk_node cs vol.node_name secrets)
    info ← run_on node λ n. do n.publish_volume vol.lvol_id; attempt (n.volume_info vol.lvol_id)
    elim info [
      | good m ↦ pure m
      | bad e ↦ do ignore (unpublish_volume cs volume_id secrets); raise e
    ]

  -- `getSnapshotInfo`: node name, store and source volume of a clone.
  unfoldable pub get_snapshot_info : Controller → ContentSource → Map → Exec W (Str × Str × Str)
  get_snapshot_info cs (snapshot id) secrets = do
    vol ← lift (get_spdk_vol id)
    node ← get_spdk_node cs vol.node_name secrets
    info ← run_on node (λ n. n.volume_info vol.lvol_id)
    pure (vol.node_name, get info "lvstore", vol.lvol_id)
  get_snapshot_info cs _ secrets =
      raise (message (str "invalid volume content source, only snapshot source is supported"))

  -- The two ways of `createVolume` to make a volume that is not there yet: its full id.
  unfoldable pub clone_from : Controller → ContentSource → CreateVolumeRequest → Exec W Str
  clone_from cs source req = do
    (node_name, lvstore, source_id) ← get_snapshot_info cs source req.secrets
    node ← on_error internal_status (get_spdk_node cs node_name req.secrets)
    lvol_id ← run_on node (λ n. n.clone_volume req.name lvstore source_id)
    pure (volume_id_of node_name lvol_id)

  unfoldable pub create_new : Controller → List NodeConfig → CreateVolumeRequest → Exec W Str
  create_new cs visit req = do
    let size_mib = requested_mib req.required_bytes
    (node_name, lvstore) ← schedule cs visit size_mib req.secrets
    node ← on_error internal_status (get_spdk_node cs node_name req.secrets)
    lvol_id ← run_on node (λ n. n.create_volume req.name lvstore size_mib)
    pure (volume_id_of node_name lvol_id)

  abbrev pub make_volume :
      Controller → List NodeConfig → CreateVolumeRequest → Option ContentSource → Exec W Str
  make_volume cs visit req (some source) = clone_from cs source req
  make_volume cs visit req none = create_new cs visit req

  -- `createVolume`. The map is visited twice, each time in an order of its own.
  unfoldable pub create_volume :
      Controller → List NodeConfig → List NodeConfig → CreateVolumeRequest → Exec W CsiVolume
  create_volume cs visit₁ visit₂ req = do
    found ← attempt (get_volume cs visit₁ req)
    volume_id ← elim found [
      | good id ↦ pure id
      | bad _ ↦ make_volume cs visit₂ req req.content_source
    ]
    pure (record {
      capacity_bytes = wrap64 (requested_mib req.required_bytes *ℤ pos mi);
      volume_id = volume_id;
      volume_context = req.parameters;
      content_source = req.content_source;
    })
