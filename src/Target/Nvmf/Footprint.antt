-- ===== src/Target/Nvmf/Footprint.antt =====
-- Which requests the publishing methods of `nodeNVMf` send.
use spdk_csi.Prelude.{ℕ, ◌≡◌, refl, not, All}
use spdk_csi.Text.{Str}
use spdk_csi.Effect.{volume_deleted, Exec, Result, good, bad}
use spdk_csi.Effect.Keeps.{
  Keeps, Keeps-pure, Keeps-raise, Keeps-if, Keeps-attempt, Keeps-bind, keeps_rules,
}
use spdk_csi.Rpc.Message.{
  Request, bdev_lvol_get_lvstores, bdev_get_bdevs, nvmf_subsystem_get_listeners,
  nvmf_create_subsystem, nvmf_subsystem_add_ns, nvmf_get_subsystems, nvmf_subsystem_add_listener,
  nvmf_subsystem_remove_ns, nvmf_delete_subsystem, nvmf_create_transport, iscsi_get_target_nodes,
  iscsi_get_portal_groups, iscsi_get_initiator_groups, Net,
}
use spdk_csi.Rpc.Client.{Client, Conn, call, is_volume_created}
use spdk_csi.Rpc.Client.Methods.{call_unit-Keeps, is_volume_created-Keeps}
use spdk_csi.Rpc.Log.{Log, logged, log_of, log-call}
use spdk_csi.Target.Nvmf.{
  NvmfNode, get_volume_nqn, volume_info, is_volume_published, create_subsystem, subsystem_add_ns,
  subsystem_add_listener, subsystem_remove_ns, delete_subsystem, create_transport, add_listener,
  add_namespace, export_volume, publish_volume, unpublish_volume,
}
use spdk_csi.Target.Nvmf.Methods.{
  volume_info-Keeps, is_volume_published-Keeps, subsystem_add_ns-Keeps, subsystem_remove_ns-Keeps,
  create_transport-Keeps,
}

-- The requests that read and change nothing on the target.
abbrev pub IsQuery : Request → Type 0
IsQuery bdev_lvol_get_lvstores = Unit
IsQuery (bdev_get_bdevs _) = Unit
IsQuery (nvmf_subsystem_get_listeners _) = Unit
IsQuery nvmf_get_subsystems = Unit
IsQuery iscsi_get_target_nodes = Unit
IsQuery iscsi_get_portal_groups = Unit
IsQuery iscsi_get_initiator_groups = Unit
IsQuery _ = ⊥

-- A request that reads, makes the node's shared transport, or changes only the subsystem of `id`.
abbrev pub Touches : Str → Request → Type 0
Touches id (nvmf_create_subsystem nqn _ _ _) = nqn ≡ get_volume_nqn id
Touches id (nvmf_subsystem_add_ns nqn bdev) = (nqn ≡ get_volume_nqn id) × (bdev ≡ id)
Touches id (nvmf_subsystem_add_listener nqn _) = nqn ≡ get_volume_nqn id
Touches id (nvmf_subsystem_remove_ns nqn _) = nqn ≡ get_volume_nqn id
Touches id (nvmf_delete_subsystem nqn) = nqn ≡ get_volume_nqn id
Touches id (nvmf_create_transport _) = Unit
Touches id req = IsQuery req

-- Every request that was recorded is of the given kind.
abbrev pub Only : {W : Type 0} → (Request → Type 0) → Conn (W × Log) → Type 0
Only A s = All (λ x. A x.request) (log_of s)

module _ {W : Type 0} (net : Net W) (client : Client) (A : Request → Type 0) where
  pub call-Only : (req : Request) → A req → Keeps (Only A) (call (logged net) client req)
  call-Only req a = record { at = λ s h. rw log-call (a, h) }

module _ {W : Type 0} (net : Net W) (client : Client) (node : NvmfNode) (id : Str) where
  -- VolumeInfo of nodeNVMf sends only requests that change nothing on the target.
  pub volume_info-queries : Keeps (Only IsQuery) (volume_info (logged net) client node id)
  volume_info-queries =
      volume_info-Keeps (logged net) client node id (call-Only net client IsQuery _ tt)
        (call-Only net client IsQuery _ tt)

  abbrev Own : {B : Type 0} → Exec (Conn (W × Log)) B → Type 0
  Own m = Keeps (Only (Touches id)) m

  remove_ns-Own : Own (subsystem_remove_ns (logged net) client node id)
  remove_ns-Own =
      subsystem_remove_ns-Keeps (logged net) client node id (call-Only net client (Touches id) _ tt)
        (λ n. call-Only net client (Touches id) _ refl)

  delete_subsystem-Own : Own (delete_subsystem (logged net) client node id)
  unfolding delete_subsystem
  delete_subsystem-Own =
      call_unit-Keeps (logged net) client _ (call-Only net client (Touches id) _ refl)

  create_subsystem-Own : Own (create_subsystem (logged net) client node id)
  unfolding create_subsystem
  create_subsystem-Own =
      call_unit-Keeps (logged net) client _ (call-Only net client (Touches id) _ refl)

  add_ns-Own : Own (subsystem_add_ns (logged net) client node id)
  add_ns-Own =
      subsystem_add_ns-Keeps (logged net) client node id
        (call-Only net client (Touches id) _ (refl, refl))

  add_listener_rpc-Own : Own (subsystem_add_listener (logged net) client node id)
  unfolding subsystem_add_listener
  add_listener_rpc-Own =
      call_unit-Keeps (logged net) client _ (call-Only net client (Touches id) _ refl)

  published-Own : Own (is_volume_published (logged net) client node id)
  published-Own =
      is_volume_published-Keeps (logged net) client node id (call-Only net client (Touches id) _ tt)

  created-Own : Own (is_volume_created (logged net) client id)
  created-Own =
      is_volume_created-Keeps (logged net) client id (call-Only net client (Touches id) _ tt)

  transport-Own : Own (create_transport (logged net) client node)
  transport-Own =
      create_transport-Keeps (logged net) client node id (λ s h. h)
        (call-Only net client (Touches id) _ tt)

  undo_listener-Own : (r : Result Unit) → Own (add_listener (logged net) client node id r)
  undo_listener-Own (good _) = Keeps-pure tt
  undo_listener-Own (bad e) = search (keeps_rules, remove_ns-Own, delete_subsystem-Own) depth 9

  add_namespace-Own : (r : Result ℕ) → Own (add_namespace (logged net) client node id r)
  add_namespace-Own (bad e) = search (keeps_rules, delete_subsystem-Own) depth 9
  add_namespace-Own (good _) =
      Keeps-bind _ _ (Keeps-attempt _ add_listener_rpc-Own) undo_listener-Own

  export_volume-Own : Own (export_volume (logged net) client node id)
  unfolding export_volume
  export_volume-Own =
      search (keeps_rules, transport-Own, create_subsystem-Own, add_ns-Own, add_namespace-Own) depth
        9

  -- Every request that PublishVolume of nodeNVMf sends, on every path, reads, makes the shared
  -- transport, or names the volume's own subsystem, and a namespace that it adds is the volume
  -- itself.
  pub publish_volume-footprint :
      Keeps (Only (Touches id)) (publish_volume (logged net) client node id)
  unfolding publish_volume
  publish_volume-footprint = Keeps-bind _ _ created-Own λ exists.
      Keeps-if (not exists) _ _ (Keeps-raise volume_deleted) (
        Keeps-bind _ _ published-Own
          λ published. Keeps-if published _ _ (Keeps-pure tt) export_volume-Own)

  -- Every request that UnpublishVolume of nodeNVMf sends, on every path, reads, makes the shared
  -- transport, or names the volume's own subsystem.
  pub unpublish_volume-footprint :
      Keeps (Only (Touches id)) (unpublish_volume (logged net) client node id)
  unfolding unpublish_volume
  unpublish_volume-footprint = Keeps-bind _ _ created-Own λ exists.
      Keeps-if (not exists) _ _ (Keeps-raise volume_deleted) (
        Keeps-bind _ _ published-Own λ published.
          Keeps-if (not published) _ _ (Keeps-pure tt)
            (search (keeps_rules, remove_ns-Own, delete_subsystem-Own) depth 9))
