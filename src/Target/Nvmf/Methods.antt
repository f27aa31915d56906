-- ===== src/Target/Nvmf/Methods.antt =====
-- The methods of `nodeNVMf` keep whatever each of their requests keeps.
use spdk_csi.Prelude.{ℕ, false, not, Option, none, some, ◌==◌}
use spdk_csi.Text.{Str, str, contains}
use spdk_csi.Effect.{Error, error_text}
use spdk_csi.Effect.Keeps.{
  Keeps, Keeps-pure, Keeps-raise, Keeps-if, Keeps-bind, Keeps-option, Keeps-check, keeps_rules,
}
use spdk_csi.Rpc.Message.{
  bdev_lvol_get_lvstores, bdev_get_bdevs, nvmf_subsystem_get_listeners, nvmf_subsystem_add_ns,
  nvmf_get_subsystems, nvmf_subsystem_remove_ns, nvmf_create_transport, Net,
}
use spdk_csi.Rpc.Client.{Client, Conn, call}
use spdk_csi.Rpc.Client.Methods.{call_unit-Keeps, get_volume-Keeps, get_lvstore-Keeps}
use spdk_csi.Target.Nvmf.{
  NvmfNode, get_volume_nqn, find_nsid, volume_info, is_volume_published, subsystem_add_ns,
  subsystem_get_nsid, subsystem_remove_ns, create_transport, transport_made, load_created,
  store_created,
}

module _ {W : Type 0} {P : Conn W → Type 0} (net : Net W) (client : Client) (node : NvmfNode)
    (id : Str) where
  pub volume_info-Keeps :
      Keeps P (call net client (bdev_get_bdevs id))
      → Keeps P (call net client bdev_lvol_get_lvstores)
      → Keeps P (volume_info net client node id)
  unfolding volume_info
  volume_info-Keeps k l =
      search (keeps_rules, get_volume-Keeps net client id k, get_lvstore-Keeps net client id k l)

  pub is_volume_published-Keeps :
      Keeps P (call net client (nvmf_subsystem_get_listeners (get_volume_nqn id)))
      → Keeps P (is_volume_published net client node id)
  unfolding is_volume_published
  is_volume_published-Keeps k = Keeps-bind _ _ k λ r.
      Keeps-if _ _ _ (Keeps-pure false) (Keeps-bind _ _ (Keeps-check r.error) (λ _. Keeps-pure _))

  pub subsystem_add_ns-Keeps :
      Keeps P (call net client (nvmf_subsystem_add_ns (get_volume_nqn id) id))
      → Keeps P (subsystem_add_ns net client node id)
  unfolding subsystem_add_ns
  subsystem_add_ns-Keeps k = search keeps_rules

  pub subsystem_remove_ns-Keeps :
      Keeps P (call net client nvmf_get_subsystems)
      → ((n : ℕ) → Keeps P (call net client (nvmf_subsystem_remove_ns (get_volume_nqn id) n)))
      → Keeps P (subsystem_remove_ns net client node id)
  unfolding subsystem_remove_ns subsystem_get_nsid
  subsystem_remove_ns-Keeps g k =
      Keeps-bind _ _
        (Keeps-bind _ _ g λ r.
          Keeps-bind _ _ (Keeps-check r.error)
            λ _. Keeps-option (find_nsid (get_volume_nqn id) id _) _ _ (Keeps-raise _) Keeps-pure)
        (λ n. call_unit-Keeps net client _ (k n))

  pub create_transport-Keeps :
      ((s : Conn W) → P s → P (record s { trans_created = 1 }))
      → Keeps P (call net client (nvmf_create_transport node.target_type))
      → Keeps P (create_transport net client node)
  unfolding create_transport
  create_transport-Keeps st k =
      Keeps-bind (load_created net client node) _ (record { at = λ s h. h })
        λ created.
          Keeps-if (not (created == 0)) _ _ (Keeps-pure tt) (Keeps-bind _ _ k λ r. made r.error)
    where
      stored : Keeps P (store_created net client node)
      stored = record { at = st }

      made : (e : Option Error) → Keeps P (transport_made net client node e)
      made none = stored
      made (some e) =
          Keeps-if (contains (error_text e) (str "already exists")) _ _ stored (Keeps-raise e)
