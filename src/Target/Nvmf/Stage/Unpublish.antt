-- ===== src/Target/Nvmf/Stage/Unpublish.antt =====
-- What `UnpublishVolume` leaves behind.
use spdk_csi.Prelude.{◌≡◌, refl, ◌⊎◌, inl, inr, true, false, Option, none, some}
use spdk_csi.Text.{Str}
use spdk_csi.Effect.{Error, volume_deleted, check, ignore}
use spdk_csi.Effect.Triple.{
  Triple, Triple-bind, Triple-Keeps, Triple-pure, Triple-raise, Triple-ignore, Triple-any,
  Triple-weaken, Triple-strengthen,
}
use spdk_csi.Rpc.Message.{nvmf_delete_subsystem, Net}
use spdk_csi.Rpc.Client.{Client, Conn, call, call_unit}
use spdk_csi.Rpc.Log.{Log, logged, log_of}
use spdk_csi.Target.Nvmf.{
  NvmfNode, get_volume_nqn, subsystem_remove_ns, delete_subsystem, unpublish_volume,
}
use spdk_csi.Target.Nvmf.Stage.{Stage, At, IsUnlisted, IsDeleted, exists-Keeps, published-Triple}

module _ {W : Type 0} (net : Net W) (client : Client) (node : NvmfNode) (id : Str) where
  delete_subsystem-Triple :
      Triple
        (λ _. Unit)
        (delete_subsystem (logged net) client node id)
        (λ _ s. IsDeleted id (log_of s))
        (λ _ _. Unit)
  unfolding delete_subsystem call_unit call
  delete_subsystem-Triple =
      Triple-bind {R = λ r s. r.error ≡ none → IsDeleted id (log_of s)}
        (call (logged net) client (nvmf_delete_subsystem (get_volume_nqn id))) _
        (record { at = λ s h p. (refl, p) }) (λ r. consented r.error)
    where
      consented :
          (e : Option Error)
          → Triple
              (λ (s : Conn (W × Log)). e ≡ none → IsDeleted id (log_of s))
              (check e)
              (λ _ s. IsDeleted id (log_of s))
              (λ _ _. Unit)
      consented none = record { at = λ s h. h refl }
      consented (some e) = record { at = λ s h. tt }

  -- When UnpublishVolume of nodeNVMf succeeds, either the target's last answer was its consent to
  -- deleting the volume's subsystem, or nothing was changed and the last answer refuses the
  -- volume's subsystem as unknown or lists its listeners, without an error, and no own one among
  -- them.
  pub unpublish_volume-stage :
      (st : Stage)
      → Triple
          (At (get_volume_nqn id) st)
          (unpublish_volume (logged net) client node id)
          (λ _ s.
            IsDeleted id (log_of s) ⊎ (At (get_volume_nqn id) st s × IsUnlisted node id (log_of s)))
          (λ _ _. Unit)
  unfolding unpublish_volume
  unpublish_volume-stage st =
      Triple-bind {R = λ _ s. At (get_volume_nqn id) st s} _ _
        (Triple-weaken (λ _ _ _. tt) (Triple-Keeps _ (exists-Keeps net client node id st)))
        (elim [
          | false ↦ Triple-raise volume_deleted (λ s h. tt)
          | true ↦
              Triple-bind _ _ (Triple-weaken (λ _ _ _. tt) (published-Triple net client node id st))
                (elim [
                  | false ↦ Triple-pure tt (λ s h. inr (h.0, h.2 refl))
                  | true ↦
                      Triple-bind {R = λ _ _. Unit}
                        (ignore (subsystem_remove_ns (logged net) client node id)) _
                        (Triple-ignore _ (Triple-any _))
                        (λ _. Triple-strengthen (λ _ _ d. inl d) delete_subsystem-Triple)
                ])
        ])
