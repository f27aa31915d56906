-- ===== src/Target/Nvmf/Stage/Publish.antt =====
-- The stages that `PublishVolume` goes through, and what it undoes when a step fails.
use spdk_csi.Prelude.{ℕ, refl, ◌⊎◌, inl, inr, true, false}
use spdk_csi.Text.{Str}
use spdk_csi.Text.Laws.{str_eq_refl}
use spdk_csi.Effect.{Outcome, ok, err, panic, volume_deleted, Result, good, bad, ignore}
use spdk_csi.Effect.Triple.{
  Ends, Triple, Either, Triple-attempt, Triple-bind, Triple-Keeps, Triple-pure, Triple-raise,
  Triple-ignore, Triple-any,
}
use spdk_csi.Rpc.Message.{nvmf_subsystem_add_ns, Net}
use spdk_csi.Rpc.Client.{Client, Conn}
use spdk_csi.Rpc.Log.{Log, logged, log_of}
use spdk_csi.Target.Nvmf.{
  NvmfNode, get_volume_nqn, create_subsystem, subsystem_add_ns, subsystem_add_listener,
  subsystem_remove_ns, delete_subsystem, add_listener, add_namespace, export_volume, publish_volume,
}
use spdk_csi.Target.Nvmf.Stage.{
  Stage, absent, created, filled, exported, advance, stage, At, Moves, IsListed, call-Triple,
  check-Triple, call_unit-Triple, transport-Keeps, exists-Keeps, published-Triple,
}

module _ {W : Type 0} (net : Net W) (client : Client) (node : NvmfNode) (id : Str) where
  create_subsystem-Moves :
      Moves (get_volume_nqn id) (create_subsystem (logged net) client node id) absent created absent
  unfolding create_subsystem
  create_subsystem-Moves =
      call_unit-Triple net client (get_volume_nqn id) _ absent created absent
        (rw (str_eq_refl (get_volume_nqn id))) (λ x. refl)

  add_listener_rpc-Moves :
      Moves
        (get_volume_nqn id)
        (subsystem_add_listener (logged net) client node id)
        filled
        exported
        filled
  unfolding subsystem_add_listener
  add_listener_rpc-Moves =
      call_unit-Triple net client (get_volume_nqn id) _ filled exported filled
        (rw (str_eq_refl (get_volume_nqn id))) (λ x. refl)

  delete_subsystem-Moves :
      (st : Stage)
      → Moves (get_volume_nqn id) (delete_subsystem (logged net) client node id) st absent absent
  unfolding delete_subsystem
  delete_subsystem-Moves st =
      call_unit-Triple net client (get_volume_nqn id) _ st absent absent
        (rw (str_eq_refl (get_volume_nqn id))) (λ x. rw (str_eq_refl (get_volume_nqn id)))

  add_ns-Moves :
      Moves
        (get_volume_nqn id)
        (subsystem_add_ns (logged net) client node id)
        created
        filled
        created
  unfolding subsystem_add_ns
  add_ns-Moves =
      Triple-bind
        {R = λ r s.
          At (get_volume_nqn id)
            (advance (get_volume_nqn id) (nvmf_subsystem_add_ns (get_volume_nqn id) id) r.error
              created)
            s}
        _ _ (call-Triple net client (get_volume_nqn id) _ created)
        λ r.
          Triple-bind {R = λ _ s. At (get_volume_nqn id) filled s} _ _
            (check-Triple net client (get_volume_nqn id)
              (nvmf_subsystem_add_ns (get_volume_nqn id) id) created filled created r.error
              (rw (str_eq_refl (get_volume_nqn id))) (λ x. refl))
            (λ _. Triple-pure _ (λ s h. h))

  delete_subsystem-clears :
      Triple
        (λ _. Unit)
        (delete_subsystem (logged net) client node id)
        (λ _ s. At (get_volume_nqn id) absent s)
        (λ _ s. At (get_volume_nqn id) absent s)
  delete_subsystem-clears = record {
    at = λ s h. (delete_subsystem-Moves (stage (get_volume_nqn id) (log_of s))).at s refl;
  }

  -- Whatever removing the namespace did, the subsystem is deleted next.
  add_listener-Triple :
      (r : Result Unit)
      → Triple
          (Either
            (λ _ s. At (get_volume_nqn id) exported s)
            (λ _ s. At (get_volume_nqn id) filled s)
            r)
          (add_listener (logged net) client node id r)
          (λ _ s. At (get_volume_nqn id) exported s)
          (λ _ s. At (get_volume_nqn id) absent s)
  add_listener-Triple (good _) = Triple-pure tt (λ s h. h)
  add_listener-Triple (bad e) =
      Triple-bind {R = λ _ _. Unit} (ignore (subsystem_remove_ns (logged net) client node id)) _
        (Triple-ignore _ (Triple-any _))
        λ _.
          Triple-bind {R = λ _ s. At (get_volume_nqn id) absent s}
            (ignore (delete_subsystem (logged net) client node id)) _
            (Triple-ignore _ delete_subsystem-clears) (λ _. Triple-raise e (λ s h. h))

  add_namespace-Triple :
      (r : Result ℕ)
      → Triple
          (Either
            (λ _ s. At (get_volume_nqn id) filled s)
            (λ _ s. At (get_volume_nqn id) created s)
            r)
          (add_namespace (logged net) client node id r)
          (λ _ s. At (get_volume_nqn id) exported s)
          (λ _ s. At (get_volume_nqn id) absent s)
  add_namespace-Triple (good _) =
      Triple-bind _ _ (Triple-attempt _ add_listener_rpc-Moves) add_listener-Triple
  add_namespace-Triple (bad e) =
      Triple-bind {R = λ _ s. At (get_volume_nqn id) absent s}
        (ignore (delete_subsystem (logged net) client node id)) _
        (Triple-ignore _ (record { at = λ s h. delete_subsystem-clears.at s tt }))
        (λ _. Triple-raise e (λ s h. h))

  export_volume-Moves :
      Moves (get_volume_nqn id) (export_volume (logged net) client node id) absent exported absent
  unfolding export_volume
  export_volume-Moves =
      Triple-bind {R = λ _ s. At (get_volume_nqn id) absent s} _ _
        (Triple-Keeps _ (transport-Keeps net client node id absent))
        λ _.
          Triple-bind {R = λ _ s. At (get_volume_nqn id) created s} _ _ create_subsystem-Moves
            λ _. Triple-bind _ _ (Triple-attempt _ add_ns-Moves) add_namespace-Triple

  -- Published on a target that has no subsystem for the volume, PublishVolume of nodeNVMf ends
  -- either with the subsystem made, filled and listened on, or, when the target itself reported
  -- the node's own listener, with nothing made; whenever it fails, at whatever step, no subsystem
  -- of the volume is left that it made and did not ask to delete.
  pub publish_volume-stage :
      Triple
        (At (get_volume_nqn id) absent)
        (publish_volume (logged net) client node id)
        (λ _ s.
          (At (get_volume_nqn id) exported s)
          ⊎ (At (get_volume_nqn id) absent s × IsListed node id (log_of s)))
        (λ _ s. At (get_volume_nqn id) absent s)
  unfolding publish_volume
  publish_volume-stage =
      Triple-bind {R = λ _ s. At (get_volume_nqn id) absent s} _ _
        (Triple-Keeps _ (exists-Keeps net client node id absent))
        (elim [
          | false ↦ Triple-raise volume_deleted (λ s h. h)
          | true ↦ Triple-bind _ _ (published-Triple net client node id absent) (elim [
            | true ↦ Triple-pure tt (λ s h. inr (h.0, h.1 refl))
            | false ↦ record {
              at = λ s h.
                  exported_left (export_volume (logged net) client node id s)
                    (export_volume-Moves.at s h.0);
            }
          ])
        ])
    where
      exported_left :
          (r : Outcome Unit × Conn (W × Log))
          → Ends
              (λ _ s. At (get_volume_nqn id) exported s)
              (λ _ s. At (get_volume_nqn id) absent s)
              r
          → Ends
              (λ _ s.
                (At (get_volume_nqn id) exported s)
                ⊎ (At (get_volume_nqn id) absent s × IsListed node id (log_of s)))
              (λ _ s. At (get_volume_nqn id) absent s)
              r
      exported_left (ok _, s) h = inl h
      exported_left (err _, s) h = h
      exported_left (panic, s) h = h
