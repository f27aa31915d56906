-- ===== src/Backend/Sma/Contract.antt =====
-- What the three initiators of pkg/util/smainitiator.go promise as backends.
use mathlib.Core.Path.{subst}
use spdk_csi.Prelude.{◌≡◌, ◌⊎◌, inl, inr, refl, sym, true, false, Option, none, some, List, [], ◌∷◌}
use spdk_csi.Text.{Str}
use spdk_csi.Text.Laws.{str_eq_refl}
use spdk_csi.Effect.{Error, Exec, pure, raise, ignore, Result, good, bad, ◌>>◌}
use spdk_csi.Effect.Triple.{
  Ends, Triple, Triple-bind, Triple-attempt, Triple-pure, Triple-raise, Triple-ignore,
  Triple-weaken, Triple-strengthen, Triple-on_error, Either,
}
use spdk_csi.Target.Nvmf.{Map}
use spdk_csi.Node.Xpu.{ConnectParams}
use spdk_csi.Backend.Contract.{Stages, Contract}
use spdk_csi.Backend.Opi.Ledger.{remove}
use spdk_csi.Backend.Sma.{
  CreateDeviceRequest, Agent, SmaCommon, attach_or_delete, connect_nvmf_tcp, connect_nvme,
  detach_named, detach_and_delete, disconnect_nvmf_tcp, disconnect_nvme, delete_device,
  create_device, sma_initiator_nvmf_tcp, sma_initiator_nvme,
}
use spdk_csi.Backend.Sma.Ledger.{
  Log, recorded, Assumptions, At, Fresh, Up, Gone, Held, none_left, device_left, volume_left,
}
use spdk_csi.Backend.Sma.Steps.{
  create_device-Triple, attach_volume-Triple, detach_volume-Triple, delete_device-Triple,
}

-- A volume that is attached to a device, and a device with its volume.
abbrev pub attaching_stages : (W Refused : Type 0) → Stages (SmaCommon (W × Log))
attaching_stages W Refused = record {
  Fresh = Fresh;
  Up = Up;
  Gone = Gone;
  Held = Held;
  Refused = Refused;
}

module _ {W : Type 0} (agent : Agent W) (volume_context : Map) (Refused : Type 0)
    (safe : Assumptions agent Refused) where
  -- The end of a connection, once the attachment has been tried.
  finish-Triple :
      (v : Str) (r : Result Unit)
      → Triple
          (Either
            (λ _ s. At {W = W} true (some v) (v ∷ []) s)
            (λ _ s. At {W = W} true (some v) [] s)
            r)
          (elim r [
            | good _ ↦ pure tt
            | bad e ↦ do
              ignore (λ s. delete_device (recorded agent) volume_context s.device_handle s)
              raise e
          ])
          (λ _ s. Up {W = W} s)
          (λ _ s. Held {W = W} s × (Refused ⊎ Fresh {W = W} s))
  finish-Triple v (good _) = Triple-pure tt (λ s h. (v, h))
  finish-Triple v (bad e) =
      Triple-bind {R = λ _ s. Held s × (Refused ⊎ Fresh s)} _ _
        (Triple-ignore _ (
          Triple-strengthen (λ _ s h. (none_left (some v, h), inr (v, h)))
            (Triple-weaken (λ _ s h. (device_left (some v, h.0), inl h.1))
              (delete_device-Triple agent volume_context Refused safe (some v)))))
        λ _. Triple-raise e (λ s h. h)

  connect-Triple :
      (v : Str) (req : CreateDeviceRequest)
      → Triple
          (At false (some v) [])
          (create_device (recorded agent) volume_context req
            >> attach_or_delete (recorded agent) volume_context)
          (λ _ s. Up s)
          (λ _ s. Held s × (Refused ⊎ Fresh s))
  unfolding attach_or_delete
  connect-Triple v req =
      Triple-bind _ _
        (Triple-weaken (λ _ s h. (none_left (some v, h), inr (v, h)))
          (create_device-Triple agent volume_context Refused safe (some v) req))
        λ _.
          Triple-bind _ _ (Triple-attempt _ (attach_volume-Triple agent volume_context v))
            (finish-Triple v)

  delete_last-Triple :
      (v : Option Str)
      → Triple
          (At true v [])
          (λ s. delete_device (recorded agent) volume_context s.device_handle s)
          (λ _ s. Gone s)
          (λ _ s. Held s × Refused)
  delete_last-Triple v =
      Triple-strengthen (λ _ s h. (v, h))
        (Triple-weaken (λ _ s h. (device_left (v, h.0), h.1))
          (delete_device-Triple agent volume_context Refused safe v))

  delete_named-Triple :
      (v : Option Str) (vs : List Str)
      → vs ≡ []
      → Triple
          (At true v vs)
          (λ s. delete_device (recorded agent) volume_context s.device_handle s)
          (λ _ s. Gone s)
          (λ _ s. Held s × Refused)
  delete_named-Triple v vs e = rw e (delete_last-Triple v)

  module _ (f : Str → Str → Error → Error) where
    -- The detachment and the deletion, from what may be left.
    remove_all : (v : Option Str) → Str → Exec (SmaCommon (W × Log)) Unit
    remove_all v h =
        detach_named (recorded agent) volume_context f h v
        >> (λ s. delete_device (recorded agent) volume_context s.device_handle s)

    remove_volume-Triple :
        (v : Str) (vs : List Str) (h : Str)
        → remove v vs ≡ []
        → ((s : SmaCommon (W × Log)) → At true (some v) vs s → Held s)
        → Triple
            (At true (some v) vs)
            (remove_all (some v) h)
            (λ _ s. Gone s)
            (λ _ s. Held s × Refused)
    unfolding remove_all
    remove_volume-Triple v vs h e held =
        Triple-bind {R = λ _ s. At true none (remove v vs) s} _ _
          (Triple-on_error _ _ (
            Triple-weaken (λ _ s x. (held s x.0, x.1))
              (detach_volume-Triple agent volume_context Refused safe v h)))
          λ _. delete_named-Triple none (remove v vs) e

    remove-Bare-Triple :
        (v : Option Str) (h : Str)
        → Triple (At true v []) (remove_all v h) (λ _ s. Gone s) (λ _ s. Held s × Refused)
    unfolding remove_all remove
    remove-Bare-Triple none h = delete_last-Triple none
    remove-Bare-Triple (some v) h =
        remove_volume-Triple v [] h refl (λ s x. device_left (some v, x))

    -- The volume that is removed is the one that the object names.
    from_volume :
        (v : Option Str) (s : SmaCommon (W × Log))
        → s.volume_id ≡ v
        → Ends (λ _ t. Gone t) (λ _ t. Held t × Refused) (remove_all v s.device_handle s)
        → Ends (λ _ t. Gone t) (λ _ t. Held t × Refused) (remove_all s.volume_id s.device_handle s)
    from_volume v s e =
        subst
          (λ (x : Option Str).
            Ends (λ _ t. Gone t) (λ _ t. Held t × Refused) (remove_all x s.device_handle s))
          (sym e)

    detach_and_delete-Ends :
        (s : SmaCommon (W × Log))
        → Held s
        → Ends
            (λ _ t. Gone t)
            (λ _ t. Held t × Refused)
            (detach_and_delete (recorded agent) volume_context f s)
    unfolding remove_all remove
    detach_and_delete-Ends s (none_left (v, a)) = rw a.handle_test (v, a)
    detach_and_delete-Ends s (device_left (v, a)) =
        rw a.handle_test
          (from_volume v s a.volume_is ((remove-Bare-Triple v s.device_handle).at s a))
    detach_and_delete-Ends s (volume_left (v, a)) = rw a.handle_test (
        from_volume (some v) s a.volume_is (
          (remove_volume-Triple v (v ∷ []) s.device_handle (rw (str_eq_refl v) refl)
              (λ s x. volume_left (v, x))).at
            s a))

    -- A disconnection removes what is left, or names what still is.
    detach_and_delete-Triple :
        Triple Held
          (detach_and_delete (recorded agent) volume_context f)
          (λ _ s. Gone s)
          (λ _ s. Held s × Refused)
    detach_and_delete-Triple = record { at = detach_and_delete-Ends }

  connect_nvmf_tcp-Triple :
      (p : ConnectParams)
      → Triple Fresh
          (connect_nvmf_tcp (recorded agent) volume_context p)
          (λ _ s. Up s)
          (λ _ s. Held s × (Refused ⊎ Fresh s))
  unfolding connect_nvmf_tcp
  connect_nvmf_tcp-Triple p = record { at = λ s (v, a). (connect-Triple v _).at s a }

  connect_nvme-Triple :
      (p : ConnectParams)
      → Triple Fresh
          (connect_nvme (recorded agent) volume_context p)
          (λ _ s. Up s)
          (λ _ s. Held s × (Refused ⊎ Fresh s))
  unfolding connect_nvme
  connect_nvme-Triple p = record { at = λ s (v, a). (connect-Triple v _).at s a }

  disconnect_nvmf_tcp-Triple :
      Triple Held
        (disconnect_nvmf_tcp (recorded agent) volume_context)
        (λ _ s. Gone s)
        (λ _ s. Held s × Refused)
  unfolding disconnect_nvmf_tcp
  disconnect_nvmf_tcp-Triple = detach_and_delete-Triple _

  disconnect_nvme-Triple :
      Triple Held
        (disconnect_nvme (recorded agent) volume_context)
        (λ _ s. Gone s)
        (λ _ s. Held s × Refused)
  unfolding disconnect_nvme
  disconnect_nvme-Triple = detach_and_delete-Triple _

  -- Over an agent whose devices have handles, smaInitiatorNvmfTCP and smaInitiatorNvme keep the
  -- contract of a backend: Connect from nothing returns only with a device made and its volume
  -- attached, and when it fails the agent has no device that the initiator does not name, and none
  -- at all unless a removal was refused; Disconnect from whatever is left detaches and deletes all
  -- of it, or fails because a removal was refused and keeps the rest named.
  pub sma_initiators-Contract :
      Contract (attaching_stages W Refused) (sma_initiator_nvmf_tcp (recorded agent) volume_context)
      × Contract (attaching_stages W Refused) (sma_initiator_nvme (recorded agent) volume_context)
  sma_initiators-Contract = (
    record {
      connect_all = connect_nvmf_tcp-Triple;
      disconnect_all = disconnect_nvmf_tcp-Triple;
      Up-Held = λ s. volume_left;
    },
    record {
      connect_all = connect_nvme-Triple;
      disconnect_all = disconnect_nvme-Triple;
      Up-Held = λ s. volume_left;
    },
  )
