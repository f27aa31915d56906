-- ===== src/Backend/Sma/VirtioBlk.antt =====
-- What `smaInitiatorVirtioBlk` of pkg/util/smainitiator.go promises as a backend.
use spdk_csi.Prelude.{◌⊎◌, inl, inr, false, Option, []}
use spdk_csi.Text.{Str}
use spdk_csi.Effect.Triple.{Ends, Triple, Triple-weaken, Triple-strengthen}
use spdk_csi.Target.Nvmf.{Map}
use spdk_csi.Node.Xpu.{ConnectParams}
use spdk_csi.Backend.Contract.{Stages, Contract}
use spdk_csi.Backend.Sma.{
  CreateDeviceRequest, Agent, SmaCommon, connect_virtio_blk, disconnect_virtio_blk, create_device,
  sma_initiator_virtio_blk,
}
use spdk_csi.Backend.Sma.Ledger.{Log, recorded, Assumptions, At, Gone, Bare}
use spdk_csi.Backend.Sma.Steps.{create_device-Triple, delete_device-Triple}

-- The volume comes with the device, so nothing is attached on its own.
abbrev pub bare_stages : (W Refused : Type 0) → Stages (SmaCommon (W × Log))
bare_stages W Refused = record {
  Fresh = Gone;
  Up = Bare;
  Gone = Gone;
  Held = λ s. Gone s ⊎ Bare s;
  Refused = Refused;
}

module _ {W : Type 0} (agent : Agent W) (volume_context : Map) (Refused : Type 0)
    (safe : Assumptions agent Refused) where
  create-Bare-Triple :
      (v : Option Str) (req : CreateDeviceRequest)
      → Triple
          (At false v [])
          (create_device (recorded agent) volume_context req)
          (λ _ s. Bare s)
          (λ _ s. Gone s)
  create-Bare-Triple v req =
      Triple-strengthen (λ _ s h. (v, h))
        (Triple-weaken (λ _ s h. (v, h))
          (create_device-Triple agent volume_context Refused safe v req))

  -- A device is made, or there is none.
  connect-Triple :
      (p : ConnectParams)
      → Triple Gone
          (connect_virtio_blk (recorded agent) volume_context p)
          (λ _ s. Bare s)
          (λ _ s. Gone s)
  unfolding connect_virtio_blk
  connect-Triple p = record { at = λ s (v, a). rw a.handle_test ((create-Bare-Triple v _).at s a) }

  disconnect-Ends :
      (s : SmaCommon (W × Log))
      → Gone s ⊎ Bare s
      → Ends
          (λ _ t. Gone t)
          (λ _ t. (Gone t ⊎ Bare t) × Refused)
          (disconnect_virtio_blk (recorded agent) volume_context s)
  unfolding disconnect_virtio_blk
  disconnect-Ends s (inl (v, a)) = rw a.handle_test (v, a)
  disconnect-Ends s (inr (v, a)) = rw a.handle_test (
      (Triple-strengthen (λ _ s h. (v, h))
          (Triple-weaken (λ _ s h. (inr (v, h.0), h.1))
            (delete_device-Triple agent volume_context Refused safe v))).at
        s a)

  -- Over an agent whose devices have handles, smaInitiatorVirtioBlk keeps the contract of a
  -- backend: Connect with no handle returns only with a device made and named, and whenever it
  -- fails the agent has no device, also where removals can be refused; Disconnect deletes the
  -- device that is named, or fails because the agent refused and keeps its handle.
  pub sma_initiator_virtio_blk-Contract :
      Contract (bare_stages W Refused) (sma_initiator_virtio_blk (recorded agent) volume_context)
      × ((p : ConnectParams)
          → Triple Gone
              (connect_virtio_blk (recorded agent) volume_context p)
              (λ _ s. Bare s)
              (λ _ s. Gone s))
  sma_initiator_virtio_blk-Contract = (
    record {
      connect_all = λ p. Triple-weaken (λ _ s h. (inl h, inr h)) (connect-Triple p);
      disconnect_all = record { at = disconnect-Ends };
      Up-Held = λ s. inr;
    },
    connect-Triple,
  )
