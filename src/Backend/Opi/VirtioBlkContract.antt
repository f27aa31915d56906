-- ===== src/Backend/Opi/VirtioBlkContract.antt =====
-- What `opiInitiatorVirtioBlk` promises as a backend.
use spdk_csi.Prelude.{◌⊎◌, refl, Bool, true, false, not, inl, inr}
use spdk_csi.Effect.{pure, raise, ignore, Result, good, bad, ◌>>◌}
use spdk_csi.Effect.Triple.{
  Triple, Triple-bind, Triple-attempt, Triple-pure, Triple-raise, Triple-ignore, Triple-weaken,
  Triple-strengthen, Either,
}
use spdk_csi.Target.Nvmf.{Map}
use spdk_csi.Node.Xpu.{ConnectParams}
use spdk_csi.Backend.Contract.{Stages, Contract}
use spdk_csi.Backend.Opi.{Kind, remote_controller, path, virtio_blk, Services}
use spdk_csi.Backend.Opi.Ledger.{Log, recorded, Assumptions, with, without}
use spdk_csi.Backend.Opi.Steps.{Stage, Stage-weaken, nothing}
use spdk_csi.Backend.Opi.Moves.{below→Below, deletion, creation}
use spdk_csi.Backend.Opi.VirtioBlk.{
  OpiVirtioBlk, cleanup, later_steps, connect, disconnect, opi_initiator_virtio_blk,
}
use spdk_csi.Backend.Opi.VirtioBlkSteps.{
  view, create_remote_controller-Triple, create_path-Triple, create_virtio_blk-Triple,
  delete_virtio_blk-Triple, delete_path-Triple, delete_remote_controller-Triple,
}

-- The kinds that this initiator makes.
abbrev pub virtio_blk_kinds : Kind → Bool
virtio_blk_kinds remote_controller = true
virtio_blk_kinds path = true
virtio_blk_kinds virtio_blk = true
virtio_blk_kinds _ = false

abbrev everything : Kind → Bool
everything _ = true

abbrev the_others : Kind → Bool
the_others k = not (virtio_blk_kinds k)

module _ {W : Type 0} where
  -- Nothing is made, all three objects are, or some of them, each under its name.
  abbrev pub Fresh : OpiVirtioBlk (W × Log) → Type 0
  Fresh s = Stage view everything nothing s

  abbrev pub Up : OpiVirtioBlk (W × Log) → Type 0
  Up s = Stage view the_others virtio_blk_kinds s

  abbrev pub Held : OpiVirtioBlk (W × Log) → Type 0
  Held s = Stage view the_others nothing s

abbrev pub virtio_blk_stages : (W Refused : Type 0) → Stages (OpiVirtioBlk (W × Log))
virtio_blk_stages W Refused = record {
  Fresh = Fresh;
  Up = Up;
  Gone = Fresh;
  Held = Held;
  Refused = Refused;
}

module _ {W : Type 0} (services : Services W) (volume_context : Map) (Refused : Type 0)
    (safe : Assumptions services Refused) where
  cleanup-Triple :
      Triple Held
        (cleanup (recorded services) volume_context)
        (λ _ s. Fresh s)
        (λ _ s. Held s × Refused)
  unfolding cleanup
  cleanup-Triple =
      Triple-bind _ _
        (deletion view Refused virtio_blk (λ k e. e)
          (delete_virtio_blk-Triple services volume_context Refused safe))
        λ _.
          Triple-bind _ _
            (deletion view Refused path (below→Below _ _ refl)
              (delete_path-Triple services volume_context Refused safe))
            λ _.
              Triple-strengthen
                (λ _ s. Stage-weaken view (below→Below _ _ refl) (below→Below _ _ refl))
                (deletion view Refused remote_controller (below→Below _ _ refl)
                  (delete_remote_controller-Triple services volume_context Refused safe))

  later_steps-Triple :
      (p : ConnectParams)
      → Triple
          (Stage view (without remote_controller everything) (with remote_controller nothing))
          (later_steps (recorded services) volume_context p)
          (λ _ s. Up s)
          (λ _ s. Held s)
  later_steps-Triple p =
      Triple-bind _ _
        (creation view path (below→Below _ _ refl)
          (create_path-Triple services volume_context Refused safe refl))
        λ _.
          Triple-strengthen (λ _ s. Stage-weaken view (below→Below _ _ refl) (below→Below _ _ refl))
            (creation view virtio_blk (below→Below _ _ refl)
              (create_virtio_blk-Triple services volume_context Refused safe p.pci_endpoint refl))

  -- The end of `Connect`, once the steps have been tried.
  finish-Triple :
      (r : Result Unit)
      → Triple
          (Either (λ _ s. Up {W = W} s) (λ _ s. Held {W = W} s) r)
          (elim r [
            | good _ ↦ pure tt
            | bad e ↦ do ignore (cleanup (recorded services) volume_context); raise e
          ])
          (λ _ s. Up {W = W} s)
          (λ _ s. Held {W = W} s × (Refused ⊎ Fresh s))
  finish-Triple (good _) = Triple-pure tt (λ s h. h)
  finish-Triple (bad e) =
      Triple-bind _ _
        (Triple-ignore _ (
          Triple-strengthen
            (λ _ s h. (Stage-weaken view (below→Below _ _ refl) (below→Below _ _ refl) h, inr h))
            (Triple-weaken (λ _ s h. (h.0, inl h.1)) cleanup-Triple)))
        λ _. Triple-raise e (λ s h. h)

  connect-Triple :
      (p : ConnectParams)
      → Triple Fresh
          (connect (recorded services) volume_context p)
          (λ _ s. Up s)
          (λ _ s. Held s × (Refused ⊎ Fresh s))
  unfolding connect
  connect-Triple p =
      Triple-bind _ _
        (Triple-weaken
          (λ _ s h. (Stage-weaken view (below→Below _ _ refl) (below→Below _ _ refl) h, inr h))
          (create_remote_controller-Triple services volume_context Refused safe refl))
        λ _. Triple-bind _ _ (Triple-attempt _ (later_steps-Triple p)) finish-Triple

  disconnect-Triple :
      Triple Held
        (disconnect (recorded services) volume_context)
        (λ _ s. Fresh s)
        (λ _ s. Held s × Refused)
  unfolding disconnect
  disconnect-Triple = cleanup-Triple

  -- Over an OPI bridge that names every object it makes, opiInitiatorVirtioBlk keeps the contract
  -- of a backend with its three objects: Connect makes all of them or, unless a deletion was
  -- refused, leaves none, and Disconnect removes whatever is left or fails because a deletion was
  -- refused; on every path what the bridge holds is what the initiator names.
  pub opi_initiator_virtio_blk-Contract :
      Contract
        (virtio_blk_stages W Refused)
        (opi_initiator_virtio_blk (recorded services) volume_context)
  opi_initiator_virtio_blk-Contract = record {
    connect_all = connect-Triple;
    disconnect_all = disconnect-Triple;
    Up-Held = λ s. Stage-weaken view (below→Below _ _ refl) (below→Below _ _ refl);
  }
