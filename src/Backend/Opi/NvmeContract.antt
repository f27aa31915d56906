-- ===== src/Backend/Opi/NvmeContract.antt =====
-- What `opiInitiatorNvme` promises as a backend.
use spdk_csi.Prelude.{◌⊎◌, refl, Bool, true, false, inl, inr}
use spdk_csi.Effect.{pure, raise, ignore, Result, good, bad, ◌>>◌}
use spdk_csi.Effect.Triple.{
  Triple, Triple-bind, Triple-attempt, Triple-pure, Triple-raise, Triple-ignore, Triple-weaken,
  Triple-strengthen, Either,
}
use spdk_csi.Target.Nvmf.{Map}
use spdk_csi.Node.Xpu.{ConnectParams}
use spdk_csi.Backend.Contract.{Stages, Contract}
use spdk_csi.Backend.Opi.{
  Kind, remote_controller, path, subsystem, controller, namespace, virtio_blk, Services,
}
use spdk_csi.Backend.Opi.Ledger.{Log, recorded, Assumptions, with, without}
use spdk_csi.Backend.Opi.Steps.{Stage, Stage-weaken, nothing}
use spdk_csi.Backend.Opi.Moves.{below→Below, deletion, creation}
use spdk_csi.Backend.Opi.Nvme.{
  OpiNvme, cleanup, later_steps, connect, disconnect, opi_initiator_nvme,
}
use spdk_csi.Backend.Opi.NvmeSteps.{
  view, create_subsystem-Triple, create_controller-Triple, create_remote_controller-Triple,
  create_path-Triple, create_namespace-Triple,
}
use spdk_csi.Backend.Opi.NvmeDeletions.{
  delete_namespace-Triple, delete_controller-Triple, delete_subsystem-Triple, delete_path-Triple,
  delete_remote_controller-Triple,
}

-- The kinds that this initiator makes.
abbrev pub nvme_kinds : Kind → Bool
nvme_kinds virtio_blk = false
nvme_kinds _ = true

abbrev everything : Kind → Bool
everything _ = true

abbrev only_virtio_blk : Kind → Bool
only_virtio_blk virtio_blk = true
only_virtio_blk _ = false

module _ {W : Type 0} where
  -- Nothing is made, all five objects are, or some of them, each under its name.
  abbrev pub Fresh : OpiNvme (W × Log) → Type 0
  Fresh s = Stage view everything nothing s

  abbrev pub Up : OpiNvme (W × Log) → Type 0
  Up s = Stage view only_virtio_blk nvme_kinds s

  abbrev pub Held : OpiNvme (W × Log) → Type 0
  Held s = Stage view only_virtio_blk nothing s

abbrev pub nvme_stages : (W Refused : Type 0) → Stages (OpiNvme (W × Log))
nvme_stages W Refused = record {
  Fresh = Fresh;
  Up = Up;
  Gone = Fresh;
  Held = Held;
  Refused = Refused;
}

module _ {W : Type 0} (services : Services W) (volume_context : Map) (Refused : Type 0)
    (safe : Assumptions services Refused) where
  cleanup-Triple :
      Triple Held
        (cleanup (recorded services) volume_context)
        (λ _ s. Fresh s)
        (λ _ s. Held s × Refused)
  unfolding cleanup
  cleanup-Triple =
      Triple-bind _ _
        (deletion view Refused namespace (below→Below _ _ refl)
          (delete_namespace-Triple services volume_context Refused safe))
        λ _.
          Triple-bind _ _
            (deletion view Refused path (below→Below _ _ refl)
              (delete_path-Triple services volume_context Refused safe))
            λ _.
              Triple-bind _ _
                (deletion view Refused remote_controller (below→Below _ _ refl)
                  (delete_remote_controller-Triple services volume_context Refused safe))
                λ _.
                  Triple-bind _ _
                    (deletion view Refused controller (below→Below _ _ refl)
                      (delete_controller-Triple services volume_context Refused safe))
                    λ _.
                      Triple-strengthen
                        (λ _ s. Stage-weaken view (below→Below _ _ refl) (below→Below _ _ refl))
                        (deletion view Refused subsystem (below→Below _ _ refl)
                          (delete_subsystem-Triple services volume_context Refused safe))

  later_steps-Triple :
      (p : ConnectParams)
      → Triple
          (Stage view (without subsystem everything) (with subsystem nothing))
          (later_steps (recorded services) volume_context p)
          (λ _ s. Up s)
          (λ _ s. Held s)
  later_steps-Triple p =
      Triple-bind _ _
        (creation view controller (below→Below _ _ refl)
          (create_controller-Triple services volume_context Refused safe p.pci_endpoint refl))
        λ _.
          Triple-bind _ _
            (creation view remote_controller (below→Below _ _ refl)
              (create_remote_controller-Triple services volume_context Refused safe refl))
            λ _.
              Triple-bind _ _
                (creation view path (below→Below _ _ refl)
                  (create_path-Triple services volume_context Refused safe refl))
                λ _.
                  Triple-strengthen
                    (λ _ s. Stage-weaken view (below→Below _ _ refl) (below→Below _ _ refl))
                    (creation view namespace (below→Below _ _ refl)
                      (create_namespace-Triple services volume_context Refused safe refl))

  -- The end of `Connect`, once the steps have been tried.
  finish-Triple :
      (r : Result Unit)
      → Triple
          (Either (λ _ s. Up {W = W} s) (λ _ s. Held {W = W} s) r)
          (elim r [
            | good _ ↦ pure tt
            | bad e ↦ do ignore (cleanup (recorded services) volume_context); raise e
          ])
          (λ _ s. Up {W = W} s)
          (λ _ s. Held {W = W} s × (Refused ⊎ Fresh s))
  finish-Triple (good _) = Triple-pure tt (λ s h. h)
  finish-Triple (bad e) =
      Triple-bind _ _
        (Triple-ignore _ (
          Triple-strengthen
            (λ _ s h. (Stage-weaken view (below→Below _ _ refl) (below→Below _ _ refl) h, inr h))
            (Triple-weaken (λ _ s h. (h.0, inl h.1)) cleanup-Triple)))
        λ _. Triple-raise e (λ s h. h)

  connect-Triple :
      (p : ConnectParams)
      → Triple Fresh
          (connect (recorded services) volume_context p)
          (λ _ s. Up s)
          (λ _ s. Held s × (Refused ⊎ Fresh s))
  unfolding connect
  connect-Triple p =
      Triple-bind _ _
        (Triple-weaken
          (λ _ s h. (Stage-weaken view (below→Below _ _ refl) (below→Below _ _ refl) h, inr h))
          (create_subsystem-Triple services volume_context Refused safe refl))
        λ _. Triple-bind _ _ (Triple-attempt _ (later_steps-Triple p)) finish-Triple

  disconnect-Triple :
      Triple Held
        (disconnect (recorded services) volume_context)
        (λ _ s. Fresh s)
        (λ _ s. Held s × Refused)
  unfolding disconnect
  disconnect-Triple = cleanup-Triple

  -- Over an OPI bridge that names every object it makes, opiInitiatorNvme keeps the contract of a
  -- backend: Connect from nothing returns only with all five objects made, each under its name,
  -- and when it fails what the bridge holds is what the initiator names, which is nothing unless a
  -- deletion was refused; Disconnect from whatever is left removes all of it, or fails because a
  -- deletion was refused and keeps the rest named.
  pub opi_initiator_nvme-Contract :
      Contract (nvme_stages W Refused) (opi_initiator_nvme (recorded services) volume_context)
  opi_initiator_nvme-Contract = record {
    connect_all = connect-Triple;
    disconnect_all = disconnect-Triple;
    Up-Held = λ s. Stage-weaken view (below→Below _ _ refl) (below→Below _ _ refl);
  }
