-- ===== src/Node/Xpu/Composed.antt =====
-- The connecting functions of `xpuInitiator` over any backend that keeps its contract.
use spdk_csi.Prelude.{◌≡◌, ◌⊎◌, inl, inr, false, []}
use spdk_csi.Text.{Str, str}
use spdk_csi.Effect.{wrapped, Result, good, bad, Exec, pure, raise, attempt, ignore, on_error, ◌>>◌}
use spdk_csi.Effect.Keeps.{Keeps}
use spdk_csi.Effect.Triple.{
  Triple, Either, Triple-attempt, Triple-bind, Triple-pure, Triple-raise, Triple-ignore,
  Triple-weaken, Triple-strengthen, Triple-Keeps, Triple-on_error, Triple-from,
}
use spdk_csi.Controller.Message.{get}
use spdk_csi.Node.Host.{Op, Host, act}
use spdk_csi.Node.Initiator.Kept.{nvmf_connect-Keeps}
use spdk_csi.Node.Xpu.{
  ConnectParams, XpuConfig, XpuInitiator, Sysfs, XpuState, Xpu, on_world, set_functions,
  set_device_path, connect_nvmf_tcp, connect_virtio_blk, connect_new_nvme, PciEndpoint, PciBdfs,
  update_nvme_files_for_connect, on_hardware_opi,
}
use spdk_csi.Node.Xpu.World.{Triple-on_world}
use spdk_csi.Backend.Contract.{Stages, Contract}

-- The machine and its lookups leave the backend's objects alone.
pub record Apart {B : Type 0} (host : Host B) (sysfs : Sysfs B) (P : B → Type 0) : Type 0 where
  pub of_calls : (op : Op) → Keeps P (act host op)
  pub of_functions : (c : XpuConfig) → Keeps P (sysfs.get_available_functions c)
  pub of_nvme : (model bdf : Str) → Keeps P (sysfs.get_nvme_device_name model bdf)
  pub of_virtio : (bdf : Str) → Keeps P (sysfs.get_virtio_blk_device_name bdf)

module _ {B : Type 0} (stages : Stages B) where
  -- What a failure leaves: nothing, or what the backend still names because it was refused.
  abbrev pub Undone : B → Type 0
  Undone b = (stages.Fresh b ⊎ stages.Gone b) ⊎ (stages.Held b × stages.Refused)

module _ {B : Type 0} (host : Host B) (sysfs : Sysfs B) (stages : Stages B) (b : XpuInitiator B)
    (contract : Contract stages b) (xpu : Xpu) (up : Apart host sysfs stages.Up) where
  connect-Triple :
      (p : ConnectParams)
      → Triple
          (λ s. stages.Fresh s.world)
          (on_world (b.connect p))
          (λ _ s. stages.Up s.world)
          (λ _ s. Undone stages s.world)
  connect-Triple p = Triple-weaken (λ _ s h. left h) (Triple-on_world _ (contract.connect_all p))
    where
      left : {w : B} → stages.Held w × (stages.Refused ⊎ stages.Fresh w) → Undone stages w
      left (h, inl r) = inr (h, r)
      left (h, inr f) = inl (inl f)

  undo-Triple :
      Triple
        (λ s. stages.Up s.world)
        (ignore (on_world b.disconnect))
        (λ _ s. Undone stages s.world)
        (λ _ s. Undone stages s.world)
  undo-Triple =
      Triple-from (λ s h. contract.Up-Held s.world h)
        (Triple-ignore (on_world b.disconnect) (
          Triple-strengthen (λ _ s h. inl (inr h))
            (Triple-weaken (λ _ s h. inr h) (Triple-on_world _ contract.disconnect_all))))

  -- The end of each function, once the device has been looked for.
  finish-Triple :
      (r : Result Str)
      → Triple
          (Either (λ _ s. stages.Up s.world) (λ _ s. stages.Up s.world) r)
          (elim r [
            | bad e ↦ do ignore (on_world b.disconnect); raise e
            | good p ↦ do set_device_path p; pure p
          ])
          (λ (_ : Str) (s : XpuState B). stages.Up s.world)
          (λ _ s. Undone stages s.world)
  finish-Triple (bad e) = Triple-bind _ _ undo-Triple (λ _. Triple-raise e (λ s h. h))
  finish-Triple (good p) =
      Triple-bind {R = λ _ s. stages.Up s.world} (set_device_path p) _ (record { at = λ s h. h })
        (λ _. Triple-pure p (λ s h. h))

  -- A device that is looked for while the backend is up.
  looked_for :
      (m : Exec B Str)
      → Keeps stages.Up m
      → Triple
          (λ s. stages.Up s.world)
          (attempt (on_world m))
          (Either (λ _ s. stages.Up s.world) (λ _ s. stages.Up s.world))
          (λ _ s. Undone stages s.world)
  looked_for m k = Triple-attempt _ (Triple-on_world m (Triple-Keeps m k))

  functions-Triple :
      Apart host sysfs stages.Fresh
      → Triple
          (λ s. stages.Fresh s.world)
          (on_error
            (wrapped (str "failed to detect free NVMe virtual function"))
            (on_world (sysfs.get_available_functions xpu.xpu_config)))
          (λ _ s. stages.Fresh s.world)
          (λ _ s. Undone stages s.world)
  functions-Triple fresh =
      Triple-weaken (λ _ s h. inl (inl h))
        (Triple-on_error _ _
          (Triple-on_world _ (Triple-Keeps _ (fresh.of_functions xpu.xpu_config))))

  connect_virtio_blk-Triple :
      Apart host sysfs stages.Fresh
      → Triple
          (λ s. stages.Fresh s.world)
          (connect_virtio_blk host sysfs b xpu)
          (λ _ s. stages.Up s.world)
          (λ _ s. Undone stages s.world)
  unfolding connect_virtio_blk
  connect_virtio_blk-Triple fresh = Triple-bind _ _ (functions-Triple fresh) λ found.
      Triple-bind {R = λ _ s. stages.Fresh s.world} (set_functions found) _
        (record { at = λ s h. h })
        λ _.
          Triple-bind _ _ (connect-Triple (record { tcp_target_port = []; pci_endpoint = found.0 }))
            λ _. Triple-bind _ _ (looked_for _ (up.of_virtio found.1.vf_bdf)) finish-Triple

  -- Off OPI hardware there are no files to write.
  update-Triple :
      on_hardware_opi host sysfs b xpu ≡ false
      → (pe : PciEndpoint) (bdfs : PciBdfs)
      → Triple
          (λ s. stages.Up s.world)
          (on_world (update_nvme_files_for_connect host sysfs b xpu pe bdfs))
          (λ _ s. stages.Up s.world)
          (λ _ s. Undone stages s.world)
  unfolding update_nvme_files_for_connect
  update-Triple off pe bdfs = record { at = λ s h. rw off h }

  connect_new_nvme-Triple :
      on_hardware_opi host sysfs b xpu ≡ false
      → Apart host sysfs stages.Fresh
      → Triple
          (λ s. stages.Fresh s.world)
          (connect_new_nvme host sysfs b xpu)
          (λ _ s. stages.Up s.world)
          (λ _ s. Undone stages s.world)
  unfolding connect_new_nvme
  connect_new_nvme-Triple off fresh = Triple-bind _ _ (functions-Triple fresh) λ found.
      Triple-bind {R = λ _ s. stages.Fresh s.world} (set_functions found) _
        (record { at = λ s h. h })
        λ _.
          Triple-bind _ _ (connect-Triple (record { tcp_target_port = []; pci_endpoint = found.0 }))
            λ _. Triple-bind _ _ (update-Triple off found.0 found.1) λ _.
              Triple-bind _ _
                (looked_for _ (up.of_nvme (get xpu.volume_context "model") found.1.vf_bdf))
                finish-Triple

  connect_nvmf_tcp-Triple :
      Triple
        (λ s. stages.Fresh s.world)
        (connect_nvmf_tcp host sysfs b xpu)
        (λ _ s. stages.Up s.world)
        (λ _ s. Undone stages s.world)
  unfolding connect_nvmf_tcp
  connect_nvmf_tcp-Triple =
      Triple-bind _ _ (connect-Triple _)
        λ _. Triple-bind _ _ (looked_for _ (nvmf_connect-Keeps host up.of_calls _)) finish-Triple

  -- Over any backend that keeps its contract, on a machine whose calls and lookups leave the
  -- backend's objects alone and off OPI hardware, where there are no driver files to write: from
  -- nothing made, ConnectNvmfTCP, ConnectVirtioBlk and ConnectNvme (past its check for an existing
  -- device) of xpuInitiator return only with the backend's device up, and when they fail nothing
  -- is left of it, or the backend still names what it was refused to remove.
  pub connect-Undone :
      on_hardware_opi host sysfs b xpu ≡ false
      → Apart host sysfs stages.Fresh
      → Triple
          (λ s. stages.Fresh s.world)
          (connect_nvmf_tcp host sysfs b xpu)
          (λ _ s. stages.Up s.world)
          (λ _ s. Undone stages s.world)
        × Triple
            (λ s. stages.Fresh s.world)
            (connect_virtio_blk host sysfs b xpu)
            (λ _ s. stages.Up s.world)
            (λ _ s. Undone stages s.world)
        × Triple
            (λ s. stages.Fresh s.world)
            (connect_new_nvme host sysfs b xpu)
            (λ _ s. stages.Up s.world)
            (λ _ s. Undone stages s.world)
  connect-Undone off fresh =
      (connect_nvmf_tcp-Triple, connect_virtio_blk-Triple fresh, connect_new_nvme-Triple off fresh)
