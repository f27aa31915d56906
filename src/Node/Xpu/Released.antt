-- ===== src/Node/Xpu/Released.antt =====
-- `Disconnect` of `xpuInitiator` over any backend that keeps its contract.
use spdk_csi.Prelude.{◌⊎◌, inl, inr, Bool, true, false, [], if◌then◌else◌}
use spdk_csi.Text.{Str, str, str_eq}
use spdk_csi.Effect.{Error, good, bad, Exec, raise, attempt, ignore, ◌>>◌}
use spdk_csi.Effect.Keeps.{
  Keeps, Keeps-bind, Keeps-if, Keeps-pure, Keeps-raise, Keeps-attempt, Keeps-cases,
}
use spdk_csi.Effect.Triple.{
  Triple, Triple-attempt, Triple-bind, Triple-pure, Triple-raise, Triple-ignore, Triple-weaken,
  Triple-strengthen, Triple-Keeps, Triple-on_error,
}
use spdk_csi.Controller.Message.{get}
use spdk_csi.Node.Host.{Op, Host, act, act_unit}
use spdk_csi.Node.Context.{Codec, clean_up_xpu_context, clean_up_context}
use spdk_csi.Node.Initiator.{wait_for_device_gone}
use spdk_csi.Node.Initiator.Kept.{act_unit-Keeps, nvmf_disconnect-Keeps, wait_for_device_gone-Keeps}
use spdk_csi.Node.Xpu.{
  XpuInitiator, Sysfs, XpuState, Xpu, PciEndpoint, PciBdfs, on_world, disconnect_nvmf_tcp,
  disconnect_nvme, disconnect_virtio_blk, on_hardware_opi, update_nvme_files_for_disconnect,
}
use spdk_csi.Node.Xpu.Lifecycle.{by_type, unsupported, disconnect}
use spdk_csi.Node.Xpu.World.{Triple-on_world}
use spdk_csi.Backend.Contract.{Stages, Contract}

module _ {B : Type 0} (host : Host B) (codec : Codec) (sysfs : Sysfs B) (stages : Stages B)
    (b : XpuInitiator B) (contract : Contract stages b) (xpu : Xpu)
    (held : (op : Op) → Keeps stages.Held (act host op))
    (gone : (op : Op) → Keeps stages.Gone (act host op)) where
  -- All is removed, or what is left is still named.
  abbrev Left : B → Type 0
  Left w = stages.Held w ⊎ stages.Gone w

  abbrev Releases : Exec (XpuState B) Unit → Type 0
  Releases m =
      Triple (λ s. stages.Held s.world) m (λ _ s. stages.Gone s.world) (λ _ s. Left s.world)

  backend-Releases : Releases (on_world b.disconnect)
  backend-Releases = Triple-weaken (λ _ s h. inl h.0) (Triple-on_world _ contract.disconnect_all)

  -- What comes before the backend's disconnection keeps what is held.
  before :
      {A : Type 0} (m : Exec B A)
      → Keeps stages.Held m
      → Triple
          (λ s. stages.Held s.world)
          (on_world m)
          (λ _ s. stages.Held s.world)
          (λ _ s. Left s.world)
  before m k = Triple-weaken (λ _ s h. inl h) (Triple-on_world m (Triple-Keeps m k))

  -- The end of the two functions that wait for the device to disappear.
  waited : (p : Str) → Releases (on_world b.disconnect >> on_world (wait_for_device_gone host p))
  waited p = Triple-bind _ _ backend-Releases λ _.
      Triple-weaken (λ _ s h. inr h)
        (Triple-on_world _ (Triple-Keeps _ (wait_for_device_gone-Keeps host gone p)))

  either :
      (e : Bool) {m n : Exec (XpuState B) Unit}
      → Releases m
      → Releases n
      → Releases (if e then m else n)
  either true t u = t
  either false t u = u

  unless_empty :
      (e : Bool) (x : Error) {m : Exec (XpuState B) Unit}
      → Releases m
      → Releases (if e then raise x else m)
  unless_empty e x t = either e (Triple-raise x (λ s h. inl h)) t

  update-Keeps :
      (pe : PciEndpoint) (bdfs : PciBdfs)
      → Keeps stages.Held (update_nvme_files_for_disconnect host sysfs b xpu pe bdfs)
  unfolding update_nvme_files_for_disconnect
  update-Keeps pe bdfs =
      Keeps-if (on_hardware_opi host sysfs b xpu) _ _
        (Keeps-bind _ _ (act_unit-Keeps host held _) (λ _. act_unit-Keeps host held _))
        (Keeps-pure tt)

  tcp-Releases : Releases (disconnect_nvmf_tcp host sysfs b xpu)
  unfolding disconnect_nvmf_tcp
  tcp-Releases =
      Triple-bind _ _ (Triple-on_error _ _ (before _ (nvmf_disconnect-Keeps host held _)))
        (λ _. backend-Releases)

  virtio_blk-Releases : Releases (disconnect_virtio_blk host sysfs b xpu)
  unfolding disconnect_virtio_blk
  virtio_blk-Releases = record {
    at = λ s h. (unless_empty (str_eq s.device_path []) _ (waited s.device_path)).at s h;
  }

  nvme-Releases : Releases (disconnect_nvme host sysfs b xpu)
  unfolding disconnect_nvme
  nvme-Releases = record {
    at = λ s h. (unless_empty (str_eq s.device_path []) _ (released s.device_path)).at s h;
  }
    where
      released :
          (p : Str)
          → Releases (λ s.
            (on_world (update_nvme_files_for_disconnect host sysfs b xpu s.endpoint s.bdfs)
                >> (on_world b.disconnect >> on_world (wait_for_device_gone host p)))
              s)
      released p = record {
        at = λ s h.
            (Triple-bind _ _ (before _ (update-Keeps s.endpoint s.bdfs)) (λ _. waited p)).at s h;
      }

  abbrev cleaning : Exec (XpuState B) Unit
  cleaning =
      ignore
        (on_world (clean_up_xpu_context host codec (get xpu.volume_context "stagingParentPath")))

  -- The saved context is removed whatever came of it.
  cleaned :
      {P : B → Type 0} {E : Error → XpuState B → Type 0}
      → ((op : Op) → Keeps P (act host op))
      → Triple (λ s. P s.world) cleaning (λ _ s. P s.world) E
  unfolding clean_up_xpu_context clean_up_context
  cleaned k = Triple-ignore _ (
      Triple-on_world _ (
        Triple-Keeps _ (
          Keeps-bind (attempt (act_unit host _)) _ (Keeps-attempt _ (act_unit-Keeps host k _))
            (λ r. Keeps-cases r _ _ (λ _. Keeps-pure tt) (λ e. Keeps-raise _)))))

  left_cleaned :
      {E : Error → XpuState B → Type 0}
      → Triple (λ s. Left s.world) cleaning (λ _ s. Left s.world) E
  left_cleaned = record {
    at = λ s. elim [
      | inl h ↦ (Triple-strengthen (λ _ _ k. inl k) (cleaned held)).at s h
      | inr h ↦ (Triple-strengthen (λ _ _ k. inr k) (cleaned gone)).at s h
    ];
  }

  by_type-Releases : Releases (
      by_type host codec sysfs b xpu
        (disconnect_nvmf_tcp host sysfs b xpu)
        (disconnect_nvme host sysfs b xpu)
        (disconnect_virtio_blk host sysfs b xpu)
        (raise (unsupported host codec sysfs b xpu)))
  by_type-Releases = either (str_eq xpu.target_info.tr_type (str "nvmftcp")) tcp-Releases (
      either (str_eq xpu.target_info.tr_type (str "nvme")) nvme-Releases (
        either (str_eq xpu.target_info.tr_type (str "virtioblk")) virtio_blk-Releases
          (Triple-raise _ (λ s h. inl h))))

  -- Over any backend that keeps its contract, on a machine whose calls leave the backend's objects
  -- alone, and from whatever the backend names: Disconnect of xpuInitiator, for every transport,
  -- returns only with all of the backend's objects removed, and when it fails they are removed all
  -- the same or the backend still names what is left.
  pub disconnect-Releases :
      Triple
        (λ s. stages.Held s.world)
        (disconnect host codec sysfs b xpu)
        (λ _ s. stages.Gone s.world)
        (λ _ s. stages.Held s.world ⊎ stages.Gone s.world)
  unfolding disconnect
  disconnect-Releases = Triple-bind _ _ (Triple-attempt _ by_type-Releases) (elim [
    | good _ ↦ Triple-bind _ _ (cleaned gone) (λ _. Triple-pure tt (λ s h. h))
    | bad e ↦ Triple-bind _ _ left_cleaned (λ _. Triple-raise e (λ s h. h))
  ])
