-- ===== src/Node/Attached.antt =====
-- The handlers of `nodeServer` with a connection to an xPU: what `NewSpdkCsiXpuInitiator` makes lives
-- in a slot beside the machine while the handler that made it runs.
use spdk_csi.Prelude.{ℕ, Option, none, some}
use spdk_csi.Text.{Str}
use spdk_csi.Effect.{Outcome, Result, Exec, pure, crash, zoom, ◌>>=◌, ◌>>◌}
use spdk_csi.Node.Host.{Host}
use spdk_csi.Node.Context.{Codec}
use spdk_csi.Node.Initiator.{SpdkCsiInitiator}
use spdk_csi.Node.Server.{Xpu}
use spdk_csi.Startup.System.{NodeServer}
use spdk_csi.Node.Sysfs.{host_sysfs}
use spdk_csi.Node.Xpu.{XpuConfig, XpuInitiator, Sysfs, XpuState}
use spdk_csi.Node.Xpu
use spdk_csi.Node.Xpu.Lifecycle.{connect, disconnect}
use spdk_csi.Node.Xpu.Creation.{Backend, opi, sma, CreatedXpu, new_spdk_csi_xpu_initiator}
use spdk_csi.Backend.Opi.{Services, OpiCommon}
use spdk_csi.Backend.Opi.Nvme.{OpiNvme, opi_initiator_nvme}
use spdk_csi.Backend.Opi.VirtioBlk.{OpiVirtioBlk, opi_initiator_virtio_blk}
use spdk_csi.Backend.Opi.Creation.{nvme_initiator, virtio_blk_initiator}
use spdk_csi.Backend.Sma.{
  Agent, SmaCommon, sma_initiator_nvmf_tcp, sma_initiator_nvme, sma_initiator_virtio_blk,
}
use spdk_csi.Backend.Sma.Creation.{SmaInitiator, nvmf_tcp_initiator}
use spdk_csi.Backend.Sma.Creation as Sma

pub record Attached (W : Type 0) : Type 0 where
  pub world : W
  pub object : Option CreatedXpu

-- The machine under a state that holds it.
abbrev pub host_in : {W B : Type 0} → (B → W) → (W → B → B) → Host W → Host B
host_in get set host = record {
  perform = λ op b. let (r, w) = host.perform op (get b) in (r, set w b);
  join = host.join;
}

-- The records of the initiators with another world in them.
module _ {V W : Type 0} (w : W) where
  abbrev pub xpu_in : XpuState V → XpuState W
  xpu_in s = record { device_path = s.device_path; endpoint = s.endpoint; bdfs = s.bdfs; world = w }

  abbrev common_in : OpiCommon V → OpiCommon W
  common_in s = record {
    remote_controller_name = s.remote_controller_name;
    path_name = s.path_name;
    world = w;
  }

  abbrev pub nvme_in : OpiNvme V → OpiNvme W
  nvme_in s = record {
    common = common_in s.common;
    subsystem_name = s.subsystem_name;
    namespace_name = s.namespace_name;
    controller_name = s.controller_name;
  }

  abbrev pub virtio_blk_in : OpiVirtioBlk V → OpiVirtioBlk W
  virtio_blk_in s = record { common = common_in s.common; virtio_blk_name = s.virtio_blk_name }

  abbrev pub sma_in : SmaCommon V → SmaCommon W
  sma_in s = record { device_handle = s.device_handle; volume_id = s.volume_id; world = w }

-- Where a backend's state has the world.
pub record Place (W B : Type 0) : Type 0 where
  pub world : B → W
  pub set_world : W → B → B

module _ {W : Type 0} where
  abbrev pub nvme_place : Place W (OpiNvme W)
  nvme_place = record { world = λ s. s.common.world; set_world = λ w s. nvme_in w s }

  abbrev pub virtio_blk_place : Place W (OpiVirtioBlk W)
  virtio_blk_place = record { world = λ s. s.common.world; set_world = λ w s. virtio_blk_in w s }

  abbrev pub sma_place : Place W (SmaCommon W)
  sma_place = record { world = λ s. s.world; set_world = λ w s. sma_in w s }

-- A method of an initiator over any backend.
abbrev pub Method : Type 0 → Type 1
Method A = (B : Type 0) → Host B → Codec → Sysfs B → XpuInitiator B → Xpu.Xpu → Exec (XpuState B) A

module _ {W A : Type 0} (host : Host W) (codec : Codec) (kvm_pci_bridge_count : ℕ)
    (m : Method A) where
  -- The method on an object whose backend is `b` in the state `start`, and what it leaves.
  abbrev on_backend :
      {B : Type 0}
      → Place W B
      → (B → Backend)
      → XpuInitiator B
      → CreatedXpu
      → B
      → Outcome A × Attached W
  on_backend {B} place fields_of b c start =
      let host_b = host_in place.world place.set_world host in
      let (r, s) =
        m B host_b codec (host_sysfs host_b kvm_pci_bridge_count) b c.info
          (xpu_in start c.fields) in
      (
        r,
        record {
          world = place.world s.world;
          object =
              some (record { info = c.info; fields = xpu_in tt s; backend = fields_of s.world });
        },
      )

  module _ (bridge : Services W) (agent : Agent W) where
    -- The method on an object, by its backend.
    abbrev pub on_object : CreatedXpu → Backend → W → Outcome A × Attached W
    on_object c (opi (nvme_initiator f)) w =
        on_backend nvme_place (λ s. opi (nvme_initiator (nvme_in tt s)))
          (opi_initiator_nvme bridge c.info.volume_context) c (nvme_in w f)
    on_object c (opi (virtio_blk_initiator f)) w =
        on_backend virtio_blk_place (λ s. opi (virtio_blk_initiator (virtio_blk_in tt s)))
          (opi_initiator_virtio_blk bridge c.info.volume_context) c (virtio_blk_in w f)
    on_object c (sma (nvmf_tcp_initiator f)) w =
        on_backend sma_place (λ s. sma (nvmf_tcp_initiator (sma_in tt s)))
          (sma_initiator_nvmf_tcp agent c.info.volume_context) c (sma_in w f)
    on_object c (sma (Sma.nvme_initiator f)) w =
        on_backend sma_place (λ s. sma (Sma.nvme_initiator (sma_in tt s)))
          (sma_initiator_nvme agent c.info.volume_context) c (sma_in w f)
    on_object c (sma (Sma.virtio_blk_initiator f)) w =
        on_backend sma_place (λ s. sma (Sma.virtio_blk_initiator (sma_in tt s)))
          (sma_initiator_virtio_blk agent c.info.volume_context) c (sma_in w f)

module _ {W : Type 0} (host : Host W) (codec : Codec) (kvm_pci_bridge_count : ℕ)
    (bridge : Services W) (agent : Agent W) where
  -- A method of the object in the slot.
  abbrev on_slot : {A : Type 0} → Method A → Option CreatedXpu → Exec (Attached W) A
  on_slot m none s = crash s
  on_slot m (some c) s =
      on_object host codec kvm_pci_bridge_count m bridge agent c c.backend s.world

  abbrev pub attached_initiator : SpdkCsiInitiator (Attached W)
  attached_initiator = record {
    connect = λ s. on_slot (λ B. connect) s.object s;
    disconnect = λ s. on_slot (λ B. disconnect) s.object s;
  }

  abbrev put_object : CreatedXpu → Exec (Attached W) Unit
  put_object c s = pure tt (record s { object = some c })

  -- `NewSpdkCsiXpuInitiator` on a connection to the xPU of a configuration.
  unfoldable pub attach : (parse : Str → Result Str) → XpuConfig → Xpu (Attached W)
  attach parse config volume_context = do
    c ←
        zoom (λ s. s.world) (λ w s. record s { world = w })
          (new_spdk_csi_xpu_initiator host codec parse volume_context config)
    put_object c
    pure attached_initiator

  -- What the handlers of a node server are given: no xPU without a connection. A connection without
  -- its configuration dereferences a nil pointer.
  unfoldable pub xpu_of : (parse : Str → Result Str) → NodeServer → Option (Xpu (Attached W))
  xpu_of parse ns = elim ns.xpu_conn_client [
    | none ↦ none
    | some conn ↦ elim ns.xpu_config_info [
      | none ↦ some (λ m. crash)
      | some x ↦ some (attach parse x.config)
    ]
  ]
