-- ===== src/Node/Xpu/Creation/Backends.antt =====
-- The backend that `NewSpdkCsiXpuInitiator` makes of a context that was saved.
use spdk_csi.Prelude.{◌≡◌, refl, Option, some, String}
use spdk_csi.Text.{Str, str, str_eq}
use spdk_csi.Effect.{Result, good}
use spdk_csi.Target.Nvmf.{Map}
use spdk_csi.Controller.Message.{get, put}
use spdk_csi.Node.Host.{Host}
use spdk_csi.Node.Context.{Codec}
use spdk_csi.Node.Xpu.{XpuTargetType, XpuInitiator, Sysfs, XpuState, Xpu}
use spdk_csi.Node.Xpu.Lifecycle.{xpu_context}
use spdk_csi.Node.Xpu.Creation.{Backend, opi, sma, new_backend}
use spdk_csi.Backend.Opi.{OpiCommon}
use spdk_csi.Backend.Opi.Nvme.{OpiNvme, nvme_param}
use spdk_csi.Backend.Opi.VirtioBlk.{OpiVirtioBlk, virtio_blk_param}
use spdk_csi.Backend.Opi.Creation.{
  nvme_initiator, virtio_blk_initiator, stored_nvme, stored_virtio_blk, new_spdk_csi_opi_initiator,
}
use spdk_csi.Backend.Sma.{SmaCommon, sma_param, volume_uuid}
use spdk_csi.Backend.Sma.Creation.{SmaInitiator, nvmf_tcp_initiator, new_spdk_csi_sma_initiator}

abbrev pub opi_type : Str → XpuTargetType
opi_type t = record { backend = str "opi"; tr_type = t }

abbrev pub sma_type : Str → XpuTargetType
sma_type t = record { backend = str "sma"; tr_type = t }

-- The fields of a backend without its world.
module _ {V : Type 0} where
  abbrev common_fields : OpiCommon V → OpiCommon (Unit {0})
  common_fields c = record {
    remote_controller_name = c.remote_controller_name;
    path_name = c.path_name;
    world = tt;
  }

  abbrev pub nvme_fields : OpiNvme V → OpiNvme (Unit {0})
  nvme_fields o = record {
    common = common_fields o.common;
    subsystem_name = o.subsystem_name;
    namespace_name = o.namespace_name;
    controller_name = o.controller_name;
  }

  abbrev pub virtio_blk_fields : OpiVirtioBlk V → OpiVirtioBlk (Unit {0})
  virtio_blk_fields o = record {
    common = common_fields o.common;
    virtio_blk_name = o.virtio_blk_name;
  }

module _ {W : Type 0} (host : Host W) (codec : Codec) (sysfs : Sysfs W) (backend : XpuInitiator W)
    (xpu : Xpu) (s : XpuState W) (parse : Str → Result Str) (volume_context : Map) where
  abbrev pub saved_with : Map → Option Map
  saved_with m = some (xpu_context host codec sysfs backend xpu m s)

  module _ {V : Type 0} where
    -- The initiator of an agent with the handle of this one.
    abbrev pub sma_fields : Str → SmaCommon V → SmaCommon (Unit {0})
    sma_fields id a = record { device_handle = a.device_handle; volume_id = some id; world = tt }

    abbrev pub from_agent : String → SmaCommon V → Result Backend
    from_agent t a = new_backend parse volume_context (sma_type (str t)) (saved_with (sma_param a))

    -- From a context that was saved, and a model that parses as a UUID where the backend is an
    -- agent, NewSpdkCsiXpuInitiator's choice of the backend makes the initiator of the saved type
    -- with the names or the handle that it had.
    pub new_backend-restores :
        (n : OpiNvme V) (b : OpiVirtioBlk V) (a : SmaCommon V) (id : Str)
        → volume_uuid parse (get volume_context "model") ≡ good id
        → (new_backend parse volume_context (opi_type (str "nvme")) (saved_with (nvme_param n))
            ≡ good (opi (nvme_initiator (nvme_fields n))))
          × (new_backend parse volume_context
                (opi_type (str "virtioblk"))
                (saved_with (virtio_blk_param b))
              ≡ good (opi (virtio_blk_initiator (virtio_blk_fields b))))
          × (from_agent "nvmftcp" a ≡ good (sma (nvmf_tcp_initiator (sma_fields id a))))
          × (from_agent "nvme" a ≡ good (sma (SmaInitiator.nvme_initiator (sma_fields id a))))
          × (from_agent "virtioblk" a
              ≡ good (sma (SmaInitiator.virtio_blk_initiator (sma_fields id a))))
    unfolding new_backend new_spdk_csi_opi_initiator new_spdk_csi_sma_initiator stored_nvme
        stored_virtio_blk nvme_param virtio_blk_param sma_param xpu_context str str_eq get put
    new_backend-restores n b a id h = (refl, refl, rw h refl, rw h refl, rw h refl)
