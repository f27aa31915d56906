-- ===== src/Backend/Opi/Creation.antt =====
-- `NewSpdkCsiOpiInitiator` of pkg/util/opiinitiator.go, and what it reads back of a stored context.
use spdk_csi.Prelude.{Option, none, some, [], ◌++◌, String, if◌then◌else◌}
use spdk_csi.Text.{Str, str, str_eq}
use spdk_csi.Effect.{message, Result, good, bad}
use spdk_csi.Target.Nvmf.{Map}
use spdk_csi.Controller.Message.{get}
use spdk_csi.Backend.Opi.{OpiCommon}
use spdk_csi.Backend.Opi.Nvme.{OpiNvme}
use spdk_csi.Backend.Opi.VirtioBlk.{OpiVirtioBlk}

pub data OpiInitiator (W : Type 0) : Type 0 where
  nvme_initiator : OpiNvme W → OpiInitiator W
  virtio_blk_initiator : OpiVirtioBlk W → OpiInitiator W

-- A field of the stored context, and the zero value where there is none.
abbrev pub stored_field : Option Map → String → Str
stored_field none k = []
stored_field (some m) k = get m k

module _ {W : Type 0} (stored : Option Map) (w : W) where
  abbrev stored_common : OpiCommon W
  stored_common = record {
    remote_controller_name = stored_field stored "nvmfRemoteControllerName";
    path_name = stored_field stored "nvmfPathName";
    world = w;
  }

  unfoldable pub stored_nvme : OpiNvme W
  stored_nvme = record {
    common = stored_common;
    subsystem_name = stored_field stored "subsystemName";
    namespace_name = stored_field stored "namespaceName";
    controller_name = stored_field stored "nvmeControllerName";
  }

  unfoldable pub stored_virtio_blk : OpiVirtioBlk W
  stored_virtio_blk = record {
    common = stored_common;
    virtio_blk_name = stored_field stored "virtioBlkName";
  }

  unfoldable pub new_spdk_csi_opi_initiator : Str → Result (OpiInitiator W)
  new_spdk_csi_opi_initiator tr_type =
      if str_eq tr_type (str "virtioblk")
      then good (virtio_blk_initiator stored_virtio_blk)
      else if str_eq tr_type (str "nvme")
      then good (nvme_initiator stored_nvme)
      else bad (message (str "unknown OPI transport type: " ++ tr_type))
