-- ===== src/Backend/Sma/Creation.antt =====
-- `NewSpdkCsiSmaInitiator` of pkg/util/smainitiator.go.
use spdk_csi.Prelude.{Option, none, some, [], ◌++◌, if◌then◌else◌}
use spdk_csi.Text.{Str, str, str_eq}
use spdk_csi.Effect.{message, Result, good, bad}
use spdk_csi.Target.Nvmf.{Map}
use spdk_csi.Controller.Message.{get}
use spdk_csi.Backend.Sma.{SmaCommon, volume_uuid}

pub data SmaInitiator (W : Type 0) : Type 0 where
  nvmf_tcp_initiator nvme_initiator virtio_blk_initiator : SmaCommon W → SmaInitiator W

abbrev stored_handle : Option Map → Str
stored_handle none = []
stored_handle (some m) = get m "deviceHandle"

module _ {W : Type 0} (stored : Option Map) (w : W) where
  abbrev sma_common : Str → SmaCommon W
  sma_common id = record { device_handle = stored_handle stored; volume_id = some id; world = w }

  abbrev by_type : Str → Result Str → Result (SmaInitiator W)
  by_type tr_type (bad e) = bad e
  by_type tr_type (good id) =
      if str_eq tr_type (str "nvmftcp")
      then good (nvmf_tcp_initiator (sma_common id))
      else if str_eq tr_type (str "nvme")
      then good (nvme_initiator (sma_common id))
      else if str_eq tr_type (str "virtioblk")
      then good (virtio_blk_initiator (sma_common id))
      else bad (message (str "unknown SMA targetType: " ++ tr_type))

  unfoldable pub new_spdk_csi_sma_initiator :
      (Str → Result Str) → Map → Str → Result (SmaInitiator W)
  new_spdk_csi_sma_initiator parse volume_context tr_type =
      by_type tr_type (volume_uuid parse (get volume_context "model"))
