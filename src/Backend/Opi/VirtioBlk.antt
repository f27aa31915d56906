-- ===== src/Backend/Opi/VirtioBlk.antt =====
-- `opiInitiatorVirtioBlk` of pkg/util/opiinitiator.go.
use spdk_csi.Prelude.{[], ◌++◌}
use spdk_csi.Text.{Str, str}
use spdk_csi.Effect.{wrapped, Exec, pure, raise, zoom, attempt, ignore, ◌>>=◌, ◌>>◌, good, bad}
use spdk_csi.Target.Nvmf.{Map}
use spdk_csi.Controller.Message.{put}
use spdk_csi.Node.Xpu.{PciEndpoint, ConnectParams, XpuInitiator}
use spdk_csi.Backend.Opi.{
  virtio_blk, create_virtio_blk_device, Services, OpiCommon, keep_name, drop_name, on_service,
  delete_request, model_of, object_id, create_nvme_remote_controller, delete_nvme_remote_controller,
  create_nvmf_path, delete_nvmf_path,
}
use spdk_csi.Backend.Opi.Nvme.{ids_text, function_at}

pub record OpiVirtioBlk (W : Type 0) : Type 0 where
  pub common : OpiCommon W
  pub virtio_blk_name : Str

module _ {W A : Type 0} where
  abbrev pub on_common : Exec (OpiCommon W) A → Exec (OpiVirtioBlk W) A
  on_common = zoom (λ s. s.common) (λ c s. record s { common = c })

  abbrev pub request : Exec W A → Exec (OpiVirtioBlk W) A
  request m = on_common (on_service m)

module _ {W : Type 0} where
  abbrev pub set_virtio_blk_name : Str → OpiVirtioBlk W → OpiVirtioBlk W
  set_virtio_blk_name n s = record s { virtio_blk_name = n }

  unfoldable pub virtio_blk_param : OpiVirtioBlk W → Map
  virtio_blk_param s =
      put
        (put (put [] "nvmfRemoteControllerName" s.common.remote_controller_name) "nvmfPathName"
          s.common.path_name)
        "virtioBlkName" s.virtio_blk_name

module _ {W : Type 0} (services : Services W) (volume_context : Map) where
  unfoldable pub create_virtio_blk : PciEndpoint → Exec (OpiVirtioBlk W) Unit
  create_virtio_blk pe =
      keep_name
        (wrapped (str "failed to create virtio-blk device with " ++ (ids_text pe ++ str " error")))
        (request (
          services.create (
            create_virtio_blk_device (function_at pe) (model_of services volume_context)
              (object_id services volume_context))))
        set_virtio_blk_name

  unfoldable pub delete_virtio_blk : Exec (OpiVirtioBlk W) Unit
  delete_virtio_blk =
      drop_name (λ e. e) (λ s. s.virtio_blk_name)
        (λ n. request (services.delete (delete_request virtio_blk n))) (set_virtio_blk_name [])

  unfoldable pub cleanup : Exec (OpiVirtioBlk W) Unit
  cleanup = do
    delete_virtio_blk
    on_common (delete_nvmf_path services volume_context)
    on_common (delete_nvme_remote_controller services volume_context)

  -- The steps that the deferred clean-up covers.
  abbrev pub later_steps : ConnectParams → Exec (OpiVirtioBlk W) Unit
  later_steps params = do
    on_common (create_nvmf_path services volume_context)
    create_virtio_blk params.pci_endpoint

  unfoldable pub connect : ConnectParams → Exec (OpiVirtioBlk W) Unit
  connect params = do
    on_common (create_nvme_remote_controller services volume_context)
    r ← attempt (later_steps params)
    elim r [ good _ ↦ pure tt | bad e ↦ do ignore cleanup; raise e ]

  unfoldable pub disconnect : Exec (OpiVirtioBlk W) Unit
  disconnect = cleanup

  abbrev pub opi_initiator_virtio_blk : XpuInitiator (OpiVirtioBlk W)
  opi_initiator_virtio_blk = record {
    connect = connect;
    disconnect = disconnect;
    get_param = λ s. pure (virtio_blk_param s) s;
  }
