-- ===== src/Node/Xpu/Lifecycle.antt =====
-- `Connect` and `Disconnect` of `xpuInitiator` over the transports, and the context between them.
use spdk_csi.Prelude.{◌++◌, if◌then◌else◌}
use spdk_csi.Text.{Str, str, str_eq}
use spdk_csi.Text.Decimal.{format_nat}
use spdk_csi.Effect.{
  Error, message, wrapped, error_text, good, bad, Exec, pure, raise, attempt, ignore, on_error,
  ◌>>=◌, ◌>>◌,
}
use spdk_csi.Target.Nvmf.{Map}
use spdk_csi.Controller.Message.{get, put}
use spdk_csi.Node.Host.{Host}
use spdk_csi.Node.Context.{Codec, stash_xpu_context, clean_up_xpu_context}
use spdk_csi.Node.Xpu.{
  XpuInitiator, Sysfs, XpuState, Xpu, on_world, connect_nvmf_tcp, connect_nvme, connect_virtio_blk,
  disconnect_nvmf_tcp, disconnect_nvme, disconnect_virtio_blk,
}

module _ {W : Type 0} (host : Host W) (codec : Codec) (sysfs : Sysfs W) (backend : XpuInitiator W)
    (xpu : Xpu) where
  abbrev staging_parent : Str
  staging_parent = get xpu.volume_context "stagingParentPath"

  -- The context of the backend, with the fields that `tryGetXpuContext` reads.
  unfoldable pub xpu_context : Map → XpuState W → Map
  xpu_context m s =
      put
        (put
          (put (put (put m "devicePath" s.device_path) "pfID" (format_nat s.endpoint.pf_id)) "vfID"
            (format_nat s.endpoint.vf_id))
          "pfBdf" s.bdfs.pf_bdf)
        "vfBdf" s.bdfs.vf_bdf

  abbrev context_now : Map → Exec (XpuState W) Map
  context_now m s = pure (xpu_context m s) s

  unfoldable pub save_xpu_context : Exec (XpuState W) Unit
  save_xpu_context = do
    m ← on_world backend.get_param
    ctx ← context_now m
    on_error (wrapped (str "saveXPUContext() error"))
        (on_world (stash_xpu_context host codec ctx staging_parent))

  abbrev pub unsupported : Error
  unsupported =
      message (str "unsupported xpu transport type \"" ++ (xpu.target_info.tr_type ++ str "\""))

  -- The switch over the transport types, in `Connect` and in `Disconnect`.
  abbrev pub by_type :
      {A : Type 0}
      → Exec (XpuState W) A
      → Exec (XpuState W) A
      → Exec (XpuState W) A
      → Exec (XpuState W) A
      → Exec (XpuState W) A
  by_type tcp nvme virtio_blk other =
      if str_eq xpu.target_info.tr_type (str "nvmftcp")
      then tcp
      else if str_eq xpu.target_info.tr_type (str "nvme")
      then nvme
      else if str_eq xpu.target_info.tr_type (str "virtioblk")
      then virtio_blk
      else other

  -- The errors are wrapped without a colon, and nothing looks through them. An unsupported type is
  -- not wrapped.
  abbrev connect_failed : Error → Error
  connect_failed e = message (
      str "XPU.Connect with transport type "
      ++ (xpu.target_info.tr_type ++ (str " err " ++ error_text e)))

  abbrev save_failed : Error → Error
  save_failed e = message (str "XPU.Connect saveXPUContext err " ++ error_text e)

  unfoldable pub connect : Exec (XpuState W) Str
  connect = do
    p ←
        by_type (on_error connect_failed (connect_nvmf_tcp host sysfs backend xpu))
          (on_error connect_failed (connect_nvme host sysfs backend xpu))
          (on_error connect_failed (connect_virtio_blk host sysfs backend xpu)) (raise unsupported)
    on_error save_failed save_xpu_context
    pure p

  unfoldable pub disconnect : Exec (XpuState W) Unit
  disconnect = do
    r ← attempt (
        by_type (disconnect_nvmf_tcp host sysfs backend xpu)
          (disconnect_nvme host sysfs backend xpu) (disconnect_virtio_blk host sysfs backend xpu)
          (raise unsupported))
    ignore (on_world (clean_up_xpu_context host codec staging_parent))
    elim r [ good _ ↦ pure tt | bad e ↦ raise e ]
