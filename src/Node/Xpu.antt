-- ===== src/Node/Xpu.antt =====
-- `xpuInitiator` of pkg/util/xpuinitiator.go: a device that an xPU shows to its host. The backend is
-- an interface, and the lookups in sysfs are those of pkg/util/util.go. `phyIDLock`, which keeps the
-- connecting functions of two volumes apart, is not modelled: one of them runs at a time.
pub mod Targets
pub mod Rollback
pub mod Lifecycle
pub mod World
pub mod Composed
pub mod Released
pub mod Creation
use spdk_csi.Prelude.{
  ℕ, suc, ◌+◌, ◌-◌, ◌%◌, ◌^◌, ◌≡◌, Bool, true, false, not, ◌&&◌, ◌||◌, Option, none, some, List, [],
  ◌∷◌, ◌++◌, if◌then◌else◌,
}
use spdk_csi.Text.{Str, str, str_eq, split}
use spdk_csi.Text.Decimal.{format_nat}
use spdk_csi.Effect.{
  Error, message, wrapped, error_text, Result, good, bad, Outcome, Exec, pure, raise, crash,
  attempt, ignore, on_error, ◌>>=◌, ◌>>◌,
}
use spdk_csi.Target.Nvmf.{Map}
use spdk_csi.Controller.Message.{get, put}
use spdk_csi.Node.Host.{Op, append_file, Host, act, act_unit}
use spdk_csi.Node.Context.{Codec, stash_xpu_context, clean_up_xpu_context}
use spdk_csi.Node.Initiator.{InitiatorNvmf, nvmf_connect, nvmf_disconnect, wait_for_device_gone}

pub record XpuTargetType : Type 0 where
  pub backend : Str
  pub tr_type : Str

pub record PciIds : Type 0 where
  pub vendor_id : Str
  pub device_id : Str
  pub class_id : Str

-- Two numbers of 32 bits.
pub record PciEndpoint : Type 0 where
  pub pf_id : ℕ
  pub vf_id : ℕ

pub record PciBdfs : Type 0 where
  pub pf_bdf : Str
  pub vf_bdf : Str

-- `XpuConfig`, without the name and the address of the xPU.
pub record XpuConfig : Type 0 where
  pub target_type : Str
  pub pci_ids : PciIds

pub record ConnectParams : Type 0 where
  pub tcp_target_port : Str
  pub pci_endpoint : PciEndpoint

-- Interface `XpuInitiator`; the context of a call is its time limit only.
pub record XpuInitiator (W : Type 0) : Type 0 where
  pub connect : ConnectParams → Exec W Unit
  pub disconnect : Exec W Unit
  pub get_param : Exec W Map

-- The lookups in sysfs.
pub record Sysfs (W : Type 0) : Type 0 where
  pub get_available_functions : XpuConfig → Exec W (PciEndpoint × PciBdfs)
  pub check_if_nvme_device_exists : Str → Exec W (Result Str)
  pub get_nvme_device_name : Str → Str → Exec W Str
  pub get_virtio_blk_device_name : Str → Exec W Str

-- The fields of `xpuInitiator` that its methods set, and the world.
pub record XpuState (W : Type 0) : Type 0 where
  pub device_path : Str
  pub endpoint : PciEndpoint
  pub bdfs : PciBdfs
  pub world : W

-- The fields that stay.
pub record Xpu : Type 0 where
  pub target_info : XpuTargetType
  pub volume_context : Map
  pub xpu_config : XpuConfig

abbrev three_parts : Str → List Str → Result XpuTargetType
three_parts s (x ∷ b ∷ t ∷ []) =
    if str_eq x (str "xpu")
    then good (record { backend = b; tr_type = t })
    else bad (message (str "invalid xpuTargetType \"" ++ (s ++ str "\"")))
three_parts s _ = bad (message (str "invalid xpuTargetType \"" ++ (s ++ str "\"")))

-- `parseSpdkXpuTargetType`
unfoldable pub parse_spdk_xpu_target_type : Str → Result XpuTargetType
parse_spdk_xpu_target_type s = three_parts s (split s b'-')

abbrev pub kvm_pci_bridge_ids : PciIds
kvm_pci_bridge_ids = record {
  vendor_id = str "0x1b36";
  device_id = str "0x0001";
  class_id = str "0x060400";
}

-- `IsKvm`
unfoldable pub is_kvm : PciIds → Bool
is_kvm ids =
    str_eq ids.vendor_id kvm_pci_bridge_ids.vendor_id
    && (str_eq ids.device_id kvm_pci_bridge_ids.device_id
        && str_eq ids.class_id kvm_pci_bridge_ids.class_id)

-- `newInitiatorNVMf`
unfoldable pub new_initiator_nvmf : Str → InitiatorNvmf
new_initiator_nvmf model = record {
  target_type = str "tcp";
  target_addr = str "127.0.0.1";
  target_port = str "4421";
  nqn = str "nqn.2022-04.io.spdk.csi:cnode0:uuid:" ++ model;
  model = model;
}

module _ {W A : Type 0} where
  -- A call that touches no field of the initiator.
  abbrev pub on_world : Exec W A → Exec (XpuState W) A
  on_world m s = let (r, w) = m s.world in (r, record s { world = w })

module _ {W : Type 0} where
  abbrev pub set_device_path : Str → Exec (XpuState W) Unit
  set_device_path p s = pure tt (record s { device_path = p })

  abbrev pub set_functions : PciEndpoint × PciBdfs → Exec (XpuState W) Unit
  set_functions (pe, bdfs) s = pure tt (record s { endpoint = pe; bdfs = bdfs })

module _ {W : Type 0} (host : Host W) (sysfs : Sysfs W) (backend : XpuInitiator W) (xpu : Xpu) where
  abbrev model_of : Str
  model_of = get xpu.volume_context "model"

  unfoldable pub connect_nvmf_tcp : Exec (XpuState W) Str
  connect_nvmf_tcp = do
    on_world (
        backend.connect
          (record { tcp_target_port = str "4421"; pci_endpoint = record { pf_id = 0; vf_id = 0 } }))
    r ← attempt (on_world (nvmf_connect host (new_initiator_nvmf model_of)))
    elim r [
      | bad e ↦ do ignore (on_world backend.disconnect); raise e
      | good p ↦ do set_device_path p; pure p
    ]

  unfoldable pub connect_virtio_blk : Exec (XpuState W) Str
  connect_virtio_blk = do
    found ←
        on_error (wrapped (str "failed to detect free NVMe virtual function"))
          (on_world (sysfs.get_available_functions xpu.xpu_config))
    set_functions found
    on_world (backend.connect (record { tcp_target_port = []; pci_endpoint = found.0 }))
    r ← attempt (on_world (sysfs.get_virtio_blk_device_name found.1.vf_bdf))
    elim r [
      | bad e ↦ do ignore (on_world backend.disconnect); raise e
      | good p ↦ do set_device_path p; pure p
    ]

  -- `fmt.Sprintf` of the path of the override file; the subtraction is on 32 bits.
  abbrev override_path : PciEndpoint → PciBdfs → Str
  override_path pe bdfs =
      str "/sys/bus/pci/devices/"
      ++ (bdfs.pf_bdf
          ++ (str "/virtfn"
              ++ (format_nat ((pe.vf_id + (2 ^ 32 - 1)) % 2 ^ 32) ++ str "/driver_override")))

  abbrev pub on_hardware_opi : Bool
  on_hardware_opi =
      not (is_kvm xpu.xpu_config.pci_ids) && str_eq xpu.target_info.backend (str "opi")

  unfoldable pub update_nvme_files_for_connect : PciEndpoint → PciBdfs → Exec W Unit
  update_nvme_files_for_connect pe bdfs =
      if on_hardware_opi
      then (do
        act_unit host (append_file (override_path pe bdfs) (str "nvme"))
        act_unit host (append_file (str "/sys/bus/pci/drivers/nvme/bind") bdfs.vf_bdf))
      else pure tt

  unfoldable pub update_nvme_files_for_disconnect : PciEndpoint → PciBdfs → Exec W Unit
  update_nvme_files_for_disconnect pe bdfs =
      if on_hardware_opi
      then (do
        act_unit host (append_file (str "/sys/bus/pci/drivers/nvme/unbind") bdfs.vf_bdf)
        act_unit host (append_file (override_path pe bdfs) (str "(null)")))
      else pure tt

  -- The name of the device that is there already, or nothing; the error is only logged.
  abbrev name_or_nothing : Result Str → Str
  name_or_nothing (good n) = n
  name_or_nothing (bad e) = []

  -- `ConnectNvme` after the check for a device that is there already.
  unfoldable pub connect_new_nvme : Exec (XpuState W) Str
  connect_new_nvme = do
    found ←
        on_error (wrapped (str "failed to detect free NVMe virtual function"))
          (on_world (sysfs.get_available_functions xpu.xpu_config))
    set_functions found
    on_world (backend.connect (record { tcp_target_port = []; pci_endpoint = found.0 }))
    on_world (update_nvme_files_for_connect found.0 found.1)
    r ← attempt (on_world (sysfs.get_nvme_device_name model_of found.1.vf_bdf))
    elim r [
      | bad e ↦ do ignore (on_world backend.disconnect); raise e
      | good p ↦ do set_device_path p; pure p
    ]

  unfoldable pub connect_nvme : Exec (XpuState W) Str
  connect_nvme = do
    r ← on_world (sysfs.check_if_nvme_device_exists model_of)
    let p = name_or_nothing r
    if not (str_eq p []) then pure p else connect_new_nvme

  unfoldable pub disconnect_nvmf_tcp : Exec (XpuState W) Unit
  disconnect_nvmf_tcp = do
    on_error (wrapped (str "failed to disconnect"))
        (on_world (nvmf_disconnect host (new_initiator_nvmf model_of)))
    on_world backend.disconnect

  abbrev device_path_of : Exec (XpuState W) Str
  device_path_of s = pure s.device_path s

  abbrev functions_of : Exec (XpuState W) (PciEndpoint × PciBdfs)
  functions_of s = pure (s.endpoint, s.bdfs) s

  unfoldable pub disconnect_nvme : Exec (XpuState W) Unit
  disconnect_nvme = do
    p ← device_path_of
    if str_eq p [] then raise (message (str "failed to get block device path")) else do
      f ← functions_of
      on_world (update_nvme_files_for_disconnect f.0 f.1)
      on_world backend.disconnect
      on_world (wait_for_device_gone host p)

  unfoldable pub disconnect_virtio_blk : Exec (XpuState W) Unit
  disconnect_virtio_blk = do
    p ← device_path_of
    if str_eq p []
        then raise (message (str "failed to get block device path"))
        else do on_world backend.disconnect; on_world (wait_for_device_gone host p)
