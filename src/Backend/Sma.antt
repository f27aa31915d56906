-- ===== src/Backend/Sma.antt =====
-- pkg/util/smainitiator.go: the backends over a storage management agent. The agent is a parameter,
-- and so is the UUID parser of github.com/google/uuid.
pub mod Ledger
pub mod Steps
pub mod Contract
pub mod VirtioBlk
pub mod Creation
use spdk_csi.Prelude.{ℕ, Option, none, some, List, [], ◌∷◌, ◌++◌, if◌then◌else◌}
use spdk_csi.Text.{Str, str, str_eq}
use spdk_csi.Effect.{
  Error, message, wrapped, Result, good, bad, Exec, pure, raise, zoom, attempt, ignore, on_error,
  ◌>>=◌, ◌>>◌,
}
use spdk_csi.Target.Nvmf.{Map}
use spdk_csi.Controller.Message.{get, put}
use spdk_csi.Node.Xpu.{PciEndpoint, ConnectParams, XpuInitiator}

-- The discovery endpoint and the host of a volume's connection.
pub record VolumeConnection : Type 0 where
  pub hostnqn : Str
  pub trtype : Str
  pub traddr : Str
  pub trsvcid : Str

-- The id is a slice of bytes that may be nil.
pub record VolumeParameters : Type 0 where
  pub volume_id : Option Str
  pub connection : VolumeConnection

-- The parameters of a device by its kind; every host may use one over TCP.
pub data DeviceParameters : Type 0 where
  nvmf_tcp : (subnqn adrfam traddr trsvcid : Str) → DeviceParameters
  nvme : (physical_id virtual_id : ℕ) → DeviceParameters
  virtio_blk : (physical_id virtual_id : ℕ) → DeviceParameters

pub record CreateDeviceRequest : Type 0 where
  pub volume : Option VolumeParameters
  pub params : DeviceParameters

pub record AttachVolumeRequest : Type 0 where
  pub volume : VolumeParameters
  pub device_handle : Str

pub record DetachVolumeRequest : Type 0 where
  pub volume_id : Option Str
  pub device_handle : Str

-- The client of the agent. A response may be nil; that of `CreateDevice` holds the handle.
pub record Agent (W : Type 0) : Type 0 where
  pub create : CreateDeviceRequest → Exec W (Option Str)
  pub attach : AttachVolumeRequest → Exec W (Option (Unit {0}))
  pub detach : DetachVolumeRequest → Exec W (Option (Unit {0}))
  pub delete : (handle : Str) → Exec W (Option (Unit {0}))

-- The fields of `smaCommon` that its methods set, and the world.
pub record SmaCommon (W : Type 0) : Type 0 where
  pub device_handle : Str
  pub volume_id : Option Str
  pub world : W

abbrev pub quoted : Str → Str
quoted s = str "'" ++ (s ++ str "'")

module _ {W A : Type 0} where
  abbrev pub on_agent : Exec W A → Exec (SmaCommon W) A
  on_agent = zoom (λ s. s.world) (λ w s. record s { world = w })

module _ {W : Type 0} where
  abbrev pub set_handle : Str → Exec (SmaCommon W) Unit
  set_handle h s = pure tt (record s { device_handle = h })

  abbrev pub set_volume : Option Str → Exec (SmaCommon W) Unit
  set_volume v s = pure tt (record s { volume_id = v })

  unfoldable pub sma_param : SmaCommon W → Map
  sma_param s = put [] "deviceHandle" s.device_handle

module _ {W : Type 0} (agent : Agent W) (volume_context : Map) where
  abbrev model : Str
  model = get volume_context "model"

  abbrev pub keep_handle : Option Str → Exec (SmaCommon W) Unit
  keep_handle none = raise (message (str "create device: nil response"))
  keep_handle (some h) =
      if str_eq h []
      then raise
          (message (str "create device " ++ (quoted model ++ str ": no device handle in response")))
      else set_handle h

  -- `CreateDevice`
  unfoldable pub create_device : CreateDeviceRequest → Exec (SmaCommon W) Unit
  create_device req = do
    r ←
        on_error (wrapped (str "failed to create device for id " ++ quoted model))
          (on_agent (agent.create req))
    keep_handle r

  abbrev pub answered : Str → Exec (SmaCommon W) Unit → Option (Unit {0}) → Exec (SmaCommon W) Unit
  answered what next none = raise (message (what ++ str ": nil response"))
  answered what next (some _) = next

  -- `AttachVolume`
  unfoldable pub attach_volume : AttachVolumeRequest → Exec (SmaCommon W) Unit
  attach_volume req = do
    r ←
        on_error
          (wrapped (
            str "failed to attach volume \""
            ++ (model ++ (str "\" to device " ++ quoted req.device_handle))))
          (on_agent (agent.attach req))
    answered
        (str "attach volume " ++ (quoted model ++ (str " for device " ++ quoted req.device_handle)))
        (set_volume req.volume.volume_id) r

  -- `DetachVolume`
  unfoldable pub detach_volume : DetachVolumeRequest → Exec (SmaCommon W) Unit
  detach_volume req = do
    r ←
        on_error
          (wrapped (
            str "failed to detach volume \""
            ++ (model ++ (str "\" from device " ++ quoted req.device_handle))))
          (on_agent (agent.detach req))
    answered
        (str "detach volume "
          ++ (quoted model ++ (str " from volume " ++ quoted req.device_handle)))
        (set_volume none) r

  -- `DeleteDevice`
  unfoldable pub delete_device : Str → Exec (SmaCommon W) Unit
  delete_device handle = do
    r ←
        on_error (wrapped (str "failed to delete device " ++ quoted handle))
          (on_agent (agent.delete handle))
    answered (str "delete device " ++ quoted handle) (set_handle []) r

  -- `nvmfVolumeParameters`
  abbrev pub connection : VolumeConnection
  connection = record {
    hostnqn = get volume_context "nqn";
    trtype = get volume_context "targetType";
    traddr = get volume_context "targetAddr";
    trsvcid = get volume_context "targetPort";
  }

  -- The volume of the object, to the device that it names.
  abbrev attach_request : SmaCommon W → AttachVolumeRequest
  attach_request s = record {
    volume = record { volume_id = s.volume_id; connection = connection };
    device_handle = s.device_handle;
  }

  -- The volume is attached to the new device, which is deleted if that fails.
  unfoldable pub attach_or_delete : Exec (SmaCommon W) Unit
  attach_or_delete = do
    r ← attempt (λ s. attach_volume (attach_request s) s)
    elim r [ good _ ↦ pure tt | bad e ↦ do ignore (λ s. delete_device s.device_handle s); raise e ]

  unfoldable pub connect_nvmf_tcp : ConnectParams → Exec (SmaCommon W) Unit
  connect_nvmf_tcp params = do
    create_device (record {
      volume = none;
      params =
          nvmf_tcp (str "nqn.2022-04.io.spdk.csi:cnode0:uuid:" ++ model) (str "ipv4")
            (str "127.0.0.1") params.tcp_target_port;
    })
    attach_or_delete

  unfoldable pub connect_nvme : ConnectParams → Exec (SmaCommon W) Unit
  connect_nvme params = do
    create_device (record {
      volume = none;
      params = nvme params.pci_endpoint.pf_id params.pci_endpoint.vf_id;
    })
    attach_or_delete

  unfoldable pub connect_virtio_blk : ConnectParams → Exec (SmaCommon W) Unit
  connect_virtio_blk params s =
      if str_eq s.device_handle []
      then create_device
          (record {
            volume = some (record { volume_id = s.volume_id; connection = connection });
            params = virtio_blk params.pci_endpoint.pf_id params.pci_endpoint.vf_id;
          })
          s
      else pure tt s

  -- The error of the detachment over TCP is wrapped once more.
  abbrev detach_failed : Str → Str → Error → Error
  detach_failed volume handle =
      wrapped (
        str "failed to detach volume " ++ (quoted volume ++ (str " from device " ++ quoted handle)))

  abbrev same_error : Str → Str → Error → Error
  same_error volume handle e = e

  -- The volume that the object names is detached.
  abbrev pub detach_named : (Str → Str → Error → Error) → Str → Option Str → Exec (SmaCommon W) Unit
  detach_named f handle none = pure tt
  detach_named f handle (some v) =
      on_error (f v handle) (detach_volume (record { volume_id = some v; device_handle = handle }))

  abbrev pub detach_and_delete : (Str → Str → Error → Error) → Exec (SmaCommon W) Unit
  detach_and_delete f s =
      if str_eq s.device_handle []
      then pure tt s
      else (detach_named f s.device_handle s.volume_id >> (λ s'. delete_device s'.device_handle s'))
          s

  unfoldable pub disconnect_nvmf_tcp : Exec (SmaCommon W) Unit
  disconnect_nvmf_tcp = detach_and_delete detach_failed

  unfoldable pub disconnect_nvme : Exec (SmaCommon W) Unit
  disconnect_nvme = detach_and_delete same_error

  unfoldable pub disconnect_virtio_blk : Exec (SmaCommon W) Unit
  disconnect_virtio_blk s =
      if str_eq s.device_handle [] then pure tt s else delete_device s.device_handle s

  abbrev pub sma_initiator_nvmf_tcp : XpuInitiator (SmaCommon W)
  sma_initiator_nvmf_tcp = record {
    connect = connect_nvmf_tcp;
    disconnect = disconnect_nvmf_tcp;
    get_param = λ s. pure (sma_param s) s;
  }

  abbrev pub sma_initiator_nvme : XpuInitiator (SmaCommon W)
  sma_initiator_nvme = record {
    connect = connect_nvme;
    disconnect = disconnect_nvme;
    get_param = λ s. pure (sma_param s) s;
  }

  abbrev pub sma_initiator_virtio_blk : XpuInitiator (SmaCommon W)
  sma_initiator_virtio_blk = record {
    connect = connect_virtio_blk;
    disconnect = disconnect_virtio_blk;
    get_param = λ s. pure (sma_param s) s;
  }

-- `volumeUUID`, over `uuid.Parse` and `MarshalBinary`.
unfoldable pub volume_uuid : (Str → Result Str) → Str → Result Str
volume_uuid parse [] = bad (message (str "no volume available"))
volume_uuid parse (c ∷ m) = elim (parse (c ∷ m)) [
  | good b ↦ good b
  | bad e ↦ bad (wrapped (str "uuid.Parse(" ++ ((c ∷ m) ++ str ") failed")) e)
]
