-- ===== src/Backend/Opi.antt =====
-- `opiCommon` of pkg/util/opiinitiator.go, over the services of an OPI bridge.
pub mod Nvme
pub mod VirtioBlk
pub mod Creation
pub mod Ledger
pub mod Steps
pub mod Moves
pub mod Requests
pub mod NvmeSteps
pub mod NvmeDeletions
pub mod NvmeContract
pub mod VirtioBlkSteps
pub mod VirtioBlkContract
use spdk_csi.Prelude.Int.{ℤ, pos, negsuc}
use spdk_csi.Prelude.{ℕ, ◌-◌, ◌%◌, ◌^◌, Bool, true, [], ◌++◌, ltb, if◌then◌else◌}
use spdk_csi.Text.{Str, str, str_eq}
use spdk_csi.Text.Decimal.{Parsed, number, syntax, range, parse_int}
use spdk_csi.Effect.{
  Error, message, wrapped, Exec, pure, raise, zoom, attempt, on_error, ◌>>=◌, ◌>>◌, Result, good,
  bad,
}
use spdk_csi.Target.Nvmf.{Map}
use spdk_csi.Controller.Message.{get}
use spdk_csi.Controller.Handlers.{parse_error}

-- The kinds of objects that the bridge keeps for an initiator.
pub data Kind : Type 0 where
  remote_controller path subsystem controller namespace virtio_blk : Kind

-- `PciEndpoint` of the OPI API, at port 0.
pub record Function : Type 0 where
  pub physical_function : ℤ
  pub virtual_function : ℤ

-- `NvmePath` of the OPI API, over TCP and IPv4.
pub record NvmePath : Type 0 where
  pub traddr : Str
  pub trsvcid : ℤ
  pub subnqn : Str
  pub hostnqn : Str
  pub controller_name_ref : Str

-- The requests to create an object. The remote controller is multipath.
pub data CreateRequest : Type 0 where
  create_remote_controller : (id : Str) → CreateRequest
  create_path : (path : NvmePath) (id : Str) → CreateRequest
  create_subsystem : (nqn id : Str) → CreateRequest
  create_controller : (subsystem_name_ref : Str) (pcie_id : Function) (id : Str) → CreateRequest
  create_namespace :
      (subsystem_name_ref : Str) (host_nsid : ℕ) (volume_name_ref id : Str) → CreateRequest
  create_virtio_blk_device : (pcie_id : Function) (volume_name_ref id : Str) → CreateRequest

pub record DeleteRequest : Type 0 where
  pub kind : Kind
  pub name : Str
  pub allow_missing : Bool

-- The clients of the three services, a creation answered by the name of its object, and
-- `rand.Int` below a limit.
pub record Services (W : Type 0) : Type 0 where
  pub create : CreateRequest → Exec W Str
  pub delete : DeleteRequest → Exec W Unit
  pub random_below : ℕ → Exec W ℕ

-- The fields of `opiCommon` that its methods set, and the world.
pub record OpiCommon (W : Type 0) : Type 0 where
  pub remote_controller_name : Str
  pub path_name : Str
  pub world : W

abbrev pub opi_object_prefix : Str
opi_object_prefix = str "opi-spckcsi-"

abbrev pub opi_hostnqn_pref : Str
opi_hostnqn_pref = str "nqn.2023-04.io.spdk.csi:remote.controller:uuid:"

abbrev pub opi_subsystem_nqn_pref : Str
opi_subsystem_nqn_pref = str "nqn.2016-06.io.spdk.csi:subsystem:uuid:"

-- `int32(n)` of a `uint32`.
unfoldable pub to_int32 : ℕ → ℤ
to_int32 n = let u = n % 2 ^ 32 in if ltb u (2 ^ 31) then pos u else negsuc (2 ^ 32 - 1 - u)

module _ {S : Type 0} where
  -- The object that a request made is named by a field.
  abbrev pub keep_name : (Error → Error) → Exec S Str → (Str → S → S) → Exec S Unit
  keep_name f m set = do n ← on_error f m; λ s. pure tt (set n s)

  -- An object that has a name is removed, and its field cleared.
  abbrev pub drop_name : (Error → Error) → (S → Str) → (Str → Exec S Unit) → (S → S) → Exec S Unit
  drop_name f name delete clear s =
      if str_eq (name s) []
      then pure tt s
      else (do on_error f (delete (name s)); λ s'. pure tt (clear s')) s

module _ {W A : Type 0} where
  abbrev pub on_service : Exec W A → Exec (OpiCommon W) A
  on_service = zoom (λ s. s.world) (λ w s. record s { world = w })

-- A deletion is asked for with `AllowMissing: true`.
abbrev pub delete_request : Kind → Str → DeleteRequest
delete_request k n = record { kind = k; name = n; allow_missing = true }

module _ {W : Type 0} where
  abbrev pub set_remote_controller_name : Str → OpiCommon W → OpiCommon W
  set_remote_controller_name n s = record s { remote_controller_name = n }

  abbrev pub set_path_name : Str → OpiCommon W → OpiCommon W
  set_path_name n s = record s { path_name = n }

module _ {W : Type 0} (services : Services W) (volume_context : Map) where
  abbrev pub model_of : Str
  model_of = get volume_context "model"

  abbrev pub object_id : Str
  object_id = opi_object_prefix ++ model_of

  unfoldable pub create_nvme_remote_controller : Exec (OpiCommon W) Unit
  create_nvme_remote_controller =
      keep_name
        (wrapped (str "failed to create remote NVMf controller for '" ++ (object_id ++ str "'")))
        (on_service (services.create (create_remote_controller object_id)))
        set_remote_controller_name

  unfoldable pub delete_nvme_remote_controller : Exec (OpiCommon W) Unit
  delete_nvme_remote_controller =
      drop_name (λ e. e) (λ s. s.remote_controller_name)
        (λ n. on_service (services.delete (delete_request remote_controller n)))
        (set_remote_controller_name [])

  abbrev target_port : Str
  target_port = get volume_context "targetPort"

  abbrev invalid_port : Str → Error
  invalid_port reason =
      wrapped
        (str "failed to create NVMf path for '"
          ++ (model_of ++ (str "': invalid targetPort '" ++ (target_port ++ str "'"))))
        (parse_error target_port reason)

  abbrev path_to : ℤ → OpiCommon W → NvmePath
  path_to port s = record {
    traddr = get volume_context "targetAddr";
    trsvcid = port;
    subnqn = get volume_context "nqn";
    hostnqn = opi_hostnqn_pref ++ model_of;
    controller_name_ref = s.remote_controller_name;
  }

  abbrev create_path_at : Parsed → Exec (OpiCommon W) Unit
  create_path_at syntax = raise (invalid_port (str "invalid syntax"))
  create_path_at range = raise (invalid_port (str "value out of range"))
  create_path_at (number port) =
      keep_name (wrapped (str "failed to create remote NVMf path for '" ++ (object_id ++ str "'")))
        (λ s. on_service (services.create (create_path (path_to port s) object_id)) s) set_path_name

  unfoldable pub create_nvmf_path : Exec (OpiCommon W) Unit
  create_nvmf_path = create_path_at (parse_int target_port)

  unfoldable pub delete_nvmf_path : Exec (OpiCommon W) Unit
  delete_nvmf_path =
      drop_name (λ e. e) (λ s. s.path_name)
        (λ n. on_service (services.delete (delete_request path n))) (set_path_name [])
