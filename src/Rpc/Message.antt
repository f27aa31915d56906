-- ===== src/Rpc/Message.antt =====
-- The requests that the driver sends to SPDK, what comes back, and the network between them.
use spdk_csi.Prelude.Int.{ℤ}
use spdk_csi.Prelude.{ℕ, Bool, Option, List, []}
use spdk_csi.Text.{Str, str}

-- The address of a listener, with the names of the JSON fields.
pub record Address : Type 0 where
  pub trtype : Str
  pub adrfam : Str
  pub traddr : Str
  pub trsvcid : Str

-- A method with its `params`. Constructors are named after the methods.
pub data Request : Type 0 where
  bdev_lvol_get_lvstores : Request
  bdev_lvol_create :
      (lvol_name : Str) (size : ℤ) (lvs_name clear_method : Str) (thin_provision : Bool) → Request
  bdev_lvol_clone : (clone_name snapshot_name : Str) → Request
  bdev_get_bdevs : (name : Str) → Request
  bdev_lvol_delete : (name : Str) → Request
  bdev_lvol_snapshot : (lvol_name snapshot_name : Str) → Request
  nvmf_subsystem_get_listeners : (nqn : Str) → Request
  nvmf_create_subsystem :
      (nqn : Str) (allow_any_host : Bool) (serial_number model_number : Str) → Request
  nvmf_subsystem_add_ns : (nqn bdev_name : Str) → Request
  nvmf_get_subsystems : Request
  nvmf_subsystem_add_listener : (nqn : Str) (listen_address : Address) → Request
  nvmf_subsystem_remove_ns : (nqn : Str) (nsid : ℕ) → Request
  nvmf_delete_subsystem : (nqn : Str) → Request
  nvmf_create_transport : (trtype : Str) → Request
  iscsi_get_target_nodes : Request
  iscsi_create_portal_group : (host port : Str) (tag : ℕ) → Request
  iscsi_create_initiator_group : (initiators : List Str) (tag : ℕ) (netmasks : List Str) → Request
  iscsi_create_target_node :
      (lun_id : ℕ) (bdev_name name alias_name : Str) (ig_tag pg_tag : ℕ) (disable_chap : Bool)
      (queue_depth : ℕ)
      → Request
  iscsi_delete_target_node : (name : Str) → Request
  iscsi_get_portal_groups : Request
  iscsi_get_initiator_groups : Request

-- The `method` field of the request.
unfoldable pub method : Request → Str
method bdev_lvol_get_lvstores = str "bdev_lvol_get_lvstores"
method (bdev_lvol_create _ _ _ _ _) = str "bdev_lvol_create"
method (bdev_lvol_clone _ _) = str "bdev_lvol_clone"
method (bdev_get_bdevs _) = str "bdev_get_bdevs"
method (bdev_lvol_delete _) = str "bdev_lvol_delete"
method (bdev_lvol_snapshot _ _) = str "bdev_lvol_snapshot"
method (nvmf_subsystem_get_listeners _) = str "nvmf_subsystem_get_listeners"
method (nvmf_create_subsystem _ _ _ _) = str "nvmf_create_subsystem"
method (nvmf_subsystem_add_ns _ _) = str "nvmf_subsystem_add_ns"
method nvmf_get_subsystems = str "nvmf_get_subsystems"
method (nvmf_subsystem_add_listener _ _) = str "nvmf_subsystem_add_listener"
method (nvmf_subsystem_remove_ns _ _) = str "nvmf_subsystem_remove_ns"
method (nvmf_delete_subsystem _) = str "nvmf_delete_subsystem"
method (nvmf_create_transport _) = str "nvmf_create_transport"
method iscsi_get_target_nodes = str "iscsi_get_target_nodes"
method (iscsi_create_portal_group _ _ _) = str "iscsi_create_portal_group"
method (iscsi_create_initiator_group _ _ _) = str "iscsi_create_initiator_group"
method (iscsi_create_target_node _ _ _ _ _ _ _ _) = str "iscsi_create_target_node"
method (iscsi_delete_target_node _) = str "iscsi_delete_target_node"
method iscsi_get_portal_groups = str "iscsi_get_portal_groups"
method iscsi_get_initiator_groups = str "iscsi_get_initiator_groups"

-- `BDev`; the pointer `DriverSpecific` with the one field below it.
pub record BDev : Type 0 where
  pub name : Str
  pub uuid : Str
  pub block_size : ℤ
  pub num_blocks : ℤ
  pub lvol_store_uuid : Option Str

-- An element of the result of `bdev_lvol_get_lvstores`.
pub record RawLvStore : Type 0 where
  pub free_clusters : ℤ
  pub cluster_size : ℤ
  pub total_clusters : ℤ
  pub name : Str
  pub uuid : Str

pub record Namespace : Type 0 where
  pub nsid : ℕ
  pub bdev_name : Str

pub record Subsystem : Type 0 where
  pub nqn : Str
  pub namespaces : List Namespace

-- An element of the result of `iscsi_get_target_nodes`.
pub record TargetNode : Type 0 where
  pub name : Str
  pub alias_name : Str

-- What the result variable of a call holds after the response has been decoded into it.
pub data Payload : Type 0 where
  null : Payload
  text : Str → Payload
  flag : Bool → Payload
  number : ℕ → Payload
  bdevs : List BDev → Payload
  lvstores : List RawLvStore → Payload
  listeners : List Address → Payload
  subsystems : List Subsystem → Payload
  target_nodes : List TargetNode → Payload
  groups : List ℕ → Payload

-- The result variable read at its Go type; what was not stored there is the zero value.
abbrev pub text_of : Payload → Str
text_of (text s) = s
text_of _ = []

abbrev pub flag_of : Payload → Bool
flag_of (flag b) = b
flag_of _ = Bool.false

abbrev pub number_of : Payload → ℕ
number_of (number n) = n
number_of _ = 0

abbrev pub bdevs_of : Payload → List BDev
bdevs_of (bdevs l) = l
bdevs_of _ = []

abbrev pub lvstores_of : Payload → List RawLvStore
lvstores_of (lvstores l) = l
lvstores_of _ = []

abbrev pub listeners_of : Payload → List Address
listeners_of (listeners l) = l
listeners_of _ = []

abbrev pub subsystems_of : Payload → List Subsystem
subsystems_of (subsystems l) = l
subsystems_of _ = []

abbrev pub target_nodes_of : Payload → List TargetNode
target_nodes_of (target_nodes l) = l
target_nodes_of _ = []

abbrev pub groups_of : Payload → List ℕ
groups_of (groups l) = l
groups_of _ = []

-- A POST with basic authentication and the marshalled request.
pub record HttpRequest : Type 0 where
  pub url : Str
  pub user : Str
  pub pass : Str
  pub ver : Str
  pub id : ℕ
  pub params : Request

-- The response body: the decoder's error with what it had stored by then, or the decoded struct.
pub data Body : Type 0 where
  malformed : Str → Payload → Body
  decoded : (id : ℕ) (error_code : ℤ) (error_message : Str) (result : Payload) → Body

-- No response (the error of `http.NewRequest` or `Do`), or a status code and a body.
pub data HttpReply : Type 0 where
  no_response : Str → HttpReply
  response : ℕ → Body → HttpReply

-- The network and every SPDK target behind it, with a state that the driver does not see.
pub record Net (W : Type 0) : Type 0 where
  pub send : HttpRequest → W → HttpReply × W
