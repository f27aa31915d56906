-- ===== src/Csi/Defaults.antt =====
-- The default servers of pkg/csi-common, and the lists of capabilities that pkg/spdk answers with.
use spdk_csi.Prelude.{ℕ, List, [], ◌∷◌}
use spdk_csi.Text.{Str}
use spdk_csi.Effect.{status, unimplemented, Result, good, bad}
use spdk_csi.Csi.Driver.{CsiDriver}

-- The methods of `DefaultControllerServer`.
pub data ControllerRpc : Type 0 where
  rpc_create_volume rpc_delete_volume rpc_controller_publish_volume : ControllerRpc
  rpc_controller_unpublish_volume rpc_validate_volume_capabilities : ControllerRpc
  rpc_list_volumes rpc_get_capacity rpc_controller_get_volume : ControllerRpc
  rpc_controller_get_capabilities rpc_create_snapshot rpc_delete_snapshot : ControllerRpc
  rpc_list_snapshots rpc_controller_expand_volume : ControllerRpc

-- What each answers: the driver's capabilities for one, nothing for the others.
unfoldable pub default_controller : CsiDriver → ControllerRpc → Result (List ℕ)
default_controller d rpc_controller_get_capabilities = good d.caps
default_controller d _ = bad (status unimplemented [])

-- The methods of `DefaultNodeServer`.
pub data NodeRpc : Type 0 where
  rpc_node_publish_volume rpc_node_unpublish_volume rpc_node_get_info : NodeRpc
  rpc_node_get_capabilities rpc_node_get_volume_stats rpc_node_stage_volume : NodeRpc
  rpc_node_unstage_volume rpc_node_expand_volume : NodeRpc

pub data NodeAnswer : Type 0 where
  node_info : (node_id : Str) → NodeAnswer
  node_capabilities : List ℕ → NodeAnswer

-- The protobuf numbers of `NodeServiceCapability_RPC_Type`.
abbrev node_rpc_unknown : ℕ
node_rpc_unknown = 0

abbrev stage_unstage_volume : ℕ
stage_unstage_volume = 1

unfoldable pub default_node : CsiDriver → NodeRpc → Result NodeAnswer
default_node d rpc_node_get_info = good (node_info d.node_id)
default_node d rpc_node_get_capabilities = good (node_capabilities (node_rpc_unknown ∷ []))
default_node d _ = bad (status unimplemented [])

-- `NodeGetCapabilities` of `nodeServer`.
unfoldable pub node_get_capabilities : List ℕ
node_get_capabilities = stage_unstage_volume ∷ []

-- The two kinds of a `PluginCapability`, with their protobuf numbers.
pub data PluginCapability : Type 0 where
  service volume_expansion : ℕ → PluginCapability

-- `CONTROLLER_SERVICE` of one kind and `UNKNOWN` of the other.
abbrev controller_service_number : ℕ
controller_service_number = 1

abbrev expansion_unknown : ℕ
expansion_unknown = 0

-- `GetPluginCapabilities` of `DefaultIdentityServer`, and of `identityServer`.
unfoldable pub default_plugin_capabilities : List PluginCapability
default_plugin_capabilities = service controller_service_number ∷ []

unfoldable pub get_plugin_capabilities : List PluginCapability
get_plugin_capabilities =
    service controller_service_number ∷ volume_expansion expansion_unknown ∷ []
