-- ===== src/Target/Node.antt =====
-- Interface `SpdkNode` and its constructor `NewSpdkNode` in pkg/util/jsonrpc.go.
use spdk_csi.Prelude.Int.{ℤ}
use spdk_csi.Prelude.{List, ◌++◌, if◌then◌else◌}
use spdk_csi.Text.{Str, str, str_eq, to_lower}
use spdk_csi.Effect.{message, Exec, Result, good, bad}
use spdk_csi.Rpc.Message.{Net}
use spdk_csi.Rpc.Client.{Client, Conn, LvStore}
use spdk_csi.Rpc.Client
use spdk_csi.Target.Nvmf.{Map, NvmfNode, new_nvmf}
use spdk_csi.Target.Nvmf
use spdk_csi.Target.Iscsi.{IscsiNode, new_iscsi}
use spdk_csi.Target.Iscsi

-- The methods that a node object has; all run on the state of its connection.
pub record SpdkNode (W : Type 0) : Type 0 where
  pub info : Str
  pub lv_stores : Exec (Conn W) (List LvStore)
  pub volume_info : Str → Exec (Conn W) Map
  pub create_volume : Str → Str → ℤ → Exec (Conn W) Str
  pub clone_volume : Str → Str → Str → Exec (Conn W) Str
  pub lookup_volume : Str → Str → Exec (Conn W) Str
  pub delete_volume : Str → Exec (Conn W) Unit
  pub publish_volume : Str → Exec (Conn W) Unit
  pub unpublish_volume : Str → Exec (Conn W) Unit
  pub create_snapshot : Str → Str → Exec (Conn W) Str

module _ {W : Type 0} (net : Net W) (client : Client) where
  unfoldable pub nvmf_node : NvmfNode → SpdkNode W
  nvmf_node node = record {
    info = client.rpc_url;
    lv_stores = Client.lv_stores net client;
    volume_info = Nvmf.volume_info net client node;
    create_volume = Nvmf.create_volume net client node;
    clone_volume = Nvmf.clone_volume net client node;
    lookup_volume = Nvmf.lookup_volume net client node;
    delete_volume = Client.delete_volume net client;
    publish_volume = Nvmf.publish_volume net client node;
    unpublish_volume = Nvmf.unpublish_volume net client node;
    create_snapshot = Nvmf.create_snapshot net client node;
  }

  unfoldable pub iscsi_node : IscsiNode → SpdkNode W
  iscsi_node node = record {
    info = client.rpc_url;
    lv_stores = Client.lv_stores net client;
    volume_info = Iscsi.volume_info net client node;
    create_volume = Iscsi.create_volume net client node;
    clone_volume = Iscsi.clone_volume net client node;
    lookup_volume = Iscsi.lookup_volume net client node;
    delete_volume = Client.delete_volume net client;
    publish_volume = Iscsi.publish_volume net client node;
    unpublish_volume = Iscsi.unpublish_volume net client node;
    create_snapshot = Iscsi.create_snapshot net client node;
  }

module _ {W : Type 0} (net : Net W) where
  unfoldable pub new_spdk_node : Str → Str → Str → Str → Str → Result (SpdkNode W)
  new_spdk_node rpc_url rpc_user rpc_pass target_type target_addr =
      let client : Client = record {
        rpc_url = rpc_url;
        rpc_user = rpc_user;
        rpc_pass = rpc_pass;
      } in
      let kind = to_lower target_type in
      if str_eq kind (str "nvme-rdma")
      then good (nvmf_node net client (new_nvmf (str "RDMA") target_addr))
      else if str_eq kind (str "nvme-tcp")
      then good (nvmf_node net client (new_nvmf (str "TCP") target_addr))
      else if str_eq kind (str "iscsi")
      then good (iscsi_node net client (new_iscsi target_addr))
      else bad (message (str "unknown transport: " ++ target_type))
