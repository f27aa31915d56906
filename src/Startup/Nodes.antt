-- ===== src/Startup/Nodes.antt =====
-- `connectXpuNode` and `newNodeServer` of pkg/spdk/nodeserver.go.
use spdk_csi.Prelude.{
  ℕ, Bool, false, ◌&&◌, not, Option, none, some, List, [], ◌∷◌, ◌++◌, if◌then◌else◌,
}
use spdk_csi.Text.{Str, str, str_eq}
use spdk_csi.Effect.{
  wrapped, is_not_exist, Result, good, bad, Exec, pure, crash, attempt, on_error, ◌>>=◌,
}
use spdk_csi.Csi.Driver.{CsiDriver}
use spdk_csi.Node.Xpu.{XpuConfig, is_kvm}
use spdk_csi.Startup.System.{System, NodeServer, XpuNode}
use spdk_csi.Startup.Config.{from_env, parse_json_file}

abbrev pub node_config_env : Str
node_config_env = str "SPDKCSI_CONFIG_NODESERVER"

abbrev pub node_config_file : Str
node_config_file = str "/etc/spdkcsi-nodeserver-config/nodeserver-config.json"

-- An OPI virtio-blk device on xPU hardware.
unfoldable pub is_unsupported : XpuConfig → Bool
is_unsupported c = str_eq c.target_type (str "xpu-opi-virtioblk") && not (is_kvm c.pci_ids)

abbrev pub without_xpu : CsiDriver → NodeServer
without_xpu d = record { driver = d; xpu_conn_client = none; xpu_config_info = none }

-- The fields that `connectXpuNode` sets, and the connection dropped where it is not supported.
unfoldable pub with_xpu : CsiDriver → Option (ℕ × XpuNode) → NodeServer
with_xpu d none = without_xpu d
with_xpu d (some (conn, x)) = record {
  driver = d;
  xpu_conn_client = if is_unsupported x.config then none else some conn;
  xpu_config_info = some x;
}

abbrev is_missing : Result Unit → Bool
is_missing (good a) = false
is_missing (bad e) = is_not_exist e

module _ {W : Type 0} (sys : System W) where
  -- An entry of the list is a pointer, which is nil for a JSON null.
  unfoldable pub connect_xpu_node : List (Option XpuNode) → Exec W (Option (ℕ × XpuNode))
  connect_xpu_node [] = pure none
  connect_xpu_node (none ∷ l) = crash
  connect_xpu_node (some x ∷ l) =
      let rest = connect_xpu_node l in
      attempt (sys.dial x.target_addr) >>= elim [ good conn ↦ pure (some (conn, x)) | bad e ↦ rest ]

  module _ (decode : Str → Result (List (Option XpuNode))) where
    unfoldable pub configured_node_server : CsiDriver → Str → Exec W NodeServer
    configured_node_server d config_file = do
      xpu_list ←
          on_error
            (wrapped (
              str "error in the configuration file specified in "
              ++ (node_config_env ++ (str " (" ++ (node_config_file ++ str " by default)")))))
            (parse_json_file sys decode config_file)
      found ← connect_xpu_node xpu_list
      pure (with_xpu d found)

    unfoldable pub new_node_server : CsiDriver → Exec W NodeServer
    new_node_server d = do
      config_file ← from_env sys node_config_env node_config_file
      r ← attempt (sys.stat config_file)
      if is_missing r then pure (without_xpu d) else configured_node_server d config_file
