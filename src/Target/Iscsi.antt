-- ===== src/Target/Iscsi.antt =====
-- The methods of `nodeISCSI` in pkg/util/iscsi.go.
pub mod Answers
use spdk_csi.Prelude.Int.{ℤ}
use spdk_csi.Prelude.{ℕ, Bool, true, false, not, ◌||◌, List, [], ◌∷◌, ◌++◌, ◌==◌, if◌then◌else◌}
use spdk_csi.Text.{Str, str, str_eq}
use spdk_csi.Effect.{
  volume_deleted, message, Exec, good, bad, pure, raise, attempt, ◌>>=◌, ◌>>◌, check,
}
use spdk_csi.Rpc.Message.{
  Request, iscsi_get_target_nodes, iscsi_create_portal_group, iscsi_create_initiator_group,
  iscsi_create_target_node, iscsi_delete_target_node, iscsi_get_portal_groups,
  iscsi_get_initiator_groups, TargetNode, flag_of, target_nodes_of, groups_of, Net,
}
use spdk_csi.Rpc.Client.{Client, Conn, call, get_volume, get_lvstore, is_volume_created}
use spdk_csi.Rpc.Client
use spdk_csi.Target.Nvmf.{Map, alias}

abbrev pub cfg_iscsi_svc_port : Str
cfg_iscsi_svc_port = str "3260"

abbrev pub number_portal_group_tag : ℕ
number_portal_group_tag = 1

abbrev pub number_initiator_group_tag : ℕ
number_initiator_group_tag = 1

abbrev pub target_queue_depth : ℕ
target_queue_depth = 64

abbrev pub iqn_prefix_name : Str
iqn_prefix_name = str "iqn.2016-06.io.spdk:"

-- `nodeISCSI` without its client.
pub record IscsiNode : Type 0 where
  pub target_addr : Str
  pub target_port : Str

unfoldable pub new_iscsi : Str → IscsiNode
new_iscsi target_addr = record { target_addr = target_addr; target_port = cfg_iscsi_svc_port }

-- The loop of `isVolumePublished`.
unfoldable pub has_alias : Str → List TargetNode → Bool
has_alias lvol_id [] = false
has_alias lvol_id (n ∷ l) = str_eq n.alias_name lvol_id || has_alias lvol_id l

-- The loop of `iscsiGetPortalGroups` and of `iscsiGetInitiatorGroups`.
unfoldable pub has_tag : ℕ → List ℕ → Bool
has_tag tag [] = false
has_tag tag (t ∷ l) = t == tag || has_tag tag l

module _ {W : Type 0} (net : Net W) (client : Client) (node : IscsiNode) where
  unfoldable pub volume_info : Str → Exec (Conn W) Map
  volume_info lvol_id = do
    exists ← is_volume_created net client lvol_id
    if not exists then raise (message (str "volume not exists: " ++ lvol_id)) else do
      lvstore ← get_lvstore net client lvol_id
      pure (
          ("targetAddr", node.target_addr)
          ∷ ("targetPort", node.target_port)
          ∷ ("iqn", iqn_prefix_name ++ lvol_id)
          ∷ ("targetType", str "iscsi")
          ∷ ("lvstore", lvstore)
          ∷ [])

  unfoldable pub create_volume : Str → Str → ℤ → Exec (Conn W) Str
  create_volume lvol_name lvs_name size_mib = do
    r ← attempt (get_volume net client (alias lvs_name lvol_name))
    elim r [
      | good lvol ↦ pure lvol.uuid
      | bad _ ↦ Client.create_volume net client lvol_name lvs_name size_mib
    ]

  unfoldable pub clone_volume : Str → Str → Str → Exec (Conn W) Str
  clone_volume lvol_name lvs_name source_lvol_id = do
    r ← attempt (get_volume net client (alias lvs_name lvol_name))
    elim r [
      | good lvol ↦ pure lvol.uuid
      | bad _ ↦ Client.clone_volume net client lvol_name source_lvol_id
    ]

  -- `GetVolume`
  unfoldable pub lookup_volume : Str → Str → Exec (Conn W) Str
  lookup_volume lvol_name lvs_name = do
    lvol ← get_volume net client (alias lvs_name lvol_name)
    pure lvol.uuid

  unfoldable pub create_snapshot : Str → Str → Exec (Conn W) Str
  create_snapshot lvol_name snapshot_name = do
    lvs_name ← get_lvstore net client lvol_name
    r ← attempt (get_volume net client (alias lvs_name snapshot_name))
    elim r [
      | good lvol ↦ pure lvol.uuid
      | bad _ ↦ Client.snapshot net client lvol_name snapshot_name
    ]

  unfoldable pub is_volume_published : Str → Exec (Conn W) Bool
  is_volume_published lvol_id = do
    r ← call net client iscsi_get_target_nodes
    check r.error
    pure (has_alias lvol_id (target_nodes_of r.result))

  -- A method whose result is a flag that must be true.
  unfoldable pub call_flag : Request → Str → Exec (Conn W) Unit
  call_flag req failure = do
    r ← call net client req
    check r.error
    if flag_of r.result then pure tt else raise (message failure)

  unfoldable pub create_portal_group_rpc : Exec (Conn W) Unit
  create_portal_group_rpc =
      call_flag
        (iscsi_create_portal_group node.target_addr node.target_port number_portal_group_tag)
        (str "create iscsi portal group failure")

  unfoldable pub create_initiator_group_rpc : List Str → List Str → Exec (Conn W) Unit
  create_initiator_group_rpc initiators netmasks =
      call_flag (iscsi_create_initiator_group initiators number_initiator_group_tag netmasks)
        (str "create iscsi initiator group failure")

  unfoldable pub create_target_node : Str → Str → Exec (Conn W) Unit
  create_target_node target_name bdev_name =
      call_flag
        (iscsi_create_target_node 0 bdev_name target_name target_name number_portal_group_tag
          number_initiator_group_tag true target_queue_depth)
        (str "create iscsi target node failure")

  unfoldable pub delete_target_node : Str → Exec (Conn W) Unit
  delete_target_node target_name =
      call_flag (iscsi_delete_target_node (iqn_prefix_name ++ target_name))
        (str "delete iscsi target node failure")

  unfoldable pub get_portal_groups : Exec (Conn W) Unit
  get_portal_groups = do
    r ← call net client iscsi_get_portal_groups
    check r.error
    if has_tag number_portal_group_tag (groups_of r.result)
        then pure tt
        else raise (message (str "port group not available"))

  unfoldable pub get_initiator_groups : Exec (Conn W) Unit
  get_initiator_groups = do
    r ← call net client iscsi_get_initiator_groups
    check r.error
    if has_tag number_initiator_group_tag (groups_of r.result)
        then pure tt
        else raise (message (str "initiator group not available"))

  -- `if err == nil { return nil }`, else go on with the next way.
  abbrev or_try : Exec (Conn W) Unit → Exec (Conn W) Unit → Exec (Conn W) Unit
  or_try m n = attempt m >>= elim [ good _ ↦ pure tt | bad _ ↦ n ]

  unfoldable pub create_portal_group : Exec (Conn W) Unit
  create_portal_group = or_try get_portal_groups (or_try create_portal_group_rpc get_portal_groups)

  unfoldable pub create_initiator_group : Exec (Conn W) Unit
  create_initiator_group =
      or_try get_initiator_groups
        (or_try (create_initiator_group_rpc (str "ANY" ∷ []) (str "ANY" ∷ [])) get_initiator_groups)

  unfoldable pub publish_volume : Str → Exec (Conn W) Unit
  publish_volume lvol_id = do
    exists ← is_volume_created net client lvol_id
    if not exists then raise volume_deleted else do
      published ← is_volume_published lvol_id
      if published
          then pure tt
          else do create_portal_group; create_initiator_group; create_target_node lvol_id lvol_id

  unfoldable pub unpublish_volume : Str → Exec (Conn W) Unit
  unpublish_volume lvol_id = do
    exists ← is_volume_created net client lvol_id
    if not exists then raise volume_deleted else do
      published ← is_volume_published lvol_id
      if not published then pure tt else delete_target_node lvol_id
