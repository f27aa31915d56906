-- ===== src/Node/Server.antt =====
-- The handlers of `nodeServer` in pkg/spdk/nodeserver.go. A handler runs while it holds the lock of
-- its volume; the locks are modelled in Locks.antt.
use spdk_csi.Prelude.{
  ℕ, Bool, false, not, ◌||◌, Option, none, some, List, [], ◌∷◌, ◌++◌, ◌==◌, if◌then◌else◌,
}
use spdk_csi.Text.{Str, str}
use spdk_csi.Effect.{
  Error, message, status, internal, error_text, is_not_exist, Result, good, bad, Exec, pure, raise,
  crash, attempt, ignore, on_error, ◌>>=◌, ◌>>◌, internal_status,
}
use spdk_csi.Target.Nvmf.{Map}
use spdk_csi.Csi.Driver.{single_node_reader_only, multi_node_reader_only, multi_node_multi_writer}
use spdk_csi.Controller.Message.{put}
use spdk_csi.Node.Host.{
  is_not_mount_point, mkdir_all, remove_all, mount, unmount, format_and_mount, flag_of, Host, act,
  act_unit,
}
use spdk_csi.Node.Context.{
  Codec, stash_volume_context, lookup_volume_context, clean_up_volume_context,
}
use spdk_csi.Node.Initiator.{SpdkCsiInitiator, new_spdk_csi_initiator}

-- The capability's mount settings, and the number of its access mode, whose message may be nil.
pub record StageRequest : Type 0 where
  pub volume_id : Str
  pub staging_target_path : Str
  pub volume_context : Option Map
  pub fs_type : Str
  pub mount_flags : List Str
  pub access_mode : Option ℕ

pub record UnstageRequest : Type 0 where
  pub volume_id : Str
  pub staging_target_path : Str

pub record PublishRequest : Type 0 where
  pub volume_id : Str
  pub staging_target_path : Str
  pub target_path : Str
  pub fs_type : Str
  pub mount_flags : List Str

-- `getStagingTargetPath`
unfoldable pub get_staging_target_path : Str → Str → Str
get_staging_target_path staging_target_path volume_id =
    staging_target_path ++ (str "/" ++ volume_id)

-- The switch of `stageVolume` over the access mode.
unfoldable pub staging_flags : ℕ → List Str → Result (List Str)
staging_flags mode flags =
    if mode == single_node_reader_only || mode == multi_node_reader_only
    then good (flags ++ (str "ro" ∷ []))
    else if mode == multi_node_multi_writer
    then bad (message (str "unsupported MULTI_NODE_MULTI_WRITER AccessMode"))
    else good flags

abbrev pub context_of : Option Map → Map
context_of none = []
context_of (some m) = m

abbrev pub unstage_failed : Str → Error → Error
unstage_failed volume_id e =
    status internal (str "unstage volume " ++ (volume_id ++ (str " failed: " ++ error_text e)))

-- The connection to an xPU, as what `NewSpdkCsiXpuInitiator` makes of a context over it.
abbrev pub Xpu : Type 0 → Type 0
Xpu W = Map → Exec W (SpdkCsiInitiator W)

module _ {W : Type 0} (host : Host W) where
  unfoldable pub is_staged : Str → Exec W Bool
  is_staged staging_path = do
    r ← attempt (act host (is_not_mount_point staging_path))
    elim r [
      | good a ↦ pure (not (flag_of a))
      | bad e ↦ if is_not_exist e then pure false else raise e
    ]

  -- `createMountPoint`: whether the path is mounted already.
  unfoldable pub create_mount_point : Str → Exec W Bool
  create_mount_point path = do
    r ← attempt (act host (is_not_mount_point path))
    elim r [
      | good a ↦ pure (not (flag_of a))
      | bad e ↦ if is_not_exist e then (do act host (mkdir_all path); pure false) else raise e
    ]

  unfoldable pub delete_mount_point : Str → Exec W Unit
  delete_mount_point path = do
    r ← attempt (act host (is_not_mount_point path))
    elim r [
      | good a ↦
          if flag_of a
          then act_unit host (remove_all path)
          else (do act host (unmount path); act_unit host (remove_all path))
      | bad e ↦ if is_not_exist e then pure tt else raise e
    ]

  abbrev pub mount_staged : Str → Str → StageRequest → Result (List Str) → Exec W Unit
  mount_staged device_path staging_path req (bad e) = raise e
  mount_staged device_path staging_path req (good flags) =
      act_unit host (format_and_mount device_path staging_path req.fs_type flags)

  -- The access mode is read through a pointer that may be nil.
  abbrev pub mount_in_mode : Str → Str → StageRequest → Option ℕ → Exec W Unit
  mount_in_mode device_path staging_path req none = crash
  mount_in_mode device_path staging_path req (some mode) =
      mount_staged device_path staging_path req (staging_flags mode req.mount_flags)

  unfoldable pub stage_volume : Str → Str → StageRequest → Exec W Unit
  stage_volume device_path staging_path req = do
    mounted ← create_mount_point staging_path
    if mounted then pure tt else mount_in_mode device_path staging_path req req.access_mode

  -- `publishVolume`, with the flag that binds the staging path.
  unfoldable pub publish_volume : Str → PublishRequest → Exec W Unit
  publish_volume staging_path req = do
    mounted ← create_mount_point req.target_path
    if mounted
        then pure tt
        else act_unit host
            (mount staging_path req.target_path req.fs_type (req.mount_flags ++ (str "bind" ∷ [])))

  unfoldable pub node_publish_volume : PublishRequest → Exec W Unit
  node_publish_volume req =
      on_error internal_status
        (publish_volume (get_staging_target_path req.staging_target_path req.volume_id) req)

  unfoldable pub node_unpublish_volume : Str → Exec W Unit
  node_unpublish_volume target_path = on_error internal_status (delete_mount_point target_path)

module _ {W : Type 0} (host : Host W) (codec : Codec) where
  -- What `NodeStageVolume` does with a connected device, before its deferred function.
  unfoldable pub stage_device : Str → Map → StageRequest → Exec W Unit
  stage_device device_path ctx req = do
    on_error internal_status (
        stage_volume host device_path
          (get_staging_target_path req.staging_target_path req.volume_id) req)
    on_error internal_status (stash_volume_context host codec ctx req.staging_target_path)

module _ {W : Type 0} where
  -- The context that the initiator is made of, to which the path is added for an xPU; writing to a
  -- nil map panics.
  abbrev pub initiator_context : Option (Xpu W) → Option Map → Str → Exec W Map
  initiator_context none ctx path = pure (context_of ctx)
  initiator_context (some x) none path = crash
  initiator_context (some x) (some m) path = pure (put m "stagingParentPath" path)

  abbrev pub lift_internal : {A : Type 0} → Result A → Exec W A
  lift_internal (good a) = pure a
  lift_internal (bad e) = raise (internal_status e)

  -- `NewSpdkCsiXpuInitiator` reads a file, `NewSpdkCsiInitiator` only looks at the context.
  abbrev pub made_by : Host W → Option (Xpu W) → Map → Exec W (SpdkCsiInitiator W)
  made_by host none m = lift_internal (new_spdk_csi_initiator host m)
  made_by host (some x) m = on_error internal_status (x m)

module _ {W : Type 0} (host : Host W) (codec : Codec) (xpu : Option (Xpu W)) where
  -- Connecting, staging, and the deferred disconnection.
  unfoldable pub connect_and_stage : SpdkCsiInitiator W → Map → StageRequest → Exec W Unit
  connect_and_stage initiator ctx req = do
    device_path ← on_error internal_status initiator.connect
    r ← attempt (stage_device host codec device_path ctx req)
    elim r [ good _ ↦ pure tt | bad e ↦ do ignore initiator.disconnect; raise e ]

  unfoldable pub node_stage_volume : StageRequest → Exec W Unit
  node_stage_volume req = do
    staged ←
        on_error internal_status
          (is_staged host (get_staging_target_path req.staging_target_path req.volume_id))
    if staged then pure tt else do
      ctx ← initiator_context xpu req.volume_context req.staging_target_path
      initiator ← made_by host xpu ctx
      connect_and_stage initiator ctx req

  -- `NodeUnstageVolume` after the mount point is gone.
  unfoldable pub disconnect_staged : UnstageRequest → Exec W Unit
  disconnect_staged req = do
    stashed ← on_error internal_status (lookup_volume_context host codec req.staging_target_path)
    ctx ← initiator_context xpu (some stashed) req.staging_target_path
    initiator ← made_by host xpu ctx
    on_error internal_status initiator.disconnect
    on_error internal_status (clean_up_volume_context host codec req.staging_target_path)

  unfoldable pub node_unstage_volume : UnstageRequest → Exec W Unit
  node_unstage_volume req = do
    let staging_path = get_staging_target_path req.staging_target_path req.volume_id
    staged ← on_error internal_status (is_staged host staging_path)
    if not staged then pure tt else do
      on_error (unstage_failed req.volume_id) (delete_mount_point host staging_path)
      disconnect_staged req
