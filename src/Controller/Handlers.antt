-- ===== src/Controller/Handlers.antt =====
-- The handlers of `controllerServer`. A handler runs while it holds the lock of its volume; the
-- locks are modelled in Locks.antt.
use spdk_csi.Prelude.{ℕ, Bool, true, ◌&&◌, Option, none, some, List, [], ◌∷◌, ◌++◌, if◌then◌else◌}
use spdk_csi.Text.{Str, str}
use spdk_csi.Text.Decimal.{number, syntax, range, parse_int}
use spdk_csi.Effect.{
  Error, message, is_no_such_device, is_volume_deleted, is_volume_unpublished, good, bad, Exec,
  pure, raise, attempt, ignore, on_error, ◌>>=◌, ◌>>◌, internal_status,
}
use spdk_csi.Rpc.Message.{Net}
use spdk_csi.Target.Nvmf.{Map}
use spdk_csi.Csi.Driver.{has_number}
use spdk_csi.Controller.Message.{
  get, put, NodeConfig, CreateVolumeRequest, CsiVolume, DeleteVolumeRequest, CreateSnapshotRequest,
  CsiSnapshot, DeleteSnapshotRequest, Controller,
}
use spdk_csi.Controller.Server.{
  volume_id_of, get_spdk_vol, lift, run_on, SecretsReader, get_spdk_node, publish_volume,
  unpublish_volume, delete_volume, create_volume,
}

-- The loop of `CreateVolume` that copies the volume info over the context.
unfoldable pub put_all : Map → Map → Map
put_all ctx [] = ctx
put_all ctx ((k, v) ∷ info) = put_all (put ctx k v) info

abbrev pub merge_context : Option Map → Map → Map
merge_context none info = info
merge_context (some ctx) info = put_all ctx info

-- `ValidateVolumeCapabilities`: the confirmed modes, or nothing if one is not supported.
unfoldable pub all_supported : List ℕ → List ℕ → Bool
all_supported modes [] = true
all_supported modes (m ∷ l) = has_number m modes && all_supported modes l

unfoldable pub validate_volume_capabilities : Controller → List ℕ → Option (List ℕ)
unfolding all_supported
validate_volume_capabilities cs caps =
    if all_supported cs.access_modes caps then some caps else none

-- The text of a `strconv.NumError` of `ParseInt`.
unfoldable pub parse_error : Str → Str → Error
parse_error s reason = message (str "strconv.ParseInt: parsing \"" ++ (s ++ (str "\": " ++ reason)))

module _ {W : Type 0} (net : Net W) (read : SecretsReader) where
  -- The handler `CreateVolume`.
  unfoldable pub handle_create_volume :
      Controller → List NodeConfig → List NodeConfig → CreateVolumeRequest → Exec W CsiVolume
  handle_create_volume cs visit₁ visit₂ req = do
    vol ← on_error internal_status (create_volume net read cs visit₁ visit₂ req)
    info ← attempt (publish_volume net read cs vol.volume_id req.secrets)
    elim info [
      | bad e ↦ do
        ignore (delete_volume net read cs vol.volume_id req.secrets)
        raise (internal_status e)
      | good m ↦ pure (record vol { volume_context = some (merge_context vol.volume_context m) })
    ]

  -- The second half of `DeleteVolume`.
  unfoldable pub finish_delete : Controller → DeleteVolumeRequest → Exec W Unit
  finish_delete cs req = do
    r ← attempt (delete_volume net read cs req.volume_id req.secrets)
    elim r [
      | good _ ↦ pure tt
      | bad e ↦ if is_no_such_device e then pure tt else raise (internal_status e)
    ]

  -- The handler `DeleteVolume`.
  unfoldable pub handle_delete_volume : Controller → DeleteVolumeRequest → Exec W Unit
  handle_delete_volume cs req = do
    r ← attempt (unpublish_volume net read cs req.volume_id req.secrets)
    elim r [
      | good _ ↦ finish_delete cs req
      | bad e ↦
          if is_volume_unpublished e
          then finish_delete cs req
          else if is_volume_deleted e
          then pure tt
          else raise (internal_status e)
    ]

  -- The handler `CreateSnapshot`.
  unfoldable pub handle_create_snapshot : Controller → CreateSnapshotRequest → Exec W CsiSnapshot
  handle_create_snapshot cs req = do
    vol ← lift (get_spdk_vol req.source_volume_id)
    node ← on_error internal_status (get_spdk_node net read cs vol.node_name req.secrets)
    (snapshot_id, info) ← on_error internal_status (
        run_on node λ n. do
          snapshot_id ← n.create_snapshot vol.lvol_id req.name
          info ← n.volume_info vol.lvol_id
          pure (snapshot_id, info))
    elim (parse_int (get info "lvolSize")) [
      | syntax ↦ raise (internal_status (parse_error (get info "lvolSize") (str "invalid syntax")))
      | range ↦
          raise (internal_status (parse_error (get info "lvolSize") (str "value out of range")))
      | number size ↦ pure (record {
        size_bytes = size;
        snapshot_id = volume_id_of vol.node_name snapshot_id;
        source_volume_id = vol.lvol_id;
        ready_to_use = true;
      })
    ]

  -- The handler `DeleteSnapshot`.
  unfoldable pub handle_delete_snapshot : Controller → DeleteSnapshotRequest → Exec W Unit
  handle_delete_snapshot cs req = do
    vol ← lift (get_spdk_vol req.snapshot_id)
    node ← on_error internal_status (get_spdk_node net read cs vol.node_name req.secrets)
    on_error internal_status (run_on node (λ n. n.delete_volume vol.lvol_id))
