-- ===== src/Controller/Message.antt =====
-- The CSI messages, the configuration and the secrets that the controller reads.
use spdk_csi.Prelude.Int.{ℤ}
use spdk_csi.Prelude.{ℕ, Bool, Option, none, some, List, [], ◌∷◌, String, if◌then◌else◌, ◌=ₛ◌}
use spdk_csi.Text.{Str, str_eq}
use spdk_csi.Target.Nvmf.{Map}

-- `m[k]` of a Go map: the zero value where the key is missing.
unfoldable pub get : Map → String → Str
get [] k = []
get ((j, v) ∷ m) k = if j =ₛ k then v else get m k

-- `m[k] = v`
unfoldable pub put : Map → String → Str → Map
put [] k v = (k, v) ∷ []
put ((j, w) ∷ m) k v = if j =ₛ k then (k, v) ∷ m else (j, w) ∷ put m k v

-- `SpdkNodeConfig`
pub record NodeConfig : Type 0 where
  pub name : Str
  pub url : Str
  pub target_type : Str
  pub target_addr : Str

-- An element of `SpdkSecrets.Tokens`
pub record Token : Type 0 where
  pub name : Str
  pub user_name : Str
  pub password : Str

-- The `oneof` of `csi.VolumeContentSource`, with the id that each case holds.
pub data ContentSource : Type 0 where
  snapshot volume : Str → ContentSource
  unset : ContentSource

pub record CreateVolumeRequest : Type 0 where
  pub name : Str
  pub required_bytes : ℤ
  pub parameters : Option Map
  pub content_source : Option ContentSource
  pub secrets : Map

pub record CsiVolume : Type 0 where
  pub capacity_bytes : ℤ
  pub volume_id : Str
  pub volume_context : Option Map
  pub content_source : Option ContentSource

pub record DeleteVolumeRequest : Type 0 where
  pub volume_id : Str
  pub secrets : Map

pub record CreateSnapshotRequest : Type 0 where
  pub source_volume_id : Str
  pub name : Str
  pub secrets : Map

-- `csi.Snapshot` without the time stamp of its creation.
pub record CsiSnapshot : Type 0 where
  pub size_bytes : ℤ
  pub snapshot_id : Str
  pub source_volume_id : Str
  pub ready_to_use : Bool

pub record DeleteSnapshotRequest : Type 0 where
  pub snapshot_id : Str
  pub secrets : Map

-- `spdkVolume`
pub record SpdkVolume : Type 0 where
  pub lvol_id : Str
  pub node_name : Str

-- `controllerServer`: the map from node names to configurations, and the driver's access modes.
pub record Controller : Type 0 where
  pub spdk_node_configs : List (Str × NodeConfig)
  pub access_modes : List ℕ

unfoldable pub find_config : Str → List (Str × NodeConfig) → Option NodeConfig
find_config name [] = none
find_config name ((k, c) ∷ m) = if str_eq k name then some c else find_config name m

unfoldable pub put_config : List (Str × NodeConfig) → NodeConfig → List (Str × NodeConfig)
put_config [] c = (c.name, c) ∷ []
put_config ((k, d) ∷ m) c = if str_eq k c.name then (c.name, c) ∷ m else (k, d) ∷ put_config m c

-- The loop of `newControllerServer` over the parsed configuration.
unfoldable pub add_configs : List (Str × NodeConfig) → List NodeConfig → List (Str × NodeConfig)
unfolding put_config
add_configs m [] = m
add_configs m (c ∷ l) = add_configs (put_config m c) l
