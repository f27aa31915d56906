-- ===== src/Tests/Handlers.antt =====
-- The properties of the controller at concrete inputs.
use spdk_csi.Prelude.Int.{pos}
use spdk_csi.Prelude.{◌≡◌, ◌↔◌, none, some, [], ◌∷◌}
use spdk_csi.Text.{str, split, to_lower, str_eq}
use spdk_csi.Text.Laws.{Free}
use spdk_csi.Effect.{good}
use spdk_csi.Effect.Triple.{Ends}
use spdk_csi.Rpc.Message.{bdevs, lvstores, listeners}
use spdk_csi.Rpc.Log.{logged}
use spdk_csi.Controller.Message.{DeleteVolumeRequest}
use spdk_csi.Controller.Handlers.{
  validate_volume_capabilities, handle_delete_volume, handle_create_volume, handle_create_snapshot,
  handle_delete_snapshot,
}
use spdk_csi.Controller.Server.{volume_id_of, get_spdk_vol, schedule}
use spdk_csi.Controller.Ids.{get_spdk_vol-good_iff}
use spdk_csi.Controller.Capabilities.{Supported, validate_volume_capabilities_iff}
use spdk_csi.Controller.Schedule.{Scheduled, Exhausted, schedule_lem}
use spdk_csi.Controller.Deletion.{IsGone, handle_delete_volume-IsGone}
use spdk_csi.Effect.{panic}
use spdk_csi.Prelude.{refl, arith}
use spdk_csi.Controller.Message.{
  SpdkVolume, find_config, NodeConfig, Controller, CreateVolumeRequest, CreateSnapshotRequest,
}
use spdk_csi.Controller.Capacity.{Covers, handle_create_volume-Covers}
use spdk_csi.Controller.Creation.{Failed, Published, handle_create_volume-Failed}
use spdk_csi.Controller.Snapshots.{iscsi_snapshot-fails}
use spdk_csi.Controller.Unconfigured.{unconfigured_node-panic}
use spdk_csi.Tests.{token, Script, answer, refuse, script, lvol, store, config, cs, read}

abbrev request : DeleteVolumeRequest
request = record { volume_id = str "n1:v1"; secrets = [] }

-- The volume is there and not published, and it is gone when it is to be deleted.
abbrev vanishing : Script
vanishing = answer (bdevs (lvol ∷ [])) ∷ answer (listeners []) ∷ refuse (str "No such device") ∷ []

handle_delete_volume-IsGone_example :
    Ends
      (λ _ w. IsGone (str "n1:v1") w.1)
      (λ _ _. Unit)
      (handle_delete_volume (logged script) read cs request (vanishing, []))
handle_delete_volume-IsGone_example =
    (handle_delete_volume-IsGone script read cs request).at (vanishing, []) tt

schedule_lem_example :
    Ends
      (λ p w.
        Scheduled script read cs
          (pos 100)
          []
          p
          (config ∷ [])
          (answer (lvstores (store ∷ [])) ∷ [])
          w)
      (λ _ w.
        Exhausted script read cs (pos 100) [] (config ∷ []) (answer (lvstores (store ∷ [])) ∷ []) w)
      (schedule script read cs (config ∷ []) (pos 100) [] (answer (lvstores (store ∷ [])) ∷ []))
schedule_lem_example =
    schedule_lem script read cs (pos 100) [] (config ∷ []) (answer (lvstores (store ∷ [])) ∷ [])

get_spdk_vol-good_iff_example :
    (get_spdk_vol (str "n1:v1") ≡ good (record { lvol_id = str "v1"; node_name = str "n1" })) ↔ (
      (volume_id_of (str "n1") (str "v1") ≡ str "n1:v1")
      × Free b':' (str "n1")
      × Free b':' (str "v1"))
get_spdk_vol-good_iff_example =
    get_spdk_vol-good_iff (str "n1:v1") (record { lvol_id = str "v1"; node_name = str "n1" })

validate_volume_capabilities_iff_example :
    ((validate_volume_capabilities cs (1 ∷ 5 ∷ []) ≡ some (1 ∷ 5 ∷ []))
      ↔ Supported (1 ∷ []) (1 ∷ 5 ∷ []))
    × ((validate_volume_capabilities cs (1 ∷ 5 ∷ []) ≡ none) ↔ (¬ Supported (1 ∷ []) (1 ∷ 5 ∷ [])))
validate_volume_capabilities_iff_example = validate_volume_capabilities_iff cs (1 ∷ 5 ∷ [])

abbrev creating : CreateVolumeRequest
creating = record {
  name = str "pvc-1";
  required_bytes = pos 1048577;
  parameters = none;
  content_source = none;
  secrets = [];
}

-- The target has a store and no volume, and its connection is lost when the volume is looked up.
abbrev lost : Script
lost = answer (lvstores (store ∷ [])) ∷ refuse (str "No such device") ∷ []

handle_create_volume-Covers_example :
    Ends
      (λ v _. Covers 1048577 v.capacity_bytes × (v.content_source ≡ none))
      (λ _ _. Unit)
      (handle_create_volume script read cs (config ∷ []) (config ∷ []) creating lost)
handle_create_volume-Covers_example =
    (handle_create_volume-Covers script read cs (config ∷ []) (config ∷ []) creating 1048577 refl
        (omega arith)).at
      lost tt

-- The volume is found by its name, and the target does not say whether it is published.
abbrev unsure : Script
unsure =
    answer (lvstores (store ∷ []))
    ∷ answer (bdevs (lvol ∷ []))
    ∷ answer (bdevs (lvol ∷ []))
    ∷ refuse (str "Busy")
    ∷ answer (bdevs (lvol ∷ []))
    ∷ []

handle_create_volume-Failed_example :
    Ends
      (λ v w. Published script read cs [] (config ∷ []) (config ∷ []) creating unsure v w)
      (λ e w. Failed script read cs [] (config ∷ []) (config ∷ []) creating unsure e w)
      (handle_create_volume
        (logged script)
        read
        cs
        (config ∷ [])
        (config ∷ [])
        creating
        (unsure, []))
handle_create_volume-Failed_example =
    handle_create_volume-Failed script read cs (config ∷ []) (config ∷ []) creating unsure

abbrev iscsi_config : NodeConfig
iscsi_config = record config { target_type = str "iSCSI" }

abbrev iscsi_cs : Controller
iscsi_cs = record cs { spdk_node_configs = (str "n1", iscsi_config) ∷ [] }

abbrev snapping : CreateSnapshotRequest
snapping = record { source_volume_id = str "n1:v1"; name = str "s1"; secrets = [] }

abbrev known : SpdkVolume
known = record { lvol_id = str "v1"; node_name = str "n1" }

iscsi_snapshot-fails_example :
    Ends
      (λ _ _. ⊥)
      (λ _ _. Unit)
      (handle_create_snapshot script read iscsi_cs snapping (answer (bdevs (lvol ∷ [])) ∷ []))
unfolding get_spdk_vol find_config str split to_lower str_eq
iscsi_snapshot-fails_example =
    (iscsi_snapshot-fails script read iscsi_cs snapping known iscsi_config refl refl refl).at
      (answer (bdevs (lvol ∷ [])) ∷ []) tt

abbrev no_nodes : Controller
no_nodes = record cs { spdk_node_configs = [] }

unconfigured_node-panic_example :
    (handle_delete_volume script read no_nodes (record { volume_id = str "n1:v1"; secrets = [] }) []
      ≡ (panic, []))
    × (handle_create_snapshot script read no_nodes snapping [] ≡ (panic, []))
    × (handle_delete_snapshot script read no_nodes
          (record { snapshot_id = str "n1:v1"; secrets = [] })
          []
        ≡ (panic, []))
unfolding get_spdk_vol find_config str split str_eq
unconfigured_node-panic_example =
    unconfigured_node-panic script read no_nodes (str "n1:v1") (str "s1") known [] (token ∷ []) []
      refl refl refl
