-- ===== src/Tests/Targets.antt =====
-- The properties of the RPC client and of the targets at concrete inputs.
use spdk_csi.Prelude.{◌≡◌, ◌↔◌, ◌⊎◌, refl, false, none, [], ◌∷◌}
use spdk_csi.Text.{Str, str}
use spdk_csi.Effect.{ok, panic, json_no_such_device}
use spdk_csi.Effect.Triple.{Ends}
use spdk_csi.Rpc.Message.{
  bdev_get_bdevs, bdev_lvol_delete, method, bdevs, listeners, number, null, bdevs_of,
}
use spdk_csi.Rpc.Client.{Conn, Called, check_reply, error_matches, call, get_volume}
use spdk_csi.Rpc.Client.Call.{Answers, reply_to, call_succeeds_iff}
use spdk_csi.Rpc.Client.Errors.{get_volume_panics_iff}
use spdk_csi.Rpc.Log.{logged, log_of}
use spdk_csi.Target.Nvmf.{get_volume_nqn, volume_info, publish_volume, unpublish_volume}
use spdk_csi.Target.Nvmf.Footprint.{
  Only, Touches, publish_volume-footprint, unpublish_volume-footprint,
}
use spdk_csi.Target.Nvmf.Stage.{At, absent, exported, IsListed, IsUnlisted, IsDeleted}
use spdk_csi.Target.Nvmf.Stage.Publish.{publish_volume-stage}
use spdk_csi.Target.Nvmf.Stage.Unpublish.{unpublish_volume-stage}
use spdk_csi.Prelude.{◌++◌, true, false}
use spdk_csi.Prelude.Int.{◌*ℤ◌, wrap64}
use spdk_csi.Text.Decimal.{parse_int, number as number_read}
use spdk_csi.Rpc.Message.{
  BDev, lvstores, target_nodes, flag, iscsi_get_target_nodes, iscsi_create_target_node,
  iscsi_delete_target_node,
}
use spdk_csi.Target.Iscsi.{IscsiNode}
use spdk_csi.Target.Iscsi
use spdk_csi.Target.Iscsi.Answers.{
  Last, Lists, Agreed, publish_volume-answer, unpublish_volume-answer,
}
use spdk_csi.Controller.Message.{get}
use spdk_csi.Controller.Snapshots.{IsAnswer, nvmf_volume_info-size}
use spdk_csi.Tests.{store, Script, answer, refuse, script, client, node, start, lvol, own}

abbrev id : Str
id = str "v1"

-- The target has the volume and no subsystem, and refuses the listener.
abbrev refusing : Script
refusing =
    answer (bdevs (lvol ∷ []))
    ∷ refuse (str "Invalid parameters")
    ∷ answer null
    ∷ answer null
    ∷ answer (number 1)
    ∷ refuse (str "no address")
    ∷ refuse (str "busy")
    ∷ refuse (str "busy")
    ∷ []

publish_volume-stage_example :
    Ends
      (λ _ s.
        At (get_volume_nqn id) exported s
        ⊎ (At (get_volume_nqn id) absent s × IsListed node id (log_of s)))
      (λ _ s. At (get_volume_nqn id) absent s)
      (publish_volume (logged script) client node id (start refusing))
publish_volume-stage_example = (publish_volume-stage script client node id).at (start refusing) refl

unpublish_volume-stage_example :
    Ends
      (λ _ s.
        IsDeleted id (log_of s) ⊎ (At (get_volume_nqn id) absent s × IsUnlisted node id (log_of s)))
      (λ _ _. Unit)
      (unpublish_volume
        (logged script)
        client
        node
        id
        (start (answer (bdevs (lvol ∷ [])) ∷ answer (listeners (own ∷ [])) ∷ [])))
unpublish_volume-stage_example =
    (unpublish_volume-stage script client node id absent).at
      (start (answer (bdevs (lvol ∷ [])) ∷ answer (listeners (own ∷ [])) ∷ [])) refl

publish_volume-footprint_example :
    Only (Touches id) (publish_volume (logged script) client node id (start refusing)).1
publish_volume-footprint_example =
    (publish_volume-footprint script client node id).at (start refusing) tt

unpublish_volume-footprint_example :
    Only (Touches id) (unpublish_volume (logged script) client node id (start refusing)).1
unpublish_volume-footprint_example =
    (unpublish_volume-footprint script client node id).at (start refusing) tt

abbrev plain : Script → Conn Script
plain l = record { rpc_id = 4294967295; trans_created = 0; world = l }

call_succeeds_iff_example :
    (r : Called) × ((call script client (bdev_lvol_delete id) (plain (answer null ∷ []))).0 ≡ ok r)
    × ((r.error ≡ none)
        ↔ Answers 0 (reply_to script client (bdev_lvol_delete id) (plain (answer null ∷ []))))
    × ((call script client (bdev_lvol_delete id) (plain (answer null ∷ []))).1.rpc_id ≡ 0)
    × ((call script client (bdev_lvol_delete id) (plain (answer null ∷ []))).1.trans_created ≡ 0)
call_succeeds_iff_example =
    call_succeeds_iff script client (bdev_lvol_delete id) (plain (answer null ∷ []))

get_volume_panics_iff_example : ((get_volume script client id (plain [])).0 ≡ panic) ↔ (
    (error_matches
        (check_reply
          (method (bdev_get_bdevs id))
          0
          (reply_to script client (bdev_get_bdevs id) (plain []))).error
        json_no_such_device
      ≡ false)
    × (bdevs_of
          (check_reply
            (method (bdev_get_bdevs id))
            0
            (reply_to script client (bdev_get_bdevs id) (plain []))).result
        ≡ []))
get_volume_panics_iff_example = get_volume_panics_iff script client id (plain [])

nvmf_volume_info-size_example :
    Ends
      (λ info _.
        (b : BDev) × IsAnswer script client id
          (plain (
            answer (bdevs (lvol ∷ []))
            ∷ answer (bdevs (lvol ∷ []))
            ∷ answer (lvstores (store ∷ []))
            ∷ []))
          b
        × (parse_int (get info "lvolSize") ≡ number_read (wrap64 (b.block_size *ℤ b.num_blocks))))
      (λ _ _. Unit)
      (volume_info script client node id (
        plain (
          answer (bdevs (lvol ∷ []))
          ∷ answer (bdevs (lvol ∷ []))
          ∷ answer (lvstores (store ∷ []))
          ∷ [])))
nvmf_volume_info-size_example = nvmf_volume_info-size script client node id (
    plain (
      answer (bdevs (lvol ∷ []))
      ∷ answer (bdevs (lvol ∷ []))
      ∷ answer (lvstores (store ∷ []))
      ∷ []))

abbrev iscsi : IscsiNode
iscsi = record { target_addr = str "10.0.0.1"; target_port = str "3260" }

-- The volume is there, and the target serves it already.
abbrev serving : Script
serving =
    answer (bdevs (lvol ∷ []))
    ∷ answer (target_nodes (record { name = str "iqn.2016-06.io.spdk:v1"; alias_name = id } ∷ []))
    ∷ answer (flag true)
    ∷ []

publish_volume-answer_example :
    Ends
      (λ _ s.
        Last iscsi_get_target_nodes (Lists id true) (log_of s)
        ⊎ Last (iscsi_create_target_node 0 id id id 1 1 true 64) Agreed (log_of s))
      (λ _ _. Unit)
      (Iscsi.publish_volume (logged script) client iscsi id (start serving))
publish_volume-answer_example = (publish_volume-answer script client iscsi id).at (start serving) tt

unpublish_volume-answer_example :
    Ends
      (λ _ s.
        Last iscsi_get_target_nodes (Lists id false) (log_of s)
        ⊎ Last (iscsi_delete_target_node (Iscsi.iqn_prefix_name ++ id)) Agreed (log_of s))
      (λ _ _. Unit)
      (Iscsi.unpublish_volume (logged script) client iscsi id (start serving))
unpublish_volume-answer_example =
    (unpublish_volume-answer script client iscsi id).at (start serving) tt
