-- ===== src/Controller/Snapshots.antt =====
-- The size that `CreateSnapshot` reports: decimal text of the volume info, read again.
use spdk_csi.Prelude.Int.{ℤ, ◌*ℤ◌, wrap64, wrap64-IsInt64}
use spdk_csi.Prelude.{
  ◌≡◌, refl, Bool, true, false, if◌then◌else◌, List, [], ◌∷◌, Option, none, some,
}
use spdk_csi.Text.{Str, str, str_eq, to_lower}
use spdk_csi.Text.Decimal.{number, syntax, range, Parsed, parse_int}
use spdk_csi.Text.Decimal.RoundTrip.{parse_int-format_int}
use spdk_csi.Effect.{
  Error, json_no_such_device, Exec, pure, raise, crash, Result, good, bad, on_error,
  internal_status, ◌>>=◌,
}
use spdk_csi.Effect.Triple.{
  Ends, Triple, Triple-bind, Triple-pure, Triple-raise, Triple-any, Triple-on_error,
}
use spdk_csi.Rpc.Message.{Net, BDev, bdev_get_bdevs, bdevs_of}
use spdk_csi.Rpc.Client.{
  Client, Conn, Called, call, error_matches, first_bdev, get_volume, get_lvstore, is_volume_created,
}
use spdk_csi.Rpc.Log.{called}
use spdk_csi.Target.Nvmf.{Map, NvmfNode}
use spdk_csi.Target.Nvmf
use spdk_csi.Target.Iscsi.{IscsiNode, new_iscsi}
use spdk_csi.Target.Iscsi
use spdk_csi.Target.Node.{SpdkNode, new_spdk_node, iscsi_node}
use spdk_csi.Controller.Message.{
  get, NodeConfig, Token, SpdkVolume, Controller, find_config, CreateSnapshotRequest, CsiSnapshot,
}
use spdk_csi.Controller.Handlers.{handle_create_snapshot}
use spdk_csi.Controller.Server.{
  SecretsReader, new_spdk_secrets, lift, find_token, get_spdk_vol, run_on, node_for, get_spdk_node,
}
use spdk_csi.Controller.Nodes.{run_on-Triple}

module _ {W : Type 0} (net : Net W) (client : Client) where
  -- The block device that `bdev_get_bdevs` answers for the volume, in the state `s`.
  abbrev pub IsAnswer : Str → Conn W → BDev → Type 0
  IsAnswer id s b =
      (rest : List BDev) × (bdevs_of (called net client (bdev_get_bdevs id) s).result ≡ b ∷ rest)

  first_bdev-IsAnswer :
      (id : Str) (s : Conn W) (l : List BDev)
      → bdevs_of (called net client (bdev_get_bdevs id) s).result ≡ l
      → Triple (λ (_ : Conn W). Unit) (first_bdev l) (λ b _. IsAnswer id s b) (λ _ _. Unit)
  first_bdev-IsAnswer id s [] e = record { at = λ t h. tt }
  first_bdev-IsAnswer id s (b ∷ l) e = Triple-pure b (λ t h. (l, e))

  get_volume-IsAnswer :
      (id : Str) (s : Conn W)
      → Triple (λ t. t ≡ s) (get_volume net client id) (λ b _. IsAnswer id s b) (λ _ _. Unit)
  unfolding get_volume call
  get_volume-IsAnswer id s =
      Triple-bind {R = λ r _. r ≡ called net client (bdev_get_bdevs id) s}
        (call net client (bdev_get_bdevs id)) _ (record { at = λ t h. rw h refl })
        (λ r. known (error_matches r.error json_no_such_device) r)
    where
      known :
          (b : Bool) (r : Called)
          → Triple
              (λ (_ : Conn W). r ≡ called net client (bdev_get_bdevs id) s)
              (if b then raise json_no_such_device else first_bdev (bdevs_of r.result))
              (λ b _. IsAnswer id s b)
              (λ _ _. Unit)
      known true r = Triple-raise _ (λ t h. tt)
      known false r = record {
        at = λ t h. (first_bdev-IsAnswer id s (bdevs_of r.result) (rw h refl)).at t tt;
      }

  -- The size in the volume info of nodeNVMf is one that CreateSnapshot reads back: the int64
  -- product of the block size and the block count of the first device that the target answered
  -- when it was asked for that volume in the state where VolumeInfo began.
  pub nvmf_volume_info-size :
      (node : NvmfNode) (id : Str) (s : Conn W)
      → Ends
          (λ info _.
            (b : BDev) × IsAnswer id s b
            × (parse_int (get info "lvolSize") ≡ number (wrap64 (b.block_size *ℤ b.num_blocks))))
          (λ _ _. Unit)
          (Nvmf.volume_info net client node id s)
  unfolding Nvmf.volume_info get
  nvmf_volume_info-size node id s =
      (Triple-bind _ _ (get_volume-IsAnswer id s) λ b. record {
        at = λ t h.
            (Triple-bind {P = λ _. Unit} {R = λ _ _. Unit} (get_lvstore net client id) _
                (Triple-any _)
                (λ l. record { at = λ _ _. (b, h, parse_int-format_int _ (wrap64-IsInt64 _)) })).at
              t tt;
      }).at
        s refl

  -- The info of an iSCSI volume has none: reading it is a syntax error.
  pub iscsi_volume_info-size :
      (node : IscsiNode) (id : Str)
      → Triple
          (λ _. Unit)
          (Iscsi.volume_info net client node id)
          (λ info _. parse_int (get info "lvolSize") ≡ syntax)
          (λ _ _. Unit)
  unfolding Iscsi.volume_info get parse_int
  iscsi_volume_info-size node id =
      Triple-bind {R = λ _ _. Unit} (is_volume_created net client id) _ (Triple-any _) (elim [
        | false ↦ Triple-raise _ (λ s h. tt)
        | true ↦
            Triple-bind {R = λ _ _. Unit} (get_lvstore net client id) _ (Triple-any _)
              (λ l. record { at = λ s h. refl })
      ])

-- The node object is none, or one of an iSCSI target.
data OnIscsi {W : Type 0} (net : Net W) : Option (SpdkNode W) → Type 0 where
  nil : OnIscsi net none
  made : (client : Client) (node : IscsiNode) → OnIscsi net (some (iscsi_node net client node))

module _ {W : Type 0} (net : Net W) (read : SecretsReader) (cs : Controller) where
  new_spdk_node-iscsi :
      (url user pass kind addr : Str)
      → to_lower kind ≡ str "iscsi"
      → new_spdk_node net url user pass kind addr
        ≡ good (
            iscsi_node net
              (record { rpc_url = url; rpc_user = user; rpc_pass = pass })
              (new_iscsi addr))
  unfolding new_spdk_node str_eq str
  new_spdk_node-iscsi url user pass kind addr h = rw h refl

  node_for-OnIscsi :
      (c : NodeConfig) (t : Option Token)
      → to_lower c.target_type ≡ str "iscsi"
      → Triple (λ _. Unit) (node_for net read c t) (λ n _. OnIscsi net n) (λ _ _. Unit)
  node_for-OnIscsi c none h = Triple-raise _ (λ s _. tt)
  node_for-OnIscsi c (some t) h =
      on_result _ _ _
        (new_spdk_node-iscsi c.url t.user_name t.password c.target_type c.target_addr h)
    where
      on_result :
          (k : Client) (node : IscsiNode) (r : Result (SpdkNode W))
          → r ≡ good (iscsi_node net k node)
          → Triple {S = W}
              (λ _. Unit)
              (elim r [ good n ↦ pure (some n) | bad _ ↦ pure none ])
              (λ n _. OnIscsi net n)
              (λ _ _. Unit)
      on_result k node (good n) e =
          let e' : n ≡ iscsi_node net k node = cc in rw e' (Triple-pure _ (λ s _. made k node))
      on_result k node (bad x) e = cc

  get_spdk_node-OnIscsi :
      (name : Str) (secrets : Map) (c : NodeConfig)
      → find_config name cs.spdk_node_configs ≡ some c
      → to_lower c.target_type ≡ str "iscsi"
      → Triple
          (λ _. Unit)
          (get_spdk_node net read cs name secrets)
          (λ n _. OnIscsi net n)
          (λ _ _. Unit)
  unfolding get_spdk_node
  get_spdk_node-OnIscsi name secrets c f h =
      Triple-bind {R = λ _ _. Unit} (lift (new_spdk_secrets read (get secrets "secret.json"))) _
        (Triple-any _) (λ l. configured (find_config name cs.spdk_node_configs) l f)
    where
      configured :
          (o : Option NodeConfig) (l : List Token)
          → o ≡ some c
          → Triple {S = W}
              (λ _. Unit)
              (elim o [ none ↦ crash | some d ↦ node_for net read d (find_token name l) ])
              (λ n _. OnIscsi net n)
              (λ _ _. Unit)
      configured none l e = cc
      configured (some d) l e =
          let e' : d ≡ c = cc in node_for-OnIscsi d (find_token name l) (rw e' h)

  -- The step on the node object: what it returns has a volume info without a size.
  abbrev SizeUnread : Str × Map → Type 0
  SizeUnread (id, info) = parse_int (get info "lvolSize") ≡ syntax

  abbrev snapshot_step : Str → Str → SpdkNode W → Exec (Conn W) (Str × Map)
  snapshot_step lvol_id name n = do
    snapshot_id ← n.create_snapshot lvol_id name
    info ← n.volume_info lvol_id
    pure (snapshot_id, info)

  snapshot_step-SizeUnread :
      (lvol_id name : Str) (k : Client) (node : IscsiNode) (n : SpdkNode W)
      → iscsi_node net k node ≡ n
      → Triple (λ _. Unit) (snapshot_step lvol_id name n) (λ r _. SizeUnread r) (λ _ _. Unit)
  unfolding iscsi_node
  snapshot_step-SizeUnread lvol_id name k node n e = rw (← e) (
      Triple-bind {R = λ _ _. Unit} (Iscsi.create_snapshot net k node lvol_id name) _ (Triple-any _)
        λ id.
          Triple-bind (Iscsi.volume_info net k node lvol_id) _
            (iscsi_volume_info-size net k node lvol_id) λ info. record { at = λ s h. h })

  snapshot-SizeUnread :
      (n : Option (SpdkNode W)) (lvol_id name : Str)
      → OnIscsi net n
      → Triple
          (λ _. Unit)
          (run_on n (snapshot_step lvol_id name))
          (λ r _. SizeUnread r)
          (λ _ _. Unit)
  snapshot-SizeUnread none lvol_id name nil = record { at = λ w _. tt }
  snapshot-SizeUnread (some n) lvol_id name (made k node) =
      run_on-Triple (λ r _. SizeUnread r) (λ _ _. Unit) (some n) (snapshot_step lvol_id name)
        λ m e.
          let e' : iscsi_node net k node ≡ m = cc in
          snapshot_step-SizeUnread lvol_id name k node m e'

  unread :
      (r : Parsed) (f : ℤ → CsiSnapshot) (x y : Error)
      → r ≡ syntax
      → Triple {S = W}
          (λ _. Unit)
          (elim r [ syntax ↦ raise x | range ↦ raise y | number size ↦ pure (f size) ])
          (λ _ _. ⊥)
          (λ _ _. Unit)
  unread syntax f x y e = Triple-raise _ (λ w _. tt)
  unread range f x y e = cc
  unread (number n) f x y e = cc

  -- For a volume of a node whose target type is iSCSI, in any case of letters, CreateSnapshot
  -- never returns a snapshot, whatever the target answers.
  pub iscsi_snapshot-fails :
      (req : CreateSnapshotRequest) (v : SpdkVolume) (c : NodeConfig)
      → get_spdk_vol req.source_volume_id ≡ good v
      → find_config v.node_name cs.spdk_node_configs ≡ some c
      → to_lower c.target_type ≡ str "iscsi"
      → Triple (λ _. Unit) (handle_create_snapshot net read cs req) (λ _ _. ⊥) (λ _ _. Unit)
  unfolding handle_create_snapshot
  iscsi_snapshot-fails req v c i f h = rw i (
      Triple-bind (on_error internal_status (get_spdk_node net read cs v.node_name req.secrets)) _
        (Triple-on_error _ _ (get_spdk_node-OnIscsi v.node_name req.secrets c f h))
        λ n. record {
          at = λ w o.
              (Triple-bind (on_error internal_status (run_on n (snapshot_step v.lvol_id req.name)))
                  _ (Triple-on_error _ _ (snapshot-SizeUnread n v.lvol_id req.name o))
                  (λ r. record {
                    at = λ w' u. (unread (parse_int (get r.1 "lvolSize")) _ _ _ u).at w' tt;
                  })).at
                w tt;
        })
