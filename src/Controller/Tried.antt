-- ===== src/Controller/Tried.antt =====
-- `deleteVolume` of `controllerServer`: the deletion that it asks for, whatever comes back.
use mathlib.Core.Path.{subst, sym}
use spdk_csi.Prelude.{◌≡◌, refl, ◌⊎◌, inl, inr, [], ◌∷◌}
use spdk_csi.Text.{Str}
use spdk_csi.Effect.{Error, err, json_no_such_device, Result, good, bad}
use spdk_csi.Effect.Keeps.{Keeps-if, Keeps-raise, Keeps-check}
use spdk_csi.Effect.Triple.{
  Triple, Triple-bind, Triple-pure, Triple-raise, Triple-at, Triple-both, Triple-weaken,
  Triple-strengthen, Triple-Keeps,
}
use spdk_csi.Rpc.Message.{bdev_lvol_delete, Net}
use spdk_csi.Rpc.Client.{Client, Conn, call, check_reply, error_matches}
use spdk_csi.Rpc.Client
use spdk_csi.Rpc.Log.{Log, logged, log_of}
use spdk_csi.Target.Nvmf.{Map}
use spdk_csi.Target.Node.{SpdkNode, nvmf_node, iscsi_node}
use spdk_csi.Target.Unpublish.{Made, nvmf, iscsi}
use spdk_csi.Controller.Message.{SpdkVolume, Controller}
use spdk_csi.Controller.Server.{SecretsReader, get_spdk_vol, lift, get_spdk_node, delete_volume}
use spdk_csi.Controller.Nodes.{AllMade, run_on-Triple, get_spdk_node-Triple}

-- The last request that was sent asks for the deletion of the volume.
abbrev pub IsAsked : Str → Log → Type 0
IsAsked id [] = ⊥
IsAsked id (x ∷ log) = x.request ≡ bdev_lvol_delete id

module _ {W : Type 0} (net : Net W) (client : Client) (id : Str) where
  client-IsAsked :
      Triple
        (λ _. Unit)
        (Client.delete_volume (logged net) client id)
        (λ _ s. IsAsked id (log_of s))
        (λ _ s. IsAsked id (log_of s))
  unfolding Client.delete_volume call
  client-IsAsked =
      Triple-bind {R = λ _ s. IsAsked id (log_of s)}
        (call (logged net) client (bdev_lvol_delete id)) _ (record { at = λ s h. refl })
        (λ r. Triple-Keeps _ (
          Keeps-if (error_matches r.error json_no_such_device) _ _ (Keeps-raise json_no_such_device)
            (Keeps-check r.error)))

module _ {W : Type 0} (net : Net W) where
  node-IsAsked :
      (n : SpdkNode (W × Log)) (id : Str)
      → Made (logged net) n
      → Triple
          (λ _. Unit)
          (n.delete_volume id)
          (λ _ s. IsAsked id (log_of s))
          (λ _ s. IsAsked id (log_of s))
  unfolding nvmf_node iscsi_node
  node-IsAsked n id (nvmf client node) = client-IsAsked net client id
  node-IsAsked n id (iscsi client node) = client-IsAsked net client id

module _ {W : Type 0} (net : Net W) (read : SecretsReader) (cs : Controller) (secrets : Map) where
  abbrev H : Type 0
  H = W × Log

  -- The id names no volume of a node that can be made from the secrets.
  pub data NoNode (id : Str) (w : H) : Type 0 where
    unread : (e : Error) → get_spdk_vol id ≡ bad e → NoNode id w
    unmade :
        (v : SpdkVolume) (e : Error)
        → get_spdk_vol id ≡ good v
        → get_spdk_node (logged net) read cs v.node_name secrets w ≡ (err e, w)
        → NoNode id w

  pub record IsAskedOf (id : Str) (log : Log) : Type 0 where
    pub volume : SpdkVolume
    pub named : get_spdk_vol id ≡ good volume
    pub asked : IsAsked volume.lvol_id log

  -- The deletion of the volume was asked for, if its node could be made.
  abbrev pub IsTried : Str → H → Type 0
  IsTried id w = IsAskedOf id w.1 ⊎ NoNode id w

  named :
      (id : Str) (r : Result SpdkVolume)
      → get_spdk_vol id ≡ r
      → Triple (λ (_ : H). Unit) (lift r) (λ v _. get_spdk_vol id ≡ good v) (λ _ w. IsTried id w)
  named id (good v) e = Triple-pure v (λ w h. e)
  named id (bad x) e = Triple-raise x (λ w h. inr (unread x e))

  refused :
      (id : Str) (v : SpdkVolume) (w : H)
      → get_spdk_vol id ≡ good v
      → Triple
          (λ t. t ≡ w)
          (get_spdk_node (logged net) read cs v.node_name secrets)
          (λ n _. AllMade (logged net) n)
          (λ _ t. IsTried id t)
  refused id v w named =
      let make = get_spdk_node (logged net) read cs v.node_name secrets in
      Triple-strengthen (λ n t h. h.0.1)
        (Triple-weaken
          (λ e t h. inr (unmade v e named (subst (λ x. make x ≡ (err e, t)) (sym h.0.0) h.1)))
          (Triple-both
            (get_spdk_node-Triple (logged net) read cs {P = λ t. t ≡ w} v.node_name secrets)
            (Triple-at w make)))

  pub delete_volume-IsTried :
      (id : Str)
      → Triple
          (λ _. Unit)
          (delete_volume (logged net) read cs id secrets)
          (λ _ w. IsTried id w)
          (λ _ w. IsTried id w)
  unfolding delete_volume
  delete_volume-IsTried id = Triple-bind _ _ (named id (get_spdk_vol id) refl) λ v. record {
    at = λ s e.
        (Triple-bind _ _ (refused id v s e) λ n. record {
          at = λ w h.
              (run_on-Triple (λ _ w. IsTried id w) (λ _ w. IsTried id w) n
                  (λ k. k.delete_volume v.lvol_id)
                  (λ k q. asked k v (subst (AllMade (logged net)) q h) e)).at
                w tt;
        }).at
          s refl;
  }
    where
      asked :
          (k : SpdkNode H) (v : SpdkVolume)
          → Made (logged net) k
          → get_spdk_vol id ≡ good v
          → Triple
              (λ _. Unit)
              (k.delete_volume v.lvol_id)
              (λ _ s. IsTried id s.world)
              (λ _ s. IsTried id s.world)
      asked k v made e =
          let tried : (x : Log) → IsAsked v.lvol_id x → IsAskedOf id x =
            λ x a. record { volume = v; named = e; asked = a } in
          Triple-strengthen (λ _ s a. inl (tried (log_of s) a))
            (Triple-weaken (λ _ s a. inl (tried (log_of s) a)) (node-IsAsked net k v.lvol_id made))
