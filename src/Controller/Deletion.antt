-- ===== src/Controller/Deletion.antt =====
-- `DeleteVolume` of the controller: what its errors tell, and what the target has said at its end.
use mathlib.Core.Path.{subst}
use spdk_csi.Prelude.{
  ◌≡◌, refl, ◌⊎◌, inl, inr, Bool, true, false, List, [], ◌∷◌, Bool-cases, if◌then◌else◌,
}
use spdk_csi.Text.{Str, split}
use spdk_csi.Effect.{
  Error, is_no_such_device, is_volume_deleted, is_volume_unpublished, good, bad, Exec, pure, raise,
  ◌>>=◌, internal_status,
}
use spdk_csi.Effect.Triple.{
  Triple, Triple-attempt, Triple-bind, Triple-pure, Triple-raise, Triple-weaken, Triple-strengthen,
}
use spdk_csi.Rpc.Message.{Net}
use spdk_csi.Rpc.Client.{Conn}
use spdk_csi.Rpc.Client.Errors.{Plain, IsUnknown, IsRemoved}
use spdk_csi.Rpc.Log.{Log, logged}
use spdk_csi.Target.Nvmf.{Map}
use spdk_csi.Target.Node.{SpdkNode}
use spdk_csi.Target.Unpublish.{Made, unpublish-Explains, delete-IsRemoved}
use spdk_csi.Controller.Message.{SpdkVolume, Controller, DeleteVolumeRequest}
use spdk_csi.Controller.Handlers.{finish_delete, handle_delete_volume}
use spdk_csi.Controller.Server.{
  SecretsReader, two_pieces, get_spdk_vol, lift, run_on, get_spdk_node, delete_volume,
  unpublish_volume,
}
use spdk_csi.Controller.Nodes.{AllMade, run_on-Triple, get_spdk_node-Triple}

-- The target has said that the volume of the id is not there any more.
pub record IsGone (id : Str) (log : Log) : Type 0 where
  pub volume : SpdkVolume
  pub named : get_spdk_vol id ≡ good volume
  pub said : IsRemoved volume.lvol_id log ⊎ IsUnknown volume.lvol_id log

module _ {W : Type 0} (net : Net W) (read : SecretsReader) (cs : Controller) where
  abbrev H : Type 0
  H = W × Log

  -- What the errors of the two internal methods tell the handler.
  abbrev DeleteTells : Str → Error → H → Type 0
  DeleteTells id e w = is_no_such_device e ≡ true → IsGone id w.1

  abbrev UnpublishTells : Str → Error → H → Type 0
  UnpublishTells id e w =
      (is_volume_deleted e ≡ true → IsGone id w.1) × (is_volume_unpublished e ≡ false)

  read_id :
      (id : Str)
      → Triple {S = H}
          (λ _. Unit)
          (lift (get_spdk_vol id))
          (λ v _. get_spdk_vol id ≡ good v)
          (λ e _. Plain e)
  unfolding get_spdk_vol
  read_id id = pieces (split id b':')
    where
      pieces :
          (ps : List Str)
          → Triple {S = H}
              (λ _. Unit)
              (lift (two_pieces id ps))
              (λ v _. two_pieces id ps ≡ good v)
              (λ e _. Plain e)
      pieces [] = Triple-raise _ (λ w h. (refl, refl, refl))
      pieces (n ∷ []) = Triple-raise _ (λ w h. (refl, refl, refl))
      pieces (n ∷ l ∷ []) = Triple-pure _ (λ w h. refl)
      pieces (n ∷ l ∷ m ∷ ps) = Triple-raise _ (λ w h. (refl, refl, refl))

  -- A method of the volume's node, run on the id's node object.
  on_volume :
      (id : Str) (secrets : Map) (m : SpdkNode H → Str → Exec (Conn H) Unit) (Q : Unit → H → Type 0)
      (E : Error → H → Type 0)
      → ((e : Error) (w : H) → Plain e → E e w)
      → ((n : SpdkNode H) (v : SpdkVolume)
          → Made (logged net) n
          → get_spdk_vol id ≡ good v
          → Triple (λ _. Unit) (m n v.lvol_id) (λ a s. Q a s.world) (λ e s. E e s.world))
      → Triple
          (λ _. Unit)
          (do
            vol ← lift (get_spdk_vol id)
            node ← get_spdk_node (logged net) read cs vol.node_name secrets
            run_on node (λ n. m n vol.lvol_id))
          Q
          E
  on_volume id secrets m Q E plain t = Triple-bind _ _ (Triple-weaken plain (read_id id)) λ v.
      Triple-bind _ _
        (Triple-weaken (λ e w p. plain e w p.1)
          (get_spdk_node-Triple (logged net) read cs v.node_name secrets))
        λ n. record {
          at = λ w h.
              (run_on-Triple Q E n (λ k. m k v.lvol_id)
                  (λ k e. t k v (subst (AllMade (logged net)) e h.1) h.0)).at
                w tt;
        }

  delete_volume-Triple :
      (id : Str) (secrets : Map)
      → Triple
          (λ _. Unit)
          (delete_volume (logged net) read cs id secrets)
          (λ _ w. IsGone id w.1)
          (λ e w. DeleteTells id e w)
  unfolding delete_volume
  delete_volume-Triple id secrets =
      on_volume id secrets (λ n. n.delete_volume) (λ _ w. IsGone id w.1) (DeleteTells id)
        (λ e w p q. cc (p.0))
        λ n v made named.
          Triple-strengthen (λ _ s r. record { volume = v; named = named; said = inl r })
            (Triple-weaken (λ e s r q. record { volume = v; named = named; said = inl (r q) })
              (delete-IsRemoved net n v.lvol_id made))

  unpublish_volume-Triple :
      (id : Str) (secrets : Map)
      → Triple
          (λ _. Unit)
          (unpublish_volume (logged net) read cs id secrets)
          (λ _ _. Unit)
          (λ e w. UnpublishTells id e w)
  unfolding unpublish_volume
  unpublish_volume-Triple id secrets =
      on_volume id secrets (λ n. n.unpublish_volume) (λ _ _. Unit) (UnpublishTells id)
        (λ e w p. (λ q. cc (p.1), p.2))
        λ n v made named.
          Triple-weaken
            (λ e s r. (λ q. record { volume = v; named = named; said = inr (r.0 q) }, r.1))
            (unpublish-Explains net n v.lvol_id made)

  done_if :
      (id : Str) (e : Error) (b : Bool)
      → Triple {S = H}
          (λ w. b ≡ true → IsGone id w.1)
          (if b then pure tt else raise (internal_status e))
          (λ _ w. IsGone id w.1)
          (λ _ _. Unit)
  done_if id e true = Triple-pure tt (λ w h. h refl)
  done_if id e false = Triple-raise _ (λ w h. tt)

  finish_delete-Triple :
      (req : DeleteVolumeRequest)
      → Triple
          (λ _. Unit)
          (finish_delete (logged net) read cs req)
          (λ _ w. IsGone req.volume_id w.1)
          (λ _ _. Unit)
  unfolding finish_delete
  finish_delete-Triple req =
      Triple-bind _ _ (Triple-attempt _ (delete_volume-Triple req.volume_id req.secrets)) (elim [
        | good _ ↦ Triple-pure tt (λ w h. h)
        | bad e ↦ record { at = λ w h. (done_if req.volume_id e (is_no_such_device e)).at w h }
      ])

  -- When DeleteVolume of the controller returns success, the id names a volume of a node and the
  -- last thing that the target said was that it consents to deleting that volume or that there is
  -- no such volume, whatever it answered before.
  pub handle_delete_volume-IsGone :
      (req : DeleteVolumeRequest)
      → Triple
          (λ _. Unit)
          (handle_delete_volume (logged net) read cs req)
          (λ _ w. IsGone req.volume_id w.1)
          (λ _ _. Unit)
  unfolding handle_delete_volume
  handle_delete_volume-IsGone req =
      Triple-bind _ _ (Triple-attempt _ (unpublish_volume-Triple req.volume_id req.secrets)) (elim [
        | good _ ↦ record { at = λ w h. (finish_delete-Triple req).at w tt }
        | bad e ↦ elim (Bool-cases (is_volume_unpublished e)) [
          | inl yes_ ↦ rw yes_ (record { at = λ w h. (finish_delete-Triple req).at w tt })
          | inr no_ ↦
              rw no_
                (record { at = λ w h. (done_if req.volume_id e (is_volume_deleted e)).at w h.0 })
        ]
      ])
