-- ===== src/Controller/Creation.antt =====
-- The handler `CreateVolume` on both ends: what becomes of the volume that `createVolume` returned.
use mathlib.Core.Path.{subst, sym}
use spdk_csi.Prelude.{some, ◌≡◌, refl, List, []}
use spdk_csi.Effect.{
  Error, ok, err, Result, good, bad, on_error, ignore, pure, raise, internal_status, ◌>>◌,
}
use spdk_csi.Effect.Triple.{
  Triple, Either, Triple-attempt, Triple-bind, Triple-pure, Triple-raise, Triple-ignore, Ends,
  Triple-at, Triple-from, Triple-both, Triple-weaken, Triple-strengthen, Triple-on_error,
}
use spdk_csi.Rpc.Message.{Net}
use spdk_csi.Rpc.Log.{Log, logged}
use spdk_csi.Target.Nvmf.{Map}
use spdk_csi.Target.Making.{NothingMade}
use spdk_csi.Controller.Message.{NodeConfig, CreateVolumeRequest, CsiVolume, Controller}
use spdk_csi.Controller.Server.{SecretsReader, delete_volume, publish_volume, create_volume}
use spdk_csi.Controller.Handlers.{merge_context, handle_create_volume}
use spdk_csi.Controller.Tried.{IsTried, delete_volume-IsTried}
use spdk_csi.Controller.Making.{create_volume-Makes}

module _ {W : Type 0} (net : Net W) (read : SecretsReader) (cs : Controller) (secrets : Map) where
  abbrev H : Type 0
  H = W × Log

  module _ (visit₁ visit₂ : List NodeConfig) (req : CreateVolumeRequest) (w : W) where
    -- How CreateVolume fails with an error and in a state, from an empty record of requests:
    -- createVolume failed there and no volume was made, or it returned a volume that is to be
    -- deleted because publishVolume failed.
    pub data Failed (e : Error) (w' : H) : Type 0 where
      uncreated :
          (x : Error)
          → create_volume (logged net) read cs visit₁ visit₂ req (w, []) ≡ (err x, w')
          → NothingMade w'
          → e ≡ internal_status x
          → Failed e w'
      undone :
          (v : CsiVolume) (x : Error) (w₁ w₂ : H)
          → create_volume (logged net) read cs visit₁ visit₂ req (w, []) ≡ (ok v, w₁)
          → publish_volume (logged net) read cs v.volume_id req.secrets w₁ ≡ (err x, w₂)
          → IsTried net read cs secrets v.volume_id w'
          → e ≡ internal_status x
          → Failed e w'

    -- How it returns: createVolume returned the volume of that id, and then publishVolume succeeded.
    pub record Published (v : CsiVolume) (w' : H) : Type 0 where
      pub volume : CsiVolume
      pub same_id : v.volume_id ≡ volume.volume_id
      pub w_created : H
      pub created :
          create_volume (logged net) read cs visit₁ visit₂ req (w, []) ≡ (ok volume, w_created)
      pub info : Map
      pub published :
          publish_volume (logged net) read cs volume.volume_id req.secrets w_created ≡ (ok info, w')

module _ {W : Type 0} (net : Net W) (read : SecretsReader) (cs : Controller)
    (visit₁ visit₂ : List NodeConfig) (req : CreateVolumeRequest) where
  abbrev CreateFails : W → Error → W × Log → Type 0
  CreateFails w e w' = Failed net read cs req.secrets visit₁ visit₂ req w e w'

  creating :
      (w : W)
      → Triple
          (λ t. t ≡ (w, []))
          (on_error internal_status (create_volume (logged net) read cs visit₁ visit₂ req))
          (λ v t. create_volume (logged net) read cs visit₁ visit₂ req (w, []) ≡ (ok v, t))
          (λ e t. CreateFails w e t)
  creating w = Triple-on_error {E = λ e t. CreateFails w e t} internal_status _ (
      Triple-strengthen (λ v t h. h.1)
        (Triple-weaken (λ e t h. uncreated e h.1 h.0 refl)
          (Triple-both
            (Triple-from (λ t h. subst NothingMade (sym h) tt)
              (create_volume-Makes net read cs visit₁ visit₂ req))
            (Triple-at (w, []) (create_volume (logged net) read cs visit₁ visit₂ req)))))

  abbrev CreateReturns : W → CsiVolume → W × Log → Type 0
  CreateReturns w v w' = Published net read cs req.secrets visit₁ visit₂ req w v w'

  answered :
      (w : W) (v : CsiVolume) (w₁ : W × Log)
      → create_volume (logged net) read cs visit₁ visit₂ req (w, []) ≡ (ok v, w₁)
      → (r : Result Map)
      → Triple
          (Either
            (λ m t. publish_volume (logged net) read cs v.volume_id req.secrets w₁ ≡ (ok m, t))
            (λ x t. publish_volume (logged net) read cs v.volume_id req.secrets w₁ ≡ (err x, t))
            r)
          (elim r [
            | bad e ↦ do
              ignore (delete_volume (logged net) read cs v.volume_id req.secrets)
              raise (internal_status e)
            | good m ↦ pure (record v { volume_context = some (merge_context v.volume_context m) })
          ])
          (CreateReturns w)
          (CreateFails w)
  answered w v w₁ h (good m) = Triple-pure _ (λ w₂ p. record {
    volume = v;
    same_id = refl;
    w_created = w₁;
    created = h;
    info = m;
    published = p;
  })
  answered w v w₁ h (bad x) = record {
    at = λ w₂ p.
        (Triple-bind {P = λ _. Unit} _ _
            (Triple-ignore _ (delete_volume-IsTried net read cs req.secrets v.volume_id))
            (λ _. Triple-raise _ (λ w' t. undone v x w₁ w₂ h p t refl))).at
          w₂ tt;
  }

  -- When CreateVolume of the controller fails, with the requests recorded from its start, either
  -- createVolume failed, in that state and with that text, and no request of the run to make or
  -- clone a volume was answered without an error, or createVolume returned a volume, publishVolume
  -- failed from there with that text, and the last request that was sent asks for the deletion of
  -- that volume, unless its id is not read or its node cannot be made from the secrets. It returns
  -- only a volume with the id of one that createVolume returned and publishVolume then published
  -- without an error.
  pub handle_create_volume-Failed :
      (w : W)
      → Ends
          (λ v w'. Published net read cs req.secrets visit₁ visit₂ req w v w')
          (λ e w'. Failed net read cs req.secrets visit₁ visit₂ req w e w')
          (handle_create_volume (logged net) read cs visit₁ visit₂ req (w, []))
  unfolding handle_create_volume
  handle_create_volume-Failed w =
      (Triple-bind _ _ (creating w) λ v. record {
        at = λ w₁ h.
            (Triple-bind _ _
                (Triple-attempt _
                  (Triple-at w₁ (publish_volume (logged net) read cs v.volume_id req.secrets)))
                (answered w v w₁ h)).at
              w₁ refl;
      }).at
        (w, []) refl
