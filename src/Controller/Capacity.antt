-- ===== src/Controller/Capacity.antt =====
-- The capacity that `CreateVolume` reports.
use spdk_csi.Prelude.Int.{ℤ, pos, ◌*ℤ◌, wrap64}
use spdk_csi.Prelude.{ℕ, List, zero, suc, ◌+◌, ◌*◌, ◌-◌, ◌^◌, ◌<◌, ◌≤◌, ◌≡◌, refl, arith}
use spdk_csi.Effect.{good, bad, pure, attempt, ignore, on_error, internal_status}
use spdk_csi.Effect.Triple.{
  Triple, Triple-bind, Triple-pure, Triple-raise, Triple-any, Triple-on_error, Triple-strengthen,
}
use spdk_csi.Rpc.Message.{Net}
use spdk_csi.Util.{mi, to_mib}
use spdk_csi.Util.Bounds.{to_mib_bounds}
use spdk_csi.Controller.Message.{NodeConfig, CreateVolumeRequest, CsiVolume, Controller}
use spdk_csi.Controller.Handlers.{handle_create_volume}
use spdk_csi.Controller.Server.{
  SecretsReader, requested_mib, get_volume, make_volume, create_volume, publish_volume,
  delete_volume,
}

-- The size of the request, and 1 GiB for none.
abbrev pub requested_bytes : ℕ → ℕ
requested_bytes zero = 1024 * 1024 * 1024
requested_bytes (suc n) = suc n

-- The capacity covers the bytes and exceeds them by less than one MiB.
abbrev pub Covers : ℕ → ℤ → Type 0
Covers n c = (k : ℕ) × (c ≡ pos (k * mi)) × (n ≤ k * mi) × (k * mi < n + mi)

exact_capacity : (k : ℕ) → k * mi < 2 ^ 63 → wrap64 (pos k *ℤ pos mi) ≡ pos (k * mi)
unfolding wrap64 ◌*ℤ◌
exact_capacity k h = ground arith

capacity-Covers : (n : ℕ) → n < 2 ^ 63 - mi → Covers n (wrap64 (to_mib (pos n) *ℤ pos mi))
capacity-Covers n h =
    let (k, e, above, below) = to_mib_bounds n h in
    (k, rw e (exact_capacity k (omega (arith, h, below))), above, below)

requested-Covers :
    (n : ℕ)
    → n < 2 ^ 63 - mi
    → Covers (requested_bytes n) (wrap64 (requested_mib (pos n) *ℤ pos mi))
unfolding requested_mib
requested-Covers zero h = capacity-Covers (1024 * 1024 * 1024) (omega arith)
requested-Covers (suc n) h = capacity-Covers (suc n) h

module _ {W : Type 0} (net : Net W) (read : SecretsReader) (cs : Controller)
    (visit₁ visit₂ : List NodeConfig) (req : CreateVolumeRequest) where
  -- What the volume has from the request.
  abbrev pub IsFrom : CsiVolume → Type 0
  IsFrom v =
      (v.capacity_bytes ≡ wrap64 (requested_mib req.required_bytes *ℤ pos mi))
      × (v.content_source ≡ req.content_source)

  create_volume-IsFrom :
      Triple
        (λ _. Unit)
        (create_volume net read cs visit₁ visit₂ req)
        (λ v _. IsFrom v)
        (λ _ _. Unit)
  unfolding create_volume
  create_volume-IsFrom =
      Triple-bind {R = λ _ _. Unit} (attempt (get_volume net read cs visit₁ req)) _ (Triple-any _)
        λ found.
          Triple-bind {R = λ _ _. Unit} _ _
            (Triple-any (elim found [
              | good id ↦ pure id
              | bad _ ↦ make_volume net read cs visit₂ req req.content_source
            ]))
            (λ id. Triple-pure _ (λ w h. (refl, refl)))

  handle_create_volume-IsFrom :
      Triple
        (λ _. Unit)
        (handle_create_volume net read cs visit₁ visit₂ req)
        (λ v _. IsFrom v)
        (λ _ _. Unit)
  unfolding handle_create_volume
  handle_create_volume-IsFrom =
      Triple-bind (on_error internal_status (create_volume net read cs visit₁ visit₂ req)) _
        (Triple-on_error _ _ create_volume-IsFrom)
        λ v. record {
          at = λ w h.
              (Triple-bind {R = λ _ _. Unit}
                  (attempt (publish_volume net read cs v.volume_id req.secrets)) _
                  (Triple-any {P = λ _. Unit} _)
                  (elim [
                    | bad e ↦
                        Triple-bind {R = λ _ _. Unit}
                          (ignore (delete_volume net read cs v.volume_id req.secrets)) _
                          (Triple-any _) (λ _. Triple-raise _ (λ _ _. tt))
                    | good m ↦ Triple-pure _ (λ _ _. h)
                  ])).at
                w tt;
        }

-- For a required size below 2^63 - 1 MiB bytes, a volume that CreateVolume returns has a capacity
-- that covers that size, or 1 GiB where the size is 0, and exceeds it by less than one MiB; its
-- content source is that of the request.
pub handle_create_volume-Covers :
    {W : Type 0} (net : Net W) (read : SecretsReader) (cs : Controller)
    (visit₁ visit₂ : List NodeConfig) (req : CreateVolumeRequest) (n : ℕ)
    → req.required_bytes ≡ pos n
    → n < 2 ^ 63 - mi
    → Triple
        (λ _. Unit)
        (handle_create_volume net read cs visit₁ visit₂ req)
        (λ v _.
          Covers (requested_bytes n) v.capacity_bytes × (v.content_source ≡ req.content_source))
        (λ _ _. Unit)
handle_create_volume-Covers net read cs visit₁ visit₂ req n e h =
    Triple-strengthen (λ v _ f. (rw (f.0, e) (requested-Covers n h), f.1))
      (handle_create_volume-IsFrom net read cs visit₁ visit₂ req)
