-- ===== src/Controller/Capabilities.antt =====
-- `ValidateVolumeCapabilities` against the modes that the driver supports.
use spdk_csi.Controller.Handlers.{all_supported, validate_volume_capabilities}
use spdk_csi.Prelude.{
  ℕ, ◌≡◌, ◌↔◌, refl, true, none, some, List, [], ◌∷◌, All, Any, here, there, arith, ◌==◌, ==_iff,
  inl, inr, Bool-cases,
}
use spdk_csi.Csi.Driver.{has_number}
use spdk_csi.Controller.Message.{Controller}

pub has_number-Any : (n : ℕ) (l : List ℕ) → has_number n l ≡ true → Any (λ m. n ≡ m) l
unfolding has_number
has_number-Any n [] h = cc
has_number-Any n (m ∷ l) h = elim (Bool-cases (n == m)) [
  | inl e ↦ here ((==_iff n m).0 e)
  | inr e ↦ there (has_number-Any n l (rw e at h))
]

pub Any-has_number : (n : ℕ) (l : List ℕ) → Any (λ m. n ≡ m) l → has_number n l ≡ true
unfolding has_number
Any-has_number n [] a = elim a [ ]
Any-has_number n (m ∷ l) (here e) = rw ((==_iff n m).1 e)
Any-has_number n (m ∷ l) (there a) = ground (arith, Any-has_number n l a)

abbrev pub Supported : List ℕ → List ℕ → Type 0
Supported modes caps = All (λ m. Any (λ n. m ≡ n) modes) caps

all_supported_iff : (modes caps : List ℕ) → (all_supported modes caps ≡ true) ↔ Supported modes caps
unfolding all_supported
all_supported_iff modes [] = (λ _. tt, λ _. refl)
all_supported_iff modes (m ∷ l) = (
  λ h. (has_number-Any m modes (ground arith), (all_supported_iff modes l).0 (ground arith)),
  λ h. rw (Any-has_number m modes h.0) ((all_supported_iff modes l).1 h.1),
)

-- ValidateVolumeCapabilities confirms the requested modes exactly when each of them is one of the
-- driver's, and confirms nothing exactly when one is not.
pub validate_volume_capabilities_iff :
    (cs : Controller) (caps : List ℕ)
    → ((validate_volume_capabilities cs caps ≡ some caps) ↔ Supported cs.access_modes caps)
      × ((validate_volume_capabilities cs caps ≡ none) ↔ (¬ Supported cs.access_modes caps))
unfolding validate_volume_capabilities
validate_volume_capabilities_iff cs caps = elim (Bool-cases (all_supported cs.access_modes caps)) [
  | inl e ↦ (
    rw e (λ _. (all_supported_iff cs.access_modes caps).0 e, λ _. refl),
    rw e (λ h _. cc, λ h. absurd (h ((all_supported_iff cs.access_modes caps).0 e))),
  )
  | inr e ↦ (
    rw e (λ h. cc, λ h. cc ((all_supported_iff cs.access_modes caps).1 h)),
    rw e (λ _ h. cc ((all_supported_iff cs.access_modes caps).1 h), λ _. refl),
  )
]
