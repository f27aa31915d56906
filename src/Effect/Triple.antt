-- ===== src/Effect/Triple.antt =====
-- Triples: what holds after an action returns, and what holds after it fails.
use mathlib.Core.Path.{subst}
use spdk_csi.Prelude.{◌≡◌, refl, ap}
use spdk_csi.Effect.{
  on_error, Error, Outcome, ok, err, panic, Result, good, bad, Exec, pure, raise, attempt, continue,
  try_outcome, ◌>>=◌, ignore,
}
use spdk_csi.Effect.Keeps.{Keeps}

-- The postcondition by how the action ended; a panic is the end of the process.
abbrev pub Ends : {S A : Type 0} → (A → S → Type 0) → (Error → S → Type 0) → Outcome A × S → Type 0
Ends Q E (ok a, s) = Q a s
Ends Q E (err e, s) = E e s
Ends Q E (panic, s) = Unit

pub record Triple {S A : Type 0} (P : S → Type 0) (m : Exec S A) (Q : A → S → Type 0)
    (E : Error → S → Type 0) : Type 0 where
  pub at : (s : S) → P s → Ends Q E (m s)

-- The postcondition of `attempt`.
abbrev pub Either : {S A : Type 0} → (A → S → Type 0) → (Error → S → Type 0) → Result A → S → Type 0
Either Q E (good a) s = Q a s
Either Q E (bad e) s = E e s

module _ {S A : Type 0} (Q : A → S → Type 0) (E F : Error → S → Type 0) where
  attempt-Ends : (r : Outcome A) (s : S) → Ends Q E (r, s) → Ends (Either Q E) F (try_outcome r s)
  attempt-Ends (ok a) s h = h
  attempt-Ends (err e) s h = h
  attempt-Ends panic s h = tt

module _ {S A : Type 0} {P : S → Type 0} {Q : A → S → Type 0} {E : Error → S → Type 0} where
  pub Triple-attempt :
      {F : Error → S → Type 0} (m : Exec S A) → Triple P m Q E → Triple P (attempt m) (Either Q E) F
  Triple-attempt {F} m t = record { at = λ s h. attempt-Ends Q E F (m s).0 (m s).1 (t.at s h) }

module _ {S A B : Type 0} (R : A → S → Type 0) (Q : B → S → Type 0) (E : Error → S → Type 0) where
  continue-Ends :
      (r : Outcome A) (f : A → Exec S B) (s : S)
      → ((a : A) → Triple (R a) (f a) Q E)
      → Ends R E (r, s)
      → Ends Q E (continue r f s)
  continue-Ends (ok a) f s k h = (k a).at s h
  continue-Ends (err e) f s k h = h
  continue-Ends panic f s k h = tt

module _ {S A B : Type 0} {P : S → Type 0} {R : A → S → Type 0} {Q : B → S → Type 0}
    {E : Error → S → Type 0} where
  pub Triple-bind :
      (m : Exec S A) (f : A → Exec S B)
      → Triple P m R E
      → ((a : A) → Triple (R a) (f a) Q E)
      → Triple P (m >>= f) Q E
  Triple-bind m f tm tf = record {
    at = λ s h. continue-Ends R Q E (m s).0 f (m s).1 tf (tm.at s h);
  }

module _ {S A : Type 0} (P : S → Type 0) where
  keeps-Ends :
      (r : Outcome A) (s : S)
      → P s
      → Ends (λ (_ : A) (t : S). P t) (λ (_ : Error) (t : S). P t) (r, s)
  keeps-Ends (ok a) s h = h
  keeps-Ends (err e) s h = h
  keeps-Ends panic s h = tt

module _ {S A : Type 0} {P : S → Type 0} where
  pub Triple-Keeps : (m : Exec S A) → Keeps P m → Triple P m (λ _ t. P t) (λ _ t. P t)
  Triple-Keeps m k = record { at = λ s h. keeps-Ends P (m s).0 (m s).1 (k.at s h) }

module _ {S A : Type 0} {P : S → Type 0} {E : Error → S → Type 0} where
  pub Triple-pure : {Q : A → S → Type 0} (a : A) → ((s : S) → P s → Q a s) → Triple P (pure a) Q E
  Triple-pure a h = record { at = h }

module _ {S A : Type 0} {P : S → Type 0} {Q : A → S → Type 0} where
  pub Triple-raise :
      {E : Error → S → Type 0} (e : Error) → ((s : S) → P s → E e s) → Triple P (raise e) Q E
  Triple-raise e h = record { at = h }

module _ {S A : Type 0} {P : S → Type 0} {E : Error → S → Type 0} where
  -- What holds after both ends holds after an action whose failure is dropped.
  pub Triple-ignore :
      {R : S → Type 0} (m : Exec S A)
      → Triple P m (λ _ s. R s) (λ _ s. R s)
      → Triple P (ignore m) (λ _ s. R s) E
  Triple-ignore {R} m t =
      Triple-bind {R = Either (λ _ s. R s) (λ _ s. R s)} (attempt m) (λ _. pure tt)
        (Triple-attempt m t)
        (elim [ good a ↦ Triple-pure tt (λ s h. h) | bad e ↦ Triple-pure tt (λ s h. h) ])

module _ {S A : Type 0} where
  any-Ends : (r : Outcome A) (s : S) → Ends (λ (_ : A) (_ : S). Unit) (λ _ _. Unit) (r, s)
  any-Ends (ok a) s = tt
  any-Ends (err e) s = tt
  any-Ends panic s = tt

module _ {S A : Type 0} {P : S → Type 0} where
  -- Nothing is claimed.
  pub Triple-any : (m : Exec S A) → Triple P m (λ _ _. Unit) (λ _ _. Unit)
  Triple-any m = record { at = λ s h. any-Ends (m s).0 (m s).1 }

module _ {S A : Type 0} {K : Type 0} where
  -- A fact that is not about the state holds on.
  pub Triple-fact : (m : Exec S A) → Triple (λ _. K) m (λ _ _. K) (λ _ _. K)
  Triple-fact m = record { at = λ s h. keeps-Ends (λ _. K) (m s).0 (m s).1 h }

module _ {S A : Type 0} (Q R : A → S → Type 0) (E F : Error → S → Type 0) where
  Ends-map :
      (r : Outcome A) (s : S)
      → ((a : A) (t : S) → Q a t → R a t)
      → ((e : Error) (t : S) → E e t → F e t)
      → Ends Q E (r, s)
      → Ends R F (r, s)
  Ends-map (ok a) s f g h = f a s h
  Ends-map (err e) s f g h = g e s h
  Ends-map panic s f g h = tt

module _ {S A : Type 0} {P : S → Type 0} {Q : A → S → Type 0} {E F : Error → S → Type 0}
    {m : Exec S A} where
  pub Triple-weaken : ((e : Error) (t : S) → E e t → F e t) → Triple P m Q E → Triple P m Q F
  Triple-weaken g t = record {
    at = λ s h. Ends-map Q Q E F (m s).0 (m s).1 (λ _ _ q. q) g (t.at s h);
  }

module _ {S A : Type 0} {P : S → Type 0} {Q R : A → S → Type 0} {E : Error → S → Type 0}
    {m : Exec S A} where
  pub Triple-strengthen : ((a : A) (t : S) → Q a t → R a t) → Triple P m Q E → Triple P m R E
  Triple-strengthen f t = record {
    at = λ s h. Ends-map Q R E E (m s).0 (m s).1 f (λ _ _ e. e) (t.at s h);
  }

module _ {S A : Type 0} (P : S → Type 0) (m : Exec S A) where
  run-Ends :
      (s : S) (r : Outcome A) (t : S)
      → P s
      → m s ≡ (r, t)
      → Ends
          (λ a t'. (s' : S) × P s' × (m s' ≡ (ok a, t')))
          (λ e t'. (s' : S) × P s' × (m s' ≡ (err e, t')))
          (r, t)
  run-Ends s (ok a) t p h = (s, p, h)
  run-Ends s (err e) t p h = (s, p, h)
  run-Ends s panic t p h = tt

  -- An action ends in a state that it reaches from one that satisfies the precondition.
  pub Triple-run :
      Triple P m
        (λ a t. (s : S) × P s × (m s ≡ (ok a, t)))
        (λ e t. (s : S) × P s × (m s ≡ (err e, t)))
  Triple-run = record { at = λ s h. run-Ends s (m s).0 (m s).1 h refl }

module _ {S A : Type 0} (s : S) (m : Exec S A) where
  -- What an action does in one state.
  pub Triple-at : Triple (λ t. t ≡ s) m (λ a t. m s ≡ (ok a, t)) (λ e t. m s ≡ (err e, t))
  Triple-at =
      Triple-strengthen (λ a t h. subst (λ x. m x ≡ (ok a, t)) h.1 h.2)
        (Triple-weaken (λ e t h. subst (λ x. m x ≡ (err e, t)) h.1 h.2) (Triple-run (λ t. t ≡ s) m))

module _ {S A : Type 0} (Q R : A → S → Type 0) (E F : Error → S → Type 0) where
  Ends-both :
      (r : Outcome A) (s : S)
      → Ends Q E (r, s)
      → Ends R F (r, s)
      → Ends (λ a t. Q a t × R a t) (λ e t. E e t × F e t) (r, s)
  Ends-both (ok a) s p q = (p, q)
  Ends-both (err e) s p q = (p, q)
  Ends-both panic s p q = tt

module _ {S A : Type 0} {P : S → Type 0} {Q R : A → S → Type 0} {E F : Error → S → Type 0}
    {m : Exec S A} where
  pub Triple-both :
      Triple P m Q E → Triple P m R F → Triple P m (λ a t. Q a t × R a t) (λ e t. E e t × F e t)
  Triple-both t u = record { at = λ s h. Ends-both Q R E F (m s).0 (m s).1 (t.at s h) (u.at s h) }

module _ {S A : Type 0} {P : S → Type 0} {Q : A → S → Type 0} where
  -- The error that comes back is the image of the one that was met.
  pub Triple-on_error :
      {E : Error → S → Type 0} (f : Error → Error) (m : Exec S A)
      → Triple P m Q (λ e s. E (f e) s)
      → Triple P (on_error f m) Q E
  Triple-on_error {E} f m t =
      Triple-bind {R = Either Q (λ e s. E (f e) s)} (attempt m) _ (Triple-attempt m t)
        (elim [ good a ↦ Triple-pure a (λ s h. h) | bad e ↦ Triple-raise (f e) (λ s h. h) ])

module _ {S A : Type 0} {P : S → Type 0} {Q : A → S → Type 0} {E : Error → S → Type 0} where
  -- Actions that agree at every state.
  pub Triple-same : (m n : Exec S A) → ((s : S) → m s ≡ n s) → Triple P n Q E → Triple P m Q E
  Triple-same m n e t = record { at = λ s h. rw (e s) (t.at s h) }

  -- A stronger precondition.
  pub Triple-from :
      {R : S → Type 0} {m : Exec S A} → ((s : S) → R s → P s) → Triple P m Q E → Triple R m Q E
  Triple-from f t = record { at = λ s h. t.at s (f s h) }

module _ {S A : Type 0} (P : S → Type 0) (m : Exec S A) {E : Error → S → Type 0} where
  -- An action whose result and failure are dropped leaves the state that it ends in.
  pub Triple-left : Triple P (ignore m) (λ _ t. (s : S) × P s × ((m s).1 ≡ t)) E
  Triple-left = Triple-ignore m (
      Triple-strengthen (λ a t h. (h.0, h.1, ap (λ x. x.1) h.2))
        (Triple-weaken (λ e t h. (h.0, h.1, ap (λ x. x.1) h.2)) (Triple-run P m)))
