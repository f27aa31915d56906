-- ===== src/Effect/Keeps.antt =====
-- Invariants of actions: what holds before holds after, whether the action returns, fails or panics.
use spdk_csi.Prelude.{Bool, true, false, Option, none, some, if◌then◌else◌}
use spdk_csi.Effect.{
  Error, Outcome, ok, err, panic, Result, good, bad, Exec, pure, raise, crash, attempt, continue,
  try_outcome, ◌>>=◌, check, on_error,
}

pub record Keeps {S A : Type 0} (P : S → Type 0) (m : Exec S A) : Type 0 where
  pub at : (s : S) → P s → P (m s).1

module _ {S A : Type 0} (P : S → Type 0) where
  try_outcome-keeps : (r : Outcome A) (s : S) → P s → P (try_outcome r s).1
  try_outcome-keeps (ok a) s h = h
  try_outcome-keeps (err e) s h = h
  try_outcome-keeps panic s h = h

module _ {S A : Type 0} {P : S → Type 0} where
  pub Keeps-pure : (a : A) → Keeps P (pure a)
  Keeps-pure a = record { at = λ s h. h }

  pub Keeps-raise : (e : Error) → Keeps P (raise {A = A} e)
  Keeps-raise e = record { at = λ s h. h }

  pub Keeps-crash : Keeps P (crash {A = A})
  Keeps-crash = record { at = λ s h. h }

  pub Keeps-if : (b : Bool) (m n : Exec S A) → Keeps P m → Keeps P n → Keeps P (if b then m else n)
  Keeps-if true m n km kn = km
  Keeps-if false m n km kn = kn

  pub Keeps-attempt : (m : Exec S A) → Keeps P m → Keeps P (attempt m)
  Keeps-attempt m k = record { at = λ s h. try_outcome-keeps P (m s).0 (m s).1 (k.at s h) }

module _ {S A B : Type 0} {P : S → Type 0} where
  continue-keeps :
      (r : Outcome A) (f : A → Exec S B) (s : S)
      → ((a : A) → Keeps P (f a))
      → P s
      → P (continue r f s).1
  continue-keeps (ok a) f s k h = (k a).at s h
  continue-keeps (err e) f s k h = h
  continue-keeps panic f s k h = h

  pub Keeps-bind :
      (m : Exec S A) (f : A → Exec S B) → Keeps P m → ((a : A) → Keeps P (f a)) → Keeps P (m >>= f)
  Keeps-bind m f km kf = record { at = λ s h. continue-keeps (m s).0 f (m s).1 kf (km.at s h) }

  pub Keeps-cases :
      (r : Result A) (f : A → Exec S B) (g : Error → Exec S B)
      → ((a : A) → Keeps P (f a))
      → ((e : Error) → Keeps P (g e))
      → Keeps P (elim r [ good a ↦ f a | bad e ↦ g e ])
  Keeps-cases (good a) f g kf kg = kf a
  Keeps-cases (bad e) f g kf kg = kg e

  pub Keeps-option :
      (o : Option A) (m : Exec S B) (f : A → Exec S B)
      → Keeps P m
      → ((a : A) → Keeps P (f a))
      → Keeps P (elim o [ none ↦ m | some a ↦ f a ])
  Keeps-option none m f km kf = km
  Keeps-option (some a) m f km kf = kf a

module _ {S A : Type 0} {P : S → Type 0} where
  pub Keeps-on_error : (f : Error → Error) (m : Exec S A) → Keeps P m → Keeps P (on_error f m)
  Keeps-on_error f m k =
      Keeps-bind _ _ (Keeps-attempt m k)
        (elim [ good a ↦ Keeps-pure a | bad e ↦ Keeps-raise (f e) ])

module _ {S : Type 0} {P : S → Type 0} where
  pub Keeps-check : (e : Option Error) → Keeps {S = S} P (check e)
  Keeps-check none = Keeps-pure tt
  Keeps-check (some e) = Keeps-raise e

pub ruleset keeps_rules = (
  Keeps-pure, Keeps-raise, Keeps-crash, Keeps-if, Keeps-attempt, Keeps-bind, Keeps-cases,
  Keeps-option, Keeps-check,
)
