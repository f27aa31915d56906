-- ===== src/Csi/Endpoint.antt =====
-- `parseEndpoint`: which endpoints are accepted, and how they are cut.
use spdk_csi.Prelude.{
  ◌≡◌, refl, ap, Bool, true, false, ◌||◌, Option, none, some, [], ◌∷◌, ◌++◌, if◌then◌else◌,
}
use spdk_csi.Text.{Str, str, str_eq, to_lower, has_prefix, trim_prefix}
use spdk_csi.Text.Laws.{trim_prefix-append}
use spdk_csi.Effect.{Result, good, bad, message}
use spdk_csi.Csi.Driver.{cut_scheme, parse_endpoint}

cut_scheme_sound : (s p a : Str) → cut_scheme s ≡ some (p, a) → s ≡ p ++ (str "://" ++ a)
unfolding cut_scheme
cut_scheme_sound [] p a h = cc
cut_scheme_sound (c ∷ s) p a h =
    cases (has_prefix (c ∷ s) (str "://")) refl (cut_scheme s) (λ q b. cut_scheme_sound s q b) h
  where
    cases :
        (b : Bool)
        → has_prefix (c ∷ s) (str "://") ≡ b
        → (o : Option (Str × Str)) → ((q b : Str) → o ≡ some (q, b) → s ≡ q ++ (str "://" ++ b))
        → if◌then◌else◌ {A = Option (Str × Str)} b
            (some ([], trim_prefix (c ∷ s) (str "://")))
            (elim o [ none ↦ none | some (q, r) ↦ some (c ∷ q, r) ])
          ≡ some (p, a)
        → (c ∷ s) ≡ p ++ (str "://" ++ a)
    cases true e o ih h =
        let p' : [] ≡ p = cc in
        let a' : trim_prefix (c ∷ s) (str "://") ≡ a = cc in
        rw (← p', ← a') (trim_prefix-append (c ∷ s) (str "://") e)
    cases false e none ih h = cc
    cases false e (some (q, r)) ih h =
        let p' : c ∷ q ≡ p = cc in
        let a' : r ≡ a = cc in rw (← p', ← a') (ap (λ x. c ∷ x) (ih q r refl))

module _ (ep : Str) where
  abbrev invalid : Result (Str × Str)
  invalid = bad (message (str "invalid endpoint: " ++ ep))

  addressed :
      (b : Bool) (q r p a : Str)
      → str_eq r [] ≡ b
      → ep ≡ q ++ (str "://" ++ r)
      → (if b then invalid else good (q, r)) ≡ good (p, a)
      → (ep ≡ p ++ (str "://" ++ a)) × (str_eq a [] ≡ false)
  addressed true q r p a e s h = cc
  addressed false q r p a e s h =
      let p' : q ≡ p = cc in let a' : r ≡ a = cc in rw (← p', ← a') (s, e)

  accepted :
      (b : Bool) (o : Option (Str × Str)) (p a : Str)
      → ((q r : Str) → o ≡ some (q, r) → ep ≡ q ++ (str "://" ++ r))
      → (if b
          then elim o [
            | none ↦ invalid
            | some (q, r) ↦ if str_eq r [] then invalid else good (q, r)
          ]
          else invalid)
        ≡ good (p, a)
      → (ep ≡ p ++ (str "://" ++ a)) × (str_eq a [] ≡ false)
  accepted true none p a s h = cc
  accepted true (some (q, r)) p a s h = addressed (str_eq r []) q r p a refl (s q r refl) h
  accepted false o p a s h = cc

-- An endpoint that parseEndpoint accepts is the protocol it returns, '://' and the address it
-- returns, which is not empty; and every address that is not empty is accepted with unix or tcp in
-- small letters, and comes back with the protocol.
pub parse_endpoint-cut :
    (ep p a : Str)
    → (parse_endpoint ep ≡ good (p, a) → (ep ≡ p ++ (str "://" ++ a)) × (str_eq a [] ≡ false))
      × (str_eq a [] ≡ false
          → (parse_endpoint (str "unix://" ++ a) ≡ good (str "unix", a))
            × (parse_endpoint (str "tcp://" ++ a) ≡ good (str "tcp", a)))
unfolding parse_endpoint cut_scheme to_lower has_prefix trim_prefix str
parse_endpoint-cut ep p a = (
  λ h.
      accepted ep
        (has_prefix (to_lower ep) (str "unix://") || has_prefix (to_lower ep) (str "tcp://"))
        (cut_scheme ep) p a (λ q r. cut_scheme_sound ep q r) h,
  λ h. (rw h refl, rw h refl),
)
