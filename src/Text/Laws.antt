-- ===== src/Text/Laws.antt =====
-- Laws of the byte strings: equality, and `split` against the pieces joined again.
use spdk_csi.Prelude.{
  ℕ, ◌≡◌, ◌≢◌, ◌↔◌, refl, ap, sym, ◌∙◌, true, List, [], ◌∷◌, ◌++◌, arith, ◌==◌, ==_iff, inl, inr,
  Bool-cases,
}
use mathlib.Core.Path.{ap₂}
use spdk_csi.Text.{Str, str_eq, split, cons_first, has_prefix, drop_prefix, trim_prefix}

str_eq_sound : (s t : Str) → str_eq s t ≡ true → s ≡ t
unfolding str_eq
str_eq_sound [] [] h = refl
str_eq_sound [] (y ∷ t) h = cc
str_eq_sound (x ∷ s) [] h = cc
str_eq_sound (x ∷ s) (y ∷ t) h = ground (arith, str_eq_sound s t)

pub str_eq_refl : (s : Str) → str_eq s s ≡ true
unfolding str_eq
str_eq_refl [] = refl
str_eq_refl (x ∷ s) = ground (arith, str_eq_refl s)

-- The Boolean test decides equality.
pub str_eq_iff : (s t : Str) → (str_eq s t ≡ true) ↔ (s ≡ t)
str_eq_iff s t = (str_eq_sound s t, λ e. rw (← e) (str_eq_refl s))

-- No byte of the string is the separator.
abbrev pub Free : ℕ → Str → Type 0
Free sep [] = Unit
Free sep (c ∷ s) = (c ≢ sep) × Free sep s

-- Pieces joined by the separator.
unfoldable pub join : List Str → ℕ → Str
join [] sep = []
join (p ∷ []) sep = p
join (p ∷ q ∷ ps) sep = p ++ (sep ∷ join (q ∷ ps) sep)

pub split-Free : (s : Str) (sep : ℕ) → Free sep s → split s sep ≡ s ∷ []
unfolding split
split-Free [] sep h = refl
split-Free (c ∷ s) sep h = ground (arith, split-Free s sep h.1)

-- A piece that is free of the separator is cut off whole.
pub split-append : (p s : Str) (sep : ℕ) → Free sep p → split (p ++ (sep ∷ s)) sep ≡ p ∷ split s sep
unfolding split
split-append [] s sep h = ground arith
split-append (c ∷ p) s sep h = ground (arith, split-append p s sep h.1)

abbrev pub AllFree : ℕ → List Str → Type 0
AllFree sep [] = Unit
AllFree sep (p ∷ ps) = Free sep p × AllFree sep ps

-- What `split` returns: pieces without the separator.
pub record Pieces (s : Str) (sep : ℕ) (ps : List Str) : Type 0 where
  pub free : AllFree sep ps
  pub joined : join ps sep ≡ s

join-cons_first :
    (c sep : ℕ) (ps : List Str) → ps ≢ [] → join (cons_first c ps) sep ≡ c ∷ join ps sep
unfolding join
join-cons_first c sep [] h = absurd (h refl)
join-cons_first c sep (p ∷ []) h = refl
join-cons_first c sep (p ∷ q ∷ ps) h = refl

split-ne-nil : (s : Str) (sep : ℕ) → split s sep ≢ []
unfolding split
split-ne-nil [] sep = ground arith
split-ne-nil (c ∷ s) sep = ground (arith, split-ne-nil s sep)

join-nil-cons : (sep : ℕ) (ps : List Str) → ps ≢ [] → join ([] ∷ ps) sep ≡ sep ∷ join ps sep
unfolding join
join-nil-cons sep [] h = absurd (h refl)
join-nil-cons sep (p ∷ ps) h = refl

AllFree-cons_first :
    (c sep : ℕ) (ps : List Str) → c ≢ sep → AllFree sep ps → AllFree sep (cons_first c ps)
AllFree-cons_first c sep [] h k = ((h, tt), tt)
AllFree-cons_first c sep (p ∷ ps) h k = ((h, k.0), k.1)

-- `split` is the inverse of joining: its pieces are free of the separator and make up the text.
pub split-Pieces : (s : Str) (sep : ℕ) → Pieces s sep (split s sep)
unfolding split join
split-Pieces [] sep = record { free = (tt, tt); joined = refl }
split-Pieces (c ∷ s) sep = elim (Bool-cases (c == sep)) [
  | inl e ↦ rw e (record {
    free = (tt, (split-Pieces s sep).free);
    joined =
        join-nil-cons sep (split s sep) (split-ne-nil s sep)
        ∙ ap₂ ◌∷◌ (sym ((==_iff c sep).0 e)) (split-Pieces s sep).joined;
  })
  | inr e ↦ rw e (record {
    free = AllFree-cons_first c sep (split s sep) (ground arith) (split-Pieces s sep).free;
    joined =
        join-cons_first c sep (split s sep) (split-ne-nil s sep)
        ∙ ap (λ t. c ∷ t) (split-Pieces s sep).joined;
  })
]

drop_prefix-append : (s t : Str) → has_prefix s t ≡ true → s ≡ t ++ drop_prefix s t
unfolding has_prefix drop_prefix
drop_prefix-append s [] h = refl
drop_prefix-append [] (y ∷ t) h = cc
drop_prefix-append (x ∷ s) (y ∷ t) h =
    let e : x ≡ y = ground arith in
    let h' : has_prefix s t ≡ true = ground arith in
    rw e (ap (λ r. y ∷ r) (drop_prefix-append s t h'))

-- What is left of a string without its prefix.
pub trim_prefix-append : (s t : Str) → has_prefix s t ≡ true → s ≡ t ++ trim_prefix s t
unfolding trim_prefix
trim_prefix-append s t h = rw h (drop_prefix-append s t h)
