-- ===== src/Node/Xpu/Targets.antt =====
-- `parseSpdkXpuTargetType` against the texts that it accepts.
use spdk_csi.Prelude.{◌≡◌, ◌↔◌, refl, List, [], ◌∷◌, ◌++◌, Bool-cases, inl, inr, arith}
use spdk_csi.Text.{Str, str, str_eq, split}
use spdk_csi.Text.Laws.{
  str_eq_iff, str_eq_refl, Free, Pieces, join, split-Free, split-append, split-Pieces,
}
use spdk_csi.Effect.{good}
use spdk_csi.Node.Xpu.{XpuTargetType, three_parts, parse_spdk_xpu_target_type}

-- The target type that the two parts make up.
abbrev pub target_type_of : XpuTargetType → Str
target_type_of t = str "xpu" ++ (b'-' ∷ (t.backend ++ (b'-' ∷ t.tr_type)))

three_parts-good :
    (s : Str) (ps : List Str) (t : XpuTargetType)
    → Pieces s b'-' ps
    → three_parts s ps ≡ good t
    → (target_type_of t ≡ s) × Free b'-' t.backend × Free b'-' t.tr_type
three_parts-good s [] t p h = cc
three_parts-good s (x ∷ []) t p h = cc
three_parts-good s (x ∷ b ∷ []) t p h = cc
three_parts-good s (x ∷ b ∷ y ∷ []) t p h = elim (Bool-cases (str_eq x (str "xpu"))) [
  | inl e ↦
      let x' : x ≡ str "xpu" = (str_eq_iff x (str "xpu")).0 e in
      let t' : record { backend = b; tr_type = y } ≡ t = cc (rw e at h) in
      rw (← t') (unfold join in rw (← x') p.joined, p.free.1.0, p.free.1.1.0)
  | inr e ↦ cc (rw e at h)
]
three_parts-good s (x ∷ b ∷ y ∷ z ∷ ps) t p h = cc

parse-target_type_of :
    (t : XpuTargetType)
    → Free b'-' t.backend
    → Free b'-' t.tr_type
    → parse_spdk_xpu_target_type (target_type_of t) ≡ good t
unfolding parse_spdk_xpu_target_type str
parse-target_type_of t hb ht =
    rw
      (
        split-append (str "xpu") (t.backend ++ (b'-' ∷ t.tr_type)) b'-' xpu_free,
        split-append t.backend t.tr_type b'-' hb,
        split-Free t.tr_type b'-' ht,
        str_eq_refl (str "xpu"),
      )
      refl
  where
    xpu_free : Free b'-' (str "xpu")
    xpu_free = (λ e. omega (arith, e), (λ e. omega (arith, e), (λ e. omega (arith, e), tt)))

-- parseSpdkXpuTargetType reads a text as a backend and a transport exactly when the text is xpu
-- and the two joined by dashes, and neither holds a dash.
pub parse_spdk_xpu_target_type_iff :
    (s : Str) (t : XpuTargetType)
    → (parse_spdk_xpu_target_type s ≡ good t)
      ↔ ((target_type_of t ≡ s) × Free b'-' t.backend × Free b'-' t.tr_type)
parse_spdk_xpu_target_type_iff s t = (
  λ h.
      three_parts-good s (split s b'-') t (split-Pieces s b'-')
        (unfold parse_spdk_xpu_target_type in h),
  λ h. rw (← h.0) (parse-target_type_of t h.1 h.2),
)
