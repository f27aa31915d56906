-- ===== src/Node/Sysfs/Functions.antt =====
-- The function that `getAvailableFunctionsKvm` of pkg/util/util.go finds, against the first free
-- slot.
use spdk_csi.Prelude.{
  ℕ, zero, suc, ◌+◌, ◌-◌, ◌*◌, ◌/◌, ◌%◌, ◌^◌, ◌<◌, ◌≤◌, ◌≡◌, ◌≢◌, refl, ap, List, [], ◌∷◌, ◌++◌,
  arith, ◌==◌, Bool-cases, inl, inr, ltb,
}
use spdk_csi.Text.{Str, str}
use spdk_csi.Effect.{not_exist, Outcome, ok, err, good, Exec, on_error}
use spdk_csi.Node.Host.{glob, paths, Host, answer_in, act}
use spdk_csi.Node.RoundTrip.{bind-run, on_error-run}
use spdk_csi.Node.Xpu.{PciEndpoint, PciBdfs}
use spdk_csi.Node.Sysfs.{
  slot_pattern, kvm_slot, kvm_function, free_or, slots_loop, bridges_loop,
  get_available_functions_kvm,
}

-- The directories that match a pattern, while nothing is added or removed.
abbrev pub Frozen : {W : Type 0} → Host W → (Str → List Str) → Type 0
Frozen {W} host tree =
    (pattern : Str) (w : W) → host.perform (glob pattern) w ≡ (good (paths (tree pattern)), w)

-- Slot `k` is number `k % 32` on bridge `k / 32`, the bridges counted from 1 in the address.
abbrev pub IsFree : (Str → List Str) → ℕ → Type 0
IsFree tree k = tree (slot_pattern (k / 32 + 1) (k % 32)) ≡ []

abbrev pub TakenBelow : (Str → List Str) → ℕ → Type 0
TakenBelow tree k = (j : ℕ) → j < k → ¬ IsFree tree j

-- Physical function `k`, at the address of its slot.
abbrev pub function_at : ℕ → PciEndpoint × PciBdfs
function_at k = (
  record { pf_id = k; vf_id = 0 },
  record { pf_bdf = []; vf_bdf = kvm_slot (k / 32 + 1) (k % 32) ++ str ".0" },
)

-- The first free slot below a bound, or an error if there is none.
pub data FirstFree {W : Type 0} (tree : Str → List Str) (bound : ℕ) (w : W)
    (r : Outcome (PciEndpoint × PciBdfs) × W) : Type 0 where
  found :
      (k : ℕ)
      → k < bound
      → IsFree tree k
      → TakenBelow tree k
      → r ≡ (ok (function_at k), w)
      → FirstFree tree bound w r
  full : TakenBelow tree bound → r ≡ (err not_exist, w) → FirstFree tree bound w r

module _ {W : Type 0} (host : Host W) (tree : Str → List Str) (frozen : Frozen host tree)
    (count : ℕ) (small : count * 32 < 2 ^ 32) where
  -- One round of the loop over the slots.
  slots_round :
      (n p v : ℕ) (next : Exec W (PciEndpoint × PciBdfs)) (w : W)
      → slots_loop host (suc n) p v next w
        ≡ free_or host p v (tree (slot_pattern p v)) (slots_loop host n p (v + 1) next) w
  unfolding slots_loop act
  slots_round n p v next w =
      bind-run (on_error _ (act host (glob (slot_pattern p v)))) w w
        (paths (tree (slot_pattern p v))) _
        (on_error-run (act host (glob (slot_pattern p v))) w w (paths (tree (slot_pattern p v))) _
          (ap (λ r. answer_in r.0 r.1) (frozen (slot_pattern p v) w)))

  -- All slots before slot `v` of bridge `p` are taken.
  abbrev Before : ℕ → ℕ → Type 0
  Before p v = TakenBelow tree ((p - 1) * 32 + v)

  slot_found :
      (p v : ℕ) (w : W)
      → v < 32
      → 0 < p
      → p ≤ count
      → Before p v
      → tree (slot_pattern p v) ≡ []
      → FirstFree tree (count * 32) w (ok (kvm_function p v), w)
  slot_found p v w hv hp hc before e =
      let k = (p - 1) * 32 + v in
      let p_is : k / 32 + 1 ≡ p = omega arith in
      let v_is : k % 32 ≡ v = omega arith in
      let k_is : k % 2 ^ 32 ≡ k = omega arith in
      found k (omega arith) (rw (p_is, v_is) e) before (rw (k_is, p_is, v_is) refl)

  slot_taken :
      (p v : ℕ) → v < 32 → 0 < p → Before p v → tree (slot_pattern p v) ≢ [] → Before p (v + 1)
  slot_taken p v hv hp before ne j hj = elim (Bool-cases (ltb j ((p - 1) * 32 + v))) [
    | inl lt ↦ before j (ground arith)
    | inr ge ↦
        let j_is : j ≡ (p - 1) * 32 + v = ground arith in
        let p_is : j / 32 + 1 ≡ p = omega arith in
        let v_is : j % 32 ≡ v = omega arith in λ free. ne (rw (p_is, v_is) at free)
  ]

  slot_case :
      (p v : ℕ) (l : List Str) (next : Exec W (PciEndpoint × PciBdfs)) (w : W)
      → v < 32
      → 0 < p
      → p ≤ count
      → Before p v
      → tree (slot_pattern p v) ≡ l
      → (Before p (v + 1) → FirstFree tree (count * 32) w (next w))
      → FirstFree tree (count * 32) w (free_or host p v l next w)
  slot_case p v [] next w hv hp hc before e rest = slot_found p v w hv hp hc before e
  slot_case p v (d ∷ ds) next w hv hp hc before e rest =
      rest (slot_taken p v hv hp before (λ f. cc))

  slots_found :
      (n p v : ℕ) (next : Exec W (PciEndpoint × PciBdfs)) (w : W)
      → n + v ≡ 32
      → 0 < p
      → p ≤ count
      → Before p v
      → (Before (p + 1) 0 → FirstFree tree (count * 32) w (next w))
      → FirstFree tree (count * 32) w (slots_loop host n p v next w)
  unfolding slots_loop
  slots_found zero p v next w hv hp hc before rest = rest (λ j hj. before j (omega arith))
  slots_found (suc n) p v next w hv hp hc before rest = rw (slots_round n p v next w) (
      slot_case p v (tree (slot_pattern p v)) (slots_loop host n p (v + 1) next) w (omega arith) hp
        hc before refl (λ b. slots_found n p (v + 1) next w (omega arith) hp hc b rest))

  bridges_found :
      (n p : ℕ) (w : W)
      → n + p ≡ count + 1
      → 0 < p
      → Before p 0
      → FirstFree tree (count * 32) w (bridges_loop host n p w)
  unfolding bridges_loop
  bridges_found zero p w h hp before = full (λ j hj. before j (omega arith)) refl
  bridges_found (suc n) p w h hp before =
      slots_found 32 p 0 (bridges_loop host n (p + 1)) w (omega arith) hp (omega arith) before
        (λ b. bridges_found n (p + 1) w (omega arith) (omega arith) b)

  -- With at least one KVM bridge, fewer than 2^27 of them, and sysfs unchanging,
  -- getAvailableFunctionsKvm returns the first slot that nothing matches, its number as the
  -- physical function and its address, and fails with os.ErrNotExist exactly when all 32 slots of
  -- every bridge are taken.
  pub get_available_functions_kvm_lem :
      (w : W) → 0 < count → FirstFree tree (count * 32) w (get_available_functions_kvm host count w)
  unfolding get_available_functions_kvm
  get_available_functions_kvm_lem w h = elim (Bool-cases (count == 0)) [
    | inl e ↦ absurd (ground arith)
    | inr e ↦
        rw e (bridges_found count 1 w (omega arith) (omega arith) (λ j hj. absurd (omega arith)))
  ]
