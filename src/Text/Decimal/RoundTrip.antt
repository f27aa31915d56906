-- ===== src/Text/Decimal/RoundTrip.antt =====
-- `FormatInt` and `ParseInt`, one after the other.
use native.Mathlib.Nat.{pow-suc}
use spdk_csi.Prelude.Int.{ℤ, pos, negsuc, IsInt64}
use spdk_csi.Prelude.{
  ℕ, zero, suc, ◌+◌, ◌*◌, ◌/◌, ◌%◌, ◌^◌, ◌<◌, ◌≤◌, ◌≡◌, refl, ◌∙◌, ap, [], ◌∷◌, some, arith, ltb,
  inl, inr, Bool-cases,
}
use spdk_csi.Text.{Str}
use spdk_csi.Text.Decimal.{
  digits, format_nat, format_int, scan, parse_digits, parse_int, number, scan_uint, parse_uint,
}

-- A digit in front multiplies what was read by ten and adds itself.
scan-digit : (n d : ℕ) (s : Str) → d < 10 → scan n ((b'0' + d) ∷ s) ≡ scan (n * 10 + d) s
unfolding scan
scan-digit n d s h = ground arith

-- Reading the written digits of `n` from 0 gives `n`.
scan-digits : (fuel n : ℕ) (out : Str) → n < 10 ^ fuel → scan 0 (digits fuel n out) ≡ scan n out
unfolding digits
scan-digits zero n out h = ap (λ k. scan k out) (omega arith)
scan-digits (suc fuel) n out h = elim (Bool-cases (ltb n 10)) [
  | inl small ↦ rw small (scan-digit 0 n out (ground arith) ∙ ap (λ k. scan k out) (omega arith))
  | inr large ↦ rw large (
      scan-digits fuel (n / 10) ((b'0' + n % 10) ∷ out) (omega (arith, pow-suc 10 fuel))
      ∙ (scan-digit (n / 10) (n % 10) out (omega arith) ∙ ap (λ k. scan k out) (omega arith)))
]

-- What is written begins with a digit.
record StartsWithDigit (s : Str) : Type 0 where
  first : ℕ
  rest : Str
  shape : s ≡ first ∷ rest
  above : b'0' ≤ first
  below : first ≤ b'9'

digits-StartsWithDigit :
    (fuel n : ℕ) (out : Str) → StartsWithDigit out → StartsWithDigit (digits fuel n out)
unfolding digits
digits-StartsWithDigit zero n out h = h
digits-StartsWithDigit (suc fuel) n out h = elim (Bool-cases (ltb n 10)) [
  | inl small ↦ rw small (record {
    first = b'0' + n;
    rest = out;
    shape = refl;
    above = omega arith;
    below = ground arith;
  })
  | inr large ↦ rw large (
      digits-StartsWithDigit fuel (n / 10) ((b'0' + n % 10) ∷ out) (record {
        first = b'0' + n % 10;
        rest = out;
        shape = refl;
        above = omega arith;
        below = omega arith;
      }))
]

digit_first : (c : ℕ) (s : Str) → b'0' ≤ c → c ≤ b'9' → StartsWithDigit (c ∷ s)
digit_first c s a b = record { first = c; rest = s; shape = refl; above = a; below = b }

digits-suc-StartsWithDigit : (fuel n : ℕ) → StartsWithDigit (digits (suc fuel) n [])
unfolding digits
digits-suc-StartsWithDigit fuel n = elim (Bool-cases (ltb n 10)) [
  | inl small ↦ rw small (digit_first (b'0' + n) [] (omega arith) (ground arith))
  | inr large ↦ rw large (
      digits-StartsWithDigit fuel (n / 10) ((b'0' + n % 10) ∷ [])
        (digit_first (b'0' + n % 10) [] (omega arith) (omega arith)))
]

format_nat-StartsWithDigit : (n : ℕ) → StartsWithDigit (format_nat n)
unfolding format_nat
format_nat-StartsWithDigit n = digits-suc-StartsWithDigit 19 n

scan-format_nat : (n : ℕ) → n < 2 ^ 64 → scan 0 (format_nat n) ≡ some n
unfolding format_nat scan
scan-format_nat n h = scan-digits 20 n [] (omega arith)

parse_digits-format_nat : (n : ℕ) → n < 2 ^ 64 → parse_digits (format_nat n) ≡ some n
parse_digits-format_nat n h =
    let d = format_nat-StartsWithDigit n in rw d.shape (rw d.shape at (scan-format_nat n h))

abbrev first_or_zero : Str → ℕ
first_or_zero [] = 0
first_or_zero (c ∷ s) = c

parse_int-digit :
    (s : Str) (n : ℕ)
    → StartsWithDigit s
    → parse_digits s ≡ some n
    → n < 2 ^ 63
    → parse_int s ≡ number (pos n)
unfolding parse_int
parse_int-digit [] n d e h = cc
parse_int-digit (c ∷ s) n d e h = ground (arith, ap first_or_zero d.shape)

-- Every int64 survives being written in decimal and read again.
pub parse_int-format_int : (a : ℤ) → IsInt64 a → parse_int (format_int a) ≡ number a
unfolding format_int
parse_int-format_int (pos n) h =
    parse_int-digit (format_nat n) n (format_nat-StartsWithDigit n)
      (parse_digits-format_nat n (omega arith)) (omega arith)
parse_int-format_int (negsuc n) h =
    unfold parse_int in ground (arith, parse_digits-format_nat (suc n))

scan_uint-digit :
    (n d : ℕ) (s : Str)
    → d < 10
    → n * 10 + d < 2 ^ 64
    → scan_uint n ((b'0' + d) ∷ s) ≡ scan_uint (n * 10 + d) s
unfolding scan_uint
scan_uint-digit n d s h k = ground arith

scan_uint-digits :
    (fuel n : ℕ) (out : Str)
    → n < 10 ^ fuel
    → n < 2 ^ 64
    → scan_uint 0 (digits fuel n out) ≡ scan_uint n out
unfolding digits
scan_uint-digits zero n out h k = ap (λ i. scan_uint i out) (omega arith)
scan_uint-digits (suc fuel) n out h k = elim (Bool-cases (ltb n 10)) [
  | inl small ↦ rw small (
      scan_uint-digit 0 n out (ground arith) (omega arith)
      ∙ ap (λ i. scan_uint i out) (omega arith))
  | inr large ↦ rw large (
      scan_uint-digits fuel (n / 10) ((b'0' + n % 10) ∷ out) (omega (arith, pow-suc 10 fuel))
        (omega arith)
      ∙ (scan_uint-digit (n / 10) (n % 10) out (omega arith) (omega arith)
          ∙ ap (λ i. scan_uint i out) (omega arith)))
]

-- Every uint64 survives being written in decimal and read again.
pub parse_uint-format_nat : (n : ℕ) → n < 2 ^ 64 → parse_uint (format_nat n) ≡ n
unfolding parse_uint format_nat scan_uint
parse_uint-format_nat n h = scan_uint-digits 20 n [] (omega arith) h
