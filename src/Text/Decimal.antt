-- ===== src/Text/Decimal.antt =====
-- `strconv.FormatInt(_, 10)`, `strconv.ParseInt(_, 10, 64)`, `strconv.ParseUint(_, 10, 64)`, `%d`.
pub mod RoundTrip
use spdk_csi.Prelude.Int.{ℤ, pos, negsuc}
use spdk_csi.Prelude.{
  ℕ, zero, suc, ◌+◌, ◌-◌, ◌*◌, ◌/◌, ◌%◌, ◌^◌, ◌≡◌, refl, Bool, ◌&&◌, ◌||◌, List, [], ◌∷◌, ◌++◌,
  Option, none, some, ltb, leb, ◌==◌, if◌then◌else◌,
}
use spdk_csi.Text.{Str, str}

-- The digits of a number below `10 ^ fuel`, in front of `out`.
digits : ℕ → ℕ → Str → Str
digits zero n out = out
digits (suc fuel) n out =
    let more = digits fuel (n / 10) ((b'0' + n % 10) ∷ out) in
    if ltb n 10 then (b'0' + n) ∷ out else more

-- Twenty digits are enough for every 64-bit number.
unfoldable pub format_nat : ℕ → Str
unfolding digits
format_nat n = digits 20 n []

unfoldable pub format_int : ℤ → Str
unfolding format_nat
format_int (pos n) = format_nat n
format_int (negsuc n) = b'-' ∷ format_nat (suc n)

-- The value of a run of digits, and nothing on any other byte.
scan : ℕ → Str → Option ℕ
scan n [] = some n
scan n (c ∷ s) =
    let rest = scan (n * 10 + (c - b'0')) s in if leb b'0' c && leb c b'9' then rest else none

abbrev parse_digits : Str → Option ℕ
parse_digits [] = none
parse_digits (c ∷ s) = scan 0 (c ∷ s)

-- A number, or the reason of a `strconv.NumError`.
pub data Parsed : Type 0 where
  number : ℤ → Parsed
  syntax range : Parsed

abbrev bounded : Option ℕ → ℕ → (ℕ → ℤ) → Parsed
bounded none limit f = syntax
bounded (some n) limit f = if leb n limit then number (f n) else range

abbrev negate : ℕ → ℤ
negate zero = pos 0
negate (suc n) = negsuc n

-- `strconv.ParseInt(s, 10, 64)`: an optional sign, digits, and the range of an int64.
unfoldable pub parse_int : Str → Parsed
unfolding scan
parse_int [] = syntax
parse_int (c ∷ s) =
    if c == b'-'
    then bounded (parse_digits s) (2 ^ 63) negate
    else if c == b'+'
    then bounded (parse_digits s) (2 ^ 63 - 1) pos
    else bounded (parse_digits (c ∷ s)) (2 ^ 63 - 1) pos

-- The number so far and the rest of the text: 0 on a byte that is no digit, and the greatest number
-- once 64 bits are not enough.
scan_uint : ℕ → Str → ℕ
scan_uint n [] = n
scan_uint n (c ∷ s) =
    let rest = scan_uint (n * 10 + (c - b'0')) s in
    if leb b'0' c && leb c b'9'
    then (if leb (2 ^ 64) (n * 10 + (c - b'0')) then 2 ^ 64 - 1 else rest)
    else 0

-- The number that `strconv.ParseUint(s, 10, 64)` returns, whatever its error.
unfoldable pub parse_uint : Str → ℕ
unfolding scan_uint
parse_uint s = scan_uint 0 s

parse_int_negative : parse_int (str "-42") ≡ number (negsuc 41)
unfolding parse_int str
parse_int_negative = refl

format_int_min : format_int (negsuc (2 ^ 63 - 1)) ≡ str "-9223372036854775808"
unfolding format_int str
format_int_min = refl
