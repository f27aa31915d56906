-- ===== src/Text/Hex.antt =====
-- `%02x` of `fmt.Sprintf`, on fuel: 8 digits are enough for 32 bits.
use spdk_csi.Prelude.{ℕ, zero, suc, ◌+◌, ◌-◌, ◌/◌, ◌%◌, ◌≡◌, refl, [], ◌∷◌, ltb, if◌then◌else◌}
use spdk_csi.Text.{Str, str}

-- A digit of a hexadecimal number.
abbrev hex_digit : ℕ → ℕ
hex_digit d = if ltb d 10 then b'0' + d else b'a' + (d - 10)

hex_digits : ℕ → ℕ → Str → Str
hex_digits zero n out = out
hex_digits (suc fuel) n out =
    let more = hex_digits fuel (n / 16) (hex_digit (n % 16) ∷ out) in
    if ltb n 16 then hex_digit n ∷ out else more

-- `%02x` of a `uint32`.
unfoldable pub hex2 : ℕ → Str
unfolding hex_digits
hex2 n = if ltb n 16 then b'0' ∷ hex_digit n ∷ [] else hex_digits 8 n []

hex2_bridge : hex2 31 ≡ str "1f"
unfolding hex2 str
hex2_bridge = refl
