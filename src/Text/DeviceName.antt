-- ===== src/Text/DeviceName.antt =====
-- The two regular expressions of pkg/util/util.go, as the functions that they are used for:
-- `nvme(\d+)n(\d+)|nvme(\d+)c(\d+)n(\d+)` to find the name of a device in a path, and `c(\d+)` to
-- take the controller out of it.
use spdk_csi.Prelude.{
  ℕ, ◌≡◌, refl, Bool, true, false, ◌&&◌, Option, none, some, [], ◌∷◌, ◌++◌, leb, ◌==◌,
  if◌then◌else◌,
}
use mathlib.Core.Option.{bind}
use spdk_csi.Text.{Str, str}

abbrev is_digit : ℕ → Bool
is_digit c = leb b'0' c && leb c b'9'

-- A text without the bytes that it begins with.
after : Str → Str → Option Str
after [] s = some s
after (x ∷ p) [] = none
after (x ∷ p) (y ∷ s) = let rest = after p s in if x == y then rest else none

abbrev longer : ℕ → Str × Str → Str × Str
longer c (d, r) = (c ∷ d, r)

-- The digits in front, and what follows them.
span_digits : Str → Str × Str
span_digits [] = ([], [])
span_digits (c ∷ s) = let rest = span_digits s in if is_digit c then longer c rest else ([], c ∷ s)

abbrev not_empty : Str × Str → Option (Str × Str)
not_empty ([], r) = none
not_empty (c ∷ d, r) = some (c ∷ d, r)

-- `(\d+)`
digits_at : Str → Option (Str × Str)
unfolding span_digits
digits_at s = not_empty (span_digits s)

-- `nvme(\d+)n(\d+)` at the front: the part that matches.
nvme_n : Str → Option Str
unfolding bind after digits_at
nvme_n s = bind (after (str "nvme") s) λ s₁. bind (digits_at s₁) λ (d₁, s₂).
    bind (after (str "n") s₂)
      λ s₃. bind (digits_at s₃) λ (d₂, s₄). some (str "nvme" ++ (d₁ ++ (str "n" ++ d₂)))

-- `nvme(\d+)c(\d+)n(\d+)` at the front.
nvme_c_n : Str → Option Str
unfolding bind after digits_at
nvme_c_n s = bind (after (str "nvme") s) λ s₁. bind (digits_at s₁) λ (d₁, s₂).
    bind (after (str "c") s₂) λ s₃. bind (digits_at s₃) λ (d₂, s₄). bind (after (str "n") s₄) λ s₅.
      bind (digits_at s₅)
        λ (d₃, s₆). some (str "nvme" ++ (d₁ ++ (str "c" ++ (d₂ ++ (str "n" ++ d₃)))))

abbrev or_else : Option Str → Str → Str
or_else none s = s
or_else (some t) s = t

-- `nvmeReDeviceSysFileName.FindString`: the leftmost match, the first alternative before the other.
unfoldable pub find_device_name : Str → Str
unfolding nvme_n nvme_c_n
find_device_name [] = []
find_device_name (c ∷ s) =
    or_else (nvme_n (c ∷ s)) (or_else (nvme_c_n (c ∷ s)) (find_device_name s))

abbrev digit_first : Str → Bool
digit_first [] = false
digit_first (c ∷ s) = is_digit c

-- Whether the bytes before belong to a match that takes every digit that follows.
strip : Bool → Str → Str
strip inside [] = []
strip inside (c ∷ s) =
    let skip = strip true s in
    let keep = strip false s in
    if inside && is_digit c then skip else if c == b'c' && digit_first s then skip else c ∷ keep

-- `nvmeReDeviceName.ReplaceAllString(s, "")`
unfoldable pub strip_controller : Str → Str
unfolding strip
strip_controller s = strip false s

native_path :
    strip_controller
      (find_device_name (str "/sys/bus/pci/devices/0000:01:00.0/nvme/nvme0/nvme0c12n3/uuid"))
    ≡ str "nvme0n3"
unfolding strip_controller find_device_name str
native_path = refl

plain_path :
    strip_controller
      (find_device_name (str "/sys/bus/pci/devices/0000:01:00.0/nvme/nvme7/nvme7n1/uuid"))
    ≡ str "nvme7n1"
unfolding strip_controller find_device_name str
plain_path = refl
