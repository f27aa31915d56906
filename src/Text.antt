-- ===== src/Text.antt =====
-- Go strings as lists of bytes, with the functions of package `strings` that the driver uses.
pub mod Decimal
pub mod DeviceName
pub mod Hex
pub mod Laws
use Prim.Native.Char.{code}
use spdk_csi.Prelude.{
  ℕ, zero, ◌+◌, ◌-◌, ◌≡◌, refl, String, Bool, true, false, ◌&&◌, ◌||◌, List, [], ◌∷◌, ◌++◌, map,
  leb, ◌==◌, if◌then◌else◌, ◌=ₛ◌,
}

abbrev pub Str : Type 0
Str = List ℕ

-- A literal of the source, as its bytes. Shut, so that proofs carry the literal and not its bytes.
unfoldable pub str : String → Str
str String.[] = []
str (String.◌∷◌ c s) = code c ∷ str s

-- `s == t`
unfoldable pub str_eq : Str → Str → Bool
str_eq [] [] = true
str_eq [] (y ∷ t) = false
str_eq (x ∷ s) [] = false
str_eq (x ∷ s) (y ∷ t) = x == y && str_eq s t

-- `strings.ToLower`, on ASCII.
unfoldable pub to_lower : Str → Str
to_lower = map λ c. if leb b'A' c && leb c b'Z' then c + 32 else c

-- `strings.HasPrefix`
unfoldable pub has_prefix : Str → Str → Bool
has_prefix s [] = true
has_prefix [] (y ∷ t) = false
has_prefix (x ∷ s) (y ∷ t) = x == y && has_prefix s t

-- `strings.Contains`
unfoldable pub contains : Str → Str → Bool
unfolding has_prefix
contains [] t = has_prefix [] t
contains (x ∷ s) t = has_prefix (x ∷ s) t || contains s t

-- `strings.TrimPrefix`
drop_prefix : Str → Str → Str
drop_prefix s [] = s
drop_prefix [] (y ∷ t) = []
drop_prefix (x ∷ s) (y ∷ t) = drop_prefix s t

unfoldable pub trim_prefix : Str → Str → Str
unfolding has_prefix drop_prefix
trim_prefix s t = if has_prefix s t then drop_prefix s t else s

-- `unicode.IsSpace` on ASCII: tab, line feed, vertical tab, form feed, carriage return, space.
abbrev is_space : ℕ → Bool
is_space c = c == 32 || leb 9 c && leb c 13

trim_left : Str → Str
trim_left [] = []
trim_left (c ∷ s) = let rest = trim_left s in if is_space c then rest else c ∷ s

trim_right : Str → Str
trim_right [] = []
trim_right (c ∷ s) = elim (trim_right s) [
  | [] ↦ if is_space c then [] else c ∷ []
  | d ∷ r ↦ c ∷ d ∷ r
]

-- `strings.TrimSpace`
unfoldable pub trim_space : Str → Str
unfolding trim_left trim_right
trim_space s = trim_right (trim_left s)

-- The first piece grows by the byte that stands before it.
abbrev pub cons_first : ℕ → List Str → List Str
cons_first c [] = (c ∷ []) ∷ []
cons_first c (p ∷ ps) = (c ∷ p) ∷ ps

-- `strings.Split` at a separator of one byte.
unfoldable pub split : Str → ℕ → List Str
split [] sep = [] ∷ []
split (c ∷ s) sep = let rest = split s sep in if c == sep then [] ∷ rest else cons_first c rest

split_path : split (str "a:b:") b':' ≡ str "a" ∷ str "b" ∷ [] ∷ []
unfolding split str
split_path = refl

trimmed : trim_space (str "  no space ") ≡ str "no space"
unfolding trim_space str
trimmed = refl
