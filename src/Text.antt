-- ===== src/Text.antt =====
-- Go strings as lists of bytes, with the functions of package strings that the program calls.
-- Separators and sets are ASCII in every call, so that searching bytes is searching runes.
pub mod Equality
pub mod Search
pub mod Split
use Prim.Native.Char.{code}
use Prim.Native.String.{String}
use sigarda_panel.Common.{
  ℕ, zero, suc, ◌-◌, Bool, true, false, ◌&&◌, ◌||◌, List, [], ◌∷◌, ◌++◌, Option, none, some,
  if◌then◌else◌, ◌==◌, leb, any, length,
}

abbrev pub Text : Type 0
Text = List ℕ

-- The bytes of an ASCII literal.
abbrev pub codes : String → Text
codes String.[] = []
codes (String.◌∷◌ c s) = code c ∷ codes s

unfoldable pub eqb : Text → Text → Bool
eqb [] [] = true
eqb (c ∷ s) (d ∷ t) = c == d && eqb s t
eqb _ _ = false

-- strings.HasPrefix s p
unfoldable pub has_prefix : Text → Text → Bool
has_prefix s [] = true
has_prefix [] (d ∷ p) = false
has_prefix (c ∷ s) (d ∷ p) = c == d && has_prefix s p

-- strings.Contains s p
unfoldable pub contains : Text → Text → Bool
unfolding has_prefix
contains [] p = has_prefix [] p
contains (c ∷ s) p = has_prefix (c ∷ s) p || contains s p

-- strings.IndexByte: whether and where.
unfoldable pub mem_byte : ℕ → Text → Bool
mem_byte b [] = false
mem_byte b (c ∷ s) = c == b || mem_byte b s

-- strings.ContainsAny s set
unfoldable pub contains_any : Text → Text → Bool
unfolding mem_byte
contains_any s set = any (λ c. mem_byte c set) s

-- One more byte in front of the first part.
abbrev grow : ℕ → List Text → List Text
grow c [] = (c ∷ []) ∷ []
grow c (part ∷ parts) = (c ∷ part) ∷ parts

-- strings.Split s (one byte)
unfoldable pub split : ℕ → Text → List Text
split b [] = [] ∷ []
split b (c ∷ s) = let rest = split b s in if c == b then [] ∷ rest else grow c rest

-- What stands before the first such byte, and what stands behind it, if there is one.
unfoldable pub cut : ℕ → Text → Text × Option Text
cut b [] = ([], none)
cut b (c ∷ s) =
    let (before, after) = cut b s in if c == b then ([], some s) else (c ∷ before, after)

-- strings.Join parts (one byte)
unfoldable pub join : ℕ → List Text → Text
join b [] = []
join b (part ∷ []) = part
join b (part ∷ parts) = part ++ b ∷ join b parts

-- The number of bytes of the white space (unicode.IsSpace) with which a text begins; 0 if none:
-- ASCII, then U+0085, U+00A0, U+1680, U+2000 to U+200A, U+2028, U+2029, U+202F, U+205F, U+3000.
abbrev is_ascii_space : ℕ → Bool
is_ascii_space c = (leb 9 c && leb c 13) || c == 32

abbrev is_space_3 : ℕ → ℕ → ℕ → Bool
is_space_3 a b c =
    (a == 0xe1 && b == 0x9a && c == 0x80)
    || (a == 0xe2
        && b == 0x80
        && ((leb 0x80 c && leb c 0x8a) || c == 0xa8 || c == 0xa9 || c == 0xaf))
    || (a == 0xe2 && b == 0x81 && c == 0x9f)
    || (a == 0xe3 && b == 0x80 && c == 0x80)

abbrev is_space_2 : ℕ → ℕ → Bool
is_space_2 a b = a == 0xc2 && (b == 0x85 || b == 0xa0)

space_width : Text → ℕ
space_width [] = 0
space_width (a ∷ []) = if is_ascii_space a then 1 else 0
space_width (a ∷ b ∷ []) = if is_ascii_space a then 1 else if is_space_2 a b then 2 else 0
space_width (a ∷ b ∷ c ∷ s) =
    if is_ascii_space a then 1 else if is_space_2 a b then 2 else if is_space_3 a b c then 3 else 0

-- The same at the end, where the bytes come last first.
space_width_rev : Text → ℕ
space_width_rev [] = 0
space_width_rev (a ∷ []) = if is_ascii_space a then 1 else 0
space_width_rev (b ∷ a ∷ []) = if is_ascii_space b then 1 else if is_space_2 a b then 2 else 0
space_width_rev (c ∷ b ∷ a ∷ s) =
    if is_ascii_space c then 1 else if is_space_2 b c then 2 else if is_space_3 a b c then 3 else 0

-- Drop `skip` bytes, then white space for as long as there is some.
trim_by : (Text → ℕ) → ℕ → Text → Text
trim_by width skip [] = []
trim_by width (suc skip) (c ∷ s) = trim_by width skip s
trim_by width zero (c ∷ s) = elim (width (c ∷ s)) [ zero ↦ c ∷ s | suc skip ↦ trim_by width skip s ]

reverse_onto : Text → Text → Text
reverse_onto [] acc = acc
reverse_onto (c ∷ s) acc = reverse_onto s (c ∷ acc)

-- strings.TrimSpace
unfoldable pub trim_space : Text → Text
unfolding trim_by space_width space_width_rev reverse_onto
trim_space s =
    let left = trim_by space_width 0 s in
    reverse_onto (trim_by space_width_rev 0 (reverse_onto left [])) []
