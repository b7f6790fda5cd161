-- ===== src/Regex.antt =====
-- Regular expressions over bytes, as Go's package regexp reads an anchored pattern `^...$`: the
-- data type of patterns and a matcher by derivatives. The programs' patterns are values of `Regex`.
pub mod Matches
pub mod Decides
pub mod Shape
use sigarda_panel.Common.{
  ℕ, zero, suc, Bool, true, false, ◌&&◌, ◌||◌, List, [], ◌∷◌, if◌then◌else◌, leb,
}

pub data Regex : Type 0 where
  void : Regex
  eps : Regex
  class : (ℕ → Bool) → Regex
  seq : Regex → Regex → Regex
  alt : Regex → Regex → Regex
  star : Regex → Regex

unfoldable pub nullable : Regex → Bool
nullable void = false
nullable eps = true
nullable (class p) = false
nullable (seq r q) = nullable r && nullable q
nullable (alt r q) = nullable r || nullable q
nullable (star r) = true

-- `seq` and `alt` that drop what matches nothing, so that derivatives stay small.
unfoldable pub seq_of : Regex → Regex → Regex
seq_of void q = void
seq_of eps q = q
seq_of r q = seq r q

unfoldable pub alt_of : Regex → Regex → Regex
alt_of void q = q
alt_of r void = r
alt_of r q = alt r q

-- What is left to match after the byte `c`.
unfoldable pub deriv : ℕ → Regex → Regex
unfolding nullable seq_of alt_of
deriv c void = void
deriv c eps = void
deriv c (class p) = if p c then eps else void
deriv c (seq r q) =
    let step = seq_of (deriv c r) q in
    let skip = alt_of step (deriv c q) in if nullable r then skip else step
deriv c (alt r q) = alt_of (deriv c r) (deriv c q)
deriv c (star r) = seq_of (deriv c r) (star r)

-- Regexp.MatchString for a pattern between `^` and `$`.
unfoldable pub matches : Regex → List ℕ → Bool
unfolding nullable deriv
matches r [] = nullable r
matches r (c ∷ s) = matches (deriv c r) s

-- Notation of patterns: r+, r?, r{0,n}, r{m,n}, one byte, a text.
abbrev pub plus : Regex → Regex
plus r = seq r (star r)

abbrev pub opt : Regex → Regex
opt r = alt eps r

abbrev pub up_to : ℕ → Regex → Regex
up_to zero r = eps
up_to (suc n) r = alt eps (seq r (up_to n r))

abbrev pub between : ℕ → ℕ → Regex → Regex
between zero extra r = up_to extra r
between (suc m) extra r = seq r (between m extra r)

abbrev pub byte : ℕ → Regex
byte c = class (λ d. leb c d && leb d c)

abbrev pub text : List ℕ → Regex
text [] = eps
text (c ∷ s) = seq (byte c) (text s)
