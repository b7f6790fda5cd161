-- ===== src/Text/Split.antt =====
-- Splitting at a byte and joining again.
use sigarda_panel.Common.{
  ℕ, true, false, ◌≡◌, refl, ◌≢◌, inl, inr, List, [], ◌∷◌, ◌++◌, arith, ◌==◌, Bool-cases, All,
}
use sigarda_panel.Text.{Text, split, grow, join}

-- Free of a byte.
abbrev pub IsFree : ℕ → Text → Type 0
IsFree b s = All (λ c. c ≢ b) s

grow-IsFree :
    (b c : ℕ) (parts : List Text) → c ≢ b → All (IsFree b) parts → All (IsFree b) (grow c parts)
grow-IsFree b c [] n h = ((n, tt), tt)
grow-IsFree b c (p ∷ ps) n h = ((n, h.0), h.1)

-- No part of a split holds the separator.
pub split-IsFree : (b : ℕ) (s : Text) → All (IsFree b) (split b s)
unfolding split
split-IsFree b [] = (tt, tt)
split-IsFree b (c ∷ s) = elim (Bool-cases (c == b)) [
  | inl e ↦ rw e (tt, split-IsFree b s)
  | inr e ↦ rw e (grow-IsFree b c (split b s) (ground arith) (split-IsFree b s))
]

pub split-cons : (b : ℕ) (s : Text) → (p : Text) × (ps : List Text) × (split b s ≡ p ∷ ps)
unfolding split
split-cons b [] = ([], [], refl)
split-cons b (c ∷ s) =
    let (p, ps, e) = split-cons b s in
    elim (Bool-cases (c == b)) [ inl h ↦ ([], split b s, rw h) | inr h ↦ (c ∷ p, ps, rw (h, e)) ]

grow-append : (c : ℕ) (xs ys : List Text) → xs ≢ [] → grow c (xs ++ ys) ≡ grow c xs ++ ys
grow-append c [] ys h = absurd (h refl)
grow-append c (x ∷ xs) ys h = refl

-- Splitting at a separator that stands in the text.
pub split-append : (b : ℕ) (s t : Text) → split b (s ++ b ∷ t) ≡ split b s ++ split b t
unfolding split
split-append b [] t = let e : (b == b) ≡ true = ground arith in rw e refl
split-append b (c ∷ s) t = elim (Bool-cases (c == b)) [
  | inl h ↦ rw (h, split-append b s t)
  | inr h ↦
      let (p, ps, e) = split-cons b s in
      rw (h, split-append b s t) (grow-append c (split b s) (split b t) (cc))
]

-- A text without the separator is one part.
pub split-free : (b : ℕ) (s : Text) → IsFree b s → split b s ≡ s ∷ []
unfolding split
split-free b [] h = refl
split-free b (c ∷ s) h = let e : (c == b) ≡ false = ground arith in rw (e, split-free b s h.1)

-- Splitting undoes joining, for parts that are free of the separator.
pub split-join :
    (b : ℕ) (p : Text) (ps : List Text)
    → All (IsFree b) (p ∷ ps)
    → split b (join b (p ∷ ps)) ≡ p ∷ ps
unfolding join
split-join b p [] h = split-free b p h.0
split-join b p (q ∷ ps) h =
    rw (split-append b p (join b (q ∷ ps)), split-free b p h.0, split-join b q ps h.1)

-- A separator in front gives an empty first part.
pub split-separator : (b : ℕ) (s : Text) → split b (b ∷ s) ≡ [] ∷ split b s
unfolding split
split-separator b s = let e : (b == b) ≡ true = ground arith in rw e refl
