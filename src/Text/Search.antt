-- ===== src/Text/Search.antt =====
-- Prefixes and searching.
use sigarda_panel.Common.{
  true, false, ◌≡◌, refl, ◌↔◌, [], ◌∷◌, ◌++◌, arith, ◌==◌, &&-split, ==_iff, All,
}
use sigarda_panel.Text.{Text, has_prefix, mem_byte, contains_any}

has_prefix→append : (s p : Text) → has_prefix s p ≡ true → (t : Text) × (s ≡ p ++ t)
unfolding has_prefix
has_prefix→append s [] h = (s, refl)
has_prefix→append [] (d ∷ p) h = absurd (cc)
has_prefix→append (c ∷ s) (d ∷ p) h =
    let (same, rest) = &&-split (c == d) (has_prefix s p) h in
    let (t, e) = has_prefix→append s p rest in let f : c ≡ d = (==_iff c d).0 same in (t, cc)

pub has_prefix-append : (p t : Text) → has_prefix (p ++ t) p ≡ true
unfolding has_prefix
has_prefix-append [] [] = refl
has_prefix-append [] (c ∷ t) = refl
has_prefix-append (c ∷ p) t = ground (arith, has_prefix-append p t)

pub has_prefix_iff : (s p : Text) → (has_prefix s p ≡ true) ↔ ((t : Text) × (s ≡ p ++ t))
has_prefix_iff s p = (has_prefix→append s p, λ h. rw (h.1) (has_prefix-append p h.0))

-- A text that holds no byte of a set.
pub contains_any-All :
    (s set : Text) → contains_any s set ≡ false → All (λ c. mem_byte c set ≡ false) s
unfolding contains_any
contains_any-All [] set h = tt
contains_any-All (c ∷ s) set h = ground (arith, contains_any-All s set)
