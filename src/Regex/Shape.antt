-- ===== src/Regex/Shape.antt =====
-- What can be read off a pattern: the bytes of its matches, their first byte, their greatest length.
use Prim.Native.Nat.{max}
use mathlib.Core.Bool.{not}
use sigarda_panel.Common.{
  all, Bool-cases, &&-split, ◌==◌, ==_iff, ℕ, ◌+◌, ◌⊎◌, inl, inr, ◌≤◌, Bool, true, false, ◌&&◌,
  ◌||◌, ◌≡◌, refl, sym, ◌∙◌, List, [], ◌∷◌, ◌++◌, Option, none, some, arith, length, length-append,
  All, All-append, All-imp,
}
use sigarda_panel.Text.{mem_byte, contains_any}
use sigarda_panel.Regex.{Regex, void, eps, class, seq, alt, star, nullable}
use sigarda_panel.Regex.Decides.{Matches-nullable}
use sigarda_panel.Regex.Matches.{Matches, empty, one, both, left, right, stop, again}

-- The bytes that some class of the pattern accepts.
unfoldable pub alphabet : Regex → ℕ → Bool
alphabet void c = false
alphabet eps c = false
alphabet (class p) c = p c
alphabet (seq r q) c = alphabet r c || alphabet q c
alphabet (alt r q) c = alphabet r c || alphabet q c
alphabet (star r) c = alphabet r c

abbrev IsIn : Regex → ℕ → Type 0
IsIn r c = alphabet r c ≡ true

-- Every byte of a match is in the alphabet of the pattern.
pub Matches-alphabet : (r : Regex) {u : List ℕ} → Matches r u → All (λ c. alphabet r c ≡ true) u
unfolding alphabet
Matches-alphabet void m = elim m [ ]
Matches-alphabet eps (empty e) = rw e tt
Matches-alphabet (class p) (one c h e) = rw e (h, tt)
Matches-alphabet (seq r q) (both s t m n e) = rw e (
    All-append (IsIn (seq r q)) s t
      (All-imp (IsIn r) (IsIn (seq r q)) (λ c h. ground arith) s (Matches-alphabet r m))
      (All-imp (IsIn q) (IsIn (seq r q)) (λ c h. ground arith) t (Matches-alphabet q n)))
Matches-alphabet (alt r q) {u} (left m) =
    All-imp (IsIn r) (IsIn (alt r q)) (λ c h. ground arith) u (Matches-alphabet r m)
Matches-alphabet (alt r q) {u} (right m) =
    All-imp (IsIn q) (IsIn (alt r q)) (λ c h. ground arith) u (Matches-alphabet q m)
Matches-alphabet (star r) (stop e) = rw e tt
Matches-alphabet (star r) (again c s t m n e) =
    rw e (All-append (IsIn r) (c ∷ s) t (Matches-alphabet r m) (Matches-alphabet (star r) n))

-- The bytes with which a match can begin.
unfoldable pub first : Regex → ℕ → Bool
unfolding nullable
first void c = false
first eps c = false
first (class p) c = p c
first (seq r q) c = first r c || (nullable r && first q c)
first (alt r q) c = first r c || first q c
first (star r) c = first r c

-- Every match that is not empty begins with such a byte.
pub Matches-first :
    (r : Regex) (c : ℕ) (s : List ℕ) {u : List ℕ} → Matches r u → u ≡ c ∷ s → first r c ≡ true
unfolding first
Matches-first void c s m z = elim m [ ]
Matches-first eps c s (empty e) z = absurd (cc)
Matches-first (class p) c s (one d h e) z = let same : c ≡ d = cc in rw same h
Matches-first (seq r q) c s (both [] t m n e) z =
    ground (arith, Matches-nullable r m refl, Matches-first q c s n (sym e ∙ z))
Matches-first (seq r q) c s (both (d ∷ s') t m n e) z =
    let same : d ∷ s' ≡ c ∷ s' = cc in ground (arith, Matches-first r c s' m same)
Matches-first (alt r q) c s (left m) z = ground (arith, Matches-first r c s m z)
Matches-first (alt r q) c s (right m) z = ground (arith, Matches-first q c s m z)
Matches-first (star r) c s (stop e) z = absurd (cc)
Matches-first (star r) c s (again d s' t m n e) z =
    let same : d ∷ s' ≡ c ∷ s' = cc in Matches-first r c s' m same

-- The greatest length of a match, if there is one.
add_max : Option ℕ → Option ℕ → Option ℕ
add_max (some m) (some n) = some (m + n)
add_max _ _ = none

max_max : Option ℕ → Option ℕ → Option ℕ
max_max (some m) (some n) = some (max m n)
max_max _ _ = none

unfoldable pub max_length : Regex → Option ℕ
unfolding add_max max_max
max_length void = some 0
max_length eps = some 0
max_length (class p) = some 1
max_length (seq r q) = add_max (max_length r) (max_length q)
max_length (alt r q) = max_max (max_length r) (max_length q)
max_length (star r) = none

abbrev Within : Option ℕ → List ℕ → Type 0
Within none u = Unit
Within (some n) u = length u ≤ n

Within-append :
    (a b : Option ℕ) (s t : List ℕ) → Within a s → Within b t → Within (add_max a b) (s ++ t)
unfolding add_max
Within-append (some m) (some n) s t h k = omega (arith, length-append s t)
Within-append none b s t h k = tt
Within-append (some m) none s t h k = tt

Within-max : (a b : Option ℕ) (s : List ℕ) → Within a s ⊎ Within b s → Within (max_max a b) s
unfolding max_max
Within-max (some m) (some n) s h = omega arith
Within-max none b s h = tt
Within-max (some m) none s h = tt

Matches-Within : (r : Regex) {u : List ℕ} → Matches r u → Within (max_length r) u
unfolding max_length
Matches-Within void m = elim m [ ]
Matches-Within eps (empty e) = rw e (omega arith)
Matches-Within (class p) (one c h e) = rw e (omega arith)
Matches-Within (seq r q) (both s t m n e) =
    rw e (Within-append (max_length r) (max_length q) s t (Matches-Within r m) (Matches-Within q n))
Matches-Within (alt r q) {u} (left m) =
    Within-max (max_length r) (max_length q) u (inl (Matches-Within r m))
Matches-Within (alt r q) {u} (right m) =
    Within-max (max_length r) (max_length q) u (inr (Matches-Within q m))
Matches-Within (star r) m = tt

-- No match is longer than the greatest length.
pub Matches-length :
    (r : Regex) {u : List ℕ} {n : ℕ} → Matches r u → max_length r ≡ some n → length u ≤ n
Matches-length r m e = rw e at (Matches-Within r m)

mem_byte-avoids :
    (r : Regex) (c : ℕ) (set : List ℕ)
    → all (λ d. not (alphabet r d)) set ≡ true
    → IsIn r c
    → mem_byte c set ≡ false
unfolding mem_byte
mem_byte-avoids r c [] h i = refl
mem_byte-avoids r c (d ∷ set) h i =
    let (a, b) = &&-split (not (alphabet r d)) (all (λ e. not (alphabet r e)) set) h in
    elim (Bool-cases (d == c)) [
      | inl e ↦
          let same : d ≡ c = (==_iff d c).0 e in
          let twice : not true ≡ true = rw (same, i) at a in absurd (cc)
      | inr e ↦ rw e (mem_byte-avoids r c set b i)
    ]

avoids_all :
    (r : Regex) (set u : List ℕ)
    → all (λ c. not (alphabet r c)) set ≡ true
    → All (IsIn r) u
    → contains_any u set ≡ false
unfolding contains_any
avoids_all r set [] h i = refl
avoids_all r set (c ∷ u) h i = rw (mem_byte-avoids r c set h i.0) (avoids_all r set u h i.1)

-- A match holds no byte of a set that the alphabet of the pattern avoids.
pub Matches-avoids :
    (r : Regex) (set : List ℕ) {u : List ℕ}
    → all (λ c. not (alphabet r c)) set ≡ true
    → Matches r u
    → contains_any u set ≡ false
Matches-avoids r set {u} h m = avoids_all r set u h (Matches-alphabet r m)
