-- ===== src/Regex/Decides.antt =====
-- The matcher and the relation `Matches`.
use sigarda_panel.Common.{
  ℕ, true, ◌≡◌, refl, sym, ◌∙◌, ◌↔◌, ◌⊎◌, inl, inr, List, [], ◌∷◌, ◌++◌, arith, Bool-cases,
  &&-split, ||-split,
}
use sigarda_panel.Regex.{
  Regex, void, eps, class, seq, alt, star, nullable, seq_of, alt_of, deriv, matches,
}
use sigarda_panel.Regex.Matches.{Matches, empty, one, both, left, right, stop, again}

nullable-Matches : (r : Regex) → nullable r ≡ true → Matches r []
unfolding nullable
nullable-Matches void h = cc
nullable-Matches eps h = empty refl
nullable-Matches (class p) h = cc
nullable-Matches (seq r q) h =
    let (a, b) = &&-split (nullable r) (nullable q) h in
    both [] [] (nullable-Matches r a) (nullable-Matches q b) refl
nullable-Matches (alt r q) h = elim (||-split (nullable r) (nullable q) h) [
  | inl a ↦ left (nullable-Matches r a)
  | inr b ↦ right (nullable-Matches q b)
]
nullable-Matches (star r) h = stop refl

seq_of-Matches : (r q : Regex) (u : List ℕ) → Matches (seq_of r q) u → Matches (seq r q) u
unfolding seq_of
seq_of-Matches void q u m = elim m [ ]
seq_of-Matches eps q u m = both [] u (empty refl) m refl
seq_of-Matches r q u m = m

alt_of-Matches : (r q : Regex) (u : List ℕ) → Matches (alt_of r q) u → Matches (alt r q) u
unfolding alt_of
alt_of-Matches void q u m = right m
alt_of-Matches eps void u m = left m
alt_of-Matches (class p) void u m = left m
alt_of-Matches (seq r r') void u m = left m
alt_of-Matches (alt r r') void u m = left m
alt_of-Matches (star r) void u m = left m
alt_of-Matches r q u m = m

cons_both :
    (c : ℕ) (r d q : Regex)
    → ((s : List ℕ) → Matches d s → Matches r (c ∷ s))
    → {u : List ℕ} → Matches (seq d q) u
    → Matches (seq r q) (c ∷ u)
cons_both c r d q up (both s t m n e) = both (c ∷ s) t (up s m) n (rw e)

cons_again :
    (c : ℕ) (r d : Regex)
    → ((s : List ℕ) → Matches d s → Matches r (c ∷ s))
    → {u : List ℕ} → Matches (seq d (star r)) u
    → Matches (star r) (c ∷ u)
cons_again c r d up (both s t m n e) = again c s t (up s m) n (rw e)

not-Matches_void : {u : List ℕ} → ¬ Matches void u
not-Matches_void m = elim m [ ]

eps-nil : {u : List ℕ} → Matches eps u → u ≡ []
eps-nil (empty e) = e

deriv-alt : (r q : Regex) (u : List ℕ) → Matches (alt_of r q) u → Matches r u ⊎ Matches q u
deriv-alt r q u m = go (alt_of-Matches r q u m)
  where
    go : Matches (alt r q) u → Matches r u ⊎ Matches q u
    go (left n) = inl n
    go (right n) = inr n

deriv-Matches : (c : ℕ) (r : Regex) (s : List ℕ) → Matches (deriv c r) s → Matches r (c ∷ s)
unfolding deriv
deriv-Matches c void s m = elim m [ ]
deriv-Matches c eps s m = elim m [ ]
deriv-Matches c (class p) s m = elim (Bool-cases (p c)) [
  | inl h ↦ one c h (let e : s ≡ [] = eps-nil (rw h at m) in rw e)
  | inr h ↦ absurd (not-Matches_void (rw h at m))
]
deriv-Matches c (seq r q) s m = elim (Bool-cases (nullable r)) [
  | inl h ↦ elim (deriv-alt (seq_of (deriv c r) q) (deriv c q) s (rw h at m)) [
    | inl n ↦ cons_both c r (deriv c r) q (deriv-Matches c r) (seq_of-Matches (deriv c r) q s n)
    | inr n ↦ both [] (c ∷ s) (nullable-Matches r h) (deriv-Matches c q s n) refl
  ]
  | inr h ↦
      let n : Matches (seq_of (deriv c r) q) s = rw h at m in
      cons_both c r (deriv c r) q (deriv-Matches c r) (seq_of-Matches (deriv c r) q s n)
]
deriv-Matches c (alt r q) s m = elim (deriv-alt (deriv c r) (deriv c q) s m) [
  | inl n ↦ left (deriv-Matches c r s n)
  | inr n ↦ right (deriv-Matches c q s n)
]
deriv-Matches c (star r) s m =
    cons_again c r (deriv c r) (deriv-Matches c r) (seq_of-Matches (deriv c r) (star r) s m)

matches-Matches : (r : Regex) (s : List ℕ) → matches r s ≡ true → Matches r s
unfolding matches
matches-Matches r [] h = nullable-Matches r h
matches-Matches r (c ∷ s) h = deriv-Matches c r s (matches-Matches (deriv c r) s h)

-- The other direction: the matcher misses nothing.
Matches-seq_of : (r q : Regex) (u : List ℕ) → Matches (seq r q) u → Matches (seq_of r q) u
unfolding seq_of
Matches-seq_of void q u (both s t m n e) = elim m [ ]
Matches-seq_of eps q u (both s t m n e) = let f : u ≡ t = cc (e, eps-nil m) in rw f n
Matches-seq_of r q u m = m

drop_void : {r : Regex} {u : List ℕ} → Matches (alt r void) u → Matches r u
drop_void (left m) = m
drop_void (right m) = elim m [ ]

Matches-alt_of : (r q : Regex) (u : List ℕ) → Matches (alt r q) u → Matches (alt_of r q) u
unfolding alt_of
Matches-alt_of void q u (left m) = elim m [ ]
Matches-alt_of void q u (right m) = m
Matches-alt_of eps void u m = drop_void m
Matches-alt_of (class p) void u m = drop_void m
Matches-alt_of (seq r r') void u m = drop_void m
Matches-alt_of (alt r r') void u m = drop_void m
Matches-alt_of (star r) void u m = drop_void m
Matches-alt_of r q u m = m

append-nil_parts : (s t : List ℕ) → [] ≡ s ++ t → (s ≡ []) × (t ≡ [])
append-nil_parts [] t e = (refl, sym e)
append-nil_parts (c ∷ s) t e = absurd (cc)

pub Matches-nullable : (r : Regex) {u : List ℕ} → Matches r u → u ≡ [] → nullable r ≡ true
unfolding nullable
Matches-nullable void m z = elim m [ ]
Matches-nullable eps m z = refl
Matches-nullable (class p) (one c h e) z = cc
Matches-nullable (seq r q) (both s t m n e) z =
    let (a, b) = append-nil_parts s t (sym z ∙ e) in
    ground (arith, Matches-nullable r m a, Matches-nullable q n b)
Matches-nullable (alt r q) (left m) z = ground (arith, Matches-nullable r m z)
Matches-nullable (alt r q) (right m) z = ground (arith, Matches-nullable q m z)
Matches-nullable (star r) m z = refl

Matches-deriv :
    (c : ℕ) (s : List ℕ) (r : Regex) {u : List ℕ} → Matches r u → u ≡ c ∷ s → Matches (deriv c r) s
unfolding deriv
Matches-deriv c s void m z = elim m [ ]
Matches-deriv c s eps (empty e) z = absurd (cc)
Matches-deriv c s (class p) (one d h e) z =
    let same : c ≡ d = cc in let rest : s ≡ [] = cc in rw (same, h) (empty rest)
Matches-deriv c s (seq r q) (both [] t m n e) z = rw (Matches-nullable r m refl) (
    Matches-alt_of (seq_of (deriv c r) q) (deriv c q) s (right (Matches-deriv c s q n (sym e ∙ z))))
Matches-deriv c s (seq r q) (both (d ∷ s') t m n e) z =
    let same : d ∷ s' ≡ c ∷ s' = cc in
    let step = Matches-seq_of (deriv c r) q s (both s' t (Matches-deriv c s' r m same) n (cc)) in
    elim (Bool-cases (nullable r)) [
      | inl h ↦ rw h (Matches-alt_of (seq_of (deriv c r) q) (deriv c q) s (left step))
      | inr h ↦ rw h step
    ]
Matches-deriv c s (alt r q) (left m) z =
    Matches-alt_of (deriv c r) (deriv c q) s (left (Matches-deriv c s r m z))
Matches-deriv c s (alt r q) (right m) z =
    Matches-alt_of (deriv c r) (deriv c q) s (right (Matches-deriv c s q m z))
Matches-deriv c s (star r) (stop e) z = absurd (cc)
Matches-deriv c s (star r) (again d s' t m n e) z =
    Matches-seq_of (deriv c r) (star r) s (both s' t (Matches-deriv c s' r m (cc)) n (cc))

Matches-matches : (r : Regex) (s : List ℕ) → Matches r s → matches r s ≡ true
unfolding matches
Matches-matches r [] m = Matches-nullable r m refl
Matches-matches r (c ∷ s) m = Matches-matches (deriv c r) s (Matches-deriv c s r m refl)

pub matches_iff : (r : Regex) (s : List ℕ) → (matches r s ≡ true) ↔ Matches r s
matches_iff r s = (matches-Matches r s, Matches-matches r s)
