-- ===== src/Path/Under.antt =====
-- Prefixes of rooted paths, and the parts of what lies under a directory.
use mathlib.Core.List.{append_assoc, append-nil}
use sigarda_panel.Common.{
  ℕ, true, ◌≡◌, refl, ap, sym, ◌∙◌, ◌≢◌, inl, inr, List, [], ◌∷◌, ◌++◌, All, ||-split,
}
use sigarda_panel.Text.{Text, split, join, eqb, has_prefix}
use sigarda_panel.Text.Equality.{eqb_iff}
use sigarda_panel.Text.Search.{has_prefix_iff}
use sigarda_panel.Text.Split.{split-cons, split-append, split-join}
use sigarda_panel.Path.{slash, is_rooted, segments, clean, is_within}
use sigarda_panel.Path.Clean.{IsName, names-IsFree, segments-IsName, segments-clean, clean-rooted}

-- The parts of `p` go on from those of `dir`.
abbrev pub IsUnder : List Text → List Text → Type 0
IsUnder dir p = (rest : List Text) × (p ≡ dir ++ rest)

pub split-join_names :
    (parts : List Text) → All IsName parts → parts ≢ [] → split b'/' (join b'/' parts) ≡ parts
split-join_names [] h n = absurd (n refl)
split-join_names (p ∷ ps) h n = split-join b'/' p ps (names-IsFree (p ∷ ps) h)

cons-tail : {c : ℕ} {s t : Text} → c ∷ s ≡ c ∷ t → s ≡ t
cons-tail e = cc

nil-ne-append : (s t : Text) (c : ℕ) → [] ≢ s ++ c ∷ t
nil-ne-append [] t c e = cc
nil-ne-append (d ∷ s) t c e = cc

-- They go on by at least one part.
abbrev pub IsInside : List Text → List Text → Type 0
IsInside dir p = (first : Text) × (rest : List Text) × (p ≡ dir ++ first ∷ rest)

join-nil : join b'/' [] ≡ []
unfolding join
join-nil = refl

-- The text of names begins with no slash.
pub join-no_slash : (ps : List Text) (t : Text) → All IsName ps → join b'/' ps ≢ b'/' ∷ t
unfolding join
join-no_slash [] t h e = cc
join-no_slash ([] ∷ []) t h e = h.0.0 refl
join-no_slash ((c ∷ p) ∷ []) t h e = h.0.3.0 (cc)
join-no_slash ([] ∷ q ∷ ps) t h e = h.0.0 refl
join-no_slash ((c ∷ p) ∷ q ∷ ps) t h e = h.0.3.0 (cc)

inside_names :
    (ds ps : List Text) (t : Text)
    → All IsName ds
    → All IsName ps
    → b'/' ∷ join b'/' ps ≡ ((b'/' ∷ join b'/' ds) ++ slash) ++ t
    → ps ≡ ds ++ split b'/' t
inside_names [] ps t hd hp e =
    let f : b'/' ∷ join b'/' ps ≡ b'/' ∷ b'/' ∷ t = rw join-nil at e in
    absurd (join-no_slash ps t hp (cc))
inside_names (d ∷ ds) [] t hd hp e =
    let f = sym join-nil ∙ cons-tail e ∙ append_assoc (join b'/' (d ∷ ds)) slash t in
    absurd (nil-ne-append (join b'/' (d ∷ ds)) t b'/' f)
inside_names (d ∷ ds) (p ∷ ps) t hd hp e =
    let f = cons-tail e ∙ append_assoc (join b'/' (d ∷ ds)) slash t in
    sym (split-join_names (p ∷ ps) hp (λ z. cc))
    ∙ ap (split b'/') f
    ∙ split-append b'/' (join b'/' (d ∷ ds)) t
    ∙ ap (λ xs. xs ++ split b'/' t) (split-join_names (d ∷ ds) hd (λ z. cc))

module _ (dir p : Text) (rd : is_rooted dir ≡ true) (rp : is_rooted p ≡ true) where
  -- What stands behind the prefix holds the parts below `dir`.
  pub segments-split :
      (t : Text) → clean p ≡ (clean dir ++ slash) ++ t → segments p ≡ segments dir ++ split b'/' t
  segments-split t e =
      inside_names (segments dir) (segments p) t (segments-IsName dir rd) (segments-IsName p rp)
        (sym (clean-rooted p rp) ∙ e ∙ ap (λ d. (d ++ slash) ++ t) (clean-rooted dir rd))

  -- The prefix test on cleaned paths shows that `p` lies strictly inside `dir`.
  pub has_prefix-IsInside :
      has_prefix (clean p) (clean dir ++ slash) ≡ true → IsInside (segments dir) (segments p)
  has_prefix-IsInside h =
      let (t, e) = (has_prefix_iff (clean p) (clean dir ++ slash)).0 h in
      let (r, rs, split_t) = split-cons b'/' t in
      (r, rs, segments-split t e ∙ ap (λ xs. segments dir ++ xs) split_t)

  pub is_within-IsUnder :
      is_within (clean dir) (clean p) ≡ true → IsUnder (segments dir) (segments p)
  unfolding is_within
  is_within-IsUnder h =
      elim (||-split (eqb (clean p) (clean dir)) (has_prefix (clean p) (clean dir ++ slash)) h) [
        | inl e ↦
            let same = ap segments ((eqb_iff (clean p) (clean dir)).0 e) in
            (
              [],
              sym (segments-clean p rp)
                  ∙ same
                  ∙ segments-clean dir rd
                  ∙ sym (append-nil (segments dir)),
            )
        | inr e ↦ let (r, rs, f) = has_prefix-IsInside e in (r ∷ rs, f)
      ]
