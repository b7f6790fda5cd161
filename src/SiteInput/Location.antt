-- ===== src/SiteInput/Location.antt =====
-- RootPathAllowed: which directories a site may own (site.delete removes them whole).
use sigarda_panel.Common.{
  ℕ, true, false, ◌≡◌, refl, ◌≢◌, List, [], ◌∷◌, ◌++◌, ◌⊎◌, arith, Bool-cases, inl, inr, All, ◌==◌,
}
use sigarda_panel.Common.Check.{ok, reject-ok, >>-ok}
use sigarda_panel.Text.{Text, codes, split, join}
use sigarda_panel.Text.Equality.{eqb_iff}
use sigarda_panel.Text.Split.{IsFree}
use sigarda_panel.Path.{clean, segments, is_rooted}
use sigarda_panel.Path.Clean.{IsName, segments-IsName, clean-rooted}
use sigarda_panel.Path.Under.{join-no_slash, split-join_names}
use sigarda_panel.SiteInput.Values.{member}
use sigarda_panel.SiteInput.Paths.{
  root_path, root_path_allowed, is_refused_location, protected_top_dirs, trim, trim_left,
  trim_right, cons_trimmed, drop_if,
}
use sigarda_panel.SiteInput.Confined.{root_path-rooted}

trim_right-free : (b : ℕ) (s : Text) → IsFree b s → trim_right b s ≡ s
unfolding trim_right cons_trimmed drop_if
trim_right-free b [] h = refl
trim_right-free b (c ∷ []) h = ground arith
trim_right-free b (c ∷ d ∷ s) h = rw (trim_right-free b (d ∷ s) h.1)

cons_trimmed-ne : (b c : ℕ) (s : Text) → s ≢ [] → cons_trimmed b c s ≡ c ∷ s
unfolding cons_trimmed
cons_trimmed-ne b c [] n = absurd (n refl)
cons_trimmed-ne b c (d ∷ s) n = refl

trim_right-append :
    (b : ℕ) (s t : Text) → t ≢ [] → trim_right b t ≡ t → trim_right b (s ++ t) ≡ s ++ t
unfolding trim_right
trim_right-append b [] t n e = e
trim_right-append b (c ∷ s) t n e =
    rw (trim_right-append b s t n e)
      (cons_trimmed-ne b c (s ++ t) (λ z. n (append-nil_right s t z)))
  where
    append-nil_right : (u v : Text) → u ++ v ≡ [] → v ≡ []
    append-nil_right [] v z = z
    append-nil_right (d ∷ u) v z = absurd (cc)

join-ne : (q : Text) (ps : List Text) → q ≢ [] → join b'/' (q ∷ ps) ≢ []
unfolding join
join-ne [] ps n z = n refl
join-ne (c ∷ q) [] n z = cc
join-ne (c ∷ q) (r ∷ ps) n z = cc

trim_right-cons : (b c : ℕ) (s : Text) → s ≢ [] → trim_right b s ≡ s → trim_right b (c ∷ s) ≡ c ∷ s
unfolding trim_right
trim_right-cons b c s n e = rw e (cons_trimmed-ne b c s n)

trim_right-join : (ps : List Text) → All IsName ps → trim_right b'/' (join b'/' ps) ≡ join b'/' ps
unfolding join
trim_right-join [] h = unfold trim_right in refl
trim_right-join (p ∷ []) h = trim_right-free b'/' p h.0.3
trim_right-join (p ∷ q ∷ ps) h =
    trim_right-append b'/' p (b'/' ∷ join b'/' (q ∷ ps)) (λ z. cc)
      (trim_right-cons b'/' b'/' (join b'/' (q ∷ ps)) (join-ne q ps h.1.0.0)
        (trim_right-join (q ∷ ps) h.1))

trim_left-lem : (s : Text) → ((t : Text) → s ≢ b'/' ∷ t) → trim_left b'/' (b'/' ∷ s) ≡ s
unfolding trim_left
trim_left-lem [] n = refl
trim_left-lem (c ∷ s) n = elim (Bool-cases (c == b'/')) [
  | inl e ↦ absurd (n s (ground arith))
  | inr e ↦ rw e
]

-- What the check looks at is the list of the path's parts, or one empty part at the root.
trimmed_parts : (ps : List Text) → All IsName ps → trim b'/' (b'/' ∷ join b'/' ps) ≡ join b'/' ps
unfolding trim
trimmed_parts ps h =
    rw (trim_left-lem (join b'/' ps) (λ t. join-no_slash ps t h)) (trim_right-join ps h)

refused_root : is_refused_location (split b'/' (join b'/' [])) ≡ true
unfolding is_refused_location split join
refused_root = refl

-- What an allowed root is: at least two directories deep, not in a system tree, and below a home
-- directory at least one deeper.
pub record IsSiteLocation (ps : List Text) : Type 0 where
  pub top : Text
  pub sub : Text
  pub more : List Text
  pub parts : ps ≡ top ∷ sub ∷ more
  pub unprotected : member top protected_top_dirs ≡ false
  pub below_home : (top ≢ codes "home") ⊎ (more ≢ [])

location : (ps : List Text) → is_refused_location ps ≡ false → IsSiteLocation ps
unfolding is_refused_location
location [] h = absurd (cc)
location (top ∷ []) h = absurd (cc)
location (top ∷ sub ∷ []) h = record {
  top = top;
  sub = sub;
  more = [];
  parts = refl;
  unprotected = ground arith;
  below_home = inl (ground (arith, eqb_iff top (codes "home")));
}
location (top ∷ sub ∷ x ∷ more) h = record {
  top = top;
  sub = sub;
  more = x ∷ more;
  parts = refl;
  unprotected = h;
  below_home = inr (λ z. cc);
}

module _ (p : Text) (h : root_path_allowed p ≡ ok) where
  allowed-root_path : root_path p ≡ ok
  unfolding root_path_allowed
  allowed-root_path = (>>-ok _ _ h).0

  allowed-location : is_refused_location (split b'/' (join b'/' (segments p))) ≡ false
  unfolding root_path_allowed
  allowed-location =
      let rooted = root_path-rooted p allowed-root_path in
      let refused : is_refused_location (split b'/' (trim b'/' (clean p))) ≡ false =
        reject-ok _ _ (>>-ok _ _ h).1 in
      rw (clean-rooted p rooted, trimmed_parts (segments p) (segments-IsName p rooted)) at refused

  -- An allowed root is an absolute path of at least two parts, none of them "", "." or ".."; its
  -- first part is no system directory, and under "home" it has at least three parts.
  pub root_path_allowed-IsSiteLocation :
      (is_rooted p ≡ true) × All IsName (segments p) × IsSiteLocation (segments p)
  root_path_allowed-IsSiteLocation =
      let rooted = root_path-rooted p allowed-root_path in
      (rooted, segments-IsName p rooted, go (segments p) refl)
    where
      go : (ps : List Text) → segments p ≡ ps → IsSiteLocation ps
      go [] e =
          let open_root : is_refused_location (split b'/' (join b'/' [])) ≡ false =
            rw e at allowed-location in
          absurd (cc (refused_root))
      go (q ∷ qs) e =
          let names : All IsName (q ∷ qs) =
            rw e at (segments-IsName p (root_path-rooted p allowed-root_path)) in
          let open_parts : is_refused_location (split b'/' (join b'/' (q ∷ qs))) ≡ false =
            rw e at allowed-location in
          location (q ∷ qs) (rw (split-join_names (q ∷ qs) names (λ z. cc)) at open_parts)
