-- ===== src/SiteInput/Confined.antt =====
-- Docker volumes, and the directory on the host that a binding mounts.
use mathlib.Core.Bool.{not}
use sigarda_panel.Common.{
  ℕ, true, false, ◌||◌, ◌≡◌, refl, ◌≢◌, List, [], ◌∷◌, arith, length, ltb, Bool-cases, inl, inr,
  All, any, ==_iff, ◌≤◌,
}
use sigarda_panel.Common.Check.{ok, reject-ok, >>-ok}
use sigarda_panel.Text.{Text, eqb, split}
use sigarda_panel.Text.Equality.{eqb_iff}
use sigarda_panel.Path.{is_rooted, segments, dotdot}
use sigarda_panel.Path.Under.{IsUnder, is_within-IsUnder}
use sigarda_panel.Regex.{matches}
use sigarda_panel.Regex.Decides.{matches_iff}
use sigarda_panel.Regex.Shape.{first, Matches-first}
use sigarda_panel.SiteInput.Patterns.{root_path_re}
use sigarda_panel.SiteInput.Paths.{root_path, under_root}
use sigarda_panel.SiteInput.Docker.{docker_volume, volume_binding, volume_parts}

root_path-match : (s : Text) → root_path s ≡ ok → matches root_path_re s ≡ true
unfolding root_path
root_path-match s h =
    let short : (ltb 512 (length s) || not (matches root_path_re s)) ≡ false =
      reject-ok _ _ (>>-ok _ _ h).0 in
    ground arith

first-slash : (c : ℕ) → first root_path_re c ≡ true → c ≡ b'/'
unfolding first root_path_re
first-slash c h = ground arith

-- An accepted root path is absolute.
pub root_path-rooted : (s : Text) → root_path s ≡ ok → is_rooted s ≡ true
unfolding is_rooted
root_path-rooted [] h =
    let m : matches root_path_re [] ≡ true = root_path-match [] h in
    absurd (unfold matches root_path_re in (cc))
root_path-rooted (c ∷ s) h =
    let m = (matches_iff root_path_re (c ∷ s)).0 (root_path-match (c ∷ s) h) in
    (==_iff c b'/').1 (first-slash c (Matches-first root_path_re c s m refl))

none-All : (t : Text) (ss : List Text) → any (λ s. eqb s t) ss ≡ false → All (λ s. s ≢ t) ss
none-All t [] h = tt
none-All t (s ∷ ss) h = elim (Bool-cases (eqb s t)) [
  | inl e ↦ absurd (ground arith)
  | inr e ↦ (λ z. absurd (ground (arith, eqb_iff s t)), none-All t ss (ground arith))
]

-- No part of an accepted root path is "..".
pub root_path-no_dotdot : (s : Text) → root_path s ≡ ok → All (λ seg. seg ≢ dotdot) (split b'/' s)
unfolding root_path
root_path-no_dotdot s h = none-All dotdot (split b'/' s) (reject-ok _ _ (>>-ok _ _ h).1)

-- The binding names a host directory and a target, and perhaps a mode; the host directory is
-- absolute, has no part "..", and lies in the site's root.
pub record IsConfined (site_root v : Text) : Type 0 where
  pub host : Text
  pub target : Text
  pub more : List Text
  pub parts : split b':' v ≡ host ∷ target ∷ more
  pub mode : length more ≤ 1
  pub absolute : is_rooted host ≡ true
  pub plain : All (λ seg. seg ≢ dotdot) (split b'/' host)
  pub inside : IsUnder (segments site_root) (segments host)

binding-host :
    (site_root host target : Text)
    → volume_binding site_root host target ≡ ok
    → (root_path host ≡ ok) × (under_root site_root host ≡ true)
unfolding volume_binding
binding-host site_root host target h = ground (arith, reject-ok _ _ h)

module _ (site_root v : Text) (rooted : is_rooted site_root ≡ true) where
  confined :
      (host target : Text) (more : List Text)
      → split b':' v ≡ host ∷ target ∷ more
      → length more ≤ 1
      → volume_binding site_root host target ≡ ok
      → IsConfined site_root v
  unfolding under_root
  confined host target more e n h =
      let (path_ok, under) = binding-host site_root host target h in
      let absolute = root_path-rooted host path_ok in
      record {
        host = host;
        target = target;
        more = more;
        parts = e;
        mode = n;
        absolute = absolute;
        plain = root_path-no_dotdot host path_ok;
        inside = is_within-IsUnder site_root host rooted absolute under;
      }

  parts-IsConfined :
      (ps : List Text) → split b':' v ≡ ps → volume_parts site_root ps ≡ ok → IsConfined site_root v
  unfolding volume_parts
  parts-IsConfined (host ∷ target ∷ []) e h = confined host target [] e (omega arith) h
  parts-IsConfined (host ∷ target ∷ mode ∷ []) e h =
      confined host target (mode ∷ []) e (omega arith) (>>-ok _ _ h).1
  parts-IsConfined _ e h = absurd (cc)

  -- When the site's root is an absolute path, an accepted docker volume has two or three parts between
  -- colons, and the first, the host directory, is absolute, has no part "..", and lies in the root.
  pub docker_volume-IsConfined : docker_volume v site_root ≡ ok → IsConfined site_root v
  unfolding docker_volume
  docker_volume-IsConfined h = parts-IsConfined (split b':' v) refl h
