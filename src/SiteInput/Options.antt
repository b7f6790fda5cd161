-- ===== src/SiteInput/Options.antt =====
-- DockerOptions: all the docker fields of a site, and the numbers of a port mapping.
use mathlib.Core.Bool.{not}
use sigarda_panel.Common.{
  ℕ, true, false, ◌≡◌, refl, List, [], ◌∷◌, ◌⊎◌, arith, inl, inr, All, All-imp, any, all, ◌≤◌, some,
  Option-cases,
}
use sigarda_panel.Common.Check.{Check, ok, reject-ok, >>-ok}
use sigarda_panel.Common.Int.{pos, negsuc, atoi, is_port}
use sigarda_panel.Text.{Text, split, trim_space, contains_any}
use sigarda_panel.Text.Equality.{eqb_iff}
use sigarda_panel.Path.{is_rooted}
use sigarda_panel.Regex.{matches}
use sigarda_panel.Regex.Decides.{matches_iff}
use sigarda_panel.Regex.Shape.{alphabet, Matches-avoids}
use sigarda_panel.SiteInput.Patterns.{docker_env_re}
use sigarda_panel.SiteInput.Values.{docker_env_line, docker_image, docker_name}
use sigarda_panel.SiteInput.Docker.{
  docker_volume, docker_port, docker_options, DockerFields, each_trimmed, unless_empty, bad_port,
  mapping_parts,
}
use sigarda_panel.SiteInput.Confined.{IsConfined, docker_volume-IsConfined}
use sigarda_panel.SiteInput.Harmless.{hostile, validate, validate-no_hostile}
use sigarda_panel.SiteInput.Harmless

-- A number from 1 to 65535.
abbrev pub IsPortNumber : Text → Type 0
IsPortNumber part = (n : ℕ) × (atoi part ≡ some (pos n)) × (1 ≤ n) × (n ≤ 65535)

bad_port-false : (part : Text) → bad_port part ≡ false → IsPortNumber part
unfolding bad_port is_port
bad_port-false part h = elim (Option-cases (atoi part)) [
  | inl e ↦ absurd (ground arith)
  | inr (negsuc n, e) ↦ absurd (ground arith)
  | inr (pos n, e) ↦ (n, e, ground arith, ground arith)
]

none-bad : (parts : List Text) → any bad_port parts ≡ false → All IsPortNumber parts
none-bad [] h = tt
none-bad (p ∷ ps) h = (bad_port-false p (ground arith), none-bad ps (ground arith))

-- Every number of an accepted port mapping is from 1 to 65535.
pub docker_port-IsPortNumber : (s : Text) → docker_port s ≡ ok → All IsPortNumber (mapping_parts s)
unfolding docker_port
docker_port-IsPortNumber s h = none-bad (mapping_parts s) (reject-ok _ _ (>>-ok _ _ h).1)

unless_empty-ok :
    (check : Text → Check) (s : Text) → unless_empty check s ≡ ok → (s ≡ []) ⊎ (check s ≡ ok)
unless_empty-ok check s h = ground (arith, eqb_iff s [])

each_trimmed-ok :
    (check : Text → Check) (parts : List Text)
    → each_trimmed check parts ≡ ok
    → All (λ part. (trim_space part ≡ []) ⊎ (check (trim_space part) ≡ ok)) parts
unfolding each_trimmed
each_trimmed-ok check [] h = tt
each_trimmed-ok check (part ∷ parts) h =
    let (first_ok, rest_ok) = >>-ok _ _ h in
    (unless_empty-ok check (trim_space part) first_ok, each_trimmed-ok check parts rest_ok)

-- The bytes below 32; the pattern of the environment accepts the byte 127.
abbrev pub control : Text
control =
    0 ∷ 1 ∷ 2 ∷ 3 ∷ 4 ∷ 5 ∷ 6 ∷ 7 ∷ 8 ∷ 9 ∷ 10 ∷ 11 ∷ 12 ∷ 13 ∷ 14 ∷ 15 ∷ 16 ∷ 17 ∷ 18 ∷ 19 ∷ 20
    ∷ 21 ∷ 22 ∷ 23 ∷ 24 ∷ 25 ∷ 26 ∷ 27 ∷ 28 ∷ 29 ∷ 30 ∷ 31 ∷ []

env_avoids : all (λ c. not (alphabet docker_env_re c)) control ≡ true
unfolding alphabet docker_env_re
env_avoids = refl

env_line-one_line : (s : Text) → docker_env_line s ≡ ok → contains_any s control ≡ false
unfolding docker_env_line
env_line-one_line s h =
    let accepted : matches docker_env_re s ≡ true = ground (arith, reject-ok _ _ h) in
    Matches-avoids docker_env_re control env_avoids ((matches_iff docker_env_re s).0 accepted)

abbrev OrEmpty {ℓ} : (Text → Type ℓ) → Text → Type ℓ
OrEmpty P s = (s ≡ []) ⊎ P s

abbrev pub IsHarmless : Text → Type 0
IsHarmless s = contains_any s hostile ≡ false

-- What accepted docker fields promise.
pub record AreSafe (o : DockerFields) : Type 0 where
  pub image : (o.image ≡ []) ⊎ IsHarmless o.image
  pub name : (o.name ≡ []) ⊎ IsHarmless o.name
  pub ports : (o.ports ≡ []) ⊎ (IsHarmless o.ports × All IsPortNumber (mapping_parts o.ports))
  pub env :
      All
        (λ l. (trim_space l ≡ []) ⊎ (contains_any (trim_space l) control ≡ false))
        (split 10 o.env)
  pub volumes :
      All (λ v. (trim_space v ≡ []) ⊎ IsConfined o.site_root (trim_space v)) (split b',' o.volumes)
  pub restart : IsHarmless o.restart
  pub language : IsHarmless o.language

or_map {ℓ κ μ} : {A : Type ℓ} {B : Type κ} {C : Type μ} → (B → C) → A ⊎ B → A ⊎ C
or_map f (inl a) = inl a
or_map f (inr b) = inr (f b)

-- If the docker fields of a site with an absolute root are accepted: image, name and ports, unless
-- empty, the restart policy and the language hold none of the hostile bytes; the ports, unless empty,
-- are from 1 to 65535; each line of the environment that is not blank has no byte below 32; each
-- volume that is not blank mounts a directory within the site's root.
pub docker_options-AreSafe :
    (o : DockerFields) → is_rooted o.site_root ≡ true → docker_options o ≡ ok → AreSafe o
unfolding docker_options validate
docker_options-AreSafe o rooted h =
    let (h6, language) = >>-ok _ _ h in
    let (h5, restart) = >>-ok _ _ h6 in
    let (h4, volumes) = >>-ok _ _ h5 in
    let (h3, env) = >>-ok _ _ h4 in
    let (h2, ports) = >>-ok _ _ h3 in
    let (image, name) = >>-ok _ _ h2 in
    record {
      image =
          or_map (validate-no_hostile Harmless.docker_image o.image)
            (unless_empty-ok docker_image o.image image);
      name =
          or_map (validate-no_hostile Harmless.docker_name o.name)
            (unless_empty-ok docker_name o.name name);
      ports =
          or_map
            (λ h. (
              validate-no_hostile Harmless.docker_port o.ports h,
              docker_port-IsPortNumber o.ports h,
            ))
            (unless_empty-ok docker_port o.ports ports);
      env =
          All-imp _ _ (λ l. or_map (env_line-one_line (trim_space l))) (split 10 o.env)
            (each_trimmed-ok docker_env_line (split 10 o.env) env);
      volumes =
          All-imp _ _ (λ v. or_map (docker_volume-IsConfined o.site_root (trim_space v) rooted))
            (split b',' o.volumes)
            (each_trimmed-ok (λ v. docker_volume v o.site_root) (split b',' o.volumes) volumes);
      restart = validate-no_hostile Harmless.docker_restart o.restart restart;
      language = validate-no_hostile Harmless.docker_language o.language language;
    }
