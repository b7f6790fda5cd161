-- ===== src/AgentPaths/Inside.antt =====
-- Where the paths lie that the agent of internal/agenthttp/validate.go accepts.
use mathlib.Core.List.{append_assoc}
use sigarda_panel.Common.{
  ℕ, suc, ◌++◌, List, [], ◌∷◌, ◌≡◌, refl, sym, ap, ◌∙◌, ◌≢◌, ◌⊎◌, ◌==◌, some, Option-cases, arith,
  Bool-cases, inl, inr, ==_iff, true, false, All,
}
use sigarda_panel.Common.Check.{is_ok, is_ok-eq}
use sigarda_panel.Text.{codes, Text, has_prefix, split, join}
use sigarda_panel.Text.Equality.{eqb_iff}
use sigarda_panel.Text.Split.{split-separator}
use sigarda_panel.Text.Search.{has_prefix_iff}
use sigarda_panel.Regex.{matches}
use sigarda_panel.Regex.Decides.{matches_iff}
use sigarda_panel.Regex.Shape.{first, Matches-first}
use sigarda_panel.Path.{clean, slash, segments, is_rooted}
use sigarda_panel.Path.Clean.{IsName, segments-IsName, segments-clean, clean-rooted}
use sigarda_panel.Path.Under.{IsInside, has_prefix-IsInside, segments-split, split-join_names}
use sigarda_panel.SiteInput.Paths.{root_path_allowed}
use sigarda_panel.SiteInput.Docker.{trim_prefix}
use sigarda_panel.SiteInput.Location.{IsSiteLocation, root_path_allowed-IsSiteLocation}
use sigarda_panel.AgentPaths.Words.{Router, is_valid_path, path_regex}
use sigarda_panel.AgentPaths.Sites.{is_allowed_site_path, remove_all, remove_generated_file}
use sigarda_panel.AgentPaths.Backups.{
  is_backup_name, scan_parts, second_is_backup, in_site_backups, is_allowed_backup_path,
}

first-slash : (c : ℕ) → first path_regex c ≡ true → c ≡ b'/'
unfolding first path_regex
first-slash c h = ground arith

nil-no_match : matches path_regex [] ≡ false
unfolding matches path_regex
nil-no_match = refl

-- A valid path is absolute.
pub is_valid_path-rooted : (p : Text) → is_valid_path p ≡ true → is_rooted p ≡ true
unfolding is_valid_path is_rooted
is_valid_path-rooted [] h = ground (arith, nil-no_match)
is_valid_path-rooted (c ∷ s) h =
    let m : matches path_regex (c ∷ s) ≡ true = ground arith in
    (==_iff c b'/').1
      (first-slash c (Matches-first path_regex c s ((matches_iff path_regex (c ∷ s)).0 m) refl))

not-rooted_nil : is_rooted [] ≡ false
unfolding is_rooted
not-rooted_nil = refl

module _ (r : Router) (path : Text) where
  -- With a site root configured, an absolute one, a path that the agent takes for a site lies
  -- strictly inside it, and its parts are names: none is "", "." or "..".
  pub is_allowed_site_path-IsInside :
      is_rooted r.site_root_dir ≡ true
      → is_allowed_site_path r path ≡ true
      → IsInside (segments r.site_root_dir) (segments path) × All IsName (segments path)
  unfolding is_allowed_site_path
  is_allowed_site_path-IsInside rooted h =
      let valid : is_valid_path path ≡ true = ground arith in
      let absolute = is_valid_path-rooted path valid in
      let prefix : has_prefix (clean path) (clean r.site_root_dir ++ slash) ≡ true =
        ground (arith, eqb_iff r.site_root_dir [], not-rooted_nil) in
      (
        has_prefix-IsInside r.site_root_dir path rooted absolute prefix,
        segments-IsName path absolute,
      )

  -- Without a site root configured, a path that the agent takes for a site is a site location: two
  -- parts deep at least, its first part no protected directory, and not a bare home directory.
  pub is_allowed_site_path-IsSiteLocation :
      r.site_root_dir ≡ [] → is_allowed_site_path r path ≡ true → IsSiteLocation (segments path)
  unfolding is_allowed_site_path
  is_allowed_site_path-IsSiteLocation none_set h =
      let valid : is_valid_path path ≡ true = ground arith in
      let allowed : is_ok (root_path_allowed (clean path)) ≡ true =
        ground (arith, eqb_iff r.site_root_dir []) in
      let (_, _, location) =
        root_path_allowed-IsSiteLocation (clean path)
          (is_ok-eq (root_path_allowed (clean path)) allowed) in
      rw (segments-clean path (is_valid_path-rooted path valid)) at location

-- What removeGeneratedFile removes lies strictly inside the given root, for absolute paths.
pub remove_generated_file-IsInside :
    (path root target : Text)
    → is_rooted path ≡ true
    → is_rooted root ≡ true
    → remove_generated_file path root ≡ remove_all target
    → (target ≡ clean path) × IsInside (segments root) (segments target)
unfolding remove_generated_file
remove_generated_file-IsInside path root target rp rr h =
    let prefix : has_prefix (clean path) (clean root ++ slash) ≡ true = ground arith in
    let same : target ≡ clean path = ground arith in
    (same, rw (same, segments-clean path rp) (has_prefix-IsInside root path rr rp prefix))

-- Some part of the path is a backup directory.
abbrev pub HasBackupPart : List Text → Type 0
HasBackupPart ps =
    (before : List Text) × (part : Text) × (after : List Text) × (ps ≡ before ++ part ∷ after)
    × ((part ≡ codes "backup") ⊎ (part ≡ codes "backups"))

backup_name :
    (part : Text) → is_backup_name part ≡ true → (part ≡ codes "backup") ⊎ (part ≡ codes "backups")
unfolding is_backup_name
backup_name part h = ground (arith, eqb_iff part (codes "backup"), eqb_iff part (codes "backups"))

scan-HasBackupPart : (i : ℕ) (ps : List Text) → scan_parts i ps ≡ some true → HasBackupPart ps
unfolding scan_parts
scan-HasBackupPart i [] h = absurd (cc)
scan-HasBackupPart i (p ∷ ps) h = elim (Bool-cases (is_backup_name p)) [
  | inl e ↦ ([], p, ps, refl, backup_name p e)
  | inr e ↦
      let rest : scan_parts (suc i) ps ≡ some true = ground arith in
      let (before, part, after, at, is_backup) = scan-HasBackupPart (suc i) ps rest in
      (p ∷ before, part, after, ap (λ xs. p ∷ xs) at, is_backup)
]

pub trim_prefix-append : (p t : Text) → trim_prefix (p ++ t) p ≡ t
unfolding trim_prefix
trim_prefix-append [] [] = refl
trim_prefix-append [] (c ∷ t) = refl
trim_prefix-append (c ∷ p) t =
    let same : (c == c) ≡ true = ground arith in
    let rest : has_prefix (p ++ t) p ≡ true = (has_prefix_iff (p ++ t) p).1 (t, refl) in
    rw (same, rest) (trim_prefix-append p t)

second-HasBackupPart : (ps : List Text) → second_is_backup ps ≡ true → HasBackupPart ps
unfolding second_is_backup
second-HasBackupPart [] h = absurd (cc)
second-HasBackupPart (domain ∷ []) h = absurd (cc)
second-HasBackupPart (domain ∷ sub ∷ more) h = (domain ∷ [], sub, more, refl, backup_name sub h)

HasBackupPart-append : (xs ys : List Text) → HasBackupPart ys → HasBackupPart (xs ++ ys)
HasBackupPart-append xs ys (before, part, after, at, is_backup) = (
  xs ++ before,
  part,
  after,
  ap (λ zs. xs ++ zs) at ∙ sym (append_assoc xs before (part ∷ after)),
  is_backup,
)

clean_parts :
    (p : Text) → is_rooted p ≡ true → segments p ≢ [] → split b'/' (clean p) ≡ [] ∷ segments p
clean_parts p r n =
    rw (clean-rooted p r, split-separator b'/' (join b'/' (segments p)))
      (ap (λ ps. [] ∷ ps) (split-join_names (segments p) (segments-IsName p r) n))

HasBackupPart-ne : (ps : List Text) → HasBackupPart ps → ps ≢ []
HasBackupPart-ne ps ([], part, after, at, is_backup) z = absurd (cc)
HasBackupPart-ne ps (p ∷ before, part, after, at, is_backup) z = absurd (cc)

module _ (r : Router) (path : Text) (absolute : is_rooted path ≡ true) where
  site_backups :
      is_rooted r.site_root_dir ≡ true
      → has_prefix (clean path) (clean r.site_root_dir ++ slash) ≡ true
      → second_is_backup (split b'/' (trim_prefix (clean path) (clean r.site_root_dir ++ slash)))
        ≡ true
      → HasBackupPart (split b'/' (clean path))
  site_backups rooted prefix second =
      let (t, e) = (has_prefix_iff (clean path) (clean r.site_root_dir ++ slash)).0 prefix in
      let parts = segments-split r.site_root_dir path rooted absolute t e in
      let cut : trim_prefix (clean path) (clean r.site_root_dir ++ slash) ≡ t =
        rw e (trim_prefix-append (clean r.site_root_dir ++ slash) t) in
      let found : HasBackupPart (segments path) = rw parts (
        HasBackupPart-append (segments r.site_root_dir) (split b'/' t)
          (second-HasBackupPart (split b'/' t) (rw cut at second))) in
      rw (clean_parts path absolute (HasBackupPart-ne (segments path) found))
        (HasBackupPart-append ([] ∷ []) (segments path) found)

  in_site-HasBackupPart :
      (r.site_root_dir ≡ []) ⊎ (is_rooted r.site_root_dir ≡ true)
      → in_site_backups r (clean path) ≡ true
      → HasBackupPart (split b'/' (clean path))
  unfolding in_site_backups
  in_site-HasBackupPart (inl unset) h = absurd (ground (arith, eqb_iff r.site_root_dir []))
  in_site-HasBackupPart (inr rooted) h = site_backups rooted (ground arith) (ground arith)

  -- The parts of the cleaned path show where it is.
  backups_cases :
      is_rooted r.backup_dir ≡ true
      → (r.site_root_dir ≡ []) ⊎ (is_rooted r.site_root_dir ≡ true)
      → is_allowed_backup_path r path ≡ true
      → IsInside (segments r.backup_dir) (segments path) ⊎ HasBackupPart (split b'/' (clean path))
  unfolding is_allowed_backup_path
  backups_cases rooted root_cases h =
      elim (Bool-cases (has_prefix (clean path) (clean r.backup_dir ++ slash))) [
        | inl e ↦ inl (has_prefix-IsInside r.backup_dir path rooted absolute e)
        | inr e ↦ inr (elim (Option-cases (scan_parts 0 (split b'/' (clean path)))) [
          | inl z ↦ in_site-HasBackupPart root_cases (ground arith)
          | inr (b, z) ↦ scan-HasBackupPart 0 (split b'/' (clean path)) (ground arith)
        ])
      ]

-- An accepted backup path has no part "", "." or "..", and lies strictly inside the backup directory
-- or has a part "backup" or "backups", when the backup directory is absolute and the site root is
-- absolute or not set.
pub is_allowed_backup_path-cases :
    (r : Router) (path : Text)
    → is_rooted r.backup_dir ≡ true
    → (r.site_root_dir ≡ []) ⊎ (is_rooted r.site_root_dir ≡ true)
    → is_allowed_backup_path r path ≡ true
    → All IsName (segments path)
      × (IsInside (segments r.backup_dir) (segments path) ⊎ HasBackupPart (split b'/' (clean path)))
is_allowed_backup_path-cases r path rooted root_cases h =
    let absolute = is_valid_path-rooted path (unfold is_allowed_backup_path in (ground arith)) in
    (segments-IsName path absolute, backups_cases r path absolute rooted root_cases h)
