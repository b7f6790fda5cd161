-- ===== src/AgentPaths/Backups.antt =====
-- Paths of backup files.
use mathlib.Core.Bool.{not}
use mathlib.Core.List.{reverse}
use sigarda_panel.Common.{
  ℕ, suc, Bool, ◌||◌, ◌&&◌, ◌++◌, List, [], ◌∷◌, ltb, leb, ◌==◌, if◌then◌else◌, true, false, any,
  length, Option, none, some, map,
}
use sigarda_panel.Common.Check.{is_ok}
use sigarda_panel.Text.{Text, codes, has_prefix, eqb, split}
use sigarda_panel.Path.{clean, slash, dot, dotdot}
use sigarda_panel.SiteInput.Paths.{root_path_allowed, trim_right}
use sigarda_panel.SiteInput.Docker.{trim_prefix}
use sigarda_panel.AgentPaths.Words.{Router, is_valid_path}

unfoldable pub is_backup_name : Text → Bool
unfolding eqb
is_backup_name part = eqb part (codes "backup") || eqb part (codes "backups")

-- The loop over the parts; `none` where it ends with no answer. The last part is the file itself.
unfoldable pub scan_parts : ℕ → List Text → Option Bool
scan_parts i [] = none
scan_parts i (part ∷ parts) =
    let rest = scan_parts (suc i) parts in
    if eqb part dotdot
    then some false
    else if is_backup_name part && ltb 0 i && not (length parts == 0)
    then some true
    else rest

-- relParts[1] is a backup directory
unfoldable pub second_is_backup : List Text → Bool
second_is_backup (domain ∷ sub ∷ more) = is_backup_name sub
second_is_backup _ = false

unfoldable pub in_site_backups : Router → Text → Bool
in_site_backups r path =
    if eqb r.site_root_dir []
    then false
    else if has_prefix path (clean r.site_root_dir ++ slash)
    then second_is_backup (split b'/' (trim_prefix path (clean r.site_root_dir ++ slash)))
    else false

unfoldable pub is_allowed_backup_path : Router → Text → Bool
is_allowed_backup_path r path =
    if not (is_valid_path path)
    then false
    else if has_prefix (clean path) (clean r.backup_dir ++ slash)
    then true
    else elim (scan_parts 0 (split b'/' (clean path))) [
      | some b ↦ b
      | none ↦ in_site_backups r (clean path)
    ]

-- strings.ToLower on ASCII letters; other bytes are in no file type of the list.
abbrev pub lower : ℕ → ℕ
lower c = if leb b'A' c && leb c b'Z' then Prim.Native.Nat.◌+◌ c 32 else c

unfoldable pub ends_with : Text → Text → Bool
ends_with s t = has_prefix (reverse s) (reverse t)

-- path[:i+1] for the last slash at i, or nothing
unfoldable pub upto_last_slash : Text → Text
upto_last_slash [] = []
upto_last_slash (c ∷ s) = elim (upto_last_slash s) [
  | [] ↦ if c == b'/' then c ∷ [] else []
  | d ∷ t ↦ c ∷ d ∷ t
]

-- filepath.Dir
unfoldable pub dir_of : Text → Text
unfolding upto_last_slash
dir_of path = clean (upto_last_slash path)

last_part : List Text → Text
last_part [] = []
last_part (p ∷ []) = p
last_part (p ∷ q ∷ ps) = last_part (q ∷ ps)

slash_if_empty : Text → Text
slash_if_empty [] = slash
slash_if_empty (c ∷ s) = c ∷ s

-- filepath.Base
unfoldable pub base_of : Text → Text
unfolding last_part slash_if_empty
base_of [] = dot
base_of (c ∷ s) = slash_if_empty (last_part (split b'/' (trim_right b'/' (c ∷ s))))

-- filepath.Join of two
unfoldable pub join_two : Text → Text → Text
join_two [] [] = []
join_two [] (c ∷ s) = clean (c ∷ s)
join_two (c ∷ s) [] = clean (c ∷ s)
join_two (c ∷ s) (d ∷ t) = clean ((c ∷ s) ++ b'/' ∷ d ∷ t)

abbrev pub backup_file_exts : List Text
backup_file_exts =
    codes ".tar.gz" ∷ codes ".tgz" ∷ codes ".sql" ∷ codes ".sql.gz" ∷ codes ".zip" ∷ []

unfoldable pub has_backup_ext : Text → Bool
unfolding ends_with
has_backup_ext path = any (ends_with (map lower path)) backup_file_exts

-- What the file system answers: filepath.EvalSymlinks, and whether os.Lstat finds something that is
-- no regular file.
pub record FileSystem : Type 0 where
  pub eval_symlinks : Text → Option Text
  pub is_special : Text → Bool

-- The checks on the location found; "/var/backups" belongs to the operating system but for the
-- agent's own directory in it.
resolved : Router → FileSystem → Text → Text → Option Text
resolved r fs path dir =
    let real = join_two dir (base_of path) in
    if not (is_allowed_backup_path r real)
    then none
    else if not (is_ok (root_path_allowed dir))
    then none
    else if has_prefix real (codes "/var/backups/")
        && not (has_prefix real (clean r.backup_dir ++ slash))
    then none
    else if fs.is_special real
    then none
    else some real

unfoldable pub resolve_backup_file : Router → FileSystem → Text → Option Text
unfolding resolved
resolve_backup_file r fs path =
    if not (is_allowed_backup_path r path)
    then none
    else if not (has_backup_ext path)
    then none
    else elim (fs.eval_symlinks (dir_of (clean path))) [
      | none ↦ none
      | some dir ↦ resolved r fs path dir
    ]
