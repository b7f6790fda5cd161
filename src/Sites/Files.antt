-- ===== src/Sites/Files.antt =====
-- safePath and ensureNoSymlinkEscape of internal/apihttp/filemanager.go.
use Prim.Native.String.{String}
use mathlib.Core.Bool.{not}
use sigarda_panel.Common.{ℕ, zero, suc, ◌&&◌, ◌||◌, ◌++◌, [], if◌then◌else◌, length}
use sigarda_panel.Text.{Text, eqb, has_prefix, trim_space}
use sigarda_panel.Path.{clean, slash, dot, dotdot, is_within}
use sigarda_panel.AgentPaths.Backups.{dir_of, join_two}

-- What filepath.EvalSymlinks answers: the real path, os.IsNotExist, or another error.
pub data Resolution : Type 0 where
  found : Text → Resolution
  not_exist other_error : Resolution

abbrev pub Links : Type 0
Links = Text → Resolution

pub data Verdict : Type 0 where
  inside : Verdict
  escape : String → Verdict
  out_of_fuel : Verdict

-- One round of the loop; `above` is what the rounds after it give.
unfoldable pub judge : Text → Text → Resolution → Verdict → Verdict
judge real_root probe (found real) above =
    if is_within real_root real then inside else escape "path traversal not allowed"
judge real_root probe other_error above = escape "invalid path"
judge real_root probe not_exist above =
    if eqb (dir_of probe) probe then escape "invalid path" else above

unfoldable pub climb : Links → Text → ℕ → Text → Verdict
unfolding judge
climb links real_root zero probe = out_of_fuel
climb links real_root (suc fuel) probe =
    let above = climb links real_root fuel (dir_of probe) in
    judge real_root probe (links probe) above

unfoldable pub from_root : Links → Text → Resolution → Verdict
from_root links full (found real_root) = climb links real_root (suc (length full)) full
from_root links full _ = escape "site root not accessible"

unfoldable pub ensure_no_symlink_escape : Links → Text → Text → Verdict
unfolding from_root
ensure_no_symlink_escape links root full = from_root links full (links root)

pub data Located : Type 0 where
  located : Text → Located
  bad_request : String → Located
  unfinished : Located

unfoldable pub if_inside : Text → Verdict → Located
if_inside full inside = located full
if_inside full (escape message) = bad_request message
if_inside full out_of_fuel = unfinished

-- rel after TrimSpace, "." for nothing, and Clean
unfoldable pub clean_rel : Text → Text
clean_rel rel = let trimmed = trim_space rel in clean (if eqb trimmed [] then dot else trimmed)

unfoldable pub safe_path : Links → Text → Text → Located
unfolding clean_rel ensure_no_symlink_escape if_inside
safe_path links root rel =
    let r = clean_rel rel in
    let full = join_two root r in
    if eqb root []
    then bad_request "site root path not configured"
    else if eqb r dotdot || has_prefix r dotdot || has_prefix r slash
    then bad_request "invalid path"
    else if not (eqb full (clean root)) && not (has_prefix full (clean root ++ slash))
    then bad_request "path traversal not allowed"
    else if_inside full (ensure_no_symlink_escape links (clean root) full)
