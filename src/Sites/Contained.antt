-- ===== src/Sites/Contained.antt =====
-- Where safePath leads.
use sigarda_panel.Common.{◌≡◌, ◌≢◌, refl, sym, true, List, [], ◌∷◌, ◌++◌, All, arith}
use sigarda_panel.Text.{Text}
use sigarda_panel.Path.{is_rooted, segments, clean}
use sigarda_panel.Path.Clean.{IsName, clean-rooted, segments-IsName}
use sigarda_panel.AgentPaths.Backups.{join_two}
use sigarda_panel.Sites.Files.{
  Links, Resolution, found, not_exist, other_error, Verdict, inside, escape, out_of_fuel, from_root,
  ensure_no_symlink_escape, unfinished, if_inside, clean_rel, safe_path,
}
use sigarda_panel.Sites.Climb.{IsGrounded, path_of, climb-path_of}

-- A joined path is the cleaning of a rooted one when its first part is rooted.
join_two-clean :
    (root rel : Text)
    → is_rooted root ≡ true
    → (q : Text) × (is_rooted q ≡ true) × (join_two root rel ≡ clean q)
unfolding join_two is_rooted
join_two-clean [] rel h = absurd (cc)
join_two-clean (c ∷ s) [] h = (c ∷ s, h, refl)
join_two-clean (c ∷ s) (d ∷ t) h = ((c ∷ s) ++ b'/' ∷ d ∷ t, h, refl)

from_root-Judged :
    (links : Links) (names : List Text) (r : Resolution)
    → All IsName names
    → (from_root links (path_of names) r ≢ out_of_fuel)
      × (from_root links (path_of names) r ≡ inside
          → (real_root : Text) × (r ≡ found real_root) × IsGrounded links real_root names)
unfolding from_root
from_root-Judged links names (found real_root) h =
    let (ends, holds) = climb-path_of links real_root names h in
    (ends, λ e. (real_root, refl, holds e))
from_root-Judged links names not_exist h = (λ e. cc, λ e. absurd (cc))
from_root-Judged links names other_error h = (λ e. cc, λ e. absurd (cc))

ensure_no_symlink_escape-Judged :
    (links : Links) (root q : Text)
    → is_rooted q ≡ true
    → (ensure_no_symlink_escape links root (clean q) ≢ out_of_fuel)
      × (ensure_no_symlink_escape links root (clean q) ≡ inside
          → (real_root : Text) × (links root ≡ found real_root)
            × IsGrounded links real_root (segments q))
unfolding ensure_no_symlink_escape
ensure_no_symlink_escape-Judged links root q h =
    rw (clean-rooted q h) (from_root-Judged links (segments q) (links root) (segments-IsName q h))

if_inside-ends : (full : Text) (v : Verdict) → v ≢ out_of_fuel → if_inside full v ≢ unfinished
unfolding if_inside
if_inside-ends full inside h = λ e. cc
if_inside-ends full (escape m) h = λ e. cc
if_inside-ends full out_of_fuel h = λ e. h refl

-- The loop of ensureNoSymlinkEscape ends, on every file system: with an absolute site root, safePath
-- answers with a path or an error.
pub safe_path-Ends :
    (links : Links) (root rel : Text)
    → is_rooted root ≡ true
    → safe_path links root rel ≢ unfinished
unfolding safe_path
safe_path-Ends links root rel h =
    let (q, rooted, same) = join_two-clean root (clean_rel rel) h in
    let ends = rw (sym same) at (ensure_no_symlink_escape-Judged links (clean root) q rooted).0 in
    let full = join_two root (clean_rel rel) in
    ground (arith, if_inside-ends full (ensure_no_symlink_escape links (clean root) full) ends)
