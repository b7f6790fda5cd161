-- ===== src/Sites/Tests.antt =====
-- Uses of the theorems on the files of a site.
use sigarda_panel.Common.{◌≡◌, ◌≢◌, refl, true, if◌then◌else◌}
use sigarda_panel.Text.{Text, codes, eqb}
use sigarda_panel.Path.{is_rooted, segments, clean}
use sigarda_panel.Sites.Files.{Links, found, not_exist, bad_request, unfinished, safe_path}
use sigarda_panel.Sites.Contained.{safe_path-Ends}

abbrev root : Text
root = codes "/srv/a"

abbrev wanted : Text
wanted = codes " b/../c/d "

abbrev full : Text
full = codes "/srv/a/c/d"

-- The site is a link to another disk, and "out" leads out of it.
abbrev disk : Links
disk p =
    if eqb p root
    then found (codes "/mnt/a")
    else if eqb p (codes "/srv/a/out")
    then found (codes "/etc")
    else not_exist

root-rooted : is_rooted root ≡ true
unfolding is_rooted
root-rooted = refl

safe_path-link : safe_path disk root (codes "out/passwd") ≡ bad_request "path traversal not allowed"
unfolding safe_path eqb clean is_rooted sigarda_panel.Text.trim_space segments
    sigarda_panel.Text.join sigarda_panel.Text.has_prefix sigarda_panel.AgentPaths.Backups.join_two
    sigarda_panel.Sites.Files.climb sigarda_panel.AgentPaths.Backups.dir_of
    sigarda_panel.Path.is_within
safe_path-link = refl

safe_path-dotdot : safe_path disk root (codes "../b") ≡ bad_request "invalid path"
unfolding safe_path eqb clean is_rooted sigarda_panel.Text.trim_space segments
    sigarda_panel.Text.join sigarda_panel.Text.has_prefix
safe_path-dotdot = refl

safe_path-Ends_example : safe_path disk root (codes "out/passwd") ≢ unfinished
safe_path-Ends_example = safe_path-Ends disk root (codes "out/passwd") root-rooted
