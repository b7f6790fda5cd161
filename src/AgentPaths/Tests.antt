-- ===== src/AgentPaths/Tests.antt =====
-- Paths that the agent takes and refuses, and uses of the theorems.
use sigarda_panel.Common.{inr, ◌≡◌, refl, true, false, some, ◌++◌, [], All}
use sigarda_panel.Text.{mem_byte, Text, codes, has_prefix}
use sigarda_panel.Path.{clean, segments, is_rooted}
use sigarda_panel.Path.Clean.{IsName}
use sigarda_panel.Path.Under.{IsInside}
use sigarda_panel.SiteInput.Location.{IsSiteLocation}
use sigarda_panel.AgentPaths.Words.{Router}
use sigarda_panel.AgentPaths.Sites.{
  is_allowed_site_path, remove_generated_file, remove_all, unsafe_path,
}
use sigarda_panel.AgentPaths.Backups.{FileSystem, is_allowed_backup_path}
use sigarda_panel.AgentPaths.Sql.{sql_quote, read_literal, read_literal-sql_quote}
use sigarda_panel.AgentPaths.Inside.{
  is_allowed_site_path-IsInside, is_allowed_site_path-IsSiteLocation,
}

abbrev agent : Router
agent = record { site_root_dir = codes "/var/www"; backup_dir = codes "/var/backups/sigardapanel" }

abbrev rootless : Router
rootless = record { site_root_dir = []; backup_dir = codes "/var/backups/sigardapanel" }

abbrev site : Text
site = codes "/var/www/shop"

www_rooted : is_rooted agent.site_root_dir ≡ true
unfolding is_rooted
www_rooted = refl

backups_rooted : is_rooted agent.backup_dir ≡ true
unfolding is_rooted
backups_rooted = refl

site_allowed : is_allowed_site_path agent site ≡ true
unfolding is_allowed_site_path sigarda_panel.AgentPaths.Words.is_valid_path
    sigarda_panel.Text.contains sigarda_panel.Regex.matches
    sigarda_panel.AgentPaths.Words.path_regex sigarda_panel.Text.eqb clean is_rooted
    sigarda_panel.Text.join segments
site_allowed = refl

sibling_refused : is_allowed_site_path agent (codes "/var/www2/shop") ≡ false
unfolding is_allowed_site_path sigarda_panel.AgentPaths.Words.is_valid_path
    sigarda_panel.Text.contains sigarda_panel.Regex.matches
    sigarda_panel.AgentPaths.Words.path_regex sigarda_panel.Text.eqb clean is_rooted
    sigarda_panel.Text.join segments
sibling_refused = refl

is_allowed_site_path-IsInside_example :
    IsInside (segments agent.site_root_dir) (segments site) × All IsName (segments site)
is_allowed_site_path-IsInside_example =
    is_allowed_site_path-IsInside agent site www_rooted site_allowed

abbrev blog : Text
blog = codes "/srv/blog"

blog_allowed : is_allowed_site_path rootless blog ≡ true
unfolding is_allowed_site_path sigarda_panel.AgentPaths.Words.is_valid_path
    sigarda_panel.Text.contains sigarda_panel.Regex.matches
    sigarda_panel.AgentPaths.Words.path_regex sigarda_panel.Text.eqb
    sigarda_panel.SiteInput.Paths.root_path_allowed sigarda_panel.SiteInput.Paths.root_path clean
    is_rooted sigarda_panel.Text.join segments sigarda_panel.SiteInput.Patterns.root_path_re
    sigarda_panel.SiteInput.Paths.is_refused_location
blog_allowed = refl

is_allowed_site_path-IsSiteLocation_example : IsSiteLocation (segments blog)
is_allowed_site_path-IsSiteLocation_example =
    is_allowed_site_path-IsSiteLocation rootless blog refl blog_allowed

abbrev conf_root : Text
conf_root = codes "/etc/nginx/sites"

abbrev conf : Text
conf = codes "/etc/nginx/sites/shop.conf"

conf_rooted : is_rooted conf ≡ true
unfolding is_rooted
conf_rooted = refl

conf_root_rooted : is_rooted conf_root ≡ true
unfolding is_rooted
conf_root_rooted = refl

conf_removed : remove_generated_file conf conf_root ≡ remove_all conf
unfolding remove_generated_file sigarda_panel.Text.eqb clean is_rooted sigarda_panel.Text.join
    segments has_prefix
conf_removed = refl

root_kept : remove_generated_file conf_root conf_root ≡ unsafe_path
unfolding remove_generated_file sigarda_panel.Text.eqb clean is_rooted sigarda_panel.Text.join
    segments
root_kept = refl

abbrev archive : Text
archive = codes "/var/www/shop/backups/1.tar.gz"

archive_allowed : is_allowed_backup_path agent archive ≡ true
unfolding is_allowed_backup_path sigarda_panel.AgentPaths.Words.is_valid_path
    sigarda_panel.Text.contains sigarda_panel.Regex.matches
    sigarda_panel.AgentPaths.Words.path_regex clean is_rooted sigarda_panel.Text.join segments
    sigarda_panel.AgentPaths.Backups.scan_parts sigarda_panel.AgentPaths.Backups.is_backup_name
archive_allowed = refl

-- A file system without symbolic links and special files.
abbrev plain : FileSystem
plain = record { eval_symlinks = λ dir. some dir; is_special = λ file. false }

abbrev homed : Router
homed = record { site_root_dir = codes "/home/www"; backup_dir = codes "/var/backups/sigardapanel" }

abbrev dump : Text
dump = codes "/home/www/shop/backups/1.sql"

abbrev quoted : Text
quoted = codes "it's'; DROP"

quoted_plain : mem_byte 92 quoted ≡ false
unfolding mem_byte
quoted_plain = refl

read_literal-sql_quote_example :
    read_literal true (λ c. c) (sql_quote quoted ++ codes ";") ≡ some (quoted, codes ";")
read_literal-sql_quote_example =
    read_literal-sql_quote true (λ c. c) quoted (codes ";") (inr quoted_plain) (λ e. cc)
