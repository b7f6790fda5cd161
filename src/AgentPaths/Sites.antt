-- ===== src/AgentPaths/Sites.antt =====
-- Paths of sites, and the removal of generated files.
use mathlib.Core.Bool.{not}
use sigarda_panel.Common.{Bool, ◌||◌, ◌++◌, if◌then◌else◌, false, []}
use sigarda_panel.Common.Check.{is_ok}
use sigarda_panel.Text.{Text, has_prefix, eqb}
use sigarda_panel.Path.{clean, slash}
use sigarda_panel.SiteInput.Paths.{root_path_allowed}
use sigarda_panel.AgentPaths.Words.{Router, is_valid_path}

unfoldable pub is_allowed_site_path : Router → Text → Bool
is_allowed_site_path r path =
    if not (is_valid_path path)
    then false
    else if eqb r.site_root_dir []
    then is_ok (root_path_allowed (clean path))
    else if eqb (clean path) (clean r.site_root_dir)
    then false
    else has_prefix (clean path) (clean r.site_root_dir ++ slash)

-- errUnsafePath, or the call executor.RemoveAll with its argument
pub data Removal : Type 0 where
  unsafe_path : Removal
  remove_all : Text → Removal

unfoldable pub remove_generated_file : Text → Text → Removal
remove_generated_file path root =
    if eqb (clean path) (clean root) || not (has_prefix (clean path) (clean root ++ slash))
    then unsafe_path
    else remove_all (clean path)
