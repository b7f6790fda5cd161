-- ===== src/Commands/Tests.antt =====
-- A use of the theorem on commands of users.
use sigarda_panel.Common.{◌≡◌, refl, List, [], ◌∷◌, Option, some, none}
use sigarda_panel.Text.{Text, codes}
use sigarda_panel.Commands.Run.{
  SystemAccount, Process, Start, not_allowed, refuses_root, started, only, user_environment,
  process, run_as_user, run_shell,
}
use sigarda_panel.Commands.Unprivileged.{IsUnprivileged, run_as_user-IsUnprivileged}

-- An account that is in the groups 0 and 33 too.
abbrev account : Text → Option SystemAccount
account uid = some (record {
  home_dir = codes "/home/u";
  username = codes "u";
  group_ids = some (codes "0" ∷ codes "33" ∷ codes "x" ∷ []);
})

abbrev npm : Process
npm = record (process 0 (codes "/usr/bin/npm") []) {
  env = only (user_environment (codes "/home/u") (codes "u"));
  dir = codes "/home/u/app";
  credential = some (record { uid = 1001; gid = 1001; groups = 33 ∷ [] });
}

npm-started :
    run_as_user account 0 1001 1001 (codes "/home/u/app") (codes "/usr/bin/npm") [] ≡ started npm
unfolding run_as_user sigarda_panel.Commands.Run.is_allowed_command
    sigarda_panel.SiteInput.Values.member sigarda_panel.AgentPaths.Backups.base_of
    sigarda_panel.Text.split sigarda_panel.SiteInput.Paths.trim_right
    sigarda_panel.Commands.Run.parse_uint32 sigarda_panel.Common.Int.unsigned
npm-started = refl

root_refused : run_as_user account 0 0 0 [] (codes "npm") [] ≡ refuses_root
unfolding run_as_user sigarda_panel.Commands.Run.is_allowed_command
    sigarda_panel.SiteInput.Values.member sigarda_panel.AgentPaths.Backups.base_of
    sigarda_panel.Text.split sigarda_panel.SiteInput.Paths.trim_right
root_refused = refl

rm_refused : run_shell 0 (codes "rm") [] ≡ not_allowed
unfolding run_shell sigarda_panel.Commands.Run.is_allowed_command
    sigarda_panel.SiteInput.Values.member sigarda_panel.AgentPaths.Backups.base_of
    sigarda_panel.Text.split sigarda_panel.SiteInput.Paths.trim_right
rm_refused = refl

run_as_user-IsUnprivileged_example : IsUnprivileged 1001 1001 npm
run_as_user-IsUnprivileged_example =
    run_as_user-IsUnprivileged account 0 1001 1001 (codes "/home/u/app") (codes "/usr/bin/npm") []
      npm npm-started
