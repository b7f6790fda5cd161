-- ===== src/Units/Tests.antt =====
-- Uses of the theorem on the tasks of applications.
use sigarda_panel.Common.{◌≡◌, refl, true, Option, some, none, if◌then◌else◌}
use sigarda_panel.Common.Int.{pos}
use sigarda_panel.Text.{Text, codes, eqb, trim_space}
use sigarda_panel.AgentPaths.Words.{Router, is_valid_domain}
use sigarda_panel.AgentPaths.Sites.{is_allowed_site_path}
use sigarda_panel.Common.Check.{ok}
use sigarda_panel.Units.File.{validate_app_unit_input}
use sigarda_panel.Units.Tasks.{
  is_positive, report, start_unit, start_valid, Executor, Payload, running, app_start_task,
}

abbrev router : Router
router = record {
  site_root_dir = codes "/home/u/htdocs";
  backup_dir = codes "/var/backups/sigardapanel";
}

abbrev lookup : Text → Option Text
lookup name = if eqb name (codes "app") then some (codes "1001") else none

abbrev executor : Executor
executor = record { succeeds = λ done c. true; output = λ done c. codes "active\n" }

abbrev payload : Payload
payload = record {
  site_id = pos 7;
  domain = codes "a.example.com";
  root_path = codes "/home/u/htdocs/a";
  system_user = codes "app";
  app_port = pos 3000;
  app_command = codes "node \"$X\" 100%";
  app_memory_max = pos 0;
}

placed : is_allowed_site_path router payload.root_path ≡ true
unfolding is_allowed_site_path sigarda_panel.AgentPaths.Words.is_valid_path
    sigarda_panel.Text.contains sigarda_panel.Regex.matches
    sigarda_panel.AgentPaths.Words.path_regex eqb sigarda_panel.Path.clean
    sigarda_panel.Path.is_rooted sigarda_panel.Text.join sigarda_panel.Path.segments
placed = refl

valid :
    validate_app_unit_input lookup payload.domain payload.system_user payload.root_path
      payload.app_command
    ≡ ok
unfolding validate_app_unit_input is_valid_domain sigarda_panel.Regex.matches
    sigarda_panel.AgentPaths.Words.domain_regex sigarda_panel.SiteInput.Paths.root_path
    sigarda_panel.SiteInput.Patterns.root_path_re sigarda_panel.Text.split eqb
    sigarda_panel.SiteInput.Values.system_user sigarda_panel.SiteInput.Patterns.system_user_re
    sigarda_panel.SiteInput.Values.member
valid = refl

named : is_valid_domain payload.domain ≡ true
unfolding is_valid_domain sigarda_panel.Regex.matches sigarda_panel.AgentPaths.Words.domain_regex
named = refl

started : (app_start_task router lookup executor (some payload)).1 ≡ running
unfolding app_start_task start_valid start_unit report eqb is_positive trim_space
started = rw (named, placed, valid) refl
