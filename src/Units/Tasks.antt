-- ===== src/Units/Tasks.antt =====
-- The tasks app.start, app.stop and app.restart of internal/agenthttp/app_process.go as the commands
-- that they give the executor, in order, and their answers. Log lines are effects.
use Prim.Native.String.{String}
use mathlib.Core.Bool.{not}
use sigarda_panel.Common.{
  ℕ, Bool, false, ◌&&◌, ◌||◌, List, [], ◌∷◌, ◌++◌, Option, none, some, if◌then◌else◌, ltb,
}
use sigarda_panel.Common.Int.{ℤ, pos, negsuc}
use sigarda_panel.Common.Check.{Check, ok, err, is_ok}
use sigarda_panel.Text.{Text, codes, eqb, trim_space}
use sigarda_panel.AgentPaths.Words.{Router, is_valid_domain}
use sigarda_panel.AgentPaths.Sites.{is_allowed_site_path}
use sigarda_panel.AgentPaths.Backups.{join_two}
use sigarda_panel.Units.File.{app_service_name, systemd_unit_content, validate_app_unit_input}

pub data Command : Type 0 where
  write_file : Text → Text → Command
  run_shell : List Text → Command

-- The executor: whether a command succeeds after others, and its output.
pub record Executor : Type 0 where
  pub succeeds : List Command → Command → Bool
  pub output : List Command → Command → Text

pub record Payload : Type 0 where
  pub site_id : ℤ
  pub domain : Text
  pub root_path : Text
  pub system_user : Text
  pub app_port : ℤ
  pub app_command : Text
  pub app_memory_max : ℤ

pub data TaskReply : Type 0 where
  failed : ℕ → String → TaskReply
  running : TaskReply
  errored : Text → TaskReply
  stopped : TaskReply

abbrev pub systemctl : List Text → Command
systemctl words = run_shell (codes "systemctl" ∷ words)

abbrev pub journal : Text → Command
journal svc =
    run_shell
      (codes "journalctl" ∷ codes "-u" ∷ svc ∷ codes "-n" ∷ codes "20" ∷ codes "--no-pager" ∷ [])

unfoldable pub unit_path : ℤ → Text
unit_path site_id =
    join_two (codes "/etc/systemd/system") (app_service_name site_id ++ codes ".service")

abbrev pub unit_of : Payload → Text
unit_of p =
    systemd_unit_content p.domain p.system_user p.root_path p.app_command p.app_port
      p.app_memory_max

unfoldable pub is_positive : ℤ → Bool
is_positive (pos n) = ltb 0 n
is_positive (negsuc n) = false

-- From the question whether the unit is active to the answer.
unfoldable pub report : Executor → Text → List Command → List Command × TaskReply
report ex svc done =
    let ask = systemctl (codes "is-active" ∷ svc ∷ []) in
    let asked = done ++ ask ∷ [] in
    if eqb (trim_space (ex.output done ask)) (codes "active")
    then (asked, running)
    else (asked ++ journal svc ∷ [], errored (trim_space (ex.output asked (journal svc))))

unfoldable pub start_unit : Executor → Text → Text → Text → List Command × TaskReply
unfolding report
start_unit ex svc path unit =
    let write = write_file path unit in
    let reload = systemctl (codes "daemon-reload" ∷ []) in
    let enable = systemctl (codes "enable" ∷ svc ∷ []) in
    let restart = systemctl (codes "restart" ∷ svc ∷ []) in
    if not (ex.succeeds [] write)
    then (write ∷ [], failed 500 "write unit failed")
    else if not (ex.succeeds (write ∷ []) reload)
    then (write ∷ reload ∷ [], failed 500 "daemon-reload failed")
    else if not (ex.succeeds (write ∷ reload ∷ enable ∷ []) restart)
    then (write ∷ reload ∷ enable ∷ restart ∷ [], failed 500 "start failed")
    else report ex svc (write ∷ reload ∷ enable ∷ restart ∷ [])

unfoldable pub start_valid : Executor → Payload → Check → List Command × TaskReply
unfolding start_unit unit_path
start_valid ex p (err e) = ([], failed 400 e)
start_valid ex p ok = start_unit ex (app_service_name p.site_id) (unit_path p.site_id) (unit_of p)

unfoldable pub app_start_task :
    Router → (Text → Option Text) → Executor → Option Payload → List Command × TaskReply
unfolding start_valid is_positive
app_start_task r lookup ex none = ([], failed 400 "invalid payload")
app_start_task r lookup ex (some p) =
    if not (is_valid_domain p.domain) || not (is_allowed_site_path r p.root_path)
    then ([], failed 400 "invalid domain or path")
    else if eqb p.app_command [] || not (is_positive p.app_port)
    then ([], failed 400 "missing app command or port")
    else start_valid ex p
        (validate_app_unit_input lookup p.domain p.system_user p.root_path p.app_command)

unfoldable pub app_stop_task : Executor → Option Payload → List Command × TaskReply
app_stop_task ex none = ([], failed 400 "invalid payload")
app_stop_task ex (some p) =
    (systemctl (codes "stop" ∷ app_service_name p.site_id ∷ []) ∷ [], stopped)

unfoldable pub is_rewritten : Router → (Text → Option Text) → Payload → Bool
unfolding is_positive
is_rewritten r lookup p =
    not (eqb p.app_command [])
    && is_positive p.app_port
    && is_valid_domain p.domain
    && is_allowed_site_path r p.root_path
    && is_ok (validate_app_unit_input lookup p.domain p.system_user p.root_path p.app_command)

-- The commands before the restart.
unfoldable pub rewrite : Router → (Text → Option Text) → Executor → Payload → List Command
unfolding is_rewritten unit_path
rewrite r lookup ex p =
    let write = write_file (unit_path p.site_id) (unit_of p) in
    if is_rewritten r lookup p
    then if ex.succeeds [] write
      then write ∷ systemctl (codes "daemon-reload" ∷ []) ∷ []
      else write ∷ []
    else []

unfoldable pub restart_after : Executor → Text → List Command → List Command × TaskReply
unfolding report
restart_after ex svc done =
    let restart = systemctl (codes "restart" ∷ svc ∷ []) in
    if not (ex.succeeds done restart)
    then (done ++ restart ∷ [], failed 500 "restart failed")
    else report ex svc (done ++ restart ∷ [])

unfoldable pub app_restart_task :
    Router → (Text → Option Text) → Executor → Option Payload → List Command × TaskReply
unfolding rewrite restart_after
app_restart_task r lookup ex none = ([], failed 400 "invalid payload")
app_restart_task r lookup ex (some p) =
    restart_after ex (app_service_name p.site_id) (rewrite r lookup ex p)
