-- ===== src/Units/Written.antt =====
-- What the tasks of internal/agenthttp/app_process.go write and run.
use sigarda_panel.Common.{◌≡◌, ◌≢◌, ◌⊎◌, true, List, ◌∷◌, ◌++◌, Option, some, All}
use sigarda_panel.Common.Check.{Check}
use sigarda_panel.Text.{Text, codes, split}
use sigarda_panel.AgentPaths.Words.{Router}
use sigarda_panel.AgentPaths.Sites.{is_allowed_site_path}
use sigarda_panel.Units.File.{systemd_quote}
use sigarda_panel.Units.Quote.{read_word, before}
use sigarda_panel.Units.Lines.{unit_lines}
use sigarda_panel.Units.Tasks.{Command, write_file, run_shell, Payload, TaskReply, unit_path}

-- The unit of a payload, line by line, with a root path of a site, an account that exists and is not
-- root, and a command that systemd hands to the shell as it is.
pub record IsUnitOf (r : Router) (lookup : Text → Option Text) (p : Payload) (unit : Text)
    : Type 0 where
  pub lines :
      split 10 unit
      ≡ unit_lines p.domain p.system_user p.root_path p.app_command p.app_port p.app_memory_max
  pub site_path : is_allowed_site_path r p.root_path ≡ true
  pub uid : Text
  pub account : lookup p.system_user ≡ some uid
  pub not_root : uid ≢ codes "0"
  pub shell_word :
      read_word before (systemd_quote (codes "exec " ++ p.app_command))
      ≡ some (codes "exec " ++ p.app_command)

-- A command of a payload: a unit at the path of its site, or a call of systemctl or journalctl.
abbrev pub IsOwn : Router → (Text → Option Text) → Payload → Command → Type 0
IsOwn r lookup p (write_file path unit) = (path ≡ unit_path p.site_id) × IsUnitOf r lookup p unit
IsOwn r lookup p (run_shell words) =
    (rest : List Text) × ((words ≡ codes "systemctl" ∷ rest) ⊎ (words ≡ codes "journalctl" ∷ rest))

record OwnRun (r : Router) (lookup : Text → Option Text) (p : Payload)
    (run : List Command × TaskReply) : Type 0 where
  own : All (IsOwn r lookup p) run.0
