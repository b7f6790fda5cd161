-- ===== src/Commands/Run.antt =====
-- internal/executor/executor.go: what each method starts, or why it starts nothing. Running the process
-- is left to the operating system; times are seconds.
use sigarda_panel.Common.{
  ℕ, ◌*◌, ◌^◌, Bool, not, List, [], ◌∷◌, ◌++◌, Option, none, some, if◌then◌else◌, ltb, ◌==◌,
}
use sigarda_panel.Common.Int.{unsigned}
use sigarda_panel.Text.{Text, codes}
use sigarda_panel.Auth.Limits.{format_int}
use sigarda_panel.AgentPaths.Backups.{base_of}
use sigarda_panel.SiteInput.Values.{member}

abbrev pub allowed_commands : List Text
allowed_commands =
    codes "systemctl"
    ∷ codes "service"
    ∷ codes "nginx"
    ∷ codes "certbot"
    ∷ codes "git"
    ∷ codes "tar"
    ∷ codes "tail"
    ∷ codes "openssl"
    ∷ codes "mysql"
    ∷ codes "mysqldump"
    ∷ codes "psql"
    ∷ codes "pg_dump"
    ∷ codes "stat"
    ∷ codes "mkdir"
    ∷ codes "echo"
    ∷ codes "aws"
    ∷ codes "sh"
    ∷ codes "bash"
    ∷ codes "cp"
    ∷ codes "mv"
    ∷ codes "find"
    ∷ codes "sysctl"
    ∷ codes "du"
    ∷ codes "cat"
    ∷ codes "wc"
    ∷ codes "head"
    ∷ codes "sleep"
    ∷ codes "curl"
    ∷ codes "apt-get"
    ∷ codes "apt-cache"
    ∷ codes "apt"
    ∷ codes "yum"
    ∷ codes "dnf"
    ∷ codes "apk"
    ∷ codes "docker"
    ∷ codes "node"
    ∷ codes "npm"
    ∷ codes "pip"
    ∷ codes "pip3"
    ∷ codes "go"
    ∷ codes "redis-server"
    ∷ codes "redis-cli"
    ∷ codes "memcached"
    ∷ codes "ufw"
    ∷ codes "supervisord"
    ∷ codes "mariadb"
    ∷ codes "php"
    ∷ codes "php8.4"
    ∷ codes "php8.3"
    ∷ codes "php8.2"
    ∷ codes "php8.1"
    ∷ codes "php8.0"
    ∷ codes "make"
    ∷ codes "gcc"
    ∷ codes "python3"
    ∷ codes "python"
    ∷ codes "fail2ban-client"
    ∷ codes "which"
    ∷ codes "chown"
    ∷ codes "journalctl"
    ∷ codes "test"
    ∷ []

unfoldable pub is_allowed_command : Text → Bool
is_allowed_command name = member (base_of name) allowed_commands

-- The process's own environment with more, or nothing but the given one.
pub data Environment : Type 0 where
  inherited : List Text → Environment
  only : List Text → Environment

pub record Credential : Type 0 where
  pub uid : ℕ
  pub gid : ℕ
  pub groups : List ℕ

-- exec.Cmd; without a credential the process runs as the agent does.
pub record Process : Type 0 where
  pub name : Text
  pub args : List Text
  pub timeout : ℕ
  pub env : Environment
  pub dir : Text
  pub input : Text
  pub stdout : Option Text
  pub credential : Option Credential

pub data Start : Type 0 where
  not_allowed : Start
  refuses_root : Start
  no_output_file : Start
  started : Process → Start

-- e.Timeout, or the default where it is not positive; 0 stands for that.
unfoldable pub timeout_or : ℕ → ℕ → ℕ
timeout_or default timeout = if timeout == 0 then default else timeout

abbrev pub process : ℕ → Text → List Text → Process
process timeout name args = record {
  name = name;
  args = args;
  timeout = timeout_or 60 timeout;
  env = inherited [];
  dir = [];
  input = [];
  stdout = none;
  credential = none;
}

unfoldable pub run_shell : ℕ → Text → List Text → Start
unfolding timeout_or
run_shell timeout name args =
    if is_allowed_command name then started (process timeout name args) else not_allowed

unfoldable pub run_with_input : ℕ → Text → Text → List Text → Start
unfolding timeout_or
run_with_input timeout input name args =
    if is_allowed_command name
    then started (record (process timeout name args) { input = input })
    else not_allowed

unfoldable pub run_shell_env : ℕ → List Text → Text → List Text → Start
unfolding timeout_or
run_shell_env timeout env name args =
    if is_allowed_command name
    then started (record (process timeout name args) { env = inherited env })
    else not_allowed

-- `opened` is whether the file could be created; it must not exist yet.
unfoldable pub run_to_file_env : ℕ → Bool → List Text → Text → Text → List Text → Start
unfolding timeout_or
run_to_file_env timeout opened env out_path name args =
    if not (is_allowed_command name)
    then not_allowed
    else if not opened
    then no_output_file
    else started (record (process timeout name args) {
      timeout = timeout_or (15 * 60) timeout;
      env = inherited env;
      stdout = some out_path;
    })

unfoldable pub run_shell_dir : ℕ → Text → Text → List Text → Start
unfolding timeout_or
run_shell_dir timeout dir name args =
    if is_allowed_command name
    then started (record (process timeout name args) { dir = dir })
    else not_allowed

-- user.User with its GroupIds, `none` where those cannot be read
pub record SystemAccount : Type 0 where
  pub home_dir : Text
  pub username : Text
  pub group_ids : Option (List Text)

-- strconv.ParseUint in base ten with 32 bits
unfoldable pub parse_uint32 : Text → Option ℕ
parse_uint32 s = elim (unsigned s) [
  | none ↦ none
  | some n ↦ if ltb n (2 ^ 32) then some n else none
]

unfoldable pub add_group : Option ℕ → List ℕ → List ℕ
add_group none groups = groups
add_group (some n) groups = if n == 0 then groups else n ∷ groups

unfoldable pub parse_groups : List Text → List ℕ
unfolding add_group
parse_groups [] = []
parse_groups (g ∷ gids) = add_group (parse_uint32 g) (parse_groups gids)

unfoldable pub groups_of : Option SystemAccount → List ℕ
unfolding parse_groups
groups_of none = []
groups_of (some u) = elim u.group_ids [ none ↦ [] | some gids ↦ parse_groups gids ]

unfoldable pub home_of : Option SystemAccount → Text
home_of none = codes "/tmp"
home_of (some u) = u.home_dir

unfoldable pub login_of : ℕ → Option SystemAccount → Text
login_of uid none = format_int uid
login_of uid (some u) = u.username

unfoldable pub user_environment : Text → Text → List Text
user_environment home login =
    (codes "HOME=" ++ home)
    ∷ (codes "USER=" ++ login)
    ∷ (codes "LOGNAME=" ++ login)
    ∷ codes "PATH=/usr/local/bin:/usr/bin:/bin:/usr/sbin:/sbin"
    ∷ codes "GIT_TERMINAL_PROMPT=0"
    ∷ codes "LANG=C.UTF-8"
    ∷ []

unfoldable pub run_as_user :
    (Text → Option SystemAccount) → ℕ → ℕ → ℕ → Text → Text → List Text → Start
unfolding groups_of home_of login_of user_environment timeout_or
run_as_user lookup_id timeout uid gid dir name args =
    let account = lookup_id (format_int uid) in
    if not (is_allowed_command name)
    then not_allowed
    else if uid == 0
    then refuses_root
    else started (record (process timeout name args) {
      env = only (user_environment (home_of account) (login_of uid account));
      dir = dir;
      credential = some (record { uid = uid; gid = gid; groups = groups_of account });
    })
