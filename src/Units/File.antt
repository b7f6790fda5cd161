-- ===== src/Units/File.antt =====
-- The text of a unit and the checks before it of internal/agenthttp/app_process.go.
use Prim.Native.String.{String}
use mathlib.Core.Bool.{not}
use sigarda_panel.Common.{
  ℕ, suc, ◌-◌, ◌*◌, ◌/◌, ◌%◌, ◌^◌, Bool, true, ◌||◌, [], ◌∷◌, ◌++◌, Option, none, some,
  if◌then◌else◌, ltb, ◌==◌, any, length,
}
use sigarda_panel.Common.Int.{ℤ, pos, negsuc, neg_ℕ}
use sigarda_panel.Common.Check.{Check, ok, err, reject, ◌>>◌}
use sigarda_panel.Text.{Text, codes, eqb}
use sigarda_panel.Auth.Limits.{format_int}
use sigarda_panel.AgentPaths.Words.{is_valid_domain}
use sigarda_panel.SiteInput.Values.{system_user}
use sigarda_panel.SiteInput.Paths.{root_path}

-- %d of an int64
unfoldable pub format_int64 : ℤ → Text
format_int64 (pos n) = format_int n
format_int64 (negsuc n) = b'-' ∷ format_int (suc n)

unfoldable pub app_service_name : ℤ → Text
app_service_name site_id = codes "sigarda-app-" ++ format_int64 site_id

-- An int64 from its bits.
unfoldable pub int64_of : ℕ → ℤ
int64_of bits = let n = bits % 2 ^ 64 in if ltb n (2 ^ 63) then pos n else negsuc (2 ^ 64 - 1 - n)

-- / 4, towards zero
unfoldable pub quarter : ℤ → ℤ
quarter (pos n) = pos (n / 4)
quarter (negsuc n) = neg_ℕ (suc n / 4)

unfoldable pub memory_max_or_default : ℤ → ℕ
memory_max_or_default (pos n) = if n == 0 then 512 else n
memory_max_or_default (negsuc n) = 512

unfoldable pub memory_high_mb : ℕ → ℤ
unfolding int64_of quarter
memory_high_mb memory_max_mb = quarter (int64_of (memory_max_mb * 3))

-- strings.NewReplacer on one byte
unfoldable pub escape_byte : ℕ → Text
escape_byte c =
    if c == 92
    then 92 ∷ 92 ∷ []
    else if c == 34
    then 92 ∷ 34 ∷ []
    else if c == b'%'
    then b'%' ∷ b'%' ∷ []
    else if c == b'$'
    then b'$' ∷ b'$' ∷ []
    else if c == 10
    then 92 ∷ b'n' ∷ []
    else if c == 13
    then 92 ∷ b'r' ∷ []
    else c ∷ []

unfoldable pub escape_all : Text → Text
unfolding escape_byte
escape_all [] = []
escape_all (c ∷ s) = escape_byte c ++ escape_all s

unfoldable pub systemd_quote : Text → Text
unfolding escape_all
systemd_quote s = 34 ∷ escape_all s ++ 34 ∷ []

unfoldable pub user_line : Text → Text
user_line system_user = if eqb system_user [] then [] else codes "User=" ++ system_user

unfoldable pub systemd_unit_content : Text → Text → Text → Text → ℤ → ℤ → Text
unfolding memory_max_or_default user_line systemd_quote memory_high_mb format_int64
systemd_unit_content domain system_user root_path command port memory_max_mb =
    let memory_max = memory_max_or_default memory_max_mb in
    codes "[Unit]\nDescription=SigardaPanel App: "
    ++ domain
    ++ codes
        "\nAfter=network.target postgresql.service redis-server.service\n\n[Service]\nType=simple\nWorkingDirectory="
    ++ root_path
    ++ codes "\nExecStart=/bin/sh -lc "
    ++ systemd_quote (codes "exec " ++ command)
    ++ codes "\nRestart=always\nRestartSec=5\n"
    ++ user_line system_user
    ++ codes "\nEnvironmentFile=-"
    ++ root_path
    ++ codes "/.env\nEnvironment=PORT="
    ++ format_int64 port
    ++ codes
        "\nEnvironment=NODE_ENV=production\nEnvironment=PATH=/root/.hermes/node/bin:/usr/local/bin:/usr/bin:/bin:/usr/sbin:/sbin\n# Resource limits (hemat resource)\nMemoryMax="
    ++ format_int memory_max
    ++ codes "M\nMemoryHigh="
    ++ format_int64 (memory_high_mb memory_max)
    ++ codes
        "M\nCPUWeight=50\nTasksMax=256\n# Security hardening\nNoNewPrivileges=true\nPrivateTmp=true\n\n[Install]\nWantedBy=multi-user.target\n"

-- r < 0x20 || r == 0x7f; the runes beyond ASCII have bytes above both.
unfoldable pub is_control : ℕ → Bool
is_control c = ltb c 32 || c == 127

unfoldable pub no_account : Option Text → Bool
no_account none = true
no_account (some uid) = eqb uid (codes "0")

abbrev pub or_error : Check → String → Check
or_error ok e = ok
or_error (err _) e = err e

-- `lookup` gives the user id that user.Lookup finds.
unfoldable pub validate_app_unit_input : (Text → Option Text) → Text → Text → Text → Text → Check
unfolding no_account is_control
validate_app_unit_input lookup domain user root command =
    reject (not (is_valid_domain domain)) "invalid domain"
    >> root_path root
    >> or_error (system_user user) "a valid non-root system_user is required to run an app"
    >> reject (no_account (lookup user)) "system_user does not exist or is root"
    >> reject (eqb command [] || ltb 1024 (length command)) "invalid app command"
    >> reject (any is_control command)
        "app command must be a single line without control characters"
