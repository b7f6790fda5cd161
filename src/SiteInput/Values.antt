-- ===== src/SiteInput/Values.antt =====
-- The validators of single values.
use sigarda_panel.Common.{
  Bool, false, not, ◌||◌, ◌&&◌, List, [], ◌∷◌, ltb, ◌==◌, if◌then◌else◌, any, length,
}
use sigarda_panel.Common.Check.{Check, reject, ◌>>◌}
use sigarda_panel.Text.{Text, codes, eqb, mem_byte, contains_any}
use sigarda_panel.Regex.{matches}
use sigarda_panel.SiteInput.Patterns.{
  domain_re, php_version_re, system_user_re, docker_image_re, docker_name_re, docker_env_re,
  docker_language_re, db_host_re,
}

unfoldable pub domain : Text → Check
domain s = reject (ltb 253 (length s) || not (matches domain_re s)) "invalid domain"

unfoldable pub php_version : Text → Check
php_version s = reject (not (matches php_version_re s)) "invalid php_version"

abbrev pub reserved_users : List Text
reserved_users =
    codes "root"
    ∷ codes "daemon"
    ∷ codes "bin"
    ∷ codes "sys"
    ∷ codes "nobody"
    ∷ codes "www-data"
    ∷ codes "sigardapanel"
    ∷ []

-- A lookup in a map[string]bool whose values are all true.
unfoldable pub member : Text → List Text → Bool
unfolding eqb
member s [] = false
member s (t ∷ ts) = eqb s t || member s ts

unfoldable pub system_user : Text → Check
system_user s =
    reject (not (matches system_user_re s) || member s reserved_users) "invalid system_user"

-- strings.ReplaceAll(s, `\n`, ""), where `\n` is two bytes
unfoldable pub remove_newline_marks : Text → Text
remove_newline_marks [] = []
remove_newline_marks (c ∷ []) = c ∷ []
remove_newline_marks (c ∷ d ∷ s) =
    let marked = remove_newline_marks s in
    let plain = remove_newline_marks (d ∷ s) in if c == 92 && d == b'n' then marked else c ∷ plain

-- `"`, `{`, `}`, `;` and carriage return
abbrev pub ini_forbidden : Text
ini_forbidden = 34 ∷ b'{' ∷ b'}' ∷ b';' ∷ 13 ∷ []

unfoldable pub php_ini : Text → Check
unfolding remove_newline_marks contains_any mem_byte
php_ini s =
    reject (contains_any s ini_forbidden) "invalid php_ini"
    >> reject (mem_byte 92 (remove_newline_marks s)) "invalid php_ini"
    >> reject (any (λ r. ltb r 32 && not (r == 10)) s) "invalid php_ini"

unfoldable pub docker_image : Text → Check
docker_image s =
    reject (ltb 255 (length s) || not (matches docker_image_re s)) "invalid docker_image"

unfoldable pub docker_name : Text → Check
docker_name s = reject (not (matches docker_name_re s)) "invalid docker_name"

abbrev pub docker_restarts : List Text
docker_restarts =
    codes "" ∷ codes "no" ∷ codes "always" ∷ codes "unless-stopped" ∷ codes "on-failure" ∷ []

unfoldable pub docker_restart : Text → Check
unfolding member
docker_restart s = reject (not (member s docker_restarts)) "invalid docker_restart"

unfoldable pub docker_env_line : Text → Check
docker_env_line s =
    reject (ltb 4096 (length s) || not (matches docker_env_re s)) "invalid docker_env entry"

unfoldable pub docker_language : Text → Check
unfolding eqb
docker_language s =
    reject (not (eqb s []) && not (matches docker_language_re s)) "invalid docker_language"

unfoldable pub db_password : Text → Check
db_password s =
    reject (ltb (length s) 8 || ltb 128 (length s)) "password must be 8-128 characters"
    >> reject (any (λ r. ltb r 32 || r == 127 || r == 92) s)
        "password contains unsupported characters (control characters and backslash are not allowed)"

unfoldable pub db_host : Text → Check
db_host s = reject (not (matches db_host_re s)) "invalid host_pattern"
