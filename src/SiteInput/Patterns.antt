-- ===== src/SiteInput/Patterns.antt =====
-- The regular expressions of siteinput.go, each between `^` and `$`.
use sigarda_panel.Common.{ℕ, Bool, ◌||◌, ◌&&◌, leb, ◌==◌}
use sigarda_panel.Text.{Text, codes, mem_byte}
use sigarda_panel.Regex.{Regex, class, seq, alt, star, plus, opt, up_to, between, byte, text}

abbrev pub is_lower : ℕ → Bool
is_lower c = leb b'a' c && leb c b'z'

abbrev pub is_upper : ℕ → Bool
is_upper c = leb b'A' c && leb c b'Z'

abbrev pub is_digit : ℕ → Bool
is_digit c = leb b'0' c && leb c b'9'

abbrev pub is_alnum : ℕ → Bool
is_alnum c = is_lower c || is_upper c || is_digit c

-- [A-Za-z0-9] and the bytes of `extra`
abbrev pub alnum_or : Text → Regex
alnum_or extra = class (λ c. is_alnum c || mem_byte c extra)

abbrev lower_or : Text → Regex
lower_or extra = class (λ c. is_lower c || mem_byte c extra)

abbrev lower_digit_or : Text → Regex
lower_digit_or extra = class (λ c. is_lower c || is_digit c || mem_byte c extra)

abbrev digit : Regex
digit = class is_digit

-- [a-zA-Z0-9]([a-zA-Z0-9\-]{0,61}[a-zA-Z0-9])?
abbrev label : Regex
label = seq (class is_alnum) (opt (seq (up_to 61 (alnum_or (codes "-"))) (class is_alnum)))

unfoldable pub domain_re : Regex
unfolding mem_byte
domain_re = seq (opt (text (codes "*."))) (seq label (plus (seq (byte b'.') label)))

unfoldable pub root_path_re : Regex
unfolding mem_byte
root_path_re = seq (byte b'/') (star (alnum_or (codes "._@+/-")))

unfoldable pub proxy_pass_re : Regex
unfolding mem_byte
proxy_pass_re = seq (text (codes "http")) (
    seq (opt (byte b's')) (
      seq (text (codes "://")) (
        seq (plus (alnum_or (codes ".-"))) (
          seq (opt (seq (byte b':') (between 1 4 digit)))
            (opt (seq (byte b'/') (star (alnum_or (codes "._~/%+-")))))))))

unfoldable pub php_version_re : Regex
unfolding mem_byte
php_version_re = seq digit (seq (byte b'.') (between 1 1 digit))

unfoldable pub system_user_re : Regex
unfolding mem_byte
system_user_re = seq (lower_or (codes "_")) (up_to 31 (lower_digit_or (codes "_-")))

unfoldable pub docker_image_re : Regex
unfolding mem_byte
docker_image_re = seq (plus (lower_digit_or (codes ""))) (
    seq (star (seq (class (λ c. mem_byte c (codes "._-/"))) (plus (lower_digit_or (codes "")))))
      (opt (seq (byte b':') (seq (alnum_or (codes "_")) (up_to 127 (alnum_or (codes "_.-")))))))

unfoldable pub docker_name_re : Regex
unfolding mem_byte
docker_name_re = seq (class is_alnum) (up_to 63 (alnum_or (codes "_.-")))

unfoldable pub docker_port_re : Regex
unfolding mem_byte
docker_port_re = seq (opt (text (codes "127.0.0.1:"))) (
    seq (between 1 4 digit) (
      seq (byte b':') (
        seq (between 1 4 digit)
          (opt (seq (byte b'/') (alt (text (codes "tcp")) (text (codes "udp"))))))))

unfoldable pub docker_env_re : Regex
unfolding mem_byte
docker_env_re =
    seq (class (λ c. is_lower c || is_upper c || c == b'_'))
      (seq (star (alnum_or (codes "_"))) (seq (byte b'=') (star (class (λ c. leb 32 c)))))

unfoldable pub docker_target_re : Regex
unfolding mem_byte
docker_target_re = seq (byte b'/') (star (alnum_or (codes "._/-")))

unfoldable pub docker_language_re : Regex
unfolding mem_byte
docker_language_re = between 1 15 (lower_digit_or (codes ""))

unfoldable pub db_host_re : Regex
unfolding mem_byte
db_host_re = between 1 254 (alnum_or (codes "_.%-"))
