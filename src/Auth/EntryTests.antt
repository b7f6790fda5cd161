-- ===== src/Auth/EntryTests.antt =====
-- Uses of the theorems on passwords and on the login.
use sigarda_panel.Common.{
  ℕ, ◌+◌, ◌-◌, ◌≡◌, refl, arith, true, false, [], ◌∷◌, ◌++◌, some, none, map,
}
use sigarda_panel.Text.{Text, codes, eqb}
use sigarda_panel.Text.Split.{IsFree}
use sigarda_panel.Auth.Limits.{new_rate_limiter, new_failure_tracker}
use sigarda_panel.Auth.Password.{
  Primitives, Documented, default_params, argon2_key_len, hash_password, verify_password,
  verify_password-hash_password,
}
use sigarda_panel.Auth.Login.{
  Account, LoginBody, Panel, Outside, logged_in, denied, get_by_username, login,
}
use sigarda_panel.Auth.Silence.{AlikeBut, login-AlikeBut}

abbrev raise_byte : ℕ → ℕ
raise_byte c = c + 37

abbrev toy : Primitives
toy = record {
  id_key = λ password salt params len. salt ++ password;
  version = codes "19";
  encode = map raise_byte;
  decode = λ s. some (map (λ c. c - 37) s);
  scan_version = λ s. some 19;
  scan_params = λ s. some default_params;
}

raise_byte-IsFree : (s : Text) → IsFree b'$' (map raise_byte s)
raise_byte-IsFree [] = tt
raise_byte-IsFree (c ∷ s) = (omega arith, raise_byte-IsFree s)

unshift : (s : Text) → map (λ c. c - 37) (map raise_byte s) ≡ s
unshift [] = refl
unshift (c ∷ s) = let back : (c + 37) - 37 ≡ c = omega arith in rw (back, unshift s) refl

toy-Documented : Documented toy
toy-Documented = record {
  encode_dollar = raise_byte-IsFree;
  encode_decode = λ s. rw (unshift s) refl;
  version_dollar = ground arith;
  version_value = 19;
  version_scan = refl;
  params_scan = refl;
}

verify_password-hash_password_example :
    (hash : Text) × (hash_password toy (some (codes "salt")) (codes "secret") ≡ some hash)
    × (verify_password toy hash (codes "secret") ≡ some true)
    × (verify_password toy hash (codes "guess")
        ≡ some (
            eqb
              (toy.id_key (codes "guess") (codes "salt") default_params argon2_key_len)
              (toy.id_key (codes "secret") (codes "salt") default_params argon2_key_len)))
verify_password-hash_password_example =
    verify_password-hash_password toy (codes "salt") (codes "secret") (codes "guess") toy-Documented

abbrev alice : Account
alice = record {
  id = 4;
  username = codes "alice";
  email = codes "a@b.c";
  password_hash =
      codes "$argon2id$v=19$m=65536,t=1,p=2$"
      ++ map raise_byte (codes "s")
      ++ b'$' ∷ map raise_byte (codes "ssecret");
  role = codes "user";
  totp_secret = codes "k";
  totp_enabled = true;
  password_changed_at = none;
}

abbrev outside : Outside
outside = record {
  now = 1000;
  ip = codes "10.0.0.1";
  dev = false;
  crypto = toy;
  to_lower = λ s. s;
  to_upper = λ s. s;
  hash = λ s. s;
  totp_validate = λ code secret. eqb code (codes "123456");
  token = some (codes "tt");
  users_fail = false;
  codes_fail = false;
  sessions_fail = false;
  revoke_fail = false;
}

abbrev panel : Panel
panel = record {
  rate_limiter = new_rate_limiter 10 900;
  user_failures = new_failure_tracker 20 900;
  used_totp = λ key. none;
  users = alice ∷ [];
  recovery_codes = [];
  sessions = [];
  next_session = 1;
}

abbrev good : LoginBody
good = record {
  username = codes "alice";
  password = codes "secret";
  totp_code = codes "123456";
  recovery_code = [];
  remember_me = false;
}

abbrev bad : LoginBody
bad = record good { password = codes "guess" }

enters : (login outside (some good) panel).1 ≡ logged_in (codes "tt") alice
unfolding login sigarda_panel.Auth.Limits.allow new_rate_limiter sigarda_panel.Auth.Limits.recent
    sigarda_panel.Auth.Limits.blocked new_failure_tracker get_by_username
    sigarda_panel.Auth.Sessions.first eqb verify_password sigarda_panel.Text.split
    sigarda_panel.Text.has_prefix sigarda_panel.Auth.Limits.mark_used
enters = refl

replayed :
    (login outside (some good) (login outside (some good) panel).0).1
    ≡ denied 401 "invalid_2fa_code"
unfolding login sigarda_panel.Auth.Limits.allow new_rate_limiter sigarda_panel.Auth.Limits.recent
    sigarda_panel.Auth.Limits.blocked new_failure_tracker get_by_username
    sigarda_panel.Auth.Sessions.first eqb verify_password sigarda_panel.Text.split
    sigarda_panel.Text.has_prefix sigarda_panel.Auth.Limits.mark_used
    sigarda_panel.Auth.Limits.reset sigarda_panel.Text.trim_space
    sigarda_panel.Auth.Limits.format_int
replayed = refl

alice_known : get_by_username bad.username panel.users ≡ some alice
unfolding get_by_username sigarda_panel.Auth.Sessions.first eqb
alice_known = refl

alice_wrong : verify_password outside.crypto alice.password_hash bad.password ≡ some false
unfolding verify_password sigarda_panel.Text.split eqb sigarda_panel.Text.has_prefix
alice_wrong = refl

nobody_known : get_by_username bad.username [] ≡ none
unfolding get_by_username sigarda_panel.Auth.Sessions.first
nobody_known = refl

login-AlikeBut_example :
    AlikeBut []
      (login outside (some bad) (record panel { users = [] }))
      (login outside (some bad) panel)
login-AlikeBut_example =
    login-AlikeBut outside bad [] panel alice alice_known alice_wrong nobody_known
