-- ===== src/Auth/Login.antt =====
-- The login handler of internal/apihttp/auth.go with the recovery codes of internal/store/twofa.go and
-- the users of internal/store/users.go. Audit entries, log lines and the cookie are effects. `now` is
-- time.Now() in seconds.
use Prim.Native.String.{String}
use mathlib.Core.Bool.{not}
use sigarda_panel.Common.{
  ℕ, suc, ◌+◌, ◌*◌, Bool, true, false, ◌&&◌, ◌||◌, List, [], ◌∷◌, ◌++◌, Option, none, some,
  if◌then◌else◌, ◌==◌,
}
use sigarda_panel.Text.{Text, eqb, trim_space}
use sigarda_panel.Auth.Limits.{
  RateLimiter, FailureTracker, SeenCodes, allow, blocked, fail, reset, mark_used,
}
use sigarda_panel.Auth.Sessions.{Session, first, create_session, revoke_oldest}
use sigarda_panel.Auth.Password.{Primitives, verify_password}

pub record Account : Type 0 where
  pub id : ℕ
  pub username : Text
  pub email : Text
  pub password_hash : Text
  pub role : Text
  pub totp_secret : Text
  pub totp_enabled : Bool
  pub password_changed_at : Option ℕ

pub record RecoveryCode : Type 0 where
  pub user_id : ℕ
  pub code_hash : Text
  pub used : Bool

-- What the request carries.
pub record LoginBody : Type 0 where
  pub username : Text
  pub password : Text
  pub totp_code : Text
  pub recovery_code : Text
  pub remember_me : Bool

-- The handler's own state and the tables that it works on.
pub record Panel : Type 0 where
  pub rate_limiter : RateLimiter
  pub user_failures : FailureTracker
  pub used_totp : SeenCodes
  pub users : List Account
  pub recovery_codes : List RecoveryCode
  pub sessions : List Session
  pub next_session : ℕ

-- The clock, the client's address, the libraries, and which queries fail. `token` is what NewToken
-- gives; `hash` is SHA-256 in hexadecimal digits.
pub record Outside : Type 0 where
  pub now : ℕ
  pub ip : Text
  pub dev : Bool
  pub crypto : Primitives
  pub to_lower : Text → Text
  pub to_upper : Text → Text
  pub hash : Text → Text
  pub totp_validate : Text → Text → Bool
  pub token : Option Text
  pub users_fail : Bool
  pub codes_fail : Bool
  pub sessions_fail : Bool
  pub revoke_fail : Bool

pub data Answer : Type 0 where
  logged_in : Text → Account → Answer
  denied : ℕ → String → Answer

abbrev pub default_session_ttl : ℕ
default_session_ttl = 7 * 24 * 3600

abbrev pub remember_me_session_ttl : ℕ
remember_me_session_ttl = 90 * 24 * 3600

abbrev pub max_sessions_per_user : ℕ
max_sessions_per_user = 10

unfoldable pub get_by_username : Text → List Account → Option Account
get_by_username name = first (λ u. eqb u.username name)

-- Without '-' and ' '.
unfoldable pub strip_separators : Text → Text
strip_separators [] = []
strip_separators (c ∷ s) =
    let rest = strip_separators s in if c == b'-' || c == b' ' then rest else c ∷ rest

unfoldable pub normalize_recovery_code : Outside → Text → Text
unfolding strip_separators
normalize_recovery_code o code = strip_separators (o.to_upper (trim_space code))

unfoldable pub hash_recovery_code : Outside → Text → Text
unfolding normalize_recovery_code
hash_recovery_code o code = o.hash (normalize_recovery_code o code)

unfoldable pub is_spendable : ℕ → Text → RecoveryCode → Bool
is_spendable user_id code_hash r = r.user_id == user_id && eqb r.code_hash code_hash && not r.used

-- The rows of the UPDATE, and how many it changed.
unfoldable pub spend : ℕ → Text → List RecoveryCode → List RecoveryCode × ℕ
unfolding is_spendable
spend user_id code_hash [] = ([], 0)
spend user_id code_hash (r ∷ rows) =
    let (rest, n) = spend user_id code_hash rows in
    if is_spendable user_id code_hash r
    then (record r { used = true } ∷ rest, suc n)
    else (r ∷ rest, n)

unfoldable pub verify_recovery_code : ℕ → Text → List RecoveryCode → List RecoveryCode × Bool
unfolding spend
verify_recovery_code user_id code_hash rows =
    let (rows', n) = spend user_id code_hash rows in (rows', n == 1)

unfoldable pub delete_recovery_codes : ℕ → List RecoveryCode → List RecoveryCode
delete_recovery_codes user_id [] = []
delete_recovery_codes user_id (r ∷ rows) =
    let rest = delete_recovery_codes user_id rows in if r.user_id == user_id then rest else r ∷ rest

unfoldable pub insert_recovery_codes : ℕ → List Text → List RecoveryCode → List RecoveryCode
insert_recovery_codes user_id [] rows = rows
insert_recovery_codes user_id (h ∷ hashes) rows =
    insert_recovery_codes user_id hashes
      (rows ++ record { user_id = user_id; code_hash = h; used = false } ∷ [])

unfoldable pub store_recovery_codes : ℕ → List Text → List RecoveryCode → List RecoveryCode
unfolding delete_recovery_codes insert_recovery_codes
store_recovery_codes user_id hashes rows =
    insert_recovery_codes user_id hashes (delete_recovery_codes user_id rows)

unfoldable pub fail_key : Outside → LoginBody → Text
fail_key o b = o.to_lower (trim_space b.username)

unfoldable pub count_failure : Outside → LoginBody → Panel → Panel
unfolding fail_key
count_failure o b st = record st { user_failures = fail st.user_failures (fail_key o b) o.now }

abbrev pub new_session : Outside → LoginBody → Account → Text → ℕ → Session
new_session o b u token id = record {
  id = id;
  user_id = u.id;
  token_hash = o.hash token;
  expires_at = o.now + (if b.remember_me then remember_me_session_ttl else default_session_ttl);
  revoked = false;
  impersonated_by = none;
}

unfoldable pub store_session : Outside → LoginBody → Account → Panel → Text → Panel × Answer
store_session o b u st token =
    let rows =
      create_session st.next_session (new_session o b u token st.next_session) st.sessions in
    let kept =
      if o.revoke_fail then rows else revoke_oldest o.now u.id max_sessions_per_user rows in
    if o.sessions_fail
    then (st, denied 500 "internal error")
    else (record st { sessions = kept; next_session = suc st.next_session }, logged_in token u)

-- From the reset of the failures to the answer.
unfoldable pub open_session : Outside → LoginBody → Account → Panel → Panel × Answer
unfolding store_session fail_key
open_session o b u st =
    let st' : Panel = record st { user_failures = reset st.user_failures (fail_key o b) } in
    elim o.token [
      | none ↦ (st', denied 500 "internal error")
      | some token ↦ store_session o b u st' token
    ]

unfoldable pub if_valid : Outside → LoginBody → Account → Panel → Bool → Panel × Answer
unfolding open_session count_failure
if_valid o b u st valid =
    if valid then open_session o b u st else (count_failure o b st, denied 401 "invalid_2fa_code")

unfoldable pub by_recovery_code : Outside → LoginBody → Account → Panel → Panel × Answer
unfolding if_valid hash_recovery_code verify_recovery_code
by_recovery_code o b u st =
    let (rows, used) =
      verify_recovery_code u.id (hash_recovery_code o b.recovery_code) st.recovery_codes in
    if o.codes_fail
    then (st, denied 500 "internal error")
    else if_valid o b u (record st { recovery_codes = rows }) used

unfoldable pub by_totp : Outside → LoginBody → Account → Panel → Panel × Answer
unfolding if_valid
by_totp o b u st =
    let (seen, fresh) = mark_used st.used_totp u.id b.totp_code o.now in
    if eqb u.totp_secret []
    then if_valid o b u st false
    else if o.totp_validate b.totp_code u.totp_secret
    then if_valid o b u (record st { used_totp = seen }) fresh
    else if_valid o b u st false

unfoldable pub second_factor : Outside → LoginBody → Account → Panel → Panel × Answer
unfolding by_recovery_code by_totp
second_factor o b u st =
    if eqb b.totp_code [] && eqb b.recovery_code []
    then (st, denied 401 "2fa_required")
    else if not (eqb b.recovery_code [])
    then by_recovery_code o b u st
    else by_totp o b u st

unfoldable pub check_password : Outside → LoginBody → Account → Panel → Option Bool → Panel × Answer
unfolding second_factor open_session count_failure
check_password o b u st none = (st, denied 500 "internal error")
check_password o b u st (some false) = (count_failure o b st, denied 401 "invalid_credentials")
check_password o b u st (some true) =
    if u.totp_enabled then second_factor o b u st else open_session o b u st

unfoldable pub check_user : Outside → LoginBody → Panel → Option Account → Panel × Answer
unfolding check_password count_failure
check_user o b st none = (count_failure o b st, denied 401 "invalid_credentials")
check_user o b st (some u) =
    check_password o b u st (verify_password o.crypto u.password_hash b.password)

unfoldable pub check_account : Outside → Panel → Option LoginBody → Panel × Answer
unfolding check_user fail_key
check_account o st none = (st, denied 400 "invalid request body")
check_account o st (some b) =
    let (failures, is_blocked) = blocked st.user_failures (fail_key o b) o.now in
    let st' : Panel = record st { user_failures = failures } in
    if is_blocked
    then (st', denied 429 "too many failed attempts for this account, try again later")
    else if o.users_fail
    then (st', denied 500 "internal error")
    else check_user o b st' (get_by_username b.username st.users)

unfoldable pub login : Outside → Option LoginBody → Panel → Panel × Answer
unfolding check_account
login o body st =
    let (limiter, allowed) = allow o.dev st.rate_limiter o.ip o.now in
    let st' : Panel = record st { rate_limiter = limiter } in
    if allowed then check_account o st' body else (st', denied 429 "too many login attempts")
