-- ===== src/Auth/Guard.antt =====
-- internal/apihttp/middleware.go: RequireAuth and RequireRole. `now` is time.Now() in nanoseconds; `hash`
-- is auth.HashToken. The update of last_used_at is an effect.
use Prim.Native.String.{String}
use sigarda_panel.Common.{
  ℕ, ◌*◌, Bool, ◌&&◌, List, [], ◌∷◌, Option, none, some, if◌then◌else◌, ltb, leb, ◌==◌, length,
  false, map, ◌+◌,
}
use sigarda_panel.Text.{Text, codes, eqb, cut}
use sigarda_panel.Auth.Roles.{has_role, service_token_has_scope}
use sigarda_panel.Auth.Sessions.{
  Session, ServiceToken, User, get_by_key_hash, get_by_token_hash, get_user_by_id,
}

-- The tables, and whether the queries of each fail.
pub record Store : Type 0 where
  pub service_tokens : List ServiceToken
  pub service_tokens_fail : Bool
  pub sessions : List Session
  pub sessions_fail : Bool
  pub users : List User
  pub users_fail : Bool

pub record Request : Type 0 where
  pub authorization : Text
  pub cookie : Option Text

-- What the handlers behind find in the echo context.
pub record Context : Type 0 where
  pub session : Option Session
  pub user_id : ℕ
  pub scopes : Text
  pub role : Text

-- Passed on, with the service tokens whose last use is recorded, or refused with a status.
pub data Reply : Type 0 where
  passed : Context → List ℕ → Reply
  refused : ℕ → String → Reply

abbrev lower : ℕ → ℕ
lower c = if leb 65 c && leb c 90 then c + 32 else c

-- strings.EqualFold with "bearer", none of whose letters has a fold outside ASCII
unfoldable pub is_bearer : Text → Bool
unfolding eqb
is_bearer s = eqb (map lower s) (codes "bearer")

unfoldable pub header_token : Text × Option Text → Option Text
unfolding is_bearer
header_token (scheme, none) = none
header_token (scheme, some token) = if is_bearer scheme then some token else none

unfoldable pub cookie_token : Option Text → Text
cookie_token none = []
cookie_token (some value) = value

-- The token that a request presents; none for a malformed header.
unfoldable pub token_of : Request → Option Text
unfolding cookie_token header_token
token_of r =
    if eqb r.authorization []
    then some (cookie_token r.cookie)
    else header_token (cut b' ' r.authorization)

unfoldable pub token_expired : ℕ → Option ℕ → Bool
token_expired now none = false
token_expired now (some at) = ltb (at * 1_000_000_000) now

abbrev pub token_session : ServiceToken → Session
token_session t = record {
  id = t.id;
  user_id = 0;
  token_hash = [];
  expires_at = 0;
  revoked = false;
  impersonated_by = none;
}

unfoldable pub admit_token : ℕ → ServiceToken → Reply
unfolding token_expired
admit_token now t =
    if token_expired now t.expires_at
    then refused 401 "service token expired"
    else passed
        (record { session = some (token_session t); user_id = 0; scopes = t.scopes; role = [] })
        (t.id ∷ [])

unfoldable pub session_expired : ℕ → Session → Bool
session_expired now s = if s.expires_at == 0 then false else ltb (s.expires_at * 1_000_000_000) now

unfoldable pub admit_session : ℕ → Session → Reply
unfolding session_expired
admit_session now s =
    if s.revoked
    then refused 401 "session revoked"
    else if session_expired now s
    then refused 401 "session expired"
    else passed (record { session = some s; user_id = s.user_id; scopes = []; role = [] }) []

unfoldable pub found_token : Text → Store → Option ServiceToken
found_token h st = if st.service_tokens_fail then none else get_by_key_hash h st.service_tokens

unfoldable pub authenticate_session : ℕ → Text → Store → Reply
unfolding admit_session
authenticate_session now h st =
    if st.sessions_fail
    then refused 500 "internal error"
    else elim (get_by_token_hash h st.sessions) [
      | none ↦ refused 401 "invalid token"
      | some s ↦ admit_session now s
    ]

-- What the hash of a token gives: the service tokens come first.
unfoldable pub authenticate : ℕ → Text → Store → Reply
unfolding found_token admit_token authenticate_session
authenticate now h st = elim (found_token h st) [
  | some t ↦ admit_token now t
  | none ↦ authenticate_session now h st
]

unfoldable pub check_token : (Text → Text) → ℕ → Store → Option Text → Reply
unfolding authenticate
check_token hash now st none = refused 401 "invalid authorization header format"
check_token hash now st (some token) =
    if length token == 0
    then refused 401 "missing authorization header"
    else if length token == 64
    then authenticate now (hash token) st
    else refused 401 "invalid token"

unfoldable pub require_auth : (Text → Text) → ℕ → Store → Request → Reply
unfolding token_of check_token
require_auth hash now st r = check_token hash now st (token_of r)

unfoldable pub require_scope : Text → Context → Reply
require_scope required c =
    if eqb c.scopes []
    then refused 403 "service token has no scopes"
    else if service_token_has_scope c.scopes required
    then passed (record c { role = codes "service_token" }) []
    else refused 403 "service token lacks required scope"

unfoldable pub require_user_role : Text → Option User → Context → Reply
require_user_role required none c = refused 401 "user not found"
require_user_role required (some u) c =
    if has_role u.role required
    then passed (record c { role = u.role }) []
    else refused 403 "insufficient permissions"

unfoldable pub found_user : ℕ → Store → Option User
found_user id st = if st.users_fail then none else get_user_by_id id st.users

unfoldable pub require_role_of : Store → Text → Context → Option Session → Reply
unfolding require_scope require_user_role found_user
require_role_of st required c none = refused 401 "not authenticated"
require_role_of st required c (some s) =
    if s.user_id == 0
    then require_scope required c
    else require_user_role required (found_user s.user_id st) c

unfoldable pub require_role : Store → Text → Context → Reply
unfolding require_role_of
require_role st required c = require_role_of st required c c.session

unfoldable pub if_passed : (Context → Reply) → Reply → Reply
if_passed next (refused status message) = refused status message
if_passed next (passed c used) = next c

-- A route behind both.
unfoldable pub guarded : (Text → Text) → ℕ → Store → Text → Request → Reply
unfolding require_auth require_role if_passed
guarded hash now st required r = if_passed (require_role st required) (require_auth hash now st r)

-- RequireUserSession
unfoldable pub require_user_session : Context → Reply
require_user_session c = elim c.session [
  | none ↦ refused 401 "not authenticated"
  | some s ↦
      if s.user_id == 0
      then refused 403 "service token cannot access this endpoint"
      else passed c []
]
