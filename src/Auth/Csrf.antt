-- ===== src/Auth/Csrf.antt =====
-- internal/apihttp/csrf.go: the tokens against cross-site requests, at most one for a session. A map is a
-- function; times are nanoseconds. The random token is an argument.
use sigarda_panel.Common.{ℕ, ◌+◌, Bool, ◌||◌, [], Option, none, some, if◌then◌else◌, ltb, false}
use sigarda_panel.Text.{Text, codes, eqb, has_prefix}
use sigarda_panel.SiteInput.Docker.{trim_prefix}
use sigarda_panel.Auth.Limits.{put}

pub record CsrfToken : Type 0 where
  pub token : Text
  pub expires_at : ℕ

abbrev pub Tokens : Type 0
Tokens = Text → Option CsrfToken

unfoldable pub new_tokens : Tokens
new_tokens session = none

unfoldable pub unexpired : ℕ → Option CsrfToken → Option CsrfToken
unexpired now none = none
unexpired now (some t) = if ltb t.expires_at now then none else some t

unfoldable pub cleanup : ℕ → Tokens → Tokens
unfolding unexpired
cleanup now tokens session = unexpired now (tokens session)

abbrev pub hour : ℕ
hour = 3_600_000_000_000

unfoldable pub generate_token : Text → ℕ → Text → Tokens → Tokens
unfolding put
generate_token random now session tokens =
    put session (some (record { token = random; expires_at = now + hour })) tokens

unfoldable pub token_valid : ℕ → Text → Option CsrfToken → Bool
token_valid now token none = false
token_valid now token (some stored) =
    if ltb stored.expires_at now then false else eqb stored.token token

unfoldable pub validate_token : ℕ → Text → Text → Tokens → Bool
unfolding token_valid
validate_token now session token tokens = token_valid now token (tokens session)

-- The cookie is the one named session_id.
pub record CsrfRequest : Type 0 where
  pub method : Text
  pub path : Text
  pub session_cookie : Option Text
  pub authorization : Text
  pub header : Text
  pub form_value : Text

unfoldable pub bearer_session : Text → Text
bearer_session auth =
    if has_prefix auth (codes "Bearer ") then trim_prefix auth (codes "Bearer ") else []

unfoldable pub session_id : Option Text → Text → Text
unfolding bearer_session
session_id (some value) auth = value
session_id none auth = bearer_session auth

unfoldable pub is_safe_method : Text → Bool
is_safe_method method =
    eqb method (codes "GET") || eqb method (codes "HEAD") || eqb method (codes "OPTIONS")

unfoldable pub is_public : Text → Bool
is_public path =
    eqb path (codes "/api/v1/auth/login")
    || eqb path (codes "/api/v1/auth/register")
    || eqb path (codes "/health")
    || eqb path (codes "/api/v1/health")

unfoldable pub presented_token : CsrfRequest → Text
presented_token r = if eqb r.header [] then r.form_value else r.header

-- The request goes on, or is refused with status 403 and an error.
pub data Passage : Type 0 where
  next missing invalid : Passage

unfoldable pub csrf_middleware : ℕ → Tokens → CsrfRequest → Passage
unfolding is_safe_method is_public session_id presented_token validate_token
csrf_middleware now tokens r =
    if is_safe_method r.method
    then next
    else if is_public r.path
    then next
    else if eqb (session_id r.session_cookie r.authorization) []
    then next
    else if eqb (presented_token r) []
    then missing
    else if validate_token now (session_id r.session_cookie r.authorization) (presented_token r)
        tokens
    then next
    else invalid
