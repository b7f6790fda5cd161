-- ===== src/Auth/Forgery.antt =====
-- Which requests the middleware against cross-site requests lets through.
use sigarda_panel.Common.{
  ℕ, ◌+◌, ◌≤◌, ◌≡◌, ◌≢◌, ◌⊎◌, refl, ◌&&◌, List, [], ◌∷◌, Option, none, some, ltb, leb, true, false,
  arith, Bool-cases, inl, inr, ◌<◌, ◌++◌, if◌then◌else◌,
}
use sigarda_panel.Text.{Text, codes, eqb, has_prefix}
use sigarda_panel.Text.Search.{has_prefix_iff}
use sigarda_panel.AgentPaths.Inside.{trim_prefix-append}
use sigarda_panel.Text.Equality.{eqb_iff, eqb_self}
use sigarda_panel.Auth.Limits.{put}
use sigarda_panel.Auth.Csrf.{
  CsrfToken, Tokens, CsrfRequest, next, missing, invalid, bearer_session, unexpired, cleanup, hour,
  generate_token, token_valid, validate_token, session_id, is_safe_method, is_public,
  presented_token, csrf_middleware,
}

-- What happens to the tokens: a token for a session, or a cleanup, each at a time.
pub data Change : Type 0 where
  generated : Text → Text → ℕ → Change
  cleaned : ℕ → Change

unfoldable pub change : Change → Tokens → Tokens
change (generated session random now) tokens = generate_token random now session tokens
change (cleaned now) tokens = cleanup now tokens

unfoldable pub change_all : List Change → Tokens → Tokens
change_all [] tokens = tokens
change_all (c ∷ cs) tokens = change_all cs (change c tokens)

-- No change makes a token for the session, and none happens after a time.
abbrev pub Leaves : Text → ℕ → List Change → Type 0
Leaves session end [] = Unit
Leaves session end (generated other random now ∷ cs) = (session ≢ other) × Leaves session end cs
Leaves session end (cleaned now ∷ cs) = (now ≤ end) × Leaves session end cs

-- The token is there, or it was dropped after its time.
abbrev IsKept : ℕ → CsrfToken → Option CsrfToken → Type 0
IsKept now t o = (o ≡ some t) ⊎ ((o ≡ none) × (t.expires_at < now))

unexpired-IsKept :
    (now at : ℕ) (t : CsrfToken) (o : Option CsrfToken)
    → at ≤ now
    → IsKept now t o
    → IsKept now t (unexpired at o)
unfolding unexpired
unexpired-IsKept now at t o le (inr (gone, late)) = inr (rw gone (refl, late))
unexpired-IsKept now at t o le (inl e) = rw e (elim (Bool-cases (ltb t.expires_at at)) [
  | inl late ↦ rw late (inr (refl, ground arith))
  | inr soon ↦ rw soon (inl refl)
])

valid-IsKept :
    (now : ℕ) (t : CsrfToken) (token : Text) (o : Option CsrfToken)
    → IsKept now t o
    → token_valid now token o ≡ (eqb t.token token && leb now t.expires_at)
unfolding token_valid
valid-IsKept now t token o (inl e) = rw e (ground arith)
valid-IsKept now t token o (inr (gone, late)) = rw gone (ground arith)

kept :
    (session : Text) (now : ℕ) (t : CsrfToken) (cs : List Change) (tokens : Tokens)
    → Leaves session now cs
    → IsKept now t (tokens session)
    → IsKept now t (change_all cs tokens session)
unfolding change_all change generate_token cleanup put
kept session now t [] tokens l h = h
kept session now t (generated other random at ∷ cs) tokens l h =
    kept session now t cs (generate_token random at other tokens) l.1 (
      let apart : eqb session other ≡ false = ground (arith, eqb_iff session other, l.0) in
      rw apart h)
kept session now t (cleaned at ∷ cs) tokens l h =
    kept session now t cs (cleanup at tokens) l.1 (unexpired-IsKept now at t (tokens session) l.0 h)

-- A token made for a session is, until the session gets another one, its only valid token, for an
-- hour: whatever tokens other sessions get and whenever the table is cleaned before.
pub validate_token-generate_token :
    (session random token : Text) (at now : ℕ) (cs : List Change) (tokens : Tokens)
    → Leaves session now cs
    → validate_token now session token (change_all cs (generate_token random at session tokens))
      ≡ (eqb random token && leb now (at + hour))
unfolding validate_token generate_token put
validate_token-generate_token session random token at now cs tokens l =
    let made : CsrfToken = record { token = random; expires_at = at + hour } in
    let mine : eqb session session ≡ true = eqb_self session in
    valid-IsKept now made token _
      (kept session now made cs (generate_token random at session tokens) l (rw mine (inl refl)))

-- The session of a request: its cookie, or without one the text behind "Bearer ".
abbrev pub Names : CsrfRequest → Text → Type 0
Names r session =
    (r.session_cookie ≡ some session)
    ⊎ ((r.session_cookie ≡ none) × (r.authorization ≡ codes "Bearer " ++ session))

-- The token of a request: the header's, or without one the form's.
abbrev pub Presents : CsrfRequest → Text → Type 0
Presents r token =
    ((r.header ≢ []) × (r.header ≡ token)) ⊎ ((r.header ≡ []) × (r.form_value ≡ token))

-- A method that changes something, on a path that needs a token.
pub record NeedsToken (r : CsrfRequest) : Type 0 where
  pub not_get : r.method ≢ codes "GET"
  pub not_head : r.method ≢ codes "HEAD"
  pub not_options : r.method ≢ codes "OPTIONS"
  pub not_login : r.path ≢ codes "/api/v1/auth/login"
  pub not_register : r.path ≢ codes "/api/v1/auth/register"
  pub not_health : r.path ≢ codes "/health"
  pub not_api_health : r.path ≢ codes "/api/v1/health"

session_id-Names :
    (r : CsrfRequest) (session : Text)
    → Names r session
    → session_id r.session_cookie r.authorization ≡ session
unfolding session_id bearer_session
session_id-Names r session (inl e) = rw e refl
session_id-Names r session (inr (e, a)) =
    let starts : has_prefix (codes "Bearer " ++ session) (codes "Bearer ") ≡ true =
      (has_prefix_iff (codes "Bearer " ++ session) (codes "Bearer ")).1 (session, refl) in
    rw (e, a, starts) (trim_prefix-append (codes "Bearer ") session)

presented_token-Presents :
    (r : CsrfRequest) (token : Text) → Presents r token → presented_token r ≡ token
unfolding presented_token
presented_token-Presents r token (inl (some_header, e)) = ground (arith, eqb_iff r.header [])
presented_token-Presents r token (inr (no_header, e)) = ground (arith, eqb_iff r.header [])

is_safe_method-NeedsToken : (r : CsrfRequest) → NeedsToken r → is_safe_method r.method ≡ false
unfolding is_safe_method
is_safe_method-NeedsToken r n = ground (
  arith,
  n.not_get,
  n.not_head,
  n.not_options,
  eqb_iff r.method (codes "GET"),
  eqb_iff r.method (codes "HEAD"),
  eqb_iff r.method (codes "OPTIONS"),
)

is_public-NeedsToken : (r : CsrfRequest) → NeedsToken r → is_public r.path ≡ false
unfolding is_public
is_public-NeedsToken r n = ground (
  arith,
  n.not_login,
  n.not_register,
  n.not_health,
  n.not_api_health,
  eqb_iff r.path (codes "/api/v1/auth/login"),
  eqb_iff r.path (codes "/api/v1/auth/register"),
  eqb_iff r.path (codes "/health"),
  eqb_iff r.path (codes "/api/v1/health"),
)

-- A request of a session that got a token, with a method other than GET, HEAD and OPTIONS and on
-- none of the four public paths, goes on exactly if it presents that token, not empty, within the
-- hour; without a token it is refused as missing, else as invalid. This holds whatever tokens other
-- sessions get meanwhile and whenever the table is cleaned.
pub csrf_middleware-generate_token :
    (session random token : Text) (at now : ℕ) (cs : List Change) (tokens : Tokens)
    (r : CsrfRequest)
    → Leaves session now cs
    → session ≢ []
    → Names r session
    → Presents r token
    → NeedsToken r
    → csrf_middleware now (change_all cs (generate_token random at session tokens)) r ≡ (
        if eqb token []
        then missing
        else if eqb random token && leb now (at + hour)
        then next
        else invalid)
unfolding csrf_middleware
csrf_middleware-generate_token session random token at now cs tokens r l named who what needs =
    let is_named : eqb session [] ≡ false = ground (arith, named, eqb_iff session []) in
    rw
      (
        is_safe_method-NeedsToken r needs,
        is_public-NeedsToken r needs,
        session_id-Names r session who,
        presented_token-Presents r token what,
        is_named,
        validate_token-generate_token session random token at now cs tokens l,
      )
      refl
