-- ===== src/Auth/Identity.antt =====
-- Whom RequireAuth of internal/apihttp/middleware.go alone lets the handlers see: a session, and no role.
use sigarda_panel.Common.{
  ℕ, ◌≡◌, ◌⊎◌, refl, List, [], Option, none, some, length, ◌==◌, Bool-cases, Option-cases, inl, inr,
}
use sigarda_panel.Text.{Text}
use sigarda_panel.Auth.Sessions.{Session, ServiceToken, get_by_token_hash}
use sigarda_panel.Auth.Guard.{
  Store, Request, Context, Reply, passed, refused, token_of, token_session, token_expired,
  admit_token, admit_session, session_expired, found_token, authenticate, authenticate_session,
  check_token, require_auth,
}

-- The context of a live service token or of a session, without a role.
abbrev pub IsIdentity : Store → Text → Context → Type 0
IsIdentity st h c =
    (((t : ServiceToken) × (found_token h st ≡ some t) × (c.session ≡ some (token_session t)))
      ⊎ ((s : Session) × (get_by_token_hash h st.sessions ≡ some s) × (c.session ≡ some s)))
    × (c.role ≡ [])

abbrev Passes : (Context → Type 0) → Reply → Type 0
Passes P (passed c used) = P c
Passes P (refused status message) = Unit

module _ (now : ℕ) (st : Store) (h : Text) where
  admit_token-Passes :
      (t : ServiceToken) → found_token h st ≡ some t → Passes (IsIdentity st h) (admit_token now t)
  unfolding admit_token
  admit_token-Passes t e = elim (Bool-cases (token_expired now t.expires_at)) [
    | inl old ↦ rw old tt
    | inr fresh ↦ rw fresh (inl (t, e, refl), refl)
  ]

  admit_session-Passes :
      (s : Session)
      → get_by_token_hash h st.sessions ≡ some s
      → Passes (IsIdentity st h) (admit_session now s)
  unfolding admit_session
  admit_session-Passes s e = elim (Bool-cases s.revoked) [
    | inl gone ↦ simp gone tt
    | inr live ↦ elim (Bool-cases (session_expired now s)) [
      | inl old ↦ simp (live, old) tt
      | inr fresh ↦ simp (live, fresh) (inr (s, e, refl), refl)
    ]
  ]

  authenticate_session-Passes : Passes (IsIdentity st h) (authenticate_session now h st)
  unfolding authenticate_session
  authenticate_session-Passes = elim (Bool-cases st.sessions_fail) [
    | inl e ↦ simp e tt
    | inr e ↦ elim (Option-cases (get_by_token_hash h st.sessions)) [
      | inl n ↦ simp (e, n) tt
      | inr (s, n) ↦ simp (e, n) (admit_session-Passes s n)
    ]
  ]

  authenticate-Passes : Passes (IsIdentity st h) (authenticate now h st)
  unfolding authenticate
  authenticate-Passes = elim (Option-cases (found_token h st)) [
    | inl e ↦ rw (e, authenticate) authenticate_session-Passes
    | inr (t, e) ↦ rw (e, authenticate) (admit_token-Passes t e)
  ]

-- What a request that RequireAuth passes on has presented.
abbrev pub Identified : (Text → Text) → Store → Option Text → Context → Type 0
Identified hash st presented c =
    (token : Text) × (presented ≡ some token) × IsIdentity st (hash token) c

check_token-Passes :
    (hash : Text → Text) (now : ℕ) (st : Store) (o : Option Text)
    → Passes (Identified hash st o) (check_token hash now st o)
unfolding check_token
check_token-Passes hash now st none = tt
check_token-Passes hash now st (some token) = elim (Bool-cases (length token == 0)) [
  | inl z ↦ simp z tt
  | inr z ↦ elim (Bool-cases (length token == 64)) [
    | inr n ↦ simp (z, n) tt
    | inl y ↦
        simp (z, y)
          (present (authenticate now (hash token) st) (authenticate-Passes now st (hash token)))
  ]
]
  where
    present :
        (r : Reply)
        → Passes (IsIdentity st (hash token)) r
        → Passes (Identified hash st (some token)) r
    present (passed c used) h = (token, refl, h)
    present (refused status message) h = tt

pub require_auth-Identified :
    (hash : Text → Text) (now : ℕ) (st : Store) (r : Request) (c : Context) (used : List ℕ)
    → require_auth hash now st r ≡ passed c used
    → Identified hash st (token_of r) c
unfolding require_auth
require_auth-Identified hash now st r c used e =
    rw e at (check_token-Passes hash now st (token_of r))
