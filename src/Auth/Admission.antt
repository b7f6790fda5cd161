-- ===== src/Auth/Admission.antt =====
-- What a request that passes RequireAuth and RequireRole has shown.
use sigarda_panel.Common.{
  ℕ, ap, ◌∙◌, List, [], Option, none, some, ◌==◌, length, true, false, ◌≡◌, ◌≢◌, refl, sym, arith,
  Bool-cases, Option-cases, ==_iff, inl, inr, ◌⊎◌,
}
use sigarda_panel.Text.{Text, eqb}
use sigarda_panel.Auth.Roles.{admin, has_role, service_token_has_scope}
use sigarda_panel.Auth.Hierarchy.{service_token_has_scope-admin}
use sigarda_panel.Auth.Sessions.{Session, ServiceToken, User, get_by_token_hash}
use sigarda_panel.Auth.Guard.{
  Store, Request, Context, Reply, passed, refused, token_of, token_expired, session_expired,
  token_session, admit_token, admit_session, found_token, found_user, authenticate,
  authenticate_session, check_token, require_auth, require_scope, require_user_role, require_role,
  require_role_of, if_passed, guarded,
}

-- A service token that is not expired and grants the role, but never more than admin has.
pub record ByToken (now : ℕ) (st : Store) (h required : Text) : Type 0 where
  pub token : ServiceToken
  pub found : found_token h st ≡ some token
  pub fresh : token_expired now token.expires_at ≡ false
  pub grants : service_token_has_scope token.scopes required ≡ true
  pub below_admin : has_role admin required ≡ true

-- A session that is neither revoked nor expired, of a user who has the role.
pub record BySession (now : ℕ) (st : Store) (h required : Text) : Type 0 where
  pub session : Session
  pub found : get_by_token_hash h st.sessions ≡ some session
  pub live : session.revoked ≡ false
  pub fresh : session_expired now session ≡ false
  pub user : User
  pub found_user_row : found_user session.user_id st ≡ some user
  pub grants : has_role user.role required ≡ true

abbrev pub IsEntitled : ℕ → Store → Text → Text → Type 0
IsEntitled now st h required = ByToken now st h required ⊎ BySession now st h required

-- The claim of a reply, where it passes the request on.
abbrev IfPassed : (Context → Type 0) → Reply → Type 0
IfPassed P (passed c used) = P c
IfPassed P (refused status message) = Unit

IfPassed-of :
    (P : Context → Type 0) (r : Reply) (c : Context) (used : List ℕ)
    → IfPassed P r
    → r ≡ passed c used
    → P c
IfPassed-of P r c used h e = rw e at h

module _ (now : ℕ) (st : Store) (h required : Text) where
  -- What RequireAuth puts into the context.
  abbrev IsShown : Context → Type 0
  IsShown c =
      ((t : ServiceToken) × (found_token h st ≡ some t)
        × (token_expired now t.expires_at ≡ false)
        × (c.session ≡ some (token_session t))
        × (c.scopes ≡ t.scopes))
      ⊎ ((s : Session) × (get_by_token_hash h st.sessions ≡ some s)
          × (s.revoked ≡ false)
          × (session_expired now s ≡ false)
          × (c.session ≡ some s)
          × (c.scopes ≡ []))

  admit_token-IsShown :
      (t : ServiceToken) → found_token h st ≡ some t → IfPassed IsShown (admit_token now t)
  unfolding admit_token
  admit_token-IsShown t e = elim (Bool-cases (token_expired now t.expires_at)) [
    | inl old ↦ rw old tt
    | inr fresh ↦ rw fresh (inl (t, e, fresh, refl, refl))
  ]

  admit_session-IsShown :
      (s : Session)
      → get_by_token_hash h st.sessions ≡ some s
      → IfPassed IsShown (admit_session now s)
  unfolding admit_session
  admit_session-IsShown s e = elim (Bool-cases s.revoked) [
    | inl gone ↦ simp gone tt
    | inr live ↦ elim (Bool-cases (session_expired now s)) [
      | inl old ↦ simp (live, old) tt
      | inr fresh ↦ simp (live, fresh) (inr (s, e, live, fresh, refl, refl))
    ]
  ]

  authenticate_session-IsShown : IfPassed IsShown (authenticate_session now h st)
  unfolding authenticate_session
  authenticate_session-IsShown = elim (Bool-cases st.sessions_fail) [
    | inl e ↦ simp e tt
    | inr e ↦ elim (Option-cases (get_by_token_hash h st.sessions)) [
      | inl n ↦ simp (e, n) tt
      | inr (s, n) ↦ simp (e, n) (admit_session-IsShown s n)
    ]
  ]

  authenticate-IsShown : IfPassed IsShown (authenticate now h st)
  unfolding authenticate
  authenticate-IsShown = elim (Option-cases (found_token h st)) [
    | inl e ↦ rw (e, authenticate) authenticate_session-IsShown
    | inr (t, e) ↦ rw (e, authenticate) (admit_token-IsShown t e)
  ]

scope_passed :
    (required : Text) (c c' : Context) (used : List ℕ)
    → require_scope required c ≡ passed c' used
    → service_token_has_scope c.scopes required ≡ true
unfolding require_scope
scope_passed required c c' used p = ground arith

no_scope :
    (required : Text) (c c' : Context) (used : List ℕ)
    → c.scopes ≡ []
    → require_scope required c ≢ passed c' used
unfolding require_scope eqb
no_scope required c c' used e p = let q = rw e at p in absurd (cc)

role_passed :
    (required : Text) (u : Option User) (c c' : Context) (used : List ℕ)
    → require_user_role required u c ≡ passed c' used
    → (x : User) × (u ≡ some x) × (has_role x.role required ≡ true)
unfolding require_user_role
role_passed required none c c' used p = absurd (cc)
role_passed required (some x) c c' used p = (x, refl, ground arith)

module _ (now : ℕ) (st : Store) (h required : Text) where
  require_role_of-IsEntitled :
      (c c' : Context) (used : List ℕ) (o : Option Session)
      → c.session ≡ o
      → IsShown now st h required c
      → require_role_of st required c o ≡ passed c' used
      → IsEntitled now st h required
  unfolding require_role_of
  require_role_of-IsEntitled c c' used none e shown p = absurd (cc)
  require_role_of-IsEntitled c c' used (some s) e (inl (t, found, fresh, session, scopes)) p =
      let service : s ≡ token_session t = cc in
      let q : require_scope required c ≡ passed c' used = rw service at p in
      let grants : service_token_has_scope t.scopes required ≡ true =
        rw scopes at (scope_passed required c c' used q) in
      inl (record {
        token = t;
        found = found;
        fresh = fresh;
        grants = grants;
        below_admin = service_token_has_scope-admin t.scopes required grants;
      })
  require_role_of-IsEntitled c c' used (some s) e (inr (s', found, live, fresh, session, scopes))
        p =
      let same : s' ≡ s = cc in
      elim (Bool-cases (s.user_id == 0)) [
        | inl z ↦ absurd (no_scope required c c' used scopes (simp z at p))
        | inr z ↦
            let (u, row, grants) =
              role_passed required (found_user s.user_id st) c c' used (simp z at p) in
            inr (record {
              session = s;
              found = found ∙ ap some same;
              live = ap (λ (x : Session). x.revoked) (sym same) ∙ live;
              fresh = ap (session_expired now) (sym same) ∙ fresh;
              user = u;
              found_user_row = row;
              grants = grants;
            })
      ]

  if_passed-IsEntitled :
      (r : Reply) (c' : Context) (used : List ℕ)
      → IfPassed (IsShown now st h required) r
      → if_passed (require_role st required) r ≡ passed c' used
      → IsEntitled now st h required
  unfolding if_passed require_role
  if_passed-IsEntitled (refused status m) c' used shown p = absurd (cc)
  if_passed-IsEntitled (passed c _) c' used shown p =
      require_role_of-IsEntitled c c' used c.session refl shown p

checked :
    (hash : Text → Text) (now : ℕ) (st : Store) (required : Text) (o : Option Text) (c : Context)
    (used : List ℕ)
    → if_passed (require_role st required) (check_token hash now st o) ≡ passed c used
    → (token : Text) × (o ≡ some token)
      × (length token ≡ 64)
      × IsEntitled now st (hash token) required
unfolding check_token if_passed
checked hash now st required none c used p = absurd (cc)
checked hash now st required (some token) c used p = elim (Bool-cases (length token == 0)) [
  | inl z ↦ absurd (let q = simp z at p in cc)
  | inr z ↦ elim (Bool-cases (length token == 64)) [
    | inl y ↦ (
      token,
      refl,
      (==_iff (length token) 64).0 y,
      if_passed-IsEntitled now st (hash token) required (authenticate now (hash token) st) c used
          (authenticate-IsShown now st (hash token) required) (simp (z, y) at p),
    )
    | inr n ↦ absurd (let q = simp (z, n) at p in cc)
  ]
]

-- A request that passes RequireAuth and then RequireRole presents a token of 64 bytes, and this
-- token belongs either to a service token that is not expired, whose scopes grant the role, at most
-- what admin has, or to a session that is neither revoked nor expired, of a user who has the role.
pub guarded-IsEntitled :
    (hash : Text → Text) (now : ℕ) (st : Store) (required : Text) (r : Request) (c : Context)
    (used : List ℕ)
    → guarded hash now st required r ≡ passed c used
    → (token : Text) × (token_of r ≡ some token)
      × (length token ≡ 64)
      × IsEntitled now st (hash token) required
unfolding guarded require_auth
guarded-IsEntitled hash now st required r c used p =
    checked hash now st required (token_of r) c used p
