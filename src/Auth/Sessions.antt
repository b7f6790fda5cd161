-- ===== src/Auth/Sessions.antt =====
-- internal/store/sessions.go and the lookups of service_tokens.go and users.go: the tables as lists of
-- rows in the order of their ids. Times are seconds since the year 1, so that 0 is the zero time;
-- `now` is datetime('now').
use mathlib.Core.Bool.{not}
use sigarda_panel.Common.{
  ℕ, suc, Bool, true, false, ◌&&◌, ◌||◌, List, [], ◌∷◌, ◌++◌, Option, none, some, if◌then◌else◌,
  ltb, leb, ◌==◌,
}
use sigarda_panel.Text.{Text, eqb}

pub record Session : Type 0 where
  pub id : ℕ
  pub user_id : ℕ
  pub token_hash : Text
  pub expires_at : ℕ
  pub revoked : Bool
  pub impersonated_by : Option ℕ

pub record ServiceToken : Type 0 where
  pub id : ℕ
  pub key_hash : Text
  pub scopes : Text
  pub expires_at : Option ℕ

pub record User : Type 0 where
  pub id : ℕ
  pub role : Text

-- The first row that satisfies a condition.
unfoldable pub first {ℓ} : {A : Type ℓ} → (A → Bool) → List A → Option A
first p [] = none
first p (a ∷ rows) = let rest = first p rows in if p a then some a else rest

unfoldable pub create_session : ℕ → Session → List Session → List Session
create_session next s rows = rows ++ record s { id = next; revoked = false } ∷ []

unfoldable pub get_by_token_hash : Text → List Session → Option Session
get_by_token_hash hash = first (λ s. eqb s.token_hash hash && not s.revoked)

unfoldable pub get_by_key_hash : Text → List ServiceToken → Option ServiceToken
get_by_key_hash hash = first (λ t. eqb t.key_hash hash)

unfoldable pub get_user_by_id : ℕ → List User → Option User
get_user_by_id id = first (λ u. u.id == id)

abbrev pub revoke_session : Session → Session
revoke_session s = record s { revoked = true }

unfoldable pub revoke : ℕ → List Session → List Session
revoke id [] = []
revoke id (s ∷ rows) = (if s.id == id then revoke_session s else s) ∷ revoke id rows

unfoldable pub revoke_by_token_hash : Text → List Session → List Session
revoke_by_token_hash hash [] = []
revoke_by_token_hash hash (s ∷ rows) =
    (if eqb s.token_hash hash then revoke_session s else s) ∷ revoke_by_token_hash hash rows

unfoldable pub cleanup_expired : ℕ → List Session → List Session
cleanup_expired now [] = []
cleanup_expired now (s ∷ rows) =
    let rest = cleanup_expired now rows in
    if s.revoked || ltb s.expires_at now then rest else s ∷ rest

unfoldable pub is_active : ℕ → ℕ → Session → Bool
is_active now user s = s.user_id == user && not s.revoked && ltb now s.expires_at

unfoldable pub count_active : ℕ → ℕ → List Session → ℕ
unfolding is_active
count_active now user [] = 0
count_active now user (s ∷ rows) =
    let rest = count_active now user rows in if is_active now user s then suc rest else rest

-- A row is among the active ones from the offset on, the highest id first, when at least that many
-- active rows follow it.
unfoldable pub revoke_oldest : ℕ → ℕ → ℕ → List Session → List Session
unfolding count_active
revoke_oldest now user max_sessions [] = []
revoke_oldest now user max_sessions (s ∷ rows) =
    (if is_active now user s && leb max_sessions (count_active now user rows)
      then revoke_session s
      else s)
    ∷ revoke_oldest now user max_sessions rows
