-- ===== src/Auth/Shown.antt =====
-- What a successful login of internal/apihttp/auth.go has shown, and what it leaves.
use sigarda_panel.Common.{
  ℕ, suc, ◌≤◌, ◌≡◌, ◌≢◌, ◌⊎◌, inl, inr, refl, true, false, List, [], ◌∷◌, ◌++◌, some, Bool-cases,
  arith, leb, ◌&&◌,
}
use sigarda_panel.Text.{Text}
use sigarda_panel.Auth.Limits.{allow, blocked, reset, mark_used}
use sigarda_panel.Auth.Sessions.{Session, revoke_session, revoke_oldest, count_active, is_active}
use sigarda_panel.Auth.Password.{verify_password}
use sigarda_panel.Auth.Login.{
  Account, LoginBody, Panel, Outside, max_sessions_per_user, get_by_username, hash_recovery_code,
  verify_recovery_code, fail_key, new_session,
}

-- The second factor that a login shows: an unspent recovery code, or a one-time code that was not used
-- before.
abbrev pub ByRecoveryCode : Outside → LoginBody → Panel → Account → Type 0
ByRecoveryCode o b st u =
    (b.recovery_code ≢ [])
    × ((verify_recovery_code u.id (hash_recovery_code o b.recovery_code) st.recovery_codes).1
        ≡ true)

abbrev pub ByTotp : Outside → LoginBody → Panel → Account → Type 0
ByTotp o b st u =
    (u.totp_secret ≢ [])
    × (o.totp_validate b.totp_code u.totp_secret ≡ true)
    × ((mark_used st.used_totp u.id b.totp_code o.now).1 ≡ true)

-- The second factor, and what showing it leaves: the recovery code is spent, or the one-time code
-- recorded, and nothing else changes.
abbrev pub SecondFactor : Outside → LoginBody → Panel → Account → Panel → Type 0
SecondFactor o b st u after =
    ((u.totp_enabled ≡ false) × (after ≡ st))
    ⊎ ((ByRecoveryCode o b st u
          × (after ≡ record st {
            recovery_codes =
                (verify_recovery_code u.id (hash_recovery_code o b.recovery_code)
                  st.recovery_codes).0;
          }))
        ⊎ (ByTotp o b st u
            × (after
                ≡ record st { used_totp = (mark_used st.used_totp u.id b.totp_code o.now).0 })))

-- Each session stays as it was, but that active sessions of the user may be revoked.
abbrev pub Kept : ℕ → ℕ → List Session → List Session → Type 0
Kept now user [] [] = Unit
Kept now user [] (s ∷ after) = ⊥
Kept now user (r ∷ rows) [] = ⊥
Kept now user (r ∷ rows) (s ∷ after) =
    ((s ≡ r) ⊎ ((is_active now user r ≡ true) × (s ≡ revoke_session r))) × Kept now user rows after

-- The session that a login opens is the last of the table, behind the sessions there were, of which
-- some of the user's may be revoked; no more than ten of the user's are active unless the query that
-- revokes fails. Of the rest, only the failures of the account change.
pub record Opened (o : Outside) (b : LoginBody) (st : Panel) (token : Text) (u : Account)
    (st' : Panel) : Type 0 where
  pub fresh_token : o.token ≡ some token
  pub others : List Session
  pub kept : Kept o.now u.id st.sessions others
  pub last : st'.sessions ≡ others ++ new_session o b u token st.next_session ∷ []
  pub at_most :
      (o.revoke_fail ≡ true) ⊎ (count_active o.now u.id st'.sessions ≤ max_sessions_per_user)
  pub forgiven : st'.user_failures ≡ reset st.user_failures (fail_key o b)
  pub same_users : st'.users ≡ st.users
  pub same_codes : st'.recovery_codes ≡ st.recovery_codes
  pub same_seen : st'.used_totp ≡ st.used_totp

-- The panel once the address and the account are counted.
abbrev pub counted : Outside → LoginBody → Panel → Panel
counted o b st = record st {
  rate_limiter = (allow o.dev st.rate_limiter o.ip o.now).0;
  user_failures = (blocked st.user_failures (fail_key o b) o.now).0;
}

pub record Admitted (o : Outside) (b : LoginBody) (st : Panel) (token : Text) (u : Account)
    (st' : Panel) : Type 0 where
  pub allowed : (allow o.dev st.rate_limiter o.ip o.now).1 ≡ true
  pub not_blocked : (blocked st.user_failures (fail_key o b) o.now).1 ≡ false
  pub known : get_by_username b.username st.users ≡ some u
  pub password : verify_password o.crypto u.password_hash b.password ≡ some true
  pub shown : Panel
  pub second : SecondFactor o b (counted o b st) u shown
  pub opened : Opened o b shown token u st'

pub Kept-refl : (now user : ℕ) (rows : List Session) → Kept now user rows rows
Kept-refl now user [] = tt
Kept-refl now user (r ∷ rows) = (inl refl, Kept-refl now user rows)

pub last-revoke_oldest :
    (now user limit : ℕ) (rows : List Session) (s : Session)
    → (others : List Session) × Kept now user rows others
      × (revoke_oldest now user (suc limit) (rows ++ s ∷ []) ≡ others ++ s ∷ [])
unfolding revoke_oldest count_active
last-revoke_oldest now user limit [] s = ([], tt, ground arith)
last-revoke_oldest now user limit (r ∷ rows) s =
    let (others, k, e) = last-revoke_oldest now user limit rows s in
    elim (Bool-cases
      (is_active now user r && leb (suc limit) (count_active now user (rows ++ s ∷ [])))) [
        | inl y ↦
            let active : is_active now user r ≡ true = ground arith in
            (revoke_session r ∷ others, (inr (active, refl), k), rw (y, e) refl)
        | inr n ↦ (r ∷ others, (inl refl, k), rw (n, e) refl)
      ]
