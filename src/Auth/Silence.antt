-- ===== src/Auth/Silence.antt =====
-- What the login's answer tells of the accounts.
use sigarda_panel.Common.{◌≡◌, refl, false, List, none, some, Bool-cases, inl, inr}
use sigarda_panel.Auth.Limits.{allow, blocked}
use sigarda_panel.Auth.Password.{verify_password}
use sigarda_panel.Auth.Login.{
  Account, LoginBody, Panel, Outside, Answer, get_by_username, fail_key, count_failure,
  check_password, check_user, check_account, login,
}

-- The same answer, and the same state but for the accounts.
abbrev pub AlikeBut : List Account → Panel × Answer → Panel × Answer → Type 0
AlikeBut us (st, answer) (st', answer') = (st ≡ record st' { users = us }) × (answer ≡ answer')

check_user-alike :
    (o : Outside) (b : LoginBody) (us : List Account) (st : Panel) (u : Account)
    → verify_password o.crypto u.password_hash b.password ≡ some false
    → AlikeBut us (check_user o b (record st { users = us }) none) (check_user o b st (some u))
unfolding check_user check_password count_failure
check_user-alike o b us st u wrong = rw wrong (refl, refl)

check_account-alike :
    (o : Outside) (b : LoginBody) (us : List Account) (st : Panel) (u : Account)
    → get_by_username b.username st.users ≡ some u
    → verify_password o.crypto u.password_hash b.password ≡ some false
    → get_by_username b.username us ≡ none
    → AlikeBut us
        (check_account o (record st { users = us }) (some b))
        (check_account o st (some b))
unfolding check_account
check_account-alike o b us st u known wrong unknown =
    let (failures, is_blocked) = blocked st.user_failures (fail_key o b) o.now in
    let st1 : Panel = record st { user_failures = failures } in
    elim (Bool-cases (blocked st.user_failures (fail_key o b) o.now).1) [
      | inl e ↦ rw e (refl, refl)
      | inr e ↦ elim (Bool-cases o.users_fail) [
        | inl f ↦ rw (e, f) (refl, refl)
        | inr f ↦ rw (e, f, known, unknown) (check_user-alike o b us st1 u wrong)
      ]
    ]

-- A login with a name that no account has is answered as one with a wrong password is, at the same
-- time and with the same request: the answer and the state afterwards are the same but for the table
-- of accounts itself.
pub login-AlikeBut :
    (o : Outside) (b : LoginBody) (us : List Account) (st : Panel) (u : Account)
    → get_by_username b.username st.users ≡ some u
    → verify_password o.crypto u.password_hash b.password ≡ some false
    → get_by_username b.username us ≡ none
    → AlikeBut us (login o (some b) (record st { users = us })) (login o (some b) st)
unfolding login
login-AlikeBut o b us st u known wrong unknown =
    let (limiter, _) = allow o.dev st.rate_limiter o.ip o.now in
    let st1 : Panel = record st { rate_limiter = limiter } in
    elim (Bool-cases (allow o.dev st.rate_limiter o.ip o.now).1) [
      | inl e ↦ rw e (check_account-alike o b us st1 u known wrong unknown)
      | inr e ↦ rw e (refl, refl)
    ]
