-- ===== src/Auth/Limit.antt =====
-- The number of sessions a user keeps.
use Prim.Native.Nat.{min}
use sigarda_panel.Common.{ℕ, ◌≡◌, false, List, [], ◌∷◌, leb, arith, Bool-cases, inl, inr}
use sigarda_panel.Auth.Sessions.{Session, is_active, count_active, revoke_oldest, revoke_session}

revoked-inactive : (now user : ℕ) (s : Session) → is_active now user (revoke_session s) ≡ false
unfolding is_active
revoked-inactive now user s = ground arith

-- After RevokeOldest, a user has as many active sessions as are allowed, or as many as before where
-- these are fewer.
pub count_active-revoke_oldest :
    (now user max_sessions : ℕ) (rows : List Session)
    → count_active now user (revoke_oldest now user max_sessions rows)
      ≡ min (count_active now user rows) max_sessions
unfolding count_active revoke_oldest
count_active-revoke_oldest now user max_sessions [] = ground arith
count_active-revoke_oldest now user max_sessions (s ∷ rows) =
    let ih = count_active-revoke_oldest now user max_sessions rows in
    let gone = revoked-inactive now user s in
    elim (Bool-cases (is_active now user s)) [
      | inr e ↦ rw e (rw e (ground arith))
      | inl e ↦ elim (Bool-cases (leb max_sessions (count_active now user rows))) [
        | inl over ↦ rw (e, over) (rw gone (ground arith))
        | inr under ↦ rw (e, under) (rw e (ground arith))
      ]
    ]
