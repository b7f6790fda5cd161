-- ===== src/Auth/Replay.antt =====
-- The used one-time codes of internal/apihttp/auth.go over a sequence of offers.
use sigarda_panel.Common.{
  ℕ, ◌+◌, ◌≤◌, ◌≡◌, List, [], ◌∷◌, ◌++◌, some, true, false, Bool-cases, inl, inr, arith, All,
}
use sigarda_panel.Text.{Text, eqb}
use sigarda_panel.Text.Equality.{eqb_iff, eqb_self}
use sigarda_panel.Auth.Limits.{put, SeenCodes, mark_used, mark_key, drop_old, format_int}

-- A code offered by a user at a time.
pub record Offer : Type 0 where
  pub user_id : ℕ
  pub code : Text
  pub at : ℕ

unfoldable pub mark_all : SeenCodes → List Offer → SeenCodes
mark_all seen [] = seen
mark_all seen (o ∷ os) = mark_all (mark_used seen o.user_id o.code o.at).0 os

-- The key is remembered with a time, and no offer so far is more than two minutes later.
mark_key-kept :
    (seen : SeenCodes) (key k : Text) (t now : ℕ)
    → seen key ≡ some t
    → now ≤ t + 120
    → (mark_key seen k now).0 key ≡ some t
unfolding mark_key drop_old put
mark_key-kept seen key k t now h le = elim (Bool-cases (eqb key k)) [
  | inl e ↦ let same : key ≡ k = (eqb_iff key k).0 e in rw (← same) (ground arith)
  | inr e ↦ ground arith
]

mark_key-first :
    (seen : SeenCodes) (key : Text) (t : ℕ)
    → (mark_key seen key t).1 ≡ true
    → (mark_key seen key t).0 key ≡ some t
unfolding mark_key drop_old put
mark_key-first seen key t h = ground (arith, eqb_self key)

mark_key-again :
    (seen : SeenCodes) (key : Text) (t now : ℕ)
    → seen key ≡ some t
    → now ≤ t + 120
    → (mark_key seen key now).1 ≡ false
unfolding mark_key drop_old
mark_key-again seen key t now h le = ground arith

mark_all-kept :
    (seen : SeenCodes) (key : Text) (t : ℕ) (os : List Offer)
    → seen key ≡ some t
    → All (λ o. o.at ≤ t + 120) os
    → mark_all seen os key ≡ some t
unfolding mark_all mark_used
mark_all-kept seen key t [] h le = h
mark_all-kept seen key t (o ∷ os) h le =
    mark_all-kept (mark_used seen o.user_id o.code o.at).0 key t os
      (mark_key-kept seen key (format_int o.user_id ++ b':' ∷ o.code) t o.at h le.0) le.1

-- A code that was accepted for a user at a time t is refused when offered again up to two minutes
-- after t, whatever codes were offered in between, none of them later than two minutes after t.
pub mark_used-replay :
    (seen : SeenCodes) (user_id : ℕ) (code : Text) (t now : ℕ) (between : List Offer)
    → (mark_used seen user_id code t).1 ≡ true
    → All (λ o. o.at ≤ t + 120) between
    → now ≤ t + 120
    → (mark_used (mark_all (mark_used seen user_id code t).0 between) user_id code now).1 ≡ false
unfolding mark_used
mark_used-replay seen user_id code t now between h others le =
    let key = format_int user_id ++ b':' ∷ code in
    mark_key-again (mark_all (mark_key seen key t).0 between) key t now
      (mark_all-kept (mark_key seen key t).0 key t between (mark_key-first seen key t h) others) le
