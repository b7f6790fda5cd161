-- ===== src/Auth/Windows.antt =====
-- The rate limiter of internal/apihttp/auth.go over a sequence of attempts.
use mathlib.Core.Path.{subst}
use mathlib.Core.List.{append_assoc, append-nil}
use sigarda_panel.Common.{
  ℕ, ◌≤◌, ◌<◌, ◌≡◌, ◌≢◌, refl, ap, sym, ◌∙◌, List, [], ◌∷◌, ◌++◌, if◌then◌else◌, leb, false, length,
  length-append, arith, Bool-cases, inl, inr,
}
use sigarda_panel.Text.{Text, eqb}
use sigarda_panel.Text.Equality.{eqb_iff, eqb_self}
use sigarda_panel.Auth.Limits.{put, recent, RateLimiter, new_rate_limiter, allow}

-- Pruning at a time loses nothing that a later window asks for.
pub recent-recent :
    (window now later : ℕ) (ts : List ℕ)
    → now ≤ later
    → recent window later (recent window now ts) ≡ recent window later ts
unfolding recent
recent-recent window now later [] h = refl
recent-recent window now later (t ∷ ts) h = ground (arith, recent-recent window now later ts h)

pub recent-append :
    (window now : ℕ) (ts us : List ℕ)
    → recent window now (ts ++ us) ≡ recent window now ts ++ recent window now us
unfolding recent
recent-append window now [] us = refl
recent-append window now (t ∷ ts) us = ground (arith, recent-append window now ts us)

length-recent : (window now : ℕ) (ts : List ℕ) → length (recent window now ts) ≤ length ts
unfolding recent
length-recent window now [] = omega arith
length-recent window now (t ∷ ts) = ground (arith, length-recent window now ts)

pub put-same {ℓ} : {V : Type ℓ} (k : Text) (v : V) (m : Text → V) → put k v m k ≡ v
unfolding put
put-same k v m = rw (eqb_self k)

pub put-other {ℓ} : {V : Type ℓ} (k j : Text) (v : V) (m : Text → V) → j ≢ k → put k v m j ≡ m j
unfolding put
put-other k j v m n = elim (Bool-cases (eqb j k)) [
  | inl e ↦ absurd (n ((eqb_iff j k).0 e))
  | inr e ↦ rw e
]

-- A login attempt: the address, and when.
abbrev pub Attempt : Type 0
Attempt = Text × ℕ

-- The attempts one after the other, and the times of those that were allowed for the address `ip`.
unfoldable pub allowed_from : RateLimiter → Text → List Attempt → List ℕ
allowed_from rl ip [] = []
allowed_from rl ip ((from, now) ∷ es) =
    let (rl', passed) = allow false rl from now in
    let rest = allowed_from rl' ip es in
    if passed then (if eqb ip from then now ∷ rest else rest) else rest

-- Times do not go back, from `start` to `end`.
abbrev pub InOrder : ℕ → ℕ → List Attempt → Type 0
InOrder start end [] = start ≤ end
InOrder start end ((from, now) ∷ es) = (start ≤ now) × InOrder now end es

-- The limiter has kept, of the times allowed for `ip`, all that a window from `now` on can hold.
record Tracks (window limit : ℕ) (ip : Text) (rl : RateLimiter) (hist : List ℕ) (now : ℕ)
    : Type 0 where
  same_window : rl.window ≡ window
  same_limit : rl.limit ≡ limit
  kept : (later : ℕ) → now ≤ later → recent window later (rl.attempts ip) ≡ recent window later hist
  few : length (rl.attempts ip) ≤ limit

module _ {window limit : ℕ} {ip : Text} {rl : RateLimiter} {hist : List ℕ} {start : ℕ} where
  Tracks-other :
      (from : Text) (v : List ℕ) (now : ℕ)
      → ip ≢ from
      → start ≤ now
      → Tracks window limit ip rl hist start
      → Tracks window limit ip (record rl { attempts = put from v rl.attempts }) hist now
  Tracks-other from v now n le h = record {
    same_window = h.same_window;
    same_limit = h.same_limit;
    kept = λ later l. rw (put-other from ip v rl.attempts n) (h.kept later (omega arith));
    few = rw (put-other from ip v rl.attempts n) h.few;
  }

  Tracks-refused :
      (now : ℕ)
      → start ≤ now
      → Tracks window limit ip rl hist start
      → Tracks window limit ip
          (record rl { attempts = put ip (recent rl.window now (rl.attempts ip)) rl.attempts })
          hist
          now
  Tracks-refused now le h = record {
    same_window = h.same_window;
    same_limit = h.same_limit;
    kept = λ later l.
        rw (put-same ip (recent rl.window now (rl.attempts ip)) rl.attempts, h.same_window)
          (recent-recent window now later (rl.attempts ip) l ∙ h.kept later (omega arith));
    few =
        rw (put-same ip (recent rl.window now (rl.attempts ip)) rl.attempts)
          (omega (arith, length-recent rl.window now (rl.attempts ip), h.few));
  }

  Tracks-allowed :
      (now : ℕ)
      → start ≤ now
      → length (recent rl.window now (rl.attempts ip)) < rl.limit
      → Tracks window limit ip rl hist start
      → Tracks window limit ip
          (record rl {
            attempts = put ip (recent rl.window now (rl.attempts ip) ++ now ∷ []) rl.attempts;
          })
          (hist ++ now ∷ [])
          now
  Tracks-allowed now le room h =
      let v = recent rl.window now (rl.attempts ip) in
      record {
        same_window = h.same_window;
        same_limit = h.same_limit;
        kept = λ later l. rw (put-same ip (v ++ now ∷ []) rl.attempts) (
            recent-append window later v (now ∷ [])
            ∙ ap (λ xs. xs ++ recent window later (now ∷ []))
                (rw h.same_window
                  (recent-recent window now later (rl.attempts ip) l ∙ h.kept later (omega arith)))
            ∙ sym (recent-append window later hist (now ∷ [])));
        few =
            rw (put-same ip (v ++ now ∷ []) rl.attempts)
              (omega (arith, length-append v (now ∷ []), h.same_limit));
      }

-- The bound for the attempts still to come, whatever was allowed before.
abbrev IsBounded : ℕ → ℕ → Text → ℕ → List Attempt → RateLimiter → List ℕ → Type 0
IsBounded window limit ip end es rl hist =
    length (recent window end (hist ++ allowed_from rl ip es)) ≤ limit

module _ (window limit : ℕ) (ip : Text) (start now end : ℕ) (es : List Attempt) (rl : RateLimiter)
    (hist : List ℕ) (le : start ≤ now) (h : Tracks window limit ip rl hist start)
    (ih : (rl' : RateLimiter) (hist' : List ℕ)
      → Tracks window limit ip rl' hist' now
      → IsBounded window limit ip end es rl' hist') where
  step_same : IsBounded window limit ip end ((ip, now) ∷ es) rl hist
  unfolding allowed_from allow
  step_same = elim (Bool-cases (leb rl.limit (length (recent rl.window now (rl.attempts ip))))) [
    | inl full ↦ rw full (ih _ hist (Tracks-refused now le h))
    | inr room ↦
        let short : length (recent rl.window now (rl.attempts ip)) < rl.limit = ground arith in
        let next = Tracks-allowed now le short h in
        rw (room, eqb_self ip)
          (rw (append_assoc hist (now ∷ []) _) at (ih _ (hist ++ now ∷ []) next))
  ]

  step_other : (from : Text) → ip ≢ from → IsBounded window limit ip end ((from, now) ∷ es) rl hist
  unfolding allowed_from allow
  step_other from n =
      let different : eqb ip from ≡ false = ground (arith, eqb_iff ip from) in
      elim (Bool-cases (leb rl.limit (length (recent rl.window now (rl.attempts from))))) [
        | inl full ↦ rw full (ih _ hist (Tracks-other from _ now n le h))
        | inr room ↦ rw (room, different) (ih _ hist (Tracks-other from _ now n le h))
      ]

bounded :
    (window limit : ℕ) (ip : Text) (end : ℕ) (es : List Attempt) (start : ℕ) (rl : RateLimiter)
    (hist : List ℕ)
    → InOrder start end es
    → Tracks window limit ip rl hist start
    → IsBounded window limit ip end es rl hist
unfolding allowed_from
bounded window limit ip end [] start rl hist o h =
    rw (append-nil hist, ← h.kept end o)
      (omega (arith, length-recent window end (rl.attempts ip), h.few))
bounded window limit ip end ((from, now) ∷ es) start rl hist (le, o) h =
    let ih = λ (rl' : RateLimiter) (hist' : List ℕ) (t : Tracks window limit ip rl' hist' now).
      bounded window limit ip end es now rl' hist' o t in
    elim (Bool-cases (eqb ip from)) [
      | inl e ↦
          subst (λ other. IsBounded window limit ip end ((other, now) ∷ es) rl hist)
            ((eqb_iff ip from).0 e) (step_same window limit ip start now end es rl hist le h ih)
      | inr e ↦
          step_other window limit ip start now end es rl hist le h ih from
            (λ z. absurd (ground (arith, eqb_iff ip from)))
    ]

-- Outside development mode, where every attempt is allowed: of the login attempts of one address, at
-- most `limit` are allowed in any window, whatever the other addresses do, if times do not go back:
-- `end` is any time from the last attempt on.
pub rate_limit :
    (limit window : ℕ) (ip : Text) (start end : ℕ) (es : List Attempt)
    → InOrder start end es
    → length (recent window end (allowed_from (new_rate_limiter limit window) ip es)) ≤ limit
rate_limit limit window ip start end es o =
    bounded window limit ip end es start (new_rate_limiter limit window) [] o (
      unfold new_rate_limiter in
      record { same_window = refl; same_limit = refl; kept = λ later l. refl; few = omega arith })
