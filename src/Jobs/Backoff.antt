-- ===== src/Jobs/Backoff.antt =====
-- The delay before a retry, in nanoseconds: time.Duration is a signed 64-bit integer.
use Prim.Native.Nat.{min}
use sigarda_panel.Common.{
  ℕ, ◌+◌, ◌*◌, ◌-◌, ◌^◌, ◌%◌, ◌<◌, ◌≡◌, refl, ◌||◌, if◌then◌else◌, ltb, leb, arith, true, ap, ◌∙◌,
  holds_from, holds_from_sound, ◌==◌, ==_iff, Bool, ◌&&◌, &&-split,
}

pub record BackoffConfig : Type 0 where
  pub base_delay : ℕ
  pub max_delay : ℕ
  pub jitter : ℕ

unfoldable pub default_backoff : BackoffConfig
default_backoff = record {
  base_delay = 1_000_000_000;
  max_delay = 300_000_000_000;
  jitter = 500_000_000;
}

-- attempts - 1, at least 0 and at most 30
unfoldable pub shift : ℕ → ℕ
shift attempts =
    let attempts = if ltb attempts 1 then 1 else attempts in
    if ltb 30 (attempts - 1) then 30 else attempts - 1

-- The product as 64 bits; from 2^63 on it is a negative duration.
unfoldable pub product : ℕ → ℕ → ℕ
product base n = (base * 2 ^ n) % 2 ^ 64

-- `random` is what rand.Int63n gives for the jitter.
unfoldable pub delay : BackoffConfig → ℕ → ℕ → ℕ
unfolding shift product
delay b random attempts =
    let d = product b.base_delay (shift attempts) in
    (if ltb b.max_delay d || leb (2 ^ 63) d then b.max_delay else d) + random

-- base * 2 ^ n as 64 bits, cut off at the greatest delay.
capped : ℕ → ℕ
unfolding product
capped n =
    let d = product 1_000_000_000 n in
    if ltb 300_000_000_000 d || leb (2 ^ 63) d then 300_000_000_000 else d

agrees : ℕ → Bool
unfolding capped
agrees n = capped n == min (1_000_000_000 * 2 ^ n) 300_000_000_000

agrees_up_to_thirty : holds_from agrees 0 31 ≡ true
unfolding agrees holds_from
agrees_up_to_thirty = refl

capped_lem : (n : ℕ) → n < 31 → capped n ≡ min (1_000_000_000 * 2 ^ n) 300_000_000_000
capped_lem n lt =
    (==_iff (capped n) (min (1_000_000_000 * 2 ^ n) 300_000_000_000)).0
      (unfold agrees in (holds_from_sound agrees 0 31 n (omega arith) lt agrees_up_to_thirty))

shift-lt : (attempts : ℕ) → shift attempts < 31
unfolding shift
shift-lt attempts = ground arith

capped-delay :
    (random attempts : ℕ)
    → delay default_backoff random attempts
      ≡ min (1_000_000_000 * 2 ^ shift attempts) 300_000_000_000 + random
unfolding delay default_backoff
capped-delay random attempts =
    let opened : (let d = product 1_000_000_000 (shift attempts) in
          if ltb 300_000_000_000 d || leb (2 ^ 63) d then 300_000_000_000 else d)
        ≡ capped (shift attempts) =
      unfold capped in refl in
    ap (λ d. d + random) (opened ∙ capped_lem (shift attempts) (shift-lt attempts))

fits : ℕ → Bool
unfolding product
fits n = (product 1_000_000_000 n == 1_000_000_000 * 2 ^ n) && ltb (1_000_000_000 * 2 ^ n) (2 ^ 63)

fits_up_to_thirty : holds_from fits 0 31 ≡ true
unfolding fits holds_from
fits_up_to_thirty = refl

product-fits :
    (n : ℕ)
    → n < 31
    → (product 1_000_000_000 n ≡ 1_000_000_000 * 2 ^ n) × (1_000_000_000 * 2 ^ n < 2 ^ 63)
product-fits n lt =
    let h : fits n ≡ true = holds_from_sound fits 0 31 n (omega arith) lt fits_up_to_thirty in
    let (same, small) =
      &&-split (product 1_000_000_000 n == 1_000_000_000 * 2 ^ n)
        (ltb (1_000_000_000 * 2 ^ n) (2 ^ 63)) (unfold fits in h) in
    ((==_iff (product 1_000_000_000 n) (1_000_000_000 * 2 ^ n)).0 same, ground arith)

-- The delay before a retry is one second, doubled with each attempt after the first, five minutes
-- at most, and the random part. The 64-bit product is the true one and below 2^63.
pub delay_lem :
    (random attempts : ℕ)
    → (product default_backoff.base_delay (shift attempts)
        ≡ 1_000_000_000 * 2 ^ min (attempts - 1) 30)
      × (1_000_000_000 * 2 ^ min (attempts - 1) 30 < 2 ^ 63)
      × (delay default_backoff random attempts
          ≡ min (1_000_000_000 * 2 ^ min (attempts - 1) 30) 300_000_000_000 + random)
unfolding default_backoff
delay_lem random attempts =
    let e : shift attempts ≡ min (attempts - 1) 30 = unfold shift in (ground arith) in
    let c = capped-delay random attempts in
    let (same, small) = product-fits (shift attempts) (shift-lt attempts) in
    (
      same ∙ ap (λ n. 1_000_000_000 * 2 ^ n) e,
      rw e at small,
      c ∙ ap (λ n. min (1_000_000_000 * 2 ^ n) 300_000_000_000 + random) e,
    )
