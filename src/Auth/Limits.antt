-- ===== src/Auth/Limits.antt =====
-- The login limits of internal/apihttp/auth.go: attempts of an address, failures of an account, and
-- one-time codes that were used. A map is a function, and a deleted list is the empty one, as Go
-- reads it. Times are seconds.
use sigarda_panel.Common.{
  ℕ, zero, suc, ◌+◌, ◌/◌, ◌%◌, Bool, List, [], ◌∷◌, ◌++◌, Option, none, some, if◌then◌else◌, ltb,
  leb, true, false, length,
}
use sigarda_panel.Text.{Text, eqb}

-- m[k] = v
unfoldable pub put {ℓ} : {V : Type ℓ} → Text → V → (Text → V) → Text → V
put k v m j = if eqb j k then v else m j

-- The times after now - window.
unfoldable pub recent : ℕ → ℕ → List ℕ → List ℕ
recent window now [] = []
recent window now (t ∷ ts) =
    let rest = recent window now ts in if ltb now (t + window) then t ∷ rest else rest

pub record RateLimiter : Type 0 where
  pub attempts : Text → List ℕ
  pub limit : ℕ
  pub window : ℕ

unfoldable pub new_rate_limiter : ℕ → ℕ → RateLimiter
new_rate_limiter limit window = record { attempts = λ ip. []; limit = limit; window = window }

-- `dev` is SIGARDAPANEL_DEV == "true".
unfoldable pub allow : Bool → RateLimiter → Text → ℕ → RateLimiter × Bool
unfolding put
allow dev rl ip now =
    let valid = recent rl.window now (rl.attempts ip) in
    if dev
    then (rl, true)
    else if leb rl.limit (length valid)
    then (record rl { attempts = put ip valid rl.attempts }, false)
    else (record rl { attempts = put ip (valid ++ now ∷ []) rl.attempts }, true)

pub record FailureTracker : Type 0 where
  pub fails : Text → List ℕ
  pub limit : ℕ
  pub window : ℕ

unfoldable pub new_failure_tracker : ℕ → ℕ → FailureTracker
new_failure_tracker limit window = record { fails = λ key. []; limit = limit; window = window }

unfoldable pub prune : FailureTracker → Text → ℕ → FailureTracker × List ℕ
unfolding put
prune f key now =
    let valid = recent f.window now (f.fails key) in
    (record f { fails = put key valid f.fails }, valid)

unfoldable pub blocked : FailureTracker → Text → ℕ → FailureTracker × Bool
unfolding prune
blocked f key now = let (f', valid) = prune f key now in (f', leb f.limit (length valid))

unfoldable pub fail : FailureTracker → Text → ℕ → FailureTracker
unfolding prune
fail f key now =
    let (f', valid) = prune f key now in record f' { fails = put key (valid ++ now ∷ []) f'.fails }

unfoldable pub reset : FailureTracker → Text → FailureTracker
unfolding put
reset f key = record f { fails = put key [] f.fails }

-- strconv.FormatInt in base ten, for a number that is not negative; `fuel` is above the number of
-- digits.
unfoldable pub digits_onto : ℕ → ℕ → Text → Text
digits_onto zero n acc = acc
digits_onto (suc fuel) n acc =
    let rest = digits_onto fuel (n / 10) ((b'0' + n % 10) ∷ acc) in
    if ltb n 10 then (b'0' + n) ∷ acc else rest

unfoldable pub format_int : ℕ → Text
unfolding digits_onto
format_int n = digits_onto (suc n) n []

abbrev pub SeenCodes : Type 0
SeenCodes = Text → Option ℕ

-- Codes are forgotten after two minutes.
unfoldable pub drop_old : ℕ → Option ℕ → Option ℕ
drop_old now none = none
drop_old now (some t) = if ltb (t + 120) now then none else some t

unfoldable pub mark_key : SeenCodes → Text → ℕ → SeenCodes × Bool
unfolding drop_old put
mark_key seen key now =
    let kept = λ (k : Text). drop_old now (seen k) in
    elim (kept key) [ some t ↦ (kept, false) | none ↦ (put key (some now) kept, true) ]

unfoldable pub mark_used : SeenCodes → ℕ → Text → ℕ → SeenCodes × Bool
unfolding mark_key
mark_used seen user_id code now = mark_key seen (format_int user_id ++ b':' ∷ code) now
