-- ===== src/Common/Check.antt =====
-- What a validator of the program returns: nil, or an error with its message.
use Prim.Native.String.{String}
use mathlib.Core.Path.{◌≡◌, refl}
use mathlib.Core.Bool.{Bool, true, false}

pub data Check : Type 0 where
  ok : Check
  err : String → Check

-- if err := a; err != nil { return err }; b
infixl 5 ◌>>◌
abbrev pub ◌>>◌ : Check → Check → Check
ok >> k = k
err e >> k = err e

-- if b { return fmt.Errorf(message) }
abbrev pub reject : Bool → String → Check
reject true e = err e
reject false e = ok

abbrev pub is_ok : Check → Bool
is_ok ok = true
is_ok (err e) = false

pub reject-ok : (b : Bool) (e : String) → reject b e ≡ ok → b ≡ false
reject-ok true e h = cc
reject-ok false e h = refl

pub >>-ok : (a b : Check) → (a >> b) ≡ ok → (a ≡ ok) × (b ≡ ok)
>>-ok ok b h = (refl, h)
>>-ok (err e) b h = absurd (cc)

pub is_ok-eq : (c : Check) → is_ok c ≡ true → c ≡ ok
is_ok-eq ok h = refl
is_ok-eq (err e) h = cc
