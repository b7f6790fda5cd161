-- ===== src/Path/Clean.antt =====
-- The parts of a cleaned rooted path, and cleaning twice.
use mathlib.Core.List.{reverse, reverse-cons, append_assoc, append-nil, reverse-reverse}
use sigarda_panel.Common.{
  Bool, true, ◌==◌, ◌≡◌, refl, sym, ◌≢◌, inl, inr, List, [], ◌∷◌, ◌++◌, arith, Bool-cases, All,
  All-reverse,
}
use sigarda_panel.Text.{Text, split, join, eqb}
use sigarda_panel.Text.Equality.{eqb_iff}
use sigarda_panel.Text.Split.{IsFree, split-IsFree, split-join, split-append}
use sigarda_panel.Path.{slash, dot, dotdot, is_rooted, resolve, resolve_all, up, segments, clean}

-- A name in a directory: not empty, not "." or "..", and without a slash.
abbrev pub IsName : Text → Type 0
IsName part = (part ≢ []) × (part ≢ dot) × (part ≢ dotdot) × IsFree b'/' part

up-IsName : (stack : List Text) → All IsName stack → All IsName (up true stack)
unfolding up
up-IsName [] h = tt
up-IsName (top ∷ stack) h = elim (Bool-cases (eqb top dotdot)) [
  | inl e ↦ absurd (h.0.2 ((eqb_iff top dotdot).0 e))
  | inr e ↦ rw e h.1
]

resolve-IsName :
    (stack : List Text) (part : Text)
    → All IsName stack
    → IsFree b'/' part
    → All IsName (resolve true stack part)
unfolding resolve
resolve-IsName stack part h k =
    ground (arith, up-IsName stack h, eqb_iff part [], eqb_iff part dot, eqb_iff part dotdot)

resolve_all-IsName :
    (stack parts : List Text)
    → All IsName stack
    → All (IsFree b'/') parts
    → All IsName (resolve_all true stack parts)
unfolding resolve_all
resolve_all-IsName stack [] h k = h
resolve_all-IsName stack (part ∷ parts) h k =
    resolve_all-IsName (resolve true stack part) parts (resolve-IsName stack part h k.0) k.1

-- Every part of a cleaned rooted path is a name.
pub segments-IsName : (p : Text) → is_rooted p ≡ true → All IsName (segments p)
unfolding segments
segments-IsName p r =
    rw r (All-reverse IsName _ (resolve_all-IsName [] (split b'/' p) tt (split-IsFree b'/' p)))

resolve-name :
    (stack : List Text) (part : Text) → IsName part → resolve true stack part ≡ part ∷ stack
unfolding resolve
resolve-name stack part h = ground (arith, eqb_iff part [], eqb_iff part dot, eqb_iff part dotdot)

resolve_all-names :
    (stack parts : List Text)
    → All IsName parts
    → resolve_all true stack parts ≡ reverse parts ++ stack
unfolding resolve_all
resolve_all-names stack [] h = refl
resolve_all-names stack (part ∷ parts) h =
    rw (resolve-name stack part h.0, resolve_all-names (part ∷ stack) parts h.1)
      (simp (reverse-cons, append_assoc))

pub names-IsFree : (parts : List Text) → All IsName parts → All (IsFree b'/') parts
names-IsFree [] h = tt
names-IsFree (p ∷ ps) h = (h.0.3, names-IsFree ps h.1)

segments-slash : (s : Text) → segments (b'/' ∷ s) ≡ reverse (resolve_all true [] (split b'/' s))
unfolding segments
segments-slash s = refl

-- Names joined to a rooted path are its parts.
pub segments-join :
    (parts : List Text) → All IsName parts → segments (b'/' ∷ join b'/' parts) ≡ parts
segments-join [] h = unfold segments join in refl
segments-join (p ∷ ps) h =
    rw (segments-slash (join b'/' (p ∷ ps)), split-join b'/' p ps (names-IsFree (p ∷ ps) h))
      (rw (resolve_all-names [] (p ∷ ps) h, append-nil) (reverse-reverse (p ∷ ps)))

pub clean-rooted : (p : Text) → is_rooted p ≡ true → clean p ≡ b'/' ∷ join b'/' (segments p)
unfolding clean
clean-rooted p r = rw r

-- Cleaning a rooted path keeps its parts.
pub segments-clean : (p : Text) → is_rooted p ≡ true → segments (clean p) ≡ segments p
segments-clean p r = rw (clean-rooted p r) (segments-join (segments p) (segments-IsName p r))

pub clean-IsRooted : (p : Text) → is_rooted p ≡ true → is_rooted (clean p) ≡ true
clean-IsRooted p r = rw (clean-rooted p r) (unfold is_rooted in refl)

-- Cleaning a rooted path twice is cleaning it once.
pub clean-clean : (p : Text) → is_rooted p ≡ true → clean (clean p) ≡ clean p
clean-clean p r =
    rw (clean-rooted (clean p) (clean-IsRooted p r), segments-clean p r) (sym (clean-rooted p r))

resolve_all-append :
    (rooted : Bool) (stack xs ys : List Text)
    → resolve_all rooted stack (xs ++ ys) ≡ resolve_all rooted (resolve_all rooted stack xs) ys
unfolding resolve_all
resolve_all-append rooted stack [] ys = refl
resolve_all-append rooted stack (x ∷ xs) ys =
    resolve_all-append rooted (resolve rooted stack x) xs ys

resolve_all-empty : (rooted : Bool) (stack : List Text) → resolve_all rooted stack ([] ∷ []) ≡ stack
unfolding resolve_all resolve eqb
resolve_all-empty rooted stack = refl

split-nil : split b'/' [] ≡ [] ∷ []
unfolding split
split-nil = refl

-- A slash at the end is cleaned away.
pub segments-trailing : (p : Text) → is_rooted p ≡ true → segments (p ++ slash) ≡ segments p
unfolding segments is_rooted
segments-trailing [] r = absurd (cc)
segments-trailing (c ∷ s) r =
    rw
      (
        split-append b'/' (c ∷ s) [],
        split-nil,
        resolve_all-append (c == b'/') [] (split b'/' (c ∷ s)) ([] ∷ []),
        resolve_all-empty (c == b'/') (resolve_all (c == b'/') [] (split b'/' (c ∷ s))),
      )
      refl
