-- ===== src/Sites/Climb.antt =====
-- The loop of ensureNoSymlinkEscape goes from a path to the one above it.
use mathlib.Core.List.{append_assoc, reverse, reverse-cons, reverse-reverse}
use sigarda_panel.Common.{
  ℕ, zero, suc, ◌≤◌, ◌<◌, ◌≡◌, ◌≢◌, ◌⊎◌, inl, inr, refl, sym, ap, ◌∙◌, true, false, Bool-cases,
  List, [], ◌∷◌, ◌++◌, length, length-append, All, All-of_append_left, All-of_append_right, ◌==◌,
  arith,
}
use sigarda_panel.Text.{Text, eqb, join}
use sigarda_panel.Text.Equality.{eqb_self}
use sigarda_panel.Text.Split.{IsFree}
use sigarda_panel.Path.{is_rooted, segments, clean, is_within, slash}
use sigarda_panel.Path.Clean.{IsName, clean-rooted, segments-join, segments-trailing}
use sigarda_panel.AgentPaths.Backups.{dir_of, upto_last_slash}
use sigarda_panel.Sites.Files.{
  Links, Resolution, found, not_exist, other_error, Verdict, inside, out_of_fuel, judge, climb,
}

-- The absolute path with these names.
abbrev pub path_of : List Text → Text
path_of names = b'/' ∷ join b'/' names

upto-free : (s : Text) → IsFree b'/' s → upto_last_slash s ≡ []
unfolding upto_last_slash
upto-free [] h = refl
upto-free (c ∷ s) h =
    let other : (c == b'/') ≡ false = ground arith in rw (upto-free s h.1, other) refl

upto-name : (s name : Text) → IsFree b'/' name → upto_last_slash (s ++ b'/' ∷ name) ≡ s ++ b'/' ∷ []
unfolding upto_last_slash
upto-name [] name h = rw (upto-free name h) refl
upto-name (c ∷ []) name h = rw (upto-name [] name h) refl
upto-name (c ∷ d ∷ s) name h = rw (upto-name (d ∷ s) name h) refl

join-snoc :
    (n : Text) (ns : List Text) (name : Text)
    → join b'/' ((n ∷ ns) ++ name ∷ []) ≡ join b'/' (n ∷ ns) ++ b'/' ∷ name
unfolding join
join-snoc n [] name = refl
join-snoc n (m ∷ ns) name =
    rw (join-snoc m ns name) (sym (append_assoc n (b'/' ∷ join b'/' (m ∷ ns)) (b'/' ∷ name)))

dir_of-path_of :
    (names : List Text) (name : Text)
    → All IsName (names ++ name ∷ [])
    → dir_of (path_of (names ++ name ∷ [])) ≡ path_of names
unfolding dir_of clean join
dir_of-path_of [] name (h, t) = rw (upto-name [] name h.3) (unfold segments is_rooted in refl)
dir_of-path_of (n ∷ ns) name h =
    let free : IsFree b'/' name = (All-of_append_right IsName (n ∷ ns) (name ∷ []) h).0.3 in
    let parts = All-of_append_left IsName (n ∷ ns) (name ∷ []) h in
    let rooted : is_rooted (path_of (n ∷ ns)) ≡ true = unfold is_rooted in refl in
    let rooted' : is_rooted (path_of (n ∷ ns) ++ slash) ≡ true = unfold is_rooted in refl in
    let up : upto_last_slash (path_of ((n ∷ ns) ++ name ∷ [])) ≡ path_of (n ∷ ns) ++ slash =
      rw (join-snoc n ns name) (upto-name (path_of (n ∷ ns)) name free) in
    rw up (
      clean-rooted (path_of (n ∷ ns) ++ slash) rooted'
      ∙ ap path_of (segments-trailing (path_of (n ∷ ns)) rooted ∙ segments-join (n ∷ ns) parts))

dir_of-root : dir_of (path_of []) ≡ path_of []
unfolding dir_of upto_last_slash clean segments is_rooted join
dir_of-root = refl

-- A path with these names, or its nearest ancestor that exists, has its real path within `real_root`;
-- whatever lies between them does not exist.
pub data IsGrounded (links : Links) (real_root : Text) : List Text → Type 0 where
  here :
      (names : List Text) (real : Text)
      → links (path_of names) ≡ found real
      → is_within real_root real ≡ true
      → IsGrounded links real_root names
  above :
      (front : List Text) (name : Text)
      → links (path_of (front ++ name ∷ [])) ≡ not_exist
      → IsGrounded links real_root front
      → IsGrounded links real_root (front ++ name ∷ [])

-- What a run of the loop establishes.
abbrev pub Judged : Links → Text → List Text → Verdict → Type 0
Judged links real_root names verdict =
    (verdict ≢ out_of_fuel) × (verdict ≡ inside → IsGrounded links real_root names)

module _ (links : Links) (real_root : Text) where
  judge-found :
      (names : List Text) (real : Text) (rest : Verdict)
      → links (path_of names) ≡ found real
      → Judged links real_root names (judge real_root (path_of names) (found real) rest)
  unfolding judge
  judge-found names real rest e = elim (Bool-cases (is_within real_root real)) [
    | inl w ↦ rw w (λ z. cc, λ z. here names real e w)
    | inr w ↦ rw w (λ z. cc, λ z. absurd (cc))
  ]

  judge-not_exist :
      (front : List Text) (name : Text) (rest : Verdict)
      → links (path_of (front ++ name ∷ [])) ≡ not_exist
      → Judged links real_root front rest
      → Judged links real_root
          (front ++ name ∷ [])
          (judge real_root (path_of (front ++ name ∷ [])) not_exist rest)
  unfolding judge
  judge-not_exist front name rest e h =
      let p = path_of (front ++ name ∷ []) in
      elim (Bool-cases (eqb (dir_of p) p)) [
        | inl w ↦ rw w (λ z. cc, λ z. absurd (cc))
        | inr w ↦ rw w (h.0, λ z. above front name e (h.1 z))
      ]

  judge-other :
      (probe : Text) (names : List Text) (rest : Verdict)
      → Judged links real_root names (judge real_root probe other_error rest)
  unfolding judge
  judge-other probe names rest = (λ z. cc, λ z. absurd (cc))

  judge-root :
      (rest : Verdict) → Judged links real_root [] (judge real_root (path_of []) not_exist rest)
  unfolding judge
  judge-root rest = rw (dir_of-root, eqb_self (path_of [])) (λ z. cc, λ z. absurd (cc))

  Resolution-cases :
      (r : Resolution) → ((real : Text) × (r ≡ found real)) ⊎ ((r ≡ not_exist) ⊎ (r ≡ other_error))
  Resolution-cases (found real) = inl (real, refl)
  Resolution-cases not_exist = inr (inl refl)
  Resolution-cases other_error = inr (inr refl)

  climb_reversed :
      (fuel : ℕ) (rev : List Text)
      → All IsName (reverse rev)
      → length rev < fuel
      → Judged links real_root (reverse rev) (climb links real_root fuel (path_of (reverse rev)))
  unfolding climb
  climb_reversed zero rev h enough = absurd (omega arith)
  climb_reversed (suc fuel) [] h enough = elim (Resolution-cases (links (path_of []))) [
    | inl (real, e) ↦
        rw e (judge-found [] real (climb links real_root fuel (dir_of (path_of []))) e)
    | inr (inl e) ↦ rw e (judge-root (climb links real_root fuel (dir_of (path_of []))))
    | inr (inr e) ↦
        rw e (judge-other (path_of []) [] (climb links real_root fuel (dir_of (path_of []))))
  ]
  climb_reversed (suc fuel) (name ∷ rev) h enough =
      let names = reverse rev ++ name ∷ [] in
      let split_up : reverse (name ∷ rev) ≡ names = reverse-cons name rev in
      let h' : All IsName names = rw split_up at h in
      let rest = climb links real_root fuel (dir_of (path_of names)) in
      let induction : Judged links real_root (reverse rev) rest =
        rw (dir_of-path_of (reverse rev) name h') (
          climb_reversed fuel rev (All-of_append_left IsName (reverse rev) (name ∷ []) h')
            (omega (arith, enough))) in
      rw split_up (elim (Resolution-cases (links (path_of names))) [
        | inl (real, e) ↦ rw e (judge-found names real rest e)
        | inr (inl e) ↦ rw e (judge-not_exist (reverse rev) name rest e induction)
        | inr (inr e) ↦ rw e (judge-other (path_of names) names rest)
      ])

length-reverse {ℓ} : {A : Type ℓ} (xs : List A) → length (reverse xs) ≡ length xs
length-reverse [] = refl
length-reverse (x ∷ xs) =
    rw (reverse-cons, length-append (reverse xs) (x ∷ [])) (omega (arith, length-reverse xs))

one_byte : (name : Text) → name ≢ [] → 1 ≤ length name
one_byte [] h = absurd (h refl)
one_byte (c ∷ name) h = omega arith

length-join : (names : List Text) → All IsName names → length names ≤ length (join b'/' names)
unfolding join
length-join [] h = omega arith
length-join (p ∷ []) h = omega (arith, one_byte p h.0.0)
length-join (p ∷ q ∷ ps) h =
    rw (length-append p (b'/' ∷ join b'/' (q ∷ ps)))
      (omega (arith, one_byte p h.0.0, length-join (q ∷ ps) h.1))

-- The loop has rounds enough to end, whatever the links are.
pub climb-path_of :
    (links : Links) (real_root : Text) (names : List Text)
    → All IsName names
    → Judged links real_root names
        (climb links real_root (suc (length (path_of names))) (path_of names))
climb-path_of links real_root names h =
    let same : reverse (reverse names) ≡ names = reverse-reverse names in
    let enough : length (reverse names) < suc (length (path_of names)) =
      omega (arith, length-reverse names, length-join names h) in
    let run = climb_reversed links real_root (suc (length (path_of names))) (reverse names) in
    rw same at (run (rw same h) enough)
