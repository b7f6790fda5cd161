-- ===== src/Jobs/Claim.antt =====
-- Claiming: the table's order, and which job a claim takes.
use Prim.Native.String.{String}
use mathlib.Core.Path.{subst₂}
use sigarda_panel.Common.{
  ℕ, suc, ◌+◌, ◌≤◌, ◌<◌, ◌≡◌, refl, ap, ◌∙◌, Bool, true, false, List, [], ◌∷◌, ◌++◌, none, some,
  ◌==◌, arith, All, Bool-cases, Option-cases, inl, inr, ◌⊎◌,
}
use sigarda_panel.Jobs.Model.{Job, status_running}
use sigarda_panel.Jobs.Table.{
  Jobs, update_rows, update, has_id, find, can_claim, start_row, claim_next,
}

-- Ids go up strictly, from `low` on and below `high`.
abbrev pub IsOrdered : ℕ → List Job → ℕ → Type 0
IsOrdered low [] high = low ≤ high
IsOrdered low (j ∷ js) high = (low ≤ j.id) × IsOrdered (suc j.id) js high

abbrev pub IsWellFormed : Jobs → Type 0
IsWellFormed t = IsOrdered 0 t.rows t.next_id

IsOrdered-weaken :
    (low low' : ℕ) (js : List Job) (high : ℕ)
    → low' ≤ low
    → IsOrdered low js high
    → IsOrdered low' js high
IsOrdered-weaken low low' [] high le h = omega arith
IsOrdered-weaken low low' (j ∷ js) high le h = (omega (arith, h.0), h.1)

-- An update that keeps ids keeps the order.
pub update_rows-IsOrdered :
    (p : Job → Bool) (f : Job → Job)
    → ((j : Job) → (f j).id ≡ j.id)
    → (low : ℕ) (js : List Job) (high : ℕ) → IsOrdered low js high
    → IsOrdered low (update_rows p f js) high
unfolding update_rows
update_rows-IsOrdered p f keeps low [] high h = h
update_rows-IsOrdered p f keeps low (j ∷ js) high h = elim (Bool-cases (p j)) [
  | inl e ↦ rw (e, keeps j) (h.0, update_rows-IsOrdered p f keeps (suc j.id) js high h.1)
  | inr e ↦ rw e (h.0, update_rows-IsOrdered p f keeps (suc j.id) js high h.1)
]

-- No row from `low` on has a smaller id, so an update of that id changes nothing.
update_rows-absent :
    (id : ℕ) (f : Job → Job) (low : ℕ) (js : List Job) (high : ℕ)
    → id < low
    → IsOrdered low js high
    → update_rows (has_id id) f js ≡ js
unfolding update_rows
update_rows-absent id f low [] high lt h = refl
update_rows-absent id f low (j ∷ js) high lt h =
    let other : (j.id == id) ≡ false = ground (arith, h.0) in
    rw (other, update_rows-absent id f (suc j.id) js high (omega (arith, h.0)) h.1)

-- An update of one id changes the row of that id alone.
pub update_rows-at :
    (f : Job → Job) (low : ℕ) (before : List Job) (j : Job) (after : List Job) (high : ℕ)
    → IsOrdered low (before ++ j ∷ after) high
    → (low ≤ j.id) × (update_rows (has_id j.id) f (before ++ j ∷ after) ≡ before ++ f j ∷ after)
unfolding update_rows
update_rows-at f low [] j after high h =
    let same : (j.id == j.id) ≡ true = ground arith in
    (h.0, rw (same, update_rows-absent j.id f (suc j.id) after high (omega arith) h.1))
update_rows-at f low (k ∷ before) j after high h =
    let (above, ih) = update_rows-at f (suc k.id) before j after high h.1 in
    let other : (k.id == j.id) ≡ false = ground arith in (omega (arith, h.0), rw (other, ih))

pub update_rows-at_id :
    (id : ℕ) (f : Job → Job) (before : List Job) (j : Job) (after : List Job) (high : ℕ)
    → id ≡ j.id
    → IsOrdered 0 (before ++ j ∷ after) high
    → update_rows (has_id id) f (before ++ j ∷ after) ≡ before ++ f j ∷ after
update_rows-at_id id f before j after high e h = rw e (update_rows-at f 0 before j after high h).1

-- The first row that satisfies a condition.
pub record IsFirst (p : Job → Bool) (js : List Job) (j : Job) : Type 0 where
  pub before : List Job
  pub after : List Job
  pub rows : js ≡ before ++ j ∷ after
  pub earlier : All (λ k. p k ≡ false) before
  pub holds : p j ≡ true

find-IsFirst : (p : Job → Bool) (js : List Job) (j : Job) → find p js ≡ some j → IsFirst p js j
unfolding find
find-IsFirst p [] j h = absurd (cc)
find-IsFirst p (k ∷ js) j h = elim (Bool-cases (p k)) [
  | inl e ↦
      let same : k ≡ j = ground arith in
      record { before = []; after = js; rows = rw same; earlier = tt; holds = rw same at e }
  | inr e ↦
      let ih = find-IsFirst p js j (ground arith) in
      record {
        before = k ∷ ih.before;
        after = ih.after;
        rows = ap (λ l. k ∷ l) ih.rows;
        earlier = (e, ih.earlier);
        holds = ih.holds;
      }
]

find-none : (p : Job → Bool) (js : List Job) → find p js ≡ none → All (λ k. p k ≡ false) js
unfolding find
find-none p [] h = tt
find-none p (k ∷ js) h = (ground arith, find-none p js (ground arith))

-- A claim that takes a job: it is the oldest row that can be claimed, its row is started and no
-- other row changes, and the caller gets the job as running with one attempt more.
pub record IsClaim (now : ℕ) (type : String) (t t' : Jobs) (job : Job) : Type 0 where
  pub row : Job
  pub oldest : IsFirst (can_claim now type) t.rows row
  pub rows : t'.rows ≡ oldest.before ++ start_row now row ∷ oldest.after
  pub next_id : t'.next_id ≡ t.next_id
  pub claimed : job ≡ record row { status = status_running; attempts = row.attempts + 1 }

module _ (now : ℕ) (type : String) (t : Jobs) (h : IsWellFormed t) where
  IsClaim-some :
      (row : Job)
      → find (can_claim now type) t.rows ≡ some row
      → IsClaim now type t
          (update (has_id row.id) (start_row now) t)
          (record row { status = status_running; attempts = row.attempts + 1 })
  IsClaim-some row e =
      let first = find-IsFirst (can_claim now type) t.rows row e in
      record {
        row = row;
        oldest = first;
        rows =
            ap (update_rows (has_id row.id) (start_row now)) first.rows
            ∙ (update_rows-at (start_row now) 0 first.before row first.after t.next_id
                (rw first.rows at h)).1;
        next_id = refl;
        claimed = refl;
      }

  -- In a well-formed table, a claim either finds no job that can be claimed and changes nothing, or
  -- takes the oldest one, starts its row and leaves the other rows as they were.
  pub claim_next_lem :
      ((claim_next now type t ≡ (t, none)) × All (λ j. can_claim now type j ≡ false) t.rows)
      ⊎ ((t' : Jobs) × (job : Job) × (claim_next now type t ≡ (t', some job))
          × IsClaim now type t t' job)
  unfolding claim_next
  claim_next_lem = elim (Option-cases (find (can_claim now type) t.rows)) [
    | inl e ↦ inl (rw (e, claim_next), find-none (can_claim now type) t.rows e)
    | inr (row, e) ↦ inr (_, _, rw (e, claim_next), IsClaim-some row e)
  ]

  pub claim_next-IsClaim :
      (t' : Jobs) (job : Job) → claim_next now type t ≡ (t', some job) → IsClaim now type t t' job
  claim_next-IsClaim t' job e = elim claim_next_lem [
    | inl (none_left, _) ↦ absurd (cc)
    | inr (u, k, f, c) ↦
        let tables : u ≡ t' = cc in
        let jobs : k ≡ job = cc in subst₂ (λ x y. IsClaim now type t x y) tables jobs c
  ]
