-- ===== src/Jobs/States.antt =====
-- Which changes of a job's status the statements of internal/store/jobs.go make.
use Prim.Native.String.{String}
use text.Mathlib.Text.{◌==◌ as str_eq}
use text.Mathlib.TextEquality.{eq_iff}
use sigarda_panel.Common.{
  ℕ, ◌≡◌, refl, Bool, true, false, ◌==◌, List, [], ◌∷◌, ◌++◌, Option, arith, Bool-cases, ◌⊎◌, inl,
  inr, &&-split,
}
use sigarda_panel.Jobs.Model.{Job, status_queued, status_running, status_failed, status_canceled}
use sigarda_panel.Jobs.Table.{
  Jobs, update_rows, create, claim_next, cancel, set_error, set_result, mark_started,
  cleanup_stuck_running, scrub_terminal_payloads, start_row, can_claim,
}
use sigarda_panel.Jobs.Claim.{IsWellFormed, claim_next_lem}
use sigarda_panel.Jobs.Invariant.{
  Statement, created, claimed, status_set, canceled, error_set, result_set, started, retried,
  completed, cleaned, scrubbed, execute,
}

-- The statements that set a status whatever it was before.
abbrev pub is_unguarded : Statement → Bool
is_unguarded (status_set id s) = true
is_unguarded (retried id at) = true
is_unguarded (completed id ok r m) = true
is_unguarded _ = false

-- The status stays, or a queued job is started or canceled, or a running one fails.
abbrev pub Moves : String → String → Type 0
Moves before after =
    (after ≡ before)
    ⊎ ((before ≡ status_queued) × ((after ≡ status_running) ⊎ (after ≡ status_canceled)))
    ⊎ ((before ≡ status_running) × (after ≡ status_failed))

-- Row for row, each job keeps its id, and its status moves; rows may be added behind.
abbrev pub Steps : List Job → List Job → Type 0
Steps [] after = Unit
Steps (j ∷ js) [] = ⊥
Steps (j ∷ js) (k ∷ ks) = (k.id ≡ j.id) × Moves j.status k.status × Steps js ks

Steps-append : (js more : List Job) → Steps js (js ++ more)
Steps-append [] more = tt
Steps-append (j ∷ js) more = (refl, inl refl, Steps-append js more)

Steps-refl : (js : List Job) → Steps js js
Steps-refl [] = tt
Steps-refl (i ∷ js) = (refl, inl refl, Steps-refl js)

Steps-row :
    (before : List Job) (j k : Job) (after : List Job)
    → k.id ≡ j.id
    → Moves j.status k.status
    → Steps (before ++ j ∷ after) (before ++ k ∷ after)
Steps-row [] j k after e m = (e, m, Steps-refl after)
Steps-row (i ∷ before) j k after e m = (refl, inl refl, Steps-row before j k after e m)

Steps-update :
    (p : Job → Bool) (f : Job → Job) (js : List Job)
    → ((j : Job) → p j ≡ true → ((f j).id ≡ j.id) × Moves j.status (f j).status)
    → Steps js (update_rows p f js)
unfolding update_rows
Steps-update p f [] h = tt
Steps-update p f (j ∷ js) h = elim (Bool-cases (p j)) [
  | inl e ↦ rw e ((h j e).0, (h j e).1, Steps-update p f js h)
  | inr e ↦ rw e (refl, inl refl, Steps-update p f js h)
]

claimable :
    (now : ℕ) (type : String) (j : Job) → can_claim now type j ≡ true → j.status ≡ status_queued
unfolding can_claim
claimable now type j h =
    let queued : str_eq j.status status_queued ≡ true = ground arith in
    (eq_iff j.status status_queued).0 queued

claim_next-Steps :
    (now : ℕ) (type : String) (t : Jobs)
    → IsWellFormed t
    → Steps t.rows (claim_next now type t).0.rows
claim_next-Steps now type t h = elim (claim_next_lem now type t h) [
  | inl (e, nothing) ↦ rw e (Steps-refl t.rows)
  | inr (t', job, e, c) ↦
      rw (e, c.rows, c.oldest.rows)
        (Steps-row c.oldest.before c.row (start_row now c.row) c.oldest.after
          (unfold start_row in refl)
          (unfold start_row in (inr (inl (claimable now type c.row c.oldest.holds, inl refl)))))
]

-- In a well-formed table, every statement but UpdateStatus, ScheduleRetry and MarkCompleted keeps each
-- job's place and id, and leaves its status but that a queued job can be started or canceled, and a
-- running one fail: a job that is over keeps its status.
pub execute-Steps :
    (encrypt : String → Option String) (now : ℕ) (s : Statement) (t : Jobs)
    → is_unguarded s ≡ false
    → IsWellFormed t
    → Steps t.rows (execute encrypt now s t).rows
unfolding execute create cancel set_error set_result mark_started cleanup_stuck_running
    scrub_terminal_payloads
execute-Steps encrypt now (created j) t g h = Steps-append t.rows _
execute-Steps encrypt now (claimed type) t g h = claim_next-Steps now type t h
execute-Steps encrypt now (status_set id s) t g h = absurd (cc)
execute-Steps encrypt now (canceled id) t g h = Steps-update _ _ t.rows (λ j e.
    (refl, inr (inl ((eq_iff j.status status_queued).0 (&&-split (j.id == id) _ e).1, inr refl))))
execute-Steps encrypt now (error_set id m) t g h = Steps-update _ _ t.rows (λ j e. (refl, inl refl))
execute-Steps encrypt now (result_set id m) t g h =
    Steps-update _ _ t.rows (λ j e. (refl, inl refl))
execute-Steps encrypt now (started id) t g h = Steps-update _ _ t.rows (λ j e. (refl, inl refl))
execute-Steps encrypt now (retried id at) t g h = absurd (cc)
execute-Steps encrypt now (completed id ok r m) t g h = absurd (cc)
execute-Steps encrypt now (cleaned is_before n) t g h =
    Steps-update _ _ t.rows
      (λ j e. (refl, inr (inr ((eq_iff j.status status_running).0 (&&-split _ _ e).0, refl))))
execute-Steps encrypt now (scrubbed n) t g h = Steps-update _ _ t.rows (λ j e. (refl, inl refl))
