-- ===== src/Jobs/Invariant.antt =====
-- Well-formed tables under the statements of internal/store/jobs.go and under rounds of the worker.
use Prim.Native.String.{String}
use text.Mathlib.Text.{◌==◌ as str_eq}
use sigarda_panel.Common.{
  ℕ, suc, ◌≡◌, refl, Bool, List, [], ◌∷◌, ◌++◌, Option, none, some, ltb, leb, arith, Bool-cases,
  Option-cases, inl, inr,
}
use sigarda_panel.Jobs.Model.{Job, type_backup_create}
use sigarda_panel.Jobs.Table.{
  Jobs, update, create, claim_next, update_status, cancel, set_error, set_result, mark_started,
  schedule_retry, mark_completed, cleanup_stuck_running, scrub_terminal_payloads, find, start_row,
  can_claim, has_id,
}
use sigarda_panel.Jobs.Outside.{
  Outside, Outcome, AgentResult, returned, failed, panicked, AgentError,
}
use sigarda_panel.Jobs.Success.{succeeded, site_created, if_site_created, enqueue_ssl}
use sigarda_panel.Jobs.Worker.{
  process_one, run_claimed_job, retry_later, requeue_busy, failover, agent_unavailable,
  execution_failed, dispatched, execute_job, with_agent, run_if_claimed, backups_running,
  agent_error, max_concurrent_backups, seconds,
}
use sigarda_panel.Jobs.Claim.{IsOrdered, IsWellFormed, update_rows-IsOrdered}

IsOrdered-append :
    (low : ℕ) (js : List Job) (high : ℕ) (j : Job)
    → j.id ≡ high
    → IsOrdered low js high
    → IsOrdered low (js ++ j ∷ []) (suc high)
IsOrdered-append low [] high j e h = (omega arith, omega arith)
IsOrdered-append low (k ∷ js) high j e h = (h.0, IsOrdered-append (suc k.id) js high j e h.1)

pub create-IsWellFormed :
    (encrypt : String → Option String) (now : ℕ) (j : Job) (t : Jobs)
    → IsWellFormed t
    → IsWellFormed (create encrypt now j t).0
unfolding create
create-IsWellFormed encrypt now j t h = IsOrdered-append 0 t.rows t.next_id _ refl h

update-IsWellFormed :
    (p : Job → Bool) (f : Job → Job) (t : Jobs)
    → ((j : Job) → (f j).id ≡ j.id)
    → IsWellFormed t
    → IsWellFormed (update p f t)
update-IsWellFormed p f t keeps h = update_rows-IsOrdered p f keeps 0 t.rows t.next_id h

-- A statement that changes the table.
pub data Statement : Type 0 where
  created : Job → Statement
  claimed : String → Statement
  status_set : ℕ → String → Statement
  canceled : ℕ → Statement
  error_set result_set : ℕ → String → Statement
  started : ℕ → Statement
  retried : ℕ → ℕ → Statement
  completed : ℕ → Bool → String → String → Statement
  cleaned : (ℕ → ℕ → Bool) → ℕ → Statement
  scrubbed : ℕ → Statement

unfoldable pub execute : (String → Option String) → ℕ → Statement → Jobs → Jobs
execute encrypt now (created j) t = (create encrypt now j t).0
execute encrypt now (claimed type) t = (claim_next now type t).0
execute encrypt now (status_set id s) t = update_status now id s t
execute encrypt now (canceled id) t = cancel now id t
execute encrypt now (error_set id m) t = set_error now id m t
execute encrypt now (result_set id r) t = set_result now id r t
execute encrypt now (started id) t = mark_started now id t
execute encrypt now (retried id at) t = schedule_retry now id at t
execute encrypt now (completed id ok r m) t = mark_completed now id ok r m t
execute encrypt now (cleaned is_before stale) t = (cleanup_stuck_running is_before now stale t).0
execute encrypt now (scrubbed older) t = (scrub_terminal_payloads now older t).0

claim_next-IsWellFormed :
    (now : ℕ) (type : String) (t : Jobs) → IsWellFormed t → IsWellFormed (claim_next now type t).0
unfolding claim_next start_row
claim_next-IsWellFormed now type t h = elim (Option-cases (find (can_claim now type) t.rows)) [
  | inl e ↦ rw (e, claim_next) h
  | inr (j, e) ↦ rw (e, claim_next) (update-IsWellFormed (has_id j.id) _ t (λ k. refl) h)
]

-- Every statement keeps a table well formed: ids are unique, in the order of creation, and below the
-- next id.
pub execute-IsWellFormed :
    (encrypt : String → Option String) (now : ℕ) (s : Statement) (t : Jobs)
    → IsWellFormed t
    → IsWellFormed (execute encrypt now s t)
unfolding execute update_status cancel set_error set_result mark_started schedule_retry
    mark_completed cleanup_stuck_running scrub_terminal_payloads
execute-IsWellFormed encrypt now (created j) t h = create-IsWellFormed encrypt now j t h
execute-IsWellFormed encrypt now (claimed type) t h = claim_next-IsWellFormed now type t h
execute-IsWellFormed encrypt now (status_set id s) t h = update-IsWellFormed _ _ t (λ k. refl) h
execute-IsWellFormed encrypt now (canceled id) t h = update-IsWellFormed _ _ t (λ k. refl) h
execute-IsWellFormed encrypt now (error_set id m) t h = update-IsWellFormed _ _ t (λ k. refl) h
execute-IsWellFormed encrypt now (result_set id m) t h = update-IsWellFormed _ _ t (λ k. refl) h
execute-IsWellFormed encrypt now (started id) t h = update-IsWellFormed _ _ t (λ k. refl) h
execute-IsWellFormed encrypt now (retried id at) t h = update-IsWellFormed _ _ t (λ k. refl) h
execute-IsWellFormed encrypt now (completed id ok r m) t h = update-IsWellFormed _ _ t (λ k. refl) h
execute-IsWellFormed encrypt now (cleaned is_before n) t h = update-IsWellFormed _ _ t (λ k. refl) h
execute-IsWellFormed encrypt now (scrubbed n) t h = update-IsWellFormed _ _ t (λ k. refl) h

module _ (o : Outside) (now : ℕ) (job : Job) where
  -- The worker creates jobs and updates rows by id.
  site_created-IsWellFormed :
      (id : ℕ) (result : Option AgentResult) (t : Jobs)
      → IsWellFormed t
      → IsWellFormed (site_created o now id result t).0
  unfolding site_created enqueue_ssl
  site_created-IsWellFormed id result t h = elim (Option-cases (o.get_site id)) [
    | inl e ↦ rw e h
    | inr (site, e) ↦ rw e (elim (Bool-cases (str_eq site.domain "")) [
      | inl z ↦ rw z h
      | inr z ↦ rw z (create-IsWellFormed o.encrypt_payload _ _ t h)
    ])
  ]

  for_site-IsWellFormed :
      (site : Option ℕ) (result : Option AgentResult) (t : Jobs)
      → IsWellFormed t
      → IsWellFormed (if_site_created o now site result t).0
  unfolding if_site_created
  for_site-IsWellFormed none result t h = h
  for_site-IsWellFormed (some id) result t h = site_created-IsWellFormed id result t h

  succeeded-IsWellFormed :
      (result : Option AgentResult) (t : Jobs)
      → IsWellFormed t
      → IsWellFormed (succeeded o now job result t).0
  unfolding succeeded
  succeeded-IsWellFormed result t h = ground (arith, for_site-IsWellFormed job.site_id result t h)

  failover-IsWellFormed : (t : Jobs) → IsWellFormed t → IsWellFormed (failover o now job t)
  unfolding failover
  failover-IsWellFormed t h = elim (Bool-cases (str_eq job.type type_backup_create)) [
    | inl z ↦ elim (Option-cases (o.failover_payload job.payload)) [
      | inl e ↦ rw (z, e, failover) h
      | inr (p, e) ↦ rw (z, e, failover) (create-IsWellFormed o.encrypt_payload _ _ t h)
    ]
    | inr z ↦ rw (z, failover) h
  ]

  completed-IsWellFormed :
      (at : ℕ) (success : Bool) (result message : String) (t : Jobs)
      → IsWellFormed t
      → IsWellFormed (mark_completed at job.id success result message t)
  unfolding mark_completed
  completed-IsWellFormed at success result message t h = update-IsWellFormed _ _ t (λ k. refl) h

  retry_later-IsWellFormed :
      (message : String) (t : Jobs)
      → IsWellFormed t
      → IsWellFormed (retry_later o now job message t)
  unfolding retry_later schedule_retry set_error
  retry_later-IsWellFormed message t h =
      update-IsWellFormed _ _ _ (λ k. refl) (update-IsWellFormed _ _ t (λ k. refl) h)

  dispatched-IsWellFormed :
      (outcome : Outcome) (t : Jobs)
      → IsWellFormed t
      → IsWellFormed (dispatched o now job outcome t).0
  unfolding dispatched execution_failed
  dispatched-IsWellFormed (returned result) t h =
      succeeded-IsWellFormed result _ (completed-IsWellFormed _ _ _ _ t h)
  dispatched-IsWellFormed (failed result message) t h =
      elim (Bool-cases (ltb job.attempts job.max_attempts)) [
        | inl z ↦ rw z (retry_later-IsWellFormed message t h)
        | inr z ↦ rw z (failover-IsWellFormed _ (completed-IsWellFormed _ _ _ _ t h))
      ]
  dispatched-IsWellFormed (panicked value) t h = completed-IsWellFormed _ _ _ _ t h

  with_agent-IsWellFormed :
      (e : Option AgentError) (t : Jobs)
      → IsWellFormed t
      → IsWellFormed (with_agent o now job e t).0
  unfolding with_agent agent_unavailable execute_job
  with_agent-IsWellFormed none t h = dispatched-IsWellFormed _ t h
  with_agent-IsWellFormed (some e) t h = elim (Bool-cases (ltb job.attempts job.max_attempts)) [
    | inl z ↦ rw z (retry_later-IsWellFormed _ t h)
    | inr z ↦ rw z (completed-IsWellFormed _ _ _ _ t h)
  ]

  run_claimed_job-IsWellFormed :
      (t : Jobs) → IsWellFormed t → IsWellFormed (run_claimed_job o now job t).0
  unfolding run_claimed_job requeue_busy schedule_retry
  run_claimed_job-IsWellFormed t h =
      elim (Bool-cases (leb max_concurrent_backups (backups_running job t))) [
        | inl z ↦ rw z (update-IsWellFormed _ _ t (λ k. refl) h)
        | inr z ↦ rw z (with_agent-IsWellFormed (agent_error o job) t h)
      ]

run_if_claimed-IsWellFormed :
    (o : Outside) (now : ℕ) (t : Jobs) (claimed : Option Job)
    → IsWellFormed t
    → IsWellFormed (run_if_claimed o now t claimed).0
unfolding run_if_claimed
run_if_claimed-IsWellFormed o now t none h = h
run_if_claimed-IsWellFormed o now t (some job) h = run_claimed_job-IsWellFormed o now job t h

-- Whatever the agent answers, a round of the worker keeps a well-formed table well formed.
pub process_one-IsWellFormed :
    (o : Outside) (now : ℕ) (t : Jobs) → IsWellFormed t → IsWellFormed (process_one o now t).0
unfolding process_one
process_one-IsWellFormed o now t h =
    run_if_claimed-IsWellFormed o now _ _ (claim_next-IsWellFormed (seconds now) "" t h)
