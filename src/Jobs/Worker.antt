-- ===== src/Jobs/Worker.antt =====
-- internal/jobs/worker.go: one round of the worker. Every step gives the table of jobs and the
-- effects on the rest; `now` is time.Now() in nanoseconds.
use Prim.Native.String.{String}
use text.Mathlib.Text.{◌==◌ as str_eq}
use sigarda_panel.Common.{
  ℕ, zero, suc, ◌+◌, ◌*◌, ◌-◌, ◌/◌, true, false, List, [], ◌∷◌, ◌++◌, Option, none, some,
  if◌then◌else◌, ltb, leb,
}
use sigarda_panel.Jobs.Model.{Job, status_queued, type_backup_create}
use sigarda_panel.Jobs.Table.{
  Jobs, create, claim_next, schedule_retry, set_error, mark_completed, is_backup_type,
  count_running_by_server,
}
use sigarda_panel.Jobs.Backoff.{default_backoff, delay}
use sigarda_panel.Jobs.Outside.{
  AgentResult, Outcome, returned, failed, panicked, Server, AgentError, server_not_found,
  no_agent_token, no_agent_url, Outside, Effect, update_progress, update_backup_status,
  mark_backup_failed, notify, dispatch,
}
use sigarda_panel.Jobs.Success

abbrev pub seconds : ℕ → ℕ
seconds ns = ns / 1_000_000_000

-- The id of the backup that a backup job is about; 0 where there is none.
unfoldable pub backup_of : Outside → Job → ℕ
backup_of o job = if is_backup_type job.type then o.backup_id job.payload else 0

-- The effects that mention a backup, if there is one.
abbrev pub if_backup : ℕ → (ℕ → List Effect) → List Effect
if_backup zero es = []
if_backup (suc id) es = es (suc id)

unfoldable pub announce : Outside → Job → List Effect
announce o job =
    if_backup (backup_of o job)
      (λ id. update_progress id "archiving..." ∷ update_backup_status id "running" ∷ [])

-- How many backup jobs run on the job's server; 0 where the limit does not apply.
unfoldable pub backups_running : Job → Jobs → ℕ
backups_running job t =
    if is_backup_type job.type
    then elim job.server_id [
      | none ↦ 0
      | some server ↦ if ltb 0 server then count_running_by_server server t else 0
    ]
    else 0

abbrev pub max_concurrent_backups : ℕ
max_concurrent_backups = 1

-- The requeue, (running - max + 1) times half a minute later.
unfoldable pub requeue_busy : ℕ → ℕ → Job → Jobs → Jobs
requeue_busy now running job =
    schedule_retry (seconds now) job.id
      (seconds (now + (running - max_concurrent_backups + 1) * 30 * 1_000_000_000))

check_server : ℕ → Option Server → Option AgentError
check_server id none = some (server_not_found id)
check_server id (some s) =
    if str_eq s.agent_token ""
    then some (no_agent_token s.id)
    else if str_eq s.agent_url ""
    then some (no_agent_url s.id)
    else none

-- The error of agentForJob; without a server the worker's own agent serves.
unfoldable pub agent_error : Outside → Job → Option AgentError
unfolding check_server
agent_error o job = elim job.server_id [
  | none ↦ none
  | some id ↦ if ltb 0 id then check_server id (o.get_server id) else none
]

-- ScheduleRetry and SetError after a failure that may be retried.
unfoldable pub retry_later : Outside → ℕ → Job → String → Jobs → Jobs
retry_later o now job message t =
    let retry_at = seconds (now + delay default_backoff o.jitter job.attempts) in
    set_error (seconds now) job.id message (schedule_retry (seconds now) job.id retry_at t)

fail_backup : Outside → Job → String → List Effect
fail_backup o job message = if_backup (backup_of o job) (λ id. mark_backup_failed id message ∷ [])

unfoldable pub agent_unavailable : Outside → ℕ → Job → String → Jobs → Jobs × List Effect
unfolding fail_backup
agent_unavailable o now job message t =
    if ltb job.attempts job.max_attempts then (retry_later o now job message t, []) else (
      mark_completed (seconds now) job.id false "" message t,
      fail_backup o job message ++ notify "error" "Job failed" ∷ [],
    )

failover_job : Job → String → Job
failover_job job payload = record job {
  type = type_backup_create;
  status = status_queued;
  payload = payload;
  description = "";
  max_attempts = 1;
}

-- A backup that failed for good with cloud storage is tried once more with local storage.
unfoldable pub failover : Outside → ℕ → Job → Jobs → Jobs
unfolding failover_job
failover o now job t =
    if str_eq job.type type_backup_create
    then elim (o.failover_payload job.payload) [
      | none ↦ t
      | some payload ↦ (create o.encrypt_payload (seconds now) (failover_job job payload) t).0
    ]
    else t

unfoldable pub execution_failed :
    Outside → ℕ → Job → Option AgentResult → String → Jobs → Jobs × List Effect
unfolding fail_backup
execution_failed o now job result message t =
    if ltb job.attempts job.max_attempts then (retry_later o now job message t, []) else (
      failover o now job
          (mark_completed (seconds now) job.id false (o.marshal_result result) message t),
      fail_backup o job message ++ notify "error" "Job failed permanently" ∷ [],
    )

unfoldable pub dispatched : Outside → ℕ → Job → Outcome → Jobs → Jobs × List Effect
dispatched o now job (failed result message) t = execution_failed o now job result message t
dispatched o now job (panicked value) t = (
  mark_completed (seconds now) job.id false "" (o.panic_text value) t,
  notify "error" "Job panicked" ∷ [],
)
dispatched o now job (returned result) t =
    Success.succeeded o now job result
      (mark_completed (seconds now) job.id true (o.marshal_result result) "" t)

-- The payload as the agent gets it: decrypted, or as it is where that fails.
unfoldable pub dispatch_payload : Outside → Job → String
dispatch_payload o job = elim (o.decrypt_payload job.payload) [ none ↦ job.payload | some p ↦ p ]

unfoldable pub execute_job : Outside → ℕ → Job → Jobs → Jobs × List Effect
unfolding dispatch_payload
execute_job o now job t =
    let payload : String = dispatch_payload o job in
    let (t', es) = dispatched o now job (o.execute job.type payload) t in
    (t', dispatch job.type payload ∷ es)

unfoldable pub with_agent : Outside → ℕ → Job → Option AgentError → Jobs → Jobs × List Effect
with_agent o now job (some e) t = agent_unavailable o now job (o.error_text e) t
with_agent o now job none t = execute_job o now job t

unfoldable pub run_claimed_job : Outside → ℕ → Job → Jobs → Jobs × List Effect
unfolding with_agent
run_claimed_job o now job t =
    let running = backups_running job t in
    let (t', es) = with_agent o now job (agent_error o job) t in
    if leb max_concurrent_backups running
    then (requeue_busy now running job t, announce o job)
    else (t', announce o job ++ es)

unfoldable pub run_if_claimed : Outside → ℕ → Jobs → Option Job → Jobs × List Effect
run_if_claimed o now t none = (t, [])
run_if_claimed o now t (some job) = run_claimed_job o now job t

-- One tick of the worker's loop.
unfoldable pub process_one : Outside → ℕ → Jobs → Jobs × List Effect
unfolding run_if_claimed
process_one o now t =
    let (t', claimed) = claim_next (seconds now) "" t in run_if_claimed o now t' claimed
