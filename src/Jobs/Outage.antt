-- ===== src/Jobs/Outage.antt =====
-- What becomes of a job of internal/jobs/worker.go while its agent keeps failing.
use Prim.Native.String.{String}
use text.Mathlib.Text.{◌==◌ as str_eq}
use sigarda_panel.Common.{
  ℕ, Bool, zero, suc, ◌+◌, ◌≤◌, ◌<◌, ◌≡◌, refl, sym, ap, ◌∙◌, true, false, [], ◌∷◌, Option, none,
  some, ltb, leb, ◌==◌, arith,
}
use sigarda_panel.Jobs.Model.{Job, status_queued, status_failed, type_backup_create}
use sigarda_panel.Jobs.Table.{
  Jobs, update_rows, update, has_id, null_string, can_claim, is_due, start_row, claim_next, find,
  schedule_retry, set_error, mark_completed, is_backup_type,
}
use sigarda_panel.Jobs.Backoff.{default_backoff, delay, delay_lem}
use sigarda_panel.Jobs.Outside.{Outside, AgentResult, failed, AgentError}
use sigarda_panel.Jobs.Worker.{
  seconds, backups_running, agent_error, retry_later, agent_unavailable, failover, execution_failed,
  dispatched, dispatch_payload, execute_job, with_agent, run_claimed_job, run_if_claimed,
  process_one,
}

-- The agent fails whatever it is asked.
abbrev pub IsDown : Outside → Type 0
IsDown o =
    (type payload : String)
    → (result : Option AgentResult) × (message : String) × (o.execute type payload
        ≡ failed result message)

module _ (o : Outside) (down : IsDown o) (now : ℕ) (job : Job) (t : Jobs) where
  with_agent-retry :
      (e : Option AgentError)
      → ltb job.attempts job.max_attempts ≡ true
      → (message : String) × ((with_agent o now job e t).0 ≡ retry_later o now job message t)
  unfolding with_agent agent_unavailable execute_job dispatched execution_failed
  with_agent-retry (some e) left = (o.error_text e, rw left refl)
  with_agent-retry none left =
      let (result, message, fails) = down job.type (dispatch_payload o job) in
      (message, rw fails (rw left refl))

  with_agent-last :
      (e : Option AgentError)
      → ltb job.attempts job.max_attempts ≡ false
      → str_eq job.type type_backup_create ≡ false
      → (result message : String) × ((with_agent o now job e t).0
          ≡ mark_completed (seconds now) job.id false result message t)
  unfolding with_agent agent_unavailable execute_job dispatched execution_failed failover
  with_agent-last (some e) last plain = ("", o.error_text e, rw last refl)
  with_agent-last none last plain =
      let (result, message, fails) = down job.type (dispatch_payload o job) in
      (o.marshal_result result, message, rw fails (rw last (rw plain refl)))

run_claimed_job-free :
    (o : Outside) (now : ℕ) (job : Job) (t : Jobs)
    → is_backup_type job.type ≡ false
    → (run_claimed_job o now job t).0 ≡ (with_agent o now job (agent_error o job) t).0
unfolding run_claimed_job backups_running
run_claimed_job-free o now job t other = rw other refl

abbrev one : Job → ℕ → Jobs
one row next = record { rows = row ∷ []; next_id = next }

abbrev claimed : Job → Job
claimed row = record row { status = "running"; attempts = row.attempts + 1 }

update-one :
    (f : Job → Job) (id : ℕ) (row : Job) (next : ℕ)
    → id ≡ row.id
    → update (has_id id) f (one row next) ≡ one (f row) next
unfolding update_rows
update-one f id row next same = let test : (row.id == id) ≡ true = ground arith in rw test refl

find-one : (p : Job → Bool) (row : Job) → p row ≡ true → find p (row ∷ []) ≡ some row
unfolding find
find-one p row h = rw h refl

can_claim-queued :
    (now : ℕ) (row : Job)
    → row.status ≡ status_queued
    → is_due now row.next_retry_at ≡ true
    → can_claim now "" row ≡ true
unfolding can_claim
can_claim-queued now row queued due =
    let test : str_eq row.status status_queued ≡ true = ap (λ s. str_eq s status_queued) queued in
    rw (test, due) refl

claim_next-one :
    (now : ℕ) (row : Job) (next : ℕ)
    → row.status ≡ status_queued
    → is_due now row.next_retry_at ≡ true
    → claim_next now "" (one row next) ≡ (one (start_row now row) next, some (claimed row))
unfolding claim_next
claim_next-one now row next queued due =
    let taken = find-one (can_claim now "") row (can_claim-queued now row queued due) in
    rw (claim_next, taken, update-one (start_row now) row.id row next refl) refl

-- A round that claims the only job, up to the answer of its agent.
process_one-one :
    (o : Outside) (now : ℕ) (row : Job) (next : ℕ)
    → row.status ≡ status_queued
    → is_due (seconds now) row.next_retry_at ≡ true
    → is_backup_type row.type ≡ false
    → (process_one o now (one row next)).0
      ≡ (with_agent o now
          (claimed row)
          (agent_error o (claimed row))
          (one (start_row (seconds now) row) next)).0
unfolding process_one run_if_claimed
process_one-one o now row next queued due other =
    rw (claim_next-one (seconds now) row next queued due)
      (run_claimed_job-free o now (claimed row) (one (start_row (seconds now) row) next) other)

-- The only job of a table, waiting for an attempt.
record IsWaiting (now attempts most : ℕ) (row : Job) : Type 0 where
  queued : row.status ≡ status_queued
  due : is_due (seconds now) row.next_retry_at ≡ true
  other : is_backup_type row.type ≡ false
  tried : row.attempts ≡ attempts
  limit : row.max_attempts ≡ most

-- A retry is due five minutes later, and one second for the random part and the rounding.
retry-due :
    (random attempts now later : ℕ)
    → random < 500_000_000
    → now + 301_000_000_000 ≤ later
    → leb (seconds (now + delay default_backoff random attempts)) (seconds later) ≡ true
retry-due random attempts now later small spaced =
    let d = delay_lem random attempts in
    let bound : delay default_backoff random attempts ≤ 301_000_000_000 = ground (arith, d) in
    ground arith

retry_later-one :
    (o : Outside) (now : ℕ) (job row : Job) (message : String) (next : ℕ)
    → job.id ≡ row.id
    → (row' : Job) × (retry_later o now job message (one row next) ≡ one row' next)
      × (row'.status ≡ status_queued)
      × (row'.next_retry_at ≡ some (seconds (now + delay default_backoff o.jitter job.attempts)))
      × (row'.type ≡ row.type)
      × (row'.attempts ≡ row.attempts)
      × (row'.max_attempts ≡ row.max_attempts)
unfolding retry_later schedule_retry set_error
retry_later-one o now job row message next same =
    let at = seconds (now + delay default_backoff o.jitter job.attempts) in
    let queued : Job = record row {
      status = status_queued;
      next_retry_at = some at;
      updated_at = seconds now;
    } in
    let row' : Job = record queued { error = null_string message; updated_at = seconds now } in
    let wait = λ (j : Job). record j {
      status = status_queued;
      next_retry_at = some at;
      updated_at = seconds now;
    } in
    let set = λ (j : Job). record j { error = null_string message; updated_at = seconds now } in
    (
      row',
      ap (update (has_id job.id) set) (update-one wait job.id row next same)
          ∙ update-one set job.id queued next same,
      refl,
      refl,
      refl,
      refl,
      refl,
    )

-- A round in which a try is left.
round-retry :
    (o : Outside) (now later attempts most : ℕ) (row : Job) (next : ℕ)
    → IsDown o
    → o.jitter < 500_000_000
    → now + 301_000_000_000 ≤ later
    → suc attempts < most
    → IsWaiting now attempts most row
    → (row' : Job) × ((process_one o now (one row next)).0 ≡ one row' next)
      × IsWaiting later (suc attempts) most row'
unfolding start_row
round-retry o now later attempts most row next down small spaced left h =
    let started = start_row (seconds now) row in
    let job = claimed row in
    let test : ltb (row.attempts + 1) row.max_attempts ≡ true =
      rw (h.tried, h.limit) (ground arith) in
    let (message, e) =
      with_agent-retry o down now job (one started next) (agent_error o job) test in
    let (row', f, queued, retry_at, type, tries, limit) =
      retry_later-one o now job started message next refl in
    (
      row',
      process_one-one o now row next h.queued h.due h.other ∙ e ∙ f,
      record {
        queued = queued;
        due = rw retry_at (retry-due o.jitter job.attempts now later small spaced);
        other = rw type h.other;
        tried =
            tries ∙ (let step : row.attempts + 1 ≡ suc attempts = omega (arith, h.tried) in step);
        limit = limit ∙ h.limit;
      },
    )

-- The round of the last try.
round-last :
    (o : Outside) (now attempts most : ℕ) (row : Job) (next : ℕ)
    → IsDown o
    → suc attempts ≡ most
    → IsWaiting now attempts most row
    → (row' : Job) × ((process_one o now (one row next)).0 ≡ one row' next)
      × (row'.status ≡ status_failed)
      × (row'.attempts ≡ most)
unfolding start_row mark_completed is_backup_type
round-last o now attempts most row next down last h =
    let started = start_row (seconds now) row in
    let job = claimed row in
    let test : ltb (row.attempts + 1) row.max_attempts ≡ false =
      rw (h.tried, h.limit) (ground arith) in
    let plain : str_eq row.type type_backup_create ≡ false = let k = h.other in ground arith in
    let (result, message, e) =
      with_agent-last o down now job (one started next) (agent_error o job) test plain in
    let step : row.attempts + 1 ≡ most = omega (arith, h.tried, last) in
    (
      _,
      process_one-one o now row next h.queued h.due h.other
          ∙ e
          ∙ update-one _ row.id started next refl,
      refl,
      step,
    )

-- Rounds at the given times.
unfoldable pub rounds : Outside → (ℕ → ℕ) → ℕ → Jobs → Jobs
rounds o times zero t = t
rounds o times (suc n) t = rounds o (λ i. times (suc i)) n (process_one o (times 0) t).0

-- What the table holds in the end: the one job, failed, with all its tries used.
pub record IsFailed (most next : ℕ) (t : Jobs) : Type 0 where
  pub row : Job
  pub rows : t ≡ record { rows = row ∷ []; next_id = next }
  pub status : row.status ≡ status_failed
  pub tries : row.attempts ≡ most

rounds-IsFailed :
    (o : Outside) (times : ℕ → ℕ) (left attempts : ℕ) (row : Job) (next : ℕ)
    → IsDown o
    → o.jitter < 500_000_000
    → ((i : ℕ) → times i + 301_000_000_000 ≤ times (suc i))
    → IsWaiting (times 0) attempts (attempts + suc left) row
    → IsFailed (attempts + suc left) next (rounds o times (suc left) (one row next))
unfolding rounds
rounds-IsFailed o times zero attempts row next down small spaced h =
    let (row', e, status, tries) =
      round-last o (times 0) attempts (attempts + 1) row next down (omega arith) h in
    record { row = row'; rows = e; status = status; tries = tries }
rounds-IsFailed o times (suc left) attempts row next down small spaced h =
    let (row', e, waiting) =
      round-retry o (times 0) (times 1) attempts (attempts + suc (suc left)) row next down small
        (spaced 0) (omega arith) h in
    let sum : attempts + suc (suc left) ≡ suc attempts + suc left = omega arith in
    rw (e, sum)
      (rounds-IsFailed o (λ i. times (suc i)) left (suc attempts) row' next down small
        (λ i. spaced (suc i)) (rw sum at waiting))

-- While its agent fails, a job does not wait for ever: a queued job that is alone in the table and no
-- backup, with no retry set and tries left, is marked failed after as many rounds as it has tries left,
-- with all tries used, when the rounds are at least 301 seconds apart.
pub outage-IsFailed :
    (o : Outside) (times : ℕ → ℕ) (left : ℕ) (row : Job) (next : ℕ)
    → IsDown o
    → o.jitter < 500_000_000
    → ((i : ℕ) → times i + 301_000_000_000 ≤ times (suc i))
    → row.status ≡ status_queued
    → row.next_retry_at ≡ none
    → is_backup_type row.type ≡ false
    → row.max_attempts ≡ row.attempts + suc left
    → IsFailed row.max_attempts next
        (rounds o times (suc left) (record { rows = row ∷ []; next_id = next }))
outage-IsFailed o times left row next down small spaced queued unset other limit =
    let run = rounds-IsFailed o times left row.attempts row next down small spaced (record {
      queued = queued;
      due = rw unset refl;
      other = other;
      tried = refl;
      limit = limit;
    }) in
    record { row = run.row; rows = run.rows; status = run.status; tries = run.tries ∙ sym limit }
