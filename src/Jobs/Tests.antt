-- ===== src/Jobs/Tests.antt =====
-- Uses of the theorems on a small table.
use Prim.Native.Nat.{min}
use sigarda_panel.Common.{
  ℕ, ◌+◌, ◌*◌, ◌-◌, ◌^◌, ◌≡◌, ◌<◌, ◌⊎◌, refl, true, false, some, none, ◌++◌, [], ◌∷◌, arith, All,
}
use sigarda_panel.Jobs.Model.{Job, status_queued, status_running, type_backup_create}
use sigarda_panel.Jobs.Table.{Jobs, can_claim, claim_next, null_string}
use sigarda_panel.Jobs.Invariant.{execute, canceled}
use sigarda_panel.Jobs.States.{Steps, execute-Steps}
use sigarda_panel.Jobs.Backoff.{product, shift, delay, default_backoff, delay_lem}
use sigarda_panel.Jobs.Outside.{Outside, returned}
use sigarda_panel.Jobs.Worker.{execution_failed, seconds}
use sigarda_panel.Jobs.Claim.{IsWellFormed, IsClaim, claim_next_lem}
use sigarda_panel.Jobs.Failure.{execution_failed-retry}

-- A backup job of server 1 in the queue.
abbrev backup_job : Job
backup_job = record {
  id = 1;
  server_id = some 1;
  site_id = none;
  type = type_backup_create;
  status = status_queued;
  payload = "{}";
  result = "";
  error = none;
  description = "";
  attempts = 0;
  max_attempts = 3;
  created_at = 0;
  updated_at = 0;
  started_at = none;
  completed_at = none;
  next_retry_at = none;
}

abbrev running_job : Job
running_job = record backup_job { status = status_running; attempts = 1 }

abbrev started_row : Job
started_row = record running_job { started_at = some 5; updated_at = 5 }

abbrev queue : Jobs
queue = record { rows = backup_job ∷ []; next_id = 2 }

abbrev claimed_queue : Jobs
claimed_queue = record { rows = started_row ∷ []; next_id = 2 }

queue-IsWellFormed : IsWellFormed queue
queue-IsWellFormed = (omega arith, omega arith)

-- An agent that answers every call with a result that is absent.
abbrev quiet : Outside
quiet = record {
  backup_id = λ payload. 4;
  failover_payload = λ payload. none;
  marshal_result = λ result. "null";
  encrypt_payload = λ payload. some payload;
  decrypt_payload = λ payload. some payload;
  error_text = λ e. "agent";
  panic_text = λ value. value;
  get_server = λ id. some (record { id = id; agent_token = "t"; agent_url = "http://agent" });
  execute = λ type payload. returned none;
  get_site = λ id. none;
  owner_email = λ id. none;
  ssl_payload = λ id domain email. "{}";
  saves_s3_path = λ id path. true;
  remove_file = λ path. true;
  starts_with_s3 = λ path. false;
  delete_oldest = λ site keep. none;
  has_provider = λ id. false;
  jitter = 0;
}

abbrev five : ℕ
five = 5_000_000_000

claim_next_example :
    ((claim_next 5 "" queue ≡ (queue, none)) × All (λ j. can_claim 5 "" j ≡ false) queue.rows)
    ⊎ ((t' : Jobs) × (job : Job) × (claim_next 5 "" queue ≡ (t', some job))
        × IsClaim 5 "" queue t' job)
claim_next_example = claim_next_lem 5 "" queue queue-IsWellFormed

execute-Steps_example : Steps queue.rows (execute (λ p. none) 5 (canceled backup_job.id) queue).rows
execute-Steps_example =
    execute-Steps (λ p. none) 5 (canceled backup_job.id) queue refl queue-IsWellFormed

delay_example :
    (product default_backoff.base_delay (shift 4) ≡ 1_000_000_000 * 2 ^ min (4 - 1) 30)
    × (1_000_000_000 * 2 ^ min (4 - 1) 30 < 2 ^ 63)
    × (delay default_backoff 7 4 ≡ min (1_000_000_000 * 2 ^ min (4 - 1) 30) 300_000_000_000 + 7)
delay_example = delay_lem 7 4

attempts_left : running_job.attempts < running_job.max_attempts
attempts_left = omega arith

execution_failed-retry_example :
    ((execution_failed quiet five running_job none "timeout" claimed_queue).0.rows
      ≡ []
        ++ record started_row {
          status = status_queued;
          next_retry_at = some (seconds (five + delay default_backoff 0 1));
          error = null_string "timeout";
          updated_at = seconds five;
        }
          ∷ [])
    × ((execution_failed quiet five running_job none "timeout" claimed_queue).1 ≡ [])
execution_failed-retry_example =
    execution_failed-retry quiet five running_job "timeout" claimed_queue [] [] started_row refl
      refl (omega arith, omega arith) none attempts_left
