-- ===== src/Jobs/OutageTests.antt =====
-- A use of the theorem on a job whose agent keeps failing.
use sigarda_panel.Common.{
  ℕ, suc, ◌+◌, ◌*◌, ◌≤◌, ◌≡◌, ◌<◌, refl, true, false, some, none, [], ◌∷◌, arith,
}
use sigarda_panel.Jobs.Model.{Job, status_queued, type_site_create}
use sigarda_panel.Jobs.Table.{is_backup_type}
use sigarda_panel.Jobs.Outside.{Outside, failed}
use sigarda_panel.Jobs.Outage.{IsDown, IsFailed, rounds, outage-IsFailed}

abbrev site_job : Job
site_job = record {
  id = 1;
  server_id = some 1;
  site_id = some 3;
  type = type_site_create;
  status = status_queued;
  payload = "{}";
  result = "";
  error = none;
  description = "";
  attempts = 0;
  max_attempts = 3;
  created_at = 0;
  updated_at = 0;
  started_at = none;
  completed_at = none;
  next_retry_at = none;
}

-- An agent that is there and refuses every task.
abbrev refusing : Outside
refusing = record {
  backup_id = λ payload. 0;
  failover_payload = λ payload. none;
  marshal_result = λ result. "null";
  encrypt_payload = λ payload. some payload;
  decrypt_payload = λ payload. some payload;
  error_text = λ e. "agent";
  panic_text = λ value. value;
  get_server = λ id. some (record { id = id; agent_token = "t"; agent_url = "http://agent" });
  execute = λ type payload. failed none "refused";
  get_site = λ id. none;
  owner_email = λ id. none;
  ssl_payload = λ id domain email. "{}";
  saves_s3_path = λ id path. true;
  remove_file = λ path. true;
  starts_with_s3 = λ path. false;
  delete_oldest = λ site keep. none;
  has_provider = λ id. false;
  jitter = 7;
}

refusing-IsDown : IsDown refusing
refusing-IsDown type payload = (none, "refused", refl)

abbrev times : ℕ → ℕ
times i = i * 301_000_000_000

times_spaced : (i : ℕ) → times i + 301_000_000_000 ≤ times (suc i)
times_spaced i = omega arith

small_jitter : refusing.jitter < 500_000_000
small_jitter = omega arith

no_backup : is_backup_type site_job.type ≡ false
unfolding is_backup_type
no_backup = refl

outage-IsFailed_example :
    IsFailed 3 2 (rounds refusing times 3 (record { rows = site_job ∷ []; next_id = 2 }))
outage-IsFailed_example =
    outage-IsFailed refusing times 2 site_job 2 refusing-IsDown small_jitter times_spaced refl refl
      no_backup refl
