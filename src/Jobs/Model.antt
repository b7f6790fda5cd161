-- ===== src/Jobs/Model.antt =====
-- internal/jobmodel/jobs.go. Times are seconds; an absent value is a column that is NULL.
use Prim.Native.String.{String}
use sigarda_panel.Common.{ℕ, Option}

abbrev pub status_queued : String
status_queued = "queued"

abbrev pub status_running : String
status_running = "running"

abbrev pub status_succeeded : String
status_succeeded = "succeeded"

abbrev pub status_failed : String
status_failed = "failed"

abbrev pub status_canceled : String
status_canceled = "canceled"

abbrev pub type_site_create : String
type_site_create = "site.create"

abbrev pub type_ssl_issue : String
type_ssl_issue = "ssl.issue"

abbrev pub type_backup_create : String
type_backup_create = "backup.create"

abbrev pub type_backup_restore : String
type_backup_restore = "backup.restore"

abbrev pub type_app_start : String
type_app_start = "app.start"

abbrev pub type_app_stop : String
type_app_stop = "app.stop"

abbrev pub type_app_restart : String
type_app_restart = "app.restart"

abbrev pub type_db_backup_create : String
type_db_backup_create = "db_backup.create"

pub record Job : Type 0 where
  pub id : ℕ
  pub server_id : Option ℕ
  pub site_id : Option ℕ
  pub type : String
  pub status : String
  pub payload : String
  pub result : String
  pub error : Option String
  pub description : String
  pub attempts : ℕ
  pub max_attempts : ℕ
  pub created_at : ℕ
  pub updated_at : ℕ
  pub started_at : Option ℕ
  pub completed_at : Option ℕ
  pub next_retry_at : Option ℕ
