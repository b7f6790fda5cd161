-- ===== src/Jobs/Table.antt =====
-- internal/store/jobs.go: the table of jobs. Rows stand by their id, oldest first; a statement that
-- the database refuses is not modelled. `now` is CURRENT_TIMESTAMP and time.Now().
use Prim.Native.String.{String}
use text.Mathlib.Text.{◌==◌ as str_eq}
use mathlib.Core.Bool.{not}
use mathlib.Core.List.{reverse}
use sigarda_panel.Common.{
  ◌-◌, ℕ, zero, suc, ◌+◌, Bool, true, false, ◌&&◌, ◌||◌, List, [], ◌∷◌, ◌++◌, Option, none, some,
  if◌then◌else◌, ltb, leb, ◌==◌, length,
}
use sigarda_panel.Jobs.Model.{
  Job, status_queued, status_running, status_succeeded, status_failed, status_canceled,
  type_backup_create, type_db_backup_create,
}

pub record Jobs : Type 0 where
  pub rows : List Job
  pub next_id : ℕ

-- UPDATE jobs SET ... WHERE ...
unfoldable pub update_rows : (Job → Bool) → (Job → Job) → List Job → List Job
update_rows p f [] = []
update_rows p f (j ∷ js) = let rest = update_rows p f js in if p j then f j ∷ rest else j ∷ rest

abbrev pub update : (Job → Bool) → (Job → Job) → Jobs → Jobs
update p f t = record t { rows = update_rows p f t.rows }

abbrev pub has_id : ℕ → Job → Bool
has_id id j = j.id == id

-- The rows that satisfy a condition, in their order.
unfoldable pub select : (Job → Bool) → List Job → List Job
select p [] = []
select p (j ∷ js) = let rest = select p js in if p j then j ∷ rest else rest

unfoldable pub find : (Job → Bool) → List Job → Option Job
find p [] = none
find p (j ∷ js) = let rest = find p js in if p j then some j else rest

-- sql.NullString{String: s, Valid: s != ""}
abbrev pub null_string : String → Option String
null_string s = if str_eq s "" then none else some s

abbrev or_default : String → String → String
or_default s d = if str_eq s "" then d else s

-- The encrypted payload, or the plain one where encryption fails.
abbrev stored_payload : String → Option String → String
stored_payload plain none = plain
stored_payload plain (some e) = e

-- The struct as its caller fills it; `encrypt` is secrets.EncryptPayload, `none` its error.
unfoldable pub create : (String → Option String) → ℕ → Job → Jobs → Jobs × Job
create encrypt now j t =
    let status : String = or_default j.status status_queued in
    let most = if j.max_attempts == 0 then 3 else j.max_attempts in
    let row : Job = record {
      id = t.next_id;
      server_id = j.server_id;
      site_id = j.site_id;
      type = j.type;
      status = status;
      payload = stored_payload j.payload (encrypt j.payload);
      result = "";
      error = none;
      description = j.description;
      attempts = 0;
      max_attempts = most;
      created_at = now;
      updated_at = now;
      started_at = none;
      completed_at = none;
      next_retry_at = none;
    } in
    (
      record { rows = t.rows ++ row ∷ []; next_id = suc t.next_id },
      record j { status = status; max_attempts = most; id = t.next_id },
    )

unfoldable pub get_by_id : ℕ → Jobs → Option Job
unfolding find
get_by_id id t = find (has_id id) t.rows

pub record JobListFilter : Type 0 where
  pub server_id : ℕ
  pub site_id : ℕ
  pub status : String
  pub type : String
  pub limit : ℕ
  pub offset : ℕ

abbrev same_id : ℕ → Option ℕ → Bool
same_id id none = false
same_id id (some n) = n == id

-- A field that is not set asks for nothing.
unfoldable pub passes : JobListFilter → Job → Bool
passes f j =
    (f.server_id == 0 || same_id f.server_id j.server_id)
    && (f.site_id == 0 || same_id f.site_id j.site_id)
    && (str_eq f.status "" || str_eq j.status f.status)
    && (str_eq f.type "" || str_eq j.type f.type)

drop_rows : ℕ → List Job → List Job
drop_rows zero js = js
drop_rows (suc n) [] = []
drop_rows (suc n) (j ∷ js) = drop_rows n js

take_rows : ℕ → List Job → List Job
take_rows zero js = []
take_rows (suc n) [] = []
take_rows (suc n) (j ∷ js) = j ∷ take_rows n js

-- ORDER BY id DESC LIMIT ? OFFSET ?, with a limit of 100 where none is given
unfoldable pub list : JobListFilter → Jobs → List Job
unfolding drop_rows take_rows select passes
list f t =
    let limit = if f.limit == 0 then 100 else f.limit in
    take_rows limit (drop_rows f.offset (reverse (select (passes f) t.rows)))

abbrev pub is_due : ℕ → Option ℕ → Bool
is_due now none = true
is_due now (some at) = leb at now

-- status = 'queued' AND type = ? AND (next_retry_at IS NULL OR next_retry_at <= now); any type if
-- none is given
unfoldable pub can_claim : ℕ → String → Job → Bool
can_claim now type j =
    str_eq j.status status_queued
    && (str_eq type "" || str_eq j.type type)
    && is_due now j.next_retry_at

unfoldable pub start_row : ℕ → Job → Job
start_row now j = record j {
  status = status_running;
  started_at = some now;
  attempts = j.attempts + 1;
  updated_at = now;
}

unfoldable pub claim_next : ℕ → String → Jobs → Jobs × Option Job
claim_next now type t = elim (find (can_claim now type) t.rows) [
  | none ↦ (t, none)
  | some j ↦ (
    update (has_id j.id) (start_row now) t,
    some (record j { status = status_running; attempts = j.attempts + 1 }),
  )
]

unfoldable pub update_status : ℕ → ℕ → String → Jobs → Jobs
update_status now id status =
    update (has_id id) (λ j. record j { status = status; updated_at = now })

-- Only a queued job can be canceled.
unfoldable pub cancel : ℕ → ℕ → Jobs → Jobs
cancel now id =
    update (λ j. j.id == id && str_eq j.status status_queued)
      (λ j. record j { status = status_canceled; updated_at = now })

unfoldable pub set_error : ℕ → ℕ → String → Jobs → Jobs
set_error now id message =
    update (has_id id) (λ j. record j { error = null_string message; updated_at = now })

unfoldable pub set_result : ℕ → ℕ → String → Jobs → Jobs
set_result now id result = update (has_id id) (λ j. record j { result = result; updated_at = now })

unfoldable pub mark_started : ℕ → ℕ → Jobs → Jobs
mark_started now id = update (has_id id) (λ j. record j { started_at = some now; updated_at = now })

unfoldable pub schedule_retry : ℕ → ℕ → ℕ → Jobs → Jobs
schedule_retry now id retry_at =
    update (has_id id)
      (λ j. record j { status = status_queued; next_retry_at = some retry_at; updated_at = now })

unfoldable pub mark_completed : ℕ → ℕ → Bool → String → String → Jobs → Jobs
mark_completed now id success result message = update (has_id id) (λ j. record j {
  status = if success then status_succeeded else status_failed;
  completed_at = some now;
  result = result;
  error = null_string message;
  updated_at = now;
})

abbrev is_active : Job → Bool
is_active j = str_eq j.status status_queued || str_eq j.status status_running

unfoldable pub has_active_job : String → ℕ → Jobs → Bool
unfolding select
has_active_job type site_id t =
    ltb 0
      (length (select (λ j. str_eq j.type type && same_id site_id j.site_id && is_active j) t.rows))

unfoldable pub is_backup_type : String → Bool
is_backup_type type = str_eq type type_backup_create || str_eq type type_db_backup_create

unfoldable pub runs_backup_on : ℕ → Job → Bool
unfolding is_backup_type
runs_backup_on server_id j =
    same_id server_id j.server_id && str_eq j.status status_running && is_backup_type j.type

unfoldable pub count_running_by_server : ℕ → Jobs → ℕ
count_running_by_server server_id t = length (select (runs_backup_on server_id) t.rows)

-- The table, and the number of rows that the statement changes.
abbrev update_count : (Job → Bool) → (Job → Job) → Jobs → Jobs × ℕ
update_count p f t = (update p f t, length (select p t.rows))

-- `is_before` is how the database compares a column that CURRENT_TIMESTAMP has set with the text that
-- the driver binds for a time.Time.
unfoldable pub cleanup_stuck_running : (ℕ → ℕ → Bool) → ℕ → ℕ → Jobs → Jobs × ℕ
cleanup_stuck_running is_before now stale_after =
    update_count (λ j. str_eq j.status status_running && is_before j.updated_at (now - stale_after))
      (λ j. record j {
        status = status_failed;
        error = some "cleanup: stuck in running state";
        updated_at = now;
      })

abbrev is_terminal : String → Bool
is_terminal s = str_eq s status_succeeded || str_eq s status_failed || str_eq s status_canceled

abbrev or_else : Option ℕ → ℕ → ℕ
or_else none d = d
or_else (some n) d = n

unfoldable pub scrub_terminal_payloads : ℕ → ℕ → Jobs → Jobs × ℕ
scrub_terminal_payloads now older_than =
    update_count
      (λ j.
        not (str_eq j.payload "")
        && is_terminal j.status
        && ltb (or_else j.completed_at j.updated_at + older_than) now)
      (λ j. record j { payload = "" })
