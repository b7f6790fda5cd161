-- ===== src/Backups/Table.antt =====
-- The statements of internal/store/backups.go. Rows stand by their id, oldest first; `now` is
-- CURRENT_TIMESTAMP and time.Now(), in seconds; the columns of joined sites are left out. Of the
-- connection, `last_insert_id` is sqlite3_last_insert_rowid: the id of the last row inserted into
-- any table, and 0 before the first.
use Prim.Native.String.{String}
use text.Mathlib.Text.{◌==◌ as str_eq}
use mathlib.Core.Bool.{not}
use sigarda_panel.Common.{
  ◌-◌, ℕ, suc, Bool, ◌&&◌, ◌||◌, List, [], ◌∷◌, ◌++◌, Option, none, some, if◌then◌else◌, ◌==◌,
}

pub record Backup : Type 0 where
  pub id : ℕ
  pub site_id : ℕ
  pub status : String
  pub storage_type : String
  pub storage_path : Option String
  pub backup_type : String
  pub s3_path : Option String
  pub progress : String
  pub size_bytes : ℕ
  pub file_count : ℕ
  pub error : Option String
  pub created_at : ℕ
  pub completed_at : Option ℕ
  pub expires_at : Option ℕ

pub record Backups : Type 0 where
  pub rows : List Backup
  pub next_id : ℕ
  pub last_insert_id : ℕ

-- UPDATE backups SET ... WHERE ...
unfoldable pub update_rows : (Backup → Bool) → (Backup → Backup) → List Backup → List Backup
update_rows p f [] = []
update_rows p f (b ∷ rows) = let rest = update_rows p f rows in if p b then f b ∷ rest else b ∷ rest

-- DELETE FROM backups WHERE ...
unfoldable pub delete_rows : (Backup → Bool) → List Backup → List Backup
delete_rows p [] = []
delete_rows p (b ∷ rows) = let rest = delete_rows p rows in if p b then rest else b ∷ rest

-- SELECT COUNT(*) FROM backups WHERE ...
unfoldable pub count_rows : (Backup → Bool) → List Backup → ℕ
count_rows p [] = 0
count_rows p (b ∷ rows) = let rest = count_rows p rows in if p b then suc rest else rest

abbrev pub update : (Backup → Bool) → (Backup → Backup) → Backups → Backups
update p f t = record t { rows = update_rows p f t.rows }

abbrev pub delete_where : (Backup → Bool) → Backups → Backups
delete_where p t = record t { rows = delete_rows p t.rows }

abbrev pub has_id : ℕ → Backup → Bool
has_id id b = b.id == id

abbrev null_string : String → Option String
null_string s = if str_eq s "" then none else some s

abbrev or_default : String → String → String
or_default s d = if str_eq s "" then d else s

unfoldable pub is_active_status : String → Bool
is_active_status s = str_eq s "pending" || str_eq s "running" || str_eq s "archiving"

unfoldable pub same_kind : ℕ → String → Backup → Bool
same_kind site type b = b.site_id == site && str_eq b.backup_type type

unfoldable pub is_active_kind : ℕ → String → Backup → Bool
is_active_kind site type b = same_kind site type b && is_active_status b.status

unfoldable pub with_defaults : Backup → Backup
with_defaults b = record b {
  storage_type = or_default b.storage_type "local";
  status = or_default b.status "pending";
  backup_type = or_default b.backup_type "files";
}

-- The row that the INSERT writes; it names no s3_path and no expires_at.
unfoldable pub inserted_row : ℕ → ℕ → Backup → Backup
inserted_row now id b = record {
  id = id;
  site_id = b.site_id;
  status = b.status;
  storage_type = b.storage_type;
  storage_path = b.storage_path;
  backup_type = b.backup_type;
  s3_path = none;
  progress = "";
  size_bytes = 0;
  file_count = 0;
  error = none;
  created_at = now;
  completed_at = none;
  expires_at = none;
}

unfoldable pub insert_allowed : Backup → List Backup → Bool
insert_allowed b rows =
    not (is_active_status b.status) || count_rows (is_active_kind b.site_id b.backup_type) rows == 0

-- The id, or ErrDuplicateBackup
unfoldable pub created_id : ℕ → Option ℕ
created_id id = if id == 0 then none else some id

unfoldable pub insert : ℕ → Backup → Backups → Backups × Option ℕ
unfolding created_id inserted_row
insert now b t =
    if insert_allowed b t.rows
    then (
      record {
        rows = t.rows ++ inserted_row now t.next_id b ∷ [];
        next_id = suc t.next_id;
        last_insert_id = t.next_id;
      },
      created_id t.next_id,
    )
    else (t, created_id t.last_insert_id)

unfoldable pub create : ℕ → Backup → Backups → Backups × Option ℕ
unfolding insert
create now b t = insert now (with_defaults b) t

unfoldable pub update_status : ℕ → String → Backups → Backups
update_status id status = update (has_id id) (λ b. record b { status = status })

unfoldable pub update_progress : ℕ → String → Backups → Backups
update_progress id progress = update (has_id id) (λ b. record b { progress = progress })

unfoldable pub update_s3_path : ℕ → String → Backups → Backups
update_s3_path id s3_path = update (has_id id) (λ b. record b { s3_path = some s3_path })

unfoldable pub mark_completed : ℕ → ℕ → ℕ → ℕ → String → Backups → Backups
mark_completed now id size_bytes file_count path = update (has_id id) (λ b. record b {
  status = "completed";
  size_bytes = size_bytes;
  file_count = file_count;
  storage_path = null_string path;
  progress = "completed";
  completed_at = some now;
})

unfoldable pub mark_failed : ℕ → ℕ → String → Backups → Backups
mark_failed now id message = update (has_id id) (λ b. record b {
  status = "failed";
  error = null_string message;
  progress = "failed";
  completed_at = some now;
})

unfoldable pub delete : ℕ → Backups → Backups
delete id = delete_where (has_id id)

unfoldable pub clear_storage_path : ℕ → Backups → Backups
clear_storage_path id = update (has_id id) (λ b. record b { storage_path = none })

-- `is_before` is how the database compares a column that CURRENT_TIMESTAMP has set with the text that
-- the driver binds for a time.Time.
abbrev is_stuck : (ℕ → ℕ → Bool) → ℕ → ℕ → Backup → Bool
is_stuck is_before now stale_after b =
    str_eq b.status "running" && is_before b.created_at (now - stale_after)

unfoldable pub cleanup_stuck_running : (ℕ → ℕ → Bool) → ℕ → ℕ → Backups → Backups × ℕ
cleanup_stuck_running is_before now stale_after t = (
  update (is_stuck is_before now stale_after)
      (λ b. record b {
        status = "failed";
        error = some "cleanup: stuck in running state";
        progress = "failed";
        completed_at = some now;
      })
      t,
  count_rows (is_stuck is_before now stale_after) t.rows,
)

abbrev is_orphaned : (ℕ → ℕ → Bool) → ℕ → ℕ → Backup → Bool
is_orphaned is_before now older_than b =
    str_eq b.status "pending" && is_before b.created_at (now - older_than)

unfoldable pub cleanup_orphaned_pending : (ℕ → ℕ → Bool) → ℕ → ℕ → Backups → Backups × ℕ
cleanup_orphaned_pending is_before now older_than t = (
  delete_where (is_orphaned is_before now older_than) t,
  count_rows (is_orphaned is_before now older_than) t.rows,
)
