-- ===== src/Backups/Tests.antt =====
-- Uses of the theorems on a small table.
use Prim.Native.Nat.{min}
use sigarda_panel.Common.{ℕ, ◌≡◌, ◌≢◌, ◌≤◌, refl, true, some, none, List, [], ◌∷◌, arith}
use sigarda_panel.Backups.Table.{
  Backup, Backups, create, count_rows, is_active_kind, is_active_status, with_defaults, same_kind,
}
use sigarda_panel.Backups.Exclusive
use sigarda_panel.Backups.Exclusive.{
  IsExclusive, Statement, completed, execute, execute-IsExclusive, create-duplicate,
}
use sigarda_panel.Backups.Retention.{delete_oldest, delete_oldest_lem}
use sigarda_panel.Backups.Statements.{execute_all-IsExclusive}
use sigarda_panel.Backups.Expiry.{
  AnyStatement, oldest_deleted, expired_cleaned, plain, status_set, execute_all, cleanup_expired,
  cleanup_expired-execute_all,
}

abbrev files_of : ℕ → ℕ → Backup
files_of id site = record {
  id = id;
  site_id = site;
  status = "pending";
  storage_type = "local";
  storage_path = none;
  backup_type = "files";
  s3_path = none;
  progress = "";
  size_bytes = 0;
  file_count = 0;
  error = none;
  created_at = 1;
  completed_at = none;
  expires_at = some 2;
}

abbrev no_backups : Backups
no_backups = record { rows = []; next_id = 1; last_insert_id = 0 }

abbrev one_backup : Backups
one_backup = record { rows = files_of 1 7 ∷ []; next_id = 2; last_insert_id = 1 }

one_backup-IsExclusive : IsExclusive one_backup.rows
unfolding count_rows
one_backup-IsExclusive site type = ground arith

abbrev statements : List AnyStatement
statements = plain (completed 2 1 10 1 "/b") ∷ oldest_deleted 7 1 ∷ expired_cleaned 5 0 ∷ []

execute_all-IsExclusive_example : IsExclusive (execute_all statements one_backup).rows
execute_all-IsExclusive_example =
    execute_all-IsExclusive statements one_backup (refl, (refl, (refl, tt))) one_backup-IsExclusive

again_active : is_active_status (with_defaults (files_of 0 7)).status ≡ true
unfolding is_active_status with_defaults
again_active = refl

seven_taken :
    1 ≤ count_rows (is_active_kind 7 (with_defaults (files_of 0 7)).backup_type) one_backup.rows
unfolding count_rows is_active_kind same_kind is_active_status with_defaults
seven_taken = omega arith

create-duplicate_example : create 5 (files_of 0 7) one_backup ≡ (one_backup, some 1)
create-duplicate_example =
    create-duplicate 5 (files_of 0 7) one_backup again_active seven_taken (omega arith)

abbrev three_backups : Backups
three_backups = record {
  rows = files_of 1 7 ∷ files_of 2 7 ∷ files_of 3 8 ∷ [];
  next_id = 4;
  last_insert_id = 3;
}

seven_not_eight : ◌≢◌ {A = ℕ} 7 8
seven_not_eight e = absurd (omega (arith, e))

delete_oldest_example :
    (count_rows (same_kind 7 "files") (delete_oldest 7 1 three_backups).0.rows
      ≡ min (count_rows (same_kind 7 "files") three_backups.rows) 1)
    × (count_rows (same_kind 8 "files") (delete_oldest 7 1 three_backups).0.rows
        ≡ count_rows (same_kind 8 "files") three_backups.rows)
delete_oldest_example = delete_oldest_lem 7 1 8 "files" three_backups seven_not_eight

abbrev history : List AnyStatement
history = plain (Exclusive.created 1 (files_of 0 7)) ∷ status_set 1 "completed" ∷ []

cleanup_expired_example :
    ((cleanup_expired 9 3 (execute_all history no_backups)).0.rows
      ≡ (execute_all history no_backups).rows)
    × ((cleanup_expired 9 3 (execute_all history no_backups)).1 ≡ 0)
cleanup_expired_example = cleanup_expired-execute_all history no_backups 9 3 refl
