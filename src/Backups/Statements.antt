-- ===== src/Backups/Statements.antt =====
-- Backups that are under way, under all statements of internal/store/backups.go.
use sigarda_panel.Common.{
  ℕ, ◌≤◌, ◌≡◌, Bool, true, false, List, [], ◌∷◌, arith, Bool-cases, inl, inr, All,
}
use sigarda_panel.Backups.Table.{Backup, Backups, count_rows, is_active_kind}
use sigarda_panel.Backups.Retention.{delete_oldest, without_oldest, is_old}
use sigarda_panel.Backups.Exclusive.{IsExclusive, execute-IsExclusive, count_rows-delete_rows}
use sigarda_panel.Backups.Expiry.{
  AnyStatement, plain, status_set, oldest_deleted, expired_cleaned, execute_any, execute_all,
  cleanup_expired, is_gone,
}

count_rows-oldest :
    (p : Backup → Bool) (site keep : ℕ) (rows : List Backup)
    → count_rows p (without_oldest site keep rows) ≤ count_rows p rows
unfolding count_rows without_oldest
count_rows-oldest p site keep [] = omega arith
count_rows-oldest p site keep (b ∷ rows) =
    let ih = count_rows-oldest p site keep rows in
    elim (Bool-cases (is_old site keep b rows)) [
      | inl e ↦ rw e (ground (arith, ih))
      | inr e ↦ rw e (ground (arith, ih))
    ]

-- UpdateStatus can make any row active.
abbrev pub sets_status : AnyStatement → Bool
sets_status (status_set id s) = true
sets_status _ = false

execute_any-IsExclusive :
    (s : AnyStatement) (t : Backups)
    → sets_status s ≡ false
    → IsExclusive t.rows
    → IsExclusive (execute_any s t).rows
unfolding execute_any delete_oldest cleanup_expired
execute_any-IsExclusive (plain s) t n h = execute-IsExclusive s t h
execute_any-IsExclusive (status_set id s) t n h = absurd (cc)
execute_any-IsExclusive (oldest_deleted site keep) t n h =
    λ k type. omega (arith, count_rows-oldest (is_active_kind k type) site keep t.rows, h k type)
execute_any-IsExclusive (expired_cleaned now keep) t n h = λ k type.
    omega (
      arith,
      count_rows-delete_rows (is_active_kind k type) (is_gone now _ t.rows) t.rows,
      h k type,
    )

-- Where no site has two backups of one type pending or running, none has after any sequence of
-- statements of the store but UpdateStatus.
pub execute_all-IsExclusive :
    (ss : List AnyStatement) (t : Backups)
    → All (λ s. sets_status s ≡ false) ss
    → IsExclusive t.rows
    → IsExclusive (execute_all ss t).rows
unfolding execute_all
execute_all-IsExclusive [] t n h = h
execute_all-IsExclusive (s ∷ ss) t n h =
    execute_all-IsExclusive ss (execute_any s t) n.1 (execute_any-IsExclusive s t n.0 h)
