-- ===== src/Backups/Exclusive.antt =====
-- Backups of one site and one type that are under way, and Create of internal/store/backups.go.
use Prim.Native.String.{String}
use text.Mathlib.Text.{◌==◌ as str_eq}
use text.Mathlib.TextEquality.{eq_iff}
use sigarda_panel.Common.{
  ℕ, ◌+◌, ◌≤◌, ◌≡◌, refl, Bool, true, false, ◌&&◌, List, [], ◌∷◌, ◌++◌, some, if◌then◌else◌, ◌==◌,
  ==_iff, arith, Bool-cases, inl, inr, &&-split,
}
use sigarda_panel.Backups.Table.{
  Backup, Backups, update_rows, delete_rows, count_rows, has_id, is_active_status, same_kind,
  is_active_kind, with_defaults, inserted_row, insert_allowed, created_id, insert, create,
  update_progress, update_s3_path, mark_completed, mark_failed, delete, clear_storage_path,
  cleanup_stuck_running, cleanup_orphaned_pending,
}

abbrev pub IsExclusive : List Backup → Type 0
IsExclusive rows = (site : ℕ) (type : String) → count_rows (is_active_kind site type) rows ≤ 1

count_rows-append :
    (p : Backup → Bool) (rows : List Backup) (b : Backup)
    → count_rows p (rows ++ b ∷ []) ≡ count_rows p rows + (if p b then 1 else 0)
unfolding count_rows
count_rows-append p [] b = ground arith
count_rows-append p (c ∷ rows) b = let ih = count_rows-append p rows b in ground (arith, ih)

pub count_rows-delete_rows :
    (p q : Backup → Bool) (rows : List Backup)
    → count_rows p (delete_rows q rows) ≤ count_rows p rows
unfolding count_rows delete_rows
count_rows-delete_rows p q [] = omega arith
count_rows-delete_rows p q (b ∷ rows) =
    let ih = count_rows-delete_rows p q rows in
    elim (Bool-cases (q b)) [
      | inl e ↦ rw e (ground (arith, ih))
      | inr e ↦ rw e (ground (arith, ih))
    ]

-- An update that makes no row active.
count_rows-update_rows :
    (p q : Backup → Bool) (f : Backup → Backup) (rows : List Backup)
    → ((b : Backup) → q b ≡ true → p (f b) ≡ true → p b ≡ true)
    → count_rows p (update_rows q f rows) ≤ count_rows p rows
unfolding count_rows update_rows
count_rows-update_rows p q f [] keeps = omega arith
count_rows-update_rows p q f (b ∷ rows) keeps =
    let ih = count_rows-update_rows p q f rows keeps in
    let here = keeps b in
    elim (Bool-cases (q b)) [
      | inl e ↦ rw e (ground (arith, ih, here))
      | inr e ↦ rw e (ground (arith, ih))
    ]

-- The statements, with the time where they use it; UpdateStatus, which can make any row active, is
-- not among them.
pub data Statement : Type 0 where
  created : ℕ → Backup → Statement
  progressed s3_saved : ℕ → String → Statement
  completed : ℕ → ℕ → ℕ → ℕ → String → Statement
  failed : ℕ → ℕ → String → Statement
  deleted cleared : ℕ → Statement
  stuck orphaned : (ℕ → ℕ → Bool) → ℕ → ℕ → Statement

unfoldable pub execute : Statement → Backups → Backups
execute (created now b) t = (create now b t).0
execute (progressed id p) t = update_progress id p t
execute (s3_saved id p) t = update_s3_path id p t
execute (completed now id size files path) t = mark_completed now id size files path t
execute (failed now id m) t = mark_failed now id m t
execute (deleted id) t = delete id t
execute (cleared id) t = clear_storage_path id t
execute (stuck is_before now stale) t = (cleanup_stuck_running is_before now stale t).0
execute (orphaned is_before now older) t = (cleanup_orphaned_pending is_before now older t).0

update-IsExclusive :
    (q : Backup → Bool) (f : Backup → Backup) (rows : List Backup)
    → ((site : ℕ) (type : String) (b : Backup)
        → is_active_kind site type (f b) ≡ true
        → is_active_kind site type b ≡ true)
    → IsExclusive rows
    → IsExclusive (update_rows q f rows)
update-IsExclusive q f rows keeps h site type =
    let le =
      count_rows-update_rows (is_active_kind site type) q f rows (λ b z. keeps site type b) in
    omega (arith, le, h site type)

delete-IsExclusive :
    (q : Backup → Bool) (rows : List Backup) → IsExclusive rows → IsExclusive (delete_rows q rows)
delete-IsExclusive q rows h site type =
    omega (arith, count_rows-delete_rows (is_active_kind site type) q rows, h site type)

-- The row counts for its own kind alone.
kind-same :
    (site : ℕ) (type : String) (now id : ℕ) (b : Backup)
    → is_active_kind site type (inserted_row now id b) ≡ true
    → (b.site_id ≡ site) × (b.backup_type ≡ type) × (is_active_status b.status ≡ true)
unfolding is_active_kind same_kind inserted_row
kind-same site type now id b h =
    let (kind, active) =
      &&-split (b.site_id == site && str_eq b.backup_type type) (is_active_status b.status) h in
    let (s, t) = &&-split (b.site_id == site) (str_eq b.backup_type type) kind in
    ((==_iff b.site_id site).0 s, (eq_iff b.backup_type type).0 t, active)

allowed-one :
    (now id site : ℕ) (type : String) (b : Backup) (rows : List Backup)
    → insert_allowed b rows ≡ true
    → count_rows (is_active_kind site type) rows ≤ 1
    → count_rows (is_active_kind site type) (rows ++ inserted_row now id b ∷ []) ≤ 1
unfolding insert_allowed
allowed-one now id site type b rows allowed h =
    elim (Bool-cases (is_active_kind site type (inserted_row now id b))) [
      | inr e ↦
          rw (count_rows-append (is_active_kind site type) rows (inserted_row now id b), e)
            (omega (arith, h))
      | inl e ↦
          let (s, y, active) = kind-same site type now id b e in
          let none_yet : count_rows (is_active_kind b.site_id b.backup_type) rows ≡ 0 =
            ground arith in
          let none_here : count_rows (is_active_kind site type) rows ≡ 0 = rw (← s, ← y) none_yet in
          rw
            (
              count_rows-append (is_active_kind site type) rows (inserted_row now id b),
              e,
              none_here,
            )
            (omega arith)
    ]

insert-IsExclusive :
    (now : ℕ) (b : Backup) (t : Backups) → IsExclusive t.rows → IsExclusive (insert now b t).0.rows
unfolding insert
insert-IsExclusive now b t h = elim (Bool-cases (insert_allowed b t.rows)) [
  | inr e ↦ rw e h
  | inl e ↦ rw e (λ site type. allowed-one now t.next_id site type b t.rows e (h site type))
]

-- Every statement but UpdateStatus keeps at most one backup of each site and type pending, running or
-- archiving.
pub execute-IsExclusive :
    (s : Statement) (t : Backups) → IsExclusive t.rows → IsExclusive (execute s t).rows
unfolding execute create update_progress update_s3_path mark_completed mark_failed delete
    clear_storage_path cleanup_stuck_running cleanup_orphaned_pending is_active_kind same_kind
    is_active_status
execute-IsExclusive (created now b) t h = insert-IsExclusive now (with_defaults b) t h
execute-IsExclusive (progressed id p) t h = update-IsExclusive _ _ t.rows (λ site type b a. a) h
execute-IsExclusive (s3_saved id p) t h = update-IsExclusive _ _ t.rows (λ site type b a. a) h
execute-IsExclusive (completed now id size files path) t h =
    update-IsExclusive _ _ t.rows (λ site type b a. ground arith) h
execute-IsExclusive (failed now id m) t h =
    update-IsExclusive _ _ t.rows (λ site type b a. ground arith) h
execute-IsExclusive (deleted id) t h = delete-IsExclusive (has_id id) t.rows h
execute-IsExclusive (cleared id) t h = update-IsExclusive _ _ t.rows (λ site type b a. a) h
execute-IsExclusive (stuck is_before now stale) t h =
    update-IsExclusive _ _ t.rows (λ site type b a. ground arith) h
execute-IsExclusive (orphaned is_before now older) t h = delete-IsExclusive _ t.rows h

-- Once a row was inserted on the connection, a second backup of a site and a type that is under way
-- is not refused: no row changes, and the caller gets the id of the last row inserted into any table.
pub create-duplicate :
    (now : ℕ) (b : Backup) (t : Backups)
    → is_active_status (with_defaults b).status ≡ true
    → 1 ≤ count_rows (is_active_kind b.site_id (with_defaults b).backup_type) t.rows
    → 1 ≤ t.last_insert_id
    → create now b t ≡ (t, some t.last_insert_id)
unfolding create insert created_id
create-duplicate now b t active taken used =
    let refused : insert_allowed (with_defaults b) t.rows ≡ false =
      unfold insert_allowed with_defaults in (ground arith) in
    let some_id : (t.last_insert_id == 0) ≡ false = ground arith in rw (refused, some_id) refl
