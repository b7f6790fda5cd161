-- ===== src/Backups/Expiry.antt =====
-- CleanupExpired of internal/store/backups.go, and sequences of statements.
use Prim.Native.String.{String}
use text.Mathlib.Text.{◌==◌ as str_eq}
use mathlib.Core.Bool.{not}
use sigarda_panel.Common.{
  ℕ, ◌≡◌, refl, Bool, false, ◌&&◌, ◌||◌, List, [], ◌∷◌, Option, none, some, if◌then◌else◌, ltb,
  ◌==◌, All, All-append, Bool-cases, inl, inr,
}
use sigarda_panel.Backups.Table.{
  Backup, Backups, count_rows, update_rows, delete_rows, delete_where, with_defaults,
  insert_allowed, inserted_row, insert, create, update_status, update_progress, update_s3_path,
  mark_completed, mark_failed, delete, clear_storage_path, cleanup_stuck_running,
  cleanup_orphaned_pending,
}
use sigarda_panel.Backups.Exclusive.{
  Statement, created, progressed, s3_saved, completed, failed, deleted, cleared, stuck, orphaned,
  execute,
}
use sigarda_panel.Backups.Retention.{delete_oldest, without_oldest, is_old}

abbrev or_time : Option ℕ → ℕ → ℕ
or_time none d = d
or_time (some t) d = t

-- ORDER BY COALESCE(completed_at, created_at) DESC, id DESC
abbrev comes_before : Backup → Backup → Bool
comes_before a b =
    let s = or_time a.completed_at a.created_at in
    let t = or_time b.completed_at b.created_at in ltb t s || (s == t && ltb b.id a.id)

-- A completed backup with fewer than `keep` completed ones of its site before it.
unfoldable pub is_protected : ℕ → List Backup → Backup → Bool
is_protected keep rows b =
    str_eq b.status "completed"
    && ltb
        (count_rows (λ a. a.site_id == b.site_id && str_eq a.status "completed" && comes_before a b)
          rows)
        keep

unfoldable pub is_expired : ℕ → Backup → Bool
is_expired now b = elim b.expires_at [ none ↦ false | some at ↦ ltb at now ]

unfoldable pub is_gone : ℕ → ℕ → List Backup → Backup → Bool
unfolding is_expired
is_gone now keep rows b = is_expired now b && not (is_protected keep rows b)

unfoldable pub cleanup_expired : ℕ → ℕ → Backups → Backups × ℕ
cleanup_expired now keep_last t =
    let keep = if keep_last == 0 then 3 else keep_last in
    (delete_where (is_gone now keep t.rows) t, count_rows (is_gone now keep t.rows) t.rows)

-- All statements of the store that change the table.
pub data AnyStatement : Type 0 where
  plain : Statement → AnyStatement
  status_set : ℕ → String → AnyStatement
  oldest_deleted expired_cleaned : ℕ → ℕ → AnyStatement

unfoldable pub execute_any : AnyStatement → Backups → Backups
execute_any (plain s) t = execute s t
execute_any (status_set id s) t = update_status id s t
execute_any (oldest_deleted site keep) t = (delete_oldest site keep t).0
execute_any (expired_cleaned now keep) t = (cleanup_expired now keep t).0

unfoldable pub execute_all : List AnyStatement → Backups → Backups
execute_all [] t = t
execute_all (s ∷ ss) t = execute_all ss (execute_any s t)

abbrev pub NeverExpires : List Backup → Type 0
NeverExpires rows = All (λ b. b.expires_at ≡ none) rows

update-NeverExpires :
    (q : Backup → Bool) (f : Backup → Backup) (rows : List Backup)
    → ((b : Backup) → (f b).expires_at ≡ b.expires_at)
    → NeverExpires rows
    → NeverExpires (update_rows q f rows)
unfolding update_rows
update-NeverExpires q f [] keeps h = tt
update-NeverExpires q f (b ∷ rows) keeps (h, hs) =
    let ih = update-NeverExpires q f rows keeps hs in
    elim (Bool-cases (q b)) [ inl e ↦ rw e (rw (keeps b) h, ih) | inr e ↦ rw e (h, ih) ]

delete-NeverExpires :
    (q : Backup → Bool) (rows : List Backup) → NeverExpires rows → NeverExpires (delete_rows q rows)
unfolding delete_rows
delete-NeverExpires q [] h = tt
delete-NeverExpires q (b ∷ rows) (h, hs) =
    let ih = delete-NeverExpires q rows hs in
    elim (Bool-cases (q b)) [ inl e ↦ rw e ih | inr e ↦ rw e (h, ih) ]

oldest-NeverExpires :
    (site keep : ℕ) (rows : List Backup)
    → NeverExpires rows
    → NeverExpires (without_oldest site keep rows)
unfolding without_oldest
oldest-NeverExpires site keep [] h = tt
oldest-NeverExpires site keep (b ∷ rows) (h, hs) =
    let ih = oldest-NeverExpires site keep rows hs in
    elim (Bool-cases (is_old site keep b rows)) [ inl e ↦ rw e ih | inr e ↦ rw e (h, ih) ]

insert-NeverExpires :
    (now : ℕ) (b : Backup) (t : Backups)
    → NeverExpires t.rows
    → NeverExpires (insert now b t).0.rows
unfolding insert inserted_row
insert-NeverExpires now b t h = elim (Bool-cases (insert_allowed b t.rows)) [
  | inr e ↦ rw e h
  | inl e ↦ rw e (
      All-append (λ b. b.expires_at ≡ none) t.rows (inserted_row now t.next_id b ∷ []) h (refl, tt))
]

execute-NeverExpires :
    (s : Statement) (t : Backups) → NeverExpires t.rows → NeverExpires (execute s t).rows
unfolding execute create update_progress update_s3_path mark_completed mark_failed delete
    clear_storage_path cleanup_stuck_running cleanup_orphaned_pending
execute-NeverExpires (created now b) t h = insert-NeverExpires now (with_defaults b) t h
execute-NeverExpires (progressed id p) t h = update-NeverExpires _ _ t.rows (λ b. refl) h
execute-NeverExpires (s3_saved id p) t h = update-NeverExpires _ _ t.rows (λ b. refl) h
execute-NeverExpires (completed now id size files path) t h =
    update-NeverExpires _ _ t.rows (λ b. refl) h
execute-NeverExpires (failed now id m) t h = update-NeverExpires _ _ t.rows (λ b. refl) h
execute-NeverExpires (deleted id) t h = delete-NeverExpires _ t.rows h
execute-NeverExpires (cleared id) t h = update-NeverExpires _ _ t.rows (λ b. refl) h
execute-NeverExpires (stuck is_before now stale) t h = update-NeverExpires _ _ t.rows (λ b. refl) h
execute-NeverExpires (orphaned is_before now older) t h = delete-NeverExpires _ t.rows h

execute_any-NeverExpires :
    (s : AnyStatement) (t : Backups) → NeverExpires t.rows → NeverExpires (execute_any s t).rows
unfolding execute_any update_status delete_oldest cleanup_expired
execute_any-NeverExpires (plain s) t h = execute-NeverExpires s t h
execute_any-NeverExpires (status_set id s) t h = update-NeverExpires _ _ t.rows (λ b. refl) h
execute_any-NeverExpires (oldest_deleted site keep) t h = oldest-NeverExpires site keep t.rows h
execute_any-NeverExpires (expired_cleaned now keep) t h = delete-NeverExpires _ t.rows h

execute_all-NeverExpires :
    (ss : List AnyStatement) (t : Backups)
    → NeverExpires t.rows
    → NeverExpires (execute_all ss t).rows
unfolding execute_all
execute_all-NeverExpires [] t h = h
execute_all-NeverExpires (s ∷ ss) t h =
    execute_all-NeverExpires ss (execute_any s t) (execute_any-NeverExpires s t h)

nothing_gone :
    (now keep : ℕ) (all rows : List Backup)
    → NeverExpires rows
    → count_rows (is_gone now keep all) rows ≡ 0
unfolding count_rows is_gone is_expired
nothing_gone now keep all [] h = refl
nothing_gone now keep all (b ∷ rows) (h, hs) = rw h (nothing_gone now keep all rows hs)

nothing_deleted :
    (now keep : ℕ) (all rows : List Backup)
    → NeverExpires rows
    → delete_rows (is_gone now keep all) rows ≡ rows
unfolding delete_rows is_gone is_expired
nothing_deleted now keep all [] h = refl
nothing_deleted now keep all (b ∷ rows) (h, hs) = rw (h, nothing_deleted now keep all rows hs) refl

-- In a table that the statements of the store alone have made from an empty one, CleanupExpired
-- deletes no row and reports none, whatever expiry the callers of Create asked for.
pub cleanup_expired-execute_all :
    (ss : List AnyStatement) (t : Backups) (now keep : ℕ)
    → t.rows ≡ []
    → ((cleanup_expired now keep (execute_all ss t)).0.rows ≡ (execute_all ss t).rows)
      × ((cleanup_expired now keep (execute_all ss t)).1 ≡ 0)
unfolding cleanup_expired
cleanup_expired-execute_all ss t now keep empty =
    let start : NeverExpires t.rows = rw empty tt in
    let rows = (execute_all ss t).rows in
    let never = execute_all-NeverExpires ss t start in
    (nothing_deleted now _ rows rows never, nothing_gone now _ rows rows never)
