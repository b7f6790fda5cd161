-- ===== src/Backups/Retention.antt =====
-- DeleteOldest of internal/store/backups.go.
use Prim.Native.Nat.{min}
use Prim.Native.String.{String}
use text.Mathlib.TextEquality.{eq_iff}
use text.Mathlib.Text.{◌==◌ as str_eq}
use sigarda_panel.Common.{
  ℕ, ◌≡◌, ◌≢◌, refl, Bool, true, false, ◌&&◌, List, [], ◌∷◌, if◌then◌else◌, leb, ◌==◌, ==_iff,
  arith, Bool-cases, inl, inr, &&-split,
}
use sigarda_panel.Backups.Table.{Backup, Backups, count_rows, same_kind}

-- ROW_NUMBER() of a row of the site, counted from the newest of its type, is above `keep` when at
-- least that many rows of its site and type follow it.
unfoldable pub is_old : ℕ → ℕ → Backup → List Backup → Bool
is_old site keep b newer =
    b.site_id == site && leb keep (count_rows (same_kind site b.backup_type) newer)

unfoldable pub oldest : ℕ → ℕ → List Backup → List Backup
unfolding is_old
oldest site keep [] = []
oldest site keep (b ∷ newer) =
    let rest = oldest site keep newer in if is_old site keep b newer then b ∷ rest else rest

unfoldable pub without_oldest : ℕ → ℕ → List Backup → List Backup
unfolding is_old
without_oldest site keep [] = []
without_oldest site keep (b ∷ newer) =
    let rest = without_oldest site keep newer in if is_old site keep b newer then rest else b ∷ rest

-- The table, and the deleted rows for the caller.
unfoldable pub delete_oldest : ℕ → ℕ → Backups → Backups × List Backup
unfolding oldest without_oldest
delete_oldest site keep t =
    (record t { rows = without_oldest site keep t.rows }, oldest site keep t.rows)

kind-of :
    (site : ℕ) (type : String) (b : Backup)
    → same_kind site type b ≡ true
    → (b.site_id ≡ site) × (b.backup_type ≡ type)
unfolding same_kind
kind-of site type b h =
    let (s, t) = &&-split (b.site_id == site) (str_eq b.backup_type type) h in
    ((==_iff b.site_id site).0 s, (eq_iff b.backup_type type).0 t)

-- Whether a row of the counted kind is old.
is_old-kind :
    (site keep : ℕ) (type : String) (b : Backup) (newer : List Backup)
    → same_kind site type b ≡ true
    → is_old site keep b newer ≡ leb keep (count_rows (same_kind site type) newer)
unfolding is_old
is_old-kind site keep type b newer k =
    let (s, t) = kind-of site type b k in
    let here : (b.site_id == site) ≡ true = (==_iff b.site_id site).1 s in rw (here, t) refl

count_rows-without_oldest :
    (site keep : ℕ) (type : String) (rows : List Backup)
    → count_rows (same_kind site type) (without_oldest site keep rows)
      ≡ min (count_rows (same_kind site type) rows) keep
unfolding count_rows without_oldest
count_rows-without_oldest site keep type [] = ground arith
count_rows-without_oldest site keep type (b ∷ newer) =
    let ih = count_rows-without_oldest site keep type newer in
    elim (Bool-cases (is_old site keep b newer)) [
      | inl old ↦ elim (Bool-cases (same_kind site type b)) [
        | inl k ↦
            let n = is_old-kind site keep type b newer k in rw (old, k) (ground (arith, ih, n))
        | inr k ↦ rw (old, k) ih
      ]
      | inr new ↦ elim (Bool-cases (same_kind site type b)) [
        | inl k ↦
            let n = is_old-kind site keep type b newer k in rw new (rw k (ground (arith, ih, n)))
        | inr k ↦ rw new (rw k ih)
      ]
    ]

old-elsewhere :
    (site keep other : ℕ) (type : String) (b : Backup) (newer : List Backup)
    → site ≢ other
    → is_old site keep b newer ≡ true
    → same_kind other type b ≡ false
unfolding is_old same_kind
old-elsewhere site keep other type b newer apart old =
    let here = (==_iff b.site_id site).0 (&&-split (b.site_id == site) _ old).0 in
    let there : (b.site_id == other) ≡ false = ground arith in rw there refl

other_site :
    (site keep other : ℕ) (type : String) (rows : List Backup)
    → site ≢ other
    → count_rows (same_kind other type) (without_oldest site keep rows)
      ≡ count_rows (same_kind other type) rows
unfolding count_rows without_oldest
other_site site keep other type [] apart = refl
other_site site keep other type (b ∷ newer) apart =
    let ih = other_site site keep other type newer apart in
    elim (Bool-cases (is_old site keep b newer)) [
      | inr new ↦ rw new (elim (Bool-cases (same_kind other type b)) [
        | inl k ↦ rw k (rw ih refl)
        | inr k ↦ rw k ih
      ])
      | inl old ↦
          let elsewhere : same_kind other type b ≡ false =
            old-elsewhere site keep other type b newer apart old in
          rw (old, elsewhere) ih
    ]

-- DeleteOldest leaves of each type of the site's backups as many as it is to keep, or all where there
-- are fewer, and leaves as many backups of each type of any other site as there were.
pub delete_oldest_lem :
    (site keep other : ℕ) (type : String) (t : Backups)
    → site ≢ other
    → (count_rows (same_kind site type) (delete_oldest site keep t).0.rows
        ≡ min (count_rows (same_kind site type) t.rows) keep)
      × (count_rows (same_kind other type) (delete_oldest site keep t).0.rows
          ≡ count_rows (same_kind other type) t.rows)
unfolding delete_oldest
delete_oldest_lem site keep other type t apart =
    (count_rows-without_oldest site keep type t.rows, other_site site keep other type t.rows apart)
