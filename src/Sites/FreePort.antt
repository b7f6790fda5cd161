-- ===== src/Sites/FreePort.antt =====
-- The port that FindFreePort of internal/store/sites.go gives.
use sigarda_panel.Common.{
  ℕ, zero, suc, ◌+◌, ◌-◌, ◌<◌, ◌≡◌, ◌⊎◌, arith, Bool, true, false, List, any, Bool-cases, inl, inr,
}
use sigarda_panel.Sites.Ports.{
  AppSite, has_port, PortSearch, query_failed, free, no_free_port, search_port, find_free_port,
}

-- A port that a site has or that the machine does not give.
abbrev pub IsTaken : (ℕ → Bool) → List AppSite → ℕ → Type 0
IsTaken listens sites port = (any (has_port port) sites ≡ true) ⊎ (listens port ≡ false)

-- `count` ports from `low` on.
abbrev pub AllTaken : (ℕ → Bool) → List AppSite → ℕ → ℕ → Type 0
AllTaken listens sites low zero = Unit
AllTaken listens sites low (suc count) =
    IsTaken listens sites low × AllTaken listens sites (suc low) count

-- The claim of an answer of the search over `count` ports from `low` on.
abbrev pub Found : (ℕ → Bool) → List AppSite → ℕ → ℕ → PortSearch → Type 0
Found listens sites low count query_failed = ⊥
Found listens sites low count no_free_port = AllTaken listens sites low count
Found listens sites low count (free p) =
    (before : ℕ) × (p ≡ low + before)
    × (before < count)
    × (any (has_port p) sites ≡ false)
    × (listens p ≡ true)
    × AllTaken listens sites low before

module _ (listens : ℕ → Bool) (sites : List AppSite) where
  Found-later :
      (low count : ℕ) (r : PortSearch)
      → IsTaken listens sites low
      → Found listens sites (suc low) count r
      → Found listens sites low (suc count) r
  Found-later low count query_failed first h = h
  Found-later low count no_free_port first h = (first, h)
  Found-later low count (free p) first (before, at, a, b, c, d) =
      (suc before, omega (arith, at), omega (arith, a), b, c, (first, d))

  search_port-Found :
      (count port : ℕ) → Found listens sites port count (search_port listens sites port count)
  unfolding search_port
  search_port-Found zero port = tt
  search_port-Found (suc count) port =
      let rest = search_port listens sites (suc port) count in
      let ih = search_port-Found count (suc port) in
      elim (Bool-cases (any (has_port port) sites)) [
        | inl e ↦ rw e (Found-later port count rest (inl e) ih)
        | inr e ↦ elim (Bool-cases (listens port)) [
          | inr f ↦ rw (e, f) (Found-later port count rest (inr f) ih)
          | inl f ↦ rw (e, f) (0, omega arith, omega arith, e, f, tt)
        ]
      ]

-- When the query succeeds, FindFreePort gives the least port of the range that no site has and that the
-- machine gives, or says that there is none when every port of the range is taken.
pub find_free_port-Found :
    (listens : ℕ → Bool) (sites : List AppSite) (min_port max_port : ℕ)
    → Found listens sites min_port
        (suc max_port - min_port)
        (find_free_port listens false sites min_port max_port)
unfolding find_free_port
find_free_port-Found listens sites min_port max_port =
    search_port-Found listens sites (suc max_port - min_port) min_port
