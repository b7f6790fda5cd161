-- ===== src/Regex/Matches.antt =====
-- What a pattern stands for: the relation that the matcher is to decide.
use sigarda_panel.Common.{ℕ, Bool, true, ◌≡◌, List, [], ◌∷◌, ◌++◌}
use sigarda_panel.Regex.{Regex, eps, class, seq, alt, star}

pub data Matches : Regex → List ℕ → Type 0 where
  empty : {u : List ℕ} → u ≡ [] → Matches eps u
  one : {p : ℕ → Bool} {u : List ℕ} (c : ℕ) → p c ≡ true → u ≡ c ∷ [] → Matches (class p) u
  both :
      {r q : Regex} {u : List ℕ} (s t : List ℕ)
      → Matches r s
      → Matches q t
      → u ≡ s ++ t
      → Matches (seq r q) u
  left : {r q : Regex} {u : List ℕ} → Matches r u → Matches (alt r q) u
  right : {r q : Regex} {u : List ℕ} → Matches q u → Matches (alt r q) u
  stop : {r : Regex} {u : List ℕ} → u ≡ [] → Matches (star r) u
  again :
      {r : Regex} {u : List ℕ} (c : ℕ) (s t : List ℕ)
      → Matches r (c ∷ s)
      → Matches (star r) t
      → u ≡ c ∷ s ++ t
      → Matches (star r) u
