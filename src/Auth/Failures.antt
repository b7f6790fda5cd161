-- ===== src/Auth/Failures.antt =====
-- The failure tracker of internal/apihttp/auth.go over a sequence of events, and an account of the
-- failures that it stands for.
use sigarda_panel.Common.{
  ℕ, ◌≤◌, ◌≡◌, ◌≢◌, refl, ap, sym, ◌∙◌, List, [], ◌∷◌, ◌++◌, if◌then◌else◌, leb, length, Bool-cases,
  inl, inr, arith,
}
use sigarda_panel.Text.{Text, eqb}
use sigarda_panel.Text.Equality.{eqb_iff}
use sigarda_panel.Auth.Limits.{
  put, recent, FailureTracker, new_failure_tracker, prune, blocked, fail, reset,
}
use sigarda_panel.Auth.Windows.{recent-recent, recent-append, put-same, put-other}

-- Failures and resets of accounts, in the order in which they happen.
pub data Event : Type 0 where
  failed : Text → ℕ → Event
  succeeded : Text → Event
  asked : Text → ℕ → Event

unfoldable pub apply_events : FailureTracker → List Event → FailureTracker
apply_events f [] = f
apply_events f (failed key now ∷ es) = apply_events (fail f key now) es
apply_events f (succeeded key ∷ es) = apply_events (reset f key) es
apply_events f (asked key now ∷ es) = apply_events (blocked f key now).0 es

-- The failures of an account since its last success.
unfoldable pub failures_onto : Text → List ℕ → List Event → List ℕ
failures_onto key acc [] = acc
failures_onto key acc (failed k now ∷ es) =
    failures_onto key (if eqb key k then acc ++ now ∷ [] else acc) es
failures_onto key acc (succeeded k ∷ es) = failures_onto key (if eqb key k then [] else acc) es
failures_onto key acc (asked k now ∷ es) = failures_onto key acc es

-- Times do not go back, from `start` to `end`.
abbrev pub InOrder : ℕ → ℕ → List Event → Type 0
InOrder start end [] = start ≤ end
InOrder start end (failed key now ∷ es) = (start ≤ now) × InOrder now end es
InOrder start end (succeeded key ∷ es) = InOrder start end es
InOrder start end (asked key now ∷ es) = (start ≤ now) × InOrder now end es

record Follows (window limit : ℕ) (key : Text) (f : FailureTracker) (hist : List ℕ) (now : ℕ)
    : Type 0 where
  same_window : f.window ≡ window
  same_limit : f.limit ≡ limit
  kept : (later : ℕ) → now ≤ later → recent window later (f.fails key) ≡ recent window later hist

module _ {window limit : ℕ} {key : Text} {f : FailureTracker} {hist : List ℕ} {start : ℕ} where
  Follows-later :
      (now : ℕ)
      → start ≤ now
      → Follows window limit key f hist start
      → Follows window limit key f hist now
  Follows-later now le h = record {
    same_window = h.same_window;
    same_limit = h.same_limit;
    kept = λ later l. h.kept later (omega arith);
  }

  Follows-other :
      (k : Text) (v : List ℕ)
      → key ≢ k
      → Follows window limit key f hist start
      → Follows window limit key (record f { fails = put k v f.fails }) hist start
  Follows-other k v n h = record {
    same_window = h.same_window;
    same_limit = h.same_limit;
    kept = λ later l. rw (put-other k key v f.fails n) (h.kept later l);
  }

  Follows-put :
      (v hist' : List ℕ)
      → ((later : ℕ) → start ≤ later → recent window later v ≡ recent window later hist')
      → Follows window limit key f hist start
      → Follows window limit key (record f { fails = put key v f.fails }) hist' start
  Follows-put v hist' same h = record {
    same_window = h.same_window;
    same_limit = h.same_limit;
    kept = λ later l. rw (put-same key v f.fails) (same later l);
  }

  -- Pruning at a time.
  pruned :
      (now : ℕ)
      → start ≤ now
      → Follows window limit key f hist start
      → (later : ℕ) → now ≤ later
      → recent window later (recent f.window now (f.fails key)) ≡ recent window later hist
  pruned now le h later l =
      rw h.same_window (recent-recent window now later (f.fails key) l ∙ h.kept later (omega arith))

Follows-asked :
    {window limit : ℕ} {key : Text} {f : FailureTracker} {hist : List ℕ} {start : ℕ} (k : Text)
    (now : ℕ)
    → start ≤ now
    → Follows window limit key f hist start
    → Follows window limit key (blocked f k now).0 hist now
unfolding blocked prune
Follows-asked {key = key} {f = f} k now le h = elim (Bool-cases (eqb key k)) [
  | inl e ↦
      rw (← (eqb_iff key k).0 e) (
        Follows-put (recent f.window now (f.fails key)) _ (pruned now le h)
          (Follows-later now le h))
  | inr e ↦ Follows-other k _ (λ z. absurd (ground (arith, eqb_iff key k))) (Follows-later now le h)
]

Follows-failed :
    {window limit : ℕ} {key : Text} {f : FailureTracker} {hist : List ℕ} {start : ℕ} (k : Text)
    (now : ℕ)
    → start ≤ now
    → Follows window limit key f hist start
    → Follows window limit key (fail f k now) (if eqb key k then hist ++ now ∷ [] else hist) now
unfolding fail prune
Follows-failed {window} {key = key} {f = f} {hist = hist} k now le h =
    let after = Follows-asked k now le h in
    elim (Bool-cases (eqb key k)) [
      | inl e ↦
          let v = recent f.window now (f.fails key) in
          rw (e, ← (eqb_iff key k).0 e)
            (Follows-put (v ++ now ∷ []) (hist ++ now ∷ [])
              (λ later l.
                recent-append window later v (now ∷ [])
                ∙ ap (λ xs. xs ++ recent window later (now ∷ [])) (pruned now le h later l)
                ∙ sym (recent-append window later hist (now ∷ [])))
              (Follows-put v hist (pruned now le h) (Follows-later now le h)))
      | inr e ↦
          let n : key ≢ k = λ z. absurd (ground (arith, eqb_iff key k)) in
          rw e (Follows-other k _ n (Follows-other k _ n (Follows-later now le h)))
    ]

Follows-succeeded :
    {window limit : ℕ} {key : Text} {f : FailureTracker} {hist : List ℕ} {start : ℕ} (k : Text)
    → Follows window limit key f hist start
    → Follows window limit key (reset f k) (if eqb key k then [] else hist) start
unfolding reset
Follows-succeeded {key = key} k h = elim (Bool-cases (eqb key k)) [
  | inl e ↦ rw (e, ← (eqb_iff key k).0 e) (Follows-put [] [] (λ later l. refl) h)
  | inr e ↦ rw e (Follows-other k [] (λ z. absurd (ground (arith, eqb_iff key k))) h)
]

Follows-all :
    (es : List Event) {window limit : ℕ} {key : Text} {f : FailureTracker} {hist : List ℕ}
    {start : ℕ} (end : ℕ)
    → InOrder start end es
    → Follows window limit key f hist start
    → Follows window limit key (apply_events f es) (failures_onto key hist es) end
unfolding apply_events failures_onto
Follows-all [] end o h = Follows-later end o h
Follows-all (failed k now ∷ es) end o h = Follows-all es end o.1 (Follows-failed k now o.0 h)
Follows-all (succeeded k ∷ es) end o h = Follows-all es end o (Follows-succeeded k h)
Follows-all (asked k now ∷ es) end o h = Follows-all es end o.1 (Follows-asked k now o.0 h)

-- After any failures, successes and questions about any accounts, with times that do not go back,
-- an account is blocked exactly when at least `limit` of its failures since its last success lie in
-- the window before `now`.
pub blocked-failures :
    (limit window : ℕ) (key : Text) (start now : ℕ) (es : List Event)
    → InOrder start now es
    → (blocked (apply_events (new_failure_tracker limit window) es) key now).1
      ≡ leb limit (length (recent window now (failures_onto key [] es)))
unfolding blocked prune
blocked-failures limit window key start now es o =
    let h : Follows window limit key (apply_events (new_failure_tracker limit window) es)
        (failures_onto key [] es) now =
      Follows-all es now o (
        unfold new_failure_tracker in
        record { same_window = refl; same_limit = refl; kept = λ later l. refl }) in
    rw (h.same_window, h.same_limit, h.kept now (omega arith))
