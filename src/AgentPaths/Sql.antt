-- ===== src/AgentPaths/Sql.antt =====
-- sqlQuote, and how a server reads the literal back.
use mathlib.Core.List.{append_assoc}
use sigarda_panel.Common.{
  ℕ, ◌++◌, [], ◌∷◌, ◌≡◌, refl, ◌≢◌, ◌==◌, if◌then◌else◌, Option, none, some, arith, Bool-cases, inl,
  inr, ==_iff, false, Bool, ◌&&◌, ◌⊎◌,
}
use sigarda_panel.Text.{Text, mem_byte}

-- strings.ReplaceAll(value, "'", "''")
double_quotes : Text → Text
double_quotes [] = []
double_quotes (c ∷ s) = if c == 39 then 39 ∷ 39 ∷ double_quotes s else c ∷ double_quotes s

unfoldable pub sql_quote : Text → Text
unfolding double_quotes
sql_quote value = 39 ∷ double_quotes value ++ 39 ∷ []

abbrev keep : ℕ → Option (Text × Text) → Option (Text × Text)
keep c none = none
keep c (some (value, rest)) = some (c ∷ value, rest)

-- Two quotes stand for one, and a single quote ends the literal. With `escapes`, as in MySQL without
-- NO_BACKSLASH_ESCAPES, a backslash takes the byte behind it with it, for which `meant` gives what the
-- two stand for. What the literal says, and the text behind it; `none` if the literal does not end.
read_body : Bool → (ℕ → ℕ) → Text → Option (Text × Text)
read_body escapes meant [] = none
read_body escapes meant (c ∷ []) = if c == 39 then some ([], []) else none
read_body escapes meant (c ∷ d ∷ s) =
    let plain = keep c (read_body escapes meant (d ∷ s)) in
    let rest = read_body escapes meant s in
    if c == 39
    then (if d == 39 then keep 39 rest else some ([], d ∷ s))
    else if escapes && c == 92
    then keep (meant d) rest
    else plain

unfoldable pub read_literal : Bool → (ℕ → ℕ) → Text → Option (Text × Text)
unfolding read_body
read_literal escapes meant [] = none
read_literal escapes meant (c ∷ s) = if c == 39 then read_body escapes meant s else none

-- The text behind a literal that does not go on with a quote.
abbrev pub GoesOn : Text → Type 0
GoesOn [] = Unit
GoesOn (c ∷ s) = c ≢ 39

module _ (escapes : Bool) (meant : ℕ → ℕ) where
  read_body-end :
      (rest : Text) → GoesOn rest → read_body escapes meant (39 ∷ rest) ≡ some ([], rest)
  unfolding read_body
  read_body-end [] h = refl
  read_body-end (d ∷ s) h = ground arith

  read_body-plain :
      (c : ℕ) (s : Text) {r : Text × Text}
      → c ≢ 39
      → (escapes && c == 92) ≡ false
      → read_body escapes meant s ≡ some r
      → read_body escapes meant (c ∷ s) ≡ some (c ∷ r.0, r.1)
  unfolding read_body
  read_body-plain c [] n b h = absurd (cc)
  read_body-plain c (d ∷ s) n b h = let e : (c == 39) ≡ false = ground arith in rw (e, b, h)

  read_body-escaped :
      (s : Text) {r : Text × Text}
      → read_body escapes meant s ≡ some r
      → read_body escapes meant (39 ∷ 39 ∷ s) ≡ some (39 ∷ r.0, r.1)
  unfolding read_body
  read_body-escaped s h = rw h

  read_body-double_quotes :
      (value rest : Text)
      → (escapes && mem_byte 92 value) ≡ false
      → GoesOn rest
      → read_body escapes meant (double_quotes value ++ 39 ∷ rest) ≡ some (value, rest)
  unfolding double_quotes mem_byte
  read_body-double_quotes [] rest b h = read_body-end rest h
  read_body-double_quotes (c ∷ s) rest b h =
      let ih = read_body-double_quotes s rest (ground arith) h in
      elim (Bool-cases (c == 39)) [
        | inl e ↦
            let same : 39 ∷ s ≡ c ∷ s = rw ((==_iff c 39).0 e) in
            rw (e, ← same) (read_body-escaped (double_quotes s ++ 39 ∷ rest) ih)
        | inr e ↦
            rw e (read_body-plain c (double_quotes s ++ 39 ∷ rest) (ground arith) (ground arith) ih)
      ]

-- Before any text that does not begin with a quote, a quoted value reads back as itself and the
-- literal ends where the quoted text does: by the rules of standard SQL whatever bytes it holds, and,
-- where a backslash escapes the byte behind it, if the value holds no backslash.
pub read_literal-sql_quote :
    (escapes : Bool) (meant : ℕ → ℕ) (value rest : Text)
    → (escapes ≡ false) ⊎ (mem_byte 92 value ≡ false)
    → GoesOn rest
    → read_literal escapes meant (sql_quote value ++ rest) ≡ some (value, rest)
unfolding read_literal sql_quote
read_literal-sql_quote escapes meant value rest plain h =
    let b : (escapes && mem_byte 92 value) ≡ false = ground arith in
    rw (append_assoc (double_quotes value) (39 ∷ []) rest)
      (read_body-double_quotes escapes meant value rest b h)
