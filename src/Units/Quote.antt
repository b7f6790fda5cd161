-- ===== src/Units/Quote.antt =====
-- How systemd reads a quoted word of ExecStart, and that quoting in
-- internal/agenthttp/app_process.go is the other way round.
use mathlib.Core.List.{append_assoc}
use sigarda_panel.Common.{
  ℕ, false, ◌≡◌, refl, [], ◌∷◌, ◌++◌, Option, none, some, if◌then◌else◌, ◌==◌, Bool-cases, ==_iff,
  inl, inr,
}
use sigarda_panel.Text.{Text}
use sigarda_panel.Units.File.{escape_byte, escape_all, systemd_quote}

-- Where the reader stands: before the word, in it, behind a backslash, a percent sign or a dollar of
-- it, or behind its closing quote.
pub data Place : Type 0 where
  before quoted backslash percent dollar behind : Place

abbrev pub Step : Type 0
Step = Option (Place × Text)

-- The escapes with a meaning of their own: \\ \" \n \r
abbrev unescape : ℕ → Step
unescape c =
    if c == 92
    then some (quoted, 92 ∷ [])
    else if c == 34
    then some (quoted, 34 ∷ [])
    else if c == b'n'
    then some (quoted, 10 ∷ [])
    else if c == b'r'
    then some (quoted, 13 ∷ [])
    else none

-- One byte: where it leads and what it adds to the word; `none` for what has another meaning
-- (specifiers, variables) or is an error.
unfoldable pub read_byte : Place → ℕ → Step
read_byte before c = if c == 34 then some (quoted, []) else none
read_byte quoted c =
    if c == 34
    then some (behind, [])
    else if c == 92
    then some (backslash, [])
    else if c == b'%'
    then some (percent, [])
    else if c == b'$'
    then some (dollar, [])
    else if c == 10
    then none
    else some (quoted, c ∷ [])
read_byte backslash c = unescape c
read_byte percent c = if c == b'%' then some (quoted, b'%' ∷ []) else none
read_byte dollar c = if c == b'$' then some (quoted, b'$' ∷ []) else none
read_byte behind c = none

unfoldable pub at_end : Place → Option Text
at_end behind = some []
at_end _ = none

abbrev put_before : Text → Option Text → Option Text
put_before [] read = read
put_before (c ∷ t) none = none
put_before (c ∷ t) (some s) = some (c ∷ t ++ s)

unfoldable pub read_word : Place → Text → Option Text
unfolding read_byte at_end
read_word place [] = at_end place
read_word place (c ∷ s) = elim (read_byte place c) [
  | none ↦ none
  | some (next, out) ↦ put_before out (read_word next s)
]

escape_byte-plain :
    (c : ℕ)
    → (c == 92) ≡ false
    → (c == 34) ≡ false
    → (c == b'%') ≡ false
    → (c == b'$') ≡ false
    → (c == 10) ≡ false
    → (c == 13) ≡ false
    → escape_byte c ≡ c ∷ []
unfolding escape_byte
escape_byte-plain c e1 e2 e3 e4 e5 e6 = rw (e1, e2, e3, e4, e5, e6) refl

read_byte-plain :
    (c : ℕ)
    → (c == 92) ≡ false
    → (c == 34) ≡ false
    → (c == b'%') ≡ false
    → (c == b'$') ≡ false
    → (c == 10) ≡ false
    → read_byte quoted c ≡ some (quoted, c ∷ [])
unfolding read_byte
read_byte-plain c e1 e2 e3 e4 e5 = rw (e2, e1, e3, e4, e5) refl

read_word-plain :
    (c : ℕ) (s : Text)
    → (c == 92) ≡ false
    → (c == 34) ≡ false
    → (c == b'%') ≡ false
    → (c == b'$') ≡ false
    → (c == 10) ≡ false
    → read_word quoted (c ∷ s) ≡ put_before (c ∷ []) (read_word quoted s)
unfolding read_word
read_word-plain c s e1 e2 e3 e4 e5 = rw (read_word, read_byte-plain c e1 e2 e3 e4 e5) refl

read_word-escape_byte :
    (c : ℕ) (s : Text)
    → read_word quoted (escape_byte c ++ s) ≡ put_before (c ∷ []) (read_word quoted s)
unfolding read_word read_byte escape_byte
read_word-escape_byte c s = elim (Bool-cases (c == 92)) [
  | inl e ↦ rw ((==_iff c 92).0 e) refl
  | inr e1 ↦ elim (Bool-cases (c == 34)) [
    | inl e ↦ rw ((==_iff c 34).0 e) refl
    | inr e2 ↦ elim (Bool-cases (c == b'%')) [
      | inl e ↦ rw ((==_iff c b'%').0 e) refl
      | inr e3 ↦ elim (Bool-cases (c == b'$')) [
        | inl e ↦ rw ((==_iff c b'$').0 e) refl
        | inr e4 ↦ elim (Bool-cases (c == 10)) [
          | inl e ↦ rw ((==_iff c 10).0 e) refl
          | inr e5 ↦ elim (Bool-cases (c == 13)) [
            | inl e ↦ rw ((==_iff c 13).0 e) refl
            | inr e6 ↦
                rw (escape_byte-plain c e1 e2 e3 e4 e5 e6) (read_word-plain c s e1 e2 e3 e4 e5)
          ]
        ]
      ]
    ]
  ]
]

read_word-escape_all : (s : Text) → read_word quoted (escape_all s ++ 34 ∷ []) ≡ some s
unfolding escape_all
read_word-escape_all [] = unfold read_word in refl
read_word-escape_all (c ∷ s) =
    rw
      (
        append_assoc (escape_byte c) (escape_all s) (34 ∷ []),
        read_word-escape_byte c (escape_all s ++ 34 ∷ []),
        read_word-escape_all s,
      )
      refl

-- systemd reads a quoted text as one word, which is the text.
pub read_word-systemd_quote : (s : Text) → read_word before (systemd_quote s) ≡ some s
unfolding systemd_quote read_word read_byte
read_word-systemd_quote s = rw (read_word-escape_all s) refl
