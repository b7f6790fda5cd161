-- ===== src/SiteInput/Paths.antt =====
-- The validators of paths and URLs.
use sigarda_panel.Common.{
  ℕ, suc, Bool, true, false, not, ◌||◌, ◌&&◌, List, [], ◌∷◌, Option, none, some, ltb, ◌==◌,
  if◌then◌else◌, any, length,
}
use sigarda_panel.Common.Check.{Check, reject, ◌>>◌}
use sigarda_panel.Common.Int.{atoi, is_port}
use sigarda_panel.Text.{Text, codes, eqb, split, cut, has_prefix}
use sigarda_panel.Path.{clean, dotdot, is_within}
use sigarda_panel.Regex.{matches}
use sigarda_panel.SiteInput.Patterns.{root_path_re, proxy_pass_re}
use sigarda_panel.SiteInput.Values.{member}

unfoldable pub root_path : Text → Check
root_path s =
    reject (ltb 512 (length s) || not (matches root_path_re s)) "invalid root_path"
    >> reject (any (λ seg. eqb seg dotdot) (split b'/' s)) "invalid root_path"

unfoldable pub under_root : Text → Text → Bool
under_root dir p = is_within (clean dir) (clean p)

-- strings.LastIndex(s, one byte) as a position and what stands behind it
last_after : ℕ → ℕ → Text → Option (ℕ × Text)
last_after b i [] = none
last_after b i (c ∷ s) = elim (last_after b (suc i) s) [
  | some r ↦ some r
  | none ↦ if c == b then some (i, s) else none
]

-- strings.Index(s, sub) + 1
index_succ : ℕ → Text → Text → ℕ
unfolding has_prefix
index_succ i [] sub = if has_prefix [] sub then suc i else 0
index_succ i (c ∷ s) sub =
    let rest = index_succ (suc i) s sub in if has_prefix (c ∷ s) sub then suc i else rest

-- What stands before the first "/" must be no number out of range.
port_out_of_range : Text → Bool
port_out_of_range rest = elim (atoi (cut b'/' rest).0) [ none ↦ false | some n ↦ not (is_port n) ]

port_check : ℕ → Option (ℕ × Text) → Bool
unfolding port_out_of_range
port_check scheme none = false
port_check scheme (some (i, rest)) = ltb scheme i && port_out_of_range rest

unfoldable pub proxy_pass_url : Text → Check
unfolding port_check last_after index_succ
proxy_pass_url s =
    reject (ltb 512 (length s) || not (matches proxy_pass_re s))
      "invalid proxy_pass_url (expected http(s)://host[:port][/path])"
    >> reject (port_check (index_succ 0 s (codes "//")) (last_after b':' 0 s))
        "invalid proxy_pass_url port"

abbrev pub protected_top_dirs : List Text
protected_top_dirs =
    codes "etc"
    ∷ codes "usr"
    ∷ codes "bin"
    ∷ codes "sbin"
    ∷ codes "lib"
    ∷ codes "lib32"
    ∷ codes "lib64"
    ∷ codes "boot"
    ∷ codes "dev"
    ∷ codes "proc"
    ∷ codes "sys"
    ∷ codes "run"
    ∷ codes "root"
    ∷ codes "snap"
    ∷ []

unfoldable pub trim_left : ℕ → Text → Text
trim_left b [] = []
trim_left b (c ∷ s) = let rest = trim_left b s in if c == b then rest else c ∷ s

unfoldable pub drop_if : ℕ → ℕ → Text
drop_if b c = if c == b then [] else c ∷ []

unfoldable pub cons_trimmed : ℕ → ℕ → Text → Text
unfolding drop_if
cons_trimmed b c [] = drop_if b c
cons_trimmed b c (d ∷ s) = c ∷ d ∷ s

unfoldable pub trim_right : ℕ → Text → Text
unfolding cons_trimmed
trim_right b [] = []
trim_right b (c ∷ s) = cons_trimmed b c (trim_right b s)

-- strings.Trim(s, one byte)
unfoldable pub trim : ℕ → Text → Text
unfolding trim_left trim_right
trim b s = trim_right b (trim_left b s)

-- The location itself: too near the root, in a system tree, or a bare home directory.
unfoldable pub is_refused_location : List Text → Bool
unfolding eqb member
is_refused_location [] = true
is_refused_location (top ∷ []) = true
is_refused_location (top ∷ sub ∷ []) = member top protected_top_dirs || eqb top (codes "home")
is_refused_location (top ∷ sub ∷ more) = member top protected_top_dirs

unfoldable pub root_path_allowed : Text → Check
unfolding trim
root_path_allowed p =
    root_path p
    >> reject (is_refused_location (split b'/' (trim b'/' (clean p))))
        "root_path is not an allowed location"
