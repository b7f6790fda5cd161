-- ===== src/Path.antt =====
-- Lexical paths: Clean of packages path and path/filepath on Unix.
pub mod Clean
pub mod Under
use mathlib.Core.List.{reverse}
use sigarda_panel.Common.{Bool, true, false, ◌||◌, List, [], ◌∷◌, ◌++◌, if◌then◌else◌, ◌==◌}
use sigarda_panel.Text.{Text, codes, eqb, split, join, has_prefix}

abbrev pub slash : Text
slash = codes "/"

abbrev pub dot : Text
dot = codes "."

abbrev pub dotdot : Text
dotdot = codes ".."

unfoldable pub is_rooted : Text → Bool
is_rooted [] = false
is_rooted (c ∷ s) = c == b'/'

-- A ".." : it takes the last part back; at the root it is dropped, and before it is kept.
up : Bool → List Text → List Text
up rooted [] = if rooted then [] else dotdot ∷ []
up rooted (top ∷ stack) = if eqb top dotdot then dotdot ∷ top ∷ stack else stack

-- One part of the path; the stack has the last part at its head.
resolve : Bool → List Text → Text → List Text
resolve rooted stack part =
    if eqb part [] || eqb part dot
    then stack
    else if eqb part dotdot
    then up rooted stack
    else part ∷ stack

resolve_all : Bool → List Text → List Text → List Text
resolve_all rooted stack [] = stack
resolve_all rooted stack (part ∷ parts) = resolve_all rooted (resolve rooted stack part) parts

-- The parts of the cleaned path.
unfoldable pub segments : Text → List Text
unfolding resolve_all resolve up is_rooted split eqb
segments p = reverse (resolve_all (is_rooted p) [] (split b'/' p))

or_dot : List Text → Text
or_dot [] = dot
or_dot (part ∷ parts) = join b'/' (part ∷ parts)

-- path.Clean
unfoldable pub clean : Text → Text
unfolding or_dot
clean p = if is_rooted p then b'/' ∷ join b'/' (segments p) else or_dot (segments p)

-- p == dir || strings.HasPrefix(p, dir+"/"), for paths that are clean
unfoldable pub is_within : Text → Text → Bool
is_within dir p = eqb p dir || has_prefix p (dir ++ slash)
