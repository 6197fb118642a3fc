-- ===== src/Paths.antt =====
-- Package `path`: `path.Clean` and `path.Join`. On Linux `filepath.Join` is the same function.
pub mod Normal
pub mod Within
use k8s_subvol_provisioner.Base.{
  ℕ, Bool, true, false, not, List, [], ◌∷◌, ◌++◌, ◌==◌, if◌then◌else◌, reverse_onto, ◌||◌, ◌&&◌,
}
use k8s_subvol_provisioner.Text.{Text, codes, eq_text, is_empty, split, join}

abbrev pub dot : Text
dot = b'.' ∷ []

abbrev pub dot_dot : Text
dot_dot = b'.' ∷ b'.' ∷ []

abbrev pub slash : Text
slash = b'/' ∷ []

unfoldable pub is_rooted : Text → Bool
is_rooted [] = false
is_rooted (c ∷ s) = c == b'/'

-- The elements of the result so far, the last one first. An element "." or "" goes, ".." takes the
-- element before it away, and where there is none it stays, unless the path begins at the root.
abbrev back_up : Bool → List Text → List Text
back_up rooted [] = if rooted then [] else dot_dot ∷ []
back_up rooted (top ∷ stack) = if eq_text top dot_dot then dot_dot ∷ top ∷ stack else stack

unfoldable pub resolve : Bool → List Text → Text → List Text
resolve rooted stack part =
    if is_empty part || eq_text part dot
    then stack
    else if eq_text part dot_dot
    then back_up rooted stack
    else part ∷ stack

unfoldable pub resolve_all : Bool → List Text → List Text → List Text
resolve_all rooted stack [] = reverse_onto stack []
resolve_all rooted stack (part ∷ parts) = resolve_all rooted (resolve rooted stack part) parts

-- The elements of the cleaned path.
unfoldable pub elements : Text → List Text
elements p = resolve_all (is_rooted p) [] (split b'/' p)

-- The cleaned path, from its elements.
unfoldable pub assemble : Bool → List Text → Text
assemble true parts = b'/' ∷ join slash parts
assemble false [] = dot
assemble false (p ∷ parts) = join slash (p ∷ parts)

-- `path.Clean(p)`
unfoldable pub clean : Text → Text
clean p = assemble (is_rooted p) (elements p)

-- `path.Join(a, b)`
unfoldable pub join_path : Text → Text → Text
join_path a b = if is_empty a then (if is_empty b then [] else clean b) else clean (a ++ b'/' ∷ b)
