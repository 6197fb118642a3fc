-- ===== src/Paths/Normal.antt =====
-- The elements of a cleaned path.
use k8s_subvol_provisioner.Base.{
  ◌≢◌, Bool, true, false, List, [], ◌∷◌, arith, All, All-reverse_onto,
}
use k8s_subvol_provisioner.Text.{Text, split}
use k8s_subvol_provisioner.Text.Equality.{eq_text_iff, is_empty_iff}
use k8s_subvol_provisioner.Text.Splitting.{Lacks, split-Lacks}
use k8s_subvol_provisioner.Paths.{dot, dot_dot, resolve, resolve_all, elements, back_up}

-- An element that is the name of a file below the directory: not "", not ".", not "..", no slash.
abbrev pub IsName : Text → Type 0
IsName part = (part ≢ []) × (part ≢ dot) × (part ≢ dot_dot) × Lacks b'/' part

-- An element of a cleaned path.
abbrev pub IsElement : Text → Type 0
IsElement part = (part ≢ []) × (part ≢ dot) × Lacks b'/' part

back_up-All :
    (rooted : Bool) (stack : List Text) → All IsElement stack → All IsElement (back_up rooted stack)
back_up-All true [] h = tt
back_up-All false [] h = (((cc), (cc), (omega arith)), tt)
back_up-All rooted (top ∷ stack) (e, h) = ground (arith, eq_text_iff top dot_dot)

resolve-All :
    (rooted : Bool) (stack : List Text) (part : Text)
    → All IsElement stack
    → Lacks b'/' part
    → All IsElement (resolve rooted stack part)
unfolding resolve
resolve-All rooted stack part h k = ground (
  arith,
  back_up-All rooted stack h,
  is_empty_iff part,
  eq_text_iff part dot,
  eq_text_iff part dot_dot,
)

resolve_all-All :
    (rooted : Bool) (stack parts : List Text)
    → All IsElement stack
    → All (Lacks b'/') parts
    → All IsElement (resolve_all rooted stack parts)
unfolding resolve_all
resolve_all-All rooted stack [] h k = All-reverse_onto IsElement stack [] h tt
resolve_all-All rooted stack (part ∷ parts) h (k, ks) =
    resolve_all-All rooted (resolve rooted stack part) parts (resolve-All rooted stack part h k) ks

-- No element is empty, "." or holds a slash.
pub elements-All : (p : Text) → All IsElement (elements p)
unfolding elements
elements-All p = resolve_all-All _ [] (split b'/' p) tt (split-Lacks b'/' p)
