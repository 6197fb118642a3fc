-- ===== src/Paths/Within.antt =====
-- A safe relative path stays below the directory that it is joined to.
use k8s_subvol_provisioner.Base.{
  ◌≡◌, ◌≢◌, refl, ◌⊎◌, inl, inr, Bool, true, false, List, [], ◌∷◌, ◌++◌, append-nil, arith, All,
  reverse_onto, ap,
}
use k8s_subvol_provisioner.Base.Lists.{reverse_onto-append}
use k8s_subvol_provisioner.Text.{Text, eq_text, is_empty, has_prefix, split, join}
use k8s_subvol_provisioner.Text.Equality.{eq_text_iff, is_empty_iff}
use k8s_subvol_provisioner.Text.Splitting.{
  Lacks, split-Lacks, split-join, split-append, split_of_Lacks, split-ne-nil, join-split,
  join-append,
}
use k8s_subvol_provisioner.Paths.{
  dot, dot_dot, slash, is_rooted, resolve, resolve_all, elements, assemble, clean, join_path,
}
use k8s_subvol_provisioner.Paths.Normal.{IsName}

-- A relative path that names the directory itself or something below it.
abbrev pub IsSafe : Text → Type 0
IsSafe p = (p ≡ dot) ⊎ All IsName (split b'/' p)

-- The stack of a relative path: names above "..".
abbrev AllDots : List Text → Type 0
AllDots = All (λ p. p ≡ dot_dot)

abbrev IsStack : List Text → Type 0
IsStack [] = Unit
IsStack (top ∷ stack) = (IsName top × IsStack stack) ⊎ ((top ≡ dot_dot) × AllDots stack)

resolve-IsStack :
    (stack : List Text) (part : Text)
    → IsStack stack
    → Lacks b'/' part
    → IsStack (resolve false stack part)
unfolding resolve
resolve-IsStack [] part h k =
    ground (arith, is_empty_iff part, eq_text_iff part dot, eq_text_iff part dot_dot)
resolve-IsStack (top ∷ stack) part h k = ground (
  arith,
  is_empty_iff part,
  eq_text_iff part dot,
  eq_text_iff part dot_dot,
  eq_text_iff top dot_dot,
)

-- The elements of a relative path: ".." first, then names.
abbrev IsRun : List Text → Type 0
IsRun [] = Unit
IsRun (e ∷ es) = ((e ≡ dot_dot) × IsRun es) ⊎ All IsName (e ∷ es)

reverse_onto-IsRun_dots :
    (stack es : List Text) → AllDots stack → IsRun es → IsRun (reverse_onto stack es)
unfolding reverse_onto
reverse_onto-IsRun_dots [] es h k = k
reverse_onto-IsRun_dots (top ∷ stack) es (h, hs) k =
    reverse_onto-IsRun_dots stack (top ∷ es) hs (inl (h, k))

IsRun-of_names : (es : List Text) → All IsName es → IsRun es
IsRun-of_names [] h = tt
IsRun-of_names (e ∷ es) h = inr h

reverse_onto-IsRun :
    (stack es : List Text) → IsStack stack → All IsName es → IsRun (reverse_onto stack es)
unfolding reverse_onto
reverse_onto-IsRun [] es h k = IsRun-of_names es k
reverse_onto-IsRun (top ∷ stack) es (inl (h, hs)) k = reverse_onto-IsRun stack (top ∷ es) hs (h, k)
reverse_onto-IsRun (top ∷ stack) es (inr (h, hs)) k =
    reverse_onto-IsRun_dots stack (top ∷ es) hs (inl (h, IsRun-of_names es k))

resolve_all-IsRun :
    (stack parts : List Text)
    → IsStack stack
    → All (Lacks b'/') parts
    → IsRun (resolve_all false stack parts)
unfolding resolve_all
resolve_all-IsRun stack [] h k = reverse_onto-IsRun stack [] h tt
resolve_all-IsRun stack (part ∷ parts) h (k, ks) =
    resolve_all-IsRun (resolve false stack part) parts (resolve-IsStack stack part h k) ks

names-Lacks : (es : List Text) → All IsName es → All (Lacks b'/') es
names-Lacks [] h = tt
names-Lacks (e ∷ es) (h, hs) = (h.3, names-Lacks es hs)

has_prefix-join_dots : (es : List Text) → has_prefix (join slash (dot_dot ∷ es)) dot_dot ≡ true
unfolding join has_prefix
has_prefix-join_dots [] = refl
has_prefix-join_dots (e ∷ es) = refl

assemble-IsSafe :
    (es : List Text)
    → IsRun es
    → has_prefix (assemble false es) dot_dot ≡ false
    → IsSafe (assemble false es)
unfolding assemble
assemble-IsSafe [] run h = inl refl
assemble-IsSafe (e ∷ es) (inl (d, run)) h =
    absurd
      (cc (has_prefix-join_dots es, ap (λ (t : Text). has_prefix (join slash (t ∷ es)) dot_dot) d))
assemble-IsSafe (e ∷ es) (inr (n, ns)) h =
    inr (rw (split-join b'/' e es n.3 (names-Lacks es ns)) (n, ns))

-- A cleaned path that is not rooted and does not begin with ".." is safe.
pub clean-IsSafe :
    (p : Text) → is_rooted p ≡ false → has_prefix (clean p) dot_dot ≡ false → IsSafe (clean p)
unfolding clean elements
clean-IsSafe p r h = rw r (
    assemble-IsSafe (resolve_all false [] (split b'/' p))
      (resolve_all-IsRun [] (split b'/' p) tt (split-Lacks b'/' p)) (rw r at h))

-- The elements behind more parts, if those are names.
resolve_name :
    (rooted : Bool) (stack : List Text) (part : Text)
    → IsName part
    → resolve rooted stack part ≡ part ∷ stack
unfolding resolve
resolve_name rooted stack part h =
    ground (arith, is_empty_iff part, eq_text_iff part dot, eq_text_iff part dot_dot)

resolve_all_of_names :
    (rooted : Bool) (stack parts : List Text)
    → All IsName parts
    → resolve_all rooted stack parts ≡ reverse_onto stack [] ++ parts
unfolding resolve_all reverse_onto
resolve_all_of_names rooted stack [] h = rw append-nil
resolve_all_of_names rooted stack (part ∷ parts) (h, hs) =
    rw (resolve_name rooted stack part h, resolve_all_of_names rooted (part ∷ stack) parts hs)
      (rw (reverse_onto-append, reverse_onto-append))

resolve_all-append :
    (rooted : Bool) (stack ps qs : List Text)
    → All IsName qs
    → resolve_all rooted stack (ps ++ qs) ≡ resolve_all rooted stack ps ++ qs
unfolding resolve_all
resolve_all-append rooted stack [] qs h = resolve_all_of_names rooted stack qs h
resolve_all-append rooted stack (p ∷ ps) qs h =
    resolve_all-append rooted (resolve rooted stack p) ps qs h

is_rooted-append : (a b : Text) → a ≢ [] → is_rooted (a ++ b) ≡ is_rooted a
unfolding is_rooted
is_rooted-append [] b h = absurd (h refl)
is_rooted-append (c ∷ a) b h = refl

assemble-append :
    (rooted : Bool) (es qs : List Text)
    → es ≢ []
    → qs ≢ []
    → assemble rooted (es ++ qs) ≡ assemble rooted es ++ b'/' ∷ join slash qs
unfolding assemble
assemble-append rooted [] qs h k = absurd (h refl)
assemble-append true (e ∷ es) qs h k = ap (λ r. b'/' ∷ r) (join-append b'/' e es qs k)
assemble-append false (e ∷ es) qs h k = join-append b'/' e es qs k

is_empty-ne : (a : Text) → a ≢ [] → is_empty a ≡ false
is_empty-ne a h = ground (arith, is_empty_iff a)

-- A path of names, joined to a directory that is not "", "/" or ".", is the cleaned directory, a
-- slash and the path.
pub join_path-names :
    (a b : Text)
    → a ≢ []
    → elements a ≢ []
    → All IsName (split b'/' b)
    → join_path a b ≡ clean a ++ b'/' ∷ b
unfolding join_path clean elements
join_path-names a b h k names = rw (
  is_empty-ne a h,
  is_rooted-append a (b'/' ∷ b) h,
  split-append b'/' a b,
  resolve_all-append (is_rooted a) [] (split b'/' a) (split b'/' b) names,
  assemble-append (is_rooted a) _ (split b'/' b) k (split-ne-nil b'/' b),
  join-split b'/' b,
)

resolve_all_of_dot :
    (rooted : Bool) (stack ps : List Text)
    → resolve_all rooted stack (ps ++ dot ∷ []) ≡ resolve_all rooted stack ps
unfolding resolve_all
resolve_all_of_dot rooted stack [] = unfold resolve eq_text is_empty in refl
resolve_all_of_dot rooted stack (p ∷ ps) = resolve_all_of_dot rooted (resolve rooted stack p) ps

-- Joining "." gives the cleaned directory.
pub join_path-dot : (a : Text) → a ≢ [] → join_path a dot ≡ clean a
unfolding join_path clean elements
join_path-dot a h = rw (
  is_empty-ne a h,
  is_rooted-append a (b'/' ∷ dot) h,
  split-append b'/' a dot,
  split_of_Lacks b'/' dot (omega arith),
  resolve_all_of_dot (is_rooted a) [] (split b'/' a),
)

-- A safe path joined to a directory that is not "", "/" or "." gives the cleaned directory, or that,
-- a slash and a path of names.
pub join_path-IsSafe :
    (a p : Text)
    → a ≢ []
    → elements a ≢ []
    → IsSafe p
    → (join_path a p ≡ clean a)
      ⊎ ((join_path a p ≡ clean a ++ b'/' ∷ p) × All IsName (split b'/' p))
join_path-IsSafe a p h k (inl e) = inl (rw e (join_path-dot a h))
join_path-IsSafe a p h k (inr names) = inr (join_path-names a p h k names, names)
