-- ===== src/Text.antt =====
-- Go strings as lists of code points, and the functions of package `strings` that the program
-- calls. A string of a Kubernetes object or of a Go literal is valid UTF-8, and every separator
-- that the program names is ASCII, so an operation on the bytes is the same operation on these.
pub mod Equality
pub mod Trimming
pub mod Splitting
use Prim.Native.Char.{code}
use Prim.Native.String.{String}
use k8s_subvol_provisioner.Base.{
  ℕ, Bool, true, false, ◌&&◌, ◌||◌, List, [], ◌∷◌, ◌++◌, Option, none, some, leb, ◌==◌,
  if◌then◌else◌, reverse_onto,
}

abbrev pub Text : Type 0
Text = List ℕ

-- The code points of a literal. Shut, so that a literal stays a literal until a test opens it.
unfoldable pub codes : String → Text
codes String.[] = []
codes (String.◌∷◌ c s) = code c ∷ codes s

-- `s == t`
unfoldable pub eq_text : Text → Text → Bool
eq_text [] [] = true
eq_text [] (d ∷ t) = false
eq_text (c ∷ s) [] = false
eq_text (c ∷ s) (d ∷ t) = c == d && eq_text s t

-- `s == ""`
unfoldable pub is_empty : Text → Bool
is_empty [] = true
is_empty (c ∷ s) = false

-- `strings.HasPrefix(s, p)`
unfoldable pub has_prefix : Text → Text → Bool
has_prefix s [] = true
has_prefix [] (d ∷ p) = false
has_prefix (c ∷ s) (d ∷ p) = c == d && has_prefix s p

-- `strings.Contains(s, t)`
unfoldable pub contains : Text → Text → Bool
contains [] t = has_prefix [] t
contains (c ∷ s) t = has_prefix (c ∷ s) t || contains s t

-- `strings.Contains(s, sep)` for a separator of one character
unfoldable pub contains_char : Text → ℕ → Bool
contains_char [] d = false
contains_char (c ∷ s) d = c == d || contains_char s d

-- `unicode.IsSpace`
unfoldable pub is_space : ℕ → Bool
is_space c =
    (leb 9 c && leb c 13)
    || c == 32
    || c == 0x85
    || c == 0xa0
    || c == 0x1680
    || (leb 0x2000 c && leb c 0x200a)
    || c == 0x2028
    || c == 0x2029
    || c == 0x202f
    || c == 0x205f
    || c == 0x3000

-- `strings.TrimLeftFunc` and `strings.TrimRightFunc`
unfoldable pub trim_left : (ℕ → Bool) → Text → Text
trim_left p [] = []
trim_left p (c ∷ s) = if p c then trim_left p s else c ∷ s

-- A space goes if nothing but spaces stands behind it.
abbrev keep_unless : Bool → ℕ → Text → Text
keep_unless drop c [] = if drop then [] else c ∷ []
keep_unless drop c (d ∷ r) = c ∷ d ∷ r

unfoldable pub trim_right : (ℕ → Bool) → Text → Text
trim_right p [] = []
trim_right p (c ∷ s) = keep_unless (p c) c (trim_right p s)

unfoldable pub trim : (ℕ → Bool) → Text → Text
trim p s = trim_right p (trim_left p s)

-- `strings.TrimSpace`
unfoldable pub trim_space : Text → Text
trim_space s = trim is_space s

-- `strings.TrimSuffix(s, d)` for a suffix of one character
unfoldable pub trim_suffix : Text → ℕ → Text
trim_suffix [] d = []
trim_suffix (c ∷ []) d = if c == d then [] else c ∷ []
trim_suffix (c ∷ e ∷ s) d = c ∷ trim_suffix (e ∷ s) d

-- `strings.SplitN(s, sep, 2)` where the separator occurs: the texts before and after its first
-- occurrence, which `strings.Index` finds.
abbrev push_first : ℕ → Option (Text × Text) → Option (Text × Text)
push_first c none = none
push_first c (some (a, b)) = some (c ∷ a, b)

unfoldable pub split_first : ℕ → Text → Option (Text × Text)
split_first d [] = none
split_first d (c ∷ s) =
    let rest = split_first d s in if c == d then some ([], s) else push_first c rest

-- The texts before and after the last occurrence, which `strings.LastIndex` finds.
abbrev last_or_here : Bool → ℕ → Text → Option (Text × Text) → Option (Text × Text)
last_or_here here c s none = if here then some ([], s) else none
last_or_here here c s (some (a, b)) = some (c ∷ a, b)

unfoldable pub split_last : ℕ → Text → Option (Text × Text)
split_last d [] = none
split_last d (c ∷ s) = last_or_here (c == d) c s (split_last d s)

-- `strings.Split(s, sep)`
abbrev pub push_part : ℕ → List Text → List Text
push_part c [] = (c ∷ []) ∷ []
push_part c (p ∷ ps) = (c ∷ p) ∷ ps

unfoldable pub split : ℕ → Text → List Text
split d [] = [] ∷ []
split d (c ∷ s) = let rest = split d s in if c == d then [] ∷ rest else push_part c rest

-- `strings.Join(parts, sep)`
unfoldable pub join : Text → List Text → Text
join sep [] = []
join sep (p ∷ []) = p
join sep (p ∷ q ∷ ps) = p ++ (sep ++ join sep (q ∷ ps))

-- `strings.Fields`: the runs of characters that are no space. `cur` is the run being read, with
-- its last character first.
abbrev flush : Text → List Text → List Text
flush [] fields = fields
flush (c ∷ cur) fields = reverse_onto (c ∷ cur) [] ∷ fields

fields_from : Text → Text → List Text
fields_from cur [] = flush cur []
fields_from cur (c ∷ s) =
    let closed = fields_from [] s in
    let longer = fields_from (c ∷ cur) s in if is_space c then flush cur closed else longer

unfoldable pub fields : Text → List Text
unfolding fields_from
fields s = fields_from [] s

-- The arrow of the texts that describe a change
abbrev pub arrow : Text
arrow = codes "→"
