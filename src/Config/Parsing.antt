-- ===== src/Config/Parsing.antt =====
-- What the parsers of types.go accept, and what they return.
pub mod Lines
use k8s_subvol_provisioner.Base.{
  ℕ, ◌+◌, ◌*◌, ◌-◌, ◌^◌, ◌≤◌, ◌<◌, ◌≡◌, ◌≢◌, refl, ap, ◌∙◌, ◌↔◌, true, false, List, [], ◌∷◌, ◌++◌,
  none, some, arith, All, All-append,
}
use k8s_subvol_provisioner.Base.Int.{ℤ, pos, negsuc, IsInt64}
use k8s_subvol_provisioner.Text.{Text, is_space, is_empty, trim_space, split}
use k8s_subvol_provisioner.Text.Equality.{is_empty_iff}
use k8s_subvol_provisioner.Text.Trimming.{trim_of_All}
use k8s_subvol_provisioner.Text.Splitting.{Lacks, split-append_sep, split_of_Lacks}
use k8s_subvol_provisioner.Strconv.{parse_int, parse_uint, digits_value, format_int, format_nat}
use k8s_subvol_provisioner.Strconv.RoundTrip.{
  IsDigit, format_nat-All, format_nat-ne-nil, parse_int-format_int,
}
use k8s_subvol_provisioner.Errors.{ok}
use k8s_subvol_provisioner.Config.{Ownership, FileMode, parse_ownership, parse_file_mode}

-- A character of a printed integer.
abbrev IsNumeral : ℕ → Type 0
IsNumeral c = (is_space c ≡ false) × (c ≢ b':')

IsNumeral-of_digit : (c : ℕ) → IsDigit c → IsNumeral c
unfolding is_space
IsNumeral-of_digit c h = ground arith

All-IsNumeral : (s : Text) → All IsDigit s → All IsNumeral s
All-IsNumeral [] h = tt
All-IsNumeral (c ∷ s) (h, hs) = (IsNumeral-of_digit c h, All-IsNumeral s hs)

format_int-IsNumeral : (x : ℤ) → All IsNumeral (format_int x)
unfolding format_int
format_int-IsNumeral (pos n) = All-IsNumeral (format_nat n) (format_nat-All n)
format_int-IsNumeral (negsuc n) =
    ((unfold is_space in refl, omega arith), All-IsNumeral (format_nat _) (format_nat-All _))

All-fst : (s : Text) → All IsNumeral s → All (λ c. is_space c ≡ false) s
All-fst [] h = tt
All-fst (c ∷ s) (h, hs) = (h.0, All-fst s hs)

All-snd : (s : Text) → All IsNumeral s → Lacks b':' s
All-snd [] h = tt
All-snd (c ∷ s) (h, hs) = (h.1, All-snd s hs)

-- The numeral of an integer has no space.
pub format_int-plain : (x : ℤ) → All (λ c. is_space c ≡ false) (format_int x)
format_int-plain x = All-fst _ (format_int-IsNumeral x)

-- The text "UID:GID".
abbrev pub format_ownership : Ownership → Text
format_ownership o = format_int o.uid ++ b':' ∷ format_int o.gid

trim-format_ownership : (o : Ownership) → trim_space (format_ownership o) ≡ format_ownership o
unfolding trim_space
trim-format_ownership o = trim_of_All is_space (format_ownership o) (
    All-append _ (format_int o.uid) (b':' ∷ format_int o.gid)
      (All-fst _ (format_int-IsNumeral o.uid))
      (unfold is_space in refl, All-fst _ (format_int-IsNumeral o.gid)))

split-format_ownership :
    (o : Ownership) → split b':' (format_ownership o) ≡ format_int o.uid ∷ format_int o.gid ∷ []
split-format_ownership o =
    split-append_sep b':' (format_int o.uid) (format_int o.gid)
      (All-snd _ (format_int-IsNumeral o.uid))
    ∙ ap (λ r. format_int o.uid ∷ r)
        (split_of_Lacks b':' (format_int o.gid) (All-snd _ (format_int-IsNumeral o.gid)))

is_empty-append : (s t : Text) (c : ℕ) → is_empty (s ++ c ∷ t) ≡ false
unfolding is_empty
is_empty-append [] t c = refl
is_empty-append (d ∷ s) t c = refl

-- Every UID and GID of 64 bits, printed as "UID:GID", is read back.
pub parse_ownership-format_ownership :
    (o : Ownership)
    → IsInt64 o.uid
    → IsInt64 o.gid
    → parse_ownership (format_ownership o) ≡ ok (some o)
unfolding parse_ownership
parse_ownership-format_ownership o hu hg = rw (
  trim-format_ownership o,
  is_empty-append (format_int o.uid) (format_int o.gid) b':',
  split-format_ownership o,
  parse_int-format_int o.uid hu,
  parse_int-format_int o.gid hg,
)

abbrev pub IsOctal : ℕ → Type 0
IsOctal c = (b'0' ≤ c) × (c ≤ b'7')

-- The number that octal digits spell behind `n`, with no bound.
abbrev pub octal_value : ℕ → Text → ℕ
octal_value n [] = n
octal_value n (c ∷ s) = octal_value (n * 8 + (c - b'0')) s

digits_value_sound :
    (n m : ℕ) (s : Text) → digits_value 8 n s ≡ some m → All IsOctal s × (octal_value n s ≡ m)
unfolding digits_value
digits_value_sound n m [] h = ground arith
digits_value_sound n m (c ∷ s) h = ground (arith, digits_value_sound (n * 8 + (c - b'0')) m s)

digits_value_complete :
    (n : ℕ) (s : Text) → All IsOctal s → digits_value 8 n s ≡ some (octal_value n s)
unfolding digits_value
digits_value_complete n [] h = refl
digits_value_complete n (c ∷ s) (h, hs) =
    ground (arith, digits_value_complete (n * 8 + (c - b'0')) s hs)

abbrev pub IsMode : Text → ℕ → Type 0
IsMode t m = (t ≢ []) × All IsOctal t × (octal_value 0 t ≡ m) × (m < 2 ^ 32)

parse_uint_iff : (t : Text) (m : ℕ) → (parse_uint 8 (2 ^ 32 - 1) t ≡ some m) ↔ IsMode t m
unfolding parse_uint
parse_uint_iff [] m = ground arith
parse_uint_iff (c ∷ s) m =
    ground (arith, digits_value_sound 0 m (c ∷ s), digits_value_complete 0 (c ∷ s))

-- A file mode is read exactly from a text that is, up to spaces around it, one or more octal digits
-- of a number below 2^32, and it is that number.
pub parse_file_mode_iff :
    (s : Text) (m : FileMode) → (parse_file_mode s ≡ ok (some m)) ↔ IsMode (trim_space s) m
unfolding parse_file_mode
parse_file_mode_iff s m =
    ground (arith, parse_uint_iff (trim_space s) m, is_empty_iff (trim_space s))
