-- ===== src/Strconv.antt =====
-- Package `strconv`, as far as the program calls it. A result is `none` where Go returns an error;
-- the program never tells a syntax error from a range error.
pub mod RoundTrip
use k8s_subvol_provisioner.Base.{
  ℕ, zero, suc, ◌+◌, ◌-◌, ◌*◌, ◌/◌, ◌%◌, ◌^◌, Bool, true, false, ◌||◌, [], ◌∷◌, ◌++◌, Option, none,
  some, ltb, leb, ◌==◌, if◌then◌else◌,
}
use k8s_subvol_provisioner.Base.Int.{ℤ, pos, negsuc}
use k8s_subvol_provisioner.Text.{Text}

-- The digits of a number in a base of at most ten, read behind the number `n`.
unfoldable pub digits_value : ℕ → ℕ → Text → Option ℕ
digits_value base n [] = some n
digits_value base n (c ∷ s) =
    let d = c - b'0' in
    if ltb c b'0' || leb base d then none else digits_value base (n * base + d) s

abbrev at_most : ℕ → Option ℕ → Option ℕ
at_most limit none = none
at_most limit (some n) = if leb n limit then some n else none

-- `strconv.ParseUint(s, base, bits)` with `limit` for the largest number of `bits` bits
unfoldable pub parse_uint : ℕ → ℕ → Text → Option ℕ
parse_uint base limit [] = none
parse_uint base limit (c ∷ s) = at_most limit (digits_value base 0 (c ∷ s))

abbrev as_pos : Option ℕ → Option ℤ
as_pos none = none
as_pos (some n) = some (pos n)

abbrev as_neg : Option ℕ → Option ℤ
as_neg none = none
as_neg (some zero) = some (pos 0)
as_neg (some (suc n)) = some (negsuc n)

-- `strconv.ParseInt(s, 10, 64)`, and `strconv.Atoi(s)` where `int` has 64 bits
unfoldable pub parse_int : Text → Option ℤ
parse_int [] = none
parse_int (c ∷ s) =
    if c == b'-'
    then as_neg (parse_uint 10 (2 ^ 63) s)
    else if c == b'+'
    then as_pos (parse_uint 10 (2 ^ 63 - 1) s)
    else as_pos (parse_uint 10 (2 ^ 63 - 1) (c ∷ s))

-- The decimal digits of `n` in front of `out`. A number has fewer digits than its value plus one,
-- so `n + 1` rounds are enough.
unfoldable pub digits_onto : ℕ → ℕ → Text → Text
digits_onto zero n out = out
digits_onto (suc f) n out =
    let more = digits_onto f (n / 10) ((b'0' + n % 10) ∷ out) in
    if ltb n 10 then (b'0' + n) ∷ out else more

unfoldable pub format_nat : ℕ → Text
format_nat n = digits_onto (n + 1) n []

-- `strconv.FormatInt(n, 10)`, and the verb `%d`
unfoldable pub format_int : ℤ → Text
format_int (pos n) = format_nat n
format_int (negsuc n) = b'-' ∷ format_nat (suc n)
