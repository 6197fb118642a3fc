-- ===== src/Strconv/RoundTrip.antt =====
-- A printed number is read back.
use k8s_subvol_provisioner.Base.{
  ℕ, zero, suc, ◌+◌, ◌-◌, ◌/◌, ◌%◌, ◌^◌, ◌≤◌, ◌<◌, ◌≡◌, ◌≢◌, refl, [], ◌∷◌, some, arith, All,
}
use native.Mathlib.Numerals.{add-one}
use k8s_subvol_provisioner.Base.Int.{ℤ, pos, negsuc, IsInt64}
use k8s_subvol_provisioner.Text.{Text}
use k8s_subvol_provisioner.Strconv.{
  digits_value, parse_uint, parse_int, digits_onto, format_nat, format_int,
}

abbrev pub IsDigit : ℕ → Type 0
IsDigit c = (b'0' ≤ c) × (c ≤ b'9')

-- Reading the printed digits of `n` in front of `out` is reading `out` behind `n`.
digits_value-digits_onto :
    (f n : ℕ) (out : Text) → n < f → digits_value 10 0 (digits_onto f n out) ≡ digits_value 10 n out
unfolding digits_value digits_onto
digits_value-digits_onto zero n out h = absurd (omega arith)
digits_value-digits_onto (suc f) n out h =
    ground (arith, digits_value-digits_onto f (n / 10) ((b'0' + n % 10) ∷ out))

digits_onto-All : (f n : ℕ) (out : Text) → All IsDigit out → All IsDigit (digits_onto f n out)
unfolding digits_onto
digits_onto-All zero n out h = h
digits_onto-All (suc f) n out h = ground (arith, digits_onto-All f (n / 10) ((b'0' + n % 10) ∷ out))

-- A printed number is made of digits.
pub format_nat-All : (n : ℕ) → All IsDigit (format_nat n)
unfolding format_nat
format_nat-All n = digits_onto-All (n + 1) n [] tt

digits_onto-ne-nil : (f n : ℕ) (out : Text) → out ≢ [] → digits_onto f n out ≢ []
unfolding digits_onto
digits_onto-ne-nil zero n out h = h
digits_onto-ne-nil (suc f) n out h =
    ground (arith, digits_onto-ne-nil f (n / 10) ((b'0' + n % 10) ∷ out))

pub format_nat-ne-nil : (n : ℕ) → format_nat n ≢ []
unfolding format_nat digits_onto
format_nat-ne-nil n =
    rw (add-one) (ground (arith, digits_onto-ne-nil n (n / 10) ((b'0' + n % 10) ∷ [])))

parse_uint_of_digits :
    (limit n : ℕ) (s : Text)
    → s ≢ []
    → digits_value 10 0 s ≡ some n
    → n ≤ limit
    → parse_uint 10 limit s ≡ some n
unfolding parse_uint
parse_uint_of_digits limit n [] h e k = absurd (h refl)
parse_uint_of_digits limit n (c ∷ s) h e k = rw e (ground arith)

pub parse_uint-format_nat : (limit n : ℕ) → n ≤ limit → parse_uint 10 limit (format_nat n) ≡ some n
unfolding digits_value
parse_uint-format_nat limit n h =
    parse_uint_of_digits limit n (format_nat n) (format_nat-ne-nil n)
      (unfold format_nat in digits_value-digits_onto (n + 1) n [] (omega arith)) h

-- A text that starts with a digit has no sign.
parse_int_of_digits :
    (s : Text) (n : ℕ)
    → s ≢ []
    → All IsDigit s
    → parse_uint 10 (2 ^ 63 - 1) s ≡ some n
    → parse_int s ≡ some (pos n)
unfolding parse_int
parse_int_of_digits [] n h d e = absurd (h refl)
parse_int_of_digits (c ∷ s) n h d e = rw e (ground arith)

-- Every 64-bit integer is read back from its print.
pub parse_int-format_int : (x : ℤ) → IsInt64 x → parse_int (format_int x) ≡ some x
unfolding format_int
parse_int-format_int (pos n) h =
    parse_int_of_digits (format_nat n) n (format_nat-ne-nil n) (format_nat-All n)
      (parse_uint-format_nat (2 ^ 63 - 1) n (omega arith))
parse_int-format_int (negsuc n) h =
    unfold parse_int in rw (parse_uint-format_nat (2 ^ 63) (suc n) h) refl
