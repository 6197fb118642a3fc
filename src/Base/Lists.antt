-- ===== src/Base/Lists.antt =====
-- Lists measured by native numbers, and predicates on all their items.
use Prim.Native.Nat.{ℕ, suc}
use mathlib.Core.Path.{◌≡◌, refl}
use mathlib.Core.List.{List, [], ◌∷◌, ◌++◌}

module _ {ℓ} {A : Type ℓ} where
  abbrev pub length : List A → ℕ
  length [] = 0
  length (x ∷ xs) = suc (length xs)

  -- A list built by `append(xs, x)`, turned round: `reverse_onto xs ys` is `xs` reversed, then `ys`.
  unfoldable pub reverse_onto : List A → List A → List A
  reverse_onto [] ys = ys
  reverse_onto (x ∷ xs) ys = reverse_onto xs (x ∷ ys)

  pub reverse_onto-append :
      (xs ys zs : List A) → reverse_onto xs ys ++ zs ≡ reverse_onto xs (ys ++ zs)
  unfolding reverse_onto
  reverse_onto-append [] ys zs = refl
  reverse_onto-append (x ∷ xs) ys zs = reverse_onto-append xs (x ∷ ys) zs

module _ {ℓ κ} {A : Type ℓ} (P : A → Type κ) where
  abbrev pub All : List A → Type κ
  All [] = Unit
  All (x ∷ xs) = P x × All xs

  pub All-append : (xs ys : List A) → All xs → All ys → All (xs ++ ys)
  All-append [] ys _ hy = hy
  All-append (x ∷ xs) ys (px, hx) hy = (px, All-append xs ys hx hy)

  pub All-reverse_onto : (xs ys : List A) → All xs → All ys → All (reverse_onto xs ys)
  unfolding reverse_onto
  All-reverse_onto [] ys _ hy = hy
  All-reverse_onto (x ∷ xs) ys (px, hx) hy = All-reverse_onto xs (x ∷ ys) hx (px, hy)
