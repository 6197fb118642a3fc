-- ===== src/Dict.antt =====
-- Go's `map[string]V`. A map is a list of its entries, in an order that stands for the unspecified
-- order of `range`: what is proved for every list holds whatever the order.
pub mod Laws
pub mod Order
use k8s_subvol_provisioner.Base.{
  Bool, true, false, List, [], ◌∷◌, Option, none, some, if◌then◌else◌,
}
use k8s_subvol_provisioner.Text.{Text, eq_text}

abbrev pub Dict {ℓ} : Type ℓ → Type ℓ
Dict V = List (Text × V)

module _ {ℓ} {V : Type ℓ} where
  -- `v, ok := m[k]`
  unfoldable pub lookup : Text → Dict V → Option V
  lookup k [] = none
  lookup k ((j, v) ∷ m) = if eq_text j k then some v else lookup k m

  -- `_, ok := m[k]`
  unfoldable pub has_key : Text → Dict V → Bool
  has_key k [] = false
  has_key k ((j, v) ∷ m) = if eq_text j k then true else has_key k m

  -- `m[k] = v`
  unfoldable pub insert : Text → V → Dict V → Dict V
  insert k v [] = (k, v) ∷ []
  insert k v ((j, w) ∷ m) = if eq_text j k then (k, v) ∷ m else (j, w) ∷ insert k v m

  -- `delete(m, k)`
  unfoldable pub erase : Text → Dict V → Dict V
  erase k [] = []
  erase k ((j, w) ∷ m) = let rest = erase k m in if eq_text j k then rest else (j, w) ∷ rest

  -- `for k, v := range n { m[k] = v }`
  unfoldable pub overlay : Dict V → Dict V → Dict V
  unfolding insert
  overlay m [] = m
  overlay m ((k, v) ∷ n) = overlay (insert k v m) n

-- `m[k]` in a map of strings, where a missing key reads as ""
abbrev pub or_nil : Option Text → Text
or_nil none = []
or_nil (some v) = v

unfoldable pub get : Dict Text → Text → Text
get m k = or_nil (lookup k m)
