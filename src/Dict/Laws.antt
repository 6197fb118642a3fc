-- ===== src/Dict/Laws.antt =====
-- The laws of maps.
use k8s_subvol_provisioner.Base.{
  ◌≡◌, All, inl, inr, Bool-cases, ◌↔◌, refl, true, false, [], ◌∷◌, Option, none, some,
  if◌then◌else◌, arith,
}
use k8s_subvol_provisioner.Text.{Text, eq_text}
use k8s_subvol_provisioner.Text.Equality.{eq_text_iff, eq_text_refl}
use k8s_subvol_provisioner.Dict.{Dict, lookup, has_key, insert, erase, overlay}

-- Each key has one entry.
abbrev pub NodupKeys {ℓ} : {V : Type ℓ} → Dict V → Type 0
NodupKeys [] = Unit
NodupKeys ((k, v) ∷ m) = (has_key k m ≡ false) × NodupKeys m

abbrev or_else {ℓ} : {V : Type ℓ} → Option V → Option V → Option V
or_else none d = d
or_else (some v) d = some v

module _ {ℓ} {V : Type ℓ} where
  pub lookup-insert :
      (k j : Text) (v : V) (m : Dict V)
      → lookup j (insert k v m) ≡ (if eq_text k j then some v else lookup j m)
  unfolding lookup insert
  lookup-insert k j v [] = refl
  lookup-insert k j v ((i, w) ∷ m) =
      ground (arith, eq_text_iff k j, eq_text_iff i k, eq_text_iff i j, lookup-insert k j v m)

  pub lookup-insert_self : (k : Text) (v : V) (m : Dict V) → lookup k (insert k v m) ≡ some v
  lookup-insert_self k v m = ground (arith, lookup-insert k k v m, eq_text_refl k)

  pub has_key_iff : (k : Text) (m : Dict V) → (has_key k m ≡ false) ↔ (lookup k m ≡ none)
  unfolding lookup has_key
  has_key_iff k [] = ground arith
  has_key_iff k ((j, v) ∷ m) = ground (arith, has_key_iff k m)

  pub lookup-erase :
      (k j : Text) (m : Dict V) → lookup j (erase k m) ≡ (if eq_text k j then none else lookup j m)
  unfolding lookup erase
  lookup-erase k j [] = ground arith
  lookup-erase k j ((i, w) ∷ m) =
      ground (arith, eq_text_iff k j, eq_text_iff i k, eq_text_iff i j, lookup-erase k j m)

  has_key-insert :
      (k j : Text) (v : V) (m : Dict V)
      → has_key j (insert k v m) ≡ (if eq_text k j then true else has_key j m)
  unfolding has_key insert
  has_key-insert k j v [] = refl
  has_key-insert k j v ((i, w) ∷ m) =
      ground (arith, eq_text_iff k j, eq_text_iff i k, eq_text_iff i j, has_key-insert k j v m)

  pub insert-NodupKeys : (k : Text) (v : V) (m : Dict V) → NodupKeys m → NodupKeys (insert k v m)
  unfolding insert has_key
  insert-NodupKeys k v [] u = (refl, tt)
  insert-NodupKeys k v ((i, w) ∷ m) (h, u) =
      ground
        (arith, eq_text_iff i k, eq_text_iff k i, insert-NodupKeys k v m u, has_key-insert k i v m)

  pub overlay-NodupKeys : (m n : Dict V) → NodupKeys m → NodupKeys (overlay m n)
  unfolding overlay
  overlay-NodupKeys m [] u = u
  overlay-NodupKeys m ((k, v) ∷ n) u = overlay-NodupKeys (insert k v m) n (insert-NodupKeys k v m u)

  -- After an overlay a key has the value of the upper map, and where that lacks it of the lower.
  pub lookup-overlay :
      (k : Text) (m n : Dict V)
      → NodupKeys n
      → lookup k (overlay m n) ≡ or_else (lookup k n) (lookup k m)
  unfolding overlay lookup
  lookup-overlay k m [] u = refl
  lookup-overlay k m ((j, v) ∷ n) (h, u) = ground (
    arith,
    lookup-overlay k (insert j v m) n u,
    lookup-insert j k v m,
    has_key_iff j n,
    eq_text_iff j k,
  )

-- What holds of every entry of a map holds of the value of each key.
pub lookup-All :
    {V : Type 0} (P : Text → V → Type 0) (m : Dict V) (k : Text) (v : V)
    → All (λ entry. P entry.0 entry.1) m
    → lookup k m ≡ some v
    → P k v
unfolding lookup
lookup-All P [] k v all h = absurd (cc)
lookup-All P ((j, w) ∷ m) k v (p, rest) h = elim (Bool-cases (eq_text j k)) [
  | inl same ↦ rw (← ((eq_text_iff j k).0 same)) (rw (← value same) p)
  | inr other ↦ lookup-All P m k v rest (ground arith)
]
  where
    value : eq_text j k ≡ true → w ≡ v
    value same = ground arith
