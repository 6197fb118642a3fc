-- ===== src/Dict/Order.antt =====
-- Maps ranged over in another order.
use k8s_subvol_provisioner.Base.{List, [], ◌∷◌, some, ◌≡◌, refl, ◌∙◌, All, arith}
use mathlib.Core.Path.{subst, ap}
use mathlib.Core.List.{Permᴰ}
use k8s_subvol_provisioner.Text.{Text}
use k8s_subvol_provisioner.Text.Equality.{eq_text_iff, eq_text_refl}
use k8s_subvol_provisioner.Dict.{Dict, lookup, has_key}
use k8s_subvol_provisioner.Dict.Laws.{NodupKeys, has_key_iff}

module _ {ℓ κ} {A : Type ℓ} (P : A → Type κ) where
  pub Permᴰ-All : {m n : List A} → Permᴰ m n → All P m → All P n
  Permᴰ-All Permᴰ.nil h = h
  Permᴰ-All (Permᴰ.cons e p) (h, hs) = (subst P e h, Permᴰ-All p hs)
  Permᴰ-All (Permᴰ.swap e f) (h, (k, hs)) = (subst P f k, (subst P e h, hs))
  Permᴰ-All (Permᴰ.trans p q) h = Permᴰ-All q (Permᴰ-All p h)

module _ {ℓ} {V : Type ℓ} where
  -- Whether a map has a key does not depend on the order.
  pub Permᴰ-has_key : (k : Text) {m n : Dict V} → Permᴰ m n → has_key k m ≡ has_key k n
  unfolding has_key
  Permᴰ-has_key k Permᴰ.nil = refl
  Permᴰ-has_key k (Permᴰ.cons e p) = rw e (rw (Permᴰ-has_key k p) refl)
  Permᴰ-has_key k (Permᴰ.swap {a' = a'} {b' = b'} e f) = rw e (rw f (ground arith))
  Permᴰ-has_key k (Permᴰ.trans p q) = Permᴰ-has_key k p ∙ Permᴰ-has_key k q

  swapped :
      (j k : Text) (v w : V) (m : Dict V)
      → NodupKeys ((j, v) ∷ (k, w) ∷ m)
      → NodupKeys ((k, w) ∷ (j, v) ∷ m)
  unfolding has_key
  swapped j k v w m u = ground (arith, eq_text_iff j k, eq_text_iff k j)

  pub Permᴰ-NodupKeys : {m n : Dict V} → Permᴰ m n → NodupKeys m → NodupKeys n
  Permᴰ-NodupKeys Permᴰ.nil u = u
  Permᴰ-NodupKeys (Permᴰ.cons {a = (j, v)} {b = (k, w)} e p) (h, u) =
      (rw (← ap (λ x. x.0) e) (rw (← Permᴰ-has_key j p) h), Permᴰ-NodupKeys p u)
  Permᴰ-NodupKeys (Permᴰ.swap {l = l} e f) h = rw (← e) (rw (← f) (swapped _ _ _ _ l h))
  Permᴰ-NodupKeys (Permᴰ.trans p q) u = Permᴰ-NodupKeys q (Permᴰ-NodupKeys p u)

  -- An entry of a map with different keys is the value of its key.
  pub lookup-entries :
      (P : Text → V → Type 0) (m : Dict V)
      → NodupKeys m
      → ((k : Text) (v : V) → lookup k m ≡ some v → P k v)
      → All (λ entry. P entry.0 entry.1) m
  unfolding lookup has_key
  lookup-entries P [] u h = tt
  lookup-entries P ((j, w) ∷ m) (out, u) h = (
    h j w (rw (eq_text_refl j) refl),
    lookup-entries P m u λ k v e. h k v (ground (arith, eq_text_iff j k, has_key_iff k m)),
  )
