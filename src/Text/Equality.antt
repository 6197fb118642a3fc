-- ===== src/Text/Equality.antt =====
-- `eq_text` decides equality.
use k8s_subvol_provisioner.Base.{◌≡◌, ◌↔◌, ◌≢◌, refl, true, false, [], ◌∷◌, arith}
use k8s_subvol_provisioner.Text.{Text, eq_text, is_empty}

pub eq_text_iff : (s t : Text) → (eq_text s t ≡ true) ↔ (s ≡ t)
unfolding eq_text
eq_text_iff [] [] = ground arith
eq_text_iff [] (d ∷ t) = ground arith
eq_text_iff (c ∷ s) [] = ground arith
eq_text_iff (c ∷ s) (d ∷ t) = ground (arith, eq_text_iff s t)

pub eq_text_refl : (s : Text) → eq_text s s ≡ true
eq_text_refl s = (eq_text_iff s s).1 refl

pub eq_text_ne : (s t : Text) → s ≢ t → eq_text s t ≡ false
eq_text_ne s t h = ground (arith, eq_text_iff s t)

pub is_empty_iff : (s : Text) → (is_empty s ≡ true) ↔ (s ≡ [])
unfolding is_empty
is_empty_iff [] = ground arith
is_empty_iff (c ∷ s) = ground arith

pub is_empty_ne : (s : Text) → s ≢ [] → is_empty s ≡ false
is_empty_ne s h = ground (arith, is_empty_iff s)
