-- ===== src/Controller/Process/Keys.antt =====
-- The keys under which the three handlers stand in `inProgress`.
use k8s_subvol_provisioner.Base.{
  ℕ, zero, suc, sym, ◌∙◌, [], Bool, ◌≡◌, ◌≢◌, refl, some, ◌∷◌, ◌++◌, arith,
}
use mathlib.Core.Path.{ap}
use k8s_subvol_provisioner.Text.{Text, codes, split_first}
use k8s_subvol_provisioner.Text.Equality.{eq_text_ne}
use k8s_subvol_provisioner.Text.Splitting.{Lacks, split_first-append}
use k8s_subvol_provisioner.Dict.{Dict}
use k8s_subvol_provisioner.Controller.Guard.{enter, is_in_progress, is_in_progress-enter}
use k8s_subvol_provisioner.Controller.Claim.Settings.{claim_key}
use k8s_subvol_provisioner.Controller.State.{state_key}
use k8s_subvol_provisioner.Controller.Delete.{volume_key}

-- A handler with its object: `reconcileClaim` and `reconcileVolumeState` of a claim, by namespace and
-- name, and `reconcileVolumeDelete` of a volume
pub data Handling : Type 0 where
  claiming upkeep : Text → Text → Handling
  deletion : Text → Handling

abbrev pub guard_key : Handling → Text
guard_key (claiming namespace name) = claim_key namespace name
guard_key (upkeep namespace name) = state_key namespace name
guard_key (deletion name) = volume_key name

-- The namespace has no "/", which Kubernetes ensures.
abbrev pub HasPlainNamespace : Handling → Type 0
HasPlainNamespace (claiming namespace name) = Lacks b'/' namespace
HasPlainNamespace (upkeep namespace name) = Lacks b'/' namespace
HasPlainNamespace (deletion name) = Unit

-- The code point at an index, and the text from an index on
abbrev at : ℕ → Text → ℕ
at n [] = 0
at zero (c ∷ s) = c
at (suc n) (c ∷ s) = at n s

abbrev from : ℕ → Text → Text
from zero s = s
from (suc n) [] = []
from (suc n) (c ∷ s) = from n s

-- Namespace and name are told apart by the first "/".
parts-injective :
    (a b c d : Text)
    → Lacks b'/' a
    → Lacks b'/' c
    → a ++ b'/' ∷ b ≡ c ++ b'/' ∷ d
    → (a ≡ c) × (b ≡ d)
parts-injective a b c d p q e =
    let same =
      sym (split_first-append b'/' a b p)
      ∙ (ap (split_first b'/') e ∙ split_first-append b'/' c d q) in
    ground arith

apart : (n : ℕ) (s t : Text) → at n s ≢ at n t → s ≢ t
apart n s t h e = h (ap (at n) e)

guard_key-injective :
    (h k : Handling) → HasPlainNamespace h → HasPlainNamespace k → guard_key h ≡ guard_key k → h ≡ k
unfolding claim_key state_key volume_key codes
guard_key-injective (claiming a b) (claiming c d) p q e =
    let (f, g) = parts-injective a b c d p q (ap (from 4) e) in rw f (rw g refl)
guard_key-injective (claiming a b) (upkeep c d) p q e = absurd (apart 0 _ _ (ground arith) e)
guard_key-injective (claiming a b) (deletion c) p q e = absurd (apart 2 _ _ (ground arith) e)
guard_key-injective (upkeep a b) (claiming c d) p q e = absurd (apart 0 _ _ (ground arith) e)
guard_key-injective (upkeep a b) (upkeep c d) p q e =
    let (f, g) = parts-injective a b c d p q (ap (from 6) e) in rw f (rw g refl)
guard_key-injective (upkeep a b) (deletion c) p q e = absurd (apart 0 _ _ (ground arith) e)
guard_key-injective (deletion a) (claiming c d) p q e = absurd (apart 2 _ _ (ground arith) e)
guard_key-injective (deletion a) (upkeep c d) p q e = absurd (apart 0 _ _ (ground arith) e)
guard_key-injective (deletion a) (deletion c) p q e = ap deletion (ap (from 3) e)

-- A handler is refused for itself only: while a handler is in progress, any other handler, or the
-- same one for another object, starts if it would start otherwise, if the namespaces have no "/".
pub enter-apart :
    (h k : Handling) (m m' : Dict Bool)
    → HasPlainNamespace h
    → HasPlainNamespace k
    → h ≢ k
    → enter (guard_key h) m ≡ some m'
    → is_in_progress (guard_key k) m' ≡ is_in_progress (guard_key k) m
enter-apart h k m m' p q ne e =
    let (_, marked) = is_in_progress-enter (guard_key h) (guard_key k) m m' e in
    marked
    ∙ rw (eq_text_ne (guard_key h) (guard_key k) (λ same. ne (guard_key-injective h k p q same)))
        refl
