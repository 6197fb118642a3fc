-- ===== src/Controller/State/Policy.antt =====
-- When a reconcile of a bound claim applies its changes.
use k8s_subvol_provisioner.Base.{true, [], Option, none, some, ◌≡◌, ◌↔◌, ◌⊎◌, refl, arith}
use k8s_subvol_provisioner.Text.{Text, codes, eq_text}
use k8s_subvol_provisioner.Text.Equality.{eq_text_iff}
use k8s_subvol_provisioner.Dict.{Dict, lookup, get, or_nil}
use k8s_subvol_provisioner.Config.Names.{ann_apply, ann_dry_run, param_auto_apply}
use k8s_subvol_provisioner.Kube.{Pvc, StorageClass}
use k8s_subvol_provisioner.Controller.State.{is_true, applies, sets_auto_apply}

-- The map has the value "true" at the key.
abbrev pub Says : Dict Text → Text → Type 0
Says m k = lookup k m ≡ some (codes "true")

or_nil_iff :
    (o : Option Text) → (eq_text (or_nil o) (codes "true") ≡ true) ↔ (o ≡ some (codes "true"))
unfolding codes
or_nil_iff none = ground (arith, eq_text_iff [] (codes "true"))
or_nil_iff (some v) = ground (arith, eq_text_iff v (codes "true"))

is_true_iff : (m : Dict Text) (k : Text) → (is_true m k ≡ true) ↔ Says m k
unfolding is_true get
is_true_iff m k = or_nil_iff (lookup k m)

sets_auto_apply_iff :
    (o : Option StorageClass)
    → (sets_auto_apply o ≡ true)
      ↔ ((sc : StorageClass) × (o ≡ some sc) × Says sc.parameters param_auto_apply)
sets_auto_apply_iff none = (λ h. absurd (cc), λ h. absurd (cc))
sets_auto_apply_iff (some sc) = (
  λ h. (sc, refl, (is_true_iff sc.parameters param_auto_apply).0 h),
  λ (found, e, says). (is_true_iff sc.parameters param_auto_apply).1 (cc),
)

-- Changes are applied exactly if the annotation `dry-run` is not "true" and either the annotation
-- `apply` or the parameter `autoApply` of a storage class that was found is "true".
pub applies_iff :
    (pvc : Pvc) (o : Option StorageClass)
    → (applies pvc o ≡ true) ↔ (
        (¬ Says pvc.annotations ann_dry_run)
        × (Says pvc.annotations ann_apply
            ⊎ ((sc : StorageClass) × (o ≡ some sc) × Says sc.parameters param_auto_apply)))
unfolding applies
applies_iff pvc o = ground (
  arith,
  is_true_iff pvc.annotations ann_dry_run,
  is_true_iff pvc.annotations ann_apply,
  sets_auto_apply_iff o,
)
