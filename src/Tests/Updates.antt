-- ===== src/Tests/Updates.antt =====
-- A bound claim whose changes are applied in a concrete cluster.
use k8s_subvol_provisioner.Base.{ℕ, ◌≡◌, refl, true, false, [], ◌∷◌, none, some}
use k8s_subvol_provisioner.Text.{codes, eq_text, is_empty}
use k8s_subvol_provisioner.Dict.{lookup, get}
use k8s_subvol_provisioner.Errors.{ok}
use k8s_subvol_provisioner.Config.Names.{ann_subvol_driver, ann_dataset_name}
use k8s_subvol_provisioner.Exec.{◌>>=◌}
use k8s_subvol_provisioner.Controller.{System, lift}
use k8s_subvol_provisioner.Controller.Guard.{is_in_progress}
use k8s_subvol_provisioner.Controller.Quota.{resolve_quota}
use k8s_subvol_provisioner.Controller.State.{
  state_key, is_true, applies, class_of, owner_mode_options, reconcile_volume_state,
}
use k8s_subvol_provisioner.Controller.State.Success.{
  CanUpdate, summary, reconcile_volume_state_updated,
}
use k8s_subvol_provisioner.Tests.Samples.{
  external, controller, system, driver, reconciler, storage_class, applied_claim, built,
}

class_found :
    (s : System ℕ) → class_of external controller applied_claim s ≡ (ok (some storage_class), s)
unfolding class_of ◌>>=◌ lift codes
class_found s = refl

-- The quota is changed, then the call of the API server removes the annotation.
can_update : CanUpdate external controller reconciler applied_claim built 0
unfolding applies is_true get lookup eq_text codes resolve_quota owner_mode_options
can_update = record {
  sc = some storage_class;
  quota = none;
  quota_changes = codes "quota" ∷ [];
  owner_changes = [];
  property_changes = [];
  limited = 1;
  owned = 2;
  set = 3;
  last = 4;
  classed = class_found;
  resolved = refl;
  limits = refl;
  owns = refl;
  sets = refl;
  cleans = refl;
}

not_busy :
    is_in_progress (state_key applied_claim.namespace applied_claim.name) system.in_progress ≡ false
unfolding is_in_progress state_key lookup eq_text codes
not_busy = refl

driver_registered :
    lookup (get built.annotations ann_subvol_driver) controller.drivers ≡ some driver
unfolding get lookup eq_text codes
driver_registered = refl

dataset_named : is_empty (get built.annotations ann_dataset_name) ≡ false
unfolding get lookup eq_text codes is_empty
dataset_named = refl

reconcile_volume_state_updated_example :
    let done = reconcile_volume_state external controller applied_claim built system in
    (done.0 ≡ ok tt)
    × ((done.1.world ≡ 4) × (done.1.events ≡ summary applied_claim true (codes "quota" ∷ []) ∷ []))
unfolding can_update applies is_true get lookup eq_text codes
reconcile_volume_state_updated_example =
    reconcile_volume_state_updated external controller reconciler applied_claim built system driver
      can_update refl not_busy driver_registered refl dataset_named
