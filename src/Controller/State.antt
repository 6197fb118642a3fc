-- ===== src/Controller/State.antt =====
-- `reconcileVolumeState`: quota, owner, mode and properties of a bound claim's volume
pub mod Effects
pub mod Failures
pub mod Laws
pub mod Policy
pub mod Success
pub mod Convergence
use k8s_subvol_provisioner.Base.{
  Bool, true, false, not, ◌&&◌, ◌||◌, List, [], ◌∷◌, ◌++◌, Option, none, some, if◌then◌else◌,
}
use k8s_subvol_provisioner.Base.Int.{ℤ}
use k8s_subvol_provisioner.Text.{Text, codes, eq_text, is_empty, join}
use k8s_subvol_provisioner.Dict.{Dict, lookup, get, overlay}
use k8s_subvol_provisioner.Errors.{Error, Message, format, with_error, str, Result, ok, err}
use k8s_subvol_provisioner.Exec.{Exec, pure, raise, attempt, ◌>>=◌, ◌>>◌}
use k8s_subvol_provisioner.Config.{parse_ownership, parse_file_mode, parse_key_value_lines}
use k8s_subvol_provisioner.Config.Names.{
  ann_subvol_driver, ann_dataset_name, ann_host_mount_path, ann_apply, ann_dry_run, ann_owner,
  ann_mode, ann_recursive, ann_properties, param_auto_apply, param_properties,
}
use k8s_subvol_provisioner.Kube.{Pvc, Pv, StorageClass, External}
use k8s_subvol_provisioner.Driver.{Driver, Reconciler, OwnerModeOptions}
use k8s_subvol_provisioner.Controller.{
  Controller, System, normal, warning, lift, emit_event, exclusive,
}
use k8s_subvol_provisioner.Controller.Target.{not_nil}
use k8s_subvol_provisioner.Controller.Quota.{resolve_quota}
use k8s_subvol_provisioner.Controller.Claim.Settings.{claim_object, or_nil_pointer}

-- `fmt.Sprintf("state:%s/%s", pvc.Namespace, pvc.Name)`
unfoldable pub state_key : Text → Text → Text
state_key namespace name = codes "state:" ++ (namespace ++ b'/' ∷ name)

unfoldable pub is_true : Dict Text → Text → Bool
is_true m k = eq_text (get m k) (codes "true")

abbrev pub sets_auto_apply : Option StorageClass → Bool
sets_auto_apply none = false
sets_auto_apply (some sc) = is_true sc.parameters param_auto_apply

-- `apply := (autoApply || applyRequested) && !dryRun`
unfoldable pub applies : Pvc → Option StorageClass → Bool
applies pvc sc =
    (sets_auto_apply sc || is_true pvc.annotations ann_apply)
    && not (is_true pvc.annotations ann_dry_run)

abbrev class_properties : Option StorageClass → Dict Text
class_properties none = []
class_properties (some sc) = parse_key_value_lines (get sc.parameters param_properties)

-- The source copies the properties of the class into an empty map first.
unfoldable pub desired_properties : Pvc → Option StorageClass → Dict Text
desired_properties pvc sc =
    overlay (overlay [] (class_properties sc))
      (parse_key_value_lines (get pvc.annotations ann_properties))

-- The merge patch that removes the annotation `subvol.io/apply`
abbrev pub remove_apply_patch : Text
remove_apply_patch = codes "{\"metadata\":{\"annotations\":{\"subvol.io/apply\":null}}}"

module _ {W : Type 0} (ext : External) (c : Controller W) where
  unfoldable pub owner_mode_options : Pvc → Pv → Bool → OwnerModeOptions
  owner_mode_options pvc pv dry_run = record {
    name = get pv.annotations ann_dataset_name;
    mount_path = get pv.annotations ann_host_mount_path;
    host_prefix = c.host_prefix;
    owner = or_nil_pointer (parse_ownership (get pvc.annotations ann_owner));
    mode = or_nil_pointer (parse_file_mode (get pvc.annotations ann_mode));
    recursive = is_true pvc.annotations ann_recursive;
    dry_run = dry_run;
  }

  -- `fail`
  unfoldable pub report_failure : Pvc → Text → Error → Exec (System W) (Unit {0})
  report_failure pvc what e =
      emit_event c (claim_object pvc) warning (codes "VolumeUpdateFailed")
        (with_error (codes "%s: %v") (str what ∷ []) e)

  abbrev changes_or_none : Pvc → Text → Result (List Text) → Exec (System W) (List Text)
  changes_or_none pvc what (ok changes) = pure changes
  changes_or_none pvc what (err e) = do report_failure pvc what e; pure []

  -- One of the three steps: its changes, or an event and no change if it fails.
  unfoldable pub collect : Pvc → Text → Exec W (List Text) → Exec (System W) (List Text)
  collect pvc what m = do r ← attempt (lift m); changes_or_none pvc what r

  -- The three steps, for the dataset of a volume
  unfoldable pub reconcile_steps :
      Reconciler W → Pvc → Pv → Option StorageClass → Option ℤ → Bool → Exec (System W) (List Text)
  reconcile_steps rec pvc pv sc quota dry_run = do
    let dataset = get pv.annotations ann_dataset_name
    qc ← collect pvc (codes "quota") (rec.reconcile_quota dataset quota dry_run)
    oc ←
        collect pvc (codes "owner/mode")
          (rec.reconcile_owner_mode (owner_mode_options pvc pv dry_run))
    pc ←
        collect pvc (codes "properties")
          (rec.reconcile_properties dataset (desired_properties pvc sc) dry_run)
    pure (qc ++ (oc ++ pc))

  abbrev cleaned_up : Pvc → Text → Result (Unit {0}) → Exec (System W) (Unit {0})
  cleaned_up pvc text (ok _) = pure tt
  cleaned_up pvc text (err e) = do
    emit_event c (claim_object pvc) warning (codes "ApplyAnnotationCleanupFailed")
        (with_error text (str ann_apply ∷ []) e)
    raise e

  -- `if applyRequested { patch }`
  unfoldable pub consume_apply : Pvc → Text → Exec (System W) (Unit {0})
  consume_apply pvc text =
      if is_true pvc.annotations ann_apply
      then (do
        r ← attempt (lift (c.client.patch_pvc pvc.namespace pvc.name remove_apply_patch))
        cleaned_up pvc text r)
      else pure tt

  -- What follows the three steps
  unfoldable pub conclude : Pvc → Bool → List Text → Exec (System W) (Unit {0})
  conclude pvc apply [] = do
    emit_event c (claim_object pvc) normal (codes "VolumeUpToDate")
        (format (codes "No pending changes: dataset matches the desired configuration") [])
    consume_apply pvc (codes "No changes to apply but failed to remove %s annotation: %v")
  conclude pvc false (x ∷ changes) = emit_event c (claim_object pvc) normal (codes "VolumeDryRun") (
      format (codes "Dry run: would apply: %s (annotate with %s to apply)")
        (str (join (codes ", ") (x ∷ changes)) ∷ str ann_apply ∷ []))
  conclude pvc true (x ∷ changes) = do
    emit_event c (claim_object pvc) normal (codes "VolumeUpdated")
        (format (codes "Applied: %s") (str (join (codes ", ") (x ∷ changes)) ∷ []))
    consume_apply pvc (codes "Applied changes but failed to remove %s annotation: %v")

  abbrev class_or_none : Result StorageClass → Option StorageClass
  class_or_none (ok sc) = some sc
  class_or_none (err e) = none

  abbrev class_named : Option Text → Exec (System W) (Option StorageClass)
  class_named none = pure none
  class_named (some name) = do
    r ← attempt (lift (c.client.get_storage_class name))
    pure (class_or_none r)

  -- The storage class of the claim, or nil where it has none or the call fails
  unfoldable pub class_of : Pvc → Exec (System W) (Option StorageClass)
  class_of pvc = class_named (not_nil pvc.storage_class_name)

  abbrev quota_or_fail : Pvc → Result (Option ℤ) → Exec (System W) (Option ℤ)
  quota_or_fail pvc (ok quota) = pure quota
  quota_or_fail pvc (err e) = do report_failure pvc (codes "resolve quota") e; raise e

  unfoldable pub reconcile_with : Reconciler W → Pvc → Pv → Exec (System W) (Unit {0})
  reconcile_with rec pvc pv = do
    sc ← class_of pvc
    let apply = applies pvc sc
    quota ← quota_or_fail pvc (resolve_quota ext pvc)
    changes ← reconcile_steps rec pvc pv sc quota (not apply)
    conclude pvc apply changes

  abbrev with_reconciler : Option (Reconciler W) → Pvc → Pv → Exec (System W) (Unit {0})
  with_reconciler none pvc pv = pure tt
  with_reconciler (some rec) pvc pv =
      if is_empty (get pv.annotations ann_dataset_name) then pure tt else reconcile_with rec pvc pv

  abbrev with_driver : Option (Driver W) → Pvc → Pv → Exec (System W) (Unit {0})
  with_driver none pvc pv = pure tt
  with_driver (some d) pvc pv = with_reconciler d.reconciler pvc pv

  unfoldable pub state_body : Pvc → Pv → Exec (System W) (Unit {0})
  state_body pvc pv = with_driver (lookup (get pv.annotations ann_subvol_driver) c.drivers) pvc pv

  unfoldable pub reconcile_volume_state : Pvc → Pv → Exec (System W) (Unit {0})
  reconcile_volume_state pvc pv = exclusive (state_key pvc.namespace pvc.name) (state_body pvc pv)
