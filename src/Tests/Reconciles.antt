-- ===== src/Tests/Reconciles.antt =====
-- The handlers of the controller in a concrete cluster.
use k8s_subvol_provisioner.Base.{ℕ, ◌≡◌, ◌≢◌, refl, ◌⊎◌, true, false, [], ◌∷◌, none, some, arith}
use k8s_subvol_provisioner.Text.{Text, codes, eq_text, is_empty}
use k8s_subvol_provisioner.Dict.{lookup, get}
use k8s_subvol_provisioner.Errors.{ok}
use k8s_subvol_provisioner.Config.Names.{
  ann_dry_run, ann_selected_node, param_node, ann_subvol_driver,
}
use k8s_subvol_provisioner.Kube.{StorageClass, wait_for_first_consumer}
use k8s_subvol_provisioner.Driver.{Driver}
use k8s_subvol_provisioner.Driver.Laws.{AllSafe, IsDryRunSafe}
use k8s_subvol_provisioner.Builder.{build_persistent_volume}
use k8s_subvol_provisioner.Controller.Guard.{is_in_progress}
use k8s_subvol_provisioner.Controller.Target.{not_nil, is_node_targeted}
use k8s_subvol_provisioner.Controller.Target.Laws.{is_node_targeted_unique}
use k8s_subvol_provisioner.Controller.Delete.{delete_options}
use k8s_subvol_provisioner.Controller.Delete.Laws.{delete_options-build}
use k8s_subvol_provisioner.Controller.State.{is_true, reconcile_volume_state}
use k8s_subvol_provisioner.Controller.State.Laws.{
  PlansOnly, applies_dry_run, reconcile_volume_state_planned,
}
use k8s_subvol_provisioner.Controller.Process.{ReconcileKey, reconcile}
use k8s_subvol_provisioner.Controller.Process.Guards.{reconcile-in_progress}
use k8s_subvol_provisioner.Kube.{Pvc}
use k8s_subvol_provisioner.Errors.{err, errorf, quoted}
use k8s_subvol_provisioner.Exec.{◌>>=◌}
use k8s_subvol_provisioner.Dict.{insert, erase}
use k8s_subvol_provisioner.Builder.{pv_name_of}
use k8s_subvol_provisioner.Controller.{Controller, System, exclusive, lift, emit_event}
use k8s_subvol_provisioner.Controller.Lookup.{get_pv}
use k8s_subvol_provisioner.Controller.Claim.Settings.{
  found_for, belongs_to, claim_key, driver_name_of,
}
use k8s_subvol_provisioner.Controller.Claim.{reconcile_claim, claim_body, provision, reject}
use k8s_subvol_provisioner.Controller.Claim.Warnings.{EndsWarned, reconcile_claim-EndsWarned}
use k8s_subvol_provisioner.Tests.Samples.{
  external, controller, system, driver, reconciler, storage_class, planned_claim, build_options,
  built,
}

abbrev volume_key : ReconcileKey
volume_key = record { kind = codes "pv"; namespace = []; name = codes "pvc-42" }

reconcile-in_progress_example :
    is_in_progress
      (codes "pv:pvc-42")
      (reconcile external controller volume_key system).1.in_progress
    ≡ is_in_progress (codes "pv:pvc-42") system.in_progress
reconcile-in_progress_example =
    reconcile-in_progress external controller volume_key system (codes "pv:pvc-42")

driver_found : (name : Text) (d : Driver ℕ) → lookup name controller.drivers ≡ some d → driver ≡ d
unfolding lookup
driver_found name d h = ground arith

reconciler-IsDryRunSafe : IsDryRunSafe reconciler
reconciler-IsDryRunSafe = record {
  quota = λ name quota w. refl;
  owner_mode = λ opts h w. rw h refl;
  properties = λ name props w. refl;
}

drivers-AllSafe :
    (name : Text) (d : Driver ℕ) → lookup name controller.drivers ≡ some d → AllSafe d.reconciler
drivers-AllSafe name d h = rw (← driver_found name d h) reconciler-IsDryRunSafe

planned : is_true planned_claim.annotations ann_dry_run ≡ true
unfolding is_true get lookup eq_text codes
planned = refl

plans_only : PlansOnly external controller planned_claim system
unfolding is_true get lookup eq_text codes
plans_only = (refl, λ sc found. applies_dry_run planned_claim sc planned)

reconcile_volume_state_planned_example :
    (reconcile_volume_state external controller planned_claim built system).1.world ≡ system.world
reconcile_volume_state_planned_example =
    reconcile_volume_state_planned external controller planned_claim built system drivers-AllSafe
      (λ name w. refl) plans_only

-- A controller with no driver, and a claim that no volume belongs to
abbrev bare : Controller ℕ
bare = record controller { drivers = [] }

abbrev new_claim : Pvc
new_claim = record planned_claim { uid = codes "43" }

abbrev idle : System ℕ
idle = record system { in_progress = [] }

rejected :
    (reconcile_claim external bare new_claim storage_class idle).0
    ≡ err (errorf (codes "storage driver %q is not registered") (quoted (codes "zfs") ∷ []))
unfolding reconcile_claim exclusive is_in_progress claim_key claim_body found_for belongs_to get_pv
    lift pv_name_of provision driver_name_of get reject emit_event ◌>>=◌ lookup eq_text codes insert
    erase is_empty
rejected = refl

reconcile_claim-EndsWarned_example :
    EndsWarned new_claim (reconcile_claim external bare new_claim storage_class idle).1
reconcile_claim-EndsWarned_example =
    reconcile_claim-EndsWarned external bare refl new_claim storage_class idle
      (errorf (codes "storage driver %q is not registered") (quoted (codes "zfs") ∷ [])) rejected

volume_built : build_persistent_volume build_options ≡ ok built
unfolding build_persistent_volume is_empty codes
volume_built = refl

delete_options-build_example :
    (get built.annotations ann_subvol_driver ≡ build_options.driver_name)
    × (delete_options controller built ≡ record {
      name = build_options.dataset_name;
      mount_path = build_options.mount_path;
      host_prefix = controller.host_prefix;
      snapshot_before_delete = false;
    })
delete_options-build_example = delete_options-build controller build_options volume_built

abbrev chosen : StorageClass
chosen = record storage_class { parameters = (param_node, codes "n1") ∷ [] }

targeted : is_node_targeted controller chosen planned_claim ≡ true
unfolding is_node_targeted lookup eq_text is_empty codes
targeted = refl

is_node_targeted_unique_example :
    (controller.node_name ≡ controller.node_name)
    ⊎ ((not_nil (lookup ann_selected_node planned_claim.annotations) ≡ none)
        × (not_nil (lookup param_node chosen.parameters) ≡ none)
        × (chosen.volume_binding_mode ≢ some wait_for_first_consumer))
unfolding codes
is_node_targeted_unique_example =
    is_node_targeted_unique controller controller chosen planned_claim (ground arith) (ground arith)
      targeted targeted
