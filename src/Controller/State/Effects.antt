-- ===== src/Controller/State/Effects.antt =====
-- The effects of `reconcileVolumeState`.
use k8s_subvol_provisioner.Base.{Bool, true, false, List, [], ◌∷◌, Option, none, some}
use k8s_subvol_provisioner.Base.Int.{ℤ}
use k8s_subvol_provisioner.Text.{Text}
use k8s_subvol_provisioner.Errors.{Error, Result, ok, err}
use k8s_subvol_provisioner.Exec.{Exec}
use k8s_subvol_provisioner.Exec.Along.{Along, Along-attempt, Along-if}
use k8s_subvol_provisioner.Kube.{Pvc, Pv, StorageClass, External}
use k8s_subvol_provisioner.Driver.{Driver, Reconciler}
use k8s_subvol_provisioner.Controller.{Controller, System}
use k8s_subvol_provisioner.Controller.Effects.{
  IsAdmitted, Along-lift, Along-emit_event, then_do, give, fail,
}
use k8s_subvol_provisioner.Controller.State.{
  report_failure, changes_or_none, collect, reconcile_steps, cleaned_up, consume_apply, conclude,
  class_named, class_of, quota_or_fail, reconcile_with, with_reconciler, with_driver, state_body,
}

module _ {W : Type 0} {R : System W → System W → Type 0} (k : IsAdmitted R) (ext : External)
    (c : Controller W) where
  Along-report_failure :
      (pvc : Pvc) (what : Text) (e : Error) → Along R (report_failure ext c pvc what e)
  unfolding report_failure
  Along-report_failure pvc what e = Along-emit_event k.quiet c _ _ _ _

  Along-changes_or_none :
      (pvc : Pvc) (what : Text) (r : Result (List Text))
      → Along R (changes_or_none ext c pvc what r)
  Along-changes_or_none pvc what (ok changes) = give k.quiet changes
  Along-changes_or_none pvc what (err e) =
      then_do k.quiet _ _ (Along-report_failure pvc what e) (λ _. give k.quiet [])

  Along-collect :
      (pvc : Pvc) (what : Text) (m : Exec W (List Text)) → Along R (collect ext c pvc what m)
  unfolding collect
  Along-collect pvc what m =
      then_do k.quiet _ _ (Along-attempt _ (Along-lift k m)) (Along-changes_or_none pvc what)

  Along-reconcile_steps :
      (rec : Reconciler W) (pvc : Pvc) (pv : Pv) (sc : Option StorageClass) (quota : Option ℤ)
      (dry_run : Bool)
      → Along R (reconcile_steps ext c rec pvc pv sc quota dry_run)
  unfolding reconcile_steps
  Along-reconcile_steps rec pvc pv sc quota dry_run =
      then_do k.quiet _ _ (Along-collect pvc _ _) λ qc.
        then_do k.quiet _ _ (Along-collect pvc _ _)
          λ oc. then_do k.quiet _ _ (Along-collect pvc _ _) λ pc. give k.quiet _

  Along-cleaned_up :
      (pvc : Pvc) (text : Text) (r : Result (Unit {0})) → Along R (cleaned_up ext c pvc text r)
  Along-cleaned_up pvc text (ok _) = give k.quiet tt
  Along-cleaned_up pvc text (err e) =
      then_do k.quiet _ _ (Along-emit_event k.quiet c _ _ _ _) (λ _. fail k.quiet e)

  Along-consume_apply : (pvc : Pvc) (text : Text) → Along R (consume_apply ext c pvc text)
  unfolding consume_apply
  Along-consume_apply pvc text =
      Along-if _ _ _
        (then_do k.quiet _ _ (Along-attempt _ (Along-lift k _)) (Along-cleaned_up pvc text))
        (give k.quiet tt)

  Along-conclude :
      (pvc : Pvc) (apply : Bool) (changes : List Text) → Along R (conclude ext c pvc apply changes)
  unfolding conclude
  Along-conclude pvc apply [] =
      then_do k.quiet _ _ (Along-emit_event k.quiet c _ _ _ _) (λ _. Along-consume_apply pvc _)
  Along-conclude pvc false (x ∷ changes) = Along-emit_event k.quiet c _ _ _ _
  Along-conclude pvc true (x ∷ changes) =
      then_do k.quiet _ _ (Along-emit_event k.quiet c _ _ _ _) (λ _. Along-consume_apply pvc _)

  Along-class_named : (o : Option Text) → Along R (class_named ext c o)
  Along-class_named none = give k.quiet none
  Along-class_named (some name) =
      then_do k.quiet _ _ (Along-attempt _ (Along-lift k _)) (λ r. give k.quiet _)

  Along-quota_or_fail : (pvc : Pvc) (r : Result (Option ℤ)) → Along R (quota_or_fail ext c pvc r)
  Along-quota_or_fail pvc (ok quota) = give k.quiet quota
  Along-quota_or_fail pvc (err e) =
      then_do k.quiet _ _ (Along-report_failure pvc _ e) (λ _. fail k.quiet e)

  Along-reconcile_with :
      (rec : Reconciler W) (pvc : Pvc) (pv : Pv) → Along R (reconcile_with ext c rec pvc pv)
  unfolding reconcile_with class_of
  Along-reconcile_with rec pvc pv = then_do k.quiet _ _ (Along-class_named _) λ sc.
      then_do k.quiet _ _ (Along-quota_or_fail pvc _) λ quota.
        then_do k.quiet _ _ (Along-reconcile_steps rec pvc pv sc quota _)
          λ changes. Along-conclude pvc _ changes

  Along-with_reconciler :
      (o : Option (Reconciler W)) (pvc : Pvc) (pv : Pv) → Along R (with_reconciler ext c o pvc pv)
  Along-with_reconciler none pvc pv = give k.quiet tt
  Along-with_reconciler (some rec) pvc pv =
      Along-if _ _ _ (give k.quiet tt) (Along-reconcile_with rec pvc pv)

  Along-with_driver :
      (o : Option (Driver W)) (pvc : Pvc) (pv : Pv) → Along R (with_driver ext c o pvc pv)
  Along-with_driver none pvc pv = give k.quiet tt
  Along-with_driver (some d) pvc pv = Along-with_reconciler d.reconciler pvc pv

  -- The body of `reconcileVolumeState` keeps every admitted relation.
  pub Along-state_body : (pvc : Pvc) (pv : Pv) → Along R (state_body ext c pvc pv)
  unfolding state_body
  Along-state_body pvc pv = Along-with_driver _ pvc pv
