-- ===== src/Controller/Delete/Effects.antt =====
-- The effects of `reconcileVolumeDelete`.
use k8s_subvol_provisioner.Base.{Option, none, some}
use k8s_subvol_provisioner.Text.{Text}
use k8s_subvol_provisioner.Errors.{Error, Result, ok, err}
use k8s_subvol_provisioner.Exec.Along.{Along, Along-attempt, Along-if}
use k8s_subvol_provisioner.Kube.{Pv}
use k8s_subvol_provisioner.Driver.{Driver}
use k8s_subvol_provisioner.Controller.{Controller, System}
use k8s_subvol_provisioner.Controller.Effects.{
  IsAdmitted, Along-lift, Along-emit_event, then_do, give, fail,
}
use k8s_subvol_provisioner.Controller.Delete.{reject, removed, destroyed, delete_with, delete_body}

module _ {W : Type 0} {R : System W → System W → Type 0} (k : IsAdmitted R) (c : Controller W) where
  Along-reject : (pv : Pv) (reason : Text) (e : Error) → Along R (reject c pv reason e)
  Along-reject pv reason e =
      then_do k.quiet _ _ (Along-emit_event k.quiet c _ _ _ _) (λ _. fail k.quiet e)

  Along-removed : (pv : Pv) (r : Result (Unit {0})) → Along R (removed c pv r)
  Along-removed pv (ok _) = give k.quiet tt
  Along-removed pv (err e) = Along-if _ _ _ (give k.quiet tt) (Along-reject pv _ e)

  Along-destroyed : (pv : Pv) (r : Result (Unit {0})) → Along R (destroyed c pv r)
  Along-destroyed pv (err e) = Along-reject pv _ e
  Along-destroyed pv (ok _) =
      then_do k.quiet _ _ (Along-attempt _ (Along-lift k _)) (Along-removed pv)

  Along-delete_with : (pv : Pv) (o : Option (Driver W)) → Along R (delete_with c pv o)
  Along-delete_with pv none = fail k.quiet _
  Along-delete_with pv (some d) =
      then_do k.quiet _ _ (Along-attempt _ (Along-lift k _)) (Along-destroyed pv)

  -- The body of `reconcileVolumeDelete` keeps every admitted relation.
  pub Along-delete_body : (pv : Pv) → Along R (delete_body c pv)
  unfolding delete_body
  Along-delete_body pv = Along-delete_with pv _
