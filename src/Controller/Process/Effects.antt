-- ===== src/Controller/Process/Effects.antt =====
-- The effects of `reconcile`, from those of the three guarded handlers.
use k8s_subvol_provisioner.Base.{Option, none, some}
use k8s_subvol_provisioner.Text.{Text}
use k8s_subvol_provisioner.Errors.{Error, Result, ok, err}
use k8s_subvol_provisioner.Exec.{Exec, attempt}
use k8s_subvol_provisioner.Exec.Along.{
  Along, IsPreorder, Along-attempt, Along-if, Along-bind, Along-pure, Along-raise,
}
use k8s_subvol_provisioner.Kube.{Pvc, Pv, StorageClass, External}
use k8s_subvol_provisioner.Controller.{Controller, System, lift}
use k8s_subvol_provisioner.Controller.Lookup.{get_pvc, get_pv, get_storage_class}
use k8s_subvol_provisioner.Controller.Claim.{reconcile_claim}
use k8s_subvol_provisioner.Controller.Delete.{reconcile_volume_delete}
use k8s_subvol_provisioner.Controller.State.{reconcile_volume_state}
use k8s_subvol_provisioner.Controller.Process.{
  ReconcileKey, process_pvc, process_pv, process_pending, process_bound, reconcile, unless_gone,
  claim_with, state_with,
}

-- A relation that calls of the world outside and the three handlers keep.
pub record IsHandled {W : Type 0} (ext : External) (c : Controller W)
    (R : System W → System W → Type 0) : Type 0 where
  pub preorder : IsPreorder R
  pub called : (s : System W) (w : W) → R s (record s { world = w })
  pub claimed : (pvc : Pvc) (sc : StorageClass) → Along R (reconcile_claim ext c pvc sc)
  pub deleted : (pv : Pv) → Along R (reconcile_volume_delete c pv)
  pub updated : (pvc : Pvc) (pv : Pv) → Along R (reconcile_volume_state ext c pvc pv)

module _ {W : Type 0} {ext : External} {c : Controller W} {R : System W → System W → Type 0}
    (k : IsHandled ext c R) where
  looked_up : {A : Type 0} (m : Exec W A) → Along R (attempt (lift m))
  unfolding lift
  looked_up m = Along-attempt _ (record { at = λ s. k.called s (m s.world).1 })

  Along-unless_gone :
      {A : Type 0} (wrap : Error → Error) (f : A → Exec (System W) (Unit {0})) (r : Result A)
      → ((a : A) → Along R (f a))
      → Along R (unless_gone wrap f r)
  Along-unless_gone wrap f (ok a) h = h a
  Along-unless_gone wrap f (err e) h =
      Along-if _ _ _ (Along-pure k.preorder tt) (Along-raise k.preorder (wrap e))

  Along-claim_with : (pvc : Pvc) (sc : StorageClass) → Along R (claim_with ext c pvc sc)
  Along-claim_with pvc sc = Along-if _ _ _ (k.claimed pvc sc) (Along-pure k.preorder tt)

  Along-process_pending : (pvc : Pvc) (o : Option Text) → Along R (process_pending ext c pvc o)
  unfolding get_storage_class
  Along-process_pending pvc none = Along-pure k.preorder tt
  Along-process_pending pvc (some name) =
      Along-bind k.preorder _ _ (looked_up _) λ r. Along-unless_gone _ _ r (Along-claim_with pvc)

  Along-state_with : (pvc : Pvc) (pv : Pv) → Along R (state_with ext c pvc pv)
  Along-state_with pvc pv = Along-if _ _ _ (k.updated pvc pv) (Along-pure k.preorder tt)

  Along-process_bound : (pvc : Pvc) → Along R (process_bound ext c pvc)
  unfolding get_pv
  Along-process_bound pvc =
      Along-bind k.preorder _ _ (looked_up _) λ r. Along-unless_gone _ _ r (Along-state_with pvc)

  pub Along-process_pvc : (pvc : Pvc) → Along R (process_pvc ext c pvc)
  unfolding process_pvc
  Along-process_pvc pvc =
      Along-if _ _ _ (Along-process_pending pvc _)
        (Along-if _ _ _ (Along-process_bound pvc) (Along-pure k.preorder tt))

  pub Along-process_pv : (pv : Pv) → Along R (process_pv ext c pv)
  unfolding process_pv
  Along-process_pv pv = Along-if _ _ _ (k.deleted pv) (Along-pure k.preorder tt)

  -- What the three handlers keep, `reconcile` keeps.
  pub Along-reconcile : (key : ReconcileKey) → Along R (reconcile ext c key)
  unfolding reconcile get_pvc get_pv
  Along-reconcile key =
      Along-if _ _ _
        (Along-bind k.preorder _ _ (looked_up _) λ r. Along-unless_gone _ _ r Along-process_pvc)
        (Along-if _ _ _
          (Along-bind k.preorder _ _ (looked_up _) λ r. Along-unless_gone _ _ r Along-process_pv)
          (Along-raise k.preorder _))
