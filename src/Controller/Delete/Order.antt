-- ===== src/Controller/Delete/Order.antt =====
-- `reconcileVolumeDelete` where the driver fails: the calls that follow.
use k8s_subvol_provisioner.Base.{some, ◌≡◌, Bool-cases, inl, inr}
use k8s_subvol_provisioner.Dict.{lookup, get}
use k8s_subvol_provisioner.Errors.{Error, Result, ok, err}
use k8s_subvol_provisioner.Exec.{attempt}
use k8s_subvol_provisioner.Exec.Along.{Along, IsPreorder, bind_at}
use k8s_subvol_provisioner.Config.Names.{ann_subvol_driver}
use k8s_subvol_provisioner.Kube.{Pv}
use k8s_subvol_provisioner.Driver.{Driver}
use k8s_subvol_provisioner.Controller.Guard.{is_in_progress}
use k8s_subvol_provisioner.Controller.{Controller, System, lift, exclusive}
use k8s_subvol_provisioner.Controller.Effects.{
  IsQuiet, OfWorlds, OfWorlds-IsQuiet, Along-emit_event, then_do, fail,
}
use k8s_subvol_provisioner.Controller.Delete.{
  delete_options, destroyed, delete_with, delete_body, reconcile_volume_delete, volume_key,
}

module _ {W : Type 0} {R : W → W → Type 0} (p : IsPreorder R) (c : Controller W) where
  quiet : IsQuiet (OfWorlds R)
  quiet = OfWorlds-IsQuiet p

  Along-destroyed :
      (pv : Pv) (r : Result (Unit {0})) (e : Error)
      → r ≡ err e
      → Along (OfWorlds R) (destroyed c pv r)
  Along-destroyed pv (ok _) e h = absurd (cc)
  Along-destroyed pv (err e') e h =
      then_do quiet _ _ (Along-emit_event quiet c _ _ _ _) (λ _. fail quiet e')

  found-err : (x r : Result (Unit {0})) (e : Error) → x ≡ err e → ok x ≡ ok r → r ≡ err e
  found-err x r e h k = cc

  delete_with-failed :
      (pv : Pv) (d : Driver W) (e : Error) (s : System W)
      → (d.delete (delete_options c pv) s.world).0 ≡ err e
      → R s.world (d.delete (delete_options c pv) s.world).1
      → R s.world (delete_with c pv (some d) s).1.world
  unfolding attempt lift
  delete_with-failed pv d e s fails kept =
      bind_at quiet.preorder (attempt (lift (d.delete (delete_options c pv)))) (destroyed c pv) s
        kept λ r found. (Along-destroyed pv r e (found-err _ r e fails found)).at _

  -- The object of a volume is not deleted where its data may still exist: if the call of the driver
  -- that the annotation of the volume names fails to delete the volume, then whatever reflexive and
  -- transitive relation this one call keeps, the whole deletion keeps, so no call of the API server
  -- follows.
  pub reconcile_volume_delete-failed :
      (pv : Pv) (d : Driver W) (e : Error) (s : System W)
      → lookup (get pv.annotations ann_subvol_driver) c.drivers ≡ some d
      → (d.delete (delete_options c pv) s.world).0 ≡ err e
      → R s.world (d.delete (delete_options c pv) s.world).1
      → R s.world (reconcile_volume_delete c pv s).1.world
  unfolding reconcile_volume_delete exclusive delete_body
  reconcile_volume_delete-failed pv d e s named fails kept =
      elim (Bool-cases (is_in_progress (volume_key pv.name) s.in_progress)) [
        | inl busy ↦ rw busy (p.reflexive s.world)
        | inr free ↦
            rw free (rw named (delete_with-failed pv d e (record s { in_progress = _ }) fails kept))
      ]
