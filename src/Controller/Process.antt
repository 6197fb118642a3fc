-- ===== src/Controller/Process.antt =====
-- `processPVC`, `processPV`, `reconcile`, and the two loops `reconcileClaims` and
-- `reconcileVolumes`
pub mod Effects
pub mod Guards
pub mod Interleaving
pub mod Isolation
pub mod Keys
pub mod Ownership
pub mod Release
use k8s_subvol_provisioner.Base.{
  Bool, true, false, ◌&&◌, ◌||◌, not, List, [], ◌∷◌, ◌++◌, Option, none, some, if◌then◌else◌,
}
use k8s_subvol_provisioner.Text.{Text, codes, eq_text, is_empty}
use k8s_subvol_provisioner.Dict.{get}
use k8s_subvol_provisioner.Errors.{Error, errorf, wrapf, str, quoted, Result, ok, err, is_not_found}
use k8s_subvol_provisioner.Exec.{Exec, pure, raise, attempt, ◌>>=◌, ◌>>◌}
use k8s_subvol_provisioner.Config.Names.{ann_provisioned_by}
use k8s_subvol_provisioner.Kube.{
  Pvc, Pv, StorageClass, ClaimPhase, claim_pending, claim_bound, claim_other, VolumePhase,
  volume_released, volume_other, ReclaimPolicy, reclaim_delete, reclaim_retain, reclaim_other,
  External,
}
use k8s_subvol_provisioner.Controller.{Controller, System, lift}
use k8s_subvol_provisioner.Controller.Target.{not_nil, is_node_targeted, is_pv_on_this_node}
use k8s_subvol_provisioner.Controller.Lookup.{get_pvc, get_pv, get_storage_class}
use k8s_subvol_provisioner.Controller.Claim.{reconcile_claim}
use k8s_subvol_provisioner.Controller.Delete.{reconcile_volume_delete}
use k8s_subvol_provisioner.Controller.State.{reconcile_volume_state}

-- `reconcileKey`
pub record ReconcileKey : Type 0 where
  pub kind : Text
  pub namespace : Text
  pub name : Text

-- `reconcileKey.String`
unfoldable pub key_string : ReconcileKey → Text
key_string k =
    if is_empty k.namespace
    then k.kind ++ b':' ∷ k.name
    else k.kind ++ b':' ∷ (k.namespace ++ b'/' ∷ k.name)

abbrev pub is_pending : ClaimPhase → Bool
is_pending claim_pending = true
is_pending _ = false

abbrev pub is_bound : ClaimPhase → Bool
is_bound claim_bound = true
is_bound _ = false

abbrev pub is_released : VolumePhase → Bool
is_released volume_released = true
is_released _ = false

abbrev pub is_delete : ReclaimPolicy → Bool
is_delete reclaim_delete = true
is_delete _ = false

module _ {W A : Type 0} where
  -- What follows a call for an object: an object that is gone is no error.
  abbrev unless_gone :
      (Error → Error) → (A → Exec (System W) (Unit {0})) → Result A → Exec (System W) (Unit {0})
  unless_gone wrap f (ok a) = f a
  unless_gone wrap f (err e) = if is_not_found e then pure tt else raise (wrap e)

module _ {W : Type 0} (ext : External) (c : Controller W) where
  -- `pv.Annotations[AnnProvisionedBy] == c.provisionerName`
  unfoldable pub is_ours : Pv → Bool
  is_ours pv = eq_text (get pv.annotations ann_provisioned_by) c.provisioner_name

  -- `sc.Provisioner == c.provisionerName && c.isNodeTargeted(sc, pvc)`
  unfoldable pub is_for_us : StorageClass → Pvc → Bool
  is_for_us sc pvc = eq_text sc.provisioner c.provisioner_name && is_node_targeted c sc pvc

  abbrev claim_with : Pvc → StorageClass → Exec (System W) (Unit {0})
  claim_with pvc sc = if is_for_us sc pvc then reconcile_claim ext c pvc sc else pure tt

  -- The branch of `processPVC` for a claim that is pending
  abbrev process_pending : Pvc → Option Text → Exec (System W) (Unit {0})
  process_pending pvc none = pure tt
  process_pending pvc (some name) = do
    r ← attempt (get_storage_class c name)
    unless_gone (wrapf (codes "failed to get StorageClass %q: %w") (quoted name ∷ []))
        (claim_with pvc) r

  abbrev state_with : Pvc → Pv → Exec (System W) (Unit {0})
  state_with pvc pv =
      if is_ours pv && is_pv_on_this_node c pv then reconcile_volume_state ext c pvc pv else pure tt

  -- The branch for a claim that is bound
  abbrev process_bound : Pvc → Exec (System W) (Unit {0})
  process_bound pvc = do
    r ← attempt (get_pv c pvc.volume_name)
    unless_gone (wrapf (codes "failed to get PV %q: %w") (quoted pvc.volume_name ∷ []))
        (state_with pvc) r

  unfoldable pub process_pvc : Pvc → Exec (System W) (Unit {0})
  process_pvc pvc =
      if is_pending pvc.phase && is_empty pvc.volume_name
      then process_pending pvc (not_nil pvc.storage_class_name)
      else if is_bound pvc.phase && not (is_empty pvc.volume_name)
      then process_bound pvc
      else pure tt

  -- The four guards of `processPV`
  unfoldable pub is_to_delete : Pv → Bool
  is_to_delete pv =
      is_ours pv
      && (is_released pv.phase && (is_delete pv.reclaim_policy && is_pv_on_this_node c pv))

  unfoldable pub process_pv : Pv → Exec (System W) (Unit {0})
  process_pv pv = if is_to_delete pv then reconcile_volume_delete c pv else pure tt

  unfoldable pub reconcile : ReconcileKey → Exec (System W) (Unit {0})
  reconcile key =
      if eq_text key.kind (codes "pvc")
      then (do
        r ← attempt (get_pvc c key.namespace key.name)
        unless_gone (wrapf (codes "failed to get PVC %s: %w") (str (key_string key) ∷ []))
            process_pvc r)
      else if eq_text key.kind (codes "pv")
      then (do
        r ← attempt (get_pv c key.name)
        unless_gone (wrapf (codes "failed to get PV %s: %w") (str (key_string key) ∷ [])) process_pv
            r)
      else raise (errorf (codes "unknown reconcile kind %q") (quoted key.kind ∷ []))

  -- The loops over all objects drop the errors of the handlers.
  abbrev ignored : Exec (System W) (Unit {0}) → Exec (System W) (Unit {0})
  ignored m = do r ← attempt m; pure tt

  abbrev listed_claim : Pvc → Result StorageClass → Exec (System W) (Unit {0})
  listed_claim pvc (err e) = pure tt
  listed_claim pvc (ok sc) = ignored (claim_with pvc sc)

  abbrev claim_of_class : Pvc → Option Text → Exec (System W) (Unit {0})
  claim_of_class pvc none = pure tt
  claim_of_class pvc (some name) = do
    r ← attempt (lift (c.client.get_storage_class name))
    listed_claim pvc r

  unfoldable pub reconcile_each_claim : List Pvc → Exec (System W) (Unit {0})
  reconcile_each_claim [] = pure tt
  reconcile_each_claim (pvc ∷ pvcs) = do
    if is_pending pvc.phase && is_empty pvc.volume_name
        then claim_of_class pvc (not_nil pvc.storage_class_name)
        else pure tt
    reconcile_each_claim pvcs

  abbrev each_claim : Result (List Pvc) → Exec (System W) (Unit {0})
  each_claim (err e) = pure tt
  each_claim (ok pvcs) = reconcile_each_claim pvcs

  -- `reconcileClaims`
  unfoldable pub reconcile_claims : Exec (System W) (Unit {0})
  reconcile_claims = do r ← attempt (lift c.client.list_pvcs); each_claim r

  unfoldable pub reconcile_each_volume : List Pv → Exec (System W) (Unit {0})
  reconcile_each_volume [] = pure tt
  reconcile_each_volume (pv ∷ pvs) = do ignored (process_pv pv); reconcile_each_volume pvs

  abbrev each_volume : Result (List Pv) → Exec (System W) (Unit {0})
  each_volume (err e) = pure tt
  each_volume (ok pvs) = reconcile_each_volume pvs

  -- `reconcileVolumes`
  unfoldable pub reconcile_volumes : Exec (System W) (Unit {0})
  reconcile_volumes = do r ← attempt (lift c.client.list_pvs); each_volume r
