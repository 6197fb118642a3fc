-- ===== src/Controller/Queue.antt =====
-- The work queue of the controller: the handlers of the informers, which add keys, and the workers,
-- which take them.
pub mod Handlers
pub mod Retries
pub mod Shutdown
use k8s_subvol_provisioner.Base.{
  ℕ, zero, suc, ltb, Bool, true, false, ◌&&◌, List, [], ◌∷◌, Option, none, some, if◌then◌else◌,
}
use k8s_subvol_provisioner.Text.{Text, codes, eq_text}
use k8s_subvol_provisioner.Dict.{get}
use k8s_subvol_provisioner.Errors.{Result, ok, err}
use k8s_subvol_provisioner.Kube.{Pvc, Pv, StorageClass, Listers, External}
use k8s_subvol_provisioner.Config.Names.{ann_provisioned_by}
use k8s_subvol_provisioner.Controller.{Controller, System}
use k8s_subvol_provisioner.Controller.Target.{not_nil}
use k8s_subvol_provisioner.Controller.Process.{ReconcileKey, reconcile, is_ours}

-- `workqueue.TypedRateLimitingInterface[reconcileKey]`, as far as the controller calls it, over an
-- unknown state `Q` of the queue. `get` gives no key where the queue was shut down.
pub record WorkQueue (Q : Type 0) : Type 0 where
  pub get : Q → Option ReconcileKey × Q
  pub done : ReconcileKey → Q → Q
  pub forget : ReconcileKey → Q → Q
  pub add : ReconcileKey → Q → Q
  pub add_rate_limited : ReconcileKey → Q → Q
  pub num_requeues : ReconcileKey → Q → ℕ
  pub shut_down : Q → Q

-- The state of the handlers, with the queue
pub record Loop (W Q : Type 0) : Type 0 where
  pub system : System W
  pub queue : Q

-- An object that an informer hands to a handler
pub data Obj : Type 0 where
  pvc_object : Pvc → Obj
  pv_object : Pv → Obj
  class_object : StorageClass → Obj
  other_object : Obj

unfoldable pub pvc_key : Pvc → ReconcileKey
pvc_key pvc = record { kind = codes "pvc"; namespace = pvc.namespace; name = pvc.name }

unfoldable pub pv_key : Pv → ReconcileKey
pv_key pv = record { kind = codes "pv"; namespace = []; name = pv.name }

-- `*pvc.Spec.StorageClassName == name`, if it is not nil
unfoldable pub class_is : Text → Option Text → Bool
class_is name none = false
class_is name (some class) = eq_text class name

-- `maxRetries`
abbrev pub max_retries : ℕ
max_retries = 5

module _ {Q : Type 0} (q : WorkQueue Q) where
  abbrev add_if_named : ReconcileKey → Option Text → Q → Q
  add_if_named key none s = s
  add_if_named key (some name) s = q.add key s

  -- `onPVCAdd`
  unfoldable pub on_pvc_add : Obj → Q → Q
  on_pvc_add (pvc_object pvc) s = add_if_named (pvc_key pvc) (not_nil pvc.storage_class_name) s
  on_pvc_add _ s = s

  -- The loop of `onStorageClassAdd`
  unfoldable pub add_claims : Text → List Pvc → Q → Q
  add_claims name [] s = s
  add_claims name (pvc ∷ pvcs) s =
      add_claims name pvcs
        (if class_is name pvc.storage_class_name then q.add (pvc_key pvc) s else s)

  module _ {W : Type 0} (ext : External) (c : Controller W) where
    -- `onPVAdd`
    unfoldable pub on_pv_add : Obj → Q → Q
    on_pv_add (pv_object pv) s = if is_ours ext c pv then q.add (pv_key pv) s else s
    on_pv_add _ s = s

    abbrev add_listed : Text → Result (List Pvc) × W → Q → W × Q
    add_listed name (err e, w) s = (w, s)
    add_listed name (ok pvcs, w) s = (w, add_claims name pvcs s)

    abbrev on_class : StorageClass → Option (Listers W) → W → Q → W × Q
    on_class sc none w s = (w, s)
    on_class sc (some listers) w s = add_listed sc.name (listers.list_pvcs w) s

    -- `onStorageClassAdd`
    unfoldable pub on_storage_class_add : Obj → W → Q → W × Q
    on_storage_class_add (class_object sc) w s = on_class sc c.listers w s
    on_storage_class_add _ w s = (w, s)

    -- What follows the reconcile of a key
    abbrev settle : ReconcileKey → Result (Unit {0}) → Q → Q
    settle key (ok _) s = q.forget key s
    settle key (err e) s =
        if ltb (q.num_requeues key s) max_retries then q.add_rate_limited key s else q.forget key s

    abbrev pub work_on : ReconcileKey → System W → Q → Loop W Q
    work_on key s queue =
        let (r, s') = reconcile ext c key s in
        record { system = s'; queue = q.done key (settle key r queue) }

    abbrev next_item : Option ReconcileKey × Q → System W → Bool × Loop W Q
    next_item (none, queue) s = (false, record { system = s; queue = queue })
    next_item (some key, queue) s = (true, work_on key s queue)

    -- `processNextWorkItem`
    unfoldable pub process_next_work_item : Loop W Q → Bool × Loop W Q
    process_next_work_item l = next_item (q.get l.queue) l.system

    -- `worker`, with fuel; `none` means that the fuel ran out.
    unfoldable pub worker : ℕ → Loop W Q → Option (Loop W Q)
    worker zero l = none
    worker (suc fuel) l =
        let (more, l') = process_next_work_item l in
        let rest = worker fuel l' in if more then rest else some l'
