-- ===== src/Controller/State/Laws.antt =====
-- The world before and after `reconcileVolumeState`, by the policy of applying.
use k8s_subvol_provisioner.Base.{
  Bool, true, false, not, List, [], ◌∷◌, Option, none, some, ◌≡◌, ◌∙◌, refl, arith, Bool-cases, inl,
  inr,
}
use k8s_subvol_provisioner.Base.Int.{ℤ}
use k8s_subvol_provisioner.Text.{Text, is_empty}
use k8s_subvol_provisioner.Dict.{Dict, lookup, get}
use k8s_subvol_provisioner.Errors.{Message, Result, ok, err}
use k8s_subvol_provisioner.Exec.{Exec, ◌>>=◌}
use k8s_subvol_provisioner.Exec.Along.{
  Along, IsPreorder, Along-pure, Along-raise, Along-attempt, Along-bind, bind_at,
}
use k8s_subvol_provisioner.Config.Names.{ann_apply, ann_dry_run, ann_dataset_name}
use k8s_subvol_provisioner.Kube.{Pvc, Pv, StorageClass, External}
use k8s_subvol_provisioner.Driver.{Driver, Reconciler}
use k8s_subvol_provisioner.Driver.Laws.{Reads, IsDryRunSafe, AllSafe}
use k8s_subvol_provisioner.Controller.Guard.{is_in_progress}
use k8s_subvol_provisioner.Controller.{
  Controller, System, Object, EventType, lift, emit_event, exclusive,
}
use k8s_subvol_provisioner.Controller.Target.{not_nil}
use k8s_subvol_provisioner.Controller.Quota.{resolve_quota}
use k8s_subvol_provisioner.Controller.State.{
  state_key, is_true, applies, report_failure, changes_or_none, collect, reconcile_steps,
  consume_apply, conclude, class_named, class_of, quota_or_fail, reconcile_with, with_reconciler,
  with_driver, state_body, reconcile_volume_state, owner_mode_options,
}

abbrev KeepsWorld : {W : Type 0} → System W → System W → Type 0
KeepsWorld s t = t.world ≡ s.world

module _ {W : Type 0} where
  preorder : IsPreorder (KeepsWorld {W = W})
  preorder = record { reflexive = λ s. refl; transitive = λ s t u h k. k ∙ h }

  Along-read : {A : Type 0} (m : Exec W A) → Reads m → Along KeepsWorld (lift m)
  unfolding lift
  Along-read m h = record { at = λ s. h s.world }

  Along-event :
      (c : Controller W) (object : Object) (kind : EventType) (reason : Text) (message : Message)
      → Along KeepsWorld (emit_event c object kind reason message)
  unfolding emit_event
  Along-event c object kind reason message = record { at = λ s. ground arith }

module _ {W : Type 0} (ext : External) (c : Controller W) where
  Along-collect :
      (pvc : Pvc) (what : Text) (m : Exec W (List Text))
      → Reads m
      → Along KeepsWorld (collect ext c pvc what m)
  unfolding collect report_failure
  Along-collect pvc what m h = Along-bind preorder _ _ (Along-attempt _ (Along-read m h)) after
    where
      after : (r : Result (List Text)) → Along KeepsWorld (changes_or_none ext c pvc what r)
      after (ok changes) = Along-pure preorder changes
      after (err e) = Along-bind preorder _ _ (Along-event c _ _ _ _) (λ _. Along-pure preorder [])

  Along-reconcile_steps :
      (rec : Reconciler W) (pvc : Pvc) (pv : Pv) (sc : Option StorageClass) (quota : Option ℤ)
      → IsDryRunSafe rec
      → Along KeepsWorld (reconcile_steps ext c rec pvc pv sc quota true)
  unfolding reconcile_steps owner_mode_options
  Along-reconcile_steps rec pvc pv sc quota safe =
      Along-bind preorder _ _ (Along-collect pvc _ _ (safe.quota _ _)) λ qc.
        Along-bind preorder _ _ (Along-collect pvc _ _ (safe.owner_mode _ refl)) λ oc.
          Along-bind preorder _ _ (Along-collect pvc _ _ (safe.properties _ _))
            λ pc. Along-pure preorder _

  Along-conclude :
      (pvc : Pvc) (changes : List Text)
      → is_true pvc.annotations ann_apply ≡ false
      → Along KeepsWorld (conclude ext c pvc false changes)
  unfolding conclude consume_apply
  Along-conclude pvc [] h =
      Along-bind preorder _ _ (Along-event c _ _ _ _) (λ _. rw h (Along-pure preorder tt))
  Along-conclude pvc (x ∷ changes) h = Along-event c _ _ _ _

  Along-class_named :
      (o : Option Text)
      → ((name : Text) → Reads (c.client.get_storage_class name))
      → Along KeepsWorld (class_named ext c o)
  Along-class_named none h = Along-pure preorder none
  Along-class_named (some name) h =
      Along-bind preorder _ _ (Along-attempt _ (Along-read _ (h name))) (λ r. Along-pure preorder _)

  Along-class_of :
      (pvc : Pvc)
      → ((name : Text) → Reads (c.client.get_storage_class name))
      → Along KeepsWorld (class_of ext c pvc)
  unfolding class_of
  Along-class_of pvc h = Along-class_named _ h

  Along-quota_or_fail :
      (pvc : Pvc) (r : Result (Option ℤ)) → Along KeepsWorld (quota_or_fail ext c pvc r)
  unfolding report_failure
  Along-quota_or_fail pvc (ok quota) = Along-pure preorder quota
  Along-quota_or_fail pvc (err e) =
      Along-bind preorder _ _ (Along-event c _ _ _ _) (λ _. Along-raise preorder e)

  -- The run plans only: whatever class the claim turns out to have, nothing authorizes it.
  abbrev pub PlansOnly : Pvc → System W → Type 0
  PlansOnly pvc s =
      (is_true pvc.annotations ann_apply ≡ false)
      × ((sc : Option StorageClass) → (class_of ext c pvc s).0 ≡ ok sc → applies pvc sc ≡ false)

  planned :
      (rec : Reconciler W) (pvc : Pvc) (pv : Pv) (sc : Option StorageClass) (apply : Bool)
      → IsDryRunSafe rec
      → is_true pvc.annotations ann_apply ≡ false
      → apply ≡ false
      → Along KeepsWorld (
          quota_or_fail ext c pvc (resolve_quota ext pvc) >>= λ quota.
          reconcile_steps ext c rec pvc pv sc quota (not apply) >>= λ changes.
          conclude ext c pvc apply changes)
  planned rec pvc pv sc true safe h e = absurd (cc)
  planned rec pvc pv sc false safe h e =
      Along-bind preorder _ _ (Along-quota_or_fail pvc _) λ quota.
        Along-bind preorder _ _ (Along-reconcile_steps rec pvc pv sc quota safe)
          λ changes. Along-conclude pvc changes h

  reconcile_with_planned :
      (rec : Reconciler W) (pvc : Pvc) (pv : Pv) (s : System W)
      → IsDryRunSafe rec
      → ((name : Text) → Reads (c.client.get_storage_class name))
      → PlansOnly pvc s
      → KeepsWorld s (reconcile_with ext c rec pvc pv s).1
  unfolding reconcile_with
  reconcile_with_planned rec pvc pv s safe reads (h, plan) =
      bind_at preorder (class_of ext c pvc) _ s ((Along-class_of pvc reads).at s)
        λ sc found. (planned rec pvc pv sc (applies pvc sc) safe h (plan sc found)).at _

  with_reconciler_planned :
      (o : Option (Reconciler W)) (pvc : Pvc) (pv : Pv) (s : System W)
      → AllSafe o
      → ((name : Text) → Reads (c.client.get_storage_class name))
      → PlansOnly pvc s
      → KeepsWorld s (with_reconciler ext c o pvc pv s).1
  with_reconciler_planned none pvc pv s safe reads plan = (Along-pure preorder tt).at s
  with_reconciler_planned (some rec) pvc pv s safe reads plan =
      elim (Bool-cases (is_empty (get pv.annotations ann_dataset_name))) [
        | inl e ↦ rw e ((Along-pure preorder tt).at s)
        | inr e ↦ rw e (reconcile_with_planned rec pvc pv s safe reads plan)
      ]

  with_driver_planned :
      (o : Option (Driver W)) (pvc : Pvc) (pv : Pv) (s : System W)
      → ((d : Driver W) → o ≡ some d → AllSafe d.reconciler)
      → ((name : Text) → Reads (c.client.get_storage_class name))
      → PlansOnly pvc s
      → KeepsWorld s (with_driver ext c o pvc pv s).1
  with_driver_planned none pvc pv s safe reads plan = (Along-pure preorder tt).at s
  with_driver_planned (some d) pvc pv s safe reads plan =
      with_reconciler_planned d.reconciler pvc pv s (safe d refl) reads plan

  class_of_guarded :
      (pvc : Pvc) (s : System W) (m : Dict Bool)
      → (class_of ext c pvc (record s { in_progress = m })).0 ≡ (class_of ext c pvc s).0
  unfolding class_of ◌>>=◌ lift
  class_of_guarded pvc s m = go (not_nil pvc.storage_class_name)
    where
      go :
          (o : Option Text)
          → (class_named ext c o (record s { in_progress = m })).0 ≡ (class_named ext c o s).0
      go none = refl
      go (some name) = refl

  -- A reconcile of a bound claim that nothing authorizes to apply leaves the world as it was: no
  -- dataset and no object of the cluster changes. This holds if dry runs of the registered drivers
  -- change nothing and reading a storage class changes nothing.
  pub reconcile_volume_state_planned :
      (pvc : Pvc) (pv : Pv) (s : System W)
      → ((name : Text) (d : Driver W) → lookup name c.drivers ≡ some d → AllSafe d.reconciler)
      → ((name : Text) → Reads (c.client.get_storage_class name))
      → PlansOnly pvc s
      → (reconcile_volume_state ext c pvc pv s).1.world ≡ s.world
  unfolding reconcile_volume_state exclusive state_body
  reconcile_volume_state_planned pvc pv s safe reads (h, plan) =
      elim (Bool-cases (is_in_progress (state_key pvc.namespace pvc.name) s.in_progress)) [
        | inl e ↦ rw e refl
        | inr e ↦ rw e (
            with_driver_planned _ pvc pv (record s { in_progress = _ }) (safe _) reads
              (h, λ sc found. plan sc (rw class_of_guarded at found)))
      ]

-- The annotation `dry-run` forces planning, whatever else is set.
pub applies_dry_run :
    (pvc : Pvc) (sc : Option StorageClass)
    → is_true pvc.annotations ann_dry_run ≡ true
    → applies pvc sc ≡ false
unfolding applies
applies_dry_run pvc sc h = ground arith
