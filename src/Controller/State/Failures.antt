-- ===== src/Controller/State/Failures.antt =====
-- What a reconcile does when its three steps fail.
use k8s_subvol_provisioner.Base.{
  Bool, true, not, List, [], ◌∷◌, ◌++◌, Option, none, some, ◌≡◌, refl, Bool-cases, inl, inr,
}
use k8s_subvol_provisioner.Base.Int.{ℤ}
use k8s_subvol_provisioner.Text.{Text, codes}
use k8s_subvol_provisioner.Dict.{get}
use k8s_subvol_provisioner.Errors.{Error, format, Result, ok, err}
use k8s_subvol_provisioner.Exec.{Exec, pure, ◌>>=◌, continue, ensures-bind, bind-run}
use k8s_subvol_provisioner.Config.Names.{ann_apply, ann_dataset_name}
use k8s_subvol_provisioner.Kube.{Pvc, Pv, StorageClass, External}
use k8s_subvol_provisioner.Driver.{Reconciler}
use k8s_subvol_provisioner.Controller.{
  Controller, System, Event, normal, lift, emit_event, emit_event-on,
}
use k8s_subvol_provisioner.Controller.Target.{not_nil}
use k8s_subvol_provisioner.Controller.Quota.{resolve_quota}
use k8s_subvol_provisioner.Controller.Claim.Settings.{claim_object}
use k8s_subvol_provisioner.Controller.State.{
  is_true, applies, report_failure, collect, reconcile_steps, consume_apply, conclude, class_named,
  owner_mode_options, desired_properties, class_of, quota_or_fail, reconcile_with,
  remove_apply_patch,
}

-- A call that returned an error
abbrev pub IsErr : {W A : Type 0} → Result A × W → Type 0
IsErr done = (e : Error) × (done.0 ≡ err e)

module _ {W : Type 0} (ext : External) (c : Controller W) (rec : Reconciler W) (pvc : Pvc) (pv : Pv)
    (sc : Option StorageClass) (quota : Option ℤ) where
  -- The three calls of the reconciler, each in the world that the one before it leaves
  abbrev pub quota_call : W → Result (List Text) × W
  quota_call =
      rec.reconcile_quota (get pv.annotations ann_dataset_name) quota (not (applies pvc sc))

  abbrev pub owner_mode_call : W → Result (List Text) × W
  owner_mode_call w =
      rec.reconcile_owner_mode (owner_mode_options ext c pvc pv (not (applies pvc sc)))
        (quota_call w).1

  abbrev pub properties_call : W → Result (List Text) × W
  properties_call w =
      rec.reconcile_properties (get pv.annotations ann_dataset_name) (desired_properties pvc sc)
        (not (applies pvc sc)) (owner_mode_call w).1

  -- The three calls fail, from a world on, and the call that would remove the annotation `apply` after
  -- them succeeds.
  pub record AllFail (w : W) : Type 0 where
    pub quota_fails : IsErr (quota_call w)
    pub owner_mode_fails : IsErr (owner_mode_call w)
    pub properties_fail : IsErr (properties_call w)
    pub removes :
        (a : Unit {0}) × ((c.client.patch_pvc pvc.namespace pvc.name remove_apply_patch
            (properties_call w).1).0
          ≡ ok a)

-- The event "VolumeUpToDate" about a claim
abbrev pub up_to_date : Pvc → Event
up_to_date pvc = record {
  object = claim_object pvc;
  event_type = normal;
  reason = codes "VolumeUpToDate";
  message = format (codes "No pending changes: dataset matches the desired configuration") [];
}

module _ {W : Type 0} (ext : External) (c : Controller W) where
  collect-err :
      (pvc : Pvc) (what : Text) (m : Exec W (List Text)) (s : System W)
      → IsErr (m s.world)
      → ((collect ext c pvc what m s).0 ≡ ok [])
        × ((collect ext c pvc what m s).1.world ≡ (m s.world).1)
  unfolding collect ◌>>=◌ lift report_failure emit_event
  collect-err pvc what m s (e, same) = rw same (elim (Bool-cases c.has_recorder) [
    | inl on ↦ rw on (refl, refl)
    | inr off ↦ rw off (refl, refl)
  ])

  -- A step that fails in a known world, with what follows
  collected :
      {B : Type 0} (P : Result B × System W → Type 0) (pvc : Pvc) (what : Text)
      (m : Exec W (List Text)) (f : List Text → Exec (System W) B) (s : System W) (w : W)
      → s.world ≡ w
      → IsErr (m w)
      → ((t : System W) → t.world ≡ (m w).1 → P (f [] t))
      → P ((collect ext c pvc what m >>= f) s)
  collected P pvc what m f s w at fails rest =
      let (none_made, next) = collect-err pvc what m s (rw at fails) in
      ensures-bind P (collect ext c pvc what m) f s [] none_made (rest _ (rw (← at) next))

  reconcile_steps-fail :
      (P : Result (List Text) × System W → Type 0) (rec : Reconciler W) (pvc : Pvc) (pv : Pv)
      (sc : Option StorageClass) (quota : Option ℤ) (s : System W)
      → AllFail ext c rec pvc pv sc quota s.world
      → ((t : System W)
          → t.world ≡ (properties_call ext c rec pvc pv sc quota s.world).1
          → P (ok [], t))
      → P (reconcile_steps ext c rec pvc pv sc quota (not (applies pvc sc)) s)
  unfolding reconcile_steps pure
  reconcile_steps-fail P rec pvc pv sc quota s f rest =
      collected P pvc _ _ _ s s.world refl f.quota_fails λ t at₁.
        collected P pvc _ _ _ t _ at₁ f.owner_mode_fails
          λ u at₂. collected P pvc _ _ _ u _ at₂ f.properties_fail rest

  consume_apply-ok :
      (pvc : Pvc) (text : Text) (s : System W)
      → (a : Unit {0}) × ((c.client.patch_pvc pvc.namespace pvc.name remove_apply_patch s.world).0
          ≡ ok a)
      → ((consume_apply ext c pvc text s).0 ≡ ok tt)
        × ((consume_apply ext c pvc text s).1.events ≡ s.events)
  unfolding consume_apply ◌>>=◌ lift emit_event
  consume_apply-ok pvc text s (a, same) = elim (Bool-cases (is_true pvc.annotations ann_apply)) [
    | inl e ↦ rw e (rw same (refl, refl))
    | inr e ↦ rw e (refl, refl)
  ]

  conclude-nil :
      (pvc : Pvc) (apply : Bool) (s : System W)
      → c.has_recorder ≡ true
      → (a : Unit {0}) × ((c.client.patch_pvc pvc.namespace pvc.name remove_apply_patch s.world).0
          ≡ ok a)
      → ((conclude ext c pvc apply [] s).0 ≡ ok tt)
        × ((conclude ext c pvc apply [] s).1.events ≡ s.events ++ up_to_date pvc ∷ [])
  unfolding conclude ◌>>=◌
  conclude-nil pvc apply s on h =
      rw (emit_event-on c (claim_object pvc) normal _ _ s on) (consume_apply-ok pvc _ _ h)

  class_of-ok :
      (pvc : Pvc) (s : System W) → (sc : Option StorageClass) × ((class_of ext c pvc s).0 ≡ ok sc)
  unfolding class_of ◌>>=◌ lift
  class_of-ok pvc s = named (not_nil pvc.storage_class_name)
    where
      named : (o : Option Text) → (sc : Option StorageClass) × ((class_named ext c o s).0 ≡ ok sc)
      named none = (none, refl)
      named (some name) = (_, refl)

  quota_or_fail-ok :
      (pvc : Pvc) (r : Result (Option ℤ)) (quota : Option ℤ) (s : System W)
      → r ≡ ok quota
      → quota_or_fail ext c pvc r s ≡ (ok quota, s)
  unfolding pure
  quota_or_fail-ok pvc r quota s e = rw e refl

  -- No error, and the last event says that the volume is up to date
  abbrev pub EndsUpToDate : Pvc → Result (Unit {0}) × System W → Type 0
  EndsUpToDate pvc done =
      (done.0 ≡ ok tt) × (earlier : List Event) × (done.1.events ≡ earlier ++ up_to_date pvc ∷ [])

  -- What follows a result of the three steps ends so.
  abbrev Ended : Pvc → Bool → Result (List Text) × System W → Type 0
  Ended pvc apply done = EndsUpToDate pvc (continue done.0 (conclude ext c pvc apply) done.1)

  ended :
      (pvc : Pvc) (apply : Bool) (t : System W)
      → c.has_recorder ≡ true
      → (a : Unit {0}) × ((c.client.patch_pvc pvc.namespace pvc.name remove_apply_patch t.world).0
          ≡ ok a)
      → Ended pvc apply (ok [], t)
  ended pvc apply t on h = let (fine, last) = conclude-nil pvc apply t on h in (fine, _, last)

  concluded :
      (pvc : Pvc) (apply : Bool) (m : Exec (System W) (List Text)) (s : System W)
      → Ended pvc apply (m s)
      → EndsUpToDate pvc ((m >>= conclude ext c pvc apply) s)
  unfolding ◌>>=◌
  concluded pvc apply m s h = h

  -- If the three calls that reconcile quota, owner and mode, and properties all fail, then the
  -- reconcile still returns no error, so it is not retried, and its last event says that the volume is
  -- up to date. This holds if the quota of the claim is valid, events are recorded, and the call
  -- after them that removes the annotation `apply` succeeds.
  pub reconcile_with-AllFail :
      (rec : Reconciler W) (pvc : Pvc) (pv : Pv) (s : System W) (quota : Option ℤ)
      → ((sc : Option StorageClass)
          → (class_of ext c pvc s).0 ≡ ok sc
          → AllFail ext c rec pvc pv sc quota (class_of ext c pvc s).1.world)
      → resolve_quota ext pvc ≡ ok quota
      → c.has_recorder ≡ true
      → EndsUpToDate pvc (reconcile_with ext c rec pvc pv s)
  unfolding reconcile_with
  reconcile_with-AllFail rec pvc pv s quota fails q on =
      let (sc, found) = class_of-ok pvc s in
      let f = fails sc found in
      ensures-bind (EndsUpToDate pvc) _ _ s sc found (
        rw (bind-run _ _ _ _ quota (quota_or_fail-ok pvc (resolve_quota ext pvc) quota _ q)) (
          concluded pvc (applies pvc sc) (reconcile_steps ext c rec pvc pv sc quota _) _ (
            reconcile_steps-fail (Ended pvc (applies pvc sc)) rec pvc pv sc quota _ f
              λ t at. ended pvc (applies pvc sc) t on (rw at f.removes))))
