-- ===== src/Controller/State/Success.antt =====
-- `reconcileVolumeState` where its steps succeed.
use mathlib.Core.Path.{ap}
use k8s_subvol_provisioner.Base.{
  Bool, true, false, not, ◌&&◌, List, [], ◌∷◌, ◌++◌, Option, some, if◌then◌else◌, ◌≡◌, refl, ◌∙◌,
}
use k8s_subvol_provisioner.Base.Int.{ℤ}
use k8s_subvol_provisioner.Text.{Text, codes, join, is_empty}
use k8s_subvol_provisioner.Dict.{lookup, get, insert}
use k8s_subvol_provisioner.Errors.{Message, format, str, Result, ok}
use k8s_subvol_provisioner.Exec.{Exec, pure, ◌>>=◌, bind-run}
use k8s_subvol_provisioner.Config.Names.{ann_subvol_driver, ann_dataset_name, ann_apply}
use k8s_subvol_provisioner.Kube.{Pvc, Pv, StorageClass, External}
use k8s_subvol_provisioner.Driver.{Driver, Reconciler}
use k8s_subvol_provisioner.Controller.{
  Controller, System, Event, normal, lift, emit_event-on, exclusive,
}
use k8s_subvol_provisioner.Controller.Guard.{is_in_progress, enter_free, leave}
use k8s_subvol_provisioner.Controller.Quota.{resolve_quota}
use k8s_subvol_provisioner.Controller.Claim.Settings.{claim_object}
use k8s_subvol_provisioner.Controller.State.{
  state_key, is_true, applies, desired_properties, remove_apply_patch, owner_mode_options, collect,
  reconcile_steps, consume_apply, conclude, class_of, reconcile_with, state_body,
  reconcile_volume_state,
}

-- What the last event says of some changes: there are none, or they are planned, or applied.
abbrev reason_of : Bool → List Text → Text
reason_of apply [] = codes "VolumeUpToDate"
reason_of false (x ∷ changes) = codes "VolumeDryRun"
reason_of true (x ∷ changes) = codes "VolumeUpdated"

abbrev message_of : Bool → List Text → Message
message_of apply [] =
    format (codes "No pending changes: dataset matches the desired configuration") []
message_of false (x ∷ changes) =
    format (codes "Dry run: would apply: %s (annotate with %s to apply)")
      (str (join (codes ", ") (x ∷ changes)) ∷ str ann_apply ∷ [])
message_of true (x ∷ changes) =
    format (codes "Applied: %s") (str (join (codes ", ") (x ∷ changes)) ∷ [])

-- The one event about a claim whose volume is reconciled
abbrev pub summary : Pvc → Bool → List Text → Event
summary pvc apply changes = record {
  object = claim_object pvc;
  event_type = normal;
  reason = reason_of apply changes;
  message = message_of apply changes;
}

-- The one-shot annotation is consumed unless there are changes that are only planned.
abbrev pub is_settled : Bool → List Text → Bool
is_settled apply [] = true
is_settled apply (x ∷ changes) = apply

module _ {W : Type 0} (ext : External) (c : Controller W) (rec : Reconciler W) (pvc : Pvc)
    (pv : Pv) where
  -- The storage class and the quota are found without a change, the three steps succeed one after the
  -- other, and so does the removal of the annotation `apply` where there is one to remove.
  pub record CanUpdate (w : W) : Type 0 where
    pub sc : Option StorageClass
    pub quota : Option ℤ
    pub quota_changes : List Text
    pub owner_changes : List Text
    pub property_changes : List Text
    pub limited : W
    pub owned : W
    pub set : W
    pub last : W
    pub classed : (s : System W) → class_of ext c pvc s ≡ (ok sc, s)
    pub resolved : resolve_quota ext pvc ≡ ok quota
    pub limits :
        rec.reconcile_quota (get pv.annotations ann_dataset_name) quota (not (applies pvc sc)) w
        ≡ (ok quota_changes, limited)
    pub owns :
        rec.reconcile_owner_mode (owner_mode_options ext c pvc pv (not (applies pvc sc))) limited
        ≡ (ok owner_changes, owned)
    pub sets :
        rec.reconcile_properties
          (get pv.annotations ann_dataset_name)
          (desired_properties pvc sc)
          (not (applies pvc sc))
          owned
        ≡ (ok property_changes, set)
    pub cleans :
        (if is_true pvc.annotations ann_apply
              && is_settled (applies pvc sc) (quota_changes ++ (owner_changes ++ property_changes))
            then c.client.patch_pvc pvc.namespace pvc.name remove_apply_patch
            else pure tt)
          set
        ≡ (ok tt, last)

  collect-run :
      (what : Text) (m : Exec W (List Text)) (s : System W) (changes : List Text) (w : W)
      → m s.world ≡ (ok changes, w)
      → collect ext c pvc what m s ≡ (ok changes, record s { world = w })
  unfolding collect lift ◌>>=◌
  collect-run what m s changes w h = rw h refl

  steps-run :
      (s : System W) (can : CanUpdate s.world)
      → reconcile_steps ext c rec pvc pv can.sc can.quota (not (applies pvc can.sc)) s ≡ (
        ok (can.quota_changes ++ (can.owner_changes ++ can.property_changes)),
        record s { world = can.set },
      )
  unfolding reconcile_steps pure
  steps-run s can =
      bind-run _ _ s (record s { world = can.limited }) can.quota_changes
        (collect-run _ _ s can.quota_changes can.limited can.limits)
      ∙ (bind-run _ _ (record s { world = can.limited }) (record s { world = can.owned })
            can.owner_changes
            (collect-run _ _ (record s { world = can.limited }) can.owner_changes can.owned
              can.owns)
          ∙ bind-run _ _ (record s { world = can.owned }) (record s { world = can.set })
              can.property_changes
              (collect-run _ _ (record s { world = can.owned }) can.property_changes can.set
                can.sets))

  -- The call that removes the annotation `apply`, where it is there and is to be consumed
  abbrev cleaning : Bool → W → Result (Unit {0}) × W
  cleaning consumed =
      if is_true pvc.annotations ann_apply && consumed
      then c.client.patch_pvc pvc.namespace pvc.name remove_apply_patch
      else pure tt

  consume_apply-run :
      (text : Text) (s : System W) (last : W)
      → cleaning true s.world ≡ (ok tt, last)
      → consume_apply ext c pvc text s ≡ (ok tt, record s { world = last })
  unfolding consume_apply lift ◌>>=◌
  consume_apply-run text s last h = go (is_true pvc.annotations ann_apply) refl h
    where
      go :
          (b : Bool)
          → is_true pvc.annotations ann_apply ≡ b
          → (if b && true
                then c.client.patch_pvc pvc.namespace pvc.name remove_apply_patch
                else pure tt)
              s.world
            ≡ (ok tt, last)
          → consume_apply ext c pvc text s ≡ (ok tt, record s { world = last })
      go true e h = rw e (rw h refl)
      go false e h = rw e (rw (← ap (λ p. p.1) h) refl)

  not_cleaned : (w last : W) → cleaning false w ≡ (ok tt, last) → w ≡ last
  unfolding pure
  not_cleaned w last = go (is_true pvc.annotations ann_apply)
    where
      go :
          (b : Bool)
          → (if b && false
                then c.client.patch_pvc pvc.namespace pvc.name remove_apply_patch
                else pure tt)
              w
            ≡ (ok tt, last)
          → w ≡ last
      go true h = ap (λ p. p.1) h
      go false h = ap (λ p. p.1) h

  told : System W → Bool → List Text → System W
  told s apply changes = record s { events = s.events ++ summary pvc apply changes ∷ [] }

  conclude-run :
      (apply : Bool) (changes : List Text) (s : System W) (last : W)
      → c.has_recorder ≡ true
      → cleaning (is_settled apply changes) s.world ≡ (ok tt, last)
      → conclude ext c pvc apply changes s
        ≡ (ok tt, record s { world = last; events = s.events ++ summary pvc apply changes ∷ [] })
  unfolding conclude told pure
  conclude-run apply [] s last on h =
      bind-run _ _ s (told s apply []) tt (emit_event-on c (claim_object pvc) normal _ _ s on)
      ∙ consume_apply-run _ (told s apply []) last h
  conclude-run true (x ∷ changes) s last on h =
      bind-run _ _ s (told s true (x ∷ changes)) tt
        (emit_event-on c (claim_object pvc) normal _ _ s on)
      ∙ consume_apply-run _ (told s true (x ∷ changes)) last h
  conclude-run false (x ∷ changes) s last on h =
      rw (← not_cleaned s.world last h) (emit_event-on c (claim_object pvc) normal _ _ s on)

  pub reconcile_with-run :
      (s : System W) (can : CanUpdate s.world)
      → c.has_recorder ≡ true
      → let changes = can.quota_changes ++ (can.owner_changes ++ can.property_changes) in
        reconcile_with ext c rec pvc pv s ≡ (
          ok tt,
          record s {
            world = can.last;
            events = s.events ++ summary pvc (applies pvc can.sc) changes ∷ [];
          },
        )
  unfolding reconcile_with pure
  reconcile_with-run s can on =
      let changes = can.quota_changes ++ (can.owner_changes ++ can.property_changes) in
      bind-run _ _ s s can.sc (can.classed s)
      ∙ (bind-run _ _ s s can.quota (rw can.resolved refl)
          ∙ (bind-run _ _ s (record s { world = can.set }) changes (steps-run s can)
              ∙ conclude-run (applies pvc can.sc) changes (record s { world = can.set }) can.last on
                  can.cleans))

  -- The state that it leaves, with the guard of the claim released
  pub reconcile_volume_state-run :
      (s : System W) (d : Driver W) (can : CanUpdate s.world)
      → c.has_recorder ≡ true
      → is_in_progress (state_key pvc.namespace pvc.name) s.in_progress ≡ false
      → lookup (get pv.annotations ann_subvol_driver) c.drivers ≡ some d
      → d.reconciler ≡ some rec
      → is_empty (get pv.annotations ann_dataset_name) ≡ false
      → let key = state_key pvc.namespace pvc.name in
        let changes = can.quota_changes ++ (can.owner_changes ++ can.property_changes) in
        reconcile_volume_state ext c pvc pv s ≡ (
          ok tt,
          record {
            world = can.last;
            events = s.events ++ summary pvc (applies pvc can.sc) changes ∷ [];
            in_progress = leave key (insert key true s.in_progress);
          },
        )
  unfolding reconcile_volume_state exclusive state_body
  reconcile_volume_state-run s d can on free registered able named =
      let key = state_key pvc.namespace pvc.name in
      let entered = record s { in_progress = insert key true s.in_progress } in
      rw (enter_free key s.in_progress free)
        (rw registered (rw able (rw named (rw (reconcile_with-run entered can on) refl))))

  -- Where its steps succeed, a reconcile of a bound claim returns no error and leaves the world as the
  -- steps and the removal of the annotation `apply` leave it. It records one event, which lists the
  -- changes of the three steps, as applied or as planned, or says that there are none. The annotation
  -- is removed unless the changes are only planned. This holds if the driver is registered and has a
  -- reconciler, the volume names a dataset, no other worker is busy with the claim, events are
  -- recorded, and storage class and quota are found without a change.
  pub reconcile_volume_state_updated :
      (s : System W) (d : Driver W) (can : CanUpdate s.world)
      → c.has_recorder ≡ true
      → is_in_progress (state_key pvc.namespace pvc.name) s.in_progress ≡ false
      → lookup (get pv.annotations ann_subvol_driver) c.drivers ≡ some d
      → d.reconciler ≡ some rec
      → is_empty (get pv.annotations ann_dataset_name) ≡ false
      → let changes = can.quota_changes ++ (can.owner_changes ++ can.property_changes) in
        let done = reconcile_volume_state ext c pvc pv s in
        (done.0 ≡ ok tt)
        × ((done.1.world ≡ can.last)
            × (done.1.events ≡ s.events ++ summary pvc (applies pvc can.sc) changes ∷ []))
  reconcile_volume_state_updated s d can on free registered able named =
      rw (reconcile_volume_state-run s d can on free registered able named) (refl, (refl, refl))
