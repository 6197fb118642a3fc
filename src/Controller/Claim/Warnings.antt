-- ===== src/Controller/Claim/Warnings.antt =====
-- The events of a `reconcileClaim` that fails.
use k8s_subvol_provisioner.Base.{
  true, List, [], ◌∷◌, ◌++◌, Option, none, some, ◌≡◌, refl, arith, Bool-cases, inl, inr,
}
use k8s_subvol_provisioner.Text.{Text}
use k8s_subvol_provisioner.Errors.{Error, Message, Result, ok, err, is_already_exists}
use k8s_subvol_provisioner.Exec.{Exec, ◌>>=◌}
use k8s_subvol_provisioner.Exec.Failing.{
  Failing, Failing-pure, Failing-attempt, Failing-if, Failing-bind,
}
use k8s_subvol_provisioner.Config.{EncryptionConfig}
use k8s_subvol_provisioner.Kube.{Pvc, Pv, StorageClass, External}
use k8s_subvol_provisioner.Driver.{Driver, VolumeInfo}
use k8s_subvol_provisioner.Controller.Guard.{is_in_progress}
use k8s_subvol_provisioner.Controller.{
  Controller, System, Event, Object, EventType, warning, emit_event, emit_event-on, exclusive,
}
use k8s_subvol_provisioner.Controller.Claim.Settings.{claim_object, found_for, is_block}
use k8s_subvol_provisioner.Controller.Claim.{
  reject, accept, or_reject, found_driver, check_volume_mode, relative_path, load_secret,
  location_from_secret, key_from_secret, encryption_of, announce_adoption, reused, created,
  create_volume, provision, claim_body, reconcile_claim,
}

-- The last event is a warning about the claim.
abbrev pub EndsWarned : {W : Type 0} → Pvc → System W → Type 0
EndsWarned pvc s =
    (earlier : List Event) × (last : Event) × (s.events ≡ earlier ++ last ∷ [])
    × (last.event_type ≡ warning)
    × (last.object ≡ claim_object pvc)

module _ {W : Type 0} (ext : External) (c : Controller W) (on : c.has_recorder ≡ true)
    (pvc : Pvc) where
  Failing-reject :
      {A : Type 0} (reason : Text) (message : Message) (e : Error)
      → Failing (EndsWarned pvc) (reject ext c {A = A} pvc reason message e)
  unfolding reject ◌>>=◌
  Failing-reject reason message e = record {
    at = λ s e' h.
        rw (emit_event-on c (claim_object pvc) warning reason message s on)
          (s.events, _, refl, refl, refl);
  }

  Failing-emit :
      (object : Object) (kind : EventType) (reason : Text) (message : Message)
      → Failing (EndsWarned pvc) (emit_event c object kind reason message)
  unfolding emit_event
  Failing-emit object kind reason message = record { at = λ s e h. absurd (ground arith) }

  Failing-or_reject :
      {A : Type 0} (reason : Text) (wrap : Error → Error) (m : Exec (System W) A)
      → Failing (EndsWarned pvc) (or_reject ext c pvc reason wrap m)
  Failing-or_reject {A} reason wrap m = Failing-bind _ _ (Failing-attempt m) after
    where
      after : (r : Result A) → Failing (EndsWarned pvc) (accept ext c pvc reason wrap r)
      after (ok a) = Failing-pure a
      after (err e) = Failing-reject reason _ _

  Failing-found_driver :
      (name : Text) (o : Option (Driver W))
      → Failing (EndsWarned pvc) (found_driver ext c pvc name o)
  Failing-found_driver name (some d) = Failing-pure d
  Failing-found_driver name none = Failing-reject _ _ _

  Failing-check_volume_mode : Failing (EndsWarned pvc) (check_volume_mode ext c pvc)
  unfolding check_volume_mode
  Failing-check_volume_mode =
      Failing-if (is_block pvc.volume_mode) _ _ (Failing-reject _ _ _) (Failing-pure tt)

  Failing-relative_path :
      (sc : StorageClass) → Failing (EndsWarned pvc) (relative_path ext c pvc sc)
  unfolding relative_path
  Failing-relative_path sc = Failing-if _ _ _ (Failing-or_reject _ _ _) (Failing-pure _)

  Failing-location :
      (o : Option Text) (e : EncryptionConfig)
      → Failing (EndsWarned pvc) (location_from_secret ext c pvc o e)
  unfolding load_secret
  Failing-location none e = Failing-pure e
  Failing-location (some ref) e =
      Failing-bind _ _ (Failing-or_reject _ _ _) (λ value. Failing-pure _)

  Failing-key :
      (o : Option Text) (e : EncryptionConfig)
      → Failing (EndsWarned pvc) (key_from_secret ext c pvc o e)
  unfolding load_secret
  Failing-key none e = Failing-pure e
  Failing-key (some ref) e = Failing-bind _ _ (Failing-or_reject _ _ _) (λ value. Failing-pure _)

  Failing-encryption_of :
      (sc : StorageClass) → Failing (EndsWarned pvc) (encryption_of ext c pvc sc)
  unfolding encryption_of
  Failing-encryption_of sc = Failing-bind _ _ (Failing-location _ _) (λ e. Failing-key _ _)

  Failing-announce :
      (info : VolumeInfo) → Failing (EndsWarned pvc) (announce_adoption ext c pvc info)
  unfolding announce_adoption
  Failing-announce info = Failing-if _ _ _ (Failing-emit _ _ _ _) (Failing-pure tt)

  Failing-reused : (e : Error) (r : Result Pv) → Failing (EndsWarned pvc) (reused ext c pvc e r)
  Failing-reused e (ok existing) = Failing-if _ _ _ (Failing-pure existing) (Failing-reject _ _ _)
  Failing-reused e (err e') = Failing-reject _ _ _

  Failing-created : (pv : Pv) (r : Result Pv) → Failing (EndsWarned pvc) (created ext c pvc pv r)
  Failing-created pv (ok new) = Failing-pure new
  Failing-created pv (err e) =
      Failing-if (is_already_exists e) _ _ (Failing-bind _ _ (Failing-attempt _) (Failing-reused e))
        (Failing-reject _ _ _)

  Failing-create_volume : (pv : Pv) → Failing (EndsWarned pvc) (create_volume ext c pvc pv)
  unfolding create_volume
  Failing-create_volume pv = Failing-bind _ _ (Failing-attempt _) (Failing-created pv)

  Failing-provision : (sc : StorageClass) → Failing (EndsWarned pvc) (provision ext c pvc sc)
  unfolding provision
  Failing-provision sc = Failing-bind _ _ (Failing-found_driver _ _) λ d.
      Failing-bind _ _ Failing-check_volume_mode λ _.
        Failing-bind _ _ (Failing-relative_path sc) λ rel_path.
          Failing-bind _ _ (Failing-or_reject _ _ _) λ quota.
            Failing-bind _ _ (Failing-encryption_of sc) λ encryption.
              Failing-bind _ _ (Failing-or_reject _ _ _) λ info.
                Failing-bind _ _ (Failing-announce info) λ _.
                  Failing-bind _ _ (Failing-or_reject _ _ _)
                    λ pv. Failing-bind _ _ (Failing-create_volume pv) (λ new. Failing-emit _ _ _ _)

  Failing-claim_body : (sc : StorageClass) → Failing (EndsWarned pvc) (claim_body ext c pvc sc)
  unfolding claim_body
  Failing-claim_body sc =
      Failing-bind _ _ (Failing-attempt _) (λ existing.
        Failing-if (found_for existing pvc) _ _ (Failing-pure tt) (Failing-provision sc))

  Failing-exclusive :
      (key : Text) (body : Exec (System W) (Unit {0}))
      → Failing (EndsWarned pvc) body
      → Failing (EndsWarned pvc) (exclusive key body)
  unfolding exclusive
  Failing-exclusive key body k = record {
    at = λ s e. elim (Bool-cases (is_in_progress key s.in_progress)) [
      | inl busy ↦ rw busy (λ h. absurd (cc))
      | inr free ↦ rw free (λ h. k.at _ e h)
    ];
  }

  -- If a reconcile of a claim returns an error, then the last event that was recorded is a warning
  -- about that claim: no failure to provision goes unreported. This holds if events are recorded.
  pub reconcile_claim-EndsWarned :
      (sc : StorageClass) (s : System W) (e : Error)
      → (reconcile_claim ext c pvc sc s).0 ≡ err e
      → EndsWarned pvc (reconcile_claim ext c pvc sc s).1
  unfolding reconcile_claim
  reconcile_claim-EndsWarned sc = (Failing-exclusive _ _ (Failing-claim_body sc)).at
