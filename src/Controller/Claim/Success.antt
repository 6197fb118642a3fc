-- ===== src/Controller/Claim/Success.antt =====
-- `reconcileClaim` for a claim that can be provisioned.
use k8s_subvol_provisioner.Base.{
  true, false, List, [], ◌∷◌, ◌++◌, Option, some, ◌≡◌, ◌≢◌, refl, ◌∙◌, Bool-cases, inl, inr,
}
use k8s_subvol_provisioner.Base.Int.{ℤ}
use k8s_subvol_provisioner.Text.{Text, codes}
use k8s_subvol_provisioner.Dict.{lookup, insert}
use k8s_subvol_provisioner.Errors.{Error, format, str, quoted, Result, ok}
use k8s_subvol_provisioner.Exec.{Exec, pure, returned, ◌>>=◌, bind-run}
use k8s_subvol_provisioner.Config.{EncryptionConfig}
use k8s_subvol_provisioner.Kube.{Pvc, Pv, StorageClass, External}
use k8s_subvol_provisioner.Driver.{Driver, VolumeInfo}
use k8s_subvol_provisioner.Builder.{build_persistent_volume, volume_of, pv_name_of}
use k8s_subvol_provisioner.Builder.Laws.{build_persistent_volume-volume_of}
use k8s_subvol_provisioner.Controller.{
  Controller, System, Event, normal, lift, emit_event, emit_event-on, exclusive,
}
use k8s_subvol_provisioner.Controller.Guard.{is_in_progress, enter_free}
use k8s_subvol_provisioner.Controller.Lookup.{pv_from, get_pv}
use k8s_subvol_provisioner.Controller.Quota.{resolve_quota}
use k8s_subvol_provisioner.Controller.Claim.Settings.{
  claim_object, claim_key, found_for, default_to, driver_name_of, is_block, mount_path_of,
}
use k8s_subvol_provisioner.Controller.Claim.{
  is_adopting, or_reject, check_volume_mode, relative_path, encryption_of, create_options, node_of,
  build_options, announce_adoption, create_volume, provision, claim_body, reconcile_claim,
}

module _ {W : Type 0} (ext : External) (c : Controller W) (pvc : Pvc) (sc : StorageClass) where
  -- What a claim is provisioned with: its driver, its path, quota and encryption, which are found
  -- without a change, the volume that the driver creates, and the object that is stored for it.
  pub record CanProvision (w : W) : Type 0 where
    pub driver : Driver W
    pub path : Text
    pub quota : Option ℤ
    pub encryption : EncryptionConfig
    pub info : VolumeInfo
    pub made : W
    pub stored : Pv
    pub last : W
    pub registered : lookup (driver_name_of sc) c.drivers ≡ some driver
    pub filesystem : is_block pvc.volume_mode ≡ false
    pub located : (s : System W) → relative_path ext c pvc sc s ≡ (ok path, s)
    pub limited : resolve_quota ext pvc ≡ ok quota
    pub unlocked : (s : System W) → encryption_of ext c pvc sc s ≡ (ok encryption, s)
    pub creates :
        driver.create (create_options ext c pvc sc path quota encryption) w ≡ (ok info, made)
    pub placed : node_of ext c pvc sc ≢ []
    pub mounted : default_to (mount_path_of sc path) info.mount_path ≢ []
    pub stores :
        c.client.create_pv (volume_of (build_options ext c pvc sc path info) pvc) made
        ≡ (ok stored, last)

  or_reject-ok :
      {A : Type 0} (reason : Text) (wrap : Error → Error) (m : Exec (System W) A) (s t : System W)
      (a : A)
      → m s ≡ (ok a, t)
      → or_reject ext c pvc reason wrap m s ≡ (ok a, t)
  unfolding ◌>>=◌
  or_reject-ok reason wrap m s t a h = rw h refl

  -- The event "VolumeAdopted" about the claim
  abbrev adopted : VolumeInfo → Event
  adopted info = record {
    object = claim_object pvc;
    event_type = normal;
    reason = codes "VolumeAdopted";
    message =
        format (codes "Adopted existing dataset %q without modification") (quoted info.name ∷ []);
  }

  builds :
      (path : Text) (info : VolumeInfo)
      → node_of ext c pvc sc ≢ []
      → default_to (mount_path_of sc path) info.mount_path ≢ []
      → build_persistent_volume (build_options ext c pvc sc path info)
        ≡ ok (volume_of (build_options ext c pvc sc path info) pvc)
  unfolding build_options
  builds path info placed mounted =
      build_persistent_volume-volume_of (build_options ext c pvc sc path info) pvc refl placed
        mounted

  adoption :
      (info : VolumeInfo) (s : System W)
      → (events : List Event) × (announce_adoption ext c pvc info s
          ≡ (ok tt, record s { events = events }))
  unfolding announce_adoption emit_event pure
  adoption info s = elim (Bool-cases (is_adopting ext c pvc)) [
    | inr off ↦ (s.events, rw off refl)
    | inl on ↦ elim (Bool-cases c.has_recorder) [
      | inl recorded ↦ (s.events ++ adopted info ∷ [], rw on (rw recorded refl))
      | inr silent ↦ (s.events, rw on (rw silent refl))
    ]
  ]

  -- The event "ProvisioningSucceeded" about the claim
  abbrev pub succeeded : Pv → Event
  succeeded stored = record {
    object = claim_object pvc;
    event_type = normal;
    reason = codes "ProvisioningSucceeded";
    message = format (codes "Successfully provisioned volume %s") (str stored.name ∷ []);
  }

  -- No error, the world after the volume object was stored, and the event that says so last
  abbrev pub EndsProvisioned : Pv → W → Result (Unit {0}) × System W → Type 0
  EndsProvisioned stored last done =
      (done.0 ≡ ok tt)
      × ((done.1.world ≡ last)
          × ((earlier : List Event) × (done.1.events ≡ earlier ++ succeeded stored ∷ [])))

  create_volume-ok :
      (pv stored : Pv) (s : System W) (last : W)
      → c.client.create_pv pv s.world ≡ (ok stored, last)
      → create_volume ext c pvc pv s ≡ (ok stored, record s { world = last })
  unfolding create_volume lift ◌>>=◌
  create_volume-ok pv stored s last h = rw h refl

  lift-run :
      {A : Type 0} (m : Exec W A) (s : System W) (a : A) (w : W)
      → m s.world ≡ (ok a, w)
      → lift m s ≡ (ok a, record s { world = w })
  unfolding lift
  lift-run m s a w h = rw h refl

  provision-run :
      (s : System W) (can : CanProvision s.world)
      → c.has_recorder ≡ true
      → (events : List Event) × (provision ext c pvc sc s
          ≡ (ok tt, record s { world = can.last; events = events ++ succeeded can.stored ∷ [] }))
  unfolding provision check_volume_mode returned pure
  provision-run s can recorded =
      let pv = volume_of (build_options ext c pvc sc can.path can.info) pvc in
      let made = record s { world = can.made } in
      let (events, told) = adoption can.info made in
      (
        events,
        bind-run _ _ s s can.driver (rw can.registered refl)
            ∙ (bind-run _ _ s s tt (rw can.filesystem refl)
                ∙ (bind-run _ _ s s can.path (can.located s)
                    ∙ (bind-run _ _ s s can.quota
                          (or_reject-ok _ _ _ s s can.quota (rw can.limited refl))
                        ∙ (bind-run _ _ s s can.encryption (can.unlocked s)
                            ∙ (bind-run _ _ s made can.info (
                                  or_reject-ok _ _ _ s made can.info
                                    (lift-run _ s can.info can.made can.creates))
                                ∙ (bind-run _ _ made (record made { events = events }) tt told
                                    ∙ (bind-run _ _ (record made { events = events })
                                          (record made { events = events }) pv
                                          (or_reject-ok _ _ _ (record made { events = events })
                                            (record made { events = events }) pv
                                            (rw (builds can.path can.info can.placed can.mounted)
                                              refl))
                                        ∙ (bind-run _ _ (record made { events = events })
                                              (record made { events = events; world = can.last })
                                              can.stored
                                              (create_volume-ok pv can.stored
                                                (record made { events = events }) can.last
                                                can.stores)
                                            ∙ emit_event-on c (claim_object pvc) normal _ _
                                                (record made { events = events; world = can.last })
                                                recorded)))))))),
      )

  -- A claim that has no volume yet is provisioned: where its driver is registered, its settings can
  -- be resolved, the driver creates the volume and the API server stores the object that is built
  -- for it, the reconcile returns no error, the world is the one after that object was stored, and
  -- the last event says so. This holds if no other worker is busy with the claim, events are
  -- recorded, and the look-up of the volume changes nothing and gives no volume of the claim.
  pub reconcile_claim-EndsProvisioned :
      (s : System W) (found : Result Pv)
      → is_in_progress (claim_key pvc.namespace pvc.name) s.in_progress ≡ false
      → c.has_recorder ≡ true
      → pv_from c.client c.listers (pv_name_of pvc.uid) s.world ≡ (found, s.world)
      → found_for found pvc ≡ false
      → (can : CanProvision s.world)
      → EndsProvisioned can.stored can.last (reconcile_claim ext c pvc sc s)
  unfolding reconcile_claim exclusive claim_body get_pv lift ◌>>=◌
  reconcile_claim-EndsProvisioned s found free recorded looked none_yet can =
      let key = claim_key pvc.namespace pvc.name in
      let entered = record s { in_progress = insert key true s.in_progress } in
      let (events, run) = provision-run entered can recorded in
      rw (enter_free key s.in_progress free)
        (rw looked (rw none_yet (rw run (refl, (refl, (events, refl))))))
