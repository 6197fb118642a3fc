-- ===== src/Controller/Claim/Order.antt =====
-- `reconcileClaim` where the driver fails: the calls that follow.
use k8s_subvol_provisioner.Base.{
  Bool, true, false, if◌then◌else◌, Option, none, some, ◌≡◌, refl, ap, ◌∙◌, Bool-cases, inl, inr,
}
use k8s_subvol_provisioner.Base.Int.{ℤ}
use k8s_subvol_provisioner.Text.{Text, codes}
use k8s_subvol_provisioner.Dict.{Dict, lookup}
use k8s_subvol_provisioner.Errors.{Error, ok, err}
use k8s_subvol_provisioner.Exec.{Exec, pure, returned, attempt, ◌>>=◌, ◌>>◌, bind-ok}
use k8s_subvol_provisioner.Exec.Along.{Along, IsPreorder, bind_at}
use k8s_subvol_provisioner.Config.{EncryptionConfig}
use k8s_subvol_provisioner.Kube.{Pvc, StorageClass, External}
use k8s_subvol_provisioner.Driver.{Driver, CreateOptions}
use k8s_subvol_provisioner.Builder.{pv_name_of}
use k8s_subvol_provisioner.Controller.Guard.{enter}
use k8s_subvol_provisioner.Controller.Quota.{resolve_quota}
use k8s_subvol_provisioner.Controller.{Controller, System, lift, emit_event, entered, exclusive}
use k8s_subvol_provisioner.Controller.Lookup.{pv_from, get_pv}
use k8s_subvol_provisioner.Controller.Effects.{
  IsQuiet, OfWorlds, OfWorlds-IsQuiet, lift_worlds, given,
}
use k8s_subvol_provisioner.Controller.Claim.{
  as_is, reject, or_reject, found_driver, check_volume_mode, relative_path, encryption_of,
  create_options, provision, claim_body, reconcile_claim,
}
use k8s_subvol_provisioner.Controller.Claim.Settings.{claim_key, driver_name_of, found_for}
use k8s_subvol_provisioner.Controller.Claim.Effects.{
  Along-or_reject, Along-encryption_of, Along-check_volume_mode, Along-relative_path,
}

module _ {W : Type 0} (ext : External) (c : Controller W) (pvc : Pvc) (sc : StorageClass) where
  abbrev quota_of : Exec (System W) (Option ℤ)
  quota_of =
      or_reject ext c pvc (codes "QuotaResolutionFailed") (as_is ext c)
        (returned (resolve_quota ext pvc))

  -- The options of the one call of the driver: the steps of a provisioning up to that call
  abbrev pub options_for : Exec (System W) CreateOptions
  options_for = do
    check_volume_mode ext c pvc
    path ← relative_path ext c pvc sc
    quota ← quota_of
    encryption ← encryption_of ext c pvc sc
    pure (create_options ext c pvc sc path quota encryption)

  -- The state after the look-up of the volume
  abbrev pub looked_up : System W → System W
  looked_up s = (attempt (get_pv c (pv_name_of pvc.uid)) s).1

  options_for-ok :
      (s : System W) (u : Unit {0}) (path : Text) (quota : Option ℤ) (key : EncryptionConfig)
      → let m = check_volume_mode ext c pvc in
        let n = relative_path ext c pvc sc in
        (m s).0 ≡ ok u
        → (n (m s).1).0 ≡ ok path
        → (quota_of (n (m s).1).1).0 ≡ ok quota
        → (encryption_of ext c pvc sc (quota_of (n (m s).1).1).1).0 ≡ ok key
        → options_for s ≡ (
          ok (create_options ext c pvc sc path quota key),
          (encryption_of ext c pvc sc (quota_of (n (m s).1).1).1).1,
        )
  unfolding pure
  options_for-ok s u path quota key h₁ h₂ h₃ h₄ =
      bind-ok (check_volume_mode ext c pvc) _ s u h₁
      ∙ (bind-ok (relative_path ext c pvc sc) _ _ path h₂
          ∙ (bind-ok quota_of _ _ quota h₃ ∙ bind-ok (encryption_of ext c pvc sc) _ _ key h₄))

module _ {W : Type 0} {R : W → W → Type 0} (p : IsPreorder R) (ext : External) (c : Controller W)
    (asked : (namespace name : Text) → Along R (c.client.get_secret namespace name)) where
  quiet : IsQuiet (OfWorlds R)
  quiet = OfWorlds-IsQuiet p

  lifted : (namespace name : Text) → Along (OfWorlds R) (lift (c.client.get_secret namespace name))
  lifted namespace name = lift_worlds _ (asked namespace name)

  -- A call that fails in a world, and keeps the relation there
  abbrev pub FailsAt : {A : Type 0} → Exec W A → W → Type 0
  FailsAt m w = ((e : Error) × ((m w).0 ≡ err e)) × R w (m w).1

  -- The driver that the class names fails to create the volume, in the one call that is made of it:
  -- with the options for the claim, in the world after the steps that find them.
  abbrev pub CannotCreate : Pvc → StorageClass → System W → Type 0
  CannotCreate pvc sc s =
      (d : Driver W) (opts : CreateOptions)
      → lookup (driver_name_of sc) c.drivers ≡ some d
      → (options_for ext c pvc sc s).0 ≡ ok opts
      → FailsAt (d.create opts) (options_for ext c pvc sc s).1.world

  -- A call that fails is followed by its event and the return alone.
  rejected_after :
      {A B : Type 0} (pvc : Pvc) (reason : Text) (wrap : Error → Error) (m : Exec W A)
      (f : A → Exec (System W) B) (s : System W)
      → FailsAt m s.world
      → R s.world ((or_reject ext c pvc reason wrap (lift m) >>= f) s).1.world
  unfolding ◌>>=◌ lift reject emit_event
  rejected_after pvc reason wrap m f s ((e, same), kept) =
      rw same (elim (Bool-cases c.has_recorder) [ inl on ↦ rw on kept | inr off ↦ rw off kept ])

  after_driver :
      (pvc : Pvc) (name : Text) (o : Option (Driver W)) (f : Driver W → Exec (System W) (Unit {0}))
      (s : System W)
      → ((d : Driver W) → o ≡ some d → R s.world (f d s).1.world)
      → R s.world ((found_driver ext c pvc name o >>= f) s).1.world
  unfolding ◌>>=◌ reject emit_event
  after_driver pvc name none f s h = elim (Bool-cases c.has_recorder) [
    | inl on ↦ rw on (p.reflexive s.world)
    | inr off ↦ rw off (p.reflexive s.world)
  ]
  after_driver pvc name (some d) f s h = h d refl

  module _ (pvc : Pvc) (sc : StorageClass) where
    called :
        (d : Driver W) (opts : CreateOptions) (s t : System W)
        → CannotCreate pvc sc s
        → lookup (driver_name_of sc) c.drivers ≡ some d
        → options_for ext c pvc sc s ≡ (ok opts, t)
        → FailsAt (d.create opts) t.world
    called d opts s t fails found same =
        rw (← ap (λ r. r.1) same) (fails d opts found (ap (λ r. r.0) same))

    provision_at :
        (s : System W) → CannotCreate pvc sc s → R s.world (provision ext c pvc sc s).1.world
    unfolding provision
    provision_at s fails = after_driver pvc (driver_name_of sc) _ _ s λ d found.
        bind_at quiet.preorder _ _ s ((Along-check_volume_mode quiet ext c lifted pvc).at s) λ u h₁.
          bind_at quiet.preorder _ _ _ ((Along-relative_path quiet ext c lifted pvc sc).at _)
            λ path h₂.
              bind_at quiet.preorder _ _ _
                ((Along-or_reject quiet ext c lifted pvc _ _ _ (given quiet _)).at _)
                λ quota h₃.
                  bind_at quiet.preorder _ _ _
                    ((Along-encryption_of quiet ext c lifted pvc sc).at _)
                    λ key h₄. rejected_after pvc _ _ (d.create _) _ _ (
                      called d _ s _ fails found
                        (options_for-ok ext c pvc sc s u path quota key h₁ h₂ h₃ h₄))

    claim_body_at :
        (s : System W)
        → ((name : Text) → Along R (pv_from c.client c.listers name))
        → CannotCreate pvc sc (looked_up ext c pvc sc s)
        → R s.world (claim_body ext c pvc sc s).1.world
    unfolding claim_body get_pv pure attempt
    claim_body_at s looked fails =
        bind_at quiet.preorder (attempt (get_pv c (pv_name_of pvc.uid))) _ s
          ((lift_worlds _ (looked _)).at s) λ r _. branch (found_for r pvc)
      where
        branch :
            (b : Bool)
            → R
                (looked_up ext c pvc sc s).world
                ((if b then pure tt else provision ext c pvc sc) (looked_up ext c pvc sc s)).1.world
        branch true = p.reflexive _
        branch false = provision_at _ fails

  -- No volume object is created for data that does not exist: if the driver that the class names
  -- fails in the one call that would create the volume, then whatever reflexive and transitive
  -- relation this call, the look-up of volumes and the reading of secrets keep, the whole reconcile of
  -- the claim keeps, so no other call of the API server is made.
  pub reconcile_claim-failed :
      (pvc : Pvc) (sc : StorageClass) (s : System W)
      → ((name : Text) → Along R (pv_from c.client c.listers name))
      → ((m : Dict Bool)
          → enter (claim_key pvc.namespace pvc.name) s.in_progress ≡ some m
          → CannotCreate pvc sc (looked_up ext c pvc sc (record s { in_progress = m })))
      → R s.world (reconcile_claim ext c pvc sc s).1.world
  unfolding reconcile_claim exclusive
  reconcile_claim-failed pvc sc s looked fails =
      go (enter (claim_key pvc.namespace pvc.name) s.in_progress) fails
    where
      go :
          (o : Option (Dict Bool))
          → ((m : Dict Bool)
              → o ≡ some m
              → CannotCreate pvc sc (looked_up ext c pvc sc (record s { in_progress = m })))
          → R s.world
              (entered (claim_key pvc.namespace pvc.name) (claim_body ext c pvc sc) s o).1.world
      go none fails = p.reflexive s.world
      go (some m) fails = claim_body_at pvc sc (record s { in_progress = m }) looked (fails m refl)
