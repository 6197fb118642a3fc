-- ===== src/Controller/Claim/Effects.antt =====
-- The effects of `reconcileClaim`.
use k8s_subvol_provisioner.Base.{Option, none, some}
use k8s_subvol_provisioner.Text.{Text}
use k8s_subvol_provisioner.Errors.{Error, Message, Result, ok, err}
use k8s_subvol_provisioner.Exec.{Exec, attempt}
use k8s_subvol_provisioner.Exec.Along.{Along, Along-attempt, Along-if}
use k8s_subvol_provisioner.Kube.{Pvc, Pv, StorageClass, External}
use k8s_subvol_provisioner.Config.{EncryptionConfig}
use k8s_subvol_provisioner.Driver.{Driver, VolumeInfo}
use k8s_subvol_provisioner.Controller.{Controller, System, lift}
use k8s_subvol_provisioner.Controller.Lookup.{get_pv}
use k8s_subvol_provisioner.Controller.Effects.{
  IsQuiet, IsAdmitted, Along-lift, Along-emit_event, then_do, give, fail, given,
}
use k8s_subvol_provisioner.Controller.Secrets.Effects.{Along-load_secret_key}
use k8s_subvol_provisioner.Controller.Claim.{
  reject, accept, or_reject, found_driver, check_volume_mode, relative_path, load_secret,
  location_from_secret, key_from_secret, encryption_of, announce_adoption, reused, created,
  create_volume, provision, claim_body,
}

module _ {W : Type 0} {R : System W → System W → Type 0} (q : IsQuiet R) (ext : External)
    (c : Controller W)
    (asked : (namespace name : Text) → Along R (lift (c.client.get_secret namespace name))) where
  pub Along-reject :
      {A : Type 0} (pvc : Pvc) (reason : Text) (message : Message) (e : Error)
      → Along R (reject ext c {A = A} pvc reason message e)
  unfolding reject
  Along-reject pvc reason message e = then_do q _ _ (Along-emit_event q c _ _ _ _) (λ _. fail q e)

  Along-accept :
      {A : Type 0} (pvc : Pvc) (reason : Text) (wrap : Error → Error) (r : Result A)
      → Along R (accept ext c pvc reason wrap r)
  Along-accept pvc reason wrap (ok a) = give q a
  Along-accept pvc reason wrap (err e) = Along-reject pvc reason _ (wrap e)

  pub Along-or_reject :
      {A : Type 0} (pvc : Pvc) (reason : Text) (wrap : Error → Error) (m : Exec (System W) A)
      → Along R m
      → Along R (or_reject ext c pvc reason wrap m)
  Along-or_reject pvc reason wrap m h =
      then_do q (attempt m) _ (Along-attempt m h) (Along-accept pvc reason wrap)

  Along-load_secret : (pvc : Pvc) (ref : Text) → Along R (load_secret ext c pvc ref)
  unfolding load_secret
  Along-load_secret pvc ref =
      Along-or_reject pvc _ _ _ (Along-load_secret_key q c asked pvc.namespace ref)

  Along-location_from_secret :
      (pvc : Pvc) (o : Option Text) (e : EncryptionConfig)
      → Along R (location_from_secret ext c pvc o e)
  Along-location_from_secret pvc none e = give q e
  Along-location_from_secret pvc (some ref) e =
      then_do q _ _ (Along-load_secret pvc ref) (λ value. give q _)

  Along-key_from_secret :
      (pvc : Pvc) (o : Option Text) (e : EncryptionConfig) → Along R (key_from_secret ext c pvc o e)
  Along-key_from_secret pvc none e = give q e
  Along-key_from_secret pvc (some ref) e =
      then_do q _ _ (Along-load_secret pvc ref) (λ value. give q _)

  pub Along-encryption_of : (pvc : Pvc) (sc : StorageClass) → Along R (encryption_of ext c pvc sc)
  unfolding encryption_of
  Along-encryption_of pvc sc =
      then_do q _ _ (Along-location_from_secret pvc _ _) (λ e. Along-key_from_secret pvc _ _)

  pub Along-found_driver :
      (pvc : Pvc) (name : Text) (o : Option (Driver W)) → Along R (found_driver ext c pvc name o)
  Along-found_driver pvc name (some d) = give q d
  Along-found_driver pvc name none = Along-reject pvc _ _ _

  pub Along-check_volume_mode : (pvc : Pvc) → Along R (check_volume_mode ext c pvc)
  unfolding check_volume_mode
  Along-check_volume_mode pvc = Along-if _ _ _ (Along-reject pvc _ _ _) (give q tt)

  pub Along-relative_path : (pvc : Pvc) (sc : StorageClass) → Along R (relative_path ext c pvc sc)
  unfolding relative_path
  Along-relative_path pvc sc = Along-if _ _ _ (Along-or_reject pvc _ _ _ (given q _)) (give q _)

module _ {W : Type 0} {R : System W → System W → Type 0} (k : IsAdmitted R) (ext : External)
    (c : Controller W) where
  Along-get_pv : (name : Text) → Along R (get_pv c name)
  unfolding get_pv
  Along-get_pv name = Along-lift k _

  asked : (namespace name : Text) → Along R (lift (c.client.get_secret namespace name))
  asked namespace name = Along-lift k _

  Along-announce_adoption :
      (pvc : Pvc) (info : VolumeInfo) → Along R (announce_adoption ext c pvc info)
  unfolding announce_adoption
  Along-announce_adoption pvc info =
      Along-if _ _ _ (Along-emit_event k.quiet c _ _ _ _) (give k.quiet tt)

  Along-reused : (pvc : Pvc) (e : Error) (r : Result Pv) → Along R (reused ext c pvc e r)
  Along-reused pvc e (err e') = Along-reject k.quiet ext c asked pvc _ _ _
  Along-reused pvc e (ok pv) =
      Along-if _ _ _ (give k.quiet pv) (Along-reject k.quiet ext c asked pvc _ _ _)

  Along-created : (pvc : Pvc) (pv : Pv) (r : Result Pv) → Along R (created ext c pvc pv r)
  Along-created pvc pv (ok new) = give k.quiet new
  Along-created pvc pv (err e) =
      Along-if _ _ _
        (then_do k.quiet _ _ (Along-attempt _ (Along-get_pv pv.name)) (Along-reused pvc e))
        (Along-reject k.quiet ext c asked pvc _ _ _)

  Along-create_volume : (pvc : Pvc) (pv : Pv) → Along R (create_volume ext c pvc pv)
  unfolding create_volume
  Along-create_volume pvc pv =
      then_do k.quiet _ _ (Along-attempt _ (Along-lift k _)) (Along-created pvc pv)

  Along-provision : (pvc : Pvc) (sc : StorageClass) → Along R (provision ext c pvc sc)
  unfolding provision
  Along-provision pvc sc = then_do k.quiet _ _ (Along-found_driver k.quiet ext c asked pvc _ _) λ d.
      then_do k.quiet _ _ (Along-check_volume_mode k.quiet ext c asked pvc) λ _.
        then_do k.quiet _ _ (Along-relative_path k.quiet ext c asked pvc sc) λ rel_path.
          then_do k.quiet _ _ (Along-or_reject k.quiet ext c asked pvc _ _ _ (given k.quiet _))
            λ quota. then_do k.quiet _ _ (Along-encryption_of k.quiet ext c asked pvc sc) λ e.
              then_do k.quiet _ _ (Along-or_reject k.quiet ext c asked pvc _ _ _ (Along-lift k _))
                λ info. then_do k.quiet _ _ (Along-announce_adoption pvc info) λ _.
                  then_do k.quiet _ _
                    (Along-or_reject k.quiet ext c asked pvc _ _ _ (given k.quiet _))
                    λ pv.
                      then_do k.quiet _ _ (Along-create_volume pvc pv)
                        λ new. Along-emit_event k.quiet c _ _ _ _

  -- The body of `reconcileClaim` keeps every admitted relation.
  pub Along-claim_body : (pvc : Pvc) (sc : StorageClass) → Along R (claim_body ext c pvc sc)
  unfolding claim_body
  Along-claim_body pvc sc =
      then_do k.quiet _ _ (Along-attempt _ (Along-get_pv _))
        λ r. Along-if _ _ _ (give k.quiet tt) (Along-provision pvc sc)
