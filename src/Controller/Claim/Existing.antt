-- ===== src/Controller/Claim/Existing.antt =====
-- `reconcileClaim` for a claim that has its volume.
use k8s_subvol_provisioner.Base.{Bool, true, Option, none, some, ◌≡◌, refl, arith}
use k8s_subvol_provisioner.Text.Equality.{eq_text_refl}
use k8s_subvol_provisioner.Dict.{Dict}
use k8s_subvol_provisioner.Errors.{ok}
use k8s_subvol_provisioner.Exec.{◌>>=◌}
use k8s_subvol_provisioner.Kube.{Pvc, Pv, StorageClass, External}
use k8s_subvol_provisioner.Builder.{BuildPvOptions, build_persistent_volume, pv_name_of}
use k8s_subvol_provisioner.Builder.Laws.{build_persistent_volume_cases}
use k8s_subvol_provisioner.Controller.{Controller, System, exclusive, lift, entered}
use k8s_subvol_provisioner.Controller.Guard.{enter}
use k8s_subvol_provisioner.Controller.Lookup.{get_pv, pv_from}
use k8s_subvol_provisioner.Controller.Claim.{claim_body, reconcile_claim}
use k8s_subvol_provisioner.Controller.Claim.Settings.{belongs_to, found_for, claim_key}

-- A volume that is built has the name that its claim looks up, and belongs to that claim.
build-belongs_to :
    (opts : BuildPvOptions) (made pvc : Pvc) {pv : Pv}
    → opts.pvc ≡ some made
    → made.uid ≡ pvc.uid
    → build_persistent_volume opts ≡ ok pv
    → (pv.name ≡ pv_name_of pvc.uid) × (belongs_to pv pvc ≡ true)
unfolding belongs_to
build-belongs_to opts made pvc given uid e =
    let (of, given', same) = build_persistent_volume_cases opts e in
    let uid' : of.uid ≡ pvc.uid = ground (arith) in
    rw (← same) (rw uid' (refl, eq_text_refl pvc.uid))

module _ {W : Type 0} (ext : External) (c : Controller W) where
  claim_body-found :
      (pvc : Pvc) (sc : StorageClass) (pv : Pv) (s : System W)
      → pv_from c.client c.listers (pv_name_of pvc.uid) s.world ≡ (ok pv, s.world)
      → belongs_to pv pvc ≡ true
      → claim_body ext c pvc sc s ≡ (ok tt, s)
  unfolding claim_body get_pv lift ◌>>=◌ found_for
  claim_body-found pvc sc pv s found own = rw found (rw own refl)

  -- Once the volume that was built for a claim is stored, another reconcile of the claim does
  -- nothing, whatever has changed of the claim or its class but the UID: it returns no error, records
  -- no event and leaves the world as it is. This holds if the look-up of the volume gives the volume
  -- that was built and changes nothing.
  pub reconcile_claim-build :
      (opts : BuildPvOptions) (made pvc : Pvc) (sc : StorageClass) (pv : Pv) (s : System W)
      → opts.pvc ≡ some made
      → made.uid ≡ pvc.uid
      → build_persistent_volume opts ≡ ok pv
      → pv_from c.client c.listers pv.name s.world ≡ (ok pv, s.world)
      → let (r, t) = reconcile_claim ext c pvc sc s in
        (r ≡ ok tt) × ((t.events ≡ s.events) × (t.world ≡ s.world))
  unfolding reconcile_claim exclusive
  reconcile_claim-build opts made pvc sc pv s given uid e found =
      let (named, own) = build-belongs_to opts made pvc given uid e in
      go (enter (claim_key pvc.namespace pvc.name) s.in_progress) (rw (← named) found) own
    where
      go :
          (o : Option (Dict Bool))
          → pv_from c.client c.listers (pv_name_of pvc.uid) s.world ≡ (ok pv, s.world)
          → belongs_to pv pvc ≡ true
          → let (r, t) = entered (claim_key pvc.namespace pvc.name) (claim_body ext c pvc sc) s o in
            (r ≡ ok tt) × ((t.events ≡ s.events) × (t.world ≡ s.world))
      go none found' own = (refl, (refl, refl))
      go (some m) found' own =
          rw (claim_body-found pvc sc pv (record s { in_progress = m }) found' own)
            (refl, (refl, refl))
