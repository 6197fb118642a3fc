-- ===== src/Controller/State/Convergence.antt =====
-- `reconcileVolumeState` of a zfs volume, once its changes were applied.
use k8s_subvol_provisioner.Base.{
  Bool, true, false, not, [], ◌∷◌, ◌++◌, Option, none, some, ◌≡◌, refl, sym, ◌∙◌, All,
}
use mathlib.Core.Path.{subst, ap}
use k8s_subvol_provisioner.Text.{
  Text, codes, eq_text, is_empty, trim_space, trim, trim_left, trim_right,
}
use k8s_subvol_provisioner.Dict.{lookup, get, erase, insert}
use k8s_subvol_provisioner.Dict.Laws.{NodupKeys, overlay-NodupKeys, lookup-erase}
use k8s_subvol_provisioner.Dict.Order.{Permᴰ-All}
use k8s_subvol_provisioner.Errors.{ok}
use k8s_subvol_provisioner.Exec.{pure}
use k8s_subvol_provisioner.Config.{parse_ownership, parse_file_mode}
use k8s_subvol_provisioner.Config.Names.{
  ann_subvol_driver, ann_dataset_name, ann_apply, ann_owner, ann_mode, ann_quota, ann_properties,
}
use k8s_subvol_provisioner.Kube.{Pvc, Pv, StorageClass, External}
use k8s_subvol_provisioner.Zfs.{Zfs}
use k8s_subvol_provisioner.Zfs.Quota.{reconcile_quota}
use k8s_subvol_provisioner.Zfs.Quota.Convergence.{
  HasQuota, wanted_quota, reconcile_quota_again, reconcile_quota_reached,
}
use k8s_subvol_provisioner.Zfs.Properties.{managed_only, reconcile_properties}
use k8s_subvol_provisioner.Zfs.Properties.Laws.{IsManagedOnly, reconcile_properties-managed}
use k8s_subvol_provisioner.Zfs.Properties.Loops.{InSomeOrder}
use k8s_subvol_provisioner.Zfs.Properties.Inherit.{RefusesInherit}
use k8s_subvol_provisioner.Zfs.Properties.Convergence.{
  Shows, SetsAsWritten, IsReached, reconcile_properties_again, reconcile_properties_settled,
}
use k8s_subvol_provisioner.Zfs.Volumes.{driver, reconciler, reconcile_owner_mode}
use k8s_subvol_provisioner.Controller.{Controller, System}
use k8s_subvol_provisioner.Controller.Quota.{resolve_quota}
use k8s_subvol_provisioner.Controller.Claim.Settings.{or_nil_pointer}
use k8s_subvol_provisioner.Controller.State.{
  is_true, applies, desired_properties, owner_mode_options, class_of, state_key,
  reconcile_volume_state,
}
use k8s_subvol_provisioner.Controller.State.Success.{
  CanUpdate, summary, reconcile_volume_state-run, reconcile_volume_state_updated,
}
use k8s_subvol_provisioner.Controller.Guard.{is_in_progress, leave, is_in_progress-leave}
use k8s_subvol_provisioner.Text.Equality.{eq_text_refl}

desired_properties-NodupKeys :
    (pvc : Pvc) (sc : Option StorageClass) → NodupKeys (desired_properties pvc sc)
unfolding desired_properties
desired_properties-NodupKeys pvc sc = overlay-NodupKeys _ _ (overlay-NodupKeys [] _ tt)

-- The claim without the annotation `apply`
abbrev pub consumed : Pvc → Pvc
consumed pvc = record pvc { annotations = erase ann_apply pvc.annotations }

lookup-consumed :
    (pvc : Pvc) (k : Text)
    → eq_text ann_apply k ≡ false
    → lookup k (consumed pvc).annotations ≡ lookup k pvc.annotations
lookup-consumed pvc k h = lookup-erase ann_apply k pvc.annotations ∙ rw h refl

consumed-desired_properties :
    (pvc : Pvc) (sc : Option StorageClass)
    → desired_properties (consumed pvc) sc ≡ desired_properties pvc sc
unfolding desired_properties get
consumed-desired_properties pvc sc =
    rw (lookup-consumed pvc ann_properties (unfold eq_text codes in refl)) refl

consumed-resolve_quota :
    (ext : External) (pvc : Pvc) → resolve_quota ext (consumed pvc) ≡ resolve_quota ext pvc
unfolding resolve_quota
consumed-resolve_quota ext pvc =
    rw (lookup-consumed pvc ann_quota (unfold eq_text codes in refl)) refl

consumed-is_true : (pvc : Pvc) → is_true (consumed pvc).annotations ann_apply ≡ false
unfolding is_true get eq_text codes
consumed-is_true pvc = rw (lookup-erase ann_apply ann_apply pvc.annotations) refl

-- A claim that declares no owner and no mode
pub record IsUndeclared (pvc : Pvc) : Type 0 where
  pub owner : get pvc.annotations ann_owner ≡ []
  pub mode : get pvc.annotations ann_mode ≡ []

consumed-IsUndeclared : (pvc : Pvc) → IsUndeclared pvc → IsUndeclared (consumed pvc)
unfolding get
consumed-IsUndeclared pvc u = record {
  owner = rw (lookup-consumed pvc ann_owner (unfold eq_text codes in refl)) u.owner;
  mode = rw (lookup-consumed pvc ann_mode (unfold eq_text codes in refl)) u.mode;
}

no_owner : or_nil_pointer (parse_ownership []) ≡ none
unfolding parse_ownership trim_space trim trim_left trim_right is_empty
no_owner = refl

no_mode : or_nil_pointer (parse_file_mode []) ≡ none
unfolding parse_file_mode trim_space trim trim_left trim_right is_empty
no_mode = refl

module _ {W : Type 0} (ext : External) (c : Controller W) (d : Zfs W) (pv : Pv) where
  unowned :
      (pvc : Pvc) (dry_run : Bool) (w : W)
      → IsUndeclared pvc
      → reconcile_owner_mode d (owner_mode_options ext c pvc pv dry_run) w ≡ (ok [], w)
  unfolding reconcile_owner_mode owner_mode_options pure
  unowned pvc dry_run w u = rw (u.owner) (rw (u.mode) (rw no_owner (rw no_mode refl)))

  -- What the world shows of the dataset, and what a reconcile and the call after it keep
  pub record IsOnZfs (pvc : Pvc) (w : W) (can : CanUpdate ext c (reconciler d) pvc pv w)
      : Type 0 where
    pub shows : Shows d (get pv.annotations ann_dataset_name)
    pub has : HasQuota d (get pv.annotations ann_dataset_name) can.quota
    pub order : InSomeOrder d
    pub sets :
        All
          (SetsAsWritten d (get pv.annotations ann_dataset_name) shows)
          (managed_only (desired_properties pvc can.sc))
    pub refuses : RefusesInherit d (get pv.annotations ann_dataset_name)
    -- Setting or inheriting a managed property keeps the quota.
    pub keeps :
        IsManagedOnly d (λ v v'. has.quota v' ≡ has.quota v) (get pv.annotations ann_dataset_name)
    -- Removing the annotation changes neither properties nor quota.
    pub same_text : shows.text can.last ≡ shows.text can.set
    pub same_quota : has.quota can.last ≡ has.quota can.set

  module _ (pvc : Pvc) (w : W) (can : CanUpdate ext c (reconciler d) pvc pv w)
      (on : IsOnZfs pvc w can) (applied : applies pvc can.sc ≡ true)
      (undeclared : IsUndeclared pvc) where
    abbrev dataset : Text
    dataset = get pv.annotations ann_dataset_name

    limits : reconcile_quota d dataset can.quota false w ≡ (ok can.quota_changes, can.limited)
    limits =
        subst
          (λ b. reconcile_quota d dataset can.quota (not b) w ≡ (ok can.quota_changes, can.limited))
          applied can.limits

    sets :
        reconcile_properties d dataset (desired_properties pvc can.sc) false can.owned
        ≡ (ok can.property_changes, can.set)
    sets =
        subst
          (λ b.
            reconcile_properties d dataset (desired_properties pvc can.sc) (not b) can.owned
            ≡ (ok can.property_changes, can.set))
          applied can.sets

    same_owned : can.owned ≡ can.limited
    same_owned =
        ap (λ p. p.1) (sym can.owns ∙ unowned pvc (not (applies pvc can.sc)) can.limited undeclared)

    quota_limited : on.has.quota can.limited ≡ wanted_quota can.quota
    quota_limited =
        subst (λ v. on.has.quota v ≡ wanted_quota can.quota) (ap (λ p. p.1) limits)
          (reconcile_quota_again d dataset can.quota on.has false w can.quota_changes
            (ap (λ p. p.0) limits)).0

    quota_kept : on.has.quota can.set ≡ on.has.quota can.owned
    quota_kept =
        subst (λ v. on.has.quota v ≡ on.has.quota can.owned) (ap (λ p. p.1) sets)
          (reconcile_properties-managed d dataset (desired_properties pvc can.sc) false can.owned
            (λ P m. Permᴰ-All P (on.order.texts m)) on.keeps)

    quota_reached : on.has.quota can.last ≡ wanted_quota can.quota
    quota_reached = on.same_quota ∙ (quota_kept ∙ (ap on.has.quota same_owned ∙ quota_limited))

    set-IsReached : IsReached d dataset on.shows (desired_properties pvc can.sc) can.set
    set-IsReached =
        subst (IsReached d dataset on.shows (desired_properties pvc can.sc)) (ap (λ p. p.1) sets)
          (reconcile_properties_again d dataset on.shows (desired_properties pvc can.sc) false
            can.owned can.property_changes on.order (desired_properties-NodupKeys pvc can.sc)
            on.sets on.refuses (ap (λ p. p.0) sets)).0

    last-IsReached : IsReached d dataset on.shows (desired_properties pvc can.sc) can.last
    last-IsReached = record {
      given = rw on.same_text set-IsReached.given;
      cleared = rw on.same_text set-IsReached.cleared;
    }

    again : CanUpdate ext c (reconciler d) (consumed pvc) pv can.last
    unfolding class_of pure
    again = record {
      sc = can.sc;
      quota = can.quota;
      quota_changes = [];
      owner_changes = [];
      property_changes = [];
      limited = can.last;
      owned = can.last;
      set = can.last;
      last = can.last;
      classed = can.classed;
      resolved = consumed-resolve_quota ext pvc ∙ can.resolved;
      limits = reconcile_quota_reached d dataset can.quota on.has _ can.last quota_reached;
      owns = unowned (consumed pvc) _ can.last (consumed-IsUndeclared pvc undeclared);
      sets = rw (consumed-desired_properties pvc can.sc) (
          reconcile_properties_settled d dataset on.shows (desired_properties pvc can.sc) _ can.last
            on.order last-IsReached);
      cleans = rw (consumed-is_true pvc) refl;
    }

  -- Once a reconcile of a bound claim has applied its changes, the next one, of the claim without the
  -- annotation `apply`, returns no error, changes nothing and says that the volume is up to date. This
  -- holds for a volume of the zfs driver and a claim that declares no owner and no mode, under the
  -- conditions of the first reconcile, if the properties and the quota are shown and set as the two
  -- modules on convergence ask, setting or inheriting a managed property keeps the quota, and removing
  -- the annotation changes neither.
  pub reconcile_volume_state_converges :
      (pvc : Pvc) (s : System W) (can : CanUpdate ext c (reconciler d) pvc pv s.world)
      → IsOnZfs pvc s.world can
      → applies pvc can.sc ≡ true
      → IsUndeclared pvc
      → c.has_recorder ≡ true
      → is_in_progress (state_key pvc.namespace pvc.name) s.in_progress ≡ false
      → lookup (get pv.annotations ann_subvol_driver) c.drivers ≡ some (driver d)
      → is_empty (get pv.annotations ann_dataset_name) ≡ false
      → let once = (reconcile_volume_state ext c pvc pv s).1 in
        let twice = reconcile_volume_state ext c (consumed pvc) pv once in
        (twice.0 ≡ ok tt)
        × ((twice.1.world ≡ once.world)
            × (twice.1.events ≡ once.events ++ summary (consumed pvc) true [] ∷ []))
  unfolding again
  reconcile_volume_state_converges pvc s can on applied undeclared recorded free registered named =
      let key = state_key pvc.namespace pvc.name in
      let table = insert key true s.in_progress in
      rw
        (reconcile_volume_state-run ext c (reconciler d) pvc pv s (driver d) can recorded free
          registered refl named)
        (let once : System W = record {
          world = can.last;
          events =
              s.events
              ++ summary pvc (applies pvc can.sc)
                  (can.quota_changes ++ (can.owner_changes ++ can.property_changes))
                ∷ [];
          in_progress = leave key table;
        } in
          let (fine, (world, events)) =
            reconcile_volume_state_updated ext c (reconciler d) (consumed pvc) pv once (driver d)
              (again pvc s.world can on applied undeclared) recorded
              (is_in_progress-leave key key table ∙ rw (eq_text_refl key) refl) registered refl
              named in
          (fine, (world, events)))
