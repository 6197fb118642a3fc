-- ===== src/Zfs/Volumes/Laws.antt =====
-- zfs.go: the commands of a creation and of a deletion, and the dry runs of its reconciler.
use k8s_subvol_provisioner.Base.{
  Bool, true, false, if◌then◌else◌, ◌||◌, [], ◌≡◌, refl, ◌∙◌, Bool-cases, inl, inr,
}
use k8s_subvol_provisioner.Text.{Text, is_empty}
use k8s_subvol_provisioner.Errors.{Result, ok}
use k8s_subvol_provisioner.Exec.{pure, ◌>>=◌, ensures-bind}
use k8s_subvol_provisioner.Exec.Along.{
  Along, Same, Same-preorder, IsPreorder, Along-pure, Along-raise, Along-attempt, Along-bind,
  Along-wrapping, Along-if, bind_at,
}
use k8s_subvol_provisioner.Driver.{effective_path, CreateOptions, DeleteOptions, OwnerModeOptions}
use k8s_subvol_provisioner.Driver.Laws.{Reads, IsDryRunSafe}
use k8s_subvol_provisioner.OwnerMode.{is_undeclared}
use k8s_subvol_provisioner.OwnerMode.DryRun.{IsObserving, reconcile_owner_mode_at_path_dry}
use k8s_subvol_provisioner.Zfs.{Zfs, run}
use k8s_subvol_provisioner.Zfs.Quota.{quota_args}
use k8s_subvol_provisioner.Zfs.Quota.Laws.{reconcile_quota_dry}
use k8s_subvol_provisioner.Zfs.Properties.{props_args}
use k8s_subvol_provisioner.Zfs.Properties.Laws.{reconcile_properties_dry}
use k8s_subvol_provisioner.Zfs.Volumes.{
  list_args, mountpoint_args, rename_args, exists, check_exists, find_mount_path, adopt, create,
  quarantine, quarantine_name, remove, delete, reconciler, reconcile_owner_mode, is_unmounted,
}

module _ {W : Type 0} (d : Zfs W) where
  owner_mode_dry :
      (opts : OwnerModeOptions)
      → IsObserving d.host
      → opts.dry_run ≡ true
      → Along Same (reconcile_owner_mode d opts)
  unfolding reconcile_owner_mode
  owner_mode_dry opts o dry =
      Along-if (is_undeclared opts.owner opts.mode) _ _ (Along-pure Same-preorder []) (
        Along-if (is_empty opts.mount_path || is_unmounted opts.mount_path) _ _
          (Along-pure Same-preorder [])
          (record {
            at =
                reconcile_owner_mode_at_path_dry d.host
                  (effective_path opts.host_prefix opts.mount_path) opts o dry;
          }))

  -- The reconciler of the zfs driver keeps the contract of dry runs: none of its three methods
  -- changes anything when asked to plan. This holds if looking at files and `zfs get` change nothing.
  pub reconciler-IsDryRunSafe :
      IsObserving d.host
      → ((name : Text) → Reads (run d [] (quota_args d name)))
      → ((name : Text) → Reads (run d [] (props_args d name [])))
      → IsDryRunSafe (reconciler d)
  reconciler-IsDryRunSafe o quota props = record {
    quota = λ name n. reconcile_quota_dry d name n (quota name);
    owner_mode = λ opts dry. (owner_mode_dry opts o dry).at;
    properties = λ name wanted. reconcile_properties_dry d name wanted (props name);
  }

  module _ {R : W → W → Type 0} (p : IsPreorder R) where
    Along-exists :
        (name : Text) → Along R (run d [] (list_args name)) → Along R (check_exists d name)
    unfolding exists
    Along-exists name h =
        Along-wrapping p _ _ (Along-bind p _ _ (Along-attempt _ h) (λ _. Along-pure p _))

    Along-find_mount_path :
        (opts : CreateOptions)
        → Along R (run d [] (mountpoint_args opts.name))
        → Along R (find_mount_path d opts)
    unfolding find_mount_path
    Along-find_mount_path opts h =
        Along-if _ _ _ (Along-bind p _ _ (Along-attempt _ h) (λ _. Along-pure p _)) (Along-pure p _)

    Along-adopt :
        (opts : CreateOptions)
        → Along R (run d [] (mountpoint_args opts.name))
        → Along R (adopt d opts)
    Along-adopt opts h =
        Along-if _ _ _ (Along-bind p _ _ (Along-find_mount_path opts h) (λ _. Along-pure p _))
          (Along-raise p _)

    -- Where the one renaming that is tried succeeds, nothing else is done.
    quarantine_at :
        (name : Text) (w : W) {out : Text}
        → R w (run d [] (rename_args name (quarantine_name name (d.host.now w))) w).1
        → (run d [] (rename_args name (quarantine_name name (d.host.now w))) w).0 ≡ ok out
        → R w (quarantine d name w).1
    unfolding ◌>>=◌
    quarantine_at name w kept done = rw done kept

  exists_at :
      (name out : Text) (w : W)
      → (run d [] (list_args name) w).0 ≡ ok out
      → (check_exists d name w).0 ≡ ok true
  unfolding exists ◌>>=◌
  exists_at name out w h = rw h refl

  -- The creation of a volume whose dataset exists changes nothing, whether it adopts the dataset or
  -- refuses it. This holds if `zfs list` and `zfs get` change nothing.
  pub create-existing :
      (opts : CreateOptions) (w : W) (out : Text)
      → Reads (run d [] (list_args opts.name))
      → Reads (run d [] (mountpoint_args opts.name))
      → (run d [] (list_args opts.name) w).0 ≡ ok out
      → (create d opts w).1 ≡ w
  unfolding create
  create-existing opts w out list get there = elim (Bool-cases (is_empty opts.name)) [
    | inl e ↦ rw e ((Along-raise Same-preorder _).at w)
    | inr e ↦ rw e (
        ensures-bind (λ done. done.1 ≡ w) (check_exists d opts.name) _ w true
          (exists_at opts.name out w there)
          ((Along-adopt Same-preorder opts (record { at = get })).at _
            ∙ (Along-exists Same-preorder opts.name (record { at = list })).at w))
  ]

  -- The world after `zfs list`
  abbrev pub listed : Text → W → W
  listed name w = (run d [] (list_args name) w).1

  -- The one `zfs rename` of a deletion that asks for a snapshot
  abbrev pub put_aside : Text → W → Result Text × W
  put_aside name w =
      run d [] (rename_args name (quarantine_name name (d.host.now (listed name w))))
        (listed name w)

  exists-listed : (name : Text) (w : W) → (check_exists d name w).1 ≡ listed name w
  unfolding exists ◌>>=◌
  exists-listed name w = refl

  remove_at :
      {R : W → W → Type 0} (p : IsPreorder R) (opts : DeleteOptions) (v w : W) {out : Text}
      → opts.snapshot_before_delete ≡ true
      → v ≡ listed opts.name w
      → R (listed opts.name w) (put_aside opts.name w).1
      → (put_aside opts.name w).0 ≡ ok out
      → R v (remove d opts v).1
  remove_at p opts v w on same kept done = rw same (rw on (quarantine_at p opts.name _ kept done))

  -- A deletion that asks for a snapshot does not destroy the dataset where renaming it succeeds:
  -- if the `zfs rename` that follows `zfs list`, to the name with the time of the clock there,
  -- succeeds, then whatever reflexive and transitive relation these two commands keep, the whole
  -- deletion keeps.
  pub delete-quarantine :
      {R : W → W → Type 0} (opts : DeleteOptions) (w : W) {out : Text}
      → IsPreorder R
      → opts.snapshot_before_delete ≡ true
      → R w (listed opts.name w)
      → R (listed opts.name w) (put_aside opts.name w).1
      → (put_aside opts.name w).0 ≡ ok out
      → R w (delete d opts w).1
  unfolding delete
  delete-quarantine {R} opts w p on list kept done = elim (Bool-cases (is_empty opts.name)) [
    | inl e ↦ rw e ((Along-raise p _).at w)
    | inr e ↦ rw e (
        bind_at p (check_exists d opts.name) _ w (rw (exists-listed opts.name w) list)
          λ there _. removed there (check_exists d opts.name w).1 (exists-listed opts.name w))
  ]
    where
      removed :
          (there : Bool) (v : W)
          → v ≡ listed opts.name w
          → R v ((if there then remove d opts else pure tt) v).1
      removed true v same = remove_at p opts v w on same kept done
      removed false v same = (Along-pure p tt).at v
