-- ===== src/Dir.antt =====
-- pkg/driver/dir/dir.go
pub mod Laws
pub mod Effects
pub mod Filling
pub mod Paths
use k8s_subvol_provisioner.Base.{
  ℕ, Bool, true, false, List, [], ◌∷◌, ◌++◌, Option, none, some, if◌then◌else◌, zero, suc,
}
use k8s_subvol_provisioner.Base.Int.{ℤ, pos, is_positive}
use k8s_subvol_provisioner.Base.Lists.{length}
use k8s_subvol_provisioner.Text.{Text, codes, is_empty, trim_suffix}
use k8s_subvol_provisioner.Strconv.{format_int}
use k8s_subvol_provisioner.Dict.{Dict}
use k8s_subvol_provisioner.Errors.{Error, errorf, wrapf, quoted, num, Result, ok, err, is_not_exist}
use k8s_subvol_provisioner.Exec.{Exec, pure, raise, attempt, ◌>>=◌, ◌>>◌, wrapping}
use k8s_subvol_provisioner.Config.{Ownership, FileMode}
use k8s_subvol_provisioner.Host.{try_chown, try_chmod, Host, FileInfo}
use k8s_subvol_provisioner.Driver.{
  CreateOptions, DeleteOptions, OwnerModeOptions, VolumeInfo, Reconciler, Driver, effective_path,
}
use k8s_subvol_provisioner.OwnerMode.{reconcile_owner_mode_at_path, is_undeclared}

-- The mount path, or where it is empty the name
unfoldable pub target_path : Text → Text → Text
target_path mount_path name = if is_empty mount_path then name else mount_path

abbrev pub volume_info : CreateOptions → VolumeInfo
volume_info opts = record {
  volume_id = codes "dir:" ++ opts.name;
  name = opts.name;
  mount_path = target_path opts.mount_path opts.name;
  attributes = [];
}

-- 0750, or the mode that is asked for
abbrev mode_or_default : Option FileMode → FileMode
mode_or_default none = 488
mode_or_default (some m) = m

abbrev no_target : Error
no_target = errorf (codes "directory target path cannot be empty") []

abbrev check_error : Text → Error → Error
check_error path = wrapf (codes "failed to check if directory %q exists: %w") (quoted path ∷ [])

module _ {W : Type 0} (h : Host W) where
  abbrev is_there : Result FileInfo → Exec W Bool
  is_there (ok fi) = pure true
  is_there (err e) = if is_not_exist e then pure false else raise e

  -- `Exists`
  unfoldable pub exists : Text → Exec W Bool
  exists path =
      if is_empty path
      then raise (errorf (codes "path cannot be empty") [])
      else (do r ← attempt (h.stat path); is_there r)

  abbrev make : Text → CreateOptions → Exec W VolumeInfo
  make path opts = do
    wrapping (wrapf (codes "failed to create directory %q: %w") (quoted path ∷ []))
        (h.mkdir_all path (mode_or_default opts.mode))
    try_chown h path opts.owner
    try_chmod h path opts.mode
    pure (volume_info opts)

  abbrev adopt : CreateOptions → Exec W VolumeInfo
  adopt opts =
      if opts.adopt_existing
      then pure (volume_info opts)
      else raise (
          errorf (codes "directory %q already exists")
            (quoted (target_path opts.mount_path opts.name) ∷ []))

  -- What follows once the target is known
  abbrev create_at : Text → CreateOptions → Exec W VolumeInfo
  create_at path opts = do
    there ← wrapping (check_error path) (exists path)
    if there then adopt opts else make path opts

  -- `Create`
  unfoldable pub create : CreateOptions → Exec W VolumeInfo
  create opts =
      if is_positive opts.quota_bytes
      then raise (
          errorf
            (codes
              "dir driver does not support quotas (quota=%d bytes requested); use the zfs or btrfs driver for quota enforcement")
            (num opts.quota_bytes ∷ []))
      else if is_empty (target_path opts.mount_path opts.name)
      then raise no_target
      else create_at (effective_path opts.host_prefix (target_path opts.mount_path opts.name)) opts

  -- `ReconcileQuota`
  unfoldable pub reconcile_quota : Text → Option ℤ → Bool → Exec W (List Text)
  reconcile_quota name none dry_run = pure []
  reconcile_quota name (some quota) dry_run = raise (
      errorf
        (codes
          "dir driver does not support quotas (quota=%d bytes requested on %q); use the zfs or btrfs driver for quota enforcement")
        (num quota ∷ quoted name ∷ []))

  -- `ReconcileOwnerMode`
  unfoldable pub reconcile_owner_mode : OwnerModeOptions → Exec W (List Text)
  reconcile_owner_mode opts =
      if is_undeclared opts.owner opts.mode
      then pure []
      else if is_empty opts.mount_path
      then pure []
      else reconcile_owner_mode_at_path h (effective_path opts.host_prefix opts.mount_path) opts

  -- `ReconcileProperties`
  unfoldable pub reconcile_properties : Text → Dict Text → Bool → Exec W (List Text)
  reconcile_properties name [] dry_run = pure []
  reconcile_properties name (e ∷ props) dry_run = raise (
      errorf (codes "dir driver does not support properties (%d requested on %q)")
        (num (pos (length (e ∷ props))) ∷ quoted name ∷ []))

  abbrev remove_all : Text → Exec W (Unit {0})
  remove_all path =
      wrapping (wrapf (codes "failed to delete directory %q: %w") (quoted path ∷ []))
        (h.remove_all path)

  abbrev renamed : Text → Result (Unit {0}) → Exec W (Unit {0})
  renamed path (ok _) = pure tt
  renamed path (err e) = remove_all path

  -- `time.Now().Unix()`
  abbrev clock : Exec W ℤ
  clock w = (ok (h.now w), w)

  unfoldable pub backup_path : Text → ℤ → Text
  backup_path path time = trim_suffix path b'/' ++ (codes "-deleted-" ++ format_int time)

  abbrev back_up : Text → Exec W (Unit {0})
  back_up path = do
    time ← clock
    r ← attempt (h.rename path (backup_path path time))
    renamed path r

  abbrev delete_at : Text → Bool → Exec W (Unit {0})
  delete_at path keep = do
    there ← wrapping (check_error path) (exists path)
    if there then (if keep then back_up path else remove_all path) else pure tt

  -- `Delete`
  unfoldable pub delete : DeleteOptions → Exec W (Unit {0})
  delete opts =
      if is_empty (target_path opts.mount_path opts.name)
      then raise no_target
      else delete_at (effective_path opts.host_prefix (target_path opts.mount_path opts.name))
          opts.snapshot_before_delete

  abbrev pub dir_reconciler : Reconciler W
  dir_reconciler = record {
    reconcile_quota = reconcile_quota;
    reconcile_owner_mode = reconcile_owner_mode;
    reconcile_properties = reconcile_properties;
  }

  abbrev pub dir_driver : Driver W
  dir_driver = record {
    name = codes "dir";
    create = create;
    delete = delete;
    exists = exists;
    reconciler = some dir_reconciler;
  }
