-- ===== src/Btrfs.antt =====
-- pkg/driver/btrfs/btrfs.go
pub mod Laws
use k8s_subvol_provisioner.Base.{
  Bool, true, false, ◌&&◌, List, [], ◌∷◌, ◌++◌, Option, none, some, if◌then◌else◌,
}
use k8s_subvol_provisioner.Base.Int.{ℤ, is_positive}
use k8s_subvol_provisioner.Text.{Text, codes, is_empty, trim_suffix}
use k8s_subvol_provisioner.Strconv.{format_int}
use k8s_subvol_provisioner.Errors.{Error, errorf, wrapf, quoted, Result, ok, err}
use k8s_subvol_provisioner.Exec.{Exec, pure, raise, attempt, ◌>>=◌, ◌>>◌, wrapping}
use k8s_subvol_provisioner.Host.{Host, Executor, FileInfo, try_chown, try_chmod}
use k8s_subvol_provisioner.Driver.{CreateOptions, DeleteOptions, VolumeInfo, Driver, effective_path}

-- `Driver`, with the system that it runs on
pub record Btrfs (W : Type 0) : Type 0 where
  pub btrfs_path : Text
  pub executor : Executor W
  pub host : Host W

-- `WithExecutor` and `WithBtrfsPath`, the two options of `New`
abbrev pub with_executor : {W : Type 0} → Executor W → Btrfs W → Btrfs W
with_executor e d = record d { executor = e }

abbrev pub with_btrfs_path : {W : Type 0} → Text → Btrfs W → Btrfs W
with_btrfs_path path d = record d { btrfs_path = path }

-- The loop of `New` over its options
unfoldable pub with_options : {W : Type 0} → List (Btrfs W → Btrfs W) → Btrfs W → Btrfs W
with_options [] d = d
with_options (opt ∷ opts) d = with_options opts (opt d)

-- `New`
abbrev pub new_btrfs : {W : Type 0} → Executor W → Host W → List (Btrfs W → Btrfs W) → Btrfs W
new_btrfs os_executor host opts =
    with_options opts (record { btrfs_path = codes "btrfs"; executor = os_executor; host = host })

-- The mount path, or where it is empty the name
unfoldable pub target_path : Text → Text → Text
target_path mount_path name = if is_empty mount_path then name else mount_path

abbrev pub volume_info : CreateOptions → VolumeInfo
volume_info opts = record {
  volume_id = codes "btrfs:" ++ opts.name;
  name = opts.name;
  mount_path = target_path opts.mount_path opts.name;
  attributes = [];
}

abbrev pub show_args : Text → List Text
show_args path = codes "subvolume" ∷ codes "show" ∷ path ∷ []

abbrev pub create_args : Text → List Text
create_args path = codes "subvolume" ∷ codes "create" ∷ path ∷ []

abbrev pub enable_args : Text → List Text
enable_args path = codes "quota" ∷ codes "enable" ∷ path ∷ []

abbrev pub limit_args : ℤ → Text → List Text
limit_args quota path = codes "qgroup" ∷ codes "limit" ∷ format_int quota ∷ path ∷ []

abbrev pub snapshot_args : Text → Text → List Text
snapshot_args path snapshot =
    codes "subvolume" ∷ codes "snapshot" ∷ codes "-r" ∷ path ∷ snapshot ∷ []

abbrev pub delete_args : Text → List Text
delete_args path = codes "subvolume" ∷ codes "delete" ∷ path ∷ []

-- `fmt.Sprintf("%s-deleted-%d", strings.TrimSuffix(path, "/"), time)`
unfoldable pub snapshot_path : Text → ℤ → Text
snapshot_path path time = trim_suffix path b'/' ++ (codes "-deleted-" ++ format_int time)

abbrev no_target : Error
no_target = errorf (codes "btrfs subvolume target path cannot be empty") []

abbrev succeeded : {A : Type 0} → Result A → Bool
succeeded (ok a) = true
succeeded (err e) = false

module _ {W : Type 0} (d : Btrfs W) where
  -- `d.executor.Run(ctx, nil, d.btrfsPath, args...)`
  unfoldable pub run : List Text → Exec W Text
  run args = d.executor.run [] d.btrfs_path args

  -- `Exists`: a failure of the command counts as absence.
  unfoldable pub exists : Text → Exec W Bool
  exists path = do r ← attempt (run (show_args path)); pure (succeeded r)

  -- The call of `Exists` in `Create` and `Delete`
  abbrev check_exists : Text → Exec W Bool
  check_exists path =
      wrapping (wrapf (codes "failed to check if btrfs subvolume %q exists: %w") (quoted path ∷ []))
        (exists path)

  -- The quota of a new subvolume. That it cannot be enabled or set is no error.
  unfoldable pub apply_quota : Text → ℤ → Exec W (Unit {0})
  apply_quota path quota =
      if is_positive quota
      then (do
        enabled ← attempt (run (enable_args path))
        limited ← attempt (run (limit_args quota path))
        pure tt)
      else pure tt

  abbrev at_directory : Text → CreateOptions → Result FileInfo → Exec W (Unit {0})
  at_directory path opts (err e) = pure tt
  at_directory path opts (ok fi) =
      if fi.is_dir
      then (do try_chown d.host path opts.owner; try_chmod d.host path opts.mode)
      else pure tt

  unfoldable pub apply_owner_mode : Text → CreateOptions → Exec W (Unit {0})
  apply_owner_mode path opts = do r ← attempt (d.host.stat path); at_directory path opts r

  abbrev create_new : Text → CreateOptions → Exec W VolumeInfo
  create_new path opts = do
    wrapping (wrapf (codes "failed to create btrfs subvolume %q: %w") (quoted path ∷ []))
        (run (create_args path))
    apply_quota path opts.quota_bytes
    apply_owner_mode (effective_path opts.host_prefix path) opts
    pure (volume_info opts)

  abbrev adopt : Text → CreateOptions → Exec W VolumeInfo
  adopt path opts =
      if opts.adopt_existing
      then pure (volume_info opts)
      else raise (errorf (codes "btrfs subvolume %q already exists") (quoted path ∷ []))

  abbrev create_at : Text → CreateOptions → Exec W VolumeInfo
  create_at path opts = do
    there ← check_exists path
    if there then adopt path opts else create_new path opts

  -- `Create`
  unfoldable pub create : CreateOptions → Exec W VolumeInfo
  create opts =
      if is_empty (target_path opts.mount_path opts.name)
      then raise no_target
      else create_at (target_path opts.mount_path opts.name) opts

  -- `time.Now().Unix()`
  abbrev clock : Exec W ℤ
  clock w = (ok (d.host.now w), w)

  -- A snapshot that cannot be taken does not keep the deletion from going on.
  abbrev preserve : Text → Exec W (Unit {0})
  preserve path = do
    time ← clock
    taken ← attempt (run (snapshot_args path (snapshot_path path time)))
    pure tt

  abbrev destroy : Text → Exec W (Unit {0})
  destroy path = do
    wrapping (wrapf (codes "failed to delete btrfs subvolume %q: %w") (quoted path ∷ []))
        (run (delete_args path))
    pure tt

  abbrev remove : Text → Bool → Exec W (Unit {0})
  remove path keep = do if keep then preserve path else pure tt; destroy path

  abbrev delete_at : Text → Bool → Exec W (Unit {0})
  delete_at path keep = do there ← check_exists path; if there then remove path keep else pure tt

  -- `Delete`
  unfoldable pub delete : DeleteOptions → Exec W (Unit {0})
  delete opts =
      if is_empty (target_path opts.mount_path opts.name)
      then raise no_target
      else delete_at (target_path opts.mount_path opts.name) opts.snapshot_before_delete

  -- The driver has no methods to reconcile a live volume.
  abbrev pub btrfs_driver : Driver W
  btrfs_driver = record {
    name = codes "btrfs";
    create = create;
    delete = delete;
    exists = exists;
    reconciler = none;
  }
