-- ===== src/Zfs/Volumes.antt =====
-- `Exists`, `Create`, `Delete` and `ReconcileOwnerMode` of zfs.go
pub mod Laws
pub mod Keys
use k8s_subvol_provisioner.Base.{
  Bool, true, false, not, ◌||◌, ◌&&◌, List, [], ◌∷◌, ◌++◌, Option, none, some, if◌then◌else◌,
}
use k8s_subvol_provisioner.Base.Int.{ℤ, is_positive}
use k8s_subvol_provisioner.Text.{Text, codes, eq_text, is_empty, trim_space}
use k8s_subvol_provisioner.Strconv.{format_int}
use k8s_subvol_provisioner.Dict.{Dict}
use k8s_subvol_provisioner.Paths.{join_path}
use k8s_subvol_provisioner.Errors.{errorf, wrapf, quoted, Result, ok, err}
use k8s_subvol_provisioner.Exec.{Exec, pure, raise, attempt, ◌>>=◌, ◌>>◌, wrapping}
use k8s_subvol_provisioner.Config.{Ownership, FileMode, EncryptionConfig}
use k8s_subvol_provisioner.Host.{try_chown, try_chmod, FileInfo}
use k8s_subvol_provisioner.Driver.{
  effective_path, CreateOptions, DeleteOptions, OwnerModeOptions, VolumeInfo, Reconciler, Driver,
}
use k8s_subvol_provisioner.OwnerMode.{reconcile_owner_mode_at_path, is_undeclared}
use k8s_subvol_provisioner.Zfs.{Zfs, run}
use k8s_subvol_provisioner.Zfs.Quota.{reconcile_quota}
use k8s_subvol_provisioner.Zfs.Properties.{reconcile_properties, prop_setting}

-- "-o" and a property, for each entry
unfoldable pub property_args : Dict Text → List Text
property_args [] = []
property_args ((k, v) ∷ props) = codes "-o" ∷ prop_setting k v ∷ property_args props

abbrev key_args : EncryptionConfig → List Text
key_args e =
    if is_empty e.key_location
    then if is_empty e.key_data then [] else codes "-o" ∷ codes "keylocation=prompt" ∷ []
    else codes "-o" ∷ prop_setting (codes "keylocation") e.key_location ∷ []

-- The arguments and the standard input that the encryption asks for
unfoldable pub encryption_args : Option EncryptionConfig → List Text
encryption_args none = []
encryption_args (some e) =
    if e.enabled
    then codes "-o"
      ∷ codes "encryption=on"
      ∷ ((if is_empty e.key_format
            then []
            else codes "-o" ∷ prop_setting (codes "keyformat") e.key_format ∷ [])
          ++ key_args e)
    else []

unfoldable pub key_input : Option EncryptionConfig → Text
key_input none = []
key_input (some e) = if e.enabled then if is_empty e.key_location then e.key_data else [] else []

abbrev pub list_args : Text → List Text
list_args name = codes "list" ∷ codes "-H" ∷ codes "-o" ∷ codes "name" ∷ name ∷ []

abbrev pub mountpoint_args : Text → List Text
mountpoint_args name =
    codes "get" ∷ codes "-H" ∷ codes "-o" ∷ codes "value" ∷ codes "mountpoint" ∷ name ∷ []

-- `fmt.Sprintf("%s-deleted-%d", opts.Name, time)`
abbrev pub quarantine_name : Text → ℤ → Text
quarantine_name name time = name ++ (codes "-deleted-" ++ format_int time)

abbrev pub rename_args : Text → Text → List Text
rename_args name quarantine = codes "rename" ∷ name ∷ quarantine ∷ []

abbrev pub destroy_args : Text → List Text
destroy_args name = codes "destroy" ∷ codes "-r" ∷ name ∷ []

-- A mount path that names no directory
unfoldable pub is_unmounted : Text → Bool
is_unmounted path = eq_text path (codes "none") || eq_text path (codes "legacy")

abbrev pub volume_info : Text → Text → VolumeInfo
volume_info name mount_path = record {
  volume_id = codes "zfs:" ++ name;
  name = name;
  mount_path = mount_path;
  attributes = [];
}

abbrev succeeded : {A : Type 0} → Result A → Bool
succeeded (ok a) = true
succeeded (err e) = false

abbrev trimmed_or_empty : Result Text → Text
trimmed_or_empty (ok out) = trim_space out
trimmed_or_empty (err e) = []

module _ {W : Type 0} (d : Zfs W) where
  -- `Exists`: a failure of the command counts as absence.
  unfoldable pub exists : Text → Exec W Bool
  exists name = do r ← attempt (run d [] (list_args name)); pure (succeeded r)

  -- The call of `Exists` in `Create` and `Delete`
  abbrev check_exists : Text → Exec W Bool
  check_exists name =
      wrapping (wrapf (codes "failed to check if dataset %q exists: %w") (quoted name ∷ []))
        (exists name)

  -- The arguments of `zfs create`
  unfoldable pub create_args : CreateOptions → List Text
  create_args opts =
      codes "create"
      ∷ codes "-p"
      ∷ ((if is_positive opts.quota_bytes
            then codes "-o" ∷ prop_setting (codes "quota") (format_int opts.quota_bytes) ∷ []
            else [])
          ++ (property_args (d.range_texts opts.properties)
              ++ (encryption_args opts.encryption ++ opts.name ∷ [])))

  -- The mount path that is asked for, or else the one that the dataset has
  unfoldable pub find_mount_path : CreateOptions → Exec W Text
  find_mount_path opts =
      if is_empty opts.mount_path
      then (do r ← attempt (run d [] (mountpoint_args opts.name)); pure (trimmed_or_empty r))
      else pure opts.mount_path

  abbrev at_directory : Text → CreateOptions → Result FileInfo → Exec W (Unit {0})
  at_directory path opts (err e) = pure tt
  at_directory path opts (ok fi) =
      if fi.is_dir
      then (do try_chown d.host path opts.owner; try_chmod d.host path opts.mode)
      else pure tt

  unfoldable pub apply_owner_mode : CreateOptions → Text → Exec W (Unit {0})
  apply_owner_mode opts mount_path =
      let path = effective_path opts.host_prefix mount_path in
      if is_empty path || is_unmounted mount_path
      then pure tt
      else (do r ← attempt (d.host.stat path); at_directory path opts r)

  abbrev create_new : CreateOptions → Exec W VolumeInfo
  create_new opts = do
    wrapping (wrapf (codes "failed to create zfs dataset %q: %w") (quoted opts.name ∷ []))
        (run d (key_input opts.encryption) (create_args opts))
    mount_path ← find_mount_path opts
    apply_owner_mode opts mount_path
    pure (volume_info opts.name mount_path)

  abbrev adopt : CreateOptions → Exec W VolumeInfo
  adopt opts =
      if opts.adopt_existing
      then (do mount_path ← find_mount_path opts; pure (volume_info opts.name mount_path))
      else raise (errorf (codes "dataset %q already exists") (quoted opts.name ∷ []))

  -- `Create`
  unfoldable pub create : CreateOptions → Exec W VolumeInfo
  create opts =
      if is_empty opts.name
      then raise (errorf (codes "dataset name cannot be empty") [])
      else (do there ← check_exists opts.name; if there then adopt opts else create_new opts)

  abbrev destroy : Text → Exec W (Unit {0})
  destroy name = do
    wrapping (wrapf (codes "failed to destroy zfs dataset %q: %w") (quoted name ∷ []))
        (run d [] (destroy_args name))
    pure tt

  abbrev renamed : Text → Result Text → Exec W (Unit {0})
  renamed name (ok out) = pure tt
  renamed name (err e) = destroy name

  -- `time.Now().Unix()`
  abbrev clock : Exec W ℤ
  clock w = (ok (d.host.now w), w)

  abbrev quarantine : Text → Exec W (Unit {0})
  quarantine name = do
    time ← clock
    r ← attempt (run d [] (rename_args name (quarantine_name name time)))
    renamed name r

  abbrev remove : DeleteOptions → Exec W (Unit {0})
  remove opts = if opts.snapshot_before_delete then quarantine opts.name else destroy opts.name

  -- `Delete`
  unfoldable pub delete : DeleteOptions → Exec W (Unit {0})
  delete opts =
      if is_empty opts.name
      then raise (errorf (codes "dataset name cannot be empty") [])
      else (do there ← check_exists opts.name; if there then remove opts else pure tt)

  -- `ReconcileOwnerMode`
  unfoldable pub reconcile_owner_mode : OwnerModeOptions → Exec W (List Text)
  reconcile_owner_mode opts =
      if is_undeclared opts.owner opts.mode
      then pure []
      else if is_empty opts.mount_path || is_unmounted opts.mount_path
      then pure []
      else reconcile_owner_mode_at_path d.host (effective_path opts.host_prefix opts.mount_path)
          opts

  abbrev pub reconciler : Reconciler W
  reconciler = record {
    reconcile_quota = reconcile_quota d;
    reconcile_owner_mode = reconcile_owner_mode;
    reconcile_properties = reconcile_properties d;
  }

  abbrev pub driver : Driver W
  driver = record {
    name = codes "zfs";
    create = create;
    delete = delete;
    exists = exists;
    reconciler = some reconciler;
  }
