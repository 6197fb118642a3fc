-- ===== src/Mock.antt =====
-- pkg/driver/mock/mock.go: the driver that keeps its volumes in memory
use k8s_subvol_provisioner.Base.{
  Bool, false, List, [], ◌∷◌, ◌++◌, Option, none, some, if◌then◌else◌, length,
}
use k8s_subvol_provisioner.Base.Int.{ℤ}
use k8s_subvol_provisioner.Text.{Text, codes, is_empty}
use k8s_subvol_provisioner.Strconv.{format_nat, format_int}
use k8s_subvol_provisioner.Dict.{Dict, lookup, has_key, insert, erase, overlay}
use k8s_subvol_provisioner.Errors.{errorf, quoted, Result, ok}
use k8s_subvol_provisioner.Exec.{Exec, pure, raise, attempt, ◌>>=◌, ◌>>◌}
use k8s_subvol_provisioner.Host.{Host}
use k8s_subvol_provisioner.Config.{Ownership, FileMode}
use k8s_subvol_provisioner.Driver.{
  CreateOptions, DeleteOptions, OwnerModeOptions, VolumeInfo, Reconciler, Driver,
}

pub record ReconcileCall : Type 0 where
  pub name : Text
  pub quota : Option ℤ
  pub props : Dict Text
  pub owner : Option OwnerModeOptions
  pub dry_run : Bool

-- The fields of `Driver`
pub record Memory : Type 0 where
  pub volumes : Dict VolumeInfo
  pub options : Dict CreateOptions
  pub deleted : Dict DeleteOptions
  pub reconciles : List ReconcileCall
  pub up_to_date : Bool

-- `New`
abbrev pub new_memory : Memory
new_memory = record {
  volumes = [];
  options = [];
  deleted = [];
  reconciles = [];
  up_to_date = false;
}

-- A driver of the world: where the world holds its fields, and the system that it runs on.
pub record Mock (W : Type 0) : Type 0 where
  pub load : W → Memory
  pub store : Memory → W → W
  pub host : Host W

abbrev pub volume_info : CreateOptions → VolumeInfo
volume_info opts = record {
  volume_id = codes "mock:" ++ opts.name;
  name = opts.name;
  mount_path = opts.mount_path;
  attributes = overlay [] opts.properties;
}

-- The two maps that a creation writes
unfoldable pub add_volume : CreateOptions → Memory → Memory
add_volume opts m = record m {
  volumes = insert opts.name (volume_info opts) m.volumes;
  options = insert opts.name opts m.options;
}

-- The two maps that a deletion writes
unfoldable pub drop_volume : DeleteOptions → Memory → Memory
drop_volume opts m = record m {
  volumes = erase opts.name m.volumes;
  deleted = insert opts.name opts m.deleted;
}

-- `SetUpToDate`
unfoldable pub set_up_to_date : Bool → Memory → Memory
set_up_to_date b m = record m { up_to_date = b }

-- `GetVolume`, `GetCreateOptions` and `GetReconcileCalls`
unfoldable pub get_volume : Text → Memory → Option VolumeInfo
get_volume name m = lookup name m.volumes

unfoldable pub get_create_options : Text → Memory → Option CreateOptions
get_create_options name m = lookup name m.options

unfoldable pub get_reconcile_calls : Memory → List ReconcileCall
get_reconcile_calls m = m.reconciles

module _ {W : Type 0} (d : Mock W) where
  -- A method that changes the fields alone
  abbrev update : (Memory → Memory) → Exec W (Unit {0})
  update f w = (ok tt, d.store (f (d.load w)) w)

  abbrev chmod_if : Text → Option FileMode → Result (Unit {0}) → Exec W (Unit {0})
  chmod_if path (some mode) (ok _) = do r ← attempt (d.host.chmod path mode); pure tt
  chmod_if path _ _ = pure tt

  -- The directory of a new volume; a failure to make it is dropped.
  unfoldable pub make_directory : Text → Option FileMode → Exec W (Unit {0})
  make_directory path mode =
      if is_empty path
      then pure tt
      else (do r ← attempt (d.host.mkdir_all path 493); chmod_if path mode r)

  abbrev create_or_adopt : CreateOptions → Option VolumeInfo → Exec W VolumeInfo
  create_or_adopt opts (some info) =
      if opts.adopt_existing
      then pure info
      else raise (errorf (codes "volume %q already exists") (quoted opts.name ∷ []))
  create_or_adopt opts none = do
    update (add_volume opts)
    make_directory opts.mount_path opts.mode
    pure (volume_info opts)

  -- `Create`
  unfoldable pub create : CreateOptions → Exec W VolumeInfo
  create opts w =
      if is_empty opts.name
      then raise (errorf (codes "volume name cannot be empty") []) w
      else create_or_adopt opts (lookup opts.name (d.load w).volumes) w

  abbrev delete_present : DeleteOptions → Exec W (Unit {0})
  delete_present opts = do
    update (drop_volume opts)
    if is_empty opts.mount_path
        then pure tt
        else (do r ← attempt (d.host.remove_all opts.mount_path); pure tt)

  -- `Delete`
  unfoldable pub delete : DeleteOptions → Exec W (Unit {0})
  delete opts w =
      if has_key opts.name (d.load w).volumes
      then delete_present opts w
      else raise (errorf (codes "volume %q does not exist") (quoted opts.name ∷ [])) w

  -- `Exists`
  unfoldable pub exists : Text → Exec W Bool
  exists name w = (ok (has_key name (d.load w).volumes), w)

  -- A call is recorded, in a dry run too, and the changes are none if the driver is up to date.
  unfoldable pub record_call : ReconcileCall → List Text → Exec W (List Text)
  record_call call changes w =
      let m = d.load w in
      (
        ok (if m.up_to_date then [] else changes),
        d.store (record m { reconciles = m.reconciles ++ call ∷ [] }) w,
      )

  abbrev quota_changes : Option ℤ → List Text
  quota_changes none = codes "quota=none" ∷ []
  quota_changes (some n) = (codes "quota=" ++ format_int n) ∷ []

  abbrev owner_changes : Option Ownership → Option FileMode → List Text
  owner_changes none none = []
  owner_changes _ _ = codes "owner/mode" ∷ []

  abbrev property_changes : Dict Text → List Text
  property_changes [] = []
  property_changes (p ∷ props) = (format_nat (length (p ∷ props)) ++ codes " properties") ∷ []

  -- `ReconcileQuota`, `ReconcileOwnerMode` and `ReconcileProperties`
  abbrev pub mock_reconciler : Reconciler W
  mock_reconciler = record {
    reconcile_quota = λ name quota dry_run.
        record_call
          (record { name = name; quota = quota; props = []; owner = none; dry_run = dry_run })
          (quota_changes quota);
    reconcile_owner_mode = λ opts.
        record_call
          (record {
            name = opts.name;
            quota = none;
            props = [];
            owner = some opts;
            dry_run = opts.dry_run;
          })
          (owner_changes opts.owner opts.mode);
    reconcile_properties = λ name props dry_run.
        record_call
          (record { name = name; quota = none; props = props; owner = none; dry_run = dry_run })
          (property_changes props);
  }

  abbrev pub mock_driver : Driver W
  mock_driver = record {
    name = codes "mock";
    create = create;
    delete = delete;
    exists = exists;
    reconciler = some mock_reconciler;
  }
