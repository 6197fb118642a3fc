-- ===== src/Zfs.antt =====
-- pkg/driver/zfs/zfs.go
pub mod Quota
pub mod Properties
pub mod Volumes
use k8s_subvol_provisioner.Base.{
  Bool, true, false, not, ◌&&◌, ◌||◌, List, [], ◌∷◌, ◌++◌, Option, none, some, if◌then◌else◌,
}
use k8s_subvol_provisioner.Text.{Text, codes}
use k8s_subvol_provisioner.Dict.{Dict}
use k8s_subvol_provisioner.Exec.{Exec, pure, attempt, ◌>>=◌, ◌>>◌}
use k8s_subvol_provisioner.Host.{Executor, Host}

-- The value and the source of a property, `zfsPropValue`
pub record PropValue : Type 0 where
  pub value : Text
  pub source : Text

-- `Driver`, with the system that it runs on. The last two fields stand for the order in which the
-- runtime happens to range over a map.
pub record Zfs (W : Type 0) : Type 0 where
  pub zfs_path : Text
  pub executor : Executor W
  pub host : Host W
  pub range_texts : Dict Text → Dict Text
  pub range_props : Dict PropValue → Dict PropValue

-- `WithExecutor` and `WithZFSPath`, the two options of `New`
abbrev pub with_executor : {W : Type 0} → Executor W → Zfs W → Zfs W
with_executor e d = record d { executor = e }

abbrev pub with_zfs_path : {W : Type 0} → Text → Zfs W → Zfs W
with_zfs_path path d = record d { zfs_path = path }

-- The loop of `New` over its options
unfoldable pub with_options : {W : Type 0} → List (Zfs W → Zfs W) → Zfs W → Zfs W
with_options [] d = d
with_options (opt ∷ opts) d = with_options opts (opt d)

-- `New`; the two functions stand for the order of maps
abbrev pub new_zfs :
    {W : Type 0}
    → Executor W
    → Host W
    → (Dict Text → Dict Text)
    → (Dict PropValue → Dict PropValue)
    → List (Zfs W → Zfs W)
    → Zfs W
new_zfs os_executor host range_texts range_props opts = with_options opts (record {
  zfs_path = codes "zfs";
  executor = os_executor;
  host = host;
  range_texts = range_texts;
  range_props = range_props;
})

module _ {W : Type 0} (d : Zfs W) where
  -- `d.executor.Run(ctx, stdin, d.zfsPath, args...)`
  unfoldable pub run : Text → List Text → Exec W Text
  run stdin args = d.executor.run stdin d.zfs_path args

  abbrev pub set_args : Text → Text → List Text
  set_args name prop = codes "set" ∷ prop ∷ name ∷ []

  abbrev pub inherit_args : Text → Text → List Text
  inherit_args name prop = codes "inherit" ∷ name ∷ prop ∷ []

  -- `runZfsSet`
  unfoldable pub run_zfs_set : Bool → Text → Text → Exec W (Unit {0})
  run_zfs_set dry_run name prop =
      if dry_run then pure tt else (do run [] (set_args name prop); pure tt)

  -- `runZfsInherit`
  unfoldable pub run_zfs_inherit : Bool → Text → Text → Exec W (Unit {0})
  run_zfs_inherit dry_run name prop =
      if dry_run then pure tt else (do run [] (inherit_args name prop); pure tt)
