-- ===== src/Driver.antt =====
-- pkg/driver/driver.go: the interface of the storage backends, over an unknown state `W` of the
-- world outside.
pub mod Laws
use k8s_subvol_provisioner.Text.{is_empty}
use k8s_subvol_provisioner.Paths.{join_path}
use k8s_subvol_provisioner.Base.{if◌then◌else◌, true, false, Bool, List, Option}
use k8s_subvol_provisioner.Base.Int.{ℤ}
use k8s_subvol_provisioner.Text.{Text}
use k8s_subvol_provisioner.Dict.{Dict}
use k8s_subvol_provisioner.Exec.{Exec}
use k8s_subvol_provisioner.Config.{Ownership, FileMode, EncryptionConfig}

pub record VolumeInfo : Type 0 where
  pub volume_id : Text
  pub name : Text
  pub mount_path : Text
  pub attributes : Dict Text

pub record CreateOptions : Type 0 where
  pub adopt_existing : Bool
  pub name : Text
  pub mount_path : Text
  pub host_prefix : Text
  pub quota_bytes : ℤ
  pub owner : Option Ownership
  pub mode : Option FileMode
  pub properties : Dict Text
  pub encryption : Option EncryptionConfig

pub record DeleteOptions : Type 0 where
  pub name : Text
  pub mount_path : Text
  pub host_prefix : Text
  pub snapshot_before_delete : Bool

pub record OwnerModeOptions : Type 0 where
  pub name : Text
  pub mount_path : Text
  pub host_prefix : Text
  pub owner : Option Ownership
  pub mode : Option FileMode
  pub recursive : Bool
  pub dry_run : Bool

-- The optional interface of drivers that reconcile live volumes. Each method returns the changes
-- that it made or, in a dry run, would make.
pub record Reconciler (W : Type 0) : Type 0 where
  pub reconcile_quota : Text → Option ℤ → Bool → Exec W (List Text)
  pub reconcile_owner_mode : OwnerModeOptions → Exec W (List Text)
  pub reconcile_properties : Text → Dict Text → Bool → Exec W (List Text)

-- `reconciler` is what the assertion `d.(driver.Reconciler)` finds.
pub record Driver (W : Type 0) : Type 0 where
  pub name : Text
  pub create : CreateOptions → Exec W VolumeInfo
  pub delete : DeleteOptions → Exec W (Unit {0})
  pub exists : Text → Exec W Bool
  pub reconciler : Option (Reconciler W)

-- The path at which the host sees a mount path
unfoldable pub effective_path : Text → Text → Text
effective_path host_prefix path =
    if is_empty host_prefix
    then path
    else if is_empty path
    then path
    else join_path host_prefix path
