-- ===== src/Driver/Laws.antt =====
-- What the controller relies on in a driver.
use k8s_subvol_provisioner.Base.{◌≡◌, true, Option, none, some}
use k8s_subvol_provisioner.Base.Int.{ℤ}
use k8s_subvol_provisioner.Text.{Text}
use k8s_subvol_provisioner.Dict.{Dict}
use k8s_subvol_provisioner.Exec.{Exec}
use k8s_subvol_provisioner.Driver.{Reconciler, OwnerModeOptions}

-- A call that leaves the world as it is
abbrev pub Reads : {W A : Type 0} → Exec W A → Type 0
Reads {W} m = (w : W) → (m w).1 ≡ w

-- A dry run changes nothing.
pub record IsDryRunSafe {W : Type 0} (rec : Reconciler W) : Type 0 where
  pub quota : (name : Text) (quota : Option ℤ) → Reads (rec.reconcile_quota name quota true)
  pub owner_mode :
      (opts : OwnerModeOptions) → opts.dry_run ≡ true → Reads (rec.reconcile_owner_mode opts)
  pub properties :
      (name : Text) (props : Dict Text) → Reads (rec.reconcile_properties name props true)

-- A driver whose reconciler, if it has one, keeps to dry runs
abbrev pub AllSafe : {W : Type 0} → Option (Reconciler W) → Type 0
AllSafe none = Unit
AllSafe (some rec) = IsDryRunSafe rec
