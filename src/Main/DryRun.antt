-- ===== src/Main/DryRun.antt =====
-- The controller that `run` starts, with its real drivers, against the contract of dry runs.
use k8s_subvol_provisioner.Base.{false, [], some, ◌≡◌, All, ap}
use k8s_subvol_provisioner.Text.{Text}
use k8s_subvol_provisioner.Dict.{Dict, lookup}
use k8s_subvol_provisioner.Dict.Laws.{lookup-All}
use k8s_subvol_provisioner.Errors.{ok}
use k8s_subvol_provisioner.Kube.{Pvc, Pv, External}
use k8s_subvol_provisioner.Driver.{Driver}
use k8s_subvol_provisioner.Driver.Laws.{Reads, AllSafe}
use k8s_subvol_provisioner.OwnerMode.DryRun.{IsObserving}
use k8s_subvol_provisioner.Zfs.{run, with_options}
use k8s_subvol_provisioner.Zfs.Quota.{quota_args}
use k8s_subvol_provisioner.Zfs.Properties.{props_args}
use k8s_subvol_provisioner.Zfs.Volumes.Laws.{reconciler-IsDryRunSafe}
use k8s_subvol_provisioner.Dir.Laws.{dir_reconciler-IsDryRunSafe}
use k8s_subvol_provisioner.Controller.{Controller, System}
use k8s_subvol_provisioner.Controller.State.{reconcile_volume_state}
use k8s_subvol_provisioner.Controller.State.Laws.{PlansOnly, reconcile_volume_state_planned}
use k8s_subvol_provisioner.Main.{RunFlags, Platform, zfs, drivers}
use k8s_subvol_provisioner.Main
use k8s_subvol_provisioner.Main.Start.{drivers-run}

-- Every driver of a map keeps to dry runs.
abbrev SafeDrivers : {W : Type 0} → Dict (Driver W) → Type 0
SafeDrivers m = All (λ entry. AllSafe entry.1.reconciler) m

-- What is only looked at: files, `zfs get`, and storage classes
pub record IsReadOnly {W L C : Type 0} (p : Platform W L C) : Type 0 where
  pub files : IsObserving p.host
  pub quota : (name : Text) → Reads (run (zfs p) [] (quota_args (zfs p) name))
  pub props : (name : Text) → Reads (run (zfs p) [] (props_args (zfs p) name []))

module _ {W L C : Type 0} (p : Platform W L C) where
  drivers-SafeDrivers : IsReadOnly p → SafeDrivers (drivers p false)
  unfolding with_options
  drivers-SafeDrivers o = (
    reconciler-IsDryRunSafe (zfs p) o.files o.quota o.props,
    (tt, (dir_reconciler-IsDryRunSafe p.host o.files, tt)),
  )

  -- The controller that `run` starts without the mock driver leaves the world as it was when it
  -- reconciles a bound claim that nothing authorizes to apply, whichever driver the volume has.
  -- This holds if looking at files, `zfs get` and reading a storage class change nothing.
  pub reconcile_volume_state-run :
      (flags : RunFlags) (ext : External) (c : Controller W) (w : W) (pvc : Pvc) (pv : Pv)
      (s : System W)
      → flags.enable_mock ≡ false
      → (Main.run p flags w).0 ≡ ok c
      → IsReadOnly p
      → ((name : Text) → Reads (c.client.get_storage_class name))
      → PlansOnly ext c pvc s
      → (reconcile_volume_state ext c pvc pv s).1.world ≡ s.world
  reconcile_volume_state-run flags ext c w pvc pv s off started o reads plan =
      reconcile_volume_state_planned ext c pvc pv s safe reads plan
    where
      safe : (name : Text) (d : Driver W) → lookup name c.drivers ≡ some d → AllSafe d.reconciler
      safe name d found =
          lookup-All (λ k (e : Driver W). AllSafe e.reconciler) (drivers p false) name d
            (drivers-SafeDrivers o)
            (rw (← (ap (drivers p) off)) (rw (← (drivers-run p flags c w started)) found))
