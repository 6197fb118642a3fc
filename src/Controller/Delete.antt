-- ===== src/Controller/Delete.antt =====
-- `reconcileVolumeDelete`: the destruction of a released volume
pub mod Effects
pub mod Laws
pub mod Order
use k8s_subvol_provisioner.Base.{
  Bool, true, false, List, [], ◌∷◌, ◌++◌, Option, none, some, if◌then◌else◌,
}
use k8s_subvol_provisioner.Text.{Text, codes, eq_text}
use k8s_subvol_provisioner.Dict.{lookup, get}
use k8s_subvol_provisioner.Errors.{
  Error, errorf, Message, of_error, quoted, Result, ok, err, is_not_found,
}
use k8s_subvol_provisioner.Exec.{Exec, pure, raise, attempt, ◌>>=◌, ◌>>◌}
use k8s_subvol_provisioner.Config.Names.{
  ann_subvol_driver, ann_dataset_name, ann_host_mount_path, ann_snapshot_before_delete,
}
use k8s_subvol_provisioner.Kube.{Pv}
use k8s_subvol_provisioner.Driver.{Driver, DeleteOptions}
use k8s_subvol_provisioner.Controller.{
  Controller, System, volume, warning, lift, emit_event, exclusive,
}

-- `fmt.Sprintf("pv:%s", pv.Name)`
unfoldable pub volume_key : Text → Text
volume_key name = codes "pv:" ++ name

module _ {W : Type 0} (c : Controller W) where
  unfoldable pub delete_options : Pv → DeleteOptions
  delete_options pv = record {
    name = get pv.annotations ann_dataset_name;
    mount_path = get pv.annotations ann_host_mount_path;
    host_prefix = c.host_prefix;
    snapshot_before_delete = eq_text (get pv.annotations ann_snapshot_before_delete) (codes "true");
  }

  abbrev reject : Pv → Text → Error → Exec (System W) (Unit {0})
  reject pv reason e = do emit_event c (volume pv.name) warning reason (of_error e); raise e

  abbrev removed : Pv → Result (Unit {0}) → Exec (System W) (Unit {0})
  removed pv (ok _) = pure tt
  removed pv (err e) = if is_not_found e then pure tt else reject pv (codes "PVDeleteFailed") e

  abbrev destroyed : Pv → Result (Unit {0}) → Exec (System W) (Unit {0})
  destroyed pv (err e) = reject pv (codes "DeletingFailed") e
  destroyed pv (ok _) = do r ← attempt (lift (c.client.delete_pv pv.name)); removed pv r

  abbrev delete_with : Pv → Option (Driver W) → Exec (System W) (Unit {0})
  delete_with pv none = raise (
      errorf (codes "driver %q not found for PV deletion")
        (quoted (get pv.annotations ann_subvol_driver) ∷ []))
  delete_with pv (some d) = do r ← attempt (lift (d.delete (delete_options pv))); destroyed pv r

  unfoldable pub delete_body : Pv → Exec (System W) (Unit {0})
  delete_body pv = delete_with pv (lookup (get pv.annotations ann_subvol_driver) c.drivers)

  unfoldable pub reconcile_volume_delete : Pv → Exec (System W) (Unit {0})
  reconcile_volume_delete pv = exclusive (volume_key pv.name) (delete_body pv)
