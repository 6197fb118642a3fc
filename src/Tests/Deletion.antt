-- ===== src/Tests/Deletion.antt =====
-- The deletion of a volume whose driver cannot delete it.
use k8s_subvol_provisioner.Base.{ℕ, suc, refl, [], ◌∷◌, if◌then◌else◌}
use k8s_subvol_provisioner.Text.{Text, codes, eq_text}
use k8s_subvol_provisioner.Dict.{lookup, get}
use k8s_subvol_provisioner.Errors.{ok, err}
use k8s_subvol_provisioner.Exec.Along.{Same, Same-preorder}
use k8s_subvol_provisioner.Driver.{Driver}
use k8s_subvol_provisioner.Controller.{Controller}
use k8s_subvol_provisioner.Controller.Delete.{delete_options, reconcile_volume_delete}
use k8s_subvol_provisioner.Controller.Delete.Order.{reconcile_volume_delete-failed}
use k8s_subvol_provisioner.Config.Names.{ann_dataset_name}
use k8s_subvol_provisioner.Tests.Samples.{controller, client, driver, broken, released, system}

abbrev released_name : Text
released_name = get released.annotations ann_dataset_name

-- A driver that cannot delete the volume that was released
abbrev stuck : Driver ℕ
stuck = record driver {
  delete = λ opts n. if eq_text opts.name released_name then (err broken, n) else (ok tt, suc n);
}

abbrev blocked : Controller ℕ
blocked = record controller {
  drivers = (codes "dir", driver) ∷ (codes "zfs", stuck) ∷ [];
  client = record client { delete_pv = λ name n. (ok tt, suc n) };
}

reconcile_volume_delete-failed_example :
    Same 0 (reconcile_volume_delete blocked released system).1.world
unfolding lookup get eq_text codes delete_options
reconcile_volume_delete-failed_example =
    reconcile_volume_delete-failed Same-preorder blocked released stuck broken system refl refl refl
