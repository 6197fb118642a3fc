-- ===== src/Controller/Delete/Laws.antt =====
-- The deletion of a volume that the controller built.
use k8s_subvol_provisioner.Base.{◌≡◌, refl, false}
use k8s_subvol_provisioner.Text.{codes, eq_text}
use k8s_subvol_provisioner.Dict.{lookup, get}
use k8s_subvol_provisioner.Errors.{ok}
use k8s_subvol_provisioner.Config.Names.{ann_subvol_driver}
use k8s_subvol_provisioner.Kube.{Pv}
use k8s_subvol_provisioner.Builder.{BuildPvOptions, build_persistent_volume}
use k8s_subvol_provisioner.Builder.Laws.{build_persistent_volume_cases}
use k8s_subvol_provisioner.Controller.{Controller}
use k8s_subvol_provisioner.Controller.Delete.{delete_options}

module _ {W : Type 0} (c : Controller W) where
  -- A built volume is deleted by the driver that created it, under the dataset name and the mount
  -- path of its creation, and never with a snapshot: the annotation `snapshot-before-delete` of a
  -- claim is not copied to its volume, so whatever the claim asks, the deletion does not see it.
  pub delete_options-build :
      (opts : BuildPvOptions) {pv : Pv}
      → build_persistent_volume opts ≡ ok pv
      → (get pv.annotations ann_subvol_driver ≡ opts.driver_name)
        × (delete_options c pv ≡ record {
          name = opts.dataset_name;
          mount_path = opts.mount_path;
          host_prefix = c.host_prefix;
          snapshot_before_delete = false;
        })
  unfolding delete_options get lookup eq_text codes
  delete_options-build opts e =
      let (pvc, given, same) = build_persistent_volume_cases opts e in rw (← same) (refl, refl)
