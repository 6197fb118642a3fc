-- ===== src/Dir/Paths.antt =====
-- The directory of a volume, at its creation and at its deletion.
use k8s_subvol_provisioner.Base.{Bool}
use k8s_subvol_provisioner.Text.{Text}
use k8s_subvol_provisioner.Exec.Along.{Along}
use k8s_subvol_provisioner.Exec.Agree.{Agree}
use k8s_subvol_provisioner.Host.{Host}
use k8s_subvol_provisioner.Driver.{CreateOptions, DeleteOptions, effective_path}
use k8s_subvol_provisioner.Dir.{target_path, volume_info}

-- The options of a deletion
abbrev pub deletion : Text → Text → Text → Bool → DeleteOptions
deletion name mount_path host_prefix keep = record {
  name = name;
  mount_path = mount_path;
  host_prefix = host_prefix;
  snapshot_before_delete = keep;
}

-- Those for a volume that was created
abbrev deletion_of : CreateOptions → Bool → DeleteOptions
deletion_of opts keep =
    deletion (volume_info opts).name (volume_info opts).mount_path opts.host_prefix keep

module _ {W : Type 0} (h : Host W) where
  -- The directory that a creation and a deletion with these options act on
  abbrev pub directory : CreateOptions → Text
  directory opts = effective_path opts.host_prefix (target_path opts.mount_path opts.name)
