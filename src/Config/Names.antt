-- ===== src/Config/Names.antt =====
-- annotations.go
use k8s_subvol_provisioner.Text.{Text, codes}

abbrev pub default_provisioner_name : Text
default_provisioner_name = codes "subvol.io/provisioner"

-- PVC annotations
abbrev pub ann_subvol_path : Text
ann_subvol_path = codes "subvol.io/subvol"

abbrev pub ann_owner : Text
ann_owner = codes "subvol.io/owner"

abbrev pub ann_mode : Text
ann_mode = codes "subvol.io/mode"

abbrev pub ann_recursive : Text
ann_recursive = codes "subvol.io/recursive"

abbrev pub ann_key_location : Text
ann_key_location = codes "subvol.io/key-location"

abbrev pub ann_secret_key_ref : Text
ann_secret_key_ref = codes "subvol.io/secret-key-ref"

abbrev pub ann_snapshot_before_delete : Text
ann_snapshot_before_delete = codes "subvol.io/snapshot-before-delete"

abbrev pub ann_adopt_existing : Text
ann_adopt_existing = codes "subvol.io/adopt-existing"

abbrev pub ann_quota : Text
ann_quota = codes "subvol.io/quota"

abbrev pub ann_properties : Text
ann_properties = codes "subvol.io/properties"

abbrev pub ann_dry_run : Text
ann_dry_run = codes "subvol.io/dry-run"

abbrev pub ann_apply : Text
ann_apply = codes "subvol.io/apply"

abbrev pub ann_selected_node : Text
ann_selected_node = codes "volume.kubernetes.io/selected-node"

-- PV annotations
abbrev pub ann_provisioned_by : Text
ann_provisioned_by = codes "pv.kubernetes.io/provisioned-by"

abbrev pub ann_subvol_driver : Text
ann_subvol_driver = codes "subvol.io/driver"

abbrev pub ann_dataset_name : Text
ann_dataset_name = codes "subvol.io/dataset"

abbrev pub ann_host_mount_path : Text
ann_host_mount_path = codes "subvol.io/mount-path"

-- StorageClass parameters
abbrev pub param_driver : Text
param_driver = codes "driver"

abbrev pub param_node : Text
param_node = codes "node"

abbrev pub param_parent : Text
param_parent = codes "parent"

abbrev pub param_mount_prefix : Text
param_mount_prefix = codes "mountPrefix"

abbrev pub param_path_template : Text
param_path_template = codes "pathTemplate"

abbrev pub param_default_owner : Text
param_default_owner = codes "defaultOwner"

abbrev pub param_default_mode : Text
param_default_mode = codes "defaultMode"

abbrev pub param_auto_apply : Text
param_auto_apply = codes "autoApply"

abbrev pub param_properties : Text
param_properties = codes "properties"

abbrev pub param_encryption : Text
param_encryption = codes "encryption"

abbrev pub param_key_location_secret : Text
param_key_location_secret = codes "keylocationSecret"
