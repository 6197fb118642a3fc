-- ===== src/Builder.antt =====
-- pkg/controller/pv_builder.go
pub mod Laws
use k8s_subvol_provisioner.Base.{
  Bool, true, false, List, [], ◌∷◌, ◌++◌, Option, none, some, if◌then◌else◌,
}
use k8s_subvol_provisioner.Text.{Text, codes, is_empty}
use k8s_subvol_provisioner.Dict.{Dict}
use k8s_subvol_provisioner.Errors.{Error, errorf, Result, ok, err}
use k8s_subvol_provisioner.Config.Names.{
  ann_provisioned_by, ann_subvol_driver, ann_dataset_name, ann_host_mount_path,
}
use k8s_subvol_provisioner.Kube.{
  Pvc, Pv, StorageClass, ReclaimPolicy, reclaim_retain, VolumeMode, mode_filesystem, volume_other,
  ObjectReference, Requirement,
}

pub record BuildPvOptions : Type 0 where
  pub pvc : Option Pvc
  pub storage_class : Option StorageClass
  pub provisioner_name : Text
  pub driver_name : Text
  pub dataset_name : Text
  pub mount_path : Text
  pub node_name : Text

abbrev pub hostname_key : Text
hostname_key = codes "kubernetes.io/hostname"

-- `fmt.Sprintf("pvc-%s", pvc.UID)`
unfoldable pub pv_name_of : Text → Text
pv_name_of uid = codes "pvc-" ++ uid

abbrev or_retain : Option ReclaimPolicy → ReclaimPolicy
or_retain none = reclaim_retain
or_retain (some policy) = policy

-- The policy of the storage class, if there is one and it has one.
abbrev reclaim_policy_of : Option StorageClass → ReclaimPolicy
reclaim_policy_of none = reclaim_retain
reclaim_policy_of (some sc) = or_retain sc.reclaim_policy

abbrev or_nil : Option Text → Text
or_nil none = []
or_nil (some s) = s

abbrev access_modes_of : List Text → List Text
access_modes_of [] = codes "ReadWriteOnce" ∷ []
access_modes_of (m ∷ modes) = m ∷ modes

abbrev volume_mode_of : Option VolumeMode → VolumeMode
volume_mode_of none = mode_filesystem
volume_mode_of (some mode) = mode

abbrev pub volume_of : BuildPvOptions → Pvc → Pv
volume_of opts pvc = record {
  name = pv_name_of pvc.uid;
  annotations =
      (ann_provisioned_by, opts.provisioner_name)
      ∷ (ann_subvol_driver, opts.driver_name)
      ∷ (ann_dataset_name, opts.dataset_name)
      ∷ (ann_host_mount_path, opts.mount_path)
      ∷ [];
  phase = volume_other [];
  capacity = pvc.requests;
  access_modes = access_modes_of pvc.access_modes;
  reclaim_policy = reclaim_policy_of opts.storage_class;
  storage_class_name = or_nil pvc.storage_class_name;
  volume_mode = some (volume_mode_of pvc.volume_mode);
  claim_ref = some (record {
    kind = codes "PersistentVolumeClaim";
    api_version = codes "v1";
    namespace = pvc.namespace;
    name = pvc.name;
    uid = pvc.uid;
    resource_version = pvc.resource_version;
  });
  local_path = some opts.mount_path;
  node_affinity = some (
      some (
        (record { key = hostname_key; operator = codes "In"; values = opts.node_name ∷ [] } ∷ [])
        ∷ []));
}

abbrev build_for : BuildPvOptions → Option Pvc → Result Pv
build_for opts none = err (errorf (codes "pvc cannot be nil") [])
build_for opts (some pvc) =
    if is_empty opts.node_name
    then err (errorf (codes "nodeName cannot be empty") [])
    else if is_empty opts.mount_path
    then err (errorf (codes "mountPath cannot be empty") [])
    else ok (volume_of opts pvc)

-- `BuildPersistentVolume`
unfoldable pub build_persistent_volume : BuildPvOptions → Result Pv
build_persistent_volume opts = build_for opts opts.pvc
