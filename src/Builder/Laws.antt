-- ===== src/Builder/Laws.antt =====
-- What a built volume holds.
use k8s_subvol_provisioner.Base.{◌≡◌, ◌≢◌, refl, [], Option, none, some, arith}
use k8s_subvol_provisioner.Text.Equality.{is_empty_iff}
use k8s_subvol_provisioner.Errors.{ok}
use k8s_subvol_provisioner.Kube.{Pvc, Pv}
use k8s_subvol_provisioner.Builder.{BuildPvOptions, build_persistent_volume, build_for, volume_of}

build_for_cases :
    (opts : BuildPvOptions) (o : Option Pvc) {pv : Pv}
    → build_for opts o ≡ ok pv
    → (pvc : Pvc) × (o ≡ some pvc) × (volume_of opts pvc ≡ pv)
build_for_cases opts none h = absurd (cc)
build_for_cases opts (some pvc) h = (pvc, refl, ground arith)

-- A volume that is built is built from the claim.
pub build_persistent_volume_cases :
    (opts : BuildPvOptions) {pv : Pv}
    → build_persistent_volume opts ≡ ok pv
    → (pvc : Pvc) × (opts.pvc ≡ some pvc) × (volume_of opts pvc ≡ pv)
unfolding build_persistent_volume
build_persistent_volume_cases opts h = build_for_cases opts opts.pvc h

-- A volume is built if there is a claim, and neither the node nor the mount path is empty.
pub build_persistent_volume-volume_of :
    (opts : BuildPvOptions) (pvc : Pvc)
    → opts.pvc ≡ some pvc
    → opts.node_name ≢ []
    → opts.mount_path ≢ []
    → build_persistent_volume opts ≡ ok (volume_of opts pvc)
unfolding build_persistent_volume
build_persistent_volume-volume_of opts pvc e h k =
    rw e (ground (arith, is_empty_iff opts.node_name, is_empty_iff opts.mount_path))
