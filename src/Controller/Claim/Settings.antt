-- ===== src/Controller/Claim/Settings.antt =====
-- What `reconcileClaim` reads of a claim, its storage class and its volume
use k8s_subvol_provisioner.Base.{
  Bool, true, false, [], ◌∷◌, ◌++◌, Option, none, some, ◌==◌, if◌then◌else◌,
}
use k8s_subvol_provisioner.Base.Int.{ℤ, pos}
use k8s_subvol_provisioner.Text.{Text, codes, eq_text, is_empty, trim, trim_suffix}
use k8s_subvol_provisioner.Dict.{Dict, get, overlay}
use k8s_subvol_provisioner.Paths.{join_path}
use k8s_subvol_provisioner.Errors.{Result, ok, err}
use k8s_subvol_provisioner.Config.{
  Ownership, FileMode, EncryptionConfig, parse_ownership, parse_file_mode, parse_key_value_lines,
}
use k8s_subvol_provisioner.Config.Names.{
  ann_owner, ann_mode, ann_properties, param_driver, param_parent, param_mount_prefix,
  param_default_owner, param_default_mode, param_properties,
}
use k8s_subvol_provisioner.Kube.{Pvc, Pv, StorageClass, VolumeMode, mode_block, ObjectReference}
use k8s_subvol_provisioner.Controller.{Object, claim}

abbrev pub claim_object : Pvc → Object
claim_object pvc = claim pvc.namespace pvc.name

-- `fmt.Sprintf("pvc:%s/%s", pvc.Namespace, pvc.Name)`
unfoldable pub claim_key : Text → Text → Text
claim_key namespace name = codes "pvc:" ++ (namespace ++ b'/' ∷ name)

abbrev pub refers_to : Option ObjectReference → Text → Bool
refers_to none uid = false
refers_to (some ref) uid = eq_text ref.uid uid

-- `pv.Spec.ClaimRef != nil && pv.Spec.ClaimRef.UID == pvc.UID`
unfoldable pub belongs_to : Pv → Pvc → Bool
belongs_to pv pvc = refers_to pv.claim_ref pvc.uid

-- `err == nil` and the volume belongs to the claim
unfoldable pub found_for : Result Pv → Pvc → Bool
found_for (ok pv) pvc = belongs_to pv pvc
found_for (err e) pvc = false

abbrev pub default_to : Text → Text → Text
default_to fallback s = if is_empty s then fallback else s

unfoldable pub driver_name_of : StorageClass → Text
driver_name_of sc = default_to (codes "zfs") (get sc.parameters param_driver)

abbrev pub is_block : Option VolumeMode → Bool
is_block (some mode_block) = true
is_block (some _) = false
is_block none = false

unfoldable pub dataset_name_of : StorageClass → Text → Text
dataset_name_of sc rel_path =
    let parent = trim (λ c. c == b'/') (get sc.parameters param_parent) in
    if is_empty parent then rel_path else parent ++ b'/' ∷ rel_path

unfoldable pub mount_path_of : StorageClass → Text → Text
mount_path_of sc rel_path =
    let prefix = trim_suffix (get sc.parameters param_mount_prefix) b'/' in
    if is_empty prefix then [] else join_path prefix rel_path

-- `v, _ := f(s)`: a nil pointer where there is an error
abbrev pub or_nil_pointer {ℓ} : {A : Type ℓ} → Result (Option A) → Option A
or_nil_pointer (ok v) = v
or_nil_pointer (err e) = none

-- A PVC annotation, or where it is empty a parameter of the storage class
abbrev pub setting : Pvc → StorageClass → Text → Text → Text
setting pvc sc annotation parameter =
    default_to (get sc.parameters parameter) (get pvc.annotations annotation)

unfoldable pub owner_of : Pvc → StorageClass → Option Ownership
owner_of pvc sc = or_nil_pointer (parse_ownership (setting pvc sc ann_owner param_default_owner))

unfoldable pub mode_of : Pvc → StorageClass → Option FileMode
mode_of pvc sc = or_nil_pointer (parse_file_mode (setting pvc sc ann_mode param_default_mode))

unfoldable pub properties_of : Pvc → StorageClass → Dict Text
properties_of pvc sc =
    overlay (parse_key_value_lines (get sc.parameters param_properties))
      (parse_key_value_lines (get pvc.annotations ann_properties))

abbrev pub or_zero : Option ℤ → ℤ
or_zero none = pos 0
or_zero (some q) = q

abbrev pub no_encryption : EncryptionConfig
no_encryption = record { enabled = false; key_format = []; key_location = []; key_data = [] }

-- The `encryption` parameter
abbrev pub class_encryption : Option Text → EncryptionConfig
class_encryption none = no_encryption
class_encryption (some raw) =
    let m = parse_key_value_lines raw in
    record {
      enabled = true;
      key_format = get m (codes "keyformat");
      key_location = get m (codes "keylocation");
      key_data = [];
    }

-- A key location that is not empty replaces the one so far.
abbrev pub at_location : Option Text → EncryptionConfig → EncryptionConfig
at_location none e = e
at_location (some loc) e = record e { enabled = true; key_location = loc }
