-- ===== src/Controller/Claim.antt =====
-- `reconcileClaim`: the provisioning of a pending claim
pub mod Settings
pub mod Effects
pub mod Warnings
pub mod Existing
pub mod Order
pub mod Success
use k8s_subvol_provisioner.Base.{
  Bool, true, false, List, [], ◌∷◌, ◌++◌, Option, none, some, ◌==◌, if◌then◌else◌,
}
use k8s_subvol_provisioner.Base.Int.{ℤ, pos}
use k8s_subvol_provisioner.Text.{Text, codes, eq_text, is_empty, trim, trim_space, trim_suffix}
use k8s_subvol_provisioner.Dict.{Dict, lookup, get, overlay}
use k8s_subvol_provisioner.Paths.{join_path}
use k8s_subvol_provisioner.Errors.{
  Error, errorf, wrapf, Message, format, of_error, str, quoted, Result, ok, err, is_already_exists,
}
use k8s_subvol_provisioner.Exec.{Exec, pure, raise, returned, attempt, ◌>>=◌, ◌>>◌}
use k8s_subvol_provisioner.Config.{
  Ownership, FileMode, EncryptionConfig, parse_ownership, parse_file_mode, parse_key_value_lines,
}
use k8s_subvol_provisioner.Config.Names.{
  ann_subvol_path, ann_owner, ann_mode, ann_properties, ann_key_location, ann_secret_key_ref,
  ann_adopt_existing, ann_selected_node, param_driver, param_path_template, param_parent,
  param_mount_prefix, param_default_owner, param_default_mode, param_properties, param_encryption,
  param_key_location_secret, param_node,
}
use k8s_subvol_provisioner.Kube.{
  Pvc, Pv, StorageClass, VolumeMode, mode_block, ObjectReference, External,
}
use k8s_subvol_provisioner.Driver.{Driver, CreateOptions, VolumeInfo}
use k8s_subvol_provisioner.Template.{extract_template_context, evaluate_path_template}
use k8s_subvol_provisioner.Builder.{BuildPvOptions, build_persistent_volume, pv_name_of}
use k8s_subvol_provisioner.Controller.{
  Controller, System, Object, claim, normal, warning, lift, emit_event, exclusive,
}
use k8s_subvol_provisioner.Controller.Target.{not_nil}
use k8s_subvol_provisioner.Controller.Lookup.{get_pv}
use k8s_subvol_provisioner.Controller.Secrets.{load_secret_key}
use k8s_subvol_provisioner.Controller.Quota.{resolve_quota}
use k8s_subvol_provisioner.Controller.Claim.Settings.{
  claim_object, claim_key, refers_to, belongs_to, found_for, default_to, driver_name_of, is_block,
  dataset_name_of, mount_path_of, or_nil_pointer, setting, owner_of, mode_of, properties_of,
  or_zero, no_encryption, class_encryption, at_location,
}

module _ {W : Type 0} (ext : External) (c : Controller W) where
  -- An event of type Warning about the claim, and the return of an error
  unfoldable pub reject : {A : Type 0} → Pvc → Text → Message → Error → Exec (System W) A
  reject pvc reason message e = do emit_event c (claim_object pvc) warning reason message; raise e

  abbrev accept : {A : Type 0} → Pvc → Text → (Error → Error) → Result A → Exec (System W) A
  accept pvc reason wrap (ok a) = pure a
  accept pvc reason wrap (err e) = reject pvc reason (of_error e) (wrap e)

  -- A call whose error is the message of an event, and is returned, perhaps wrapped.
  abbrev or_reject :
      {A : Type 0} → Pvc → Text → (Error → Error) → Exec (System W) A → Exec (System W) A
  or_reject pvc reason wrap m = do r ← attempt m; accept pvc reason wrap r

  abbrev as_is : Error → Error
  as_is e = e

  abbrev found_driver : Pvc → Text → Option (Driver W) → Exec (System W) (Driver W)
  found_driver pvc name (some d) = pure d
  found_driver pvc name none =
      reject pvc (codes "DriverNotFound")
        (format (codes "Storage driver %q is not registered") (quoted name ∷ []))
        (errorf (codes "storage driver %q is not registered") (quoted name ∷ []))

  unfoldable pub check_volume_mode : Pvc → Exec (System W) (Unit {0})
  check_volume_mode pvc =
      if is_block pvc.volume_mode
      then reject pvc (codes "VolumeModeUnsupported")
          (format
            (codes
              "Raw block volumes are not supported by this provisioner; use a filesystem-mode PVC")
            [])
          (errorf (codes "raw block volume mode is not supported for PVC %s/%s")
            (str pvc.namespace ∷ str pvc.name ∷ []))
      else pure tt

  -- The path relative to the parent: the annotation, or else the template
  unfoldable pub relative_path : Pvc → StorageClass → Exec (System W) Text
  relative_path pvc sc =
      let override = get pvc.annotations ann_subvol_path in
      if is_empty override
      then or_reject pvc (codes "TemplateError")
          (λ e. wrapf (codes "failed to evaluate path template: %w") [] e)
          (returned (
            evaluate_path_template ext (get sc.parameters param_path_template)
              (extract_template_context pvc sc.name)))
      else pure override

  unfoldable pub load_secret : Pvc → Text → Exec (System W) Text
  load_secret pvc ref =
      or_reject pvc (codes "SecretLoadFailed") as_is (load_secret_key c pvc.namespace ref)

  -- The secret that a parameter of the class names
  abbrev location_from_secret :
      Pvc → Option Text → EncryptionConfig → Exec (System W) EncryptionConfig
  location_from_secret pvc none e = pure e
  location_from_secret pvc (some ref) e = do
    value ← load_secret pvc ref
    pure (at_location (not_nil (some (trim_space value))) e)

  -- The secret that an annotation of the claim names
  abbrev key_from_secret : Pvc → Option Text → EncryptionConfig → Exec (System W) EncryptionConfig
  key_from_secret pvc none e = pure e
  key_from_secret pvc (some ref) e = do
    value ← load_secret pvc ref
    pure (record e { enabled = true; key_data = value })

  unfoldable pub encryption_of : Pvc → StorageClass → Exec (System W) EncryptionConfig
  encryption_of pvc sc = do
    let base = class_encryption (not_nil (lookup param_encryption sc.parameters))
    e ← location_from_secret pvc (not_nil (lookup param_key_location_secret sc.parameters)) base
    key_from_secret pvc (not_nil (lookup ann_secret_key_ref pvc.annotations))
        (at_location (not_nil (lookup ann_key_location pvc.annotations)) e)

  unfoldable pub is_adopting : Pvc → Bool
  is_adopting pvc = eq_text (get pvc.annotations ann_adopt_existing) (codes "true")

  unfoldable pub create_options :
      Pvc → StorageClass → Text → Option ℤ → EncryptionConfig → CreateOptions
  create_options pvc sc rel_path quota encryption = record {
    adopt_existing = is_adopting pvc;
    name = dataset_name_of sc rel_path;
    mount_path = mount_path_of sc rel_path;
    host_prefix = c.host_prefix;
    quota_bytes = or_zero quota;
    owner = owner_of pvc sc;
    mode = mode_of pvc sc;
    properties = properties_of pvc sc;
    encryption = some encryption;
  }

  abbrev or_node : Option Text → Option Text → Text
  or_node (some selected) param = selected
  or_node none (some node) = node
  or_node none none = []

  unfoldable pub node_of : Pvc → StorageClass → Text
  node_of pvc sc =
      if is_empty c.node_name
      then or_node (not_nil (lookup ann_selected_node pvc.annotations))
          (not_nil (lookup param_node sc.parameters))
      else c.node_name

  unfoldable pub build_options : Pvc → StorageClass → Text → VolumeInfo → BuildPvOptions
  build_options pvc sc rel_path info = record {
    pvc = some pvc;
    storage_class = some sc;
    provisioner_name = c.provisioner_name;
    driver_name = driver_name_of sc;
    dataset_name = info.name;
    mount_path = default_to (mount_path_of sc rel_path) info.mount_path;
    node_name = node_of pvc sc;
  }

  unfoldable pub announce_adoption : Pvc → VolumeInfo → Exec (System W) (Unit {0})
  announce_adoption pvc info =
      if is_adopting pvc
      then emit_event c (claim_object pvc) normal (codes "VolumeAdopted") (
          format (codes "Adopted existing dataset %q without modification") (quoted info.name ∷ []))
      else pure tt

  -- The second look at a volume that could not be created since it exists
  abbrev reused : Pvc → Error → Result Pv → Exec (System W) Pv
  reused pvc e (err e') = reject pvc (codes "PVCreateFailed") (of_error e) e
  reused pvc e (ok existing) =
      if belongs_to existing pvc
      then pure existing
      else reject pvc (codes "PVCreateFailed") (of_error e) e

  abbrev reuse : Pvc → Pv → Error → Exec (System W) Pv
  reuse pvc pv e = do r ← attempt (get_pv c pv.name); reused pvc e r

  abbrev created : Pvc → Pv → Result Pv → Exec (System W) Pv
  created pvc pv (ok new) = pure new
  created pvc pv (err e) =
      if is_already_exists e
      then reuse pvc pv e
      else reject pvc (codes "PVCreateFailed") (of_error e) e

  unfoldable pub create_volume : Pvc → Pv → Exec (System W) Pv
  create_volume pvc pv = do r ← attempt (lift (c.client.create_pv pv)); created pvc pv r

  -- What follows the check for an existing volume
  unfoldable pub provision : Pvc → StorageClass → Exec (System W) (Unit {0})
  provision pvc sc = do
    d ← found_driver pvc (driver_name_of sc) (lookup (driver_name_of sc) c.drivers)
    check_volume_mode pvc
    rel_path ← relative_path pvc sc
    quota ← or_reject pvc (codes "QuotaResolutionFailed") as_is (returned (resolve_quota ext pvc))
    encryption ← encryption_of pvc sc
    let opts = create_options pvc sc rel_path quota encryption
    info ← or_reject pvc (codes "ProvisioningFailed") as_is (lift (d.create opts))
    announce_adoption pvc info
    let built = build_persistent_volume (build_options pvc sc rel_path info)
    pv ← or_reject pvc (codes "PVBuildFailed") as_is (returned built)
    new ← create_volume pvc pv
    emit_event c (claim_object pvc) normal (codes "ProvisioningSucceeded")
        (format (codes "Successfully provisioned volume %s") (str new.name ∷ []))

  unfoldable pub claim_body : Pvc → StorageClass → Exec (System W) (Unit {0})
  claim_body pvc sc = do
    existing ← attempt (get_pv c (pv_name_of pvc.uid))
    if found_for existing pvc then pure tt else provision pvc sc

  unfoldable pub reconcile_claim : Pvc → StorageClass → Exec (System W) (Unit {0})
  reconcile_claim pvc sc = exclusive (claim_key pvc.namespace pvc.name) (claim_body pvc sc)
