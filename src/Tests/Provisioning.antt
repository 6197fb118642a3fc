-- ===== src/Tests/Provisioning.antt =====
-- A claim that is provisioned in a concrete cluster.
use k8s_subvol_provisioner.Base.{ℕ, suc, reverse_onto, ◌≡◌, refl, false, [], ◌∷◌, none}
use k8s_subvol_provisioner.Text.{
  codes, eq_text, is_empty, trim_space, trim, trim_left, trim_right, contains, has_prefix, split,
  split_last, join,
}
use k8s_subvol_provisioner.Paths.{clean, elements, resolve, resolve_all, assemble, is_rooted}
use k8s_subvol_provisioner.Dict.{lookup, get}
use k8s_subvol_provisioner.Errors.{ok}
use k8s_subvol_provisioner.Exec.{◌>>=◌}
use k8s_subvol_provisioner.Kube.{Pvc}
use k8s_subvol_provisioner.Driver.{Driver, VolumeInfo}
use k8s_subvol_provisioner.Template.{
  evaluate_path_template, checked_path, is_slash_or_space, extract_template_context,
  parse_stateful_set_pvc,
}
use k8s_subvol_provisioner.Builder.{volume_of}
use k8s_subvol_provisioner.Controller.{Controller, System}
use k8s_subvol_provisioner.Controller.Guard.{is_in_progress}
use k8s_subvol_provisioner.Controller.Quota.{resolve_quota}
use k8s_subvol_provisioner.Controller.Claim.{
  relative_path, encryption_of, node_of, build_options, reconcile_claim,
}
use k8s_subvol_provisioner.Controller.Claim.Settings.{
  found_for, belongs_to, claim_key, driver_name_of, no_encryption,
}
use k8s_subvol_provisioner.Controller.Claim.Success.{
  CanProvision, EndsProvisioned, reconcile_claim-EndsProvisioned,
}
use k8s_subvol_provisioner.Tests.Samples.{
  external, controller, system, driver, planned_claim, storage_class, released,
}

abbrev info : VolumeInfo
info = record {
  volume_id = codes "tank/data";
  name = codes "tank/data";
  mount_path = codes "/mnt/data";
  attributes = [];
}

abbrev creating : Driver ℕ
creating = record driver { create = λ opts n. (ok info, suc n) }

abbrev able : Controller ℕ
able = record controller { drivers = (codes "zfs", creating) ∷ [] }

abbrev new_claim : Pvc
new_claim = record planned_claim { uid = codes "43" }

abbrev idle : System ℕ
idle = record system { in_progress = [] }

located :
    (s : System ℕ)
    → relative_path external able new_claim storage_class s ≡ (ok (codes "team/data"), s)
unfolding relative_path ◌>>=◌ evaluate_path_template extract_template_context parse_stateful_set_pvc
    checked_path is_slash_or_space trim trim_left trim_right trim_space is_empty codes clean
    elements resolve resolve_all assemble is_rooted split has_prefix contains eq_text join
    reverse_onto get lookup split_last
located s = refl

unlocked :
    (s : System ℕ) → encryption_of external able new_claim storage_class s ≡ (ok no_encryption, s)
unfolding encryption_of ◌>>=◌ lookup eq_text codes
unlocked s = refl

provisionable : CanProvision external able new_claim storage_class 0
unfolding driver_name_of get lookup eq_text is_empty codes resolve_quota node_of
provisionable = record {
  driver = creating;
  path = codes "team/data";
  quota = none;
  encryption = no_encryption;
  info = info;
  made = 1;
  stored =
      volume_of (build_options external able new_claim storage_class (codes "team/data") info)
        new_claim;
  last = 2;
  registered = refl;
  filesystem = refl;
  located = located;
  limited = refl;
  unlocked = unlocked;
  creates = refl;
  placed = λ e. absurd (cc);
  mounted = λ e. absurd (cc);
  stores = refl;
}

-- The look-up gives the volume of another claim.
looked : found_for (ok released) new_claim ≡ false
unfolding found_for belongs_to eq_text codes
looked = refl

free : is_in_progress (claim_key new_claim.namespace new_claim.name) idle.in_progress ≡ false
unfolding is_in_progress lookup
free = refl

reconcile_claim-EndsProvisioned_example :
    EndsProvisioned external able new_claim storage_class provisionable.stored 2
      (reconcile_claim external able new_claim storage_class idle)
unfolding provisionable
reconcile_claim-EndsProvisioned_example =
    reconcile_claim-EndsProvisioned external able new_claim storage_class idle (ok released) free
      refl refl looked provisionable
