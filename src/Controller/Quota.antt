-- ===== src/Controller/Quota.antt =====
-- `resolveQuota`
use k8s_subvol_provisioner.Base.{[], ◌∷◌, Option, none, some, ◌||◌, if◌then◌else◌}
use k8s_subvol_provisioner.Base.Int.{ℤ, pos, eq_int}
use k8s_subvol_provisioner.Text.{Text, codes, eq_text, trim_space}
use k8s_subvol_provisioner.Dict.{lookup}
use k8s_subvol_provisioner.Errors.{wrapf, str, quoted, Result, ok, err}
use k8s_subvol_provisioner.Config.Names.{ann_quota}
use k8s_subvol_provisioner.Kube.{Pvc, Quantity, External}

abbrev pub dummy_storage_request : ℤ
dummy_storage_request = pos 1

abbrev pub resource_storage : Text
resource_storage = codes "storage"

module _ (ext : External) where
  abbrev quantity_of : Text → Result Quantity → Result (Option ℤ)
  quantity_of raw (ok q) = ok (some (ext.quantity_value q))
  quantity_of raw (err e) =
      err (wrapf (codes "invalid %s annotation %q: %w") (str ann_quota ∷ quoted raw ∷ []) e)

  abbrev annotated_quota : Text → Result (Option ℤ)
  annotated_quota raw =
      if eq_text raw (codes "none") || eq_text raw (codes "unlimited")
      then ok none
      else quantity_of raw (ext.parse_quantity raw)

  abbrev requested_quota : Option Quantity → Option ℤ
  requested_quota none = none
  requested_quota (some q) =
      if eq_int (ext.quantity_value q) dummy_storage_request
      then none
      else some (ext.quantity_value q)

  abbrev quota_from : Option Text → Option Quantity → Result (Option ℤ)
  quota_from (some raw) request = annotated_quota (trim_space raw)
  quota_from none request = ok (requested_quota request)

  unfoldable pub resolve_quota : Pvc → Result (Option ℤ)
  resolve_quota pvc =
      quota_from (lookup ann_quota pvc.annotations) (lookup resource_storage pvc.requests)
