-- ===== src/Zfs/Quota.antt =====
-- `parseZFSQuota` and `ReconcileQuota` of zfs.go
pub mod Laws
pub mod Convergence
use k8s_subvol_provisioner.Base.{
  Bool, true, false, ◌||◌, List, [], ◌∷◌, ◌++◌, Option, none, some, if◌then◌else◌,
}
use k8s_subvol_provisioner.Base.Int.{ℤ, pos, eq_int}
use k8s_subvol_provisioner.Text.{Text, codes, eq_text, is_empty, trim_space, arrow}
use k8s_subvol_provisioner.Strconv.{parse_int, format_int}
use k8s_subvol_provisioner.Errors.{Error, errorf, wrapf, quoted, num, Result, ok, err}
use k8s_subvol_provisioner.Exec.{Exec, pure, raise, returned, attempt, ◌>>=◌, ◌>>◌, wrapping}
use k8s_subvol_provisioner.Zfs.{Zfs, run, run_zfs_set}

-- The error of `strconv.ParseInt`
abbrev invalid_number : Text → Error
invalid_number s = errorf (codes "strconv.ParseInt: parsing %s") (quoted s ∷ [])

abbrev number_or_error : Text → Option ℤ → Result ℤ
number_or_error s none = err (invalid_number s)
number_or_error s (some n) = ok n

unfoldable pub parse_zfs_quota : Text → Result ℤ
parse_zfs_quota s =
    let t = trim_space s in
    if is_empty t || eq_text t (codes "-") || eq_text t (codes "0") || eq_text t (codes "none")
    then ok (pos 0)
    else number_or_error t (parse_int t)

-- `fmt.Sprintf("quota=%d", n)`
unfoldable pub quota_setting : ℤ → Text
quota_setting n = codes "quota=" ++ format_int n

abbrev pub quota_none : Text
quota_none = codes "quota=none"

module _ {W : Type 0} (d : Zfs W) where
  abbrev pub quota_args : Text → List Text
  quota_args name =
      codes "get" ∷ codes "-H" ∷ codes "-p" ∷ codes "-o" ∷ codes "value" ∷ codes "quota" ∷ name ∷ []

  -- What follows the reading of the current quota
  unfoldable pub change_quota : Text → Option ℤ → Bool → ℤ → Exec W (List Text)
  change_quota name none dry_run current = if eq_int current (pos 0) then pure [] else (do
    wrapping (wrapf (codes "failed to unset quota of zfs dataset %q: %w") (quoted name ∷ []))
        (run_zfs_set d dry_run name quota_none)
    pure ((quota_setting current ++ (arrow ++ codes "none")) ∷ []))
  change_quota name (some quota) dry_run current = if eq_int current quota then pure [] else (do
    wrapping
        (wrapf (codes "failed to set quota of zfs dataset %q to %d: %w")
          (quoted name ∷ num quota ∷ []))
        (run_zfs_set d dry_run name (quota_setting quota))
    pure ((quota_setting current ++ (arrow ++ format_int quota)) ∷ []))

  -- The quota that the dataset has
  unfoldable pub current_quota : Text → Exec W ℤ
  current_quota name = do
    out ←
        wrapping (wrapf (codes "failed to read quota of zfs dataset %q: %w") (quoted name ∷ []))
          (run d [] (quota_args name))
    wrapping (wrapf (codes "failed to parse quota of zfs dataset %q: %w") (quoted name ∷ []))
        (returned (parse_zfs_quota out))

  -- `ReconcileQuota`
  unfoldable pub reconcile_quota : Text → Option ℤ → Bool → Exec W (List Text)
  reconcile_quota name quota dry_run = do
    current ← current_quota name
    change_quota name quota dry_run current
