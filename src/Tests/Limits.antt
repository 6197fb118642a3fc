-- ===== src/Tests/Limits.antt =====
-- The quota of one dataset, of 5 bytes until the world is changed, and of 7 bytes then.
use k8s_subvol_provisioner.Base.{
  ℕ, zero, suc, List, [], ◌∷◌, ◌++◌, some, true, false, if◌then◌else◌, ◌≡◌, refl, arith,
}
use k8s_subvol_provisioner.Base.Int.{ℤ, pos, IsInt64, eq_int}
use k8s_subvol_provisioner.Text.{
  Text, codes, eq_text, is_empty, is_space, trim_space, trim, trim_left, trim_right,
}
use k8s_subvol_provisioner.Strconv.{
  format_int, format_nat, parse_int, parse_uint, digits_value, digits_onto,
}
use k8s_subvol_provisioner.Errors.{ok, err}
use k8s_subvol_provisioner.Exec.{Exec, ◌>>=◌}
use k8s_subvol_provisioner.Zfs.{Zfs, run, run_zfs_set}
use k8s_subvol_provisioner.Zfs.Quota.{
  reconcile_quota, current_quota, change_quota, parse_zfs_quota, quota_setting,
}
use k8s_subvol_provisioner.Zfs.Quota.Convergence.{HasQuota, reconcile_quota_again}
use k8s_subvol_provisioner.Tests.Samples.{broken}
use k8s_subvol_provisioner.Tests.Storage.{host}

abbrev bytes : ℕ → ℤ
bytes zero = pos 5
bytes (suc n) = pos 7

abbrev answer : List Text → Exec ℕ Text
answer [] n = (err broken, n)
answer (verb ∷ args) n =
    if eq_text verb (codes "get") then (ok (format_int (bytes n) ++ 10 ∷ []), n) else (ok [], 1)

abbrev pool : Zfs ℕ
pool = record {
  zfs_path = codes "zfs";
  executor = record { run = λ stdin path args. answer args };
  host = host;
  range_texts = λ m. m;
  range_props = λ m. m;
}

abbrev name : Text
name = codes "tank/data"

bounded : (n : ℕ) → IsInt64 (bytes n)
bounded zero = omega arith
bounded (suc n) = omega arith

has : HasQuota pool name (some (pos 7))
unfolding run eq_text codes
has = record { quota = bytes; bounded = bounded; read = λ n. refl; set = λ n out h. refl }

set_once : (reconcile_quota pool name (some (pos 7)) false 0).0 ≡ ok (codes "quota=5→7" ∷ [])
unfolding reconcile_quota current_quota change_quota ◌>>=◌ run run_zfs_set eq_text codes
    parse_zfs_quota is_empty trim_space trim trim_left trim_right is_space eq_int quota_setting
    format_int format_nat digits_onto parse_int parse_uint digits_value
set_once = refl

abbrev after : ℕ
after = (reconcile_quota pool name (some (pos 7)) false 0).1

reconcile_quota_again_example :
    (bytes after ≡ pos 7) × (reconcile_quota pool name (some (pos 7)) true after ≡ (ok [], after))
unfolding has
reconcile_quota_again_example =
    reconcile_quota_again pool name (some (pos 7)) has true 0 (codes "quota=5→7" ∷ []) set_once
