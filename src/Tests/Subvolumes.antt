-- ===== src/Tests/Subvolumes.antt =====
-- The btrfs driver on a concrete host.
use k8s_subvol_provisioner.Base.{
  ℕ, suc, ◌≤◌, ◌≡◌, ◌≢◌, refl, Bool, true, false, List, [], ◌∷◌, none, if◌then◌else◌, arith,
  Bool-cases, inl, inr,
}
use k8s_subvol_provisioner.Base.Int.{pos}
use k8s_subvol_provisioner.Text.{Text, codes, eq_text, is_empty}
use k8s_subvol_provisioner.Errors.{ok, err}
use k8s_subvol_provisioner.Exec.{Exec}
use k8s_subvol_provisioner.Driver.{CreateOptions, DeleteOptions}
use k8s_subvol_provisioner.Driver.Laws.{Reads}
use k8s_subvol_provisioner.Btrfs.{
  Btrfs, run, target_path, create, delete, volume_info, new_btrfs, with_options, show_args,
  snapshot_args, delete_args,
}
use k8s_subvol_provisioner.Btrfs.Laws.{IsShown, delete-preserve, create-unlimited}
use k8s_subvol_provisioner.Tests.Samples.{broken}
use k8s_subvol_provisioner.Host.{Host}

abbrev path : Text
path = codes "/mnt/data"

abbrev creation : CreateOptions
creation = record {
  adopt_existing = false;
  name = codes "data";
  mount_path = path;
  host_prefix = [];
  quota_bytes = pos 7;
  owner = none;
  mode = none;
  properties = [];
  encryption = none;
}

abbrev deletion : DeleteOptions
deletion = record {
  name = codes "data";
  mount_path = path;
  host_prefix = [];
  snapshot_before_delete = true;
}

-- A path with or without a subvolume, and how many snapshots of it were taken
pub record Disk : Type 0 where
  pub present : Bool
  pub snapshots : ℕ

-- The two commands on a disk that need the subvolume, by their verb
abbrev on_present : Text → Exec Disk Text
on_present verb disk =
    if eq_text verb (codes "snapshot")
    then (ok [], record disk { snapshots = suc disk.snapshots })
    else if eq_text verb (codes "delete")
    then (ok [], record disk { present = false })
    else if eq_text verb (codes "show")
    then (ok [], disk)
    else (err broken, disk)

abbrev on_absent : Text → Exec Disk Text
on_absent verb disk =
    if eq_text verb (codes "create")
    then (ok [], record disk { present = true })
    else (err broken, disk)

-- Creation needs an absent subvolume, the rest a present one; quotas are refused.
abbrev answer : List Text → Exec Disk Text
answer (group ∷ verb ∷ args) disk =
    if disk.present then on_present verb disk else on_absent verb disk
answer args disk = (err broken, disk)

abbrev disks : Host Disk
disks = record {
  stat = λ path n. (err broken, n);
  chown = λ path uid gid n. (err broken, n);
  chmod = λ path mode n. (err broken, n);
  mkdir_all = λ path mode n. (err broken, n);
  rename = λ old new n. (err broken, n);
  remove_all = λ path n. (err broken, n);
  info = λ path n. (err broken, n);
  walk_dir = λ root f n. (ok tt, n);
  now = λ n. pos 1700;
}

abbrev subvolumes : Btrfs Disk
subvolumes = new_btrfs (record { run = λ input command. answer }) disks []

abbrev filled : Disk
filled = record { present = true; snapshots = 0 }

abbrev blank : Disk
blank = record { present = false; snapshots = 0 }

named : target_path path (codes "data") ≢ []
unfolding target_path is_empty codes
named h = absurd (cc)

-- The creation of a subvolume succeeds though its quota is refused.
create-unlimited_example : (create subvolumes creation blank).0 ≡ ok (volume_info creation)
unfolding run target_path is_empty eq_text codes with_options
create-unlimited_example = create-unlimited subvolumes creation blank named refl refl

show-Reads : Reads (run subvolumes (show_args path))
unfolding run eq_text codes with_options
show-Reads disk = elim (Bool-cases disk.present) [ inl e ↦ rw e refl | inr e ↦ rw e refl ]

snapshot_taken :
    (disk : Disk) (new : Text)
    → IsShown subvolumes path disk
    → 1 ≤ (run subvolumes (snapshot_args path new) disk).1.snapshots
unfolding run eq_text codes with_options
snapshot_taken disk new (out, h) = elim (Bool-cases disk.present) [
  | inl e ↦ rw e (omega arith)
  | inr e ↦ absurd (cc)
]

snapshot_kept :
    (disk : Disk) → 1 ≤ disk.snapshots → 1 ≤ (run subvolumes (delete_args path) disk).1.snapshots
unfolding run eq_text codes with_options
snapshot_kept disk h = elim (Bool-cases disk.present) [ inl e ↦ rw e h | inr e ↦ rw e h ]

-- The subvolume is gone, and there is a snapshot of it.
delete-preserve_example : 1 ≤ (delete subvolumes deletion filled).1.snapshots
unfolding run target_path is_empty eq_text codes with_options
delete-preserve_example =
    delete-preserve subvolumes (λ disk. 1 ≤ disk.snapshots) deletion filled refl named show-Reads
      ([], refl) snapshot_taken snapshot_kept
