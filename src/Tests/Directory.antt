-- ===== src/Tests/Directory.antt =====
-- The directory driver on a concrete host.
use k8s_subvol_provisioner.Base.{
  ℕ, suc, ◌≡◌, refl, sym, ap, ◌∙◌, Bool, true, false, if◌then◌else◌, [], ◌∷◌, Option, none, some,
  arith, reverse_onto,
}
use k8s_subvol_provisioner.Base.Int.{pos}
use k8s_subvol_provisioner.Text.{
  Text, codes, eq_text, is_empty, split, trim_space, trim, trim_right, trim_left, is_space,
  split_first, has_prefix, contains_char,
}
use k8s_subvol_provisioner.Strconv.{parse_int, parse_uint, digits_value}
use k8s_subvol_provisioner.Config.{
  parse_ownership, parse_file_mode, parse_key_value_lines, parse_lines, parse_line, key_value,
}
use k8s_subvol_provisioner.Errors.{foreign, not_exist, Result, err, ok, is_not_exist}
use k8s_subvol_provisioner.Exec.{Exec, raise, ◌>>=◌}
use k8s_subvol_provisioner.Host.{Host, FileInfo}
use k8s_subvol_provisioner.Driver.{CreateOptions, Reconciler, effective_path}
use k8s_subvol_provisioner.Dir.{
  dir_reconciler, reconcile_quota, reconcile_owner_mode, reconcile_properties,
}
use k8s_subvol_provisioner.Dict.{get, lookup, insert, overlay}
use k8s_subvol_provisioner.Config.Names.{ann_apply, ann_quota, ann_owner, ann_properties}
use k8s_subvol_provisioner.Kube.{Pvc, StorageClass}
use k8s_subvol_provisioner.OwnerMode.{reconcile_owner_mode_at_path}
use k8s_subvol_provisioner.Controller.{lift}
use k8s_subvol_provisioner.Controller.Quota.{resolve_quota}
use k8s_subvol_provisioner.Controller.State.{
  class_of, reconcile_with, owner_mode_options, desired_properties,
}
use k8s_subvol_provisioner.Controller.State.Failures.{AllFail, EndsUpToDate, reconcile_with-AllFail}
use k8s_subvol_provisioner.Tests.Storage.{host}
use k8s_subvol_provisioner.Tests.Samples.{
  broken, external, controller, system, applied_claim, storage_class, built,
}

-- A host with one directory under /host, which is there or not, and how often another path was touched
pub record Disk : Type 0 where
  pub present : Bool
  pub strays : ℕ

abbrev place : Text
place = codes "/host/srv/data"

abbrev file : FileInfo
file = record { is_dir = true; mode = 488; owner = none }

abbrev stray : {A : Type 0} → Exec Disk A
stray disk = (err broken, record disk { strays = suc disk.strays })

abbrev looked : Bool → Result FileInfo
looked present = if present then ok file else err (foreign not_exist [])

abbrev disks : Host Disk
disks = record {
  stat = λ path disk. if eq_text path place then (looked disk.present, disk) else stray disk;
  chown = λ path uid gid disk. if eq_text path place then (ok tt, disk) else stray disk;
  chmod = λ path mode disk. if eq_text path place then (ok tt, disk) else stray disk;
  mkdir_all = λ path mode disk.
      if eq_text path place then (ok tt, record disk { present = true }) else stray disk;
  rename = λ old new disk.
      if eq_text old place then (ok tt, record disk { present = false }) else stray disk;
  remove_all = λ path disk.
      if eq_text path place then (ok tt, record disk { present = false }) else stray disk;
  info = λ path disk. stray disk;
  walk_dir = λ root f walk. (ok tt, walk);
  now = λ disk. pos 1700;
}

abbrev options : CreateOptions
options = record {
  adopt_existing = false;
  name = codes "data";
  mount_path = codes "/srv/data";
  host_prefix = codes "/host";
  quota_bytes = pos 0;
  owner = some (record { uid = pos 1000; gid = pos 1000 });
  mode = none;
  properties = [];
  encryption = none;
}

abbrev untouched : Disk
untouched = record { present = false; strays = 0 }

abbrev SameStrays : Disk → Disk → Type 0
SameStrays s t = t.strays ≡ s.strays

abbrev IsGone : Disk → Type 0
IsGone disk = disk.present ≡ false

abbrev IsMade : Disk → Type 0
IsMade disk = disk.present ≡ true

abbrev present : Disk
present = record { present = true; strays = 0 }

-- A claim that asks for a quota, an owner and a property
abbrev demanding : Pvc
demanding = record applied_claim {
  annotations =
      (ann_apply, codes "true")
      ∷ (ann_quota, codes "5Gi")
      ∷ (ann_owner, codes "1000:1000")
      ∷ (ann_properties, codes "compression=lz4")
      ∷ [];
}

ok-injective : {A : Type 0} {a b : A} → ok a ≡ ok b → a ≡ b
ok-injective h = ground arith

-- A host whose files cannot be looked at
abbrev locked : Host ℕ
locked = record host { stat = λ path n. (err broken, n) }

abbrev directories : Reconciler ℕ
directories = dir_reconciler locked

demanding-AllFail :
    AllFail external controller directories demanding built (some storage_class) (some (pos 5)) 0
unfolding reconcile_quota reconcile_owner_mode reconcile_owner_mode_at_path reconcile_properties
    owner_mode_options desired_properties get lookup eq_text codes raise parse_ownership is_empty
    trim_space trim trim_right trim_left is_space split parse_int parse_uint digits_value ◌>>=◌
    is_not_exist overlay parse_key_value_lines parse_lines parse_line key_value split_first
    reverse_onto insert parse_file_mode has_prefix contains_char effective_path
demanding-AllFail = record {
  quota_fails = (_, refl);
  owner_mode_fails = (_, refl);
  properties_fail = (_, refl);
  removes = (tt, refl);
}

classed : class_of external controller demanding system ≡ (ok (some storage_class), system)
unfolding class_of ◌>>=◌ lift trim_space trim trim_right trim_left is_space codes
classed = refl

demanded_of :
    (sc : Option StorageClass)
    → (class_of external controller demanding system).0 ≡ ok sc
    → AllFail external controller directories demanding built sc
        (some (pos 5))
        (class_of external controller demanding system).1.world
demanded_of sc found =
    rw (← ok-injective (sym (ap (λ r. r.0) classed) ∙ found)) (rw classed demanding-AllFail)

reconcile_with-AllFail_example :
    EndsUpToDate external controller demanding
      (reconcile_with external controller directories demanding built system)
unfolding resolve_quota lookup eq_text codes trim_space trim trim_right trim_left is_space
reconcile_with-AllFail_example =
    reconcile_with-AllFail external controller directories demanding built system (some (pos 5))
      demanded_of refl refl
