-- ===== src/Tests/Storage.antt =====
-- The zfs driver on a concrete pool. The world outside counts the commands and calls that change
-- a dataset.
use k8s_subvol_provisioner.Base.{
  ℕ, zero, suc, ◌≤◌, ◌≡◌, refl, true, false, List, [], ◌∷◌, ◌++◌, none, some, if◌then◌else◌, ◌||◌,
  arith, reverse_onto,
}
use k8s_subvol_provisioner.Base.Int.{pos}
use k8s_subvol_provisioner.Text.{
  Text, codes, eq_text, is_empty, trim_space, trim, trim_left, trim_right, is_space, split, fields,
  join, has_prefix, contains_char,
}
use k8s_subvol_provisioner.Dict.{Dict, lookup, insert, has_key}
use k8s_subvol_provisioner.Errors.{ok, err}
use k8s_subvol_provisioner.Exec.{Exec, ◌>>=◌}
use k8s_subvol_provisioner.Exec.Along.{Keeps-preorder}
use k8s_subvol_provisioner.Driver.{CreateOptions, DeleteOptions}
use k8s_subvol_provisioner.Driver.Laws.{IsDryRunSafe}
use k8s_subvol_provisioner.Host.{Host, FileInfo}
use k8s_subvol_provisioner.OwnerMode.DryRun.{IsObserving}
use k8s_subvol_provisioner.Zfs.{Zfs, run, run_zfs_set, run_zfs_inherit}
use k8s_subvol_provisioner.Zfs.Properties.{
  reconcile_properties, get_props, set_all, managed_only, is_managed, is_reconcilable, is_member,
  set_one, parse_props, prop_lines, prop_line, inherit_all, inherit_change, inherit_one,
  is_locally_set, is_stale, prop_setting,
}
use k8s_subvol_provisioner.Zfs.Properties.Laws.{
  IsManagedOnly, reconcile_properties-managed, reconcile_properties-plan,
}
use k8s_subvol_provisioner.Zfs.Volumes.{create, delete, reconciler}
use k8s_subvol_provisioner.Config.{EncryptionConfig}
use k8s_subvol_provisioner.Zfs.Volumes.Keys.{with_key, create-with_key}
use k8s_subvol_provisioner.Tests.Samples.{broken}
use k8s_subvol_provisioner.Zfs.Volumes.Laws.{
  reconciler-IsDryRunSafe, create-existing, delete-quarantine,
}

-- What `zfs get` prints, by its second option
abbrev printed : List Text → Text
printed (h ∷ option ∷ args) =
    if eq_text option (codes "-p") then b'5' ∷ 10 ∷ [] else codes "atime\ton\tlocal\n"
printed args = []

abbrev answer : List Text → Exec ℕ Text
answer [] n = (ok [], suc n)
answer (verb ∷ args) n =
    if eq_text verb (codes "get")
    then (ok (printed args), n)
    else if eq_text verb (codes "list") || eq_text verb (codes "rename")
    then (ok [], n)
    else (ok [], suc n)

abbrev file : FileInfo
file = record { is_dir = true; mode = 493; owner = some (record { uid = 0; gid = 0 }) }

-- A file system where a walk meets one file
abbrev pub host : Host ℕ
host = record {
  stat = λ path n. (ok file, n);
  chown = λ path uid gid n. (ok tt, suc n);
  chmod = λ path mode n. (ok tt, suc n);
  mkdir_all = λ path mode n. (ok tt, suc n);
  rename = λ old new n. (ok tt, suc n);
  remove_all = λ path n. (ok tt, suc n);
  info = λ path n. (ok file, n);
  walk_dir = λ root f. f (ok (record { path = root ++ codes "/a"; is_symlink = false }));
  now = λ n. pos 1700;
}

abbrev pool : Zfs ℕ
pool = record {
  zfs_path = codes "zfs";
  executor = record { run = λ stdin path args. answer args };
  host = host;
  range_texts = λ m. m;
  range_props = λ m. m;
}

abbrev name : Text
name = codes "tank/data"

pub observing : IsObserving host
observing = record { stat = λ path w. refl; info = λ path w. refl; walk = λ root f h. h _ }

reconciler-IsDryRunSafe_example : IsDryRunSafe (reconciler pool)
unfolding run eq_text codes
reconciler-IsDryRunSafe_example = reconciler-IsDryRunSafe pool observing (λ n w. refl) (λ n w. refl)

abbrev wanted : Dict Text
wanted = (codes "sync", codes "disabled") ∷ (codes "quota", codes "9") ∷ []

abbrev changed : List Text
changed = codes "sync→disabled" ∷ codes "atime=on→inherit" ∷ []

properties_run :
    ((reconcile_properties pool name wanted true 0).0 ≡ ok changed)
    × ((reconcile_properties pool name wanted false 0).0 ≡ ok changed)
unfolding reconcile_properties ◌>>=◌ get_props run eq_text codes set_all managed_only is_managed
    contains_char is_reconcilable is_member set_one lookup parse_props prop_lines split prop_line
    reverse_onto has_key insert fields has_prefix is_empty is_space join trim trim_left trim_right
    trim_space inherit_all inherit_change inherit_one is_locally_set is_stale prop_setting
    run_zfs_inherit run_zfs_set
properties_run = (refl, refl)

reconcile_properties-plan_example : changed ≡ changed
reconcile_properties-plan_example =
    reconcile_properties-plan pool name wanted 0 changed changed properties_run.0 properties_run.1

growing : IsManagedOnly pool ◌≤◌ name
unfolding run eq_text codes
growing = record {
  preorder = record { reflexive = λ s. omega arith; transitive = λ s t u h k. omega arith };
  read = record { at = λ s. omega arith };
  set = λ k v h. record { at = λ s. omega arith };
  inherit = λ k h. record { at = λ s. omega arith };
}

reconcile_properties-managed_example : 0 ≤ (reconcile_properties pool name wanted false 0).1
reconcile_properties-managed_example =
    reconcile_properties-managed pool name wanted false 0 (λ P m h. h) growing

abbrev create_options : CreateOptions
create_options = record {
  adopt_existing = true;
  name = name;
  mount_path = [];
  host_prefix = [];
  quota_bytes = pos 9;
  owner = none;
  mode = none;
  properties = wanted;
  encryption = none;
}

create-existing_example : (create pool create_options 4).1 ≡ 4
unfolding run eq_text codes
create-existing_example = create-existing pool create_options 4 [] (λ w. refl) (λ w. refl) refl

abbrev encryption : EncryptionConfig
encryption = record { enabled = true; key_format = codes "raw"; key_location = []; key_data = [] }

create-with_key_example :
    create pool (with_key create_options encryption (codes "first")) 4
    ≡ create pool (with_key create_options encryption (codes "second")) 4
unfolding codes
create-with_key_example =
    create-with_key create_options encryption (codes "first") (codes "second") (λ h. absurd (cc))
      (λ h. absurd (cc)) pool (λ input other path args w. refl) 4

abbrev delete_options : DeleteOptions
delete_options = record {
  name = name;
  mount_path = codes "/mnt/data";
  host_prefix = [];
  snapshot_before_delete = true;
}

-- A dataset that is there (0), renamed (1) or destroyed (2): it can be renamed once.
abbrev act : List Text → Exec ℕ Text
act [] n = (ok [], n)
act (verb ∷ args) zero =
    if eq_text verb (codes "list")
    then (ok [], 0)
    else if eq_text verb (codes "rename")
    then (ok [], 1)
    else (ok [], 2)
act (verb ∷ args) (suc n) = (err broken, suc n)

abbrev single : Zfs ℕ
single = record pool { executor = record { run = λ stdin path args. act args } }

delete-quarantine_example : (delete single delete_options 0).1 ≤ 1
unfolding run eq_text codes
delete-quarantine_example =
    delete-quarantine single {R = λ m n. m ≤ 1 → n ≤ 1} delete_options 0
      (Keeps-preorder (λ n. n ≤ 1)) refl (λ h. h) (λ h. omega arith) refl (omega arith)
