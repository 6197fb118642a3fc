-- ===== src/Tests/Properties.antt =====
-- The properties of one dataset, of which one property is shown. The world outside is 0 until it is
-- set.
use k8s_subvol_provisioner.Base.{
  ℕ, zero, suc, true, false, List, [], ◌∷◌, some, if◌then◌else◌, ◌≡◌, ◌≢◌, refl, sym, All,
  reverse_onto,
}
use mathlib.Core.List.Permᴰ
use k8s_subvol_provisioner.Text.{
  Text, codes, eq_text, is_empty, trim_space, trim, trim_left, trim_right, is_space, split, fields,
  join, has_prefix, contains_char,
}
use k8s_subvol_provisioner.Text.Equality.{eq_text_ne}
use k8s_subvol_provisioner.Dict.{Dict, lookup, insert, has_key}
use k8s_subvol_provisioner.Dict.Laws.{NodupKeys}
use k8s_subvol_provisioner.Errors.{ok, err}
use k8s_subvol_provisioner.Exec.{Exec, ◌>>=◌}
use k8s_subvol_provisioner.Zfs.{Zfs, run, run_zfs_set, run_zfs_inherit}
use k8s_subvol_provisioner.Zfs.Properties.{
  reconcile_properties, get_props, set_all, managed_only, is_managed, is_reconcilable, is_member,
  set_one, parse_props, prop_lines, prop_line, inherit_all, inherit_one, is_locally_set, is_stale,
  prop_setting,
}
use k8s_subvol_provisioner.Zfs.Properties.Inherit.{RefusesInherit}
use k8s_subvol_provisioner.Zfs.Properties.Loops.{InSomeOrder}
use k8s_subvol_provisioner.Zfs.Properties.Convergence.{
  Shows, view, IsAssigned, SetsAsWritten, IsReached, reconcile_properties_again,
  reconcile_properties-stale,
}
use k8s_subvol_provisioner.Tests.Samples.{broken}
use k8s_subvol_provisioner.Tests.Storage.{host}

abbrev pub printed : ℕ → Text
printed zero = codes "sync\tstandard\tdefault\n"
printed (suc n) = codes "sync\tdisabled\tlocal\n"

abbrev answer : List Text → Exec ℕ Text
answer [] n = (err broken, n)
answer (verb ∷ args) n =
    if eq_text verb (codes "get")
    then (ok (printed n), n)
    else if eq_text verb (codes "set")
    then (ok [], 1)
    else (err broken, n)

abbrev pool : Zfs ℕ
pool = record {
  zfs_path = codes "zfs";
  executor = record { run = λ stdin path args. answer args };
  host = host;
  range_texts = λ m. m;
  range_props = λ m. m;
}

abbrev name : Text
name = codes "tank/data"

abbrev wanted : Dict Text
wanted = (codes "sync", codes "disabled") ∷ []

shows : Shows pool name
unfolding run eq_text codes
shows = record { text = printed; read = λ w. refl }

-- The lines that `zfs get` prints, as properties
pub opened :
    (parse_props (printed 0)
      ≡ (codes "sync", record { value = codes "standard"; source = codes "default" }) ∷ [])
    × ((n : ℕ)
        → parse_props (printed (suc n))
          ≡ (codes "sync", record { value = codes "disabled"; source = codes "local" }) ∷ [])
unfolding parse_props prop_lines split prop_line reverse_onto insert fields is_empty is_space trim
    trim_left trim_right trim_space codes eq_text
opened = (refl, λ n. refl)

pub others :
    (j : Text) (n : ℕ)
    → j ≢ codes "sync"
    → lookup j (parse_props (printed 1)) ≡ lookup j (parse_props (printed n))
unfolding lookup
others j zero ne =
    rw opened.0 (rw (opened.1 0) (rw (eq_text_ne (codes "sync") j (λ e. ne (sym e))) refl))
others j (suc n) ne = rw (opened.1 0) refl

sync_set : (n : ℕ) → IsAssigned pool name shows (codes "sync") (codes "disabled") n 1
unfolding lookup eq_text codes shows
sync_set n = (rw (opened.1 0) refl, λ j ne. others j n ne)

sets : All (SetsAsWritten pool name shows) (managed_only wanted)
unfolding managed_only is_managed contains_char is_reconcilable is_member run eq_text codes
sets = (λ n out h. sync_set n, tt)

wanted-NodupKeys : NodupKeys wanted
unfolding has_key
wanted-NodupKeys = (refl, tt)

order : InSomeOrder pool
order = record { texts = λ m. Permᴰ.refl m; props = λ m. Permᴰ.refl m }

refuses : RefusesInherit pool name
unfolding run eq_text codes
refuses k n = (broken, refl)

set_once :
    (reconcile_properties pool name wanted false 0).0 ≡ ok (codes "sync=standard→disabled" ∷ [])
unfolding reconcile_properties ◌>>=◌ get_props run eq_text codes set_all managed_only is_managed
    contains_char is_reconcilable is_member set_one lookup parse_props prop_lines split prop_line
    reverse_onto has_key insert fields has_prefix is_empty is_space join trim trim_left trim_right
    trim_space inherit_all inherit_one is_locally_set is_stale prop_setting run_zfs_inherit
    run_zfs_set
set_once = refl

reconcile_properties_again_example :
    IsReached pool name shows wanted (reconcile_properties pool name wanted false 0).1
    × (reconcile_properties pool name wanted true (reconcile_properties pool name wanted false 0).1
        ≡ (ok [], (reconcile_properties pool name wanted false 0).1))
reconcile_properties_again_example =
    reconcile_properties_again pool name shows wanted true 0 (codes "sync=standard→disabled" ∷ [])
      order wanted-NodupKeys sets refuses set_once

-- The property that is set, and no longer asked for
stale :
    is_stale
      (managed_only [])
      (codes "sync")
      (record { value = codes "disabled"; source = codes "local" })
    ≡ true
unfolding is_stale is_managed contains_char is_reconcilable is_member is_locally_set has_prefix
    has_key managed_only eq_text codes
stale = refl

found :
    lookup (codes "sync") (view pool name shows 1)
    ≡ some (record { value = codes "disabled"; source = codes "local" })
unfolding lookup eq_text codes shows
found = rw (opened.1 0) refl

reconcile_properties-stale_example : (reconcile_properties pool name [] false 1).0 ≢ ok []
reconcile_properties-stale_example =
    reconcile_properties-stale pool name shows [] 1 [] (codes "sync")
      (record { value = codes "disabled"; source = codes "local" }) order refuses found stale
