-- ===== src/Tests/Convergence.antt =====
-- A bound claim of a dataset whose quota and property are set, and which is then reconciled again.
use k8s_subvol_provisioner.Base.{
  [], ◌∷◌, ◌++◌, some, none, true, false, Bool, ◌&&◌, if◌then◌else◌, ◌≡◌, refl, reverse_onto,
}
use k8s_subvol_provisioner.Base.Int.{pos, eq_int}
use k8s_subvol_provisioner.Text.{
  codes, eq_text, is_empty, is_space, trim_space, trim, trim_left, trim_right, split, split_first,
  fields, join, has_prefix, contains_char,
}
use k8s_subvol_provisioner.Strconv.{
  format_int, format_nat, parse_int, parse_uint, digits_value, digits_onto,
}
use k8s_subvol_provisioner.Dict.{lookup, get, insert, has_key, overlay}
use k8s_subvol_provisioner.Errors.{ok, err}
use k8s_subvol_provisioner.Exec.{pure, ◌>>=◌}
use k8s_subvol_provisioner.Config.{
  parse_key_value_lines, parse_line, parse_lines, key_value, parse_ownership, parse_file_mode,
}
use k8s_subvol_provisioner.Config.Names.{
  default_provisioner_name, ann_subvol_driver, ann_apply, ann_properties,
}
use k8s_subvol_provisioner.Kube.{Pvc, Client}
use k8s_subvol_provisioner.Zfs.{run, run_zfs_set, run_zfs_inherit}
use k8s_subvol_provisioner.Zfs.Quota.{
  reconcile_quota, current_quota, change_quota, parse_zfs_quota, quota_setting,
}
use k8s_subvol_provisioner.Zfs.Properties.{
  reconcile_properties, get_props, set_all, managed_only, is_managed, is_reconcilable, is_member,
  set_one, parse_props, prop_lines, prop_line, inherit_all, inherit_one, is_locally_set, is_stale,
  prop_setting,
}
use k8s_subvol_provisioner.Zfs.Volumes.{reconciler, driver, reconcile_owner_mode}
use k8s_subvol_provisioner.Controller.{Controller, System, lift}
use k8s_subvol_provisioner.Controller.Guard.{is_in_progress}
use k8s_subvol_provisioner.Controller.Quota.{resolve_quota, resource_storage}
use k8s_subvol_provisioner.Controller.State.{
  state_key, is_true, applies, remove_apply_patch, class_of, desired_properties, owner_mode_options,
  reconcile_volume_state,
}
use k8s_subvol_provisioner.Controller.State.Success.{CanUpdate, is_settled, summary}
use k8s_subvol_provisioner.Controller.State.Convergence.{
  IsOnZfs, IsUndeclared, consumed, reconcile_volume_state_converges,
}
use k8s_subvol_provisioner.Tests.Samples.{external, broken, claim_with, storage_class, built}
use k8s_subvol_provisioner.Tests.Dataset.{
  World, pool, dataset, has, shows, wanted, sets, order, refuses, keeps,
}

abbrev client : Client World
client = record {
  get_pvc = λ namespace name w. (err broken, w);
  list_pvcs = λ w. (ok [], w);
  patch_pvc = λ namespace name patch w. (ok tt, w);
  get_pv = λ name w. (ok built, w);
  list_pvs = λ w. (ok [], w);
  create_pv = λ pv w. (ok pv, w);
  delete_pv = λ name w. (ok tt, w);
  get_storage_class = λ name w. (ok storage_class, w);
  get_secret = λ namespace name w. (err broken, w);
}

abbrev agent : Controller World
agent = record {
  client = client;
  node_name = codes "n1";
  provisioner_name = default_provisioner_name;
  host_prefix = [];
  drivers = (codes "zfs", driver pool) ∷ [];
  has_recorder = true;
  resync_period = 600;
  workers = pos 4;
  listers = none;
}

-- A claim of 5 bytes that asks for the property and authorizes to apply
abbrev claimed : Pvc
claimed =
    record (claim_with ((ann_apply, codes "true") ∷ (ann_properties, codes "sync=disabled") ∷ [])) {
      requests = (resource_storage, record { text = codes "5" }) ∷ [];
    }

authorized : applies claimed (some storage_class) ≡ true
unfolding applies is_true get lookup eq_text codes
authorized = refl

desired : desired_properties claimed (some storage_class) ≡ wanted
unfolding desired_properties overlay insert get lookup eq_text codes parse_key_value_lines
    parse_line key_value trim_space trim trim_left trim_right is_space is_empty split split_first
    has_prefix contains_char parse_lines
desired = refl

class_found : (s : System World) → class_of external agent claimed s ≡ (ok (some storage_class), s)
unfolding class_of ◌>>=◌ lift codes
class_found s = refl

resolved : resolve_quota external claimed ≡ ok (some (pos 5))
unfolding resolve_quota lookup eq_text codes eq_int
resolved = refl

limited_once :
    reconcile_quota pool dataset (some (pos 5)) false (0, 0) ≡ (ok (codes "quota=0→5" ∷ []), (1, 0))
unfolding reconcile_quota current_quota change_quota ◌>>=◌ run run_zfs_set eq_text codes
    parse_zfs_quota is_empty trim_space trim trim_left trim_right is_space eq_int quota_setting
    format_int format_nat digits_onto parse_int parse_uint digits_value
limited_once = refl

set_once :
    reconcile_properties pool dataset wanted false (1, 0)
    ≡ (ok (codes "sync=standard→disabled" ∷ []), (1, 1))
unfolding reconcile_properties ◌>>=◌ get_props run eq_text codes set_all managed_only is_managed
    contains_char is_reconcilable is_member set_one lookup parse_props prop_lines split prop_line
    reverse_onto has_key insert fields has_prefix is_empty is_space join trim trim_left trim_right
    trim_space inherit_all inherit_one is_locally_set is_stale prop_setting run_zfs_inherit
    run_zfs_set
set_once = refl

unowned :
    (dry_run : Bool)
    → reconcile_owner_mode pool (owner_mode_options external agent claimed built dry_run) (1, 0)
      ≡ (ok [], (1, 0))
unfolding reconcile_owner_mode owner_mode_options parse_ownership parse_file_mode trim_space trim
    trim_left trim_right is_empty get lookup eq_text codes pure
unowned dry_run = refl

patched :
    (if is_true claimed.annotations ann_apply
          && is_settled
              (applies claimed (some storage_class))
              (codes "quota=0→5" ∷ codes "sync=standard→disabled" ∷ [])
        then agent.client.patch_pvc claimed.namespace claimed.name remove_apply_patch
        else pure tt)
      (1, 1)
    ≡ (ok tt, (1, 1))
unfolding applies is_true get lookup eq_text codes
patched = refl

can_update : CanUpdate external agent (reconciler pool) claimed built (0, 0)
can_update = record {
  sc = some storage_class;
  quota = some (pos 5);
  quota_changes = codes "quota=0→5" ∷ [];
  owner_changes = [];
  property_changes = codes "sync=standard→disabled" ∷ [];
  limited = (1, 0);
  owned = (1, 0);
  set = (1, 1);
  last = (1, 1);
  classed = class_found;
  resolved = resolved;
  limits = rw authorized limited_once;
  owns = unowned _;
  sets = rw authorized (rw desired set_once);
  cleans = patched;
}

on_zfs : IsOnZfs external agent pool built claimed (0, 0) can_update
unfolding can_update has shows
on_zfs = record {
  shows = shows;
  has = has;
  order = order;
  sets = rw desired sets;
  refuses = refuses;
  keeps = keeps;
  same_text = refl;
  same_quota = refl;
}

undeclared : IsUndeclared claimed
unfolding get lookup eq_text codes
undeclared = record { owner = refl; mode = refl }

abbrev fresh : System World
fresh = record { world = (0, 0); events = []; in_progress = [] }

free : is_in_progress (state_key claimed.namespace claimed.name) fresh.in_progress ≡ false
unfolding is_in_progress lookup
free = refl

registered : lookup (get built.annotations ann_subvol_driver) agent.drivers ≡ some (driver pool)
unfolding get lookup eq_text codes
registered = refl

named : is_empty dataset ≡ false
unfolding get lookup eq_text codes is_empty
named = refl

reconcile_volume_state_converges_example :
    let once = (reconcile_volume_state external agent claimed built fresh).1 in
    let twice = reconcile_volume_state external agent (consumed claimed) built once in
    (twice.0 ≡ ok tt)
    × ((twice.1.world ≡ once.world)
        × (twice.1.events ≡ once.events ++ summary (consumed claimed) true [] ∷ []))
unfolding can_update
reconcile_volume_state_converges_example =
    reconcile_volume_state_converges external agent pool built claimed fresh can_update on_zfs
      authorized undeclared refl free registered named
