-- ===== src/Tests/Ownership.antt =====
-- Two nodes, a released volume, and a driver that cannot create, in a concrete cluster.
use k8s_subvol_provisioner.Base.{
  ℕ, zero, suc, Bool, ◌≡◌, ◌⊎◌, refl, true, false, if◌then◌else◌, [], ◌∷◌, some, arith,
}
use k8s_subvol_provisioner.Text.{Text, codes, eq_text, is_empty}
use k8s_subvol_provisioner.Dict.{Dict, lookup, get}
use k8s_subvol_provisioner.Errors.{ok, err}
use k8s_subvol_provisioner.Exec.Along.{Along, Same, Same-preorder}
use k8s_subvol_provisioner.Exec.{Exec, ◌>>=◌}
use k8s_subvol_provisioner.Config.Names.{ann_subvol_path}
use k8s_subvol_provisioner.Controller.Quota.{resolve_quota}
use k8s_subvol_provisioner.Kube.{Pvc, Pv, volume_released}
use k8s_subvol_provisioner.Driver.{Driver, CreateOptions, VolumeInfo}
use k8s_subvol_provisioner.Builder.{build_persistent_volume, volume_of}
use k8s_subvol_provisioner.Controller.{Controller, System, lift}
use k8s_subvol_provisioner.Controller.Lookup.{get_pv}
use k8s_subvol_provisioner.Controller.Target.{is_pv_on_this_node, any_term, any_expr, any_value}
use k8s_subvol_provisioner.Controller.Process.{ReconcileKey, is_ours, is_to_delete, reconcile}
use k8s_subvol_provisioner.Controller.Process.Isolation.{
  IsElsewhere, IsForeignClaim, IsForeign, LooksUp, Untouched, reconcile-IsForeign,
}
use k8s_subvol_provisioner.Controller.Process.Ownership.{IsLeftAlone, process_pv_unique}
use k8s_subvol_provisioner.Controller.Claim.{
  reconcile_claim, check_volume_mode, relative_path, encryption_of,
}
use k8s_subvol_provisioner.Controller.Claim.Settings.{driver_name_of}
use k8s_subvol_provisioner.Controller.Claim.Order.{
  CannotCreate, options_for, looked_up, reconcile_claim-failed,
}
use k8s_subvol_provisioner.Controller.Guard.{is_in_progress}
use k8s_subvol_provisioner.Controller.Delete.{volume_key}
use k8s_subvol_provisioner.Controller.Process.Release.{CanRelease, volume_named, reconcile-released}
use k8s_subvol_provisioner.Tests.Samples.{
  external, controller, client, snapshot_claim, system, driver, broken, planned_claim,
  storage_class, build_options, built, released,
}

-- The same agent on another node
abbrev elsewhere : Controller ℕ
elsewhere = record controller { node_name = codes "n2" }

volume_built : build_persistent_volume build_options ≡ ok built
unfolding build_persistent_volume is_empty codes
volume_built = refl

process_pv_unique_example :
    IsLeftAlone external controller released ⊎ IsLeftAlone external elsewhere released
unfolding codes
process_pv_unique_example =
    process_pv_unique external controller elsewhere build_options released (λ e. absurd (cc))
      (λ e. absurd (cc)) (ground arith) volume_built refl

abbrev data_key : ReconcileKey
data_key = record { kind = codes "pvc"; namespace = codes "team"; name = codes "data" }

-- A released volume of the other node, and a cluster that has it beside that of node n1
abbrev own : Pv
own = record (volume_of (record build_options { node_name = codes "n2" }) snapshot_claim) {
  name = codes "pvc-9";
  phase = volume_released;
}

abbrev named_volume : Text → Pv
named_volume name = if eq_text name (codes "pvc-9") then own else released

abbrev neighbour : Controller ℕ
neighbour = record elsewhere {
  client = record client { get_pv = λ name n. (ok (named_volume name), n) };
}

owns : is_to_delete external neighbour (named_volume (codes "pvc-9")) ≡ true
unfolding is_to_delete is_ours is_pv_on_this_node any_term any_expr any_value is_empty eq_text codes
    get lookup
owns = refl

volume_foreign : IsElsewhere external neighbour (named_volume (codes "pvc-42"))
unfolding is_ours is_pv_on_this_node any_term any_expr any_value is_empty eq_text codes get lookup
volume_foreign = refl

ok-injective : {A : Type 0} {a b : A} → ok a ≡ ok b → a ≡ b
ok-injective h = ground arith

claim_foreign : IsForeignClaim external neighbour planned_claim 0
claim_foreign = record {
  class = λ name sc pending e f. absurd (cc);
  volume = λ pv bound e. rw (← ok-injective e) volume_foreign;
}

foreign : IsForeign external neighbour data_key 0
unfolding eq_text codes
foreign = record {
  claim = λ pvc kind e. rw (← ok-injective e) claim_foreign;
  volume = λ pv kind e. absurd (cc);
}

looks_up : LooksUp external neighbour Same
looks_up = record {
  preorder = Same-preorder;
  pvc = λ namespace name. record { at = λ w. refl };
  pv = λ name. record { at = λ w. refl };
  class = λ name. record { at = λ w. refl };
}

-- The claim whose volume is on node n1, seen by the agent of node n2, which owns another volume
reconcile-IsForeign_example : Untouched Same system (reconcile external neighbour data_key system).1
reconcile-IsForeign_example =
    reconcile-IsForeign external neighbour looks_up data_key system foreign

-- A driver that cannot create now, and could after a change of the world
abbrev create_later : CreateOptions → Exec ℕ VolumeInfo
create_later opts zero = (err broken, 0)
create_later opts (suc n) = driver.create opts (suc n)

abbrev full : Driver ℕ
full = record driver { create = create_later }

abbrev without_space : Controller ℕ
without_space = record controller { drivers = (codes "dir", driver) ∷ (codes "zfs", full) ∷ [] }

abbrev new_claim : Pvc
new_claim = record planned_claim {
  uid = codes "43";
  annotations = (ann_subvol_path, codes "data") ∷ [];
}

abbrev idle : System ℕ
idle = record system { in_progress = [] }

asked : (namespace name : Text) → Along Same (without_space.client.get_secret namespace name)
asked namespace name = record { at = λ w. refl }

full_found :
    (d : Driver ℕ) → lookup (driver_name_of storage_class) without_space.drivers ≡ some d → full ≡ d
unfolding lookup driver_name_of get eq_text codes is_empty
full_found d h = ground arith

same_world :
    (m : Dict Bool)
    → (options_for external without_space new_claim storage_class (
        looked_up external without_space new_claim storage_class
          (record idle { in_progress = m }))).1.world
      ≡ 0
unfolding check_volume_mode relative_path encryption_of resolve_quota lookup get eq_text codes
    is_empty ◌>>=◌ get_pv lift
same_world m = refl

cannot_create :
    (m : Dict Bool)
    → CannotCreate Same-preorder external without_space asked new_claim storage_class
        (looked_up external without_space new_claim storage_class (record idle { in_progress = m }))
cannot_create m d opts found settled =
    rw (← full_found d found) (rw (same_world m) ((broken, refl), refl))

reconcile_claim-failed_example :
    Same 0 (reconcile_claim external without_space new_claim storage_class idle).1.world
reconcile_claim-failed_example =
    reconcile_claim-failed Same-preorder external without_space asked new_claim storage_class idle
      (λ name. record { at = λ w. refl }) (λ m e. cannot_create m)

-- The agent of node n1 may delete the volume that was built for it.
can_release : CanRelease external controller build_options volume_built 0
unfolding lookup eq_text codes
can_release = record {
  driver = driver;
  freed = 1;
  last = 2;
  named = λ e. absurd (cc);
  here = refl;
  ours = refl;
  policy = refl;
  registered = refl;
  frees = refl;
  forgets = refl;
}

not_busy : is_in_progress (volume_key built.name) idle.in_progress ≡ false
unfolding is_in_progress lookup
not_busy = refl

reconcile-released_example :
    let done = reconcile external controller (volume_named built.name) idle in
    (done.0 ≡ ok tt) × ((done.1.world ≡ 2) × (done.1.events ≡ []))
unfolding can_release
reconcile-released_example =
    reconcile-released external controller build_options volume_built idle not_busy refl can_release
