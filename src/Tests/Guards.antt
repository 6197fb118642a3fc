-- ===== src/Tests/Guards.antt =====
-- Two workers at the table of keys in progress, and a claim whose volume is there.
use k8s_subvol_provisioner.Base.{ℕ, true, false, [], ◌∷◌, ◌≡◌, refl, arith}
use k8s_subvol_provisioner.Text.{Text, codes, eq_text, is_empty}
use k8s_subvol_provisioner.Dict.{insert, lookup}
use k8s_subvol_provisioner.Errors.{ok}
use k8s_subvol_provisioner.Exec.Along.{Same, Same-preorder}
use k8s_subvol_provisioner.Builder.{build_persistent_volume}
use k8s_subvol_provisioner.Controller.{Controller, System}
use k8s_subvol_provisioner.Controller.Guard.{enter, is_in_progress, enter_free}
use k8s_subvol_provisioner.Controller.Process.Keys.{claiming, upkeep, guard_key, enter-apart}
use k8s_subvol_provisioner.Controller.Guard.Workers.{
  Workers, busy, idle, update, start, Reach, here, next, mutual_exclusion,
}
use k8s_subvol_provisioner.Controller.Process.{ReconcileKey, reconcile}
use k8s_subvol_provisioner.Controller.Process.Isolation.{LooksUp}
use k8s_subvol_provisioner.Controller.Process.Interleaving.{Follows, reconcile-Follows}
use k8s_subvol_provisioner.Controller.Claim.{reconcile_claim}
use k8s_subvol_provisioner.Controller.Claim.Existing.{reconcile_claim-build}
use k8s_subvol_provisioner.Tests.Samples.{
  external, controller, client, system, storage_class, planned_claim, snapshot_claim, build_options,
  built,
}

abbrev first_key : Text
first_key = codes "pvc:team/data"

abbrev second_key : Text
second_key = codes "pv:pvc-42"

-- Worker 0 runs the handler of one key, worker 1 that of another.
abbrev one_busy : Workers
one_busy = record { table = (first_key, true) ∷ []; worker = update (λ i. idle) 0 (busy first_key) }

abbrev both_busy : Workers
both_busy = record {
  table = (first_key, true) ∷ (second_key, true) ∷ [];
  worker = update one_busy.worker 1 (busy second_key);
}

both_reached : Reach both_busy
unfolding enter is_in_progress lookup insert eq_text codes
both_reached = next (next here (start 0 first_key _ refl refl)) (start 1 second_key _ refl refl)

abbrev second_worker : ℕ
second_worker = 1

mutual_exclusion_example : second_worker ≡ 1
mutual_exclusion_example = mutual_exclusion second_worker 1 second_key both_reached refl refl

-- A cluster where the volume of the claim is the one that was built
abbrev provisioned : Controller ℕ
provisioned = record controller { client = record client { get_pv = λ name n. (ok built, n) } }

made : build_persistent_volume build_options ≡ ok built
unfolding build_persistent_volume codes is_empty
made = refl

reconcile_claim-build_example :
    let (r, t) = reconcile_claim external provisioned planned_claim storage_class system in
    (r ≡ ok tt) × ((t.events ≡ system.events) × (t.world ≡ system.world))
reconcile_claim-build_example =
    reconcile_claim-build external provisioned build_options snapshot_claim planned_claim
      storage_class built system refl refl made refl

abbrev volume_key : ReconcileKey
volume_key = record { kind = codes "pv"; namespace = []; name = codes "pvc-42" }

one_reached : Reach one_busy
unfolding enter is_in_progress lookup insert eq_text codes
one_reached = next here (start 0 first_key _ refl refl)

-- Worker 1 reconciles a key while worker 0 runs another handler.
abbrev beside : System ℕ
beside = record system { in_progress = one_busy.table }

looks_up : LooksUp external controller Same
looks_up = record {
  preorder = Same-preorder;
  pvc = λ namespace name. record { at = λ w. refl };
  pv = λ name. record { at = λ w. refl };
  class = λ name. record { at = λ w. refl };
}

reconcile-Follows_example :
    Follows external controller Same 1 one_busy beside
      (reconcile external controller volume_key beside).1
reconcile-Follows_example =
    reconcile-Follows external controller looks_up 1 volume_key beside one_busy one_reached refl
      refl

nothing_runs : is_in_progress (guard_key (claiming (codes "team") (codes "data"))) [] ≡ false
unfolding is_in_progress lookup
nothing_runs = refl

enter-apart_example :
    is_in_progress
      (guard_key (upkeep (codes "team") (codes "data")))
      (insert (guard_key (claiming (codes "team") (codes "data"))) true [])
    ≡ is_in_progress (guard_key (upkeep (codes "team") (codes "data"))) []
unfolding codes
enter-apart_example =
    enter-apart (claiming (codes "team") (codes "data")) (upkeep (codes "team") (codes "data")) []
      (insert (guard_key (claiming (codes "team") (codes "data"))) true []) (ground arith)
      (ground arith) (λ e. absurd (cc))
      (enter_free (guard_key (claiming (codes "team") (codes "data"))) [] nothing_runs)
