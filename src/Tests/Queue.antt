-- ===== src/Tests/Queue.antt =====
-- The handlers, the workers and `Run` on a concrete queue.
use k8s_subvol_provisioner.Base.{
  ℕ, suc, ◌≤◌, ◌<◌, Bool, true, false, List, [], ◌∷◌, ◌++◌, Option, none, some, length, ◌≡◌, ◌⊎◌,
  refl, ap, if◌then◌else◌, arith,
}
use k8s_subvol_provisioner.Text.{codes, is_empty}
use k8s_subvol_provisioner.Kube.{Listers}
use k8s_subvol_provisioner.Controller.{Controller}
use k8s_subvol_provisioner.Controller.Process.{ReconcileKey}
use k8s_subvol_provisioner.Controller.Queue.{
  WorkQueue, Loop, class_object, pvc_key, on_storage_class_add, process_next_work_item, worker,
}
use k8s_subvol_provisioner.Controller.Queue.Handlers.{
  of_class, each_added, on_storage_class_add-each,
}
use k8s_subvol_provisioner.Controller.Queue.Retries.{
  eq_key, CountsRetries, WithinLimit, process_next_work_item-WithinLimit,
}
use k8s_subvol_provisioner.Controller.Queue.Shutdown.{Drains, worker-ends}
use k8s_subvol_provisioner.Controller.Run.{Pool, started, Turn, take, here, next, IsOver}
use k8s_subvol_provisioner.Controller.Run.Ending.{turns_left, Turns-ends}
use k8s_subvol_provisioner.Tests.Samples.{
  external, controller, client, system, storage_class, planned_claim,
}

-- A queue that retries at once
record Keys : Type 0 where
  keys : List ReconcileKey
  retries : ReconcileKey → ℕ
  closed : Bool

abbrev push : ReconcileKey → Keys → Keys
push key s = if s.closed then s else record s { keys = s.keys ++ key ∷ [] }

abbrev pop : List ReconcileKey → Keys → Option ReconcileKey × Keys
pop [] s = (none, s)
pop (key ∷ keys) s = (some key, record s { keys = keys })

abbrev queue : WorkQueue Keys
queue = record {
  get = λ s. pop s.keys s;
  done = λ key s. s;
  forget = λ key s. record s { retries = λ j. if eq_key key j then 0 else s.retries j };
  add = push;
  add_rate_limited = λ key s.
      push key
        (record s { retries = λ j. if eq_key key j then suc (s.retries j) else s.retries j });
  num_requeues = λ key s. s.retries key;
  shut_down = λ s. record s { closed = true };
}

pop-retries : (keys : List ReconcileKey) (s : Keys) → (pop keys s).1.retries ≡ s.retries
pop-retries [] s = refl
pop-retries (key ∷ keys) s = refl

push-retries : (key : ReconcileKey) (s : Keys) → (push key s).retries ≡ s.retries
push-retries key s = ground arith

queue-CountsRetries : CountsRetries queue
queue-CountsRetries = record {
  retried = λ k j s.
      ap (λ (r : ReconcileKey → ℕ). r j)
        (push-retries k
          (record s { retries = λ i. if eq_key k i then suc (s.retries i) else s.retries i }));
  forgotten = λ k j s. refl;
  finished = λ k j s. refl;
  taken = λ j s. ap (λ (r : ReconcileKey → ℕ). r j) (pop-retries s.keys s);
}

abbrev Closed : Keys → Type 0
Closed s = s.closed ≡ true

abbrev left : Keys → ℕ
left s = length s.keys

pop_taken :
    (keys : List ReconcileKey) (s s' : Keys) (key : ReconcileKey)
    → Closed s
    → pop keys s ≡ (some key, s')
    → Closed s' × (left s' < length keys)
pop_taken [] s s' key h e = absurd (cc)
pop_taken (k ∷ keys) s s' key h e = ground arith

pop_ended :
    (keys : List ReconcileKey) (s s' : Keys)
    → Closed s
    → pop keys s ≡ (none, s')
    → Closed s' × (left s' ≤ left s)
pop_ended [] s s' h e = ground arith
pop_ended (k ∷ keys) s s' h e = absurd (cc)

queue-Drains : Drains queue Closed left
queue-Drains = record {
  shut = λ s. refl;
  taken = λ s s' key h e. pop_taken s.keys s s' key h e;
  ended = λ s s' h e. pop_ended s.keys s s' h e;
  done = λ key s h. (h, omega arith);
  forget = λ key s h. (h, omega arith);
  add_rate_limited = λ key s h. rw h (refl, omega arith);
}

abbrev queued_key : ReconcileKey
queued_key = pvc_key planned_claim

abbrev no_keys : Keys
no_keys = record { keys = []; retries = λ j. 0; closed = false }

abbrev one_key : Keys
one_key = record { keys = queued_key ∷ []; retries = λ j. 0; closed = false }

abbrev closed_key : Keys
closed_key = record one_key { closed = true }

process_next_work_item-WithinLimit_example :
    WithinLimit queue
      (process_next_work_item queue external controller
        (record { system = system; queue = one_key })).1.queue
process_next_work_item-WithinLimit_example =
    process_next_work_item-WithinLimit queue external controller queue-CountsRetries
      (record { system = system; queue = one_key }) (λ j. omega arith)

worker-ends_example :
    (l : Loop ℕ Keys) × (worker queue external controller 2
        (record { system = system; queue = closed_key })
      ≡ some l)
worker-ends_example =
    worker-ends queue-Drains external controller 2 (record { system = system; queue = closed_key })
      refl (omega arith)

abbrev listers : Listers ℕ
listers = record {
  get_pvc = client.get_pvc;
  list_pvcs = client.list_pvcs;
  get_pv = client.get_pv;
  get_storage_class = client.get_storage_class;
}

abbrev listed : Controller ℕ
listed = record controller { listers = some listers }

class_named : is_empty storage_class.name ≡ false
unfolding is_empty codes
class_named = refl

on_storage_class_add-each_example :
    (on_storage_class_add queue external listed (class_object storage_class) 0 no_keys).1
    ≡ each_added queue (of_class storage_class.name (planned_claim ∷ [])) no_keys
on_storage_class_add-each_example =
    on_storage_class_add-each queue external listed storage_class listers (planned_claim ∷ []) 0
      no_keys class_named refl refl

abbrev closed_pool : Pool ℕ Keys
closed_pool = started controller system closed_key

abbrev closed_working : Pool ℕ Keys
closed_working = record closed_pool {
  queue = record closed_key { keys = [] };
  waiting = 3;
  working = queued_key ∷ [];
}

Turns-ends_example :
    (1 ≤ turns_left queue-Drains external controller closed_pool)
    × (IsOver closed_working
        ⊎ ((r : Pool ℕ Keys) × Turn queue external controller closed_working r))
Turns-ends_example =
    Turns-ends queue-Drains external controller 1 closed_pool closed_working refl
      (next (take 3 queued_key _ refl refl) here)
