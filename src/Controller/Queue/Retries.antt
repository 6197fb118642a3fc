-- ===== src/Controller/Queue/Retries.antt =====
-- How often a key is retried.
use k8s_subvol_provisioner.Base.{
  ℕ, zero, suc, ◌≤◌, ◌<◌, ◌+◌, ltb, Bool, true, ◌&&◌, Option, none, some, if◌then◌else◌, ◌≡◌, inl,
  inr, refl, ap, ◌↔◌, arith, Bool-cases,
}
use k8s_subvol_provisioner.Text.{eq_text}
use k8s_subvol_provisioner.Text.Equality.{eq_text_iff}
use k8s_subvol_provisioner.Errors.{Error, Result, ok, err}
use k8s_subvol_provisioner.Kube.{External}
use k8s_subvol_provisioner.Controller.{Controller}
use k8s_subvol_provisioner.Controller.Process.{ReconcileKey}
use k8s_subvol_provisioner.Controller.Queue.{
  WorkQueue, Loop, max_retries, settle, next_item, process_next_work_item,
}

-- `==` of two keys
abbrev pub eq_key : ReconcileKey → ReconcileKey → Bool
eq_key k j = eq_text k.kind j.kind && (eq_text k.namespace j.namespace && eq_text k.name j.name)

pub eq_key_iff : (k j : ReconcileKey) → (eq_key k j ≡ true) ↔ (k ≡ j)
eq_key_iff k j = ground (
  arith,
  eq_text_iff k.kind j.kind,
  eq_text_iff k.namespace j.namespace,
  eq_text_iff k.name j.name,
)

-- What the queue documents of its count of retries: a retry counts one more for its key, forgetting
-- a key sets its count back, and nothing else changes a count.
pub record CountsRetries {Q : Type 0} (q : WorkQueue Q) : Type 0 where
  pub retried :
      (k j : ReconcileKey) (s : Q)
      → q.num_requeues j (q.add_rate_limited k s)
        ≡ (if eq_key k j then suc (q.num_requeues j s) else q.num_requeues j s)
  pub forgotten :
      (k j : ReconcileKey) (s : Q)
      → q.num_requeues j (q.forget k s) ≡ (if eq_key k j then 0 else q.num_requeues j s)
  pub finished : (k j : ReconcileKey) (s : Q) → q.num_requeues j (q.done k s) ≡ q.num_requeues j s
  pub taken : (j : ReconcileKey) (s : Q) → q.num_requeues j (q.get s).1 ≡ q.num_requeues j s

lt_of_ltb : (a b : ℕ) → ltb a b ≡ true → a < b
lt_of_ltb a b h = ground arith

module _ {Q : Type 0} (q : WorkQueue Q) where
  same_count :
      (k j : ReconcileKey) (s : Q) → eq_key k j ≡ true → q.num_requeues k s ≡ q.num_requeues j s
  same_count k j s h = ap (λ (i : ReconcileKey). q.num_requeues i s) ((eq_key_iff k j).0 h)

  -- No key has been retried more often than the limit.
  abbrev pub WithinLimit : Q → Type 0
  WithinLimit s = (j : ReconcileKey) → q.num_requeues j s ≤ max_retries

  -- The end of `n` rounds that add the key again
  abbrev pub added_rounds : ℕ → ReconcileKey → Q → Q
  added_rounds zero key s = s
  added_rounds (suc n) key s = added_rounds n key (q.done key (q.add_rate_limited key s))

  module _ {W : Type 0} (ext : External) (c : Controller W) where
    -- The end of `n` rounds that work on a key and fail
    abbrev pub failed_rounds : ℕ → ReconcileKey → Error → Q → Q
    failed_rounds zero key e s = s
    failed_rounds (suc n) key e s =
        failed_rounds n key e (q.done key (settle q ext c key (err e) s))

  module _ {W : Type 0} (ext : External) (c : Controller W) (law : CountsRetries q) where
    settle-WithinLimit :
        (key : ReconcileKey) (r : Result (Unit {0})) (s : Q)
        → WithinLimit s
        → WithinLimit (settle q ext c key r s)
    settle-WithinLimit key (ok _) s h j = ground (arith, law.forgotten key j s, h j)
    settle-WithinLimit key (err e) s h j =
        elim (Bool-cases (ltb (q.num_requeues key s) max_retries)) [
          | inl more ↦
              rw more
                (ground (arith, law.retried key j s, h j, same_count key j s, lt_of_ltb _ _ more))
          | inr over ↦ rw over (ground (arith, law.forgotten key j s, h j))
        ]

    -- A worker never takes the count of retries of a key past `maxRetries`.
    pub process_next_work_item-WithinLimit :
        (l : Loop W Q)
        → WithinLimit l.queue
        → WithinLimit (process_next_work_item q ext c l).1.queue
    unfolding process_next_work_item
    process_next_work_item-WithinLimit l h =
        after (q.get l.queue) (λ j. rw (law.taken j l.queue) (h j))
      where
        after :
            (p : Option ReconcileKey × Q)
            → WithinLimit p.1
            → WithinLimit (next_item q ext c p l.system).1.queue
        after (none, s) k j = k j
        after (some key, s) k j = rw (law.finished key j _) (settle-WithinLimit key _ s k j)

    settle_again :
        (key : ReconcileKey) (e : Error) (s : Q)
        → q.num_requeues key s < max_retries
        → settle q ext c key (err e) s ≡ q.add_rate_limited key s
    settle_again key e s h = ground arith

    -- A key that keeps failing is added again until its count of retries has reached `maxRetries`,
    -- and the round after that gives it up: it is forgotten and not added.
    pub failed_rounds-added :
        (n : ℕ) (key : ReconcileKey) (e : Error) (s : Q)
        → q.num_requeues key s + n ≡ max_retries
        → failed_rounds ext c (suc n) key e s ≡ q.done key (q.forget key (added_rounds n key s))
    failed_rounds-added zero key e s h = ap (q.done key) (ground arith)
    failed_rounds-added (suc n) key e s h = rw (settle_again key e s (omega arith)) (
        failed_rounds-added n key e (q.done key (q.add_rate_limited key s)) (
          ground (
            arith,
            law.finished key key (q.add_rate_limited key s),
            law.retried key key s,
            (eq_key_iff key key).1 refl,
          )))
