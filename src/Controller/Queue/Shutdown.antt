-- ===== src/Controller/Queue/Shutdown.antt =====
-- The end of a worker, once the queue is shut down.
use k8s_subvol_provisioner.Base.{
  ℕ, zero, suc, ◌≤◌, ◌<◌, Bool, true, false, Option, none, some, if◌then◌else◌, ◌≡◌, ◌⊎◌, inl, inr,
  refl, arith, Bool-cases,
}
use k8s_subvol_provisioner.Errors.{Result, ok, err}
use k8s_subvol_provisioner.Kube.{External}
use k8s_subvol_provisioner.Controller.{Controller, System}
use k8s_subvol_provisioner.Controller.Process.{ReconcileKey, reconcile}
use k8s_subvol_provisioner.Controller.Queue.{
  WorkQueue, Loop, settle, work_on, next_item, process_next_work_item, worker,
}

-- What the queue documents of its end: once it is shut down it stays so and takes no more keys, and
-- each key that is taken leaves one less to take.
pub record Drains {Q : Type 0} (q : WorkQueue Q) (Closed : Q → Type 0) (left : Q → ℕ) : Type 0 where
  pub shut : (s : Q) → Closed (q.shut_down s)
  pub taken :
      (s s' : Q) (key : ReconcileKey)
      → Closed s
      → q.get s ≡ (some key, s')
      → Closed s' × (left s' < left s)
  pub ended : (s s' : Q) → Closed s → q.get s ≡ (none, s') → Closed s' × (left s' ≤ left s)
  pub done :
      (key : ReconcileKey) (s : Q)
      → Closed s
      → Closed (q.done key s) × (left (q.done key s) ≤ left s)
  pub forget :
      (key : ReconcileKey) (s : Q)
      → Closed s
      → Closed (q.forget key s) × (left (q.forget key s) ≤ left s)
  pub add_rate_limited :
      (key : ReconcileKey) (s : Q)
      → Closed s
      → Closed (q.add_rate_limited key s) × (left (q.add_rate_limited key s) ≤ left s)

module _ {W Q : Type 0} {q : WorkQueue Q} {Closed : Q → Type 0} {left : Q → ℕ}
    (law : Drains q Closed left) (ext : External) (c : Controller W) where
  settled :
      (key : ReconcileKey) (r : Result (Unit {0})) (s : Q)
      → Closed s
      → Closed (settle q ext c key r s) × (left (settle q ext c key r s) ≤ left s)
  settled key (ok _) s h = law.forget key s h
  settled key (err e) s h = ground (arith, law.forget key s h, law.add_rate_limited key s h)

  pub worked :
      (key : ReconcileKey) (s : System W) (queue : Q)
      → Closed queue
      → Closed (work_on q ext c key s queue).queue
        × (left (work_on q ext c key s queue).queue ≤ left queue)
  worked key s queue h =
      let (r, s') = reconcile ext c key s in
      let (still, fewer) = settled key r queue h in
      let (still', fewer') = law.done key (settle q ext c key r queue) still in
      (still', omega arith)

  -- What a round leaves: one key less to take, or the end.
  round :
      (p : Option ReconcileKey × Q) (l : Loop W Q)
      → q.get l.queue ≡ p
      → Closed l.queue
      → let (more, l') = next_item q ext c p l.system in
        Closed l'.queue
        × (((more ≡ true) × (left l'.queue < left l.queue))
            ⊎ ((more ≡ false) × (left l'.queue ≤ left l.queue)))
  round (none, s) l e h = let (still, fewer) = law.ended l.queue s h e in (still, inr (refl, fewer))
  round (some key, s) l e h =
      let (still, fewer) = law.taken l.queue s key h e in
      let (still', fewer') = worked key l.system s still in (still', inl (refl, omega arith))

  pub process_next_work_item_round :
      (l : Loop W Q)
      → Closed l.queue
      → let (more, l') = process_next_work_item q ext c l in
        Closed l'.queue
        × (((more ≡ true) × (left l'.queue < left l.queue))
            ⊎ ((more ≡ false) × (left l'.queue ≤ left l.queue)))
  unfolding process_next_work_item
  process_next_work_item_round l h = round (q.get l.queue) l refl h

  worker_round :
      (n : ℕ) (p : Bool × Loop W Q)
      → ((p.0 ≡ true) → (l : Loop W Q) × (worker q ext c n p.1 ≡ some l))
      → (p.0 ≡ true) ⊎ (p.0 ≡ false)
      → (l : Loop W Q) × ((if p.0 then worker q ext c n p.1 else some p.1) ≡ some l)
  worker_round n p rest (inl more) = rw more (rest more)
  worker_round n p rest (inr over) = (p.1, rw over refl)

  -- Once the queue is shut down, a worker ends: it needs one round for each key that is left, and one
  -- more. This holds if the queue takes no keys once it is shut down.
  pub worker-ends :
      (n : ℕ) (l : Loop W Q)
      → Closed l.queue
      → left l.queue < n
      → (l' : Loop W Q) × (worker q ext c n l ≡ some l')
  unfolding worker
  worker-ends zero l h k = absurd (omega arith)
  worker-ends (suc n) l h k =
      let (still, how) = process_next_work_item_round l h in
      worker_round n (process_next_work_item q ext c l)
        (λ more. worker-ends n (process_next_work_item q ext c l).1 still (ground arith))
        (Bool-cases (process_next_work_item q ext c l).0)
