-- ===== src/Controller/Run/Ending.antt =====
-- How many keys are reconciled at a time, and the end of `Run` once its context is cancelled.
use k8s_subvol_provisioner.Base.{
  ℕ, zero, suc, ◌+◌, ◌*◌, ◌≤◌, List, [], ◌∷◌, ◌++◌, Option, none, some, length, ◌≡◌, ◌⊎◌, inl, inr,
  refl, ap, arith,
}
use k8s_subvol_provisioner.Kube.{External}
use k8s_subvol_provisioner.Controller.{Controller, System}
use k8s_subvol_provisioner.Controller.Process.{ReconcileKey}
use k8s_subvol_provisioner.Controller.Queue.{WorkQueue}
use k8s_subvol_provisioner.Controller.Queue.Shutdown.{Drains, worked}
use k8s_subvol_provisioner.Controller.Run.{
  rounds, Pool, finished, Turn, take, finish, leave, Turns, here, next, Step, turn, claim_event,
  volume_event, class_event, cancel, Reach, start_of, after, IsOver,
}

length-middle :
    {A : Type 0} (x : A) (xs ys : List A) → length (xs ++ x ∷ ys) ≡ suc (length (xs ++ ys))
length-middle x [] ys = refl
length-middle x (y ∷ xs) ys = ap suc (length-middle x xs ys)

module _ {W Q : Type 0} (q : WorkQueue Q) (ext : External) (c : Controller W) where
  -- The workers that have not ended
  abbrev alive : Pool W Q → ℕ
  alive p = p.waiting + length p.working

  Turn-alive : {p t : Pool W Q} → Turn q ext c p t → alive t ≤ alive p
  Turn-alive (take n key queue w e) = omega arith
  Turn-alive {p} (finish key before others e) =
      ground (arith, length-middle key before others, ap (length {A = ReconcileKey}) e)
  Turn-alive (leave n queue w e) = omega arith

  Step-alive : {p t : Pool W Q} → Step q ext c p t → alive t ≤ alive p
  Step-alive (turn s) = Turn-alive s
  Step-alive (claim_event o) = omega arith
  Step-alive (volume_event o) = omega arith
  Step-alive (class_event o) = omega arith
  Step-alive cancel = omega arith

  Reach-alive :
      {s : System W} {queue : Q} {p : Pool W Q}
      → Reach q ext c s queue p
      → alive p ≤ rounds c.workers
  Reach-alive start_of = omega arith
  Reach-alive (after r st) = let before = Reach-alive r in let step = Step-alive st in omega arith

  -- At any time, no more keys are reconciled at once than there are workers.
  pub Reach-working :
      {s : System W} {queue : Q} {p : Pool W Q}
      → Reach q ext c s queue p
      → length p.working ≤ rounds c.workers
  Reach-working r = let bound = Reach-alive r in omega arith

module _ {W Q : Type 0} {q : WorkQueue Q} {Closed : Q → Type 0} {left : Q → ℕ}
    (law : Drains q Closed left) (ext : External) (c : Controller W) where
  -- The turns that the workers may still take, at most
  abbrev pub turns_left : Pool W Q → ℕ
  turns_left p = 2 * left p.queue + (2 * length p.working + p.waiting)

  Turn-fewer :
      {p t : Pool W Q}
      → Turn q ext c p t
      → Closed p.queue
      → Closed t.queue × (suc (turns_left t) ≤ turns_left p)
  Turn-fewer {p} (take n key queue w e) h =
      let (still, fewer) = law.taken p.queue queue key h e in (still, omega arith)
  Turn-fewer {p} (finish key before others e) h =
      let (still, fewer) = worked law ext c key p.system p.queue h in
      (still, ground (arith, length-middle key before others, ap (length {A = ReconcileKey}) e))
  Turn-fewer {p} (leave n queue w e) h =
      let (still, fewer) = law.ended p.queue queue h e in (still, omega arith)

  Turns-bounded : {n : ℕ} {p t : Pool W Q} → Turns q ext c n p t → Closed p.queue → n ≤ turns_left p
  Turns-bounded here h = omega arith
  Turns-bounded (next st sts) h =
      let (still, fewer) = Turn-fewer st h in let rest = Turns-bounded sts still in omega arith

  -- The workers are over, or one of them can take a turn.
  progress : (p : Pool W Q) → IsOver p ⊎ ((t : Pool W Q) × Turn q ext c p t)
  progress p = go p.working p.waiting (q.get p.queue) refl refl refl
    where
      go :
          (keys : List ReconcileKey) (n : ℕ) (got : Option ReconcileKey × Q)
          → p.working ≡ keys
          → p.waiting ≡ n
          → q.get p.queue ≡ got
          → IsOver p ⊎ ((t : Pool W Q) × Turn q ext c p t)
      go (key ∷ keys) n got e w g = inr (finished q ext c p key keys, finish key [] keys e)
      go [] zero got e w g = inl (w, e)
      go [] (suc n) (some key, queue) e w g = inr (_, take n key queue w g)
      go [] (suc n) (none, queue) e w g = inr (_, leave n queue w g)

  -- Once the queue is shut down, `Run` ends: whatever the order, the workers take a bounded number
  -- of turns only, and until no worker is left, one of them can take a turn. This holds if the queue
  -- takes no keys once it is shut down.
  pub Turns-ends :
      (n : ℕ) (p t : Pool W Q)
      → Closed p.queue
      → Turns q ext c n p t
      → (n ≤ turns_left p) × (IsOver t ⊎ ((r : Pool W Q) × Turn q ext c t r))
  Turns-ends n p t h sts = (Turns-bounded sts h, progress t)
