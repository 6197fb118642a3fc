-- ===== src/Controller/Run.antt =====
-- `Run`: the start of the informers, and the workers until the last of them has ended.
pub mod Ending
use k8s_subvol_provisioner.Base.{
  ℕ, zero, suc, Bool, true, false, List, [], ◌∷◌, ◌++◌, Option, none, some, if◌then◌else◌, ◌≡◌,
}
use k8s_subvol_provisioner.Base.Int.{ℤ, pos, negsuc}
use k8s_subvol_provisioner.Text.{codes}
use k8s_subvol_provisioner.Errors.{errorf, Result, ok, err}
use k8s_subvol_provisioner.Exec.{Exec, pure, raise, ◌>>=◌}
use k8s_subvol_provisioner.Kube.{Client, Listers, External}
use k8s_subvol_provisioner.Controller.{Controller, System}
use k8s_subvol_provisioner.Controller.Process.{ReconcileKey, reconcile}
use k8s_subvol_provisioner.Controller.Queue.{
  WorkQueue, Obj, work_on, on_pvc_add, on_pv_add, on_storage_class_add,
}

-- `informers.NewSharedInformerFactory`, as far as `Run` calls it: the listers of a client for a
-- resync period, and the start of the informers, which tells whether their caches were synced.
pub record Informers (W : Type 0) : Type 0 where
  pub listers : Client W → ℕ → Listers W
  pub start_and_sync : Client W → ℕ → Exec W Bool

-- How often `for i := 0; i < workers; i++` runs
abbrev pub rounds : ℤ → ℕ
rounds (pos n) = n
rounds (negsuc n) = 0

module _ {W : Type 0} (informers : Informers W) where
  abbrev pub synced : Controller W → Bool → Exec W (Controller W)
  synced c true = pure c
  synced c false = raise (errorf (codes "timed out waiting for informer caches to sync") [])

  -- `Run` until the workers start
  unfoldable pub start : Controller W → Exec W (Controller W)
  start c = do
    in_sync ← informers.start_and_sync c.client c.resync_period
    synced (record c { listers = some (informers.listers c.client c.resync_period) }) in_sync

-- The goroutines of `Run` with what they share: the number of workers that wait for a key, and the
-- keys that workers reconcile.
pub record Pool (W Q : Type 0) : Type 0 where
  pub system : System W
  pub queue : Q
  pub waiting : ℕ
  pub working : List ReconcileKey

-- The workers as `Run` starts them
abbrev pub started : {W Q : Type 0} → Controller W → System W → Q → Pool W Q
started c s queue = record { system = s; queue = queue; waiting = rounds c.workers; working = [] }

module _ {W Q : Type 0} (q : WorkQueue Q) (ext : External) (c : Controller W) where
  -- What a worker leaves when it is done with a key
  abbrev pub finished : Pool W Q → ReconcileKey → List ReconcileKey → Pool W Q
  finished p key others =
      let l = work_on q ext c key p.system p.queue in
      record { system = l.system; queue = l.queue; waiting = suc p.waiting; working = others }

  -- A step of one worker: it takes a key, is done with one, or ends where the queue is shut down.
  pub data Turn (p : Pool W Q) : Pool W Q → Type 0 where
    take :
        (n : ℕ) (key : ReconcileKey) (queue : Q)
        → p.waiting ≡ suc n
        → q.get p.queue ≡ (some key, queue)
        → Turn p (record p { queue = queue; waiting = n; working = key ∷ p.working })
    finish :
        (key : ReconcileKey) (before after : List ReconcileKey)
        → p.working ≡ before ++ key ∷ after
        → Turn p (finished p key (before ++ after))
    leave :
        (n : ℕ) (queue : Q)
        → p.waiting ≡ suc n
        → q.get p.queue ≡ (none, queue)
        → Turn p (record p { queue = queue; waiting = n })

  pub data Turns : ℕ → Pool W Q → Pool W Q → Type 0 where
    here : {p : Pool W Q} → Turns 0 p p
    next : {n : ℕ} {p r t : Pool W Q} → Turn p r → Turns n r t → Turns (suc n) p t

  -- What happens while `Run` runs: turns of the workers, events that the informers hand to their
  -- handlers, and the end of the context, which shuts the queue down.
  pub data Step (p : Pool W Q) : Pool W Q → Type 0 where
    turn : {t : Pool W Q} → Turn p t → Step p t
    claim_event : (o : Obj) → Step p (record p { queue = on_pvc_add q o p.queue })
    volume_event : (o : Obj) → Step p (record p { queue = on_pv_add q ext c o p.queue })
    class_event :
        (o : Obj)
        → Step p (
            let (w, queue) = on_storage_class_add q ext c o p.system.world p.queue in
            record p { system = record p.system { world = w }; queue = queue })
    cancel : Step p (record p { queue = q.shut_down p.queue })

  pub data Reach (s : System W) (queue : Q) : Pool W Q → Type 0 where
    start_of : Reach s queue (started c s queue)
    after : {p t : Pool W Q} → Reach s queue p → Step p t → Reach s queue t

-- No worker is left, so `wg.Wait` returns.
abbrev pub IsOver : {W Q : Type 0} → Pool W Q → Type 0
IsOver p = (p.waiting ≡ 0) × (p.working ≡ [])
