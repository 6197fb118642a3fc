-- ===== src/Controller/Process/Interleaving.antt =====
-- A reconcile of a key beside the workers that share the table of keys in progress: when a body of a
-- handler runs, and which worker runs it.
use k8s_subvol_provisioner.Base.{ℕ, ==_refl, Bool, Option, none, some, ◌≡◌, refl, sym, ap, ◌∙◌}
use k8s_subvol_provisioner.Text.{Text}
use k8s_subvol_provisioner.Dict.{Dict}
use k8s_subvol_provisioner.Errors.{Error, Result, ok, err}
use k8s_subvol_provisioner.Exec.{Exec, pure, attempt, ◌>>=◌}
use k8s_subvol_provisioner.Exec.Along.{Along, IsPreorder, Along-pure, Along-raise, Along-if}
use k8s_subvol_provisioner.Kube.{Pvc, Pv, StorageClass, External}
use k8s_subvol_provisioner.Controller.Guard.{enter, leave}
use k8s_subvol_provisioner.Controller.Guard.Workers.{
  Workers, idle, busy, update, Step, start, finish, Reach, next, mutual_exclusion,
}
use k8s_subvol_provisioner.Controller.{Controller, System, lift, exclusive, entered}
use k8s_subvol_provisioner.Controller.Lookup.{get_pvc, get_pv, get_storage_class}
use k8s_subvol_provisioner.Controller.Claim.{claim_body, reconcile_claim}
use k8s_subvol_provisioner.Controller.Claim.Settings.{claim_key}
use k8s_subvol_provisioner.Controller.Claim.Effects.{Along-claim_body}
use k8s_subvol_provisioner.Controller.Delete.{volume_key, delete_body, reconcile_volume_delete}
use k8s_subvol_provisioner.Controller.Delete.Effects.{Along-delete_body}
use k8s_subvol_provisioner.Controller.State.{state_key, state_body, reconcile_volume_state}
use k8s_subvol_provisioner.Controller.State.Effects.{Along-state_body}
use k8s_subvol_provisioner.Controller.Process.{
  ReconcileKey, unless_gone, claim_with, state_with, process_pending, process_pvc, process_pv,
  reconcile,
}
use k8s_subvol_provisioner.Controller.Process.Guards.{KeepsTable, KeepsTable-admitted}
use k8s_subvol_provisioner.Controller.Process.Isolation.{LooksUp, Untouched, Untouched-preorder}

-- The bodies of the three handlers, with the key that each is guarded by
pub data IsHandler {W : Type 0} (ext : External) (c : Controller W)
    : Text → Exec (System W) (Unit {0}) → Type 0 where
  claims :
      (pvc : Pvc) (sc : StorageClass)
      → IsHandler ext c (claim_key pvc.namespace pvc.name) (claim_body ext c pvc sc)
  deletes : (pv : Pv) → IsHandler ext c (volume_key pv.name) (delete_body c pv)
  updates :
      (pvc : Pvc) (pv : Pv)
      → IsHandler ext c (state_key pvc.namespace pvc.name) (state_body ext c pvc pv)

-- The workers while worker `i` runs a body
abbrev pub running : ℕ → Workers → Text → Dict Bool → Workers
running i ws key m = record { table = m; worker = update ws.worker i (busy key) }

module _ {W : Type 0} (ext : External) (c : Controller W) (R : W → W → Type 0) (i : ℕ)
    (ws : Workers) (s t : System W) where
  -- One body ran, from a state where its key is in progress: after look-ups alone the worker starts
  -- its handler, is the only one that is busy with the key while the body runs, and ends the handler.
  pub record Ran : Type 0 where
    pub key : Text
    pub body : Exec (System W) (Unit {0})
    pub handles : IsHandler ext c key body
    pub before : System W
    pub looked : Untouched R s before
    pub held : Dict Bool
    pub starts : Step ws (running i ws key held)
    pub alone : (j : ℕ) → (running i ws key held).worker j ≡ busy key → j ≡ i
    pub keeps : (body (record before { in_progress = held })).1.in_progress ≡ held
    pub ends : t ≡ (
        let after = (body (record before { in_progress = held })).1 in
        record after { in_progress = leave key held })
    pub finishes :
        Step
          (running i ws key held)
          (record { table = t.in_progress; worker = update (running i ws key held).worker i idle })

  -- What a reconcile by worker `i` does: look-ups alone, or a body that runs under its key
  pub data Follows : Type 0 where
    looks : Untouched R s t → Follows
    runs : Ran → Follows

module _ {W : Type 0} (ext : External) (c : Controller W) {R : W → W → Type 0}
    (look : LooksUp ext c R) (i : ℕ) where
  preorder : IsPreorder (Untouched R)
  preorder = Untouched-preorder look.preorder

  -- From every reachable state of the workers where worker `i` is idle
  abbrev Guarded : System W → System W → Type 0
  Guarded s t =
      (ws : Workers)
      → Reach ws
      → ws.table ≡ s.in_progress
      → ws.worker i ≡ idle
      → Follows ext c R i ws s t

  after_look : (s u t : System W) → Untouched R s u → Guarded u t → Guarded s t
  after_look s u t h g ws reached at free = extend (g ws reached (at ∙ sym h.in_progress) free)
    where
      extend : Follows ext c R i ws u t → Follows ext c R i ws s t
      extend (looks k) = looks (preorder.transitive s u t h k)
      extend (runs r) = runs (record {
        key = r.key;
        body = r.body;
        handles = r.handles;
        before = r.before;
        looked = preorder.transitive s u r.before h r.looked;
        held = r.held;
        starts = r.starts;
        alone = r.alone;
        keeps = r.keeps;
        ends = r.ends;
        finishes = r.finishes;
      })

  Guarded-quiet : {A : Type 0} (m : Exec (System W) A) → Along (Untouched R) m → Along Guarded m
  Guarded-quiet m h = record { at = λ s ws reached at free. looks (h.at s) }

  nothing : Along Guarded (pure tt)
  nothing = Guarded-quiet _ (Along-pure preorder tt)

  Guarded-found :
      {A : Type 0} (m : Exec W A) (wrap : Error → Error) (f : A → Exec (System W) (Unit {0}))
      → Along R m
      → ((a : A) → Along Guarded (f a))
      → Along Guarded (attempt (lift m) >>= unless_gone wrap f)
  unfolding lift attempt ◌>>=◌
  Guarded-found {A} m wrap f h k = record {
    at = λ s.
        let t = record s { world = (m s.world).1 } in
        after_look s t _ (record { worlds = h.at s.world; events = refl; in_progress = refl })
          ((after (m s.world).0).at t);
  }
    where
      after : (r : Result A) → Along Guarded (unless_gone wrap f r)
      after (ok a) = k a
      after (err e) =
          Guarded-quiet _ (Along-if _ _ _ (Along-pure preorder tt) (Along-raise preorder (wrap e)))

  Guarded-exclusive :
      (key : Text) (body : Exec (System W) (Unit {0}))
      → IsHandler ext c key body
      → Along KeepsTable body
      → Along Guarded (exclusive key body)
  unfolding exclusive
  Guarded-exclusive key body handler h = record {
    at = λ s ws reached at free. go_on s ws reached at free (enter key s.in_progress) refl;
  }
    where
      go_on :
          (s : System W) (ws : Workers)
          → Reach ws
          → ws.table ≡ s.in_progress
          → ws.worker i ≡ idle
          → (o : Option (Dict Bool)) → enter key s.in_progress ≡ o
          → Follows ext c R i ws s (entered key body s o).1
      go_on s ws reached at free none e = looks (preorder.reflexive s)
      go_on s ws reached at free (some m) e =
          let begun = start i key m free (ap (enter key) at ∙ e) in
          let kept = h.at (record s { in_progress = m }) in
          runs (record {
            key = key;
            body = body;
            handles = handler;
            before = s;
            looked = preorder.reflexive s;
            held = m;
            starts = begun;
            alone = λ j is_busy.
                mutual_exclusion j i key (next reached begun) is_busy (rw (==_refl i) refl);
            keeps = kept;
            ends = rw kept refl;
            finishes = rw kept (finish i key (rw (==_refl i) refl));
          })

  Guarded-claim_with : (pvc : Pvc) (sc : StorageClass) → Along Guarded (claim_with ext c pvc sc)
  unfolding reconcile_claim
  Guarded-claim_with pvc sc =
      Along-if _ _ _
        (Guarded-exclusive _ _ (claims pvc sc) (Along-claim_body KeepsTable-admitted ext c pvc sc))
        nothing

  Guarded-state_with : (pvc : Pvc) (pv : Pv) → Along Guarded (state_with ext c pvc pv)
  unfolding reconcile_volume_state
  Guarded-state_with pvc pv =
      Along-if _ _ _
        (Guarded-exclusive _ _ (updates pvc pv) (Along-state_body KeepsTable-admitted ext c pvc pv))
        nothing

  Guarded-process_pv : (pv : Pv) → Along Guarded (process_pv ext c pv)
  unfolding process_pv reconcile_volume_delete
  Guarded-process_pv pv =
      Along-if _ _ _
        (Guarded-exclusive _ _ (deletes pv) (Along-delete_body KeepsTable-admitted c pv)) nothing

  Guarded-process_pending :
      (pvc : Pvc) (o : Option Text) → Along Guarded (process_pending ext c pvc o)
  unfolding get_storage_class
  Guarded-process_pending pvc none = nothing
  Guarded-process_pending pvc (some name) =
      Guarded-found _ _ (claim_with ext c pvc) (look.class name) (Guarded-claim_with pvc)

  Guarded-process_pvc : (pvc : Pvc) → Along Guarded (process_pvc ext c pvc)
  unfolding process_pvc get_pv
  Guarded-process_pvc pvc = Along-if _ _ _ (Guarded-process_pending pvc _) (
      Along-if _ _ _
        (Guarded-found _ _ (state_with ext c pvc) (look.pv pvc.volume_name)
          (Guarded-state_with pvc))
        nothing)

  Guarded-reconcile : (key : ReconcileKey) → Along Guarded (reconcile ext c key)
  unfolding reconcile get_pvc get_pv
  Guarded-reconcile key =
      Along-if _ _ _
        (Guarded-found _ _ (process_pvc ext c) (look.pvc key.namespace key.name)
          Guarded-process_pvc)
        (Along-if _ _ _ (Guarded-found _ _ (process_pv ext c) (look.pv key.name) Guarded-process_pv)
          (Guarded-quiet _ (Along-raise preorder _)))

  -- A reconcile of a key by an idle worker, from a reachable state of the workers, either makes
  -- look-ups alone, and no event, or, after look-ups, runs the body of one handler, and only so: from
  -- a table with the key of the handler in progress, which the body keeps, while this worker is the
  -- only one that is busy with that key, by the steps of the workers that start and end a handler.
  pub reconcile-Follows :
      (key : ReconcileKey) (s : System W) (ws : Workers)
      → Reach ws
      → ws.table ≡ s.in_progress
      → ws.worker i ≡ idle
      → Follows ext c R i ws s (reconcile ext c key s).1
  reconcile-Follows key s = (Guarded-reconcile key).at s
