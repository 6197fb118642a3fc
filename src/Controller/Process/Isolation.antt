-- ===== src/Controller/Process/Isolation.antt =====
-- `reconcile` where the objects belong to another provisioner or to another node.
use k8s_subvol_provisioner.Base.{
  Bool, true, false, not, if◌then◌else◌, ◌&&◌, Option, none, some, ◌≡◌, refl, ◌∙◌, arith,
}
use k8s_subvol_provisioner.Text.{Text, codes, eq_text, is_empty}
use k8s_subvol_provisioner.Errors.{Error, Result, ok, err}
use k8s_subvol_provisioner.Exec.{Exec, pure, attempt, ◌>>=◌}
use k8s_subvol_provisioner.Exec.Along.{
  Along, IsPreorder, Along-pure, Along-raise, Along-if, bind_at,
}
use k8s_subvol_provisioner.Kube.{Pvc, Pv, StorageClass, External}
use k8s_subvol_provisioner.Controller.{Controller, System, lift}
use k8s_subvol_provisioner.Controller.Lookup.{
  pvc_from, pv_from, class_from, get_pvc, get_pv, get_storage_class,
}
use k8s_subvol_provisioner.Controller.Target.{not_nil, is_pv_on_this_node}
use k8s_subvol_provisioner.Controller.Process.{
  ReconcileKey, is_pending, is_bound, is_ours, is_for_us, is_to_delete, unless_gone, claim_with,
  process_pending, state_with, process_bound, process_pvc, process_pv, reconcile,
}

module _ {W : Type 0} (ext : External) (c : Controller W) where
  -- A volume that is not of this provisioner, or not on this node
  abbrev pub IsElsewhere : Pv → Type 0
  IsElsewhere pv = (is_ours ext c pv && is_pv_on_this_node c pv) ≡ false

  -- What the look-ups for a claim give, in the world after that of the claim itself: the class that a
  -- pending claim names is not for this agent, and the volume of a bound claim is elsewhere.
  pub record IsForeignClaim (pvc : Pvc) (w : W) : Type 0 where
    pub class :
        (name : Text) (sc : StorageClass)
        → (is_pending pvc.phase && is_empty pvc.volume_name) ≡ true
        → not_nil pvc.storage_class_name ≡ some name
        → (class_from c.client c.listers name w).0 ≡ ok sc
        → is_for_us ext c sc pvc ≡ false
    pub volume :
        (pv : Pv)
        → (is_bound pvc.phase && not (is_empty pvc.volume_name)) ≡ true
        → (pv_from c.client c.listers pvc.volume_name w).0 ≡ ok pv
        → IsElsewhere pv

  -- What the look-ups for a key give, from a world on: the claim or the volume that it names
  pub record IsForeign (key : ReconcileKey) (w : W) : Type 0 where
    pub claim :
        (pvc : Pvc)
        → eq_text key.kind (codes "pvc") ≡ true
        → (pvc_from c.client c.listers key.namespace key.name w).0 ≡ ok pvc
        → IsForeignClaim pvc (pvc_from c.client c.listers key.namespace key.name w).1
    pub volume :
        (pv : Pv)
        → eq_text key.kind (codes "pv") ≡ true
        → (pv_from c.client c.listers key.name w).0 ≡ ok pv
        → IsElsewhere pv

  -- A relation that the look-ups keep
  pub record LooksUp (R : W → W → Type 0) : Type 0 where
    pub preorder : IsPreorder R
    pub pvc : (namespace name : Text) → Along R (pvc_from c.client c.listers namespace name)
    pub pv : (name : Text) → Along R (pv_from c.client c.listers name)
    pub class : (name : Text) → Along R (class_from c.client c.listers name)

-- No event is recorded, no guard changes, and the worlds are related.
pub record Untouched {W : Type 0} (R : W → W → Type 0) (s t : System W) : Type 0 where
  pub worlds : R s.world t.world
  pub events : t.events ≡ s.events
  pub in_progress : t.in_progress ≡ s.in_progress

pub Untouched-preorder : {W : Type 0} {R : W → W → Type 0} → IsPreorder R → IsPreorder (Untouched R)
Untouched-preorder p = record {
  reflexive = λ s. record { worlds = p.reflexive s.world; events = refl; in_progress = refl };
  transitive = λ s t u h k. record {
    worlds = p.transitive s.world t.world u.world h.worlds k.worlds;
    events = k.events ∙ h.events;
    in_progress = k.in_progress ∙ h.in_progress;
  };
}

module _ {W : Type 0} (ext : External) (c : Controller W) {R : W → W → Type 0}
    (look : LooksUp ext c R) where
  preorder : IsPreorder (Untouched R)
  preorder = Untouched-preorder look.preorder

  nothing : {A : Type 0} (a : A) → Along (Untouched R) (pure a)
  nothing a = Along-pure preorder a

  if_at :
      (b : Bool) (m n : Exec (System W) (Unit {0})) (s : System W)
      → (b ≡ true → Untouched R s (m s).1)
      → Untouched R s (n s).1
      → Untouched R s ((if b then m else n) s).1
  if_at true m n s h k = h refl
  if_at false m n s h k = k

  -- A look-up with what follows, in the world after it, if the object was found
  found_at :
      {A : Type 0} (m : Exec W A) (wrap : Error → Error) (f : A → Exec (System W) (Unit {0}))
      (s : System W)
      → Along R m
      → ((a : A)
          → (m s.world).0 ≡ ok a
          → let t = record s { world = (m s.world).1 } in Untouched R t (f a t).1)
      → Untouched R s ((attempt (lift m) >>= unless_gone wrap f) s).1
  unfolding lift attempt
  found_at {A} m wrap f s h k =
      bind_at preorder (attempt (lift m)) (unless_gone wrap f) s
        (record { worlds = h.at s.world; events = refl; in_progress = refl })
        λ r e. after r (ground arith)
    where
      after :
          (r : Result A)
          → (m s.world).0 ≡ r
          → let t = record s { world = (m s.world).1 } in Untouched R t (unless_gone wrap f r t).1
      after (ok a) e = k a e
      after (err e') e =
          (Along-if _ _ _ (nothing tt) (Along-raise preorder (wrap e'))).at
            (record s { world = (m s.world).1 })

  volume_left : (pv : Pv) → IsElsewhere ext c pv → is_to_delete ext c pv ≡ false
  unfolding is_to_delete
  volume_left pv h = ground arith

  pending_at :
      (pvc : Pvc) (o : Option Text) (s : System W)
      → ((name : Text) (sc : StorageClass)
          → o ≡ some name
          → (class_from c.client c.listers name s.world).0 ≡ ok sc
          → is_for_us ext c sc pvc ≡ false)
      → Untouched R s (process_pending ext c pvc o s).1
  unfolding get_storage_class
  pending_at pvc none s h = (nothing tt).at s
  pending_at pvc (some name) s h =
      found_at _ _ (claim_with ext c pvc) s (look.class name)
        λ sc e. rw (h name sc refl e) ((nothing tt).at _)

  bound_at :
      (pvc : Pvc) (s : System W)
      → ((pv : Pv)
          → (pv_from c.client c.listers pvc.volume_name s.world).0 ≡ ok pv
          → IsElsewhere ext c pv)
      → Untouched R s (process_bound ext c pvc s).1
  unfolding get_pv
  bound_at pvc s h =
      found_at _ _ (state_with ext c pvc) s (look.pv pvc.volume_name)
        λ pv e. rw (h pv e) ((nothing tt).at _)

  pvc_at :
      (pvc : Pvc) (s : System W)
      → IsForeignClaim ext c pvc s.world
      → Untouched R s (process_pvc ext c pvc s).1
  unfolding process_pvc
  pvc_at pvc s f =
      if_at _ _ _ s (λ pending. pending_at pvc _ s λ name sc. f.class name sc pending)
        (if_at _ _ _ s (λ bound. bound_at pvc s λ pv. f.volume pv bound) ((nothing tt).at s))

  pv_at : (pv : Pv) (s : System W) → IsElsewhere ext c pv → Untouched R s (process_pv ext c pv s).1
  unfolding process_pv
  pv_at pv s h = rw (volume_left pv h) ((nothing tt).at s)

  -- An agent leaves alone what belongs to another provisioner or to another node, whatever else it
  -- owns: if the objects that the look-ups for a key give, in the worlds where they are made, are not
  -- for it, then its reconcile of the key makes no call but these look-ups, records no event and
  -- changes no guard.
  pub reconcile-IsForeign :
      (key : ReconcileKey) (s : System W)
      → IsForeign ext c key s.world
      → Untouched R s (reconcile ext c key s).1
  unfolding reconcile get_pvc get_pv
  reconcile-IsForeign key s f =
      if_at _ _ _ s
        (λ kind.
          found_at _ _ (process_pvc ext c) s (look.pvc key.namespace key.name)
            λ pvc e. pvc_at pvc _ (f.claim pvc kind e))
        (if_at _ _ _ s
          (λ kind.
            found_at _ _ (process_pv ext c) s (look.pv key.name)
              λ pv e. pv_at pv _ (f.volume pv kind e))
          ((Along-raise preorder _).at s))
