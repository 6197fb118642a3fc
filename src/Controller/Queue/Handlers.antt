-- ===== src/Controller/Queue/Handlers.antt =====
-- The handlers of the informers against the dispatch of `reconcile`: which objects they add.
use k8s_subvol_provisioner.Base.{
  true, false, List, [], ◌∷◌, Option, none, some, if◌then◌else◌, ◌≡◌, ◌⊎◌, inl, inr, refl, sym, ap,
  ◌∙◌, arith, Bool-cases, Option-cases,
}
use k8s_subvol_provisioner.Text.{Text, is_empty}
use k8s_subvol_provisioner.Text.Equality.{eq_text_iff}
use k8s_subvol_provisioner.Errors.{ok}
use k8s_subvol_provisioner.Exec.{pure}
use k8s_subvol_provisioner.Kube.{
  ClaimPhase, claim_pending, claim_bound, claim_other, Pvc, Pv, StorageClass, Listers, External,
}
use k8s_subvol_provisioner.Controller.{Controller, System}
use k8s_subvol_provisioner.Controller.Target.{not_nil}
use k8s_subvol_provisioner.Controller.Process.{
  ReconcileKey, is_pending, is_bound, is_ours, is_to_delete, process_pvc, process_pv,
}
use k8s_subvol_provisioner.Controller.Queue.{
  WorkQueue, pvc_object, pv_object, class_object, pvc_key, pv_key, class_is, add_if_named,
  on_pvc_add, add_claims, on_pv_add, on_storage_class_add,
}

-- The claims of a class, in their order
abbrev pub of_class : Text → List Pvc → List Pvc
of_class name [] = []
of_class name (pvc ∷ pvcs) =
    if class_is name pvc.storage_class_name then pvc ∷ of_class name pvcs else of_class name pvcs

pending_unbound : (phase : ClaimPhase) → is_pending phase ≡ true → is_bound phase ≡ false
pending_unbound claim_pending e = refl
pending_unbound claim_bound e = absurd (cc)
pending_unbound (claim_other p) e = refl

module _ {Q : Type 0} (q : WorkQueue Q) where
  -- An event of each claim, one after the other
  abbrev pub each_added : List Pvc → Q → Q
  each_added [] s = s
  each_added (pvc ∷ pvcs) s = each_added pvcs (on_pvc_add q (pvc_object pvc) s)

  -- A claim of a class that has a name is one that `onPVCAdd` adds.
  add_if_class :
      (name : Text) (key : ReconcileKey) (class : Option Text) (s : Q)
      → is_empty name ≡ false
      → class_is name class ≡ true
      → add_if_named q key (not_nil class) s ≡ q.add key s
  unfolding class_is is_empty
  add_if_class name key none s h e = absurd (cc)
  add_if_class [] key (some []) s h e = absurd (cc)
  add_if_class (x ∷ name) key (some []) s h e = absurd (ground (arith, eq_text_iff [] (x ∷ name)))
  add_if_class name key (some (x ∷ class)) s h e = refl

  add_claims-each :
      (name : Text) (pvcs : List Pvc) (s : Q)
      → is_empty name ≡ false
      → add_claims q name pvcs s ≡ each_added (of_class name pvcs) s
  unfolding add_claims on_pvc_add
  add_claims-each name [] s h = refl
  add_claims-each name (pvc ∷ pvcs) s h = elim (Bool-cases (class_is name pvc.storage_class_name)) [
    | inl e ↦ rw e (
        add_claims-each name pvcs (q.add (pvc_key pvc) s) h
        ∙ ap (each_added (of_class name pvcs))
            (sym (add_if_class name (pvc_key pvc) pvc.storage_class_name s h e)))
    | inr e ↦ rw e (add_claims-each name pvcs s h)
  ]

  module _ {W : Type 0} (ext : External) (c : Controller W) where
    -- The event of a storage class does to the queue what an event of each of its claims would do,
    -- in the order of the list. This holds if the class has a name, the informers run, and the
    -- claims can be listed.
    pub on_storage_class_add-each :
        (sc : StorageClass) (listers : Listers W) (pvcs : List Pvc) (w : W) (s : Q)
        → is_empty sc.name ≡ false
        → c.listers ≡ some listers
        → (listers.list_pvcs w).0 ≡ ok pvcs
        → (on_storage_class_add q ext c (class_object sc) w s).1
          ≡ each_added (of_class sc.name pvcs) s
    unfolding on_storage_class_add
    on_storage_class_add-each sc listers pvcs w s named run listed =
        rw run (rw listed (add_claims-each sc.name pvcs s named))

    -- The event of a volume adds its key, or else leaves the queue as it is, and then no reconcile
    -- of that volume would do anything.
    pub on_pv_add_cases :
        (pv : Pv) (s : Q)
        → (on_pv_add q ext c (pv_object pv) s ≡ q.add (pv_key pv) s)
          ⊎ ((on_pv_add q ext c (pv_object pv) s ≡ s)
              × ((t : System W) → process_pv ext c pv t ≡ (ok tt, t)))
    unfolding on_pv_add process_pv is_to_delete pure
    on_pv_add_cases pv s = elim (Bool-cases (is_ours ext c pv)) [
      | inl e ↦ inl (rw e refl)
      | inr e ↦ inr (rw e refl, λ t. rw e refl)
    ]

    process_pvc-pending :
        (pvc : Pvc) (t : System W)
        → not_nil pvc.storage_class_name ≡ none
        → is_pending pvc.phase ≡ true
        → process_pvc ext c pvc t ≡ (ok tt, t)
    unfolding process_pvc pure
    process_pvc-pending pvc t h e = rw e (rw h (ground (arith, pending_unbound pvc.phase e)))

    -- The event of a claim adds its key, or else leaves the queue as it is, and then no reconcile
    -- of that claim would do anything while it is pending.
    pub on_pvc_add_cases :
        (pvc : Pvc) (s : Q)
        → (on_pvc_add q (pvc_object pvc) s ≡ q.add (pvc_key pvc) s)
          ⊎ ((on_pvc_add q (pvc_object pvc) s ≡ s)
              × (is_pending pvc.phase ≡ true
                  → (t : System W) → process_pvc ext c pvc t ≡ (ok tt, t)))
    unfolding on_pvc_add
    on_pvc_add_cases pvc s = elim (Option-cases (not_nil pvc.storage_class_name)) [
      | inl h ↦ inr (rw h refl, λ e t. process_pvc-pending pvc t h e)
      | inr (name, h) ↦ inl (rw h refl)
    ]
