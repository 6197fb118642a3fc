-- ===== src/Controller/Process/Guards.antt =====
-- The guards of `inProgress`, before and after a reconcile of a key.
use k8s_subvol_provisioner.Base.{Bool, true, false, ◌≡◌, refl, ◌∙◌, arith, Bool-cases, inl, inr}
use k8s_subvol_provisioner.Text.{Text}
use k8s_subvol_provisioner.Text.Equality.{eq_text_iff}
use k8s_subvol_provisioner.Dict.{Dict, insert, erase}
use k8s_subvol_provisioner.Dict.Laws.{lookup-insert, lookup-erase}
use k8s_subvol_provisioner.Exec.{Exec}
use k8s_subvol_provisioner.Exec.Along.{Along, IsPreorder}
use k8s_subvol_provisioner.Kube.{External}
use k8s_subvol_provisioner.Controller.Guard.{is_in_progress}
use k8s_subvol_provisioner.Controller.{Controller, System, exclusive}
use k8s_subvol_provisioner.Controller.Effects.{IsAdmitted}
use k8s_subvol_provisioner.Controller.Claim.{reconcile_claim}
use k8s_subvol_provisioner.Controller.Claim.Effects.{Along-claim_body}
use k8s_subvol_provisioner.Controller.Delete.{reconcile_volume_delete}
use k8s_subvol_provisioner.Controller.Delete.Effects.{Along-delete_body}
use k8s_subvol_provisioner.Controller.State.{reconcile_volume_state}
use k8s_subvol_provisioner.Controller.State.Effects.{Along-state_body}
use k8s_subvol_provisioner.Controller.Process.{ReconcileKey, reconcile}
use k8s_subvol_provisioner.Controller.Process.Effects.{IsHandled, Along-reconcile}

-- The same table.
abbrev pub KeepsTable : {W : Type 0} → System W → System W → Type 0
KeepsTable s t = t.in_progress ≡ s.in_progress

-- The same guards: each key is in progress after as before.
abbrev pub KeepsGuards : {W : Type 0} → System W → System W → Type 0
KeepsGuards s t = (k : Text) → is_in_progress k t.in_progress ≡ is_in_progress k s.in_progress

module _ {W : Type 0} where
  pub KeepsTable-admitted : IsAdmitted (KeepsTable {W = W})
  KeepsTable-admitted = record {
    quiet = record {
      preorder = record { reflexive = λ s. refl; transitive = λ s t u h h'. h' ∙ h };
      emitted = λ s ev. refl;
    };
    called = λ s w. refl;
  }

  KeepsGuards-preorder : IsPreorder (KeepsGuards {W = W})
  KeepsGuards-preorder = record { reflexive = λ s k. refl; transitive = λ s t u h h' k. h' k ∙ h k }

guard_released :
    (key k : Text) (m : Dict Bool)
    → is_in_progress key m ≡ false
    → is_in_progress k (erase key (insert key true m)) ≡ is_in_progress k m
unfolding is_in_progress
guard_released key k m h =
    ground
      (arith, lookup-erase key k (insert key true m), lookup-insert key k true m, eq_text_iff key k)

module _ {W : Type 0} where
  -- A guarded body that leaves the table alone keeps the guards, whether it fails or not.
  Along-exclusive :
      (key : Text) (body : Exec (System W) (Unit {0}))
      → Along KeepsTable body
      → Along KeepsGuards (exclusive key body)
  unfolding exclusive
  Along-exclusive key body h = record {
    at = λ s. elim (Bool-cases (is_in_progress key s.in_progress)) [
      | inl busy ↦ rw busy (λ k. refl)
      | inr free ↦ rw free λ k.
          rw (h.at (record s { in_progress = insert key true s.in_progress }))
            (guard_released key k s.in_progress free)
    ];
  }

module _ {W : Type 0} (ext : External) (c : Controller W) where
  KeepsGuards-handled : IsHandled ext c KeepsGuards
  unfolding reconcile_claim reconcile_volume_delete reconcile_volume_state
  KeepsGuards-handled = record {
    preorder = KeepsGuards-preorder;
    called = λ s w k. refl;
    claimed = λ pvc sc. Along-exclusive _ _ (Along-claim_body KeepsTable-admitted ext c pvc sc);
    deleted = λ pv. Along-exclusive _ _ (Along-delete_body KeepsTable-admitted c pv);
    updated = λ pvc pv. Along-exclusive _ _ (Along-state_body KeepsTable-admitted ext c pvc pv);
  }

  -- Whatever the world outside does, a reconcile of any key leaves every guard as it was, whether it
  -- succeeds or fails: no key stays blocked, and no guard of another worker is released.
  pub reconcile-in_progress :
      (key : ReconcileKey) (s : System W) (k : Text)
      → is_in_progress k (reconcile ext c key s).1.in_progress ≡ is_in_progress k s.in_progress
  reconcile-in_progress key s k = (Along-reconcile KeepsGuards-handled key).at s k
