-- ===== src/Controller/Process/Ownership.antt =====
-- `processPV` and the branch of `processPVC` for bound claims, on two nodes
use k8s_subvol_provisioner.Base.{false, ◌&&◌, [], ◌≡◌, ◌≢◌, ◌⊎◌, inl, inr, refl, arith, Bool-cases}
use k8s_subvol_provisioner.Text.{eq_text}
use k8s_subvol_provisioner.Text.Equality.{eq_text_iff}
use k8s_subvol_provisioner.Errors.{ok}
use k8s_subvol_provisioner.Exec.{pure}
use k8s_subvol_provisioner.Kube.{Pvc, Pv, External}
use k8s_subvol_provisioner.Builder.{BuildPvOptions, build_persistent_volume}
use k8s_subvol_provisioner.Controller.{Controller, System}
use k8s_subvol_provisioner.Controller.Target.{is_pv_on_this_node}
use k8s_subvol_provisioner.Controller.Target.Laws.{is_pv_on_this_node-build}
use k8s_subvol_provisioner.Controller.Process.{is_to_delete, is_ours, state_with, process_pv}

module _ {W : Type 0} (ext : External) where
  -- Neither the deletion nor the state of a volume is handled: nothing happens and no error returns.
  pub record IsLeftAlone (c : Controller W) (pv : Pv) : Type 0 where
    pub deletion : (s : System W) → process_pv ext c pv s ≡ (ok tt, s)
    pub upkeep : (pvc : Pvc) (s : System W) → state_with ext c pvc pv s ≡ (ok tt, s)

  not_deleted :
      (c : Controller W) (pv : Pv) → is_pv_on_this_node c pv ≡ false → is_to_delete ext c pv ≡ false
  unfolding is_to_delete
  not_deleted c pv off = ground arith

  not_kept_up :
      (c : Controller W) (pv : Pv)
      → is_pv_on_this_node c pv ≡ false
      → (is_ours ext c pv && is_pv_on_this_node c pv) ≡ false
  not_kept_up c pv off = ground arith

  off_node-IsLeftAlone :
      (c : Controller W) (pv : Pv) → is_pv_on_this_node c pv ≡ false → IsLeftAlone c pv
  unfolding process_pv pure
  off_node-IsLeftAlone c pv off = record {
    deletion = λ s. rw (not_deleted c pv off) refl;
    upkeep = λ pvc s. rw (not_kept_up c pv off) refl;
  }

  -- Of the agents of two different named nodes one leaves a built volume alone: it neither deletes
  -- the volume nor reconciles its state, whatever has changed of the volume but its node affinity.
  pub process_pv_unique :
      (c d : Controller W) (opts : BuildPvOptions) {built : Pv} (pv : Pv)
      → c.node_name ≢ []
      → d.node_name ≢ []
      → c.node_name ≢ d.node_name
      → build_persistent_volume opts ≡ ok built
      → pv.node_affinity ≡ built.node_affinity
      → IsLeftAlone c pv ⊎ IsLeftAlone d pv
  unfolding is_pv_on_this_node
  process_pv_unique c d opts {built} pv hc hd differ made same =
      elim (Bool-cases (eq_text c.node_name opts.node_name)) [
        | inl e ↦ inr (
            off_node-IsLeftAlone d pv
              (rw same (off d hd (ground (arith, eq_text_iff c.node_name opts.node_name)))))
        | inr e ↦ inl (
            off_node-IsLeftAlone c pv
              (rw same (off c hc (ground (arith, eq_text_iff c.node_name opts.node_name)))))
      ]
    where
      off :
          (a : Controller W)
          → a.node_name ≢ []
          → a.node_name ≢ opts.node_name
          → is_pv_on_this_node a built ≡ false
      off a named other =
          let (there, _) = is_pv_on_this_node-build a opts named made in ground arith
