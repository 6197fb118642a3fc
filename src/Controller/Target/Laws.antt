-- ===== src/Controller/Target/Laws.antt =====
-- Which nodes provision a claim, and which node a volume belongs to.
use k8s_subvol_provisioner.Base.{
  true, [], Option, none, some, ◌≡◌, ◌≢◌, ◌⊎◌, ◌↔◌, inl, inr, refl, arith,
}
use k8s_subvol_provisioner.Text.{Text}
use k8s_subvol_provisioner.Text.Equality.{eq_text_iff, is_empty_iff, eq_text_refl}
use k8s_subvol_provisioner.Dict.{lookup}
use k8s_subvol_provisioner.Errors.{ok}
use k8s_subvol_provisioner.Config.Names.{ann_selected_node, param_node}
use k8s_subvol_provisioner.Kube.{Pvc, Pv, StorageClass, BindingMode, wait_for_first_consumer}
use k8s_subvol_provisioner.Builder.{BuildPvOptions, build_persistent_volume, hostname_key}
use k8s_subvol_provisioner.Builder.Laws.{build_persistent_volume_cases}
use k8s_subvol_provisioner.Controller.{Controller}
use k8s_subvol_provisioner.Controller.Target.{
  not_nil, targets, is_node_targeted, is_pv_on_this_node, any_term, any_expr, any_value,
}

targets_unique :
    (n m : Text) (selected param : Option Text) (mode : Option BindingMode)
    → targets n selected param mode ≡ true
    → targets m selected param mode ≡ true
    → (n ≡ m) ⊎ ((selected ≡ none) × (param ≡ none) × (mode ≢ some wait_for_first_consumer))
targets_unique n m (some s) param mode h k = inl (ground (arith, eq_text_iff s n, eq_text_iff s m))
targets_unique n m none (some s) mode h k = inl (ground (arith, eq_text_iff s n, eq_text_iff s m))
targets_unique n m none none mode h k = inr (refl, refl, ground arith)

module _ {W : Type 0} where
  -- If the controllers of two named nodes both provision a claim, then they run on the same node,
  -- or nothing chooses the node: neither the claim nor the class names one, and the class does not
  -- wait for the scheduler.
  pub is_node_targeted_unique :
      (c d : Controller W) (sc : StorageClass) (pvc : Pvc)
      → c.node_name ≢ []
      → d.node_name ≢ []
      → is_node_targeted c sc pvc ≡ true
      → is_node_targeted d sc pvc ≡ true
      → (c.node_name ≡ d.node_name)
        ⊎ ((not_nil (lookup ann_selected_node pvc.annotations) ≡ none)
            × (not_nil (lookup param_node sc.parameters) ≡ none)
            × (sc.volume_binding_mode ≢ some wait_for_first_consumer))
  unfolding is_node_targeted
  is_node_targeted_unique c d sc pvc hc hd h k =
      targets_unique c.node_name d.node_name _ _ sc.volume_binding_mode
        (ground (arith, is_empty_iff c.node_name)) (ground (arith, is_empty_iff d.node_name))

  -- A built volume belongs to the node that it was built for, and to no other named node.
  pub is_pv_on_this_node-build :
      (c : Controller W) (opts : BuildPvOptions) {pv : Pv}
      → c.node_name ≢ []
      → build_persistent_volume opts ≡ ok pv
      → (is_pv_on_this_node c pv ≡ true) ↔ (c.node_name ≡ opts.node_name)
  unfolding is_pv_on_this_node any_term any_expr any_value
  is_pv_on_this_node-build c opts h e =
      let (pvc, given, same) = build_persistent_volume_cases opts e in
      rw (← same) (
        ground (
          arith,
          is_empty_iff c.node_name,
          eq_text_refl hostname_key,
          eq_text_iff opts.node_name c.node_name,
        ))
