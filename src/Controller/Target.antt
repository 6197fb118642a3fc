-- ===== src/Controller/Target.antt =====
-- `isNodeTargeted` and `isPVOnThisNode`
pub mod Laws
use k8s_subvol_provisioner.Base.{
  Bool, true, false, List, [], ◌∷◌, Option, none, some, ◌||◌, ◌&&◌, if◌then◌else◌,
}
use k8s_subvol_provisioner.Text.{Text, codes, eq_text, is_empty}
use k8s_subvol_provisioner.Dict.{lookup}
use k8s_subvol_provisioner.Config.Names.{ann_selected_node, param_node}
use k8s_subvol_provisioner.Kube.{
  Pvc, Pv, StorageClass, Requirement, Term, BindingMode, wait_for_first_consumer, immediate,
  binding_other,
}
use k8s_subvol_provisioner.Builder.{hostname_key}
use k8s_subvol_provisioner.Controller.{Controller}

-- `if v, ok := m[k]; ok && v != ""`: the value, if it is there and not empty
abbrev pub not_nil : Option Text → Option Text
not_nil none = none
not_nil (some []) = none
not_nil (some (c ∷ s)) = some (c ∷ s)

abbrev waits_for_consumer : Option BindingMode → Bool
waits_for_consumer (some wait_for_first_consumer) = true
waits_for_consumer (some _) = false
waits_for_consumer none = false

-- The node that the claim or else the class names, or the rule of the binding mode.
abbrev targets : Text → Option Text → Option Text → Option BindingMode → Bool
targets node (some selected) param mode = eq_text selected node
targets node none (some param) mode = eq_text param node
targets node none none mode = if waits_for_consumer mode then false else true

-- The three loops of `isPVOnThisNode`
unfoldable pub any_value : Text → List Text → Bool
any_value node [] = false
any_value node (v ∷ vs) = if eq_text v node then true else any_value node vs

unfoldable pub any_expr : Text → List Requirement → Bool
any_expr node [] = false
any_expr node (expr ∷ exprs) =
    if eq_text expr.key hostname_key && any_value node expr.values
    then true
    else any_expr node exprs

unfoldable pub any_term : Text → List Term → Bool
any_term node [] = false
any_term node (term ∷ terms) = if any_expr node term then true else any_term node terms

-- Nil affinity, or nil `Required` in it, restricts nothing.
abbrev affinity_allows : Text → Option (Option (List Term)) → Bool
affinity_allows node none = true
affinity_allows node (some none) = true
affinity_allows node (some (some terms)) = any_term node terms

module _ {W : Type 0} where
  -- `isNodeTargeted`
  unfoldable pub is_node_targeted : Controller W → StorageClass → Pvc → Bool
  is_node_targeted c sc pvc =
      if is_empty c.node_name
      then true
      else targets c.node_name (not_nil (lookup ann_selected_node pvc.annotations))
          (not_nil (lookup param_node sc.parameters)) sc.volume_binding_mode

  -- `isPVOnThisNode`
  unfoldable pub is_pv_on_this_node : Controller W → Pv → Bool
  is_pv_on_this_node c pv =
      if is_empty c.node_name then true else affinity_allows c.node_name pv.node_affinity
