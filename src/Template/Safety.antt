-- ===== src/Template/Safety.antt =====
-- `EvaluatePathTemplate` of templater.go: the paths that it accepts, alone and joined to a prefix.
use k8s_subvol_provisioner.Base.{◌≡◌, ◌≢◌, refl, ◌⊎◌, false, [], ◌∷◌, ◌++◌, arith, All}
use k8s_subvol_provisioner.Text.{Text, has_prefix, trim, split}
use k8s_subvol_provisioner.Text.Trimming.{StartsClear, trim-StartsClear}
use k8s_subvol_provisioner.Paths.{dot_dot, is_rooted, clean, elements, join_path}
use k8s_subvol_provisioner.Paths.Normal.{IsName}
use k8s_subvol_provisioner.Paths.Within.{IsSafe, clean-IsSafe, join_path-IsSafe}
use k8s_subvol_provisioner.Errors.{Result, ok, err}
use k8s_subvol_provisioner.Config.{TemplateContext}
use k8s_subvol_provisioner.Kube.{External}
use k8s_subvol_provisioner.Template.{
  is_slash_or_space, checked_path, executed, parsed, evaluate_path_template,
}

clear-not_rooted : (s : Text) → StartsClear is_slash_or_space s → is_rooted s ≡ false
unfolding is_rooted is_slash_or_space
clear-not_rooted [] h = refl
clear-not_rooted (c ∷ s) h = ground arith

checked_path_cases :
    (output : Text) {p : Text}
    → checked_path output ≡ ok p
    → let cleaned = clean (trim is_slash_or_space output) in
      (has_prefix cleaned dot_dot ≡ false) × (cleaned ≡ p)
unfolding checked_path
checked_path_cases output h = ground arith

checked_path-IsSafe : (output : Text) {p : Text} → checked_path output ≡ ok p → IsSafe p
checked_path-IsSafe output h =
    let t = trim is_slash_or_space output in
    let (fine, same) = checked_path_cases output h in
    rw (← same)
      (clean-IsSafe t (clear-not_rooted t (trim-StartsClear is_slash_or_space output)) fine)

executed-IsSafe : (text : Text) (r : Result Text) {p : Text} → executed text r ≡ ok p → IsSafe p
executed-IsSafe text (ok output) h = checked_path-IsSafe output h
executed-IsSafe text (err e) h = absurd (cc)

parsed-IsSafe :
    (text : Text) (ctx : TemplateContext) (r : Result (TemplateContext → Result Text)) {p : Text}
    → parsed text ctx r ≡ ok p
    → IsSafe p
parsed-IsSafe text ctx (ok template) h = executed-IsSafe text (template ctx) h
parsed-IsSafe text ctx (err e) h = absurd (cc)

-- Whatever the template engine does, a path that is accepted is "." or made of names: no element
-- of it is "", "." or "..", and it does not begin at the root.
pub evaluate_path_template-IsSafe :
    (ext : External) (tmpl : Text) (ctx : TemplateContext) {p : Text}
    → evaluate_path_template ext tmpl ctx ≡ ok p
    → IsSafe p
unfolding evaluate_path_template
evaluate_path_template-IsSafe ext tmpl ctx h = parsed-IsSafe _ ctx (ext.parse_template _) h

-- Joined to a mount prefix that is not "", "/" or ".", the path of a template gives the cleaned
-- prefix itself, or the cleaned prefix, a slash and a path whose elements are all names.
pub join_path-evaluate_path_template :
    (ext : External) (tmpl : Text) (ctx : TemplateContext) (prefix : Text) {p : Text}
    → prefix ≢ []
    → elements prefix ≢ []
    → evaluate_path_template ext tmpl ctx ≡ ok p
    → (join_path prefix p ≡ clean prefix)
      ⊎ ((join_path prefix p ≡ clean prefix ++ b'/' ∷ p) × All IsName (split b'/' p))
join_path-evaluate_path_template ext tmpl ctx prefix h k e =
    join_path-IsSafe prefix _ h k (evaluate_path_template-IsSafe ext tmpl ctx e)
