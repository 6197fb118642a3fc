-- ===== src/Template.antt =====
-- pkg/controller/templater.go
pub mod Names
pub mod Safety
use k8s_subvol_provisioner.Base.{
  ℕ, Bool, true, false, List, [], ◌∷◌, Option, none, some, ◌==◌, ◌||◌, if◌then◌else◌,
}
use k8s_subvol_provisioner.Base.Int.{ℤ}
use k8s_subvol_provisioner.Text.{
  Text, codes, is_empty, has_prefix, contains, trim, trim_space, split_first, split_last,
}
use k8s_subvol_provisioner.Strconv.{parse_int}
use k8s_subvol_provisioner.Paths.{dot_dot, clean}
use k8s_subvol_provisioner.Errors.{Error, errorf, wrapf, quoted, Result, ok, err}
use k8s_subvol_provisioner.Config.{TemplateContext}
use k8s_subvol_provisioner.Kube.{Pvc, External}

-- The parts of the name of a StatefulSet's claim.
pub record Parts : Type 0 where
  pub claim_name : Text
  pub owner : Text
  pub index : Text

-- `firstHyphen <= 0` is: there is none, or it stands first.
abbrev split_prefix : Text → Text → Option (Text × Text) → Parts
split_prefix prefix index none = record { claim_name = prefix; owner = prefix; index = index }
split_prefix prefix index (some ([], b)) = record {
  claim_name = prefix;
  owner = prefix;
  index = index;
}
split_prefix prefix index (some (c ∷ a, b)) = record {
  claim_name = c ∷ a;
  owner = b;
  index = index;
}

abbrev with_index : Text → Text → Option ℤ → Option Parts
with_index prefix index none = none
with_index prefix index (some n) = some (split_prefix prefix index (split_first b'-' prefix))

-- `lastHyphen <= 0 || lastHyphen == len(pvcName)-1` is: there is none, or it stands first or last.
abbrev split_index : Option (Text × Text) → Option Parts
split_index none = none
split_index (some ([], index)) = none
split_index (some (c ∷ prefix, [])) = none
split_index (some (c ∷ prefix, d ∷ index)) =
    with_index (c ∷ prefix) (d ∷ index) (parse_int (d ∷ index))

-- `ParseStatefulSetPVC`; the result is `none` where `ok` is false
unfoldable pub parse_stateful_set_pvc : Text → Option Parts
parse_stateful_set_pvc pvc_name = split_index (split_last b'-' pvc_name)

abbrev context_of : Pvc → Text → Option Parts → TemplateContext
context_of pvc sc_name none = record {
  namespace = pvc.namespace;
  pvc = pvc.name;
  claim_name = pvc.name;
  owner = pvc.name;
  index = [];
  storage_class = sc_name;
  labels = pvc.labels;
  annotations = pvc.annotations;
}
context_of pvc sc_name (some parts) = record {
  namespace = pvc.namespace;
  pvc = pvc.name;
  claim_name = parts.claim_name;
  owner = parts.owner;
  index = parts.index;
  storage_class = sc_name;
  labels = pvc.labels;
  annotations = pvc.annotations;
}

-- `ExtractTemplateContext`
unfoldable pub extract_template_context : Pvc → Text → TemplateContext
extract_template_context pvc sc_name = context_of pvc sc_name (parse_stateful_set_pvc pvc.name)

-- The cutset "/ " of `strings.Trim`
unfoldable pub is_slash_or_space : ℕ → Bool
is_slash_or_space c = c == b'/' || c == b' '

-- The end of `EvaluatePathTemplate`, from the text that the template gave.
unfoldable pub checked_path : Text → Result Text
checked_path output =
    let cleaned = clean (trim is_slash_or_space output) in
    if has_prefix cleaned dot_dot || contains cleaned (codes "/../")
    then err (errorf (codes "unsafe path evaluated from template: %q") (quoted cleaned ∷ []))
    else ok cleaned

abbrev executed : Text → Result Text → Result Text
executed text (err e) =
    err (wrapf (codes "failed to evaluate path template %q: %w") (quoted text ∷ []) e)
executed text (ok output) = checked_path output

abbrev parsed : Text → TemplateContext → Result (TemplateContext → Result Text) → Result Text
parsed text ctx (err e) = err (wrapf (codes "invalid path template %q: %w") (quoted text ∷ []) e)
parsed text ctx (ok template) = executed text (template ctx)

abbrev pub default_path_template : Text
default_path_template = codes "{{ .Namespace }}/{{ .PVC }}"

-- `EvaluatePathTemplate`
unfoldable pub evaluate_path_template : External → Text → TemplateContext → Result Text
evaluate_path_template ext tmpl ctx =
    let text = if is_empty (trim_space tmpl) then default_path_template else tmpl in
    parsed text ctx (ext.parse_template text)
