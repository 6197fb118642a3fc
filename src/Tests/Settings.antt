-- ===== src/Tests/Settings.antt =====
-- The parsers of the settings and the templates at concrete texts.
use k8s_subvol_provisioner.Base.{◌≡◌, refl, ◌⊎◌, ◌↔◌, [], ◌∷◌, ◌++◌, some, arith, All, reverse_onto}
use k8s_subvol_provisioner.Base.Int.{pos, negsuc}
use k8s_subvol_provisioner.Text.{
  Text, codes, split, trim_space, trim, trim_left, trim_right, is_space, is_empty, has_prefix,
  contains, eq_text, join,
}
use k8s_subvol_provisioner.Strconv.{format_nat}
use k8s_subvol_provisioner.Dict.{Dict, has_key}
use k8s_subvol_provisioner.Dict.Laws.{NodupKeys}
use k8s_subvol_provisioner.Paths.{
  elements, clean, join_path, resolve, resolve_all, assemble, is_rooted,
}
use k8s_subvol_provisioner.Paths.Normal.{IsName}
use k8s_subvol_provisioner.Errors.{ok}
use k8s_subvol_provisioner.Config.{
  Ownership, parse_ownership, parse_file_mode, parse_key_value_lines,
}
use k8s_subvol_provisioner.Config.Parsing.{
  format_ownership, parse_ownership-format_ownership, IsMode, parse_file_mode_iff,
}
use k8s_subvol_provisioner.Config.Parsing.Lines.{
  AreEntries, format_lines, parse_key_value_lines-format_lines,
}
use k8s_subvol_provisioner.Template.{
  evaluate_path_template, checked_path, is_slash_or_space, parse_stateful_set_pvc,
}
use k8s_subvol_provisioner.Template.Names.{parse_stateful_set_pvc-parts}
use k8s_subvol_provisioner.Template.Safety.{join_path-evaluate_path_template}
use k8s_subvol_provisioner.Tests.Samples.{external, context}

abbrev owner : Ownership
owner = record { uid = pos 1000; gid = negsuc 0 }

parse_ownership-format_ownership_example :
    parse_ownership (format_ownership owner) ≡ ok (some owner)
parse_ownership-format_ownership_example =
    parse_ownership-format_ownership owner (omega arith) (omega arith)

parse_file_mode_iff_example :
    (parse_file_mode (codes " 0755") ≡ ok (some 493)) ↔ IsMode (trim_space (codes " 0755")) 493
parse_file_mode_iff_example = parse_file_mode_iff (codes " 0755") 493

abbrev lines : Dict Text
lines = (codes "atime", codes "off") ∷ (codes "sync", codes "a=b") ∷ []

lines-AreEntries : AreEntries lines
unfolding codes is_space has_prefix
lines-AreEntries = ground arith

lines-NodupKeys : NodupKeys lines
unfolding codes has_key eq_text
lines-NodupKeys = ground arith

parse_key_value_lines-format_lines_example :
    parse_key_value_lines (join (10 ∷ []) (format_lines lines)) ≡ lines
parse_key_value_lines-format_lines_example =
    parse_key_value_lines-format_lines lines lines-AreEntries lines-NodupKeys

parse_stateful_set_pvc-parts_example :
    parse_stateful_set_pvc (codes "data" ++ b'-' ∷ codes "my-db" ++ b'-' ∷ format_nat 12)
    ≡ some (record { claim_name = codes "data"; owner = codes "my-db"; index = format_nat 12 })
unfolding codes
parse_stateful_set_pvc-parts_example =
    parse_stateful_set_pvc-parts (codes "data") (codes "my-db") 12 (ground arith) (ground arith)
      (omega arith)

evaluated : evaluate_path_template external [] context ≡ ok (codes "team/data")
unfolding evaluate_path_template checked_path is_slash_or_space trim trim_left trim_right trim_space
    is_empty codes clean elements resolve resolve_all assemble is_rooted split has_prefix contains
    eq_text join reverse_onto
evaluated = refl

join_path-evaluate_path_template_example :
    (join_path (codes "/mnt/") (codes "team/data") ≡ clean (codes "/mnt/"))
    ⊎ ((join_path (codes "/mnt/") (codes "team/data")
          ≡ clean (codes "/mnt/") ++ b'/' ∷ codes "team/data")
        × All IsName (split b'/' (codes "team/data")))
unfolding codes elements resolve resolve_all split is_empty eq_text is_rooted reverse_onto
join_path-evaluate_path_template_example =
    join_path-evaluate_path_template external [] context (codes "/mnt/") (ground arith)
      (ground arith) evaluated
