-- ===== src/Zfs/Properties.antt =====
-- `getProps` and `ReconcileProperties` of zfs.go
pub mod Laws
pub mod Loops
pub mod Inherit
pub mod Convergence
use k8s_subvol_provisioner.Base.{
  Bool, true, false, not, ◌||◌, ◌&&◌, List, [], ◌∷◌, ◌++◌, Option, none, some, if◌then◌else◌,
}
use k8s_subvol_provisioner.Text.{
  Text, codes, eq_text, is_empty, trim_space, split, fields, join, has_prefix, contains_char, arrow,
}
use k8s_subvol_provisioner.Dict.{Dict, lookup, insert, has_key}
use k8s_subvol_provisioner.Errors.{Error, wrapf, quoted, Result, ok, err}
use k8s_subvol_provisioner.Exec.{Exec, pure, attempt, ◌>>=◌, ◌>>◌, wrapping}
use k8s_subvol_provisioner.Zfs.{Zfs, PropValue, run, run_zfs_set, run_zfs_inherit}

-- `reconcilableProps`
abbrev pub reconcilable_props : List Text
reconcilable_props =
    codes "compression"
    ∷ codes "atime"
    ∷ codes "relatime"
    ∷ codes "recordsize"
    ∷ codes "sync"
    ∷ codes "logbias"
    ∷ codes "primarycache"
    ∷ codes "secondarycache"
    ∷ codes "exec"
    ∷ codes "setuid"
    ∷ codes "devices"
    ∷ codes "readonly"
    ∷ codes "nbmand"
    ∷ codes "snapdir"
    ∷ codes "acltype"
    ∷ codes "aclinherit"
    ∷ codes "dedup"
    ∷ codes "checksum"
    ∷ codes "copies"
    ∷ []

unfoldable pub is_member : Text → List Text → Bool
is_member k [] = false
is_member k (p ∷ ps) = if eq_text p k then true else is_member k ps

-- `reconcilableProps[k]`
unfoldable pub is_reconcilable : Text → Bool
is_reconcilable k = is_member k reconcilable_props

-- `strings.Contains(k, ":") || reconcilableProps[k]`
unfoldable pub is_managed : Text → Bool
is_managed k = if contains_char k b':' then true else is_reconcilable k

-- The loop that filters the properties asked for
unfoldable pub managed_only : Dict Text → Dict Text
managed_only [] = []
managed_only ((k, v) ∷ props) =
    let rest = managed_only props in if is_managed k then (k, v) ∷ rest else rest

-- `isLocallySet`
unfoldable pub is_locally_set : Text → Bool
is_locally_set source = has_prefix source (codes "local") || contains_char source b':'

abbrev last_of : Text → List Text → Text
last_of f [] = f
last_of f (g ∷ fs) = last_of g fs

-- The fields of a line: fewer than two are skipped, and the last of three or more is the source.
abbrev pub put_fields : List Text → Dict PropValue → Dict PropValue
put_fields [] result = result
put_fields (k ∷ []) result = result
put_fields (k ∷ v ∷ []) result = insert k (record { value = v; source = [] }) result
put_fields (k ∷ v ∷ s ∷ fs) result = insert k (record { value = v; source = last_of s fs }) result

unfoldable pub prop_line : Text → Dict PropValue → Dict PropValue
prop_line line result =
    let t = trim_space line in if is_empty t then result else put_fields (fields t) result

unfoldable pub prop_lines : List Text → Dict PropValue → Dict PropValue
prop_lines [] result = result
prop_lines (line ∷ lines) result = prop_lines lines (prop_line line result)

-- The output of `zfs get`
unfoldable pub parse_props : Text → Dict PropValue
parse_props out = prop_lines (split 10 out) []

abbrev columns : List Text → Text
columns [] = codes "all"
columns (p ∷ props) = join (codes ",") (p ∷ props)

-- `fmt.Sprintf("%s=%s", k, v)`
unfoldable pub prop_setting : Text → Text → Text
prop_setting k v = k ++ b'=' ∷ v

abbrev set_change : Text → Text → Option PropValue → Text
set_change k v none = k ++ (arrow ++ v)
set_change k v (some cur) = prop_setting k cur.value ++ (arrow ++ v)

-- `ok && cur.Value == v`
abbrev has_value : Option PropValue → Text → Bool
has_value none v = false
has_value (some cur) v = eq_text cur.value v

unfoldable pub inherit_change : Text → PropValue → Text
inherit_change k cur = prop_setting k cur.value ++ (arrow ++ codes "inherit")

-- A property that is set on the dataset, is managed and is not asked for
unfoldable pub is_stale : Dict Text → Text → PropValue → Bool
is_stale desired k cur =
    if has_key k desired then false else if is_locally_set cur.source then is_managed k else false

module _ {W : Type 0} (d : Zfs W) where
  abbrev pub props_args : Text → List Text → List Text
  props_args name props =
      codes "get"
      ∷ codes "-H"
      ∷ codes "-o"
      ∷ codes "property,value,source"
      ∷ columns props
      ∷ name
      ∷ []

  -- `getProps`
  unfoldable pub get_props : Text → List Text → Exec W (Dict PropValue)
  get_props name props = do out ← run d [] (props_args name props); pure (parse_props out)

  abbrev set_error : Text → Text → Error → Error
  set_error name k =
      wrapf (codes "failed to set zfs property %q on %q: %w") (quoted k ∷ quoted name ∷ [])

  abbrev inherit_error : Text → Text → Error → Error
  inherit_error name k =
      wrapf (codes "failed to inherit zfs property %q on %q: %w") (quoted k ∷ quoted name ∷ [])

  -- One round of the first loop: what it changes
  unfoldable pub set_one : Text → Bool → Dict PropValue → Text → Text → Exec W (List Text)
  set_one name dry_run current k v = if has_value (lookup k current) v then pure [] else (do
    wrapping (set_error name k) (run_zfs_set d dry_run name (prop_setting k v))
    pure (set_change k v (lookup k current) ∷ []))

  unfoldable pub set_all : Text → Bool → Dict PropValue → Dict Text → Exec W (List Text)
  set_all name dry_run current [] = pure []
  set_all name dry_run current ((k, v) ∷ desired) = do
    changed ← set_one name dry_run current k v
    changes ← set_all name dry_run current desired
    pure (changed ++ changes)

  -- One round of the second loop
  unfoldable pub inherit_one : Text → Bool → Dict Text → Text → PropValue → Exec W (List Text)
  inherit_one name dry_run desired k cur =
      if is_stale desired k cur
      then (do
        wrapping (inherit_error name k) (run_zfs_inherit d dry_run name k)
        pure (inherit_change k cur ∷ []))
      else pure []

  unfoldable pub inherit_all : Text → Bool → Dict Text → Dict PropValue → Exec W (List Text)
  inherit_all name dry_run desired [] = pure []
  inherit_all name dry_run desired ((k, cur) ∷ current) = do
    changed ← inherit_one name dry_run desired k cur
    changes ← inherit_all name dry_run desired current
    pure (changed ++ changes)

  -- `ReconcileProperties`
  unfoldable pub reconcile_properties : Text → Dict Text → Bool → Exec W (List Text)
  reconcile_properties name props dry_run = do
    let desired = managed_only props
    current ←
        wrapping
          (wrapf (codes "failed to read properties of zfs dataset %q: %w") (quoted name ∷ []))
          (get_props name [])
    changed ← set_all name dry_run current (d.range_texts desired)
    inherited ← inherit_all name dry_run desired (d.range_props current)
    pure (changed ++ inherited)
