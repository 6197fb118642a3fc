-- ===== src/Config.antt =====
-- pkg/apis/config: the annotation and parameter names of annotations.go, the types of types.go and
-- its three parsers.
pub mod Names
pub mod Parsing
use k8s_subvol_provisioner.Base.{
  ℕ, ◌^◌, ◌-◌, Bool, true, false, List, [], ◌∷◌, Option, none, some, ◌==◌, if◌then◌else◌,
}
use k8s_subvol_provisioner.Base.Int.{ℤ}
use k8s_subvol_provisioner.Text.{
  Text, codes, is_empty, trim_space, split, split_first, has_prefix, contains_char,
}
use k8s_subvol_provisioner.Strconv.{parse_int, parse_uint}
use k8s_subvol_provisioner.Dict.{Dict, insert}
use k8s_subvol_provisioner.Errors.{Error, errorf, Result, ok, err, quoted}

pub record TemplateContext : Type 0 where
  pub namespace : Text
  pub pvc : Text
  pub claim_name : Text
  pub owner : Text
  pub index : Text
  pub storage_class : Text
  pub labels : Dict Text
  pub annotations : Dict Text

pub record Ownership : Type 0 where
  pub uid : ℤ
  pub gid : ℤ

-- `os.FileMode`, a 32-bit word
abbrev pub FileMode : Type 0
FileMode = ℕ

pub record EncryptionConfig : Type 0 where
  pub enabled : Bool
  pub key_format : Text
  pub key_location : Text
  pub key_data : List ℕ

-- Two records that the source declares and does not use
pub record StorageClassConfig : Type 0 where
  pub driver : Text
  pub node : Text
  pub parent : Text
  pub mount_prefix : Text
  pub path_template : Text
  pub default_owner : Option Ownership
  pub default_mode : Option FileMode
  pub properties : Dict Text
  pub encryption : Option EncryptionConfig

pub record ClaimConfig : Type 0 where
  pub relative_path : Text
  pub dataset_name : Text
  pub mount_path : Text
  pub quota_bytes : ℤ
  pub owner : Option Ownership
  pub mode : Option FileMode
  pub properties : Dict Text
  pub encryption : Option EncryptionConfig
  pub snapshot_before_delete : Bool

-- The errors of the parsers. The source wraps the error of `strconv` in the last three.
abbrev pub invalid_ownership : Text → Error
invalid_ownership s = errorf (codes "invalid ownership format %q: expected UID:GID") (quoted s ∷ [])

abbrev pub invalid_uid : Text → Error
invalid_uid s = errorf (codes "invalid UID %q: %w") (quoted s ∷ [])

abbrev pub invalid_gid : Text → Error
invalid_gid s = errorf (codes "invalid GID %q: %w") (quoted s ∷ [])

abbrev pub invalid_file_mode : Text → Error
invalid_file_mode s = errorf (codes "invalid file mode %q: %w") (quoted s ∷ [])

-- The two calls of `strconv.ParseInt`, in order.
abbrev ownership_of : Text → Text → Option ℤ → Option ℤ → Result (Option Ownership)
ownership_of u g none gid = err (invalid_uid u)
ownership_of u g (some uid) none = err (invalid_gid g)
ownership_of u g (some uid) (some gid) = ok (some (record { uid = uid; gid = gid }))

-- `len(parts) != 2` and what follows
abbrev ownership_parts : Text → List Text → Result (Option Ownership)
ownership_parts s (u ∷ g ∷ []) = ownership_of u g (parse_int u) (parse_int g)
ownership_parts s _ = err (invalid_ownership s)

-- `ParseOwnership`; a nil pointer is `none`
unfoldable pub parse_ownership : Text → Result (Option Ownership)
parse_ownership s =
    let t = trim_space s in if is_empty t then ok none else ownership_parts t (split b':' t)

abbrev mode_of : Text → Option ℕ → Result (Option FileMode)
mode_of s none = err (invalid_file_mode s)
mode_of s (some m) = ok (some m)

-- `ParseFileMode`
unfoldable pub parse_file_mode : Text → Result (Option FileMode)
parse_file_mode s =
    let t = trim_space s in if is_empty t then ok none else mode_of t (parse_uint 8 (2 ^ 32 - 1) t)

-- The key and value of a line, trimmed. A line with neither "=" nor ":" gives the empty key.
abbrev trimmed : Option (Text × Text) → Text × Text
trimmed none = ([], [])
trimmed (some (k, v)) = (trim_space k, trim_space v)

unfoldable pub key_value : Text → Text × Text
key_value line =
    if contains_char line b'='
    then trimmed (split_first b'=' line)
    else trimmed (split_first b':' line)

abbrev put : Text × Text → Dict Text → Dict Text
put (k, v) result = if is_empty k then result else insert k v result

-- One round of the loop of `ParseKeyValueLines`.
unfoldable pub parse_line : Text → Dict Text → Dict Text
parse_line line result =
    let t = trim_space line in
    if is_empty t
    then result
    else if has_prefix t (b'#' ∷ [])
    then result
    else put (key_value t) result

unfoldable pub parse_lines : List Text → Dict Text → Dict Text
parse_lines [] result = result
parse_lines (line ∷ lines) result = parse_lines lines (parse_line line result)

-- `ParseKeyValueLines`
unfoldable pub parse_key_value_lines : Text → Dict Text
parse_key_value_lines content = parse_lines (split 10 content) []
