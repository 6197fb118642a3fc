-- ===== src/Config/Parsing/Lines.antt =====
-- `ParseKeyValueLines` of types.go: the lines that it reads, and the map that it returns.
use k8s_subvol_provisioner.Base.{
  ◌≡◌, ◌≢◌, refl, ap, ◌∙◌, false, List, [], ◌∷◌, ◌++◌, arith, All, append-nil, append_assoc, ◌||◌,
}
use k8s_subvol_provisioner.Text.{
  Text, is_space, is_empty, trim_space, split, join, has_prefix, trim, trim_left, trim_right,
}
use k8s_subvol_provisioner.Text.Equality.{is_empty_iff, eq_text_iff}
use k8s_subvol_provisioner.Text.Trimming.{StartsClear, EndsClear, trim_of_clear, EndsClear-append}
use k8s_subvol_provisioner.Text.Splitting.{
  Lacks, split_first-append, contains_char-append, split-join,
}
use k8s_subvol_provisioner.Dict.{Dict, insert, has_key}
use k8s_subvol_provisioner.Dict.Laws.{NodupKeys, insert-NodupKeys}
use k8s_subvol_provisioner.Config.{key_value, parse_line, parse_lines, parse_key_value_lines}

-- A text with no space at its ends and no line end.
abbrev pub IsTrimmed : Text → Type 0
IsTrimmed s = StartsClear is_space s × EndsClear is_space s × Lacks 10 s

-- An entry that a line can hold: a key that is not empty, has no "=" and starts with no "#".
abbrev pub IsEntry : Text → Text → Type 0
IsEntry k v =
    (k ≢ []) × IsTrimmed k × IsTrimmed v × Lacks b'=' k × (has_prefix k (b'#' ∷ []) ≡ false)

abbrev pub AreEntries : Dict Text → Type 0
AreEntries [] = Unit
AreEntries ((k, v) ∷ m) = IsEntry k v × AreEntries m

-- The line of an entry.
abbrev pub format_line : Text × Text → Text
format_line (k, v) = k ++ b'=' ∷ v

abbrev pub format_lines : Dict Text → List Text
format_lines [] = []
format_lines ((k, v) ∷ m) = format_line (k, v) ∷ format_lines m

trim_of_IsTrimmed : (s : Text) → IsTrimmed s → trim_space s ≡ s
unfolding trim_space
trim_of_IsTrimmed s h = trim_of_clear is_space s h.0 h.1

format_line-clear :
    (k v : Text)
    → IsEntry k v
    → StartsClear is_space (format_line (k, v)) × EndsClear is_space (format_line (k, v))
format_line-clear [] v h = absurd (h.0 refl)
format_line-clear (c ∷ k) [] h =
    (h.1.0, EndsClear-append is_space (c ∷ k) (b'=' ∷ []) (cc) (unfold is_space in refl))
format_line-clear (c ∷ k) (d ∷ v) h =
    (h.1.0, EndsClear-append is_space (c ∷ k) (b'=' ∷ d ∷ v) (cc) h.2.1)

has_prefix-format_line :
    (k v : Text) → IsEntry k v → has_prefix (format_line (k, v)) (b'#' ∷ []) ≡ false
unfolding has_prefix
has_prefix-format_line [] v h = absurd (h.0 refl)
has_prefix-format_line (c ∷ k) v h = h.4

format_line-ne-nil : (k v : Text) → is_empty (format_line (k, v)) ≡ false
unfolding is_empty
format_line-ne-nil [] v = refl
format_line-ne-nil (c ∷ k) v = refl

key_value-format_line : (k v : Text) → IsEntry k v → key_value (format_line (k, v)) ≡ (k, v)
unfolding key_value
key_value-format_line k v h = rw (
  contains_char-append b'=' k v,
  split_first-append b'=' k v h.3,
  trim_of_IsTrimmed k h.1,
  trim_of_IsTrimmed v h.2,
)

parse_line-format_line :
    (k v : Text) (result : Dict Text)
    → IsEntry k v
    → parse_line (format_line (k, v)) result ≡ insert k v result
unfolding parse_line trim_space
parse_line-format_line k v result h =
    let (a, b) = format_line-clear k v h in
    rw
      (
        trim_of_clear is_space (format_line (k, v)) a b,
        format_line-ne-nil k v,
        has_prefix-format_line k v h,
        key_value-format_line k v h,
      )
      (ground (arith, is_empty_iff k))

-- An insertion of a new key goes to the end.
insert_new : (k v : Text) (m : Dict Text) → has_key k m ≡ false → insert k v m ≡ m ++ (k, v) ∷ []
unfolding insert has_key
insert_new k v [] h = refl
insert_new k v ((j, w) ∷ m) h = ground (arith, insert_new k v m)

has_key-append : (j : Text) (m n : Dict Text) → has_key j (m ++ n) ≡ (has_key j m || has_key j n)
unfolding has_key
has_key-append j [] n = refl
has_key-append j ((i, w) ∷ m) n = ground (arith, has_key-append j m n)

abbrev Apart : Dict Text → Dict Text → Type 0
Apart m [] = Unit
Apart m ((k, v) ∷ n) = (has_key k m ≡ false) × Apart m n

Apart-append :
    (m n : Dict Text) (k v : Text) → has_key k n ≡ false → Apart m n → Apart (m ++ (k, v) ∷ []) n
unfolding has_key
Apart-append m [] k v h a = tt
Apart-append m ((j, w) ∷ n) k v h (a, as') = (
  ground (arith, has_key-append j m ((k, v) ∷ []), eq_text_iff k j, eq_text_iff j k),
  Apart-append m n k v (ground arith) as',
)

parse_lines-format_lines :
    (m n : Dict Text)
    → AreEntries n
    → NodupKeys n
    → Apart m n
    → parse_lines (format_lines n) m ≡ m ++ n
unfolding parse_lines
parse_lines-format_lines m [] e u a = rw append-nil
parse_lines-format_lines m ((k, v) ∷ n) (e, es) (h, u) (a, as') =
    ap (λ (r : Dict Text). parse_lines (format_lines n) r)
      (parse_line-format_line k v m e ∙ insert_new k v m a)
    ∙ parse_lines-format_lines (m ++ (k, v) ∷ []) n es u (Apart-append m n k v h as')
    ∙ append_assoc m ((k, v) ∷ []) n

Apart-nil : (n : Dict Text) → Apart [] n
unfolding has_key
Apart-nil [] = tt
Apart-nil (e ∷ n) = (refl, Apart-nil n)

format_line-Lacks : (k v : Text) → Lacks 10 k → Lacks 10 v → Lacks 10 (format_line (k, v))
format_line-Lacks [] v h g = (omega arith, g)
format_line-Lacks (c ∷ k) v (h, hs) g = (h, format_line-Lacks k v hs g)

format_lines-Lacks : (n : Dict Text) → AreEntries n → All (Lacks 10) (format_lines n)
format_lines-Lacks [] e = tt
format_lines-Lacks ((k, v) ∷ n) (e, es) =
    (format_line-Lacks k v e.1.2 e.2.2, format_lines-Lacks n es)

-- A map whose entries fit on lines, written as lines "key=value", is read back, if its keys differ.
pub parse_key_value_lines-format_lines :
    (m : Dict Text)
    → AreEntries m
    → NodupKeys m
    → parse_key_value_lines (join (10 ∷ []) (format_lines m)) ≡ m
unfolding parse_key_value_lines
parse_key_value_lines-format_lines [] e u =
    unfold join split parse_lines parse_line trim_space trim trim_left trim_right is_empty in refl
parse_key_value_lines-format_lines ((k, v) ∷ m) (e, es) u =
    let (h, hs) = format_lines-Lacks ((k, v) ∷ m) (e, es) in
    rw (split-join 10 (format_line (k, v)) (format_lines m) h hs)
      (parse_lines-format_lines [] ((k, v) ∷ m) (e, es) u (Apart-nil ((k, v) ∷ m)))

parse_line-NodupKeys : (line : Text) (m : Dict Text) → NodupKeys m → NodupKeys (parse_line line m)
unfolding parse_line
parse_line-NodupKeys line m u =
    let (k, v) = key_value (trim_space line) in ground (arith, insert-NodupKeys k v m u)

parse_lines-NodupKeys :
    (lines : List Text) (m : Dict Text) → NodupKeys m → NodupKeys (parse_lines lines m)
unfolding parse_lines
parse_lines-NodupKeys [] m u = u
parse_lines-NodupKeys (line ∷ lines) m u =
    parse_lines-NodupKeys lines (parse_line line m) (parse_line-NodupKeys line m u)

-- Whatever the text, a key of the result has one entry.
pub parse_key_value_lines-NodupKeys : (s : Text) → NodupKeys (parse_key_value_lines s)
unfolding parse_key_value_lines
parse_key_value_lines-NodupKeys s = parse_lines-NodupKeys (split 10 s) [] tt
