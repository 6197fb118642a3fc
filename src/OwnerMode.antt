-- ===== src/OwnerMode.antt =====
-- pkg/driver/owner_mode.go
pub mod DryRun
use k8s_subvol_provisioner.Base.{
  ℕ, ◌+◌, ◌/◌, ◌%◌, ◌==◌, ltb, Bool, true, false, not, ◌||◌, ◌&&◌, List, [], ◌∷◌, ◌++◌, Option,
  none, some, zero, suc, if◌then◌else◌,
}
use k8s_subvol_provisioner.Base.Int.{ℤ, pos, to_uint32}
use k8s_subvol_provisioner.Text.{Text, codes, eq_text, arrow}
use k8s_subvol_provisioner.Strconv.{format_int, format_nat}
use k8s_subvol_provisioner.Errors.{Error, wrapf, quoted, Result, ok, err, is_not_exist}
use k8s_subvol_provisioner.Exec.{Exec, pure, raise, attempt, ◌>>=◌, ◌>>◌, wrapping}
use k8s_subvol_provisioner.Config.{Ownership, FileMode}
use k8s_subvol_provisioner.Driver.{OwnerModeOptions}
use k8s_subvol_provisioner.Host.{Host, FileInfo, Owner, Entry, Walk}

-- `mode.Perm()`, which is `mode & 0777`
unfoldable pub perm : FileMode → ℕ
perm m = m % 512

abbrev octal_digit : ℕ → ℕ
octal_digit n = b'0' + n % 8

-- The verb `%04o` for a permission, which has at most three octal digits
unfoldable pub format_perm : ℕ → Text
format_perm p = b'0' ∷ octal_digit (p / 64) ∷ octal_digit (p / 8) ∷ octal_digit p ∷ []

-- `stat.Uid != uint32(UID) || stat.Gid != uint32(GID)`
unfoldable pub owner_differs : Owner → Ownership → Bool
owner_differs have want =
    not (have.uid == to_uint32 want.uid) || not (have.gid == to_uint32 want.gid)

-- `fmt.Sprintf("owner=%d:%d→%d:%d", …)`
unfoldable pub owner_change : Owner → Ownership → Text
owner_change have want =
    codes "owner="
    ++ (format_nat have.uid
        ++ b':'
          ∷ (format_nat have.gid ++ (arrow ++ (format_int want.uid ++ b':' ∷ format_int want.gid))))

-- `fmt.Sprintf("mode=%04o→%04o", …)`
unfoldable pub mode_change : FileMode → FileMode → Text
mode_change have want =
    codes "mode=" ++ (format_perm (perm have) ++ (arrow ++ format_perm (perm want)))

-- `if n > 0 { changes = append(changes, …) }`
unfoldable pub count_change : Text → ℕ → List Text
count_change label zero = []
count_change label (suc n) = (label ++ (format_nat (suc n) ++ codes " paths")) ∷ []

-- `owner == nil && mode == nil`
abbrev pub is_undeclared : Option Ownership → Option FileMode → Bool
is_undeclared none none = true
is_undeclared none (some m) = false
is_undeclared (some o) m = false

module _ {W : Type 0} (h : Host W) where
  -- `if !opts.DryRun { os.Chown }`
  unfoldable pub set_owner : Text → Bool → Ownership → Exec W (Unit {0})
  set_owner path dry_run want =
      if dry_run
      then pure tt
      else wrapping (wrapf (codes "failed to chown %q: %w") (quoted path ∷ []))
          (h.chown path want.uid want.gid)

  -- `if !opts.DryRun { os.Chmod }`
  unfoldable pub set_mode : Text → Bool → FileMode → Exec W (Unit {0})
  set_mode path dry_run want =
      if dry_run
      then pure tt
      else wrapping (wrapf (codes "failed to chmod %q: %w") (quoted path ∷ []))
          (h.chmod path (perm want))

  abbrev fix_owner : Text → Bool → Option Owner → Option Ownership → Exec W (List Text)
  fix_owner path dry_run (some have) (some want) =
      if owner_differs have want
      then (do set_owner path dry_run want; pure (owner_change have want ∷ []))
      else pure []
  fix_owner path dry_run (some have) none = pure []
  fix_owner path dry_run none want = pure []

  abbrev fix_mode : Text → Bool → FileMode → Option FileMode → Exec W (List Text)
  fix_mode path dry_run have none = pure []
  fix_mode path dry_run have (some want) =
      if perm have == perm want
      then pure []
      else (do set_mode path dry_run want; pure (mode_change have want ∷ []))

  -- The counters of the walk, next to the world
  abbrev in_walk : {A : Type 0} → Exec W A → Exec (Walk W) A
  in_walk m s = let (r, w) = m s.world in (r, record s { world = w })

  abbrev count_owner : Exec (Walk W) (Unit {0})
  count_owner s = (ok tt, record s { reowned = s.reowned + 1 })

  abbrev count_mode : Exec (Walk W) (Unit {0})
  count_mode s = (ok tt, record s { rechmod = s.rechmod + 1 })

  abbrev walk_owner : Text → Bool → Option Owner → Option Ownership → Exec (Walk W) (Unit {0})
  walk_owner path dry_run (some have) (some want) =
      if owner_differs have want
      then (do in_walk (set_owner path dry_run want); count_owner)
      else pure tt
  walk_owner path dry_run (some have) none = pure tt
  walk_owner path dry_run none want = pure tt

  abbrev walk_mode : Text → Bool → FileMode → Option FileMode → Exec (Walk W) (Unit {0})
  walk_mode path dry_run have none = pure tt
  walk_mode path dry_run have (some want) =
      if perm have == perm want
      then pure tt
      else (do in_walk (set_mode path dry_run want); count_mode)

  -- The function that `filepath.WalkDir` is given
  unfoldable pub visit : Text → OwnerModeOptions → Result Entry → Exec (Walk W) (Unit {0})
  visit root opts (err e) = raise e
  visit root opts (ok entry) = if eq_text entry.path root || entry.is_symlink then pure tt else (do
    info ←
        wrapping (wrapf (codes "failed to stat %q: %w") (quoted entry.path ∷ []))
          (in_walk (h.info entry.path))
    walk_owner entry.path opts.dry_run info.owner opts.owner
    walk_mode entry.path opts.dry_run info.mode opts.mode)

  abbrev counts : Text → Result (Unit {0}) × Walk W → Result (ℕ × ℕ) × W
  counts root (ok _, s) = (ok (s.reowned, s.rechmod), s.world)
  counts root (err e, s) = (
    err (
        wrapf (codes "failed recursive owner/mode reconciliation under %q: %w") (quoted root ∷ [])
          e),
    s.world,
  )

  -- `reconcileOwnerModeRecursive`
  unfoldable pub reconcile_recursive : Text → OwnerModeOptions → Exec W (ℕ × ℕ)
  reconcile_recursive root opts w =
      counts root
        (h.walk_dir root (visit root opts) (record { world = w; reowned = 0; rechmod = 0 }))

  abbrev recursive_changes : Text → OwnerModeOptions → Exec W (List Text)
  recursive_changes path opts =
      if opts.recursive
      then (do
        n ← reconcile_recursive path opts
        pure (
            count_change (codes "owner recursive: ") n.0
            ++ count_change (codes "mode recursive: ") n.1))
      else pure []

  abbrev at_file : Text → OwnerModeOptions → Result FileInfo → Exec W (List Text)
  at_file path opts (err e) =
      if is_not_exist e
      then pure []
      else raise (wrapf (codes "failed to stat %q: %w") (quoted path ∷ []) e)
  at_file path opts (ok fi) = do
    owned ← fix_owner path opts.dry_run fi.owner opts.owner
    moded ← fix_mode path opts.dry_run fi.mode opts.mode
    below ← recursive_changes path opts
    pure (owned ++ (moded ++ below))

  -- `ReconcileOwnerModeAtPath`
  unfoldable pub reconcile_owner_mode_at_path : Text → OwnerModeOptions → Exec W (List Text)
  reconcile_owner_mode_at_path path opts =
      if is_undeclared opts.owner opts.mode
      then pure []
      else (do fi ← attempt (h.stat path); at_file path opts fi)
