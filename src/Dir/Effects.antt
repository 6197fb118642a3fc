-- ===== src/Dir/Effects.antt =====
-- The calls of the host behind a creation and a deletion of dir.go, for one path.
use k8s_subvol_provisioner.Base.{
  Bool, true, false, [], ◌∷◌, Option, none, some, if◌then◌else◌, ◌≡◌, refl, ap, Bool-cases, inl,
  inr,
}
use k8s_subvol_provisioner.Base.Int.{ℤ}
use k8s_subvol_provisioner.Text.{Text, codes, is_empty}
use k8s_subvol_provisioner.Errors.{Error, errorf, wrapf, quoted, Result, ok, err, is_not_exist}
use k8s_subvol_provisioner.Exec.{
  pure, raise, attempt, ◌>>=◌, wrapping, wrapping-ok_inner, wrapping-ok_state, bind-ok,
  bind-ok_parts,
}
use k8s_subvol_provisioner.Exec.Along.{
  Along, IsPreorder, Along-pure, Along-raise, Along-attempt, Along-if, Along-bind, Along-wrapping,
}
use k8s_subvol_provisioner.Config.{Ownership, FileMode}
use k8s_subvol_provisioner.Host.{Host, FileInfo, try_chown, try_chmod}
use k8s_subvol_provisioner.Driver.{CreateOptions}
use k8s_subvol_provisioner.Dir.{
  make, create_at, delete_at, exists, is_there, check_error, remove_all, renamed, back_up,
  backup_path, clock,
}

module _ {W : Type 0} (h : Host W) where
  -- The calls of the host for the one path keep a relation.
  pub record ActsAt (R : W → W → Type 0) (path : Text) : Type 0 where
    pub preorder : IsPreorder R
    pub stat : Along R (h.stat path)
    pub mkdir_all : (mode : FileMode) → Along R (h.mkdir_all path mode)
    pub chown : (uid gid : ℤ) → Along R (h.chown path uid gid)
    pub chmod : (mode : FileMode) → Along R (h.chmod path mode)
    pub rename : (new : Text) → Along R (h.rename path new)
    pub remove_all : Along R (h.remove_all path)

  -- What holds of the world once the path is gone
  pub record Empties (Gone : W → Type 0) (path : Text) : Type 0 where
    pub absent :
        (w : W) (e : Error)
        → (h.stat path w).0 ≡ err e
        → is_not_exist e ≡ true
        → Gone (h.stat path w).1
    pub renamed :
        (w : W)
        → (h.rename path (backup_path h path (h.now w)) w).0 ≡ ok tt
        → Gone (h.rename path (backup_path h path (h.now w)) w).1
    pub removed : (w : W) → (h.remove_all path w).0 ≡ ok tt → Gone (h.remove_all path w).1

  module _ {R : W → W → Type 0} (p : IsPreorder R) (path : Text) where
    pub Along-try_chown :
        (o : Option Ownership)
        → ((uid gid : ℤ) → Along R (h.chown path uid gid))
        → Along R (try_chown h path o)
    Along-try_chown none k = Along-pure p tt
    Along-try_chown (some o) k =
        Along-bind p _ _ (Along-attempt _ (k o.uid o.gid)) (λ _. Along-pure p tt)

    pub Along-try_chmod :
        (m : Option FileMode)
        → ((mode : FileMode) → Along R (h.chmod path mode))
        → Along R (try_chmod h path m)
    Along-try_chmod none k = Along-pure p tt
    Along-try_chmod (some m) k = Along-bind p _ _ (Along-attempt _ (k m)) (λ _. Along-pure p tt)

  module _ {R : W → W → Type 0} (path : Text) (a : ActsAt R path) where
    Along-make : (opts : CreateOptions) → Along R (make h path opts)
    Along-make opts = Along-bind a.preorder _ _ (Along-wrapping a.preorder _ _ (a.mkdir_all _)) λ _.
        Along-bind a.preorder _ _ (Along-try_chown a.preorder path opts.owner a.chown) λ _.
          Along-bind a.preorder _ _ (Along-try_chmod a.preorder path opts.mode a.chmod)
            (λ _. Along-pure a.preorder _)

    Along-is_there : (r : Result FileInfo) → Along R (is_there h r)
    Along-is_there (ok fi) = Along-pure a.preorder true
    Along-is_there (err e) = Along-if _ _ _ (Along-pure a.preorder false) (Along-raise a.preorder e)

    Along-check : Along R (wrapping (check_error path) (exists h path))
    unfolding exists
    Along-check = Along-wrapping a.preorder _ _ (
        Along-if _ _ _ (Along-raise a.preorder _)
          (Along-bind a.preorder _ _ (Along-attempt _ a.stat) Along-is_there))

    pub Along-create_at : (opts : CreateOptions) → Along R (create_at h path opts)
    Along-create_at opts = Along-bind a.preorder _ _ Along-check λ there.
        Along-if there _ _
          (Along-if opts.adopt_existing _ _ (Along-pure a.preorder _) (Along-raise a.preorder _))
          (Along-make opts)

    Along-remove_all : Along R (remove_all h path)
    Along-remove_all = Along-wrapping a.preorder _ _ a.remove_all

    Along-renamed : (r : Result (Unit {0})) → Along R (renamed h path r)
    Along-renamed (ok _) = Along-pure a.preorder tt
    Along-renamed (err e) = Along-remove_all

    Along-clock : Along R (clock h)
    Along-clock = record { at = a.preorder.reflexive }

    Along-back_up : Along R (back_up h path)
    Along-back_up =
        Along-bind a.preorder _ _ Along-clock
          λ time. Along-bind a.preorder _ _ (Along-attempt _ (a.rename _)) Along-renamed

    pub Along-delete_at : (keep : Bool) → Along R (delete_at h path keep)
    Along-delete_at keep = Along-bind a.preorder _ _ Along-check λ there.
        Along-if there _ _ (Along-if keep _ _ Along-back_up Along-remove_all)
          (Along-pure a.preorder tt)

  module _ {Gone : W → Type 0} (path : Text) (g : Empties Gone path) where
    removed-Gone : (w : W) → (remove_all h path w).0 ≡ ok tt → Gone (remove_all h path w).1
    removed-Gone w done =
        let wrap = wrapf (codes "failed to delete directory %q: %w") (quoted path ∷ []) in
        let inner = wrapping-ok_inner wrap (h.remove_all path) w tt done in
        rw (wrapping-ok_state wrap (h.remove_all path) w inner) (g.removed w inner)

    back_up-Gone : (w : W) → (back_up h path w).0 ≡ ok tt → Gone (back_up h path w).1
    unfolding ◌>>=◌
    back_up-Gone w done = after (h.rename path (backup_path h path (h.now w)) w) refl done
      where
        after :
            (p : Result (Unit {0}) × W)
            → h.rename path (backup_path h path (h.now w)) w ≡ p
            → (renamed h path p.0 p.1).0 ≡ ok tt
            → Gone (renamed h path p.0 p.1).1
        after (ok _, v) same done = rw (← ap (λ p. p.1) same) (g.renamed w (ap (λ p. p.0) same))
        after (err e, v) same done = removed-Gone v done

    absent-Gone : (w : W) → (exists h path w).0 ≡ ok false → Gone (exists h path w).1
    unfolding exists ◌>>=◌
    absent-Gone w missing = split (is_empty path) missing
      where
        after :
            (p : Result FileInfo × W)
            → h.stat path w ≡ p
            → (is_there h p.0 p.1).0 ≡ ok false
            → Gone (is_there h p.0 p.1).1
        after (ok fi, v) same missing = absurd (cc)
        after (err e, v) same missing = elim (Bool-cases (is_not_exist e)) [
          | inl gone ↦ rw gone (rw (← ap (λ p. p.1) same) (g.absent w e (ap (λ p. p.0) same) gone))
          | inr other ↦ absurd (cc)
        ]

        split :
            (b : Bool)
            → ((if b
                  then raise (errorf (codes "path cannot be empty") [])
                  else (attempt (h.stat path) >>= is_there h))
                w).0
              ≡ ok false
            → Gone
                ((if b
                    then raise (errorf (codes "path cannot be empty") [])
                    else (attempt (h.stat path) >>= is_there h))
                  w).1
        split true missing = absurd (cc)
        split false missing = after (h.stat path w) refl missing

    pub delete_at-Gone :
        (keep : Bool) (w : W)
        → (delete_at h path keep w).0 ≡ ok tt
        → Gone (delete_at h path keep w).1
    unfolding pure
    delete_at-Gone keep w done =
        let (there, (found, rest)) =
          bind-ok_parts (wrapping (check_error path) (exists h path)) _ w tt done in
        let inner = wrapping-ok_inner _ (exists h path) w there found in
        rw (bind-ok (wrapping (check_error path) (exists h path)) _ w there found) (
          after keep there _ (ap (λ p. p.1) (wrapping-ok_state _ (exists h path) w inner)) inner
            rest)
      where
        after :
            (keep there : Bool) (v : W)
            → v ≡ (exists h path w).1
            → (exists h path w).0 ≡ ok there
            → ((if there then (if keep then back_up h path else remove_all h path) else pure tt)
                v).0
              ≡ ok tt
            → Gone
                ((if there then (if keep then back_up h path else remove_all h path) else pure tt)
                  v).1
        after true true v same found done = back_up-Gone v done
        after false true v same found done = removed-Gone v done
        after keep false v same found done = rw same (absent-Gone w found)
