-- ===== src/Dir/Filling.antt =====
-- A creation of dir.go that succeeds: the directory is there.
use k8s_subvol_provisioner.Base.{
  Bool, true, false, [], if◌then◌else◌, ◌≡◌, refl, ap, Bool-cases, inl, inr,
}
use k8s_subvol_provisioner.Base.Int.{ℤ}
use k8s_subvol_provisioner.Text.{Text, codes, is_empty}
use k8s_subvol_provisioner.Errors.{errorf, wrapf, quoted, Result, ok, err, is_not_exist}
use k8s_subvol_provisioner.Base.{◌∷◌}
use k8s_subvol_provisioner.Exec.{
  pure, raise, attempt, ◌>>=◌, ◌>>◌, wrapping, wrapping-ok_inner, wrapping-ok_state, bind-ok,
  bind-ok_parts,
}
use k8s_subvol_provisioner.Exec.Along.{Along, Along-pure, Along-bind, Keeps, Keeps-preorder}
use k8s_subvol_provisioner.Config.{FileMode}
use k8s_subvol_provisioner.Host.{Host, FileInfo, try_chown, try_chmod}
use k8s_subvol_provisioner.Driver.{CreateOptions, VolumeInfo}
use k8s_subvol_provisioner.Dir.{
  make, adopt, create_at, exists, is_there, check_error, mode_or_default, volume_info,
}
use k8s_subvol_provisioner.Dir.Effects.{Along-try_chown, Along-try_chmod}

module _ {W : Type 0} (h : Host W) where
  -- What holds of the world while the path is there
  pub record Fills (Made : W → Type 0) (path : Text) : Type 0 where
    pub found : (w : W) (fi : FileInfo) → (h.stat path w).0 ≡ ok fi → Made (h.stat path w).1
    pub made :
        (mode : FileMode) (w : W)
        → (h.mkdir_all path mode w).0 ≡ ok tt
        → Made (h.mkdir_all path mode w).1
    pub chown : (uid gid : ℤ) → Along (Keeps Made) (h.chown path uid gid)
    pub chmod : (mode : FileMode) → Along (Keeps Made) (h.chmod path mode)

  module _ {Made : W → Type 0} (path : Text) (f : Fills Made path) where
    abbrev owned : CreateOptions → W → Result VolumeInfo × W
    owned opts =
        try_chown h path opts.owner >> (try_chmod h path opts.mode >> pure (volume_info opts))

    Along-owned : (opts : CreateOptions) → Along (Keeps Made) (owned opts)
    Along-owned opts =
        Along-bind (Keeps-preorder Made) _ _
          (Along-try_chown h (Keeps-preorder Made) path opts.owner f.chown)
          λ _.
            Along-bind (Keeps-preorder Made) _ _
              (Along-try_chmod h (Keeps-preorder Made) path opts.mode f.chmod)
              (λ _. Along-pure (Keeps-preorder Made) _)

    make-Made :
        (opts : CreateOptions) (w : W) (info : VolumeInfo)
        → (make h path opts w).0 ≡ ok info
        → Made (make h path opts w).1
    make-Made opts w info done =
        let wrap = wrapf (codes "failed to create directory %q: %w") (quoted path ∷ []) in
        let m = h.mkdir_all path (mode_or_default opts.mode) in
        let (u, (first, _)) = bind-ok_parts (wrapping wrap m) (λ _. owned opts) w info done in
        let inner = wrapping-ok_inner wrap m w u first in
        rw (bind-ok (wrapping wrap m) (λ _. owned opts) w u first) (
          (Along-owned opts).at _
            (rw (wrapping-ok_state wrap m w inner) (f.made (mode_or_default opts.mode) w inner)))

    found-Made : (w : W) → (exists h path w).0 ≡ ok true → Made (exists h path w).1
    unfolding exists ◌>>=◌
    found-Made w there = split (is_empty path) there
      where
        after :
            (p : Result FileInfo × W)
            → h.stat path w ≡ p
            → (is_there h p.0 p.1).0 ≡ ok true
            → Made (is_there h p.0 p.1).1
        after (ok fi, v) same there = rw (← ap (λ p. p.1) same) (f.found w fi (ap (λ p. p.0) same))
        after (err e, v) same there = elim (Bool-cases (is_not_exist e)) [
          | inl gone ↦ absurd (cc)
          | inr other ↦ absurd (cc)
        ]

        split :
            (b : Bool)
            → ((if b
                  then raise (errorf (codes "path cannot be empty") [])
                  else (attempt (h.stat path) >>= is_there h))
                w).0
              ≡ ok true
            → Made
                ((if b
                    then raise (errorf (codes "path cannot be empty") [])
                    else (attempt (h.stat path) >>= is_there h))
                  w).1
        split true there = absurd (cc)
        split false there = after (h.stat path w) refl there

    adopt-world : (opts : CreateOptions) (v : W) → (adopt h opts v).1 ≡ v
    unfolding pure raise
    adopt-world opts v = elim (Bool-cases opts.adopt_existing) [
      | inl e ↦ rw e refl
      | inr e ↦ rw e refl
    ]

    -- A creation that succeeds made the directory or found it there.
    pub create_at-Made :
        (opts : CreateOptions) (w : W) (info : VolumeInfo)
        → (create_at h path opts w).0 ≡ ok info
        → Made (create_at h path opts w).1
    create_at-Made opts w info done =
        let (there, (first, rest)) =
          bind-ok_parts (wrapping (check_error path) (exists h path)) _ w info done in
        let inner = wrapping-ok_inner (check_error path) (exists h path) w there first in
        rw (bind-ok (wrapping (check_error path) (exists h path)) _ w there first) (
          after there _
            (ap (λ p. p.1) (wrapping-ok_state (check_error path) (exists h path) w inner)) inner
            rest)
      where
        after :
            (there : Bool) (v : W)
            → v ≡ (exists h path w).1
            → (exists h path w).0 ≡ ok there
            → ((if there then adopt h opts else make h path opts) v).0 ≡ ok info
            → Made ((if there then adopt h opts else make h path opts) v).1
        after true v same found done = rw (adopt-world opts v) (rw same (found-Made w found))
        after false v same found done = make-Made opts v info done
