-- ===== src/Btrfs/Laws.antt =====
-- btrfs.go: the commands of a creation and of a deletion, and what a creation returns.
use k8s_subvol_provisioner.Base.{
  Bool, true, false, [], Option, none, some, ◌≡◌, ◌≢◌, refl, ◌∙◌, Bool-cases, inl, inr,
}
use k8s_subvol_provisioner.Base.Int.{ℤ, is_positive}
use k8s_subvol_provisioner.Text.{Text, is_empty}
use k8s_subvol_provisioner.Text.Equality.{is_empty_ne}
use k8s_subvol_provisioner.Errors.{Error, Result, ok, err}
use k8s_subvol_provisioner.Exec.{pure, ◌>>=◌, result-bind, ensures-bind, wrapping-ok}
use k8s_subvol_provisioner.Exec.Along.{
  Along, Same, Same-preorder, Along-pure, Along-raise, Along-bind, Along-if, Keeps, Keeps-preorder,
  Along-wrapping,
}
use k8s_subvol_provisioner.Driver.{CreateOptions, DeleteOptions}
use k8s_subvol_provisioner.Driver.Laws.{Reads}
use k8s_subvol_provisioner.Host.{try_chown, try_chmod, FileInfo}
use k8s_subvol_provisioner.Config.{Ownership, FileMode}
use k8s_subvol_provisioner.Btrfs.{
  Btrfs, run, target_path, volume_info, show_args, create_args, snapshot_args, delete_args,
  snapshot_path, exists, check_exists, apply_quota, at_directory, apply_owner_mode, create_new,
  adopt, create, preserve, destroy, remove, delete,
}

module _ {W : Type 0} (d : Btrfs W) where
  exists_shown :
      (path : Text) (w : W) {out : Text}
      → (run d (show_args path) w).0 ≡ ok out
      → (check_exists d path w).0 ≡ ok true
  unfolding exists ◌>>=◌
  exists_shown path w h = rw h refl

  exists_absent :
      (path : Text) (w : W) {e : Error}
      → (run d (show_args path) w).0 ≡ err e
      → (check_exists d path w).0 ≡ ok false
  unfolding exists ◌>>=◌
  exists_absent path w h = rw h refl

  exists-world : (path : Text) (w : W) → (check_exists d path w).1 ≡ (run d (show_args path) w).1
  unfolding exists ◌>>=◌
  exists-world path w = refl

  Along-adopt : (path : Text) (opts : CreateOptions) → Along Same (adopt d path opts)
  Along-adopt path opts = Along-if _ _ _ (Along-pure Same-preorder _) (Along-raise Same-preorder _)

  -- The creation of a volume whose subvolume exists changes nothing, whether it adopts the subvolume
  -- or refuses it. This holds if `btrfs subvolume show` changes nothing.
  pub create-shown :
      (opts : CreateOptions) (w : W) {out : Text}
      → Reads (run d (show_args (target_path opts.mount_path opts.name)))
      → (run d (show_args (target_path opts.mount_path opts.name)) w).0 ≡ ok out
      → (create d opts w).1 ≡ w
  unfolding create
  create-shown opts w show there =
      let path = target_path opts.mount_path opts.name in
      elim (Bool-cases (is_empty path)) [
        | inl e ↦ rw e ((Along-raise Same-preorder _).at w)
        | inr e ↦ rw e (
            ensures-bind (λ done. done.1 ≡ w) (check_exists d path) _ w true
              (exists_shown path w there)
              ((Along-adopt path opts).at _ ∙ (exists-world path w ∙ show w)))
      ]

  -- `btrfs subvolume show` finds the subvolume.
  abbrev pub IsShown : Text → W → Type 0
  IsShown path w = (out : Text) × ((run d (show_args path) w).0 ≡ ok out)

  module _ (Q : W → Type 0) where
    preserve_gives :
        (path : Text) (w : W)
        → IsShown path w
        → ((v : W) (new : Text) → IsShown path v → Q (run d (snapshot_args path new) v).1)
        → Q (preserve d path w).1
    unfolding ◌>>=◌
    preserve_gives path w there h = h w (snapshot_path path (d.host.now w)) there

    Along-destroy :
        (path : Text)
        → ((v : W) → Q v → Q (run d (delete_args path) v).1)
        → Along (Keeps Q) (destroy d path)
    Along-destroy path h =
        Along-bind (Keeps-preorder Q) _ _
          (Along-wrapping (Keeps-preorder Q) _ _ (record { at = h }))
          (λ _. Along-pure (Keeps-preorder Q) tt)

    preserved :
        (path : Text) (keep : Bool) (w : W)
        → keep ≡ true
        → IsShown path w
        → ((v : W) (new : Text) → IsShown path v → Q (run d (snapshot_args path new) v).1)
        → ((v : W) → Q v → Q (run d (delete_args path) v).1)
        → Q (remove d path keep w).1
    unfolding ◌>>=◌
    preserved path true w on there taken kept =
        (Along-destroy path kept).at _ (preserve_gives path w there taken)
    preserved path false w on there taken kept = absurd (cc)

    -- A deletion that asks for a snapshot takes it while the subvolume still exists: what taking a
    -- snapshot of a subvolume that `btrfs subvolume show` finds brings about, and deleting the
    -- subvolume keeps, holds after the whole deletion, whether it succeeds or not. This holds if
    -- `show` finds the subvolume and changes nothing.
    pub delete-preserve :
        (opts : DeleteOptions) (w : W)
        → opts.snapshot_before_delete ≡ true
        → target_path opts.mount_path opts.name ≢ []
        → Reads (run d (show_args (target_path opts.mount_path opts.name)))
        → IsShown (target_path opts.mount_path opts.name) w
        → ((v : W) (new : Text)
            → IsShown (target_path opts.mount_path opts.name) v
            → Q (run d (snapshot_args (target_path opts.mount_path opts.name) new) v).1)
        → ((v : W) → Q v → Q (run d (delete_args (target_path opts.mount_path opts.name)) v).1)
        → Q (delete d opts w).1
    unfolding delete
    delete-preserve opts w on named show (out, there) taken kept =
        let path = target_path opts.mount_path opts.name in
        rw (is_empty_ne path named) (
          ensures-bind (λ done. Q done.1) (check_exists d path) _ w true (exists_shown path w there)
            (preserved path opts.snapshot_before_delete _ on (still path w show (out, there)) taken
              kept))
      where
        still :
            (path : Text) (v : W)
            → Reads (run d (show_args path))
            → IsShown path v
            → IsShown path (check_exists d path v).1
        still path v show there = rw (exists-world path v ∙ show v) there

  quota_returns : (path : Text) (quota : ℤ) (w : W) → (apply_quota d path quota w).0 ≡ ok tt
  unfolding apply_quota ◌>>=◌
  quota_returns path quota w = elim (Bool-cases (is_positive quota)) [
    | inl e ↦ rw e refl
    | inr e ↦ rw e refl
  ]

  chown_returns :
      (path : Text) (o : Option Ownership) (w : W) → (try_chown d.host path o w).0 ≡ ok tt
  unfolding ◌>>=◌
  chown_returns path none w = refl
  chown_returns path (some o) w = refl

  chmod_returns :
      (path : Text) (m : Option FileMode) (w : W) → (try_chmod d.host path m w).0 ≡ ok tt
  unfolding ◌>>=◌
  chmod_returns path none w = refl
  chmod_returns path (some m) w = refl

  directory_returns :
      (path : Text) (opts : CreateOptions) (r : Result FileInfo) (w : W)
      → (at_directory d path opts r w).0 ≡ ok tt
  unfolding pure
  directory_returns path opts (err e) w = refl
  directory_returns path opts (ok fi) w = elim (Bool-cases fi.is_dir) [
    | inl e ↦ rw e (
        result-bind (try_chown d.host path opts.owner) _ w tt (ok tt)
          (chown_returns path opts.owner w) (chmod_returns path opts.mode))
    | inr e ↦ rw e refl
  ]

  owner_mode_returns :
      (path : Text) (opts : CreateOptions) (w : W) → (apply_owner_mode d path opts w).0 ≡ ok tt
  unfolding apply_owner_mode ◌>>=◌
  owner_mode_returns path opts w = directory_returns path opts _ _

  created_returns :
      (path : Text) (opts : CreateOptions) (w : W) {out : Text}
      → (run d (create_args path) w).0 ≡ ok out
      → (create_new d path opts w).0 ≡ ok (volume_info opts)
  unfolding pure
  created_returns path opts w {out} h = result-bind _ _ w out _ (wrapping-ok _ _ w h) λ u.
      result-bind (apply_quota d path opts.quota_bytes) _ u tt _
        (quota_returns path opts.quota_bytes u)
        λ v.
          result-bind (apply_owner_mode d _ opts) _ v tt _ (owner_mode_returns _ opts v) (λ t. refl)

  -- Where `btrfs subvolume show` fails for a named target and the `btrfs subvolume create` that
  -- follows it succeeds, the creation succeeds, whatever becomes of its quota, owner and mode: that
  -- a quota which was asked for could not be set is no error.
  pub create-unlimited :
      (opts : CreateOptions) (w : W) {out : Text} {e : Error}
      → target_path opts.mount_path opts.name ≢ []
      → (run d (show_args (target_path opts.mount_path opts.name)) w).0 ≡ err e
      → (run d
          (create_args (target_path opts.mount_path opts.name))
          (run d (show_args (target_path opts.mount_path opts.name)) w).1).0
        ≡ ok out
      → (create d opts w).0 ≡ ok (volume_info opts)
  unfolding create
  create-unlimited opts w {out} named absent creates =
      let path = target_path opts.mount_path opts.name in
      rw (is_empty_ne path named) (
        ensures-bind (λ done. done.0 ≡ ok (volume_info opts)) (check_exists d path) _ w false
          (exists_absent path w absent) (created_returns path opts _ (made path creates)))
    where
      made :
          (path : Text)
          → (run d (create_args path) (run d (show_args path) w).1).0 ≡ ok out
          → (run d (create_args path) (check_exists d path w).1).0 ≡ ok out
      made path h = rw (exists-world path w) h
