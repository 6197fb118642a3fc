-- ===== src/Zfs/Volumes/Keys.antt =====
-- The key of an encrypted dataset in the commands of a creation.
use k8s_subvol_provisioner.Base.{
  Bool, true, false, List, [], some, if◌then◌else◌, ◌≡◌, ◌≢◌, refl, Bool-cases, inl, inr,
}
use k8s_subvol_provisioner.Text.{Text, is_empty}
use k8s_subvol_provisioner.Text.Equality.{is_empty_ne}
use k8s_subvol_provisioner.Errors.{Result, ok, err}
use k8s_subvol_provisioner.Exec.{continue, ◌>>=◌}
use k8s_subvol_provisioner.Config.{EncryptionConfig}
use k8s_subvol_provisioner.Driver.{CreateOptions}
use k8s_subvol_provisioner.Zfs.{Zfs, run}
use k8s_subvol_provisioner.Zfs.Volumes.{
  encryption_args, key_input, create_args, find_mount_path, apply_owner_mode, check_exists, adopt,
  create_new, create,
}

-- The options of a creation with another key
abbrev pub with_key : CreateOptions → EncryptionConfig → Text → CreateOptions
with_key opts e key = record opts { encryption = some (record e { key_data = key }) }

module _ (opts : CreateOptions) (e : EncryptionConfig) (k k' : Text) (h : k ≢ [])
    (h' : k' ≢ []) where
  encryption_args-key_data :
      encryption_args (some (record e { key_data = k }))
      ≡ encryption_args (some (record e { key_data = k' }))
  unfolding encryption_args
  encryption_args-key_data = rw (is_empty_ne k h) (rw (is_empty_ne k' h') refl)

  module _ {W : Type 0} (d : Zfs W)
      (same : (input input' path : Text) (args : List Text) (w : W)
        → d.executor.run input path args w ≡ d.executor.run input' path args w) where
    create_new-key_data :
        (w : W) → create_new d (with_key opts e k) w ≡ create_new d (with_key opts e k') w
    unfolding create_args run ◌>>=◌ find_mount_path apply_owner_mode
    create_new-key_data w = rw encryption_args-key_data (
        rw
          (same (key_input (some (record e { key_data = k })))
            (key_input (some (record e { key_data = k' }))) _ _ w)
          refl)

    -- The key of an encrypted dataset shows on the standard input of a command and nowhere else: a
    -- creation with either of two keys that are not empty returns the same and leaves the world the
    -- same, in every world that does not look at the standard input of a command.
    pub create-with_key : (w : W) → create d (with_key opts e k) w ≡ create d (with_key opts e k') w
    unfolding create ◌>>=◌ find_mount_path
    create-with_key w = elim (Bool-cases (is_empty opts.name)) [
      | inl e ↦ rw e refl
      | inr e ↦ rw e (go (check_exists d opts.name w))
    ]
      where
        go :
            (p : Result Bool × W)
            → continue p.0
                (λ there.
                  if there then adopt d (with_key opts e k) else create_new d (with_key opts e k))
                p.1
              ≡ continue p.0
                  (λ there.
                    if there
                    then adopt d (with_key opts e k')
                    else create_new d (with_key opts e k'))
                  p.1
        go (ok true, v) = refl
        go (ok false, v) = create_new-key_data v
        go (err e, v) = refl
