-- ===== src/Dir/Laws.antt =====
-- dir.go: its dry runs, and a deletion that asks for a backup.
use k8s_subvol_provisioner.Base.{true, false, [], ◌∷◌, Option, none, some, ◌≡◌}
use k8s_subvol_provisioner.Base.Int.{ℤ}
use k8s_subvol_provisioner.Text.{Text, is_empty}
use k8s_subvol_provisioner.Dict.{Dict}
use k8s_subvol_provisioner.Errors.{Result, ok, err}
use k8s_subvol_provisioner.Exec.{attempt}
use k8s_subvol_provisioner.Exec.Along.{
  Along, Same, Same-preorder, IsPreorder, Along-pure, Along-raise, Along-attempt, Along-bind,
  Along-if, Along-wrapping, bind_at,
}
use k8s_subvol_provisioner.Host.{Host, FileInfo}
use k8s_subvol_provisioner.Driver.{DeleteOptions, OwnerModeOptions, effective_path}
use k8s_subvol_provisioner.Driver.Laws.{IsDryRunSafe}
use k8s_subvol_provisioner.OwnerMode.{is_undeclared}
use k8s_subvol_provisioner.OwnerMode.DryRun.{IsObserving, reconcile_owner_mode_at_path_dry}
use k8s_subvol_provisioner.Dir.{
  target_path, is_there, exists, delete, back_up, renamed, clock, dir_reconciler, reconcile_quota,
  reconcile_owner_mode, reconcile_properties,
}

module _ {W : Type 0} (h : Host W) where
  quota_dry : (name : Text) (quota : Option ℤ) → Along Same (reconcile_quota h name quota true)
  unfolding reconcile_quota
  quota_dry name none = Along-pure Same-preorder []
  quota_dry name (some quota) = Along-raise Same-preorder _

  properties_dry :
      (name : Text) (props : Dict Text) → Along Same (reconcile_properties h name props true)
  unfolding reconcile_properties
  properties_dry name [] = Along-pure Same-preorder []
  properties_dry name (e ∷ props) = Along-raise Same-preorder _

  owner_mode_dry :
      (opts : OwnerModeOptions)
      → IsObserving h
      → opts.dry_run ≡ true
      → Along Same (reconcile_owner_mode h opts)
  unfolding reconcile_owner_mode
  owner_mode_dry opts o dry =
      Along-if (is_undeclared opts.owner opts.mode) _ _ (Along-pure Same-preorder []) (
        Along-if (is_empty opts.mount_path) _ _ (Along-pure Same-preorder []) (record {
          at =
              reconcile_owner_mode_at_path_dry h (effective_path opts.host_prefix opts.mount_path)
                opts o dry;
        }))

  -- The reconciler of the directory driver keeps the contract of dry runs, if looking at files
  -- changes nothing.
  pub dir_reconciler-IsDryRunSafe : IsObserving h → IsDryRunSafe (dir_reconciler h)
  dir_reconciler-IsDryRunSafe o = record {
    quota = λ name n. (quota_dry name n).at;
    owner_mode = λ opts dry. (owner_mode_dry opts o dry).at;
    properties = λ name props. (properties_dry name props).at;
  }

  module _ {R : W → W → Type 0} (p : IsPreorder R) where
    Along-is_there : (r : Result FileInfo) → Along R (is_there h r)
    Along-is_there (ok fi) = Along-pure p true
    Along-is_there (err e) = Along-if _ _ _ (Along-pure p false) (Along-raise p e)

    Along-exists : (path : Text) → Along R (h.stat path) → Along R (exists h path)
    unfolding exists
    Along-exists path k =
        Along-if _ _ _ (Along-raise p _) (Along-bind p _ _ (Along-attempt _ k) Along-is_there)

    Along-back_up :
        (path : Text)
        → ((new : Text) → Along R (h.rename path new))
        → ((new : Text) (w : W) → (h.rename path new w).0 ≡ ok tt)
        → Along R (back_up h path)
    unfolding attempt
    Along-back_up path k succeeds = record {
      at = λ w. bind_at p (clock h) _ w (p.reflexive w) λ time _.
          bind_at p (attempt (h.rename path _)) _ w ((k _).at w)
            λ r found. (settled r (after _ r (succeeds _ w) found)).at _;
    }
      where
        after : (x r : Result (Unit {0})) → x ≡ ok tt → ok x ≡ ok r → r ≡ ok tt
        after x r same found = cc

        settled : (r : Result (Unit {0})) → r ≡ ok tt → Along R (renamed h path r)
        settled (ok _) e = Along-pure p tt
        settled (err e') e = absurd (cc)

  -- A deletion that asks for a snapshot never removes the directory where renaming it succeeds:
  -- whatever relation looking at files and the renaming keep, the whole deletion keeps.
  pub delete-back_up :
      {R : W → W → Type 0} (opts : DeleteOptions) (w : W)
      → IsPreorder R
      → opts.snapshot_before_delete ≡ true
      → ((path : Text) → Along R (h.stat path))
      → ((path new : Text) → Along R (h.rename path new))
      → ((path new : Text) (v : W) → (h.rename path new v).0 ≡ ok tt)
      → R w (delete h opts w).1
  unfolding delete
  delete-back_up opts w p on stat rename succeeds =
      (Along-if (is_empty (target_path opts.mount_path opts.name)) _ _ (Along-raise p _) (
          Along-bind p _ _ (Along-wrapping p _ _ (Along-exists p _ (stat _))) λ there.
            Along-if there _ _ (rw on (Along-back_up p _ (rename _) (succeeds _)))
              (Along-pure p tt))).at
        w
