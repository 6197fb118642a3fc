-- ===== src/OwnerMode/DryRun.antt =====
-- owner_mode.go in a dry run.
use k8s_subvol_provisioner.Base.{true, [], Option, none, some, ◌≡◌, refl, ◌∙◌}
use k8s_subvol_provisioner.Text.{Text}
use k8s_subvol_provisioner.Errors.{Result, ok, err}
use k8s_subvol_provisioner.Exec.{Exec}
use k8s_subvol_provisioner.Exec.Along.{
  Along, IsPreorder, Same, Same-preorder, Along-pure, Along-raise, Along-attempt, Along-if,
  Along-bind, Along-wrapping,
}
use k8s_subvol_provisioner.Config.{Ownership, FileMode}
use k8s_subvol_provisioner.Driver.{OwnerModeOptions}
use k8s_subvol_provisioner.Driver.Laws.{Reads}
use k8s_subvol_provisioner.Host.{Host, FileInfo, Owner, Entry, Walk}
use k8s_subvol_provisioner.OwnerMode.{
  set_owner, set_mode, fix_owner, fix_mode, in_walk, walk_owner, walk_mode, visit,
  reconcile_recursive, counts, at_file, reconcile_owner_mode_at_path, is_undeclared,
}

-- The world is the same; the counters may differ.
abbrev pub SameWorld : {W : Type 0} → Walk W → Walk W → Type 0
SameWorld s t = t.world ≡ s.world

SameWorld-preorder : {W : Type 0} → IsPreorder (SameWorld {W = W})
SameWorld-preorder = record { reflexive = λ s. refl; transitive = λ s t u h k. k ∙ h }

-- Looking at files changes nothing, and a walk changes only what its function changes.
pub record IsObserving {W : Type 0} (h : Host W) : Type 0 where
  pub stat : (path : Text) → Reads (h.stat path)
  pub info : (path : Text) → Reads (h.info path)
  pub walk :
      (root : Text) (f : Result Entry → Exec (Walk W) (Unit {0}))
      → ((e : Result Entry) → Along SameWorld (f e))
      → Along SameWorld (h.walk_dir root f)

module _ {W : Type 0} (h : Host W) where
  Along-in_walk : {A : Type 0} (m : Exec W A) → Along Same m → Along SameWorld (in_walk h m)
  Along-in_walk m k = record { at = λ s. k.at s.world }

  Along-set_owner : (path : Text) (want : Ownership) → Along Same (set_owner h path true want)
  unfolding set_owner
  Along-set_owner path want = Along-pure Same-preorder tt

  Along-set_mode : (path : Text) (want : FileMode) → Along Same (set_mode h path true want)
  unfolding set_mode
  Along-set_mode path want = Along-pure Same-preorder tt

  Along-fix_owner :
      (path : Text) (have : Option Owner) (want : Option Ownership)
      → Along Same (fix_owner h path true have want)
  Along-fix_owner path (some have) (some want) =
      Along-if _ _ _
        (Along-bind Same-preorder _ _ (Along-set_owner path want) (λ _. Along-pure Same-preorder _))
        (Along-pure Same-preorder [])
  Along-fix_owner path (some have) none = Along-pure Same-preorder []
  Along-fix_owner path none want = Along-pure Same-preorder []

  Along-fix_mode :
      (path : Text) (have : FileMode) (want : Option FileMode)
      → Along Same (fix_mode h path true have want)
  Along-fix_mode path have none = Along-pure Same-preorder []
  Along-fix_mode path have (some want) =
      Along-if _ _ _ (Along-pure Same-preorder [])
        (Along-bind Same-preorder _ _ (Along-set_mode path want) (λ _. Along-pure Same-preorder _))

  Along-walk_owner :
      (path : Text) (have : Option Owner) (want : Option Ownership)
      → Along SameWorld (walk_owner h path true have want)
  Along-walk_owner path (some have) (some want) =
      Along-if _ _ _
        (Along-bind SameWorld-preorder _ _ (Along-in_walk _ (Along-set_owner path want))
          (λ _. record { at = λ s. refl }))
        (Along-pure SameWorld-preorder tt)
  Along-walk_owner path (some have) none = Along-pure SameWorld-preorder tt
  Along-walk_owner path none want = Along-pure SameWorld-preorder tt

  Along-walk_mode :
      (path : Text) (have : FileMode) (want : Option FileMode)
      → Along SameWorld (walk_mode h path true have want)
  Along-walk_mode path have none = Along-pure SameWorld-preorder tt
  Along-walk_mode path have (some want) = Along-if _ _ _ (Along-pure SameWorld-preorder tt) (
      Along-bind SameWorld-preorder _ _ (Along-in_walk _ (Along-set_mode path want))
        (λ _. record { at = λ s. refl }))

  Along-visit :
      (root : Text) (opts : OwnerModeOptions) (r : Result Entry)
      → IsObserving h
      → opts.dry_run ≡ true
      → Along SameWorld (visit h root opts r)
  unfolding visit
  Along-visit root opts (err e) o dry = Along-raise SameWorld-preorder e
  Along-visit root opts (ok entry) o dry = rw dry (
      Along-if _ _ _ (Along-pure SameWorld-preorder tt) (
        Along-bind SameWorld-preorder _ _
          (Along-wrapping SameWorld-preorder _ _
            (Along-in_walk _ (record { at = o.info entry.path })))
          λ info.
            Along-bind SameWorld-preorder _ _ (Along-walk_owner entry.path info.owner opts.owner)
              λ _. Along-walk_mode entry.path info.mode opts.mode))

  counts-world :
      (root : Text) (done : Result (Unit {0}) × Walk W) → (counts h root done).1 ≡ done.1.world
  counts-world root (ok _, s) = refl
  counts-world root (err e, s) = refl

  Along-recursive :
      (path : Text) (opts : OwnerModeOptions)
      → IsObserving h
      → opts.dry_run ≡ true
      → Along Same (reconcile_recursive h path opts)
  unfolding reconcile_recursive
  Along-recursive path opts o dry = record {
    at = λ w.
        counts-world path _
        ∙ (o.walk path (visit h path opts) (λ e. Along-visit path opts e o dry)).at _;
  }

  Along-at_file :
      (path : Text) (opts : OwnerModeOptions) (r : Result FileInfo)
      → IsObserving h
      → opts.dry_run ≡ true
      → Along Same (at_file h path opts r)
  Along-at_file path opts (err e) o dry =
      Along-if _ _ _ (Along-pure Same-preorder []) (Along-raise Same-preorder _)
  Along-at_file path opts (ok fi) o dry =
      Along-bind Same-preorder _ _ (rw dry (Along-fix_owner path fi.owner opts.owner)) λ owned.
        Along-bind Same-preorder _ _ (rw dry (Along-fix_mode path fi.mode opts.mode)) λ moded.
          Along-bind Same-preorder _ _
            (Along-if opts.recursive _ _
              (Along-bind Same-preorder _ _ (Along-recursive path opts o dry)
                (λ n. Along-pure Same-preorder _))
              (Along-pure Same-preorder []))
            λ below. Along-pure Same-preorder _

  -- A dry run of the owner and mode of a path, and of all below it if asked, changes nothing: neither
  -- an owner nor a mode. This holds if looking at files changes nothing and a walk changes only what
  -- its function changes.
  pub reconcile_owner_mode_at_path_dry :
      (path : Text) (opts : OwnerModeOptions)
      → IsObserving h
      → opts.dry_run ≡ true
      → Reads (reconcile_owner_mode_at_path h path opts)
  unfolding reconcile_owner_mode_at_path
  reconcile_owner_mode_at_path_dry path opts o dry =
      (Along-if (is_undeclared opts.owner opts.mode) _ _ (Along-pure Same-preorder []) (
        Along-bind Same-preorder _ _ (Along-attempt _ (record { at = o.stat path }))
          λ r. Along-at_file path opts r o dry)).at
