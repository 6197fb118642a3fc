-- ===== src/Zfs/Quota/Laws.antt =====
-- `ReconcileQuota` of zfs.go: the commands that it runs, and the changes that it returns.
use k8s_subvol_provisioner.Base.{
  Bool, true, false, ◌||◌, List, [], ◌∷◌, ◌++◌, Option, none, some, if◌then◌else◌, ◌≡◌, refl, arith,
}
use k8s_subvol_provisioner.Base.Int.{ℤ, pos, eq_int, eq_int_iff, IsInt64}
use k8s_subvol_provisioner.Text.{Text, codes, eq_text, is_empty, is_space, trim_space}
use k8s_subvol_provisioner.Text.Equality.{eq_text_iff, is_empty_iff}
use k8s_subvol_provisioner.Text.Trimming.{trim-append_space}
use k8s_subvol_provisioner.Strconv.{parse_int, parse_uint, digits_value, format_int}
use k8s_subvol_provisioner.Strconv.RoundTrip.{parse_int-format_int}
use k8s_subvol_provisioner.Config.Parsing.{format_int-plain}
use k8s_subvol_provisioner.Errors.{ok}
use k8s_subvol_provisioner.Exec.{◌>>=◌}
use k8s_subvol_provisioner.Exec.Along.{
  Along, Same, Same-preorder, Along-pure, Along-returned, Along-bind, Along-if, Along-wrapping,
}
use k8s_subvol_provisioner.Exec.Agree.{
  Agree, Agree-pure, Agree-if, Agree-bind, Agree-unit, Agree-after,
}
use k8s_subvol_provisioner.Driver.Laws.{Reads}
use k8s_subvol_provisioner.Zfs.{Zfs, run, run_zfs_set}
use k8s_subvol_provisioner.Zfs.Quota.{
  parse_zfs_quota, number_or_error, quota_args, change_quota, current_quota, reconcile_quota,
}

number_read :
    (t : Text) (n : ℤ)
    → parse_int t ≡ some n
    → (if is_empty t || eq_text t (codes "-") || eq_text t (codes "0") || eq_text t (codes "none")
        then ok (pos 0)
        else number_or_error t (parse_int t))
      ≡ ok n
number_read t n h = ground (
  arith,
  h,
  is_empty_iff t,
  eq_text_iff t (codes "-"),
  eq_text_iff t (codes "0"),
  eq_text_iff t (codes "none"),
  nil_read,
  dash_read,
  zero_read,
  none_read,
)
  where
    nil_read : parse_int [] ≡ none
    nil_read = unfold parse_int in refl

    dash_read : parse_int (codes "-") ≡ none
    dash_read = unfold parse_int parse_uint digits_value codes in refl

    zero_read : parse_int (codes "0") ≡ some (pos 0)
    zero_read = unfold parse_int parse_uint digits_value codes in refl

    none_read : parse_int (codes "none") ≡ none
    none_read = unfold parse_int parse_uint digits_value codes in refl

-- The output of `zfs get` for a quota: the number and a line end.
pub parse_zfs_quota-format_int :
    (n : ℤ) → IsInt64 n → parse_zfs_quota (format_int n ++ 10 ∷ []) ≡ ok n
unfolding parse_zfs_quota trim_space
parse_zfs_quota-format_int n h =
    rw (trim-append_space is_space (format_int n) 10 (format_int-plain n) (unfold is_space in refl))
      (number_read (format_int n) n (parse_int-format_int n h))

module _ {W : Type 0} (d : Zfs W) where
  Along-current_quota :
      (name : Text) → Reads (run d [] (quota_args d name)) → Along Same (current_quota d name)
  unfolding current_quota
  Along-current_quota name h =
      Along-bind Same-preorder _ _ (Along-wrapping Same-preorder _ _ (record { at = h }))
        λ out. Along-wrapping Same-preorder _ _ (Along-returned Same-preorder _)

  Along-run_zfs_set : (name prop : Text) → Along Same (run_zfs_set d true name prop)
  unfolding run_zfs_set
  Along-run_zfs_set name prop = Along-pure Same-preorder tt

  Along-change_quota :
      (name : Text) (quota : Option ℤ) (current : ℤ)
      → Along Same (change_quota d name quota true current)
  unfolding change_quota
  Along-change_quota name none current = Along-if _ _ _ (Along-pure Same-preorder []) (
      Along-bind Same-preorder _ _ (Along-wrapping Same-preorder _ _ (Along-run_zfs_set name _))
        (λ _. Along-pure Same-preorder _))
  Along-change_quota name (some quota) current = Along-if _ _ _ (Along-pure Same-preorder []) (
      Along-bind Same-preorder _ _ (Along-wrapping Same-preorder _ _ (Along-run_zfs_set name _))
        (λ _. Along-pure Same-preorder _))

  -- A dry run of a quota changes nothing, if `zfs get` changes nothing.
  pub reconcile_quota_dry :
      (name : Text) (quota : Option ℤ)
      → Reads (run d [] (quota_args d name))
      → Reads (reconcile_quota d name quota true)
  unfolding reconcile_quota
  reconcile_quota_dry name quota h =
      (Along-bind Same-preorder _ _ (Along-current_quota name h)
        (λ current. Along-change_quota name quota current)).at

  change_quota-Agree :
      (name : Text) (quota : Option ℤ) (b c : Bool) (current : ℤ)
      → Agree (change_quota d name quota b current) (change_quota d name quota c current)
  unfolding change_quota
  change_quota-Agree name none b c current =
      Agree-if _ _ _ _ _ (Agree-pure []) (Agree-bind _ _ _ _ (Agree-unit _ _) (λ _. Agree-pure _))
  change_quota-Agree name (some quota) b c current =
      Agree-if _ _ _ _ _ (Agree-pure []) (Agree-bind _ _ _ _ (Agree-unit _ _) (λ _. Agree-pure _))

  -- Where the dry run and the real run of a quota both succeed, the plan is what was changed.
  pub reconcile_quota-plan :
      (name : Text) (quota : Option ℤ) (w : W) (plan changes : List Text)
      → (reconcile_quota d name quota true w).0 ≡ ok plan
      → (reconcile_quota d name quota false w).0 ≡ ok changes
      → plan ≡ changes
  unfolding reconcile_quota
  reconcile_quota-plan name quota w plan changes =
      Agree-after (current_quota d name) _ _ w plan changes
        (change_quota-Agree name quota true false)

  -- A dataset that reports the quota that is asked for is left alone: no command but the one that
  -- reads the quota is run, and no change is returned.
  pub reconcile_quota_settled :
      (name : Text) (n : ℤ) (dry_run : Bool) (w w' : W)
      → IsInt64 n
      → run d [] (quota_args d name) w ≡ (ok (format_int n ++ 10 ∷ []), w')
      → reconcile_quota d name (some n) dry_run w ≡ (ok [], w')
  unfolding reconcile_quota current_quota change_quota ◌>>=◌
  reconcile_quota_settled name n dry_run w w' h e =
      rw (e, parse_zfs_quota-format_int n h, eq_int_refl n) refl
    where
      eq_int_refl : (m : ℤ) → eq_int m m ≡ true
      eq_int_refl m = (eq_int_iff m m).1 refl
