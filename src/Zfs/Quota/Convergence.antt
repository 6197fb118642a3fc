-- ===== src/Zfs/Quota/Convergence.antt =====
-- `ReconcileQuota` of zfs.go, run again: the quota that a reconcile leaves behind.
use k8s_subvol_provisioner.Base.{
  Bool, true, false, List, [], ◌∷◌, ◌++◌, Option, none, some, if◌then◌else◌, ◌≡◌, refl, ◌∙◌, sym,
}
use mathlib.Core.Path.{ap}
use k8s_subvol_provisioner.Base.Int.{ℤ, pos, eq_int, eq_int_iff, IsInt64}
use k8s_subvol_provisioner.Text.{Text}
use k8s_subvol_provisioner.Strconv.{format_int}
use k8s_subvol_provisioner.Errors.{Error, ok}
use k8s_subvol_provisioner.Exec.{pure, ◌>>=◌, ◌>>◌, bind-run, wrapping, after_command}
use k8s_subvol_provisioner.Zfs.{Zfs, run, run_zfs_set, set_args}
use k8s_subvol_provisioner.Zfs.Quota.{
  quota_args, quota_setting, quota_none, change_quota, current_quota, reconcile_quota,
}
use k8s_subvol_provisioner.Zfs.Quota.Laws.{parse_zfs_quota-format_int}

-- The quota in bytes that is asked for, where 0 is none
abbrev pub wanted_quota : Option ℤ → ℤ
wanted_quota none = pos 0
wanted_quota (some quota) = quota

-- The setting for it
abbrev pub setting_for : Option ℤ → Text
setting_for none = quota_none
setting_for (some quota) = quota_setting quota

module _ {W : Type 0} (d : Zfs W) (name : Text) where
  change_quota-nil :
      (wanted : Option ℤ) (dry_run : Bool) (w : W)
      → change_quota d name wanted dry_run (wanted_quota wanted) w ≡ (ok [], w)
  unfolding change_quota pure
  change_quota-nil none dry_run w = rw ((eq_int_iff (pos 0) (pos 0)).1 refl) refl
  change_quota-nil (some quota) dry_run w = rw ((eq_int_iff quota quota).1 refl) refl

  -- The change as one command, unless there is nothing to change
  change_quota-set :
      (wanted : Option ℤ) (current : ℤ)
      → (wrap : Error → Error) × ((x : List Text) × (change_quota d name wanted false current ≡ (
            if eq_int current (wanted_quota wanted)
            then pure []
            else wrapping wrap (run d [] (set_args d name (setting_for wanted)) >> pure tt)
              >> pure x)))
  unfolding change_quota run_zfs_set
  change_quota-set none current = (_, (_, refl))
  change_quota-set (some quota) current = (_, (_, refl))

module _ {W : Type 0} (d : Zfs W) (name : Text) (wanted : Option ℤ) where
  -- A dataset has a quota of 64 bits, which `zfs get` prints, and which a `zfs set` of the quota that is
  -- asked for sets where it succeeds.
  pub record HasQuota : Type 0 where
    pub quota : W → ℤ
    pub bounded : (w : W) → IsInt64 (quota w)
    pub read : (w : W) → run d [] (quota_args d name) w ≡ (ok (format_int (quota w) ++ 10 ∷ []), w)
    pub set :
        (w : W) (out : Text)
        → (run d [] (set_args d name (setting_for wanted)) w).0 ≡ ok out
        → quota (run d [] (set_args d name (setting_for wanted)) w).1 ≡ wanted_quota wanted

  module _ (has : HasQuota) where
    current_quota-shown : (w : W) → current_quota d name w ≡ (ok (has.quota w), w)
    unfolding current_quota ◌>>=◌
    current_quota-shown w =
        rw (has.read w) (rw (parse_zfs_quota-format_int (has.quota w) (has.bounded w)) refl)

    -- The change is made unless there is nothing to change.
    set_unless :
        (b : Bool) (wrap : Error → Error) (x : List Text) (w : W) (changes : List Text)
        → (b ≡ true → has.quota w ≡ wanted_quota wanted)
        → let m =
            if b
            then pure []
            else wrapping wrap (run d [] (set_args d name (setting_for wanted)) >> pure tt)
              >> pure x in
          (m w).0 ≡ ok changes → has.quota (m w).1 ≡ wanted_quota wanted
    unfolding pure
    set_unless true wrap x w changes same h = same refl
    set_unless false wrap x w changes same h =
        let (out, (done, state)) = after_command wrap _ x w changes h in
        rw state (has.set w out done)

    change_quota-sets :
        (w : W) (changes : List Text)
        → (change_quota d name wanted false (has.quota w) w).0 ≡ ok changes
        → has.quota (change_quota d name wanted false (has.quota w) w).1 ≡ wanted_quota wanted
    change_quota-sets w changes h =
        let (wrap, (x, same)) = change_quota-set d name wanted (has.quota w) in
        rw same (
          set_unless (eq_int (has.quota w) (wanted_quota wanted)) wrap x w changes
            (eq_int_iff _ _).0 (rw (← same) h))

    reconcile_quota-shown :
        (dry_run : Bool) (w : W)
        → reconcile_quota d name wanted dry_run w
          ≡ change_quota d name wanted dry_run (has.quota w) w
    unfolding reconcile_quota
    reconcile_quota-shown dry_run w =
        bind-run (current_quota d name) _ w w (has.quota w) (current_quota-shown w)

    -- A dataset that has the quota that is asked for is left alone.
    pub reconcile_quota_reached :
        (dry_run : Bool) (w : W)
        → has.quota w ≡ wanted_quota wanted
        → reconcile_quota d name wanted dry_run w ≡ (ok [], w)
    reconcile_quota_reached dry_run w reached =
        reconcile_quota-shown dry_run w
        ∙ (ap (λ n. change_quota d name wanted dry_run n w) reached
            ∙ change_quota-nil d name wanted dry_run w)

    -- After a reconcile that succeeds, the dataset has the quota that is asked for, and another
    -- reconcile, in a dry run or not, returns no change and changes nothing, if the dataset has a quota
    -- of 64 bits, which `zfs get` prints, and which a `zfs set` of the quota that is asked for sets where it succeeds.
    pub reconcile_quota_again :
        (dry_run : Bool) (w : W) (changes : List Text)
        → (reconcile_quota d name wanted false w).0 ≡ ok changes
        → let w' = (reconcile_quota d name wanted false w).1 in
          (has.quota w' ≡ wanted_quota wanted)
          × (reconcile_quota d name wanted dry_run w' ≡ (ok [], w'))
    reconcile_quota_again dry_run w changes h =
        let runs = reconcile_quota-shown false w in
        let w' = (reconcile_quota d name wanted false w).1 in
        let reached : has.quota w' ≡ wanted_quota wanted =
          rw runs (change_quota-sets w changes (sym (ap (λ p. p.0) runs) ∙ h)) in
        (reached, reconcile_quota_reached dry_run w' reached)
