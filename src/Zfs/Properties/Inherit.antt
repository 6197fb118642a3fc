-- ===== src/Zfs/Properties/Inherit.antt =====
-- The second loop of `ReconcileProperties` of zfs.go, where `zfs inherit` fails.
use k8s_subvol_provisioner.Base.{
  Bool, true, false, List, [], ◌∷◌, if◌then◌else◌, ◌≡◌, refl, ◌∙◌, All,
}
use mathlib.Core.Path.{ap}
use k8s_subvol_provisioner.Text.{Text}
use k8s_subvol_provisioner.Dict.{Dict}
use k8s_subvol_provisioner.Errors.{Error, ok}
use k8s_subvol_provisioner.Exec.{after_command, pure, ◌>>◌, wrapping}
use k8s_subvol_provisioner.Exec.Failing.{Fails}
use k8s_subvol_provisioner.Zfs.{Zfs, PropValue, run, run_zfs_inherit, inherit_args}
use k8s_subvol_provisioner.Zfs.Properties.{is_stale, inherit_one, inherit_all}
use k8s_subvol_provisioner.Zfs.Properties.Loops.{both_calls}

module _ {W : Type 0} (d : Zfs W) (name : Text) where
  -- `zfs inherit` refuses the name of the dataset in the place of a property.
  abbrev pub RefusesInherit : Type 0
  RefusesInherit = (k : Text) → Fails (run d [] (inherit_args d name k))

  -- The second loop succeeds only where it has nothing to do.
  inherit_unless :
      (b : Bool) (wrap : Error → Error) (x : List Text) (k : Text) (w : W) (changed : List Text)
      → RefusesInherit
      → let m =
          if b
          then wrapping wrap (run d [] (inherit_args d name k) >> pure tt) >> pure x
          else pure [] in
        (m w).0 ≡ ok changed → (b ≡ false) × ((m w).1 ≡ w)
  unfolding pure
  inherit_unless true wrap x k w changed refuses h =
      let (out, (done, state)) = after_command wrap _ x w changed h in
      let (e, failed) = refuses k w in absurd (cc)
  inherit_unless false wrap x k w changed refuses h = (refl, refl)

  inherit_one-kept :
      (desired : Dict Text) (k : Text) (cur : PropValue) (w : W) (changed : List Text)
      → RefusesInherit
      → (inherit_one d name false desired k cur w).0 ≡ ok changed
      → (is_stale desired k cur ≡ false) × ((inherit_one d name false desired k cur w).1 ≡ w)
  unfolding inherit_one run_zfs_inherit
  inherit_one-kept desired k cur w changed refuses h =
      inherit_unless (is_stale desired k cur) _ _ k w changed refuses h

  pub inherit_all-kept :
      (desired : Dict Text) (current : Dict PropValue) (w : W) (changes : List Text)
      → RefusesInherit
      → (inherit_all d name false desired current w).0 ≡ ok changes
      → All (λ e. is_stale desired e.0 e.1 ≡ false) current
        × ((inherit_all d name false desired current w).1 ≡ w)
  unfolding inherit_all pure
  inherit_all-kept desired [] w changes refuses h = (tt, refl)
  inherit_all-kept desired ((k, cur) ∷ current) w changes refuses h =
      let m = inherit_one d name false desired k cur in
      let (a, (b, (e, (f, whole)))) =
        both_calls m (inherit_all d name false desired current) w changes h in
      let (kept, same) = inherit_one-kept desired k cur w a refuses e in
      let (all, rest) = inherit_all-kept desired current (m w).1 b refuses f in
      ((kept, all), ap (λ p. p.1) whole ∙ (rest ∙ same))
