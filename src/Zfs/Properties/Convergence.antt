-- ===== src/Zfs/Properties/Convergence.antt =====
-- `ReconcileProperties` of zfs.go, run again: the properties that a reconcile leaves behind.
use k8s_subvol_provisioner.Base.{
  Bool, true, false, List, [], ◌∷◌, ◌++◌, some, if◌then◌else◌, ◌≡◌, ◌≢◌, refl, sym, ◌∙◌, arith, All,
  Bool-cases, inl, inr,
}
use mathlib.Core.Path.{subst, ap}
use mathlib.Core.List.{Permᴰ}
use mathlib.Core.List.Permᴰ.{symm}
use k8s_subvol_provisioner.Text.{Text}
use k8s_subvol_provisioner.Text.Equality.{eq_text_iff}
use k8s_subvol_provisioner.Dict.{Dict, lookup, has_key}
use k8s_subvol_provisioner.Dict.Laws.{NodupKeys, lookup-All}
use k8s_subvol_provisioner.Dict.Order.{Permᴰ-All, Permᴰ-has_key, Permᴰ-NodupKeys, lookup-entries}
use k8s_subvol_provisioner.Errors.{Error, ok}
use k8s_subvol_provisioner.Exec.{after_command, Exec, pure, ◌>>=◌, ◌>>◌, wrapping}
use k8s_subvol_provisioner.Zfs.{Zfs, PropValue, run, run_zfs_set, set_args}
use k8s_subvol_provisioner.Zfs.Properties.{
  managed_only, is_stale, prop_setting, props_args, parse_props, has_value, get_props, set_one,
  set_all, inherit_all, reconcile_properties,
}
use k8s_subvol_provisioner.Zfs.Properties.Loops.{
  InSomeOrder, parse_props-NodupKeys, managed_only-NodupKeys, both_calls, set_all-nil,
  inherit_all-nil,
}
use k8s_subvol_provisioner.Zfs.Properties.Inherit.{RefusesInherit, inherit_all-kept}

module _ {W : Type 0} (d : Zfs W) (name : Text) where
  -- The properties that `zfs get` shows, which changes nothing
  pub record Shows : Type 0 where
    pub text : W → Text
    pub read : (w : W) → run d [] (props_args d name []) w ≡ (ok (text w), w)

  module _ (shows : Shows) where
    abbrev pub view : W → Dict PropValue
    view w = parse_props (shows.text w)

    -- From one world to the next a property gets a value, and the others stay as they are.
    abbrev pub IsAssigned : Text → Text → W → W → Type 0
    IsAssigned k v w w' =
        (has_value (lookup k (view w')) v ≡ true)
        × ((j : Text) → j ≢ k → lookup j (view w') ≡ lookup j (view w))

    -- Some properties get their values, and the others stay as they are.
    abbrev pub AreAssigned : Dict Text → W → W → Type 0
    AreAssigned desired w w' =
        All (λ e. has_value (lookup e.0 (view w')) e.1 ≡ true) desired
        × ((j : Text) → has_key j desired ≡ false → lookup j (view w') ≡ lookup j (view w))

    -- Where `zfs set` succeeds, the property is shown with the value as it was written, and the
    -- other properties as before.
    abbrev pub SetsAsWritten : Text × Text → Type 0
    SetsAsWritten (k, v) =
        (w : W) (out : Text)
        → (run d [] (set_args d name (prop_setting k v)) w).0 ≡ ok out
        → IsAssigned k v w (run d [] (set_args d name (prop_setting k v)) w).1

    set_unless :
        (b : Bool) (wrap : Error → Error) (x : List Text) (k v : Text) (w : W) (changed : List Text)
        → SetsAsWritten (k, v)
        → (b ≡ true → has_value (lookup k (view w)) v ≡ true)
        → let m =
            if b
            then pure []
            else wrapping wrap (run d [] (set_args d name (prop_setting k v)) >> pure tt)
              >> pure x in
          (m w).0 ≡ ok changed → IsAssigned k v w (m w).1
    unfolding pure
    set_unless true wrap x k v w changed sets has h = (has refl, λ j ne. refl)
    set_unless false wrap x k v w changed sets has h =
        let (out, (done, state)) = after_command wrap _ x w changed h in rw state (sets w out done)

    -- A round leaves the property with the value that is asked for, and the others as they are.
    set_one-sets :
        (current : Dict PropValue) (k v : Text) (w : W) (changed : List Text)
        → SetsAsWritten (k, v)
        → lookup k (view w) ≡ lookup k current
        → (set_one d name false current k v w).0 ≡ ok changed
        → IsAssigned k v w (set_one d name false current k v w).1
    unfolding set_one run_zfs_set
    set_one-sets current k v w changed sets same h =
        set_unless (has_value (lookup k current) v) _ _ k v w changed sets (λ has. rw same has) h

    -- The loop leaves every property that it is given with its value, and the others as they are.
    set_all-sets :
        (current : Dict PropValue) (desired : Dict Text) (w : W) (changes : List Text)
        → NodupKeys desired
        → All SetsAsWritten desired
        → ((k : Text) → has_key k desired ≡ true → lookup k (view w) ≡ lookup k current)
        → (set_all d name false current desired w).0 ≡ ok changes
        → AreAssigned desired w (set_all d name false current desired w).1
    unfolding set_all has_key pure
    set_all-sets current [] w changes u sets same h = (tt, λ j out. refl)
    set_all-sets current ((k, v) ∷ desired) w changes (out, u) (set, sets) same h =
        let m = set_one d name false current k v in
        let (a, (b, (e, (f, whole)))) =
          both_calls m (set_all d name false current desired) w changes h in
        let (now, kept) =
          set_one-sets current k v w a set (same k (ground (arith, eq_text_iff k k))) e in
        let (all, rest) =
          set_all-sets current desired (m w).1 b u sets
            (λ j given. kept j (ground arith) ∙ same j (ground arith)) f in
        subst (AreAssigned ((k, v) ∷ desired) w) (sym (ap (λ p. p.1) whole)) (
          (rw (rest k out) now, all),
          λ j outside. rest j (ground arith) ∙ kept j (ground (arith, eq_text_iff k j)),
        )

    -- Every managed property that is asked for is shown with its value, and no other managed
    -- property is set on the dataset.
    pub record IsReached (props : Dict Text) (w : W) : Type 0 where
      pub given : All (λ e. has_value (lookup e.0 (view w)) e.1 ≡ true) (managed_only props)
      pub cleared : All (λ e. is_stale (managed_only props) e.0 e.1 ≡ false) (view w)

    -- After the second loop succeeds, what was not stale before the first loop is not stale.
    not_stale :
        (desired : Dict Text) (w w' : W)
        → AreAssigned desired w w'
        → All (λ e. is_stale desired e.0 e.1 ≡ false) (view w)
        → All (λ e. is_stale desired e.0 e.1 ≡ false) (view w')
    unfolding is_stale
    not_stale desired w w' (_, kept) h =
        lookup-entries (λ k cur. is_stale desired k cur ≡ false) (view w') (parse_props-NodupKeys _)
          λ k cur found. elim (Bool-cases (has_key k desired)) [
            | inl e ↦ rw e refl
            | inr e ↦
                lookup-All (λ k cur. is_stale desired k cur ≡ false) (view w) k cur h
                  (sym (kept k e) ∙ found)
          ]

    abbrev loops : Bool → Dict Text → Dict PropValue → Exec W (List Text)
    loops dry_run desired current = do
      changed ← set_all d name dry_run current (d.range_texts desired)
      inherited ← inherit_all d name dry_run desired (d.range_props current)
      pure (changed ++ inherited)

    -- The loops run on what `zfs get` shows.
    reconcile_properties-view :
        (props : Dict Text) (dry_run : Bool) (w : W)
        → reconcile_properties d name props dry_run w
          ≡ loops dry_run (managed_only props) (view w) w
    unfolding reconcile_properties get_props ◌>>=◌
    reconcile_properties-view props dry_run w = rw (shows.read w) refl

    AreAssigned-order :
        (desired ranged : Dict Text) (w w' : W)
        → Permᴰ desired ranged
        → AreAssigned ranged w w'
        → AreAssigned desired w w'
    AreAssigned-order desired ranged w w' p (all, kept) =
        (Permᴰ-All _ (symm p) all, λ j out. kept j (rw (← Permᴰ-has_key j p) out))

    loops-AreAssigned :
        (desired : Dict Text) (w : W) (changes : List Text)
        → InSomeOrder d
        → NodupKeys desired
        → All SetsAsWritten desired
        → RefusesInherit d name
        → (loops false desired (view w) w).0 ≡ ok changes
        → AreAssigned desired w (loops false desired (view w) w).1
          × All (λ e. is_stale desired e.0 e.1 ≡ false) (view w)
    loops-AreAssigned desired w changes order u sets refuses h =
        let m = set_all d name false (view w) (d.range_texts desired) in
        let n = inherit_all d name false desired (d.range_props (view w)) in
        let (a, (b, (e, (f, whole)))) = both_calls m n w changes h in
        let done =
          set_all-sets (view w) (d.range_texts desired) w a
            (Permᴰ-NodupKeys (order.texts desired) u) (Permᴰ-All _ (order.texts desired) sets)
            (λ k _. refl) e in
        let (kept, same) =
          inherit_all-kept d name desired (d.range_props (view w)) (m w).1 b refuses f in
        (
          subst (AreAssigned desired w) (sym (ap (λ p. p.1) whole ∙ same)) (
              AreAssigned-order desired (d.range_texts desired) w (m w).1 (order.texts desired)
                done),
          Permᴰ-All _ (symm (order.props (view w))) kept,
        )

    reconcile_properties-IsReached :
        (props : Dict Text) (w : W) (changes : List Text)
        → InSomeOrder d
        → NodupKeys props
        → All SetsAsWritten (managed_only props)
        → RefusesInherit d name
        → (reconcile_properties d name props false w).0 ≡ ok changes
        → IsReached props (reconcile_properties d name props false w).1
    reconcile_properties-IsReached props w changes order u sets refuses h =
        let desired = managed_only props in
        let runs = reconcile_properties-view props false w in
        let (done, kept) =
          loops-AreAssigned desired w changes order (managed_only-NodupKeys props u) sets refuses
            (sym (ap (λ p. p.0) runs) ∙ h) in
        subst (IsReached props) (sym (ap (λ p. p.1) runs))
          (record { given = done.0; cleared = not_stale desired w _ done kept })

    -- A dataset with the properties that are asked for is left alone.
    pub reconcile_properties_settled :
        (props : Dict Text) (dry_run : Bool) (w : W)
        → InSomeOrder d
        → IsReached props w
        → reconcile_properties d name props dry_run w ≡ (ok [], w)
    unfolding ◌>>=◌
    reconcile_properties_settled props dry_run w order r =
        let desired = managed_only props in
        rw (reconcile_properties-view props dry_run w) (
          rw
            (set_all-nil d name dry_run (view w) (d.range_texts desired) w
              (Permᴰ-All _ (order.texts desired) r.given))
            (rw
              (inherit_all-nil d name dry_run desired (d.range_props (view w)) w
                (Permᴰ-All _ (order.props (view w)) r.cleared))
              refl))

    -- After a reconcile that succeeds, every managed property that is asked for is shown with its
    -- value, no other managed property is set on the dataset, and another reconcile, in a dry run or
    -- not, returns no change and changes nothing. This holds if `zfs get` changes nothing, a `zfs set`
    -- that succeeds does as it is told, `zfs inherit` takes no dataset for a property, and a map is
    -- ranged over in some order.
    pub reconcile_properties_again :
        (props : Dict Text) (dry_run : Bool) (w : W) (changes : List Text)
        → InSomeOrder d
        → NodupKeys props
        → All SetsAsWritten (managed_only props)
        → RefusesInherit d name
        → (reconcile_properties d name props false w).0 ≡ ok changes
        → let w' = (reconcile_properties d name props false w).1 in
          IsReached props w' × (reconcile_properties d name props dry_run w' ≡ (ok [], w'))
    reconcile_properties_again props dry_run w changes order u sets refuses h =
        let reached = reconcile_properties-IsReached props w changes order u sets refuses h in
        (reached, reconcile_properties_settled props dry_run _ order reached)

    -- If a managed property is set on the dataset and not asked for, then a reconcile never succeeds,
    -- if `zfs get` changes nothing, `zfs inherit` takes no dataset for a property, and a map is ranged
    -- over in some order.
    pub reconcile_properties-stale :
        (props : Dict Text) (w : W) (changes : List Text) (k : Text) (cur : PropValue)
        → InSomeOrder d
        → RefusesInherit d name
        → lookup k (view w) ≡ some cur
        → is_stale (managed_only props) k cur ≡ true
        → (reconcile_properties d name props false w).0 ≢ ok changes
    reconcile_properties-stale props w changes k cur order refuses found stale h =
        let desired = managed_only props in
        let m = set_all d name false (view w) (d.range_texts desired) in
        let n = inherit_all d name false desired (d.range_props (view w)) in
        let (a, (b, (e, (f, whole)))) =
          both_calls m n w changes
            (sym (ap (λ p. p.0) (reconcile_properties-view props false w)) ∙ h) in
        let (kept, _) =
          inherit_all-kept d name desired (d.range_props (view w)) (m w).1 b refuses f in
        let fresh =
          lookup-All (λ k cur. is_stale desired k cur ≡ false) (view w) k cur
            (Permᴰ-All _ (symm (order.props (view w))) kept) found in
        ground arith
