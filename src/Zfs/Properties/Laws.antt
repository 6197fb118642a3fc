-- ===== src/Zfs/Properties/Laws.antt =====
-- `ReconcileProperties` of zfs.go: the commands that it runs, and the changes that it returns.
use k8s_subvol_provisioner.Base.{
  Bool, true, false, List, [], ◌∷◌, ◌≡◌, arith, All, Bool-cases, inl, inr,
}
use k8s_subvol_provisioner.Text.{Text}
use k8s_subvol_provisioner.Dict.{Dict}
use k8s_subvol_provisioner.Errors.{ok}
use k8s_subvol_provisioner.Exec.Along.{
  Along, Same, Same-preorder, IsPreorder, Along-pure, Along-bind, Along-if, Along-wrapping,
}
use k8s_subvol_provisioner.Exec.Agree.{
  Agree, Agree-pure, Agree-if, Agree-bind, Agree-unit, Agree-after,
}
use k8s_subvol_provisioner.Driver.Laws.{Reads}
use k8s_subvol_provisioner.Zfs.{
  Zfs, PropValue, run, run_zfs_set, run_zfs_inherit, set_args, inherit_args,
}
use k8s_subvol_provisioner.Zfs.Properties.{
  is_managed, managed_only, is_stale, prop_setting, props_args, get_props, set_one, set_all,
  inherit_one, inherit_all, reconcile_properties,
}

-- An entry whose property is managed
abbrev IsManaged : Text × Text → Type 0
IsManaged e = is_managed e.0 ≡ true

managed_only-All : (props : Dict Text) → All IsManaged (managed_only props)
unfolding managed_only
managed_only-All [] = tt
managed_only-All ((k, v) ∷ props) = ground (arith, managed_only-All props)

stale-managed :
    (desired : Dict Text) (k : Text) (cur : PropValue)
    → is_stale desired k cur ≡ true
    → is_managed k ≡ true
unfolding is_stale
stale-managed desired k cur h = ground arith

module _ {W : Type 0} (d : Zfs W) where
  -- A relation of the world before to the world after that the reading of the properties of a
  -- dataset keeps, and every command that sets or inherits a managed property of it
  pub record IsManagedOnly (R : W → W → Type 0) (name : Text) : Type 0 where
    pub preorder : IsPreorder R
    pub read : Along R (run d [] (props_args d name []))
    pub set :
        (k v : Text) → is_managed k ≡ true → Along R (run d [] (set_args d name (prop_setting k v)))
    pub inherit : (k : Text) → is_managed k ≡ true → Along R (run d [] (inherit_args d name k))

  module _ {R : W → W → Type 0} (p : IsPreorder R) (name : Text) where
    Along-run_zfs_set :
        (dry_run : Bool) (prop : Text)
        → Along R (run d [] (set_args d name prop))
        → Along R (run_zfs_set d dry_run name prop)
    unfolding run_zfs_set
    Along-run_zfs_set dry_run prop h =
        Along-if _ _ _ (Along-pure p tt) (Along-bind p _ _ h (λ _. Along-pure p tt))

    Along-run_zfs_inherit :
        (dry_run : Bool) (prop : Text)
        → Along R (run d [] (inherit_args d name prop))
        → Along R (run_zfs_inherit d dry_run name prop)
    unfolding run_zfs_inherit
    Along-run_zfs_inherit dry_run prop h =
        Along-if _ _ _ (Along-pure p tt) (Along-bind p _ _ h (λ _. Along-pure p tt))

    Along-set_all :
        (dry_run : Bool) (current : Dict PropValue) (desired : Dict Text)
        → All (λ e. Along R (run_zfs_set d dry_run name (prop_setting e.0 e.1))) desired
        → Along R (set_all d name dry_run current desired)
    unfolding set_all set_one
    Along-set_all dry_run current [] h = Along-pure p []
    Along-set_all dry_run current ((k, v) ∷ desired) (h, hs) =
        Along-bind p _ _
          (Along-if _ _ _ (Along-pure p [])
            (Along-bind p _ _ (Along-wrapping p _ _ h) (λ _. Along-pure p _)))
          λ _. Along-bind p _ _ (Along-set_all dry_run current desired hs) (λ _. Along-pure p _)

    Along-inherit_one :
        (dry_run : Bool) (desired : Dict Text) (k : Text) (cur : PropValue)
        → (is_managed k ≡ true → Along R (run_zfs_inherit d dry_run name k))
        → Along R (inherit_one d name dry_run desired k cur)
    unfolding inherit_one
    Along-inherit_one dry_run desired k cur h = elim (Bool-cases (is_stale desired k cur)) [
      | inl stale ↦ rw stale (
          Along-bind p _ _ (Along-wrapping p _ _ (h (stale-managed desired k cur stale)))
            (λ _. Along-pure p _))
      | inr kept ↦ rw kept (Along-pure p [])
    ]

    Along-inherit_all :
        (dry_run : Bool) (desired : Dict Text) (current : Dict PropValue)
        → ((k : Text) → is_managed k ≡ true → Along R (run_zfs_inherit d dry_run name k))
        → Along R (inherit_all d name dry_run desired current)
    unfolding inherit_all
    Along-inherit_all dry_run desired [] h = Along-pure p []
    Along-inherit_all dry_run desired ((k, cur) ∷ current) h =
        Along-bind p _ _ (Along-inherit_one dry_run desired k cur (h k))
          λ _. Along-bind p _ _ (Along-inherit_all dry_run desired current h) (λ _. Along-pure p _)

    Along-reconcile :
        (props : Dict Text) (dry_run : Bool)
        → Along R (run d [] (props_args d name []))
        → All
            (λ e. Along R (run_zfs_set d dry_run name (prop_setting e.0 e.1)))
            (d.range_texts (managed_only props))
        → ((k : Text) → is_managed k ≡ true → Along R (run_zfs_inherit d dry_run name k))
        → Along R (reconcile_properties d name props dry_run)
    unfolding reconcile_properties get_props
    Along-reconcile props dry_run h k l =
        Along-bind p _ _ (Along-wrapping p _ _ (Along-bind p _ _ h (λ _. Along-pure p _)))
          λ current.
            Along-bind p _ _ (Along-set_all dry_run current _ k)
              λ _. Along-bind p _ _ (Along-inherit_all dry_run _ _ l) (λ _. Along-pure p _)

  -- The order in which the runtime ranges over a map of texts adds no entry.
  abbrev pub RangesWithin : Type 1
  RangesWithin = (P : Text × Text → Type 0) (m : Dict Text) → All P m → All P (d.range_texts m)

  All-map :
      (P Q : Text × Text → Type 0) (m : Dict Text)
      → ((k v : Text) → P (k, v) → Q (k, v))
      → All P m
      → All Q m
  All-map P Q [] f h = tt
  All-map P Q ((k, v) ∷ m) f (h, hs) = (f k v h, All-map P Q m f hs)

  -- Only managed properties are set or inherited: whatever relation the reading of the properties
  -- keeps, and every command that sets or inherits a managed property, the whole reconcile keeps,
  -- in a dry run or not, on success and on failure.
  pub reconcile_properties-managed :
      {R : W → W → Type 0} (name : Text) (props : Dict Text) (dry_run : Bool) (w : W)
      → RangesWithin
      → IsManagedOnly R name
      → R w (reconcile_properties d name props dry_run w).1
  reconcile_properties-managed name props dry_run w range k =
      (Along-reconcile k.preorder name props dry_run k.read
          (All-map IsManaged _ (d.range_texts (managed_only props))
            (λ j v h. Along-run_zfs_set k.preorder name dry_run _ (k.set j v h))
            (range IsManaged _ (managed_only-All props)))
          λ j h. Along-run_zfs_inherit k.preorder name dry_run j (k.inherit j h)).at
        w

  dry_set : (name prop : Text) → Along Same (run_zfs_set d true name prop)
  unfolding run_zfs_set
  dry_set name prop = Along-pure Same-preorder tt

  dry_inherit : (name prop : Text) → Along Same (run_zfs_inherit d true name prop)
  unfolding run_zfs_inherit
  dry_inherit name prop = Along-pure Same-preorder tt

  dry_sets :
      (name : Text) (m : Dict Text)
      → All (λ e. Along Same (run_zfs_set d true name (prop_setting e.0 e.1))) m
  dry_sets name [] = tt
  dry_sets name (e ∷ m) = (dry_set name _, dry_sets name m)

  -- A dry run of the properties changes nothing, if reading them changes nothing.
  pub reconcile_properties_dry :
      (name : Text) (props : Dict Text)
      → Reads (run d [] (props_args d name []))
      → Reads (reconcile_properties d name props true)
  reconcile_properties_dry name props h =
      (Along-reconcile Same-preorder name props true (record { at = h }) (dry_sets name _)
        (λ k _. dry_inherit name k)).at

  module _ (name : Text) where
    set_all-Agree :
        (current : Dict PropValue) (desired : Dict Text)
        → Agree (set_all d name true current desired) (set_all d name false current desired)
    unfolding set_all set_one
    set_all-Agree current [] = Agree-pure []
    set_all-Agree current ((k, v) ∷ desired) =
        Agree-bind _ _ _ _
          (Agree-if _ _ _ _ _ (Agree-pure [])
            (Agree-bind _ _ _ _ (Agree-unit _ _) (λ _. Agree-pure _)))
          λ _. Agree-bind _ _ _ _ (set_all-Agree current desired) (λ _. Agree-pure _)

    inherit_all-Agree :
        (desired : Dict Text) (current : Dict PropValue)
        → Agree (inherit_all d name true desired current) (inherit_all d name false desired current)
    unfolding inherit_all inherit_one
    inherit_all-Agree desired [] = Agree-pure []
    inherit_all-Agree desired ((k, cur) ∷ current) =
        Agree-bind _ _ _ _
          (Agree-if _ _ _ _ _ (Agree-bind _ _ _ _ (Agree-unit _ _) (λ _. Agree-pure _))
            (Agree-pure []))
          λ _. Agree-bind _ _ _ _ (inherit_all-Agree desired current) (λ _. Agree-pure _)

    -- Where the dry run and the real run of the properties both succeed, the plan lists what was
    -- changed, in the same order.
    pub reconcile_properties-plan :
        (props : Dict Text) (w : W) (plan changes : List Text)
        → (reconcile_properties d name props true w).0 ≡ ok plan
        → (reconcile_properties d name props false w).0 ≡ ok changes
        → plan ≡ changes
    unfolding reconcile_properties
    reconcile_properties-plan props w plan changes = Agree-after _ _ _ w plan changes λ current.
        Agree-bind _ _ _ _ (set_all-Agree current _)
          λ _. Agree-bind _ _ _ _ (inherit_all-Agree _ _) (λ _. Agree-pure _)
