-- ===== src/Zfs/Properties/Loops.antt =====
-- The two loops of `ReconcileProperties` of zfs.go, and the maps that they run over.
use mathlib.Core.List.{Permᴰ}
use k8s_subvol_provisioner.Base.{
  Bool, true, false, List, [], ◌∷◌, ◌++◌, ◌≡◌, refl, arith, All, Bool-cases, inl, inr,
}
use k8s_subvol_provisioner.Text.{Text, is_empty, trim_space, fields}
use k8s_subvol_provisioner.Dict.{Dict, lookup, has_key}
use k8s_subvol_provisioner.Dict.Laws.{NodupKeys, insert-NodupKeys}
use k8s_subvol_provisioner.Errors.{ok}
use k8s_subvol_provisioner.Exec.{Exec, pure, ◌>>=◌, bind-ok, bind-ok_parts}
use k8s_subvol_provisioner.Zfs.{Zfs, PropValue}
use k8s_subvol_provisioner.Zfs.Properties.{
  managed_only, is_stale, parse_props, prop_lines, prop_line, has_value, put_fields, set_one,
  set_all, inherit_one, inherit_all,
}

put_fields-NodupKeys :
    (fs : List Text) (m : Dict PropValue) → NodupKeys m → NodupKeys (put_fields fs m)
put_fields-NodupKeys [] m u = u
put_fields-NodupKeys (k ∷ []) m u = u
put_fields-NodupKeys (k ∷ v ∷ []) m u = insert-NodupKeys k _ m u
put_fields-NodupKeys (k ∷ v ∷ s ∷ fs) m u = insert-NodupKeys k _ m u

prop_line-NodupKeys :
    (line : Text) (m : Dict PropValue) → NodupKeys m → NodupKeys (prop_line line m)
unfolding prop_line
prop_line-NodupKeys line m u = elim (Bool-cases (is_empty (trim_space line))) [
  | inl e ↦ rw e u
  | inr e ↦ rw e (put_fields-NodupKeys (fields (trim_space line)) m u)
]

prop_lines-NodupKeys :
    (lines : List Text) (m : Dict PropValue) → NodupKeys m → NodupKeys (prop_lines lines m)
unfolding prop_lines
prop_lines-NodupKeys [] m u = u
prop_lines-NodupKeys (line ∷ lines) m u =
    prop_lines-NodupKeys lines (prop_line line m) (prop_line-NodupKeys line m u)

pub parse_props-NodupKeys : (out : Text) → NodupKeys (parse_props out)
unfolding parse_props
parse_props-NodupKeys out = prop_lines-NodupKeys _ [] tt

managed_only-has_key :
    (k : Text) (props : Dict Text)
    → has_key k props ≡ false
    → has_key k (managed_only props) ≡ false
unfolding managed_only has_key
managed_only-has_key k [] h = refl
managed_only-has_key k ((j, v) ∷ props) h = ground (arith, managed_only-has_key k props)

pub managed_only-NodupKeys : (props : Dict Text) → NodupKeys props → NodupKeys (managed_only props)
unfolding managed_only has_key
managed_only-NodupKeys [] u = tt
managed_only-NodupKeys ((k, v) ∷ props) (out, u) =
    ground (arith, managed_only-has_key k props, managed_only-NodupKeys props u)

-- Two calls that return changes, one after the other
pub both_calls :
    {W : Type 0} (m n : Exec W (List Text)) (w : W) (r : List Text)
    → ((do changed ← m; changes ← n; pure (changed ++ changes)) w).0 ≡ ok r
    → (a : List Text) × ((b : List Text) × (((m w).0 ≡ ok a)
          × (((n (m w).1).0 ≡ ok b)
              × ((do changed ← m; changes ← n; pure (changed ++ changes)) w
                  ≡ (ok (a ++ b), (n (m w).1).1)))))
unfolding pure
both_calls m n w r h =
    let (a, (e, k)) = bind-ok_parts m _ w r h in
    let (b, (f, _)) = bind-ok_parts n _ (m w).1 r k in
    (a, (b, (e, (f, rw (bind-ok m _ w a e) (rw (bind-ok n _ (m w).1 b f) refl)))))

module _ {W : Type 0} (d : Zfs W) where
  -- The runtime ranges over a map in some order.
  pub record InSomeOrder : Type 0 where
    pub texts : (m : Dict Text) → Permᴰ m (d.range_texts m)
    pub props : (m : Dict PropValue) → Permᴰ m (d.range_props m)

module _ {W : Type 0} (d : Zfs W) (name : Text) where
  pub set_all-nil :
      (dry_run : Bool) (current : Dict PropValue) (desired : Dict Text) (w : W)
      → All (λ e. has_value (lookup e.0 current) e.1 ≡ true) desired
      → set_all d name dry_run current desired w ≡ (ok [], w)
  unfolding set_all set_one ◌>>=◌
  set_all-nil dry_run current [] w h = refl
  set_all-nil dry_run current ((k, v) ∷ desired) w (has, rest) =
      rw has (rw (set_all-nil dry_run current desired w rest) refl)

  pub inherit_all-nil :
      (dry_run : Bool) (desired : Dict Text) (current : Dict PropValue) (w : W)
      → All (λ e. is_stale desired e.0 e.1 ≡ false) current
      → inherit_all d name dry_run desired current w ≡ (ok [], w)
  unfolding inherit_all inherit_one ◌>>=◌
  inherit_all-nil dry_run desired [] w h = refl
  inherit_all-nil dry_run desired ((k, cur) ∷ current) w (kept, rest) =
      rw kept (rw (inherit_all-nil dry_run desired current w rest) refl)
