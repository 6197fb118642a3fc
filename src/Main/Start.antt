-- ===== src/Main/Start.antt =====
-- The controller that `run` starts.
use k8s_subvol_provisioner.Base.{
  ℕ, ◌<◌, ◌==◌, Bool, true, false, [], ◌∷◌, Option, none, some, if◌then◌else◌, ◌≡◌, ◌≢◌, All,
  ==_iff, refl, arith,
}
use k8s_subvol_provisioner.Base.Int.{ℤ, pos, negsuc, is_positive}
use k8s_subvol_provisioner.Text.{Text, codes, eq_text, is_empty}
use k8s_subvol_provisioner.Dict.{Dict, lookup, insert}
use k8s_subvol_provisioner.Dict.Laws.{lookup-All}
use k8s_subvol_provisioner.Errors.{ok}
use k8s_subvol_provisioner.Exec.{pure, raise, returned, bind-ok_parts, wrapping-ok_inner}
use k8s_subvol_provisioner.Kube.{Client, Listers}
use k8s_subvol_provisioner.Driver.{Driver}
use k8s_subvol_provisioner.Config.Names.{default_provisioner_name}
use k8s_subvol_provisioner.Controller.{
  Controller, ControllerOptions, new_controller, controller_of, or_no_drivers,
}
use k8s_subvol_provisioner.Controller.Run.{rounds, start, synced}
use k8s_subvol_provisioner.Main.{RunFlags, Platform, drivers, controller_options, run}

-- What a controller needs before its workers start
pub record IsReady {W : Type 0} (c : Controller W) : Type 0 where
  pub listed : (listers : Listers W) × (c.listers ≡ some listers)
  pub recorded : c.has_recorder ≡ true
  pub named : is_empty c.provisioner_name ≡ false
  pub resynced : c.resync_period ≢ 0
  pub worked : 0 < rounds c.workers

rounds-positive : (n : ℤ) → 0 < rounds (if is_positive n then n else pos 4)
unfolding is_positive
rounds-positive (pos n) = ground arith
rounds-positive (negsuc n) = ground arith

not_empty :
    (name : Text) → is_empty (if is_empty name then default_provisioner_name else name) ≡ false
unfolding is_empty codes
not_empty [] = refl
not_empty (x ∷ name) = refl

positive_period : (n : ℕ) → (if n == 0 then 600 else n) ≢ 0
positive_period n = ground (arith, ==_iff n 0)

ok_fields : {A : Type 0} {a b : A} → ok a ≡ ok b → a ≡ b
ok_fields h = ground arith

-- What `NewController` makes of its options
new_controller-fields :
    {W : Type 0} (opts : ControllerOptions W) (c : Controller W)
    → new_controller opts ≡ ok c
    → (c.drivers ≡ or_no_drivers opts.drivers)
      × ((c.has_recorder ≡ opts.has_recorder)
          × ((is_empty c.provisioner_name ≡ false)
              × ((c.resync_period ≢ 0) × (0 < rounds c.workers))))
unfolding new_controller
new_controller-fields {W} opts c h = go opts.client h
  where
    go :
        (client : Option (Client W))
        → controller_of opts client ≡ ok c
        → (c.drivers ≡ or_no_drivers opts.drivers)
          × ((c.has_recorder ≡ opts.has_recorder)
              × ((is_empty c.provisioner_name ≡ false)
                  × ((c.resync_period ≢ 0) × (0 < rounds c.workers))))
    go none k = absurd (cc)
    go (some client) k = rw (← ok_fields k) (
      refl,
      (
        refl,
        (
          not_empty opts.provisioner_name,
          (positive_period opts.resync_period, rounds-positive opts.workers),
        ),
      ),
    )

-- Every driver of a map is under its own name.
abbrev OwnNames : {W : Type 0} → Dict (Driver W) → Type 0
OwnNames m = All (λ entry. entry.1.name ≡ entry.0) m

module _ {W L C : Type 0} (p : Platform W L C) where
  started_from :
      (c c' : Controller W) (w : W)
      → (start p.informers c w).0 ≡ ok c'
      → (listers : Listers W) × (record c { listers = some listers } ≡ c')
  unfolding start pure raise
  started_from c c' w h = let (in_sync, (e, k)) = bind-ok_parts _ _ w c' h in go in_sync _ k
    where
      go :
          (in_sync : Bool) (v : W)
          → (synced p.informers
              (record c { listers = some (p.informers.listers c.client c.resync_period) })
              in_sync
              v).0
            ≡ ok c'
          → (listers : Listers W) × (record c { listers = some listers } ≡ c')
      go true v k = (p.informers.listers c.client c.resync_period, ok_fields k)
      go false v k = absurd (ground arith)

  parts :
      (flags : RunFlags) (c : Controller W) (w : W)
      → (run p flags w).0 ≡ ok c
      → (client : Client W) × ((c0 : Controller W) × ((listers : Listers W) × ((new_controller
                  (controller_options p flags client)
                ≡ ok c0)
              × (record c0 { listers = some listers } ≡ c))))
  unfolding run returned
  parts flags c w h =
      let (set, (e0, h0)) = bind-ok_parts _ _ w c h in
      let (cfg, (e, h1)) = bind-ok_parts _ _ _ c h0 in
      let (client, (e1, h2)) = bind-ok_parts _ _ _ c h1 in
      let (recorder, (e2, h2r)) = bind-ok_parts _ _ _ c h2 in
      let (c0, (made, h3)) = bind-ok_parts _ _ _ c h2r in
      let (listers, same) = started_from c0 c _ h3 in
      (client, (c0, (listers, (wrapping-ok_inner _ _ _ c0 made, same))))

  -- A controller that `run` starts has its listers and its recorder, a provisioner name that is not
  -- empty, a resync period that is not zero and at least one worker, whatever the flags are.
  pub run-IsReady :
      (flags : RunFlags) (c : Controller W) (w : W) → (run p flags w).0 ≡ ok c → IsReady c
  run-IsReady flags c w h =
      let (client, (c0, (listers, (made, same)))) = parts flags c w h in
      let (ds, (recorded, (named, (resynced, worked)))) = new_controller-fields _ c0 made in
      rw (← same) (record {
        listed = (listers, refl);
        recorded = recorded;
        named = named;
        resynced = resynced;
        worked = worked;
      })

  -- The drivers of a controller that `run` starts
  pub drivers-run :
      (flags : RunFlags) (c : Controller W) (w : W)
      → (run p flags w).0 ≡ ok c
      → c.drivers ≡ drivers p flags.enable_mock
  drivers-run flags c w h =
      let (client, (c0, (listers, (made, same)))) = parts flags c w h in
      rw (← same) (new_controller-fields _ c0 made).0

  drivers-OwnNames : (enable_mock : Bool) → OwnNames (drivers p enable_mock)
  unfolding insert eq_text codes
  drivers-OwnNames true = (refl, (refl, (refl, (refl, tt))))
  drivers-OwnNames false = (refl, (refl, (refl, tt)))

  -- Every driver of a controller that `run` starts is registered under its own name.
  pub lookup-run :
      (flags : RunFlags) (c : Controller W) (w : W) (name : Text) (d : Driver W)
      → (run p flags w).0 ≡ ok c
      → lookup name c.drivers ≡ some d
      → d.name ≡ name
  lookup-run flags c w name d h found =
      lookup-All (λ k (e : Driver W). e.name ≡ k) (drivers p flags.enable_mock) name d
        (drivers-OwnNames flags.enable_mock) (rw (← drivers-run flags c w h) found)
