-- ===== src/Controller/Process/Release.antt =====
-- `reconcile` of a volume that was built and is released.
use k8s_subvol_provisioner.Base.{true, false, [], some, ◌≡◌, ◌≢◌, refl}
use k8s_subvol_provisioner.Text.{Text, codes, eq_text}
use k8s_subvol_provisioner.Text.Equality.{eq_text_refl}
use k8s_subvol_provisioner.Dict.{lookup, get, insert}
use k8s_subvol_provisioner.Errors.{ok}
use k8s_subvol_provisioner.Exec.{◌>>=◌}
use k8s_subvol_provisioner.Kube.{Pv, External, volume_released, reclaim_delete}
use k8s_subvol_provisioner.Driver.{Driver, DeleteOptions}
use k8s_subvol_provisioner.Builder.{BuildPvOptions, build_persistent_volume}
use k8s_subvol_provisioner.Builder.Laws.{build_persistent_volume_cases}
use k8s_subvol_provisioner.Controller.{Controller, System, lift, exclusive}
use k8s_subvol_provisioner.Controller.Guard.{is_in_progress, enter_free}
use k8s_subvol_provisioner.Controller.Lookup.{pv_from, get_pv}
use k8s_subvol_provisioner.Controller.Target.{is_pv_on_this_node}
use k8s_subvol_provisioner.Controller.Target.Laws.{is_pv_on_this_node-build}
use k8s_subvol_provisioner.Controller.Delete.{
  volume_key, delete_options, delete_body, reconcile_volume_delete,
}
use k8s_subvol_provisioner.Controller.Delete.Laws.{delete_options-build}
use k8s_subvol_provisioner.Controller.Process.{
  ReconcileKey, is_ours, is_to_delete, process_pv, reconcile,
}

abbrev pub volume_named : Text → ReconcileKey
volume_named name = record { kind = codes "pv"; namespace = []; name = name }

abbrev pub released : Pv → Pv
released pv = record pv { phase = volume_released }

module _ {W : Type 0} (ext : External) (c : Controller W) (opts : BuildPvOptions) {built : Pv}
    (made : build_persistent_volume opts ≡ ok built) where
  -- How the volume was asked for at its creation
  abbrev pub creation : DeleteOptions
  creation = record {
    name = opts.dataset_name;
    mount_path = opts.mount_path;
    host_prefix = c.host_prefix;
    snapshot_before_delete = false;
  }

  -- The volume is this agent's to delete, and the driver and the API server delete it.
  pub record CanRelease (w : W) : Type 0 where
    pub driver : Driver W
    pub freed : W
    pub last : W
    pub named : c.node_name ≢ []
    pub here : c.node_name ≡ opts.node_name
    pub ours : c.provisioner_name ≡ opts.provisioner_name
    pub policy : built.reclaim_policy ≡ reclaim_delete
    pub registered : lookup opts.driver_name c.drivers ≡ some driver
    pub frees : driver.delete creation w ≡ (ok tt, freed)
    pub forgets : c.client.delete_pv built.name freed ≡ (ok tt, last)

  built-is_ours : c.provisioner_name ≡ opts.provisioner_name → is_ours ext c (released built) ≡ true
  unfolding is_ours get lookup eq_text codes
  built-is_ours e =
      let (pvc, given, same) = build_persistent_volume_cases opts made in
      rw (← same) (rw e (eq_text_refl opts.provisioner_name))

  on_node : (w : W) → CanRelease w → is_pv_on_this_node c (released built) ≡ true
  unfolding is_pv_on_this_node
  on_node w can = (is_pv_on_this_node-build c opts can.named made).1 can.here

  built-is_to_delete : (w : W) → CanRelease w → is_to_delete ext c (released built) ≡ true
  unfolding is_to_delete
  built-is_to_delete w can = rw (built-is_ours can.ours) (rw (on_node w can) (rw can.policy refl))

  asked : delete_options c (released built) ≡ creation
  unfolding delete_options
  asked = (delete_options-build c opts made).1

  delete_body-run :
      (s : System W) (can : CanRelease s.world)
      → delete_body c (released built) s ≡ (ok tt, record s { world = can.last })
  unfolding delete_body lift ◌>>=◌
  delete_body-run s can =
      rw ((delete_options-build c opts made).0)
        (rw can.registered (rw asked (rw can.frees (rw can.forgets refl))))

  -- A volume that was built is deleted once it is released: the reconcile of its key asks the driver
  -- to delete it under the dataset and the mount path of its creation, then deletes its object, and
  -- returns no error and records no event. This holds on the named node that it was built for, if its
  -- policy is to delete, driver and API server delete it, no other worker is busy with it, and the
  -- look-up gives the volume and changes nothing.
  pub reconcile-released :
      (s : System W)
      → is_in_progress (volume_key built.name) s.in_progress ≡ false
      → pv_from c.client c.listers built.name s.world ≡ (ok (released built), s.world)
      → (can : CanRelease s.world)
      → let done = reconcile ext c (volume_named built.name) s in
        (done.0 ≡ ok tt) × ((done.1.world ≡ can.last) × (done.1.events ≡ s.events))
  unfolding reconcile process_pv reconcile_volume_delete exclusive get_pv lift ◌>>=◌ eq_text codes
  reconcile-released s free looked can =
      let entered = record s { in_progress = insert (volume_key built.name) true s.in_progress } in
      rw looked (
        rw (built-is_to_delete s.world can) (
          rw (enter_free (volume_key built.name) s.in_progress free)
            (rw (delete_body-run entered can) (refl, (refl, refl)))))
