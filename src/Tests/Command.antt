-- ===== src/Tests/Command.antt =====
-- The start of the program on a concrete platform.
use k8s_subvol_provisioner.Base.{ℕ, ◌≡◌, refl, true, false, [], none, some}
use k8s_subvol_provisioner.Base.Int.{pos, negsuc, is_positive}
use k8s_subvol_provisioner.Text.{Text, codes, eq_text, is_empty}
use k8s_subvol_provisioner.Dict.{lookup, get}
use k8s_subvol_provisioner.Errors.{ok, err}
use k8s_subvol_provisioner.Exec.{◌>>=◌}
use k8s_subvol_provisioner.Host.{os_executor}
use k8s_subvol_provisioner.Controller.{Controller, new_controller}
use k8s_subvol_provisioner.Controller.State.{is_true, reconcile_volume_state}
use k8s_subvol_provisioner.Controller.State.Laws.{PlansOnly, applies_dry_run}
use k8s_subvol_provisioner.Controller.Run.{Informers, start}
use k8s_subvol_provisioner.Config.Names.{default_provisioner_name, ann_dry_run}
use k8s_subvol_provisioner.Mock.{new_memory}
use k8s_subvol_provisioner.Main.{RunFlags, Platform, default_flags, build_kube_config, drivers, run}
use k8s_subvol_provisioner.Main.Entry.{Cobra, root, unset, working, main}
use k8s_subvol_provisioner.Main.DryRun.{IsReadOnly, reconcile_volume_state-run}
use k8s_subvol_provisioner.Zfs.{with_options}
use k8s_subvol_provisioner.Tests.Samples.{external, client, system, planned_claim, built, broken}
use k8s_subvol_provisioner.Tests.Storage.{host, observing}

abbrev informers : Informers ℕ
informers = record {
  listers = λ client period. record {
    get_pvc = client.get_pvc;
    list_pvcs = client.list_pvcs;
    get_pv = client.get_pv;
    get_storage_class = client.get_storage_class;
  };
  start_and_sync = λ client period n. (ok true, n);
}

-- Outside of a cluster, with the configuration of the home directory
abbrev platform : Platform ℕ ℕ Text
platform = record {
  parse_level = λ level. ok 1;
  info_level = 1;
  set_global_level = λ level n. n;
  build_config_from_flags = λ url path n. (ok path, n);
  in_cluster_config = λ n. (err broken, n);
  recommended_home_file = codes "/root/.kube/config";
  new_for_config = λ cfg n. (ok client, n);
  start_recorder = λ client source n. n;
  informers = informers;
  command = record { combined_output = λ stdin path args n. (([], none), n) };
  host = host;
  range_texts = λ m. m;
  range_props = λ m. m;
  mock = record { load = λ n. new_memory; store = λ m n. n; host = host };
}

-- Flags that ask for no period, no name and no worker
abbrev flags : RunFlags
flags = record (default_flags []) { provisioner_name = []; resync_period = 0; workers = negsuc 0 }

-- The controller that they start
abbrev ready : Controller ℕ
ready = record {
  client = client;
  node_name = [];
  provisioner_name = default_provisioner_name;
  host_prefix = [];
  drivers = drivers platform false;
  has_recorder = true;
  resync_period = 600;
  workers = pos 4;
  listers = some (informers.listers client 600);
}

starts : (run platform flags 0).0 ≡ ok ready
unfolding run build_kube_config ◌>>=◌ new_controller start default_flags get lookup is_positive
    is_empty
starts = refl

-- A command line that gives these flags
abbrev cobra : Cobra ℕ
cobra = record {
  choose = λ defaults args.
      ok (root (record defaults { provisioner_name = []; resync_period = 0; workers = negsuc 0 }));
  print = λ message n. n;
  print_own = λ args n. n;
  print_error = λ e n. n;
}

-- The program gets to work.
works : (main platform cobra unset [] [] 0).0 ≡ working ready
unfolding main run build_kube_config ◌>>=◌ new_controller start default_flags get lookup is_positive
    is_empty
works = refl

platform-IsReadOnly : IsReadOnly platform
unfolding k8s_subvol_provisioner.Zfs.run with_options os_executor
platform-IsReadOnly = record { files = observing; quota = λ name w. refl; props = λ name w. refl }

planned : is_true planned_claim.annotations ann_dry_run ≡ true
unfolding is_true get lookup eq_text codes
planned = refl

plans_only : PlansOnly external ready planned_claim system
unfolding is_true get lookup eq_text codes
plans_only = (refl, λ sc found. applies_dry_run planned_claim sc planned)

reconcile_volume_state-run_example :
    (reconcile_volume_state external ready planned_claim built system).1.world ≡ system.world
unfolding default_flags
reconcile_volume_state-run_example =
    reconcile_volume_state-run platform flags external ready 0 planned_claim built system refl
      starts platform-IsReadOnly (λ name w. refl) plans_only
