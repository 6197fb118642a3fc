-- ===== src/Main.antt =====
-- cmd/subvol-provisioner/main.go: the flags, the drivers and the start of the controller.
pub mod Start
pub mod DryRun
pub mod Entry
use k8s_subvol_provisioner.Base.{
  ℕ, Bool, true, false, List, [], ◌∷◌, ◌++◌, Option, none, some, if◌then◌else◌,
}
use k8s_subvol_provisioner.Base.Int.{ℤ, pos}
use k8s_subvol_provisioner.Text.{Text, codes, is_empty}
use k8s_subvol_provisioner.Dict.{Dict, lookup, get, insert}
use k8s_subvol_provisioner.Errors.{Error, wrapf, Result, ok, err}
use k8s_subvol_provisioner.Exec.{Exec, pure, returned, attempt, ◌>>=◌, ◌>>◌, wrapping}
use k8s_subvol_provisioner.Host.{Host, Command, os_executor}
use k8s_subvol_provisioner.Config.Names.{default_provisioner_name}
use k8s_subvol_provisioner.Kube.{Client}
use k8s_subvol_provisioner.Driver.{Driver}
use k8s_subvol_provisioner.Zfs.{Zfs, PropValue, new_zfs}
use k8s_subvol_provisioner.Zfs.Volumes.{driver}
use k8s_subvol_provisioner.Btrfs.{new_btrfs, btrfs_driver}
use k8s_subvol_provisioner.Dir.{dir_driver}
use k8s_subvol_provisioner.Mock.{Mock, mock_driver}
use k8s_subvol_provisioner.Controller.{Controller, ControllerOptions, new_controller}
use k8s_subvol_provisioner.Controller.Run.{Informers, start}

-- `runFlags`; a period is in seconds
pub record RunFlags : Type 0 where
  pub kubeconfig : Text
  pub node_name : Text
  pub provisioner_name : Text
  pub host_prefix : Text
  pub resync_period : ℕ
  pub workers : ℤ
  pub log_level : Text
  pub enable_mock : Bool

abbrev or_fallback : Text → Option Text → Text
or_fallback fallback none = fallback
or_fallback fallback (some val) = if is_empty val then fallback else val

-- `getEnvOrDefault`, in an environment
unfoldable pub get_env_or_default : Dict Text → Text → Text → Text
get_env_or_default env key fallback = or_fallback fallback (lookup key env)

-- The flags that the command line leaves out
unfoldable pub default_flags : Dict Text → RunFlags
default_flags env = record {
  kubeconfig = [];
  node_name = get env (codes "NODE_NAME");
  provisioner_name = get_env_or_default env (codes "PROVISIONER_NAME") default_provisioner_name;
  host_prefix = get env (codes "HOST_PREFIX");
  resync_period = 600;
  workers = pos 4;
  log_level = codes "info";
  enable_mock = false;
}

-- `corev1.EventSource`, with which `run` starts the recorder
pub record EventSource : Type 0 where
  pub component : Text
  pub host : Text

-- What `run` calls of zerolog, of client-go and of the system: the levels `L` of the log, the
-- configurations `C` of a client, the clients, the recorder of events, the informers, commands and
-- files. `range_texts` and `range_props` stand for the order of maps.
pub record Platform (W L C : Type 0) : Type 0 where
  pub parse_level : Text → Result L
  pub info_level : L
  pub set_global_level : L → W → W
  pub build_config_from_flags : Text → Text → Exec W C
  pub in_cluster_config : Exec W C
  pub recommended_home_file : Text
  pub new_for_config : C → Exec W (Client W)
  pub start_recorder : Client W → EventSource → W → W
  pub informers : Informers W
  pub command : Command W
  pub host : Host W
  pub range_texts : Dict Text → Dict Text
  pub range_props : Dict PropValue → Dict PropValue
  pub mock : Mock W

module _ {W L C : Type 0} (p : Platform W L C) where
  -- A call that changes the world and returns no error
  abbrev acting : (W → W) → Exec W (Unit {0})
  acting f w = (ok tt, f w)

  abbrev or_info_level : Result L → L
  or_info_level (ok level) = level
  or_info_level (err e) = p.info_level

  abbrev event_source : RunFlags → EventSource
  event_source flags = record { component = flags.provisioner_name; host = flags.node_name }

  abbrev or_home_file : Result C → Exec W C
  or_home_file (ok cfg) = pure cfg
  or_home_file (err e) = p.build_config_from_flags [] p.recommended_home_file

  -- `buildKubeConfig`
  unfoldable pub build_kube_config : Text → Exec W C
  build_kube_config path =
      if is_empty path
      then (do r ← attempt p.in_cluster_config; or_home_file r)
      else p.build_config_from_flags [] path

  abbrev pub zfs : Zfs W
  zfs = new_zfs (os_executor p.command) p.host p.range_texts p.range_props []

  -- The drivers of `run`, by their names
  abbrev pub drivers : Bool → Dict (Driver W)
  drivers enable_mock =
      let real =
        (codes "zfs", driver zfs)
        ∷ (codes "btrfs", btrfs_driver (new_btrfs (os_executor p.command) p.host []))
        ∷ (codes "dir", dir_driver p.host)
        ∷ [] in
      if enable_mock then insert (codes "mock") (mock_driver p.mock) real else real

  abbrev pub controller_options : RunFlags → Client W → ControllerOptions W
  controller_options flags client = record {
    client = some client;
    node_name = flags.node_name;
    provisioner_name = flags.provisioner_name;
    host_prefix = flags.host_prefix;
    drivers = some (drivers flags.enable_mock);
    has_recorder = true;
    resync_period = flags.resync_period;
    workers = flags.workers;
  }

  -- `run` until the workers of the controller start, for the controller
  unfoldable pub run : RunFlags → Exec W (Controller W)
  run flags = do
    acting (p.set_global_level (or_info_level (p.parse_level flags.log_level)))
    cfg ←
        wrapping (wrapf (codes "failed to build kubeconfig: %w") [])
          (build_kube_config flags.kubeconfig)
    client ←
        wrapping (wrapf (codes "failed to initialize kubernetes client: %w") [])
          (p.new_for_config cfg)
    acting (p.start_recorder client (event_source flags))
    c ←
        wrapping (wrapf (codes "failed to create controller: %w") [])
          (returned (new_controller (controller_options flags client)))
    start p.informers c
