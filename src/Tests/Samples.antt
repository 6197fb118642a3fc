-- ===== src/Tests/Samples.antt =====
-- A small cluster, as the data of the tests. The world outside is a counter of its changes.
use k8s_subvol_provisioner.Base.{ℕ, suc, ◌++◌, true, [], ◌∷◌, none, some, if◌then◌else◌}
use k8s_subvol_provisioner.Base.Int.{pos}
use k8s_subvol_provisioner.Text.{Text, codes}
use k8s_subvol_provisioner.Dict.{Dict}
use k8s_subvol_provisioner.Errors.{Error, foreign, failed, not_found, Result, ok, err}
use k8s_subvol_provisioner.Exec.{Exec}
use k8s_subvol_provisioner.Config.{TemplateContext}
use k8s_subvol_provisioner.Config.Names.{
  default_provisioner_name, ann_dry_run, ann_apply, ann_snapshot_before_delete,
}
use k8s_subvol_provisioner.Kube.{
  Pvc, Pv, StorageClass, Client, External, claim_bound, volume_released, reclaim_delete,
  wait_for_first_consumer,
}
use k8s_subvol_provisioner.Driver.{Driver, Reconciler}
use k8s_subvol_provisioner.Builder.{BuildPvOptions, volume_of}
use k8s_subvol_provisioner.Controller.{Controller, System}

-- A template "Namespace/PVC", and quantities that all hold 5 bytes
abbrev pub external : External
external = record {
  parse_template = λ text. ok (λ ctx. ok (ctx.namespace ++ b'/' ∷ ctx.pvc));
  parse_quantity = λ text. ok (record { text = text });
  quantity_value = λ q. pos 5;
}

abbrev pub context : TemplateContext
context = record {
  namespace = codes "team";
  pvc = codes "data";
  claim_name = codes "data";
  owner = codes "data";
  index = [];
  storage_class = codes "fast";
  labels = [];
  annotations = [];
}

abbrev pub claim_with : Dict Text → Pvc
claim_with annotations = record {
  namespace = codes "team";
  name = codes "data";
  uid = codes "42";
  resource_version = codes "7";
  labels = [];
  annotations = annotations;
  phase = claim_bound;
  volume_name = codes "pvc-42";
  storage_class_name = some (codes "fast");
  volume_mode = none;
  access_modes = [];
  requests = [];
}

abbrev pub planned_claim : Pvc
planned_claim = claim_with ((ann_dry_run, codes "true") ∷ [])

abbrev pub snapshot_claim : Pvc
snapshot_claim = claim_with ((ann_snapshot_before_delete, codes "true") ∷ [])

abbrev pub applied_claim : Pvc
applied_claim = claim_with ((ann_apply, codes "true") ∷ [])

abbrev pub storage_class : StorageClass
storage_class = record {
  name = codes "fast";
  provisioner = default_provisioner_name;
  parameters = [];
  reclaim_policy = some reclaim_delete;
  volume_binding_mode = some wait_for_first_consumer;
}

abbrev pub build_options : BuildPvOptions
build_options = record {
  pvc = some snapshot_claim;
  storage_class = some storage_class;
  provisioner_name = default_provisioner_name;
  driver_name = codes "zfs";
  dataset_name = codes "tank/team/data";
  mount_path = codes "/mnt/team/data";
  node_name = codes "n1";
}

abbrev pub built : Pv
built = volume_of build_options snapshot_claim

abbrev pub released : Pv
released = record built { phase = volume_released }

abbrev pub broken : Error
broken = foreign failed (codes "broken")

-- A change of the world
abbrev changes : {A : Type 0} → A → Exec ℕ A
changes a n = (ok a, suc n)

abbrev reads : {A : Type 0} → Result A → Exec ℕ A
reads r n = (r, n)

-- A reconciler that plans a change, or makes it
abbrev pub reconciler : Reconciler ℕ
reconciler = record {
  reconcile_quota =
      λ name quota dry_run n. (ok (codes "quota" ∷ []), (if dry_run then n else suc n));
  reconcile_owner_mode = λ opts n. (ok [], (if opts.dry_run then n else suc n));
  reconcile_properties = λ name props dry_run n. (ok [], (if dry_run then n else suc n));
}

-- A reconciler whose steps all fail
abbrev pub broken_reconciler : Reconciler ℕ
broken_reconciler = record {
  reconcile_quota = λ name quota dry_run. reads (err broken);
  reconcile_owner_mode = λ opts. reads (err broken);
  reconcile_properties = λ name props dry_run. reads (err broken);
}

abbrev pub driver : Driver ℕ
driver = record {
  name = codes "zfs";
  create = λ opts. changes (record {
    volume_id = opts.name;
    name = opts.name;
    mount_path = opts.mount_path;
    attributes = [];
  });
  delete = λ opts. changes tt;
  exists = λ name. reads (ok true);
  reconciler = some reconciler;
}

abbrev pub client : Client ℕ
client = record {
  get_pvc = λ namespace name. reads (ok planned_claim);
  list_pvcs = reads (ok (planned_claim ∷ []));
  patch_pvc = λ namespace name patch. changes tt;
  get_pv = λ name. reads (ok released);
  list_pvs = reads (ok (released ∷ []));
  create_pv = λ pv. changes pv;
  delete_pv = λ name. changes tt;
  get_storage_class = λ name. reads (ok storage_class);
  get_secret = λ namespace name. reads (err (foreign not_found (codes "secret")));
}

abbrev pub controller : Controller ℕ
controller = record {
  client = client;
  node_name = codes "n1";
  provisioner_name = default_provisioner_name;
  host_prefix = [];
  drivers = (codes "zfs", driver) ∷ [];
  has_recorder = true;
  resync_period = 600;
  workers = pos 4;
  listers = none;
}

abbrev pub system : System ℕ
system = record { world = 0; events = []; in_progress = (codes "pvc:team/data", true) ∷ [] }
