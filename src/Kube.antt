-- ===== src/Kube.antt =====
-- The fields of the Kubernetes objects that the program reads and writes, and the calls that it
-- makes to the API server, over an unknown state `W` of the world outside.
use k8s_subvol_provisioner.Base.{List, Option}
use k8s_subvol_provisioner.Base.Int.{ℤ}
use k8s_subvol_provisioner.Text.{Text}
use k8s_subvol_provisioner.Dict.{Dict}
use k8s_subvol_provisioner.Errors.{Result}
use k8s_subvol_provisioner.Exec.{Exec}
use k8s_subvol_provisioner.Config.{TemplateContext}

pub data ClaimPhase : Type 0 where
  claim_pending claim_bound : ClaimPhase
  claim_other : Text → ClaimPhase

pub data VolumePhase : Type 0 where
  volume_released : VolumePhase
  volume_other : Text → VolumePhase

pub data ReclaimPolicy : Type 0 where
  reclaim_retain reclaim_delete : ReclaimPolicy
  reclaim_other : Text → ReclaimPolicy

pub data VolumeMode : Type 0 where
  mode_block mode_filesystem : VolumeMode
  mode_other : Text → VolumeMode

pub data BindingMode : Type 0 where
  wait_for_first_consumer immediate : BindingMode
  binding_other : Text → BindingMode

-- `resource.Quantity`, known by its text
pub record Quantity : Type 0 where
  pub text : Text

pub record Pvc : Type 0 where
  pub namespace : Text
  pub name : Text
  pub uid : Text
  pub resource_version : Text
  pub labels : Dict Text
  pub annotations : Dict Text
  pub phase : ClaimPhase
  pub volume_name : Text
  pub storage_class_name : Option Text
  pub volume_mode : Option VolumeMode
  pub access_modes : List Text
  pub requests : Dict Quantity

pub record ObjectReference : Type 0 where
  pub kind : Text
  pub api_version : Text
  pub namespace : Text
  pub name : Text
  pub uid : Text
  pub resource_version : Text

-- An entry of `MatchExpressions`
pub record Requirement : Type 0 where
  pub key : Text
  pub operator : Text
  pub values : List Text

-- A `NodeSelectorTerm` is its list of expressions.
abbrev pub Term : Type 0
Term = List Requirement

pub record Pv : Type 0 where
  pub name : Text
  pub annotations : Dict Text
  pub phase : VolumePhase
  pub capacity : Dict Quantity
  pub access_modes : List Text
  pub reclaim_policy : ReclaimPolicy
  pub storage_class_name : Text
  pub volume_mode : Option VolumeMode
  pub claim_ref : Option ObjectReference
  pub local_path : Option Text
  -- `NodeAffinity`, and in it `Required`, may be nil
  pub node_affinity : Option (Option (List Term))

pub record StorageClass : Type 0 where
  pub name : Text
  pub provisioner : Text
  pub parameters : Dict Text
  pub reclaim_policy : Option ReclaimPolicy
  pub volume_binding_mode : Option BindingMode

-- The values of a secret are bytes; those that the program reads as a text are valid UTF-8.
abbrev pub Secret : Type 0
Secret = Dict Text

-- `kubernetes.Interface`, as far as the controller calls it
pub record Client (W : Type 0) : Type 0 where
  pub get_pvc : Text → Text → Exec W Pvc
  pub list_pvcs : Exec W (List Pvc)
  pub patch_pvc : Text → Text → Text → Exec W (Unit {0})
  pub get_pv : Text → Exec W Pv
  pub list_pvs : Exec W (List Pv)
  pub create_pv : Pv → Exec W Pv
  pub delete_pv : Text → Exec W (Unit {0})
  pub get_storage_class : Text → Exec W StorageClass
  pub get_secret : Text → Text → Exec W Secret

-- The caches of the informers
pub record Listers (W : Type 0) : Type 0 where
  pub get_pvc : Text → Text → Exec W Pvc
  pub list_pvcs : Exec W (List Pvc)
  pub get_pv : Text → Exec W Pv
  pub get_storage_class : Text → Exec W StorageClass

-- Pure functions of packages that the program calls: `text/template` (a parsed template is the
-- function that executes it) and the quantities of `apimachinery`.
pub record External : Type 0 where
  pub parse_template : Text → Result (TemplateContext → Result Text)
  pub parse_quantity : Text → Result Quantity
  pub quantity_value : Quantity → ℤ
