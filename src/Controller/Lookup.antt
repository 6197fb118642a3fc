-- ===== src/Controller/Lookup.antt =====
-- `getPVC`, `getPV` and `getStorageClass`: from the informers' caches, once there are any
use k8s_subvol_provisioner.Base.{Option, none, some}
use k8s_subvol_provisioner.Text.{Text}
use k8s_subvol_provisioner.Exec.{Exec}
use k8s_subvol_provisioner.Kube.{Client, Listers, Pvc, Pv, StorageClass}
use k8s_subvol_provisioner.Controller.{Controller, System, lift}

module _ {W : Type 0} where
  abbrev pub pvc_from : Client W → Option (Listers W) → Text → Text → Exec W Pvc
  pvc_from client none = client.get_pvc
  pvc_from client (some listers) = listers.get_pvc

  abbrev pub pv_from : Client W → Option (Listers W) → Text → Exec W Pv
  pv_from client none = client.get_pv
  pv_from client (some listers) = listers.get_pv

  abbrev pub class_from : Client W → Option (Listers W) → Text → Exec W StorageClass
  class_from client none = client.get_storage_class
  class_from client (some listers) = listers.get_storage_class

  unfoldable pub get_pvc : Controller W → Text → Text → Exec (System W) Pvc
  get_pvc c namespace name = lift (pvc_from c.client c.listers namespace name)

  unfoldable pub get_pv : Controller W → Text → Exec (System W) Pv
  get_pv c name = lift (pv_from c.client c.listers name)

  unfoldable pub get_storage_class : Controller W → Text → Exec (System W) StorageClass
  get_storage_class c name = lift (class_from c.client c.listers name)
