-- ===== src/Controller/Secrets/Effects.antt =====
-- The effects of `loadSecretKey`.
use k8s_subvol_provisioner.Base.{Option, none, some}
use k8s_subvol_provisioner.Text.{Text}
use k8s_subvol_provisioner.Errors.{Result, ok, err}
use k8s_subvol_provisioner.Exec.Along.{Along, Along-attempt}
use k8s_subvol_provisioner.Kube.{Secret}
use k8s_subvol_provisioner.Controller.{Controller, System, lift}
use k8s_subvol_provisioner.Controller.Effects.{IsQuiet, then_do, give, fail}
use k8s_subvol_provisioner.Controller.Secrets.{
  SecretRef, value_of, secret_of, load_ref, load_secret_key,
}

module _ {W : Type 0} {R : System W → System W → Type 0} (q : IsQuiet R) (c : Controller W)
    (asked : (namespace name : Text) → Along R (lift (c.client.get_secret namespace name))) where
  Along-value_of : (ref : SecretRef) (o : Option Text) → Along R (value_of {W = W} ref o)
  Along-value_of ref none = fail q _
  Along-value_of ref (some v) = give q v

  Along-secret_of : (ref : SecretRef) (r : Result Secret) → Along R (secret_of {W = W} ref r)
  Along-secret_of ref (ok secret) = Along-value_of ref _
  Along-secret_of ref (err e) = fail q _

  Along-load_ref : (text : Text) (o : Option SecretRef) → Along R (load_ref c text o)
  Along-load_ref text none = fail q _
  Along-load_ref text (some ref) =
      then_do q _ _ (Along-attempt _ (asked ref.namespace ref.name)) (Along-secret_of ref)

  pub Along-load_secret_key : (namespace text : Text) → Along R (load_secret_key c namespace text)
  unfolding load_secret_key
  Along-load_secret_key namespace text = Along-load_ref text _
