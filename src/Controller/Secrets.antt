-- ===== src/Controller/Secrets.antt =====
-- `loadSecretKey`
pub mod Effects
use k8s_subvol_provisioner.Base.{Bool, true, false, List, [], ◌∷◌, Option, none, some}
use k8s_subvol_provisioner.Text.{Text, codes, split, split_first}
use k8s_subvol_provisioner.Dict.{lookup}
use k8s_subvol_provisioner.Errors.{Error, errorf, wrapf, str, quoted, Result, ok, err}
use k8s_subvol_provisioner.Exec.{Exec, pure, raise, attempt, ◌>>=◌}
use k8s_subvol_provisioner.Kube.{Secret}
use k8s_subvol_provisioner.Controller.{Controller, System, lift}

-- Namespace, name and key of a reference "[namespace/]name#key"
pub record SecretRef : Type 0 where
  pub namespace : Text
  pub name : Text
  pub key : Text

abbrev with_namespace : Text → Text → Text → Option (Text × Text) → SecretRef
with_namespace default_namespace name key none = record {
  namespace = default_namespace;
  name = name;
  key = key;
}
with_namespace default_namespace name key (some (ns, n)) = record {
  namespace = ns;
  name = n;
  key = key;
}

abbrev ref_of : Text → List Text → Option SecretRef
ref_of default_namespace (name ∷ key ∷ []) =
    some (with_namespace default_namespace name key (split_first b'/' name))
ref_of default_namespace _ = none

-- The parsing of the reference; `none` where it does not have exactly one "#"
unfoldable pub parse_secret_ref : Text → Text → Option SecretRef
parse_secret_ref default_namespace ref = ref_of default_namespace (split b'#' ref)

module _ {W : Type 0} where
  abbrev value_of : SecretRef → Option Text → Exec (System W) Text
  value_of ref (some value) = pure value
  value_of ref none = raise (
      errorf (codes "key %q not found in secret %s/%s")
        (quoted ref.key ∷ str ref.namespace ∷ str ref.name ∷ []))

  abbrev secret_of : SecretRef → Result Secret → Exec (System W) Text
  secret_of ref (ok secret) = value_of ref (lookup ref.key secret)
  secret_of ref (err e) =
      raise
        (wrapf (codes "failed to get secret %s/%s: %w") (str ref.namespace ∷ str ref.name ∷ []) e)

  abbrev load_ref : Controller W → Text → Option SecretRef → Exec (System W) Text
  load_ref c text none = raise (
      errorf (codes "invalid secret reference %q: expected [namespace/]name#key")
        (quoted text ∷ []))
  load_ref c text (some ref) = do
    secret ← attempt (lift (c.client.get_secret ref.namespace ref.name))
    secret_of ref secret

  unfoldable pub load_secret_key : Controller W → Text → Text → Exec (System W) Text
  load_secret_key c default_namespace text =
      load_ref c text (parse_secret_ref default_namespace text)
