-- ===== src/Errors.antt =====
-- Go errors and messages. What `fmt` makes of a format string and its arguments is not modelled: a
-- message is the format string of its call with the arguments. An error from outside the program
-- (the Kubernetes client, the operating system, a command) carries what the predicates
-- `apierrors.IsNotFound`, `apierrors.IsAlreadyExists` and `os.IsNotExist` read of it.
use k8s_subvol_provisioner.Base.{ℕ, Bool, true, false, List}
use k8s_subvol_provisioner.Base.Int.{ℤ}
use k8s_subvol_provisioner.Text.{Text}

pub data Kind : Type 0 where
  not_found already_exists not_exist failed : Kind

-- An argument of a format string: `%s`, `%q`, `%d` or `%04o`.
pub data Arg : Type 0 where
  str quoted : Text → Arg
  num : ℤ → Arg
  octal : ℕ → Arg

pub data Error : Type 0 where
  -- an error from outside
  foreign : Kind → Text → Error
  -- `fmt.Errorf(format, args...)`, without and with a wrapped error
  errorf : Text → List Arg → Error
  wrapf : Text → List Arg → Error → Error

-- The message of an event: a format string with its arguments, `err.Error()`, or both.
pub data Message : Type 0 where
  format : Text → List Arg → Message
  of_error : Error → Message
  with_error : Text → List Arg → Error → Message

-- `apierrors.IsNotFound`, which looks through wrapped errors
unfoldable pub is_not_found : Error → Bool
is_not_found (foreign not_found m) = true
is_not_found (foreign k m) = false
is_not_found (errorf f args) = false
is_not_found (wrapf f args e) = is_not_found e

-- `apierrors.IsAlreadyExists`
unfoldable pub is_already_exists : Error → Bool
is_already_exists (foreign already_exists m) = true
is_already_exists (foreign k m) = false
is_already_exists (errorf f args) = false
is_already_exists (wrapf f args e) = is_already_exists e

-- `os.IsNotExist`, which does not look through wrapped errors
unfoldable pub is_not_exist : Error → Bool
is_not_exist (foreign not_exist m) = true
is_not_exist e = false

pub data Result {ℓ} (A : Type ℓ) : Type ℓ where
  ok : A → Result A
  err : Error → Result A
