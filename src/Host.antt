-- ===== src/Host.antt =====
-- What the drivers call of the operating system, over an unknown state `W` of the world outside.
use k8s_subvol_provisioner.Base.{ℕ, Bool, List, [], ◌∷◌, Option, none, some}
use k8s_subvol_provisioner.Base.Int.{ℤ}
use k8s_subvol_provisioner.Text.{Text, codes, join, trim_space}
use k8s_subvol_provisioner.Errors.{Error, wrapf, str, Result, ok, err}
use k8s_subvol_provisioner.Exec.{Exec, pure, attempt, ◌>>=◌}
use k8s_subvol_provisioner.Config.{Ownership, FileMode}

-- `CommandExecutor.Run`: the standard input, the command and its arguments, for the output
pub record Executor (W : Type 0) : Type 0 where
  pub run : Text → Text → List Text → Exec W Text

-- `exec.CommandContext` with `CombinedOutput`: the standard input, if it is set, the command and its
-- arguments, for the output, which there is beside an error too
pub record Command (W : Type 0) : Type 0 where
  pub combined_output : Option Text → Text → List Text → W → (Text × Option Error) × W

abbrev set_stdin : Text → Option Text
set_stdin [] = none
set_stdin (c ∷ stdin) = some (c ∷ stdin)

abbrev ended : Text → List Text → Text × Option Error → Result Text
ended cmd args (out, none) = ok out
ended cmd args (out, some e) = err (
    wrapf (codes "command %s %s failed (%w): %s")
      (str cmd ∷ str (join (codes " ") args) ∷ str (trim_space out) ∷ []) e)

-- `osExecutor`; no caller reads the output of a command that fails.
unfoldable pub os_executor : {W : Type 0} → Command W → Executor W
os_executor command = record {
  run = λ stdin cmd args w.
      let (ending, w') = command.combined_output (set_stdin stdin) cmd args w in
      (ended cmd args ending, w');
}

-- The owner of a file, which `fi.Sys().(*syscall.Stat_t)` gives
pub record Owner : Type 0 where
  pub uid : ℕ
  pub gid : ℕ

-- `os.FileInfo`
pub record FileInfo : Type 0 where
  pub is_dir : Bool
  pub mode : FileMode
  pub owner : Option Owner

-- A call of the function that `filepath.WalkDir` is given: the path, and whether its entry is a
-- symbolic link
pub record Entry : Type 0 where
  pub path : Text
  pub is_symlink : Bool

-- The world, with the two counters of a recursive walk
pub record Walk (W : Type 0) : Type 0 where
  pub world : W
  pub reowned : ℕ
  pub rechmod : ℕ

pub record Host (W : Type 0) : Type 0 where
  pub stat : Text → Exec W FileInfo
  pub chown : Text → ℤ → ℤ → Exec W (Unit {0})
  pub chmod : Text → FileMode → Exec W (Unit {0})
  pub mkdir_all : Text → FileMode → Exec W (Unit {0})
  pub rename : Text → Text → Exec W (Unit {0})
  pub remove_all : Text → Exec W (Unit {0})
  -- `entry.Info()`
  pub info : Text → Exec W FileInfo
  -- `filepath.WalkDir(root, f)`; an entry that cannot be read is an error
  pub walk_dir : Text → (Result Entry → Exec (Walk W) (Unit {0})) → Exec (Walk W) (Unit {0})
  -- `time.Now().Unix()`
  pub now : W → ℤ

module _ {W : Type 0} (h : Host W) where
  -- `if owner != nil { os.Chown }`, where a failure is only logged
  abbrev pub try_chown : Text → Option Ownership → Exec W (Unit {0})
  try_chown path none = pure tt
  try_chown path (some o) = do r ← attempt (h.chown path o.uid o.gid); pure tt

  -- `if mode != nil { os.Chmod }`, where a failure is only logged
  abbrev pub try_chmod : Text → Option FileMode → Exec W (Unit {0})
  try_chmod path none = pure tt
  try_chmod path (some m) = do r ← attempt (h.chmod path m); pure tt
