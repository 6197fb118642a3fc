-- ===== src/Main/Entry.antt =====
-- `main` of cmd/subvol-provisioner/main.go: the two commands and the exit code.
use k8s_subvol_provisioner.Base.{ℕ, List, [], ◌∷◌, ◌≡◌, arith}
use k8s_subvol_provisioner.Text.{Text, codes}
use k8s_subvol_provisioner.Dict.{Dict}
use k8s_subvol_provisioner.Errors.{Error, Message, format, str, Result, ok, err}
use k8s_subvol_provisioner.Controller.{Controller}
use k8s_subvol_provisioner.Main.{RunFlags, Platform, default_flags, run}
use k8s_subvol_provisioner.Main.Start.{IsReady, run-IsReady}

-- `version`, `commit` and `date`, which the build sets
pub record Build : Type 0 where
  pub version : Text
  pub commit : Text
  pub date : Text

abbrev pub unset : Build
unset = record { version = codes "dev"; commit = codes "none"; date = codes "unknown" }

-- What cobra may run for a command line: the root command with its flags, the command `version`, or
-- one of its own, such as the help.
pub data Chosen : Type 0 where
  root : RunFlags → Chosen
  version : Chosen
  own : Chosen

-- cobra: the command for the default flags and the arguments, and what is printed
pub record Cobra (W : Type 0) : Type 0 where
  pub choose : RunFlags → List Text → Result Chosen
  pub print : Message → W → W
  pub print_own : List Text → W → W
  pub print_error : Error → W → W

-- How `main` ends: with an exit code, or in the workers of a controller
pub data Outcome (W : Type 0) : Type 0 where
  exited : ℕ → Outcome W
  working : Controller W → Outcome W

-- The line that `version` prints
abbrev pub version_line : Build → Message
version_line b =
    format (codes "k8s-subvol-provisioner %s (commit: %s, built at: %s)\n")
      (str b.version ∷ str b.commit ∷ str b.date ∷ [])

module _ {W L C : Type 0} (p : Platform W L C) (cobra : Cobra W) (b : Build) where
  -- `rootCmd.Execute()` prints the error that it returns.
  abbrev pub after_run : Result (Controller W) × W → Outcome W × W
  after_run (ok c, w) = (working c, w)
  after_run (err e, w) = (exited 1, cobra.print_error e w)

  abbrev pub execute : List Text → Result Chosen → W → Outcome W × W
  execute args (ok (root flags)) w = after_run (run p flags w)
  execute args (ok version) w = (exited 0, cobra.print (version_line b) w)
  execute args (ok own) w = (exited 0, cobra.print_own args w)
  execute args (err e) w = (exited 1, cobra.print_error e w)

  -- `main`, in an environment and for the arguments of the program
  unfoldable pub main : Dict Text → List Text → W → Outcome W × W
  main env args = execute args (cobra.choose (default_flags env) args)

  -- However the program is called: if it gets to work, then with a controller that has its listers
  -- and its recorder, a provisioner name that is not empty, a resync period that is not zero and at
  -- least one worker.
  pub main-IsReady :
      (env : Dict Text) (args : List Text) (w : W) (c : Controller W)
      → (main env args w).0 ≡ working c
      → IsReady c
  unfolding main
  main-IsReady env args w c h = chosen (cobra.choose (default_flags env) args) h
    where
      after : (done : Result (Controller W) × W) → (after_run done).0 ≡ working c → done.0 ≡ ok c
      after (ok c', v) k = ground arith
      after (err e, v) k = absurd (cc)

      chosen : (r : Result Chosen) → (execute args r w).0 ≡ working c → IsReady c
      chosen (ok (root flags)) k = run-IsReady p flags c w (after (run p flags w) k)
      chosen (ok version) k = absurd (cc)
      chosen (ok own) k = absurd (cc)
      chosen (err e) k = absurd (cc)
