-- ===== src/Controller/Guard.antt =====
-- `inProgress`: the table of the keys that a handler is working on, and the two sections of the code
-- that hold the mutex.
pub mod Workers
use k8s_subvol_provisioner.Base.{
  Bool, true, false, Option, none, some, if◌then◌else◌, ◌≡◌, refl, arith,
}
use k8s_subvol_provisioner.Text.{Text, eq_text}
use k8s_subvol_provisioner.Text.Equality.{eq_text_iff}
use k8s_subvol_provisioner.Dict.{Dict, lookup, insert, erase}
use k8s_subvol_provisioner.Dict.Laws.{lookup-insert, lookup-erase}

-- `c.inProgress[key]`, where a missing key reads as false
abbrev pub or_false : Option Bool → Bool
or_false none = false
or_false (some b) = b

unfoldable pub is_in_progress : Text → Dict Bool → Bool
is_in_progress key m = or_false (lookup key m)

-- The section at the start of a handler; `none` where it returns at once.
unfoldable pub enter : Text → Dict Bool → Option (Dict Bool)
enter key m = if is_in_progress key m then none else some (insert key true m)

-- The deferred section at its end
unfoldable pub leave : Text → Dict Bool → Dict Bool
leave key m = erase key m

pub is_in_progress-enter :
    (key k : Text) (m m' : Dict Bool)
    → enter key m ≡ some m'
    → (is_in_progress key m ≡ false)
      × (is_in_progress k m' ≡ (if eq_text key k then true else is_in_progress k m))
unfolding enter is_in_progress
is_in_progress-enter key k m m' h = ground (arith, lookup-insert key k true m)

pub is_in_progress-leave :
    (key k : Text) (m : Dict Bool)
    → is_in_progress k (leave key m) ≡ (if eq_text key k then false else is_in_progress k m)
unfolding leave is_in_progress
is_in_progress-leave key k m = ground (arith, lookup-erase key k m)

-- A handler starts unless its key is in progress.
pub enter_free :
    (key : Text) (m : Dict Bool)
    → is_in_progress key m ≡ false
    → enter key m ≡ some (insert key true m)
unfolding enter
enter_free key m h = rw h refl
