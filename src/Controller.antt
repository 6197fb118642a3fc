-- ===== src/Controller.antt =====
-- pkg/controller/controller.go: the controller, its state, and what the handlers share. The parts
-- of the file are the modules below.
pub mod Guard
pub mod Target
pub mod Lookup
pub mod Secrets
pub mod Quota
pub mod Claim
pub mod Delete
pub mod State
pub mod Process
pub mod Queue
pub mod Run
pub mod Effects
use native.Mathlib.Omega.{arith}
use k8s_subvol_provisioner.Base.{
  ℕ, ◌≡◌, ◌==◌, zero, suc, Bool, true, false, List, [], ◌∷◌, ◌++◌, Option, none, some,
  if◌then◌else◌,
}
use k8s_subvol_provisioner.Base.Int.{ℤ, pos, is_positive}
use k8s_subvol_provisioner.Text.{Text, codes, is_empty}
use k8s_subvol_provisioner.Dict.{Dict, insert, erase, lookup}
use k8s_subvol_provisioner.Errors.{Error, errorf, Message, Result, ok, err}
use k8s_subvol_provisioner.Exec.{Exec, pure, raise}
use k8s_subvol_provisioner.Config.Names.{default_provisioner_name}
use k8s_subvol_provisioner.Controller.Guard.{enter, leave}
use k8s_subvol_provisioner.Kube.{Client, Listers, External}
use k8s_subvol_provisioner.Driver.{Driver}

-- The object of an event: a claim by namespace and name, or a volume by name.
pub data Object : Type 0 where
  claim : Text → Text → Object
  volume : Text → Object

pub data EventType : Type 0 where
  normal warning : EventType

pub record Event : Type 0 where
  pub object : Object
  pub event_type : EventType
  pub reason : Text
  pub message : Message

-- `Controller`. The fields that no handler changes after `Run` has set the listers.
pub record Controller (W : Type 0) : Type 0 where
  pub client : Client W
  pub node_name : Text
  pub provisioner_name : Text
  pub host_prefix : Text
  pub drivers : Dict (Driver W)
  -- `recorder != nil`
  pub has_recorder : Bool
  pub resync_period : ℕ
  pub workers : ℤ
  -- The listers are nil until `Run` starts the informers.
  pub listers : Option (Listers W)

-- What the handlers change: the world outside, the events that were recorded, and `inProgress`.
pub record System (W : Type 0) : Type 0 where
  pub world : W
  pub events : List Event
  pub in_progress : Dict Bool

-- `ControllerOptions`; a period is in seconds
pub record ControllerOptions (W : Type 0) : Type 0 where
  pub client : Option (Client W)
  pub node_name : Text
  pub provisioner_name : Text
  pub host_prefix : Text
  pub drivers : Option (Dict (Driver W))
  pub has_recorder : Bool
  pub resync_period : ℕ
  pub workers : ℤ

module _ {W : Type 0} where
  abbrev pub or_no_drivers : Option (Dict (Driver W)) → Dict (Driver W)
  or_no_drivers none = []
  or_no_drivers (some drivers) = drivers

  abbrev pub controller_of : ControllerOptions W → Option (Client W) → Result (Controller W)
  controller_of opts none = err (errorf (codes "kubernetes client cannot be nil") [])
  controller_of opts (some client) = ok (record {
    client = client;
    node_name = opts.node_name;
    provisioner_name =
        if is_empty opts.provisioner_name then default_provisioner_name else opts.provisioner_name;
    host_prefix = opts.host_prefix;
    drivers = or_no_drivers opts.drivers;
    has_recorder = opts.has_recorder;
    resync_period = if opts.resync_period == 0 then 600 else opts.resync_period;
    workers = if is_positive opts.workers then opts.workers else pos 4;
    listers = none;
  })

  -- `NewController`
  unfoldable pub new_controller : ControllerOptions W → Result (Controller W)
  new_controller opts = controller_of opts opts.client

  -- `RegisterDriver`
  unfoldable pub register_driver : Controller W → Driver W → Controller W
  register_driver c d = record c { drivers = insert d.name d c.drivers }

  -- A call of the world outside
  unfoldable pub lift : {A : Type 0} → Exec W A → Exec (System W) A
  lift m s = let (r, w) = m s.world in (r, record s { world = w })

  -- `emitEvent`; its object is never nil
  unfoldable pub emit_event :
      Controller W → Object → EventType → Text → Message → Exec (System W) (Unit {0})
  emit_event c object kind reason message s =
      if c.has_recorder
      then (
        ok tt,
        record s {
          events =
              s.events
              ++ record { object = object; event_type = kind; reason = reason; message = message }
                ∷ [];
        },
      )
      else (ok tt, s)

  -- What the three handlers share: the section at their start, and the deferred one at their end.
  abbrev release : {A : Type 0} → Text → Result A × System W → Result A × System W
  release key (r, s) = (r, record s { in_progress = leave key s.in_progress })

  abbrev pub entered :
      Text
      → Exec (System W) (Unit {0})
      → System W
      → Option (Dict Bool)
      → Result (Unit {0}) × System W
  entered key body s none = (ok tt, s)
  entered key body s (some m) = release key (body (record s { in_progress = m }))

  unfoldable pub exclusive : Text → Exec (System W) (Unit {0}) → Exec (System W) (Unit {0})
  unfolding enter leave
  exclusive key body s = entered key body s (enter key s.in_progress)

  -- With a recorder, an event is added behind the others.
  pub emit_event-on :
      (c : Controller W) (object : Object) (kind : EventType) (reason : Text) (message : Message)
      (s : System W)
      → c.has_recorder ≡ true
      → emit_event c object kind reason message s ≡ (
        ok tt,
        record s {
          events =
              s.events
              ++ record { object = object; event_type = kind; reason = reason; message = message }
                ∷ [];
        },
      )
  unfolding emit_event
  emit_event-on c object kind reason message s h = ground arith
