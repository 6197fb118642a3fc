-- ===== src/Controller/Effects.antt =====
-- What the handlers do to the controller's own state, outside the guards around their bodies: calls
-- of the world outside, and events.
use k8s_subvol_provisioner.Base.{[], ◌∷◌, ◌++◌, inl, inr, Bool-cases}
use k8s_subvol_provisioner.Text.{Text}
use k8s_subvol_provisioner.Errors.{Error, Message, Result}
use k8s_subvol_provisioner.Exec.{Exec, pure, raise, returned, ◌>>=◌}
use k8s_subvol_provisioner.Exec.Along.{
  Along, IsPreorder, Along-pure, Along-raise, Along-returned, Along-bind,
}
use k8s_subvol_provisioner.Controller.{
  Controller, System, Event, Object, EventType, lift, emit_event,
}

-- A relation that every event keeps
pub record IsQuiet {W : Type 0} (R : System W → System W → Type 0) : Type 0 where
  pub preorder : IsPreorder R
  pub emitted : (s : System W) (ev : Event) → R s (record s { events = s.events ++ ev ∷ [] })

-- A relation that every event and every call outside keeps
pub record IsAdmitted {W : Type 0} (R : System W → System W → Type 0) : Type 0 where
  pub quiet : IsQuiet R
  pub called : (s : System W) (w : W) → R s (record s { world = w })

-- The relation of the worlds
abbrev pub OfWorlds : {W : Type 0} → (W → W → Type 0) → System W → System W → Type 0
OfWorlds R s t = R s.world t.world

pub OfWorlds-IsQuiet : {W : Type 0} {R : W → W → Type 0} → IsPreorder R → IsQuiet (OfWorlds R)
OfWorlds-IsQuiet p = record {
  preorder = record {
    reflexive = λ s. p.reflexive s.world;
    transitive = λ s t u. p.transitive s.world t.world u.world;
  };
  emitted = λ s ev. p.reflexive s.world;
}

pub lift_worlds :
    {W A : Type 0} {R : W → W → Type 0} (m : Exec W A) → Along R m → Along (OfWorlds R) (lift m)
unfolding lift
lift_worlds m h = record { at = λ s. h.at s.world }

pub Along-lift :
    {W A : Type 0} {R : System W → System W → Type 0}
    → IsAdmitted R
    → (m : Exec W A) → Along R (lift m)
unfolding lift
Along-lift k m = record { at = λ s. k.called s (m s.world).1 }

module _ {W : Type 0} {R : System W → System W → Type 0} (k : IsQuiet R) where
  pub Along-emit_event :
      (c : Controller W) (object : Object) (kind : EventType) (reason : Text) (message : Message)
      → Along R (emit_event c object kind reason message)
  unfolding emit_event
  Along-emit_event c object kind reason message = record {
    at = λ s. elim (Bool-cases c.has_recorder) [
      | inl on ↦ rw on (k.emitted s _)
      | inr off ↦ rw off (k.preorder.reflexive s)
    ];
  }

  module _ {A B : Type 0} where
    pub then_do :
        (m : Exec (System W) A) (f : A → Exec (System W) B)
        → Along R m
        → ((a : A) → Along R (f a))
        → Along R (m >>= f)
    then_do = Along-bind k.preorder

  module _ {A : Type 0} where
    pub give : (a : A) → Along R (pure a)
    give = Along-pure k.preorder

    pub fail : (e : Error) → Along R (raise {A = A} e)
    fail = Along-raise k.preorder

    pub given : (r : Result A) → Along R (returned r)
    given = Along-returned k.preorder
