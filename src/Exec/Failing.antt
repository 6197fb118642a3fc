-- ===== src/Exec/Failing.antt =====
-- What holds of the state where a function fails.
use k8s_subvol_provisioner.Base.{Bool, true, false, if◌then◌else◌, ◌≡◌, refl}
use k8s_subvol_provisioner.Errors.{Error, Result, ok, err}
use k8s_subvol_provisioner.Exec.{Exec, pure, attempt, continue, ◌>>=◌}

-- A call that always returns an error
abbrev pub Fails : {W A : Type 0} → Exec W A → Type 0
Fails {W} m = (w : W) → (e : Error) × ((m w).0 ≡ err e)

-- A call that always succeeds
abbrev pub Succeeds : {W A : Type 0} → Exec W A → Type 0
Succeeds {W} {A} m = (w : W) → (a : A) × ((m w).0 ≡ ok a)

pub record Failing {S A : Type 0} (Q : S → Type 0) (m : Exec S A) : Type 0 where
  pub at : (s : S) (e : Error) → (m s).0 ≡ err e → Q (m s).1

module _ {S : Type 0} {Q : S → Type 0} where
  module _ {A : Type 0} where
    pub Failing-pure : (a : A) → Failing Q (pure a)
    unfolding pure
    Failing-pure a = record { at = λ s e h. absurd (cc) }

    pub Failing-attempt : (m : Exec S A) → Failing Q (attempt m)
    unfolding attempt
    Failing-attempt m = record { at = λ s e h. absurd (cc) }

    pub Failing-if :
        (b : Bool) (m n : Exec S A) → Failing Q m → Failing Q n → Failing Q (if b then m else n)
    Failing-if true m n hm hn = hm
    Failing-if false m n hm hn = hn

  module _ {A B : Type 0} where
    continue-Failing :
        (r : Result A) (f : A → Exec S B) (s : S) (e : Error)
        → ((a : A) → Failing Q (f a))
        → ((e' : Error) → r ≡ err e' → Q s)
        → (continue r f s).0 ≡ err e
        → Q (continue r f s).1
    continue-Failing (ok a) f s e hf hm h = (hf a).at s e h
    continue-Failing (err e') f s e hf hm h = hm e' refl

    pub Failing-bind :
        (m : Exec S A) (f : A → Exec S B)
        → Failing Q m
        → ((a : A) → Failing Q (f a))
        → Failing Q (m >>= f)
    unfolding ◌>>=◌
    Failing-bind m f hm hf = record {
      at = λ s e. continue-Failing (m s).0 f (m s).1 e hf (λ e' h. hm.at s e' h);
    }
