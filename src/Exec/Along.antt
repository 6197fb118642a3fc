-- ===== src/Exec/Along.antt =====
-- What a function does to the state, on success and on failure: a relation of the state before to
-- the state after that is reflexive and transitive, and the rules to show it call by call.
use k8s_subvol_provisioner.Base.{Bool, true, false, if◌then◌else◌, ◌≡◌, refl, ◌∙◌}
use k8s_subvol_provisioner.Errors.{Error, Result, ok, err}
use k8s_subvol_provisioner.Exec.{
  Exec, pure, raise, returned, attempt, continue, ◌>>=◌, or_wrapped, wrapping,
}

pub record Along {S A : Type 0} (R : S → S → Type 0) (m : Exec S A) : Type 0 where
  pub at : (s : S) → R s (m s).1

pub record IsPreorder {S : Type 0} (R : S → S → Type 0) : Type 0 where
  pub reflexive : (s : S) → R s s
  pub transitive : (s t u : S) → R s t → R t u → R s u

module _ {S : Type 0} {R : S → S → Type 0} where
  module _ {A : Type 0} (p : IsPreorder R) where
    pub Along-pure : (a : A) → Along R (pure a)
    unfolding pure
    Along-pure a = record { at = p.reflexive }

    pub Along-raise : (e : Error) → Along R (raise {A = A} e)
    unfolding raise
    Along-raise e = record { at = p.reflexive }

    pub Along-returned : (r : Result A) → Along R (returned r)
    unfolding returned
    Along-returned r = record { at = p.reflexive }

  module _ {A : Type 0} where
    pub Along-attempt : (m : Exec S A) → Along R m → Along R (attempt m)
    unfolding attempt
    Along-attempt m h = record { at = h.at }

    pub Along-if :
        (b : Bool) (m n : Exec S A) → Along R m → Along R n → Along R (if b then m else n)
    Along-if true m n hm hn = hm
    Along-if false m n hm hn = hn

  module _ {A B : Type 0} (p : IsPreorder R) where
    Along-continue :
        (r : Result A) (f : A → Exec S B) → ((a : A) → Along R (f a)) → Along R (continue r f)
    Along-continue (ok a) f h = record { at = (h a).at }
    Along-continue (err e) f h = record { at = p.reflexive }

    pub Along-bind :
        (m : Exec S A) (f : A → Exec S B)
        → Along R m
        → ((a : A) → Along R (f a))
        → Along R (m >>= f)
    unfolding ◌>>=◌
    Along-bind m f hm hf = record {
      at = λ s.
          let (r, s') = m s in
          p.transitive s s' (continue r f s').1 (hm.at s) ((Along-continue r f hf).at s');
    }

    continue_at :
        (r : Result A) (f : A → Exec S B) (s : S)
        → ((a : A) → r ≡ ok a → R s (f a s).1)
        → R s (continue r f s).1
    continue_at (ok a) f s h = h a refl
    continue_at (err e) f s h = p.reflexive s

    -- The rule for one state: the rest may use what the call returned there.
    pub bind_at :
        (m : Exec S A) (f : A → Exec S B) (s : S)
        → R s (m s).1
        → ((a : A) → (m s).0 ≡ ok a → R (m s).1 (f a (m s).1).1)
        → R s ((m >>= f) s).1
    unfolding ◌>>=◌
    bind_at m f s h k =
        p.transitive s (m s).1 (continue (m s).0 f (m s).1).1 h (continue_at (m s).0 f (m s).1 k)

  module _ {A : Type 0} (p : IsPreorder R) where
    Along-or_wrapped : (wrap : Error → Error) (r : Result A) → Along R (or_wrapped wrap r)
    Along-or_wrapped wrap (ok a) = Along-pure p a
    Along-or_wrapped wrap (err e) = Along-raise p (wrap e)

    pub Along-wrapping :
        (wrap : Error → Error) (m : Exec S A) → Along R m → Along R (wrapping wrap m)
    Along-wrapping wrap m h = Along-bind p _ _ (Along-attempt m h) (Along-or_wrapped wrap)

-- The state is the same.
abbrev pub Same : {S : Type 0} → S → S → Type 0
Same s t = t ≡ s

pub Same-preorder : {S : Type 0} → IsPreorder (Same {S = S})
Same-preorder = record { reflexive = λ s. refl; transitive = λ s t u h k. k ∙ h }

-- What holds of the state still holds.
abbrev pub Keeps : {S : Type 0} → (S → Type 0) → S → S → Type 0
Keeps Q s t = Q s → Q t

pub Keeps-preorder : {S : Type 0} (Q : S → Type 0) → IsPreorder (Keeps Q)
Keeps-preorder Q = record { reflexive = λ s q. q; transitive = λ s t u h k q. k (h q) }
