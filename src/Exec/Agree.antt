-- ===== src/Exec/Agree.antt =====
-- Two functions that return equal values wherever both succeed.
use k8s_subvol_provisioner.Base.{Bool, true, false, if◌then◌else◌, ◌≡◌, ◌∙◌, sym, refl}
use k8s_subvol_provisioner.Errors.{Error, Result, ok, err}
use k8s_subvol_provisioner.Exec.{Exec, pure, raise, continue, ◌>>=◌}

pub record Agree {S A : Type 0} (m n : Exec S A) : Type 0 where
  pub at : (s t : S) (a b : A) → (m s).0 ≡ ok a → (n t).0 ≡ ok b → a ≡ b

ok_injective : {A : Type 0} (a b : A) → ok a ≡ ok b → a ≡ b
ok_injective a b h = cc

-- Two functions that return nothing agree.
pub Agree-unit : {S : Type 0} (m n : Exec S (Unit {0})) → Agree m n
Agree-unit m n = record { at = λ s t a b h k. refl }

module _ {S A : Type 0} where
  pub Agree-pure : (a : A) → Agree {S = S} (pure a) (pure a)
  unfolding pure
  Agree-pure a = record { at = λ s t x y h k. sym (ok_injective a x h) ∙ ok_injective a y k }

  pub Agree-if :
      (b : Bool) (m m' n n' : Exec S A)
      → Agree m m'
      → Agree n n'
      → Agree (if b then m else n) (if b then m' else n')
  Agree-if true m m' n n' h k = h
  Agree-if false m m' n n' h k = k

  pub Agree-either :
      (b : Bool) (m n k : Exec S A) → Agree m k → Agree n k → Agree (if b then m else n) k
  Agree-either true m n k h g = h
  Agree-either false m n k h g = g

module _ {S A B : Type 0} where
  continue-Agree :
      (r r' : Result A) (f f' : A → Exec S B) (s t : S) (x y : B)
      → ((a b : A) → r ≡ ok a → r' ≡ ok b → Agree (f a) (f' b))
      → (continue r f s).0 ≡ ok x
      → (continue r' f' t).0 ≡ ok y
      → x ≡ y
  continue-Agree (ok a) (ok b) f f' s t x y h k l = (h a b refl refl).at s t x y k l
  continue-Agree (ok a) (err e) f f' s t x y h k l = absurd (cc)
  continue-Agree (err e) r' f f' s t x y h k l = absurd (cc)

  pub Agree-bind :
      (m m' : Exec S A) (f f' : A → Exec S B)
      → Agree m m'
      → ((a : A) → Agree (f a) (f' a))
      → Agree (m >>= f) (m' >>= f')
  unfolding ◌>>=◌
  Agree-bind m m' f f' h k = record {
    at = λ s t x y.
        continue-Agree (m s).0 (m' t).0 f f' (m s).1 (m' t).1 x y
          λ a b e e'. rw (h.at s t a b e e') (k b);
  }

  -- Two functions that start with the same call agree when they start in the same state.
  pub Agree-after :
      (m : Exec S A) (f f' : A → Exec S B) (s : S) (x y : B)
      → ((a : A) → Agree (f a) (f' a))
      → ((m >>= f) s).0 ≡ ok x
      → ((m >>= f') s).0 ≡ ok y
      → x ≡ y
  unfolding ◌>>=◌
  Agree-after m f f' s x y h =
      continue-Agree (m s).0 (m s).0 f f' (m s).1 (m s).1 x y
        λ a b e e'. rw (ok_injective a b (sym e ∙ e')) (h b)

  -- What every way through the rest returns, the whole returns.
  pub Agree-then :
      (m : Exec S A) (f : A → Exec S B) (b : B)
      → ((a : A) → Agree (f a) (pure b))
      → Agree (m >>= f) (pure b)
  unfolding ◌>>=◌
  Agree-then m f b h = record { at = λ s t x y. continue_returns (m s).0 (m s).1 t x y }
    where
      continue_returns :
          (r : Result A) (s t : S) (x y : B)
          → (continue r f s).0 ≡ ok x
          → (pure {S = S} b t).0 ≡ ok y
          → x ≡ y
      continue_returns (ok a) s t x y k l = (h a).at s t x y k l
      continue_returns (err e) s t x y k l = absurd (cc)

pub Agree-raise : {S A : Type 0} (e : Error) (n : Exec S A) → Agree (raise e) n
unfolding raise
Agree-raise e n = record { at = λ s t a b h k. absurd (cc) }
