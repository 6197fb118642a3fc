-- ===== src/Exec.antt =====
-- Functions that change a state and may return an error. What was changed before the error stays
-- changed, so the state comes back beside the error too.
pub mod Along
pub mod Agree
pub mod Failing
use k8s_subvol_provisioner.Base.{refl, ◌≡◌}
use k8s_subvol_provisioner.Errors.{Error, Result, ok, err}

abbrev pub Exec {ℓ} : Type ℓ → Type ℓ → Type ℓ
Exec S A = S → Result A × S

module _ {ℓ} {S A : Type ℓ} where
  -- `return a, nil`
  unfoldable pub pure : A → Exec S A
  pure a s = (ok a, s)

  -- `return err`
  unfoldable pub raise : Error → Exec S A
  raise e s = (err e, s)

  -- The value of a pure function that may fail
  unfoldable pub returned : Result A → Exec S A
  returned r s = (r, s)

  -- A call whose error the rest of the function looks at itself
  unfoldable pub attempt : Exec S A → Exec S (Result A)
  attempt m s = let (r, s') = m s in (ok r, s')

module _ {ℓ} {S A B : Type ℓ} where
  abbrev pub continue : Result A → (A → Exec S B) → Exec S B
  continue (ok a) f s = f a s
  continue (err e) f s = (err e, s)

  infixl 10 ◌>>=◌ ◌>>◌
  -- `a, err := m; if err != nil { return err }`. Opening this opens the four above too.
  unfoldable pub ◌>>=◌ : Exec S A → (A → Exec S B) → Exec S B
  unfolding pure raise returned attempt
  ◌>>=◌ m f s = let (r, s') = m s in continue r f s'

  abbrev pub ◌>>◌ : Exec S A → Exec S B → Exec S B
  m >> n = m >>= λ _. n

module _ {A W : Type 0} where
  abbrev pub or_wrapped : (Error → Error) → Result A → Exec W A
  or_wrapped wrap (ok a) = pure a
  or_wrapped wrap (err e) = raise (wrap e)

  -- A call whose error is wrapped and returned
  abbrev pub wrapping : (Error → Error) → Exec W A → Exec W A
  wrapping wrap m = do r ← attempt m; or_wrapped wrap r

module _ {ℓ} {S A B : Type ℓ} where
  -- The rest of a function runs on the result of a call that succeeds.
  pub bind-ok :
      (m : Exec S A) (f : A → Exec S B) (s : S) (a : A) → (m s).0 ≡ ok a → (m >>= f) s ≡ f a (m s).1
  unfolding ◌>>=◌
  bind-ok m f s a h = rw h

  -- The same for a call of which the state after it is known
  pub bind-run :
      (m : Exec S A) (f : A → Exec S B) (s t : S) (a : A) → m s ≡ (ok a, t) → (m >>= f) s ≡ f a t
  unfolding ◌>>=◌
  bind-run m f s t a h = rw h refl

  -- Where a function succeeds, its first call succeeds, and so does the rest on its result.
  pub bind-ok_parts :
      (m : Exec S A) (f : A → Exec S B) (s : S) (b : B)
      → ((m >>= f) s).0 ≡ ok b
      → (a : A) × (((m s).0 ≡ ok a) × ((f a (m s).1).0 ≡ ok b))
  unfolding ◌>>=◌
  bind-ok_parts m f s b h = go (m s) h
    where
      go :
          (p : Result A × S)
          → (continue p.0 f p.1).0 ≡ ok b
          → (a : A) × ((p.0 ≡ ok a) × ((f a p.1).0 ≡ ok b))
      go (ok a, t) k = (a, (refl, k))
      go (err e, t) k = absurd (cc)

  -- The result of the rest, from whatever state, is the result of the whole.
  pub result-bind :
      (m : Exec S A) (f : A → Exec S B) (s : S) (a : A) (r : Result B)
      → (m s).0 ≡ ok a
      → ((t : S) → (f a t).0 ≡ r)
      → ((m >>= f) s).0 ≡ r
  result-bind m f s a r h k = rw (bind-ok m f s a h) (k (m s).1)

  -- What holds of the rest, from the state after the call, holds of the whole.
  pub ensures-bind :
      (P : Result B × S → Type 0) (m : Exec S A) (f : A → Exec S B) (s : S) (a : A)
      → (m s).0 ≡ ok a
      → P (f a (m s).1)
      → P ((m >>= f) s)
  ensures-bind P m f s a h p = rw (bind-ok m f s a h) p

-- A call that succeeds needs no wrapping.
pub wrapping-ok :
    {A S : Type 0} (wrap : Error → Error) (m : Exec S A) (s : S) {a : A}
    → (m s).0 ≡ ok a
    → (wrapping wrap m s).0 ≡ ok a
unfolding ◌>>=◌
wrapping-ok wrap m s h = rw h refl

-- A wrapped call that succeeds is a call that succeeds.
pub wrapping-ok_inner :
    {A S : Type 0} (wrap : Error → Error) (m : Exec S A) (s : S) (a : A)
    → (wrapping wrap m s).0 ≡ ok a
    → (m s).0 ≡ ok a
unfolding ◌>>=◌
wrapping-ok_inner {A} {S} wrap m s a h = go (m s) h
  where
    go : (p : Result A × S) → (or_wrapped wrap p.0 p.1).0 ≡ ok a → p.0 ≡ ok a
    go (ok b, t) k = k
    go (err e, t) k = absurd (cc)

-- and leaves the state that the call leaves.
pub wrapping-ok_state :
    {A S : Type 0} (wrap : Error → Error) (m : Exec S A) (s : S) {a : A}
    → (m s).0 ≡ ok a
    → wrapping wrap m s ≡ (ok a, (m s).1)
unfolding ◌>>=◌
wrapping-ok_state wrap m s h = rw h refl

-- Where a call whose error is wrapped and whose value is dropped succeeds, the call succeeds, and the
-- state is the one that it leaves.
pub after_command :
    {W O A : Type 0} (wrap : Error → Error) (m : Exec W O) (x : A) (w : W) (a : A)
    → ((wrapping wrap (m >> pure tt) >> pure x) w).0 ≡ ok a
    → (out : O) × (((m w).0 ≡ ok out) × (((wrapping wrap (m >> pure tt) >> pure x) w).1 ≡ (m w).1))
unfolding pure
after_command wrap m x w a h =
    let (u, (e, _)) = bind-ok_parts (wrapping wrap (m >> pure tt)) (λ _. pure x) w a h in
    let inner = wrapping-ok_inner wrap (m >> pure tt) w u e in
    let (out, (done, _)) = bind-ok_parts m (λ _. pure tt) w u inner in
    (
      out,
      (
        done,
        rw (bind-ok (wrapping wrap (m >> pure tt)) (λ _. pure x) w u e) (
            rw (wrapping-ok_state wrap (m >> pure tt) w inner)
              (rw (bind-ok m (λ _. pure tt) w out done) refl)),
      ),
    )
