-- ===== src/Text/Trimming.antt =====
-- What trimming leaves.
use k8s_subvol_provisioner.Base.{
  ◌∙◌, ◌≡◌, ◌≢◌, refl, Bool, true, false, [], ◌∷◌, ◌++◌, ℕ, arith, All,
}
use k8s_subvol_provisioner.Text.{Text, trim_left, trim_right, trim, keep_unless}

-- The text does not begin, or does not end, with a character that `p` holds of.
abbrev pub StartsClear : (ℕ → Bool) → Text → Type 0
StartsClear p [] = Unit
StartsClear p (c ∷ s) = p c ≡ false

abbrev pub EndsClear : (ℕ → Bool) → Text → Type 0
EndsClear p [] = Unit
EndsClear p (c ∷ []) = p c ≡ false
EndsClear p (c ∷ d ∷ s) = EndsClear p (d ∷ s)

module _ (p : ℕ → Bool) where
  pub trim_left-StartsClear : (s : Text) → StartsClear p (trim_left p s)
  unfolding trim_left
  trim_left-StartsClear [] = tt
  trim_left-StartsClear (c ∷ s) = ground (arith, trim_left-StartsClear s)

  keep_unless-StartsClear :
      (b : Bool) (c : ℕ) (r : Text) → p c ≡ false → StartsClear p (keep_unless b c r)
  keep_unless-StartsClear true c [] h = tt
  keep_unless-StartsClear false c [] h = h
  keep_unless-StartsClear b c (d ∷ r) h = h

  pub trim_right-StartsClear : (s : Text) → StartsClear p s → StartsClear p (trim_right p s)
  unfolding trim_right
  trim_right-StartsClear [] h = tt
  trim_right-StartsClear (c ∷ s) h = keep_unless-StartsClear (p c) c (trim_right p s) h

  keep_unless-EndsClear : (c : ℕ) (r : Text) → EndsClear p r → EndsClear p (keep_unless (p c) c r)
  keep_unless-EndsClear c [] h = ground arith
  keep_unless-EndsClear c (d ∷ r) h = h

  pub trim_right-EndsClear : (s : Text) → EndsClear p (trim_right p s)
  unfolding trim_right
  trim_right-EndsClear [] = tt
  trim_right-EndsClear (c ∷ s) = keep_unless-EndsClear c (trim_right p s) (trim_right-EndsClear s)

  trim_left_of_StartsClear : (s : Text) → StartsClear p s → trim_left p s ≡ s
  unfolding trim_left
  trim_left_of_StartsClear [] h = refl
  trim_left_of_StartsClear (c ∷ s) h = ground arith

  trim_right_of_EndsClear : (s : Text) → EndsClear p s → trim_right p s ≡ s
  unfolding trim_right
  trim_right_of_EndsClear [] h = refl
  trim_right_of_EndsClear (c ∷ []) h = ground arith
  trim_right_of_EndsClear (c ∷ d ∷ s) h = ground (arith, trim_right_of_EndsClear (d ∷ s) h)

  -- A text that begins and ends clear is left as it is.
  pub trim_of_clear : (s : Text) → StartsClear p s → EndsClear p s → trim p s ≡ s
  unfolding trim
  trim_of_clear s h k = ground (arith, trim_left_of_StartsClear s h, trim_right_of_EndsClear s k)

  pub trim-StartsClear : (s : Text) → StartsClear p (trim p s)
  unfolding trim
  trim-StartsClear s = trim_right-StartsClear (trim_left p s) (trim_left-StartsClear s)

  pub trim-EndsClear : (s : Text) → EndsClear p (trim p s)
  unfolding trim
  trim-EndsClear s = trim_right-EndsClear (trim_left p s)

  clear_of_All : (s : Text) → All (λ c. p c ≡ false) s → StartsClear p s × EndsClear p s
  clear_of_All [] h = (tt, tt)
  clear_of_All (c ∷ []) (h, hs) = (h, h)
  clear_of_All (c ∷ d ∷ s) (h, hs) = (h, (clear_of_All (d ∷ s) hs).1)

  -- A text with nothing to trim is left as it is.
  pub trim_of_All : (s : Text) → All (λ c. p c ≡ false) s → trim p s ≡ s
  trim_of_All s h = let (a, b) = clear_of_All s h in trim_of_clear s a b

  pub EndsClear-append : (s t : Text) → t ≢ [] → EndsClear p t → EndsClear p (s ++ t)
  EndsClear-append [] t h k = k
  EndsClear-append (c ∷ []) [] h k = absurd (h refl)
  EndsClear-append (c ∷ []) (d ∷ t) h k = k
  EndsClear-append (c ∷ e ∷ s) t h k = EndsClear-append (e ∷ s) t h k

  trim_right-append_space :
      (s : Text) (c : ℕ) → p c ≡ true → trim_right p (s ++ c ∷ []) ≡ trim_right p s
  unfolding trim_right
  trim_right-append_space [] c h = rw h refl
  trim_right-append_space (x ∷ s) c h = rw (trim_right-append_space s c h) refl

  -- A space behind a text that has none is trimmed.
  pub trim-append_space :
      (s : Text) (c : ℕ) → All (λ x. p x ≡ false) s → p c ≡ true → trim p (s ++ c ∷ []) ≡ s
  unfolding trim trim_left
  trim-append_space [] c h k = rw k (unfold trim_right in refl)
  trim-append_space (x ∷ s) c h k = rw h.0 (
      trim_right-append_space (x ∷ s) c k
      ∙ trim_right_of_EndsClear (x ∷ s) (clear_of_All (x ∷ s) h).1)
