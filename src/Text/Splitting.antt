-- ===== src/Text/Splitting.antt =====
-- Splitting at a separator, and joining again.
use k8s_subvol_provisioner.Base.{
  ℕ, ◌≡◌, ◌≢◌, refl, ap, ◌∙◌, true, false, List, [], ◌∷◌, ◌++◌, append_assoc, none, some, arith,
  All,
}
use k8s_subvol_provisioner.Text.{
  Text, split, split_first, split_last, push_part, join, contains_char,
}

-- `d` does not occur.
abbrev pub Lacks : ℕ → Text → Type 0
Lacks d = All (λ c. c ≢ d)

module _ (d : ℕ) where
  push_part-Lacks :
      (c : ℕ) (ps : List Text) → c ≢ d → All (Lacks d) ps → All (Lacks d) (push_part c ps)
  push_part-Lacks c [] h k = ((h, tt), tt)
  push_part-Lacks c (p ∷ ps) h (k, ks) = ((h, k), ks)

  -- No part of a split holds the separator.
  pub split-Lacks : (s : Text) → All (Lacks d) (split d s)
  unfolding split
  split-Lacks [] = (tt, tt)
  split-Lacks (c ∷ s) = ground (arith, split-Lacks s, push_part-Lacks c (split d s))

  -- A text without the separator is the one part of its split.
  pub split_of_Lacks : (s : Text) → Lacks d s → split d s ≡ s ∷ []
  unfolding split
  split_of_Lacks [] h = refl
  split_of_Lacks (c ∷ s) (h, hs) = ground (arith, split_of_Lacks s hs)

  pub split-append_sep : (s t : Text) → Lacks d s → split d (s ++ d ∷ t) ≡ s ∷ split d t
  unfolding split
  split-append_sep [] t h = ground arith
  split-append_sep (c ∷ s) t (h, hs) = ground (arith, split-append_sep s t hs)

  -- The first occurrence of the separator is found.
  pub split_first-append : (s t : Text) → Lacks d s → split_first d (s ++ d ∷ t) ≡ some (s, t)
  unfolding split_first
  split_first-append [] t h = ground arith
  split_first-append (c ∷ s) t (h, hs) = ground (arith, split_first-append s t hs)

  pub split_first_of_Lacks : (s : Text) → Lacks d s → split_first d s ≡ none
  unfolding split_first
  split_first_of_Lacks [] h = refl
  split_first_of_Lacks (c ∷ s) (h, hs) = ground (arith, split_first_of_Lacks s hs)

  pub split_last_of_Lacks : (s : Text) → Lacks d s → split_last d s ≡ none
  unfolding split_last
  split_last_of_Lacks [] h = refl
  split_last_of_Lacks (c ∷ s) (h, hs) = ground (arith, split_last_of_Lacks s hs)

  -- The last occurrence of the separator is found.
  pub split_last-append : (s t : Text) → Lacks d t → split_last d (s ++ d ∷ t) ≡ some (s, t)
  unfolding split_last
  split_last-append [] t h = ground (arith, split_last_of_Lacks t h)
  split_last-append (c ∷ s) t h = rw (split_last-append s t h)

  contains_char_of_Lacks : (s : Text) → Lacks d s → contains_char s d ≡ false
  unfolding contains_char
  contains_char_of_Lacks [] h = refl
  contains_char_of_Lacks (c ∷ s) (h, hs) = ground (arith, contains_char_of_Lacks s hs)

  pub contains_char-append : (s t : Text) → contains_char (s ++ d ∷ t) d ≡ true
  unfolding contains_char
  contains_char-append [] t = ground arith
  contains_char-append (c ∷ s) t = ground (arith, contains_char-append s t)

  -- Splitting a join gives the parts back.
  pub split-join :
      (p : Text) (ps : List Text)
      → Lacks d p
      → All (Lacks d) ps
      → split d (join (d ∷ []) (p ∷ ps)) ≡ p ∷ ps
  unfolding join
  split-join p [] h hs = split_of_Lacks p h
  split-join p (q ∷ ps) h (hq, hs) =
      split-append_sep p (join (d ∷ []) (q ∷ ps)) h ∙ ap (λ r. p ∷ r) (split-join q ps hq hs)

  pub split-ne-nil : (s : Text) → split d s ≢ []
  unfolding split
  split-ne-nil [] = cc
  split-ne-nil (c ∷ s) = ground (arith, split-ne-nil s)

  push_part-append :
      (c : ℕ) (ps qs : List Text) → ps ≢ [] → push_part c (ps ++ qs) ≡ push_part c ps ++ qs
  push_part-append c [] qs h = absurd (h refl)
  push_part-append c (p ∷ ps) qs h = refl

  -- A separator between two texts parts their splits.
  pub split-append : (s t : Text) → split d (s ++ d ∷ t) ≡ split d s ++ split d t
  unfolding split
  split-append [] t = ground arith
  split-append (c ∷ s) t =
      ground (arith, split-append s t, push_part-append c (split d s) (split d t) (split-ne-nil s))

  join-push_part :
      (c : ℕ) (ps : List Text) → ps ≢ [] → join (d ∷ []) (push_part c ps) ≡ c ∷ join (d ∷ []) ps
  unfolding join
  join-push_part c [] h = absurd (h refl)
  join-push_part c (p ∷ []) h = refl
  join-push_part c (p ∷ q ∷ ps) h = refl

  join-nil_cons : (ps : List Text) → ps ≢ [] → join (d ∷ []) ([] ∷ ps) ≡ d ∷ join (d ∷ []) ps
  unfolding join
  join-nil_cons [] h = absurd (h refl)
  join-nil_cons (p ∷ ps) h = refl

  -- Joining the parts of a split gives the text back.
  pub join-split : (s : Text) → join (d ∷ []) (split d s) ≡ s
  unfolding split
  join-split [] = unfold join in refl
  join-split (c ∷ s) = ground (
    arith,
    join-split s,
    join-nil_cons (split d s) (split-ne-nil s),
    join-push_part c (split d s) (split-ne-nil s),
  )

  pub join-append :
      (p : Text) (ps qs : List Text)
      → qs ≢ []
      → join (d ∷ []) ((p ∷ ps) ++ qs) ≡ join (d ∷ []) (p ∷ ps) ++ d ∷ join (d ∷ []) qs
  unfolding join
  join-append p [] [] h = absurd (h refl)
  join-append p [] (q ∷ qs) h = refl
  join-append p (r ∷ ps) qs h = rw (join-append r ps qs h) (simp append_assoc)
