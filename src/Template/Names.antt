-- ===== src/Template/Names.antt =====
-- `ParseStatefulSetPVC` of templater.go on the names that a StatefulSet gives its claims.
use k8s_subvol_provisioner.Base.{ℕ, ◌^◌, ◌<◌, ◌≡◌, ◌≢◌, refl, [], ◌∷◌, ◌++◌, some, arith, All}
use k8s_subvol_provisioner.Base.Int.{ℤ, pos}
use k8s_subvol_provisioner.Text.{Text}
use k8s_subvol_provisioner.Text.Splitting.{Lacks, split_first-append, split_last-append}
use k8s_subvol_provisioner.Strconv.{parse_int, format_int, format_nat}
use k8s_subvol_provisioner.Strconv.RoundTrip.{
  IsDigit, format_nat-All, format_nat-ne-nil, parse_int-format_int,
}
use k8s_subvol_provisioner.Template.{split_index, parse_stateful_set_pvc}

digits-Lacks : (s : Text) → All IsDigit s → Lacks b'-' s
digits-Lacks [] h = tt
digits-Lacks (c ∷ s) (h, hs) = (omega arith, digits-Lacks s hs)

split_index-parts :
    (claim owner index : Text) (x : ℤ)
    → claim ≢ []
    → Lacks b'-' claim
    → index ≢ []
    → parse_int index ≡ some x
    → split_index (some (claim ++ b'-' ∷ owner, index))
      ≡ some (record { claim_name = claim; owner = owner; index = index })
split_index-parts [] owner index x h l k e = absurd (h refl)
split_index-parts (c ∷ claim) owner [] x h l k e = absurd (k refl)
split_index-parts (c ∷ claim) owner (d ∷ index) x h l k e =
    rw (e, split_first-append b'-' (c ∷ claim) owner l)

-- The name "<claim template>-<StatefulSet>-<index>" is taken apart into these three, if the name of
-- the claim template is not empty and has no hyphen; the name of the StatefulSet may have hyphens.
pub parse_stateful_set_pvc-parts :
    (claim owner : Text) (n : ℕ)
    → claim ≢ []
    → Lacks b'-' claim
    → n < 2 ^ 63
    → parse_stateful_set_pvc (claim ++ b'-' ∷ owner ++ b'-' ∷ format_nat n)
      ≡ some (record { claim_name = claim; owner = owner; index = format_nat n })
unfolding parse_stateful_set_pvc
parse_stateful_set_pvc-parts claim owner n h l b =
    rw
      (split_last-append b'-' (claim ++ b'-' ∷ owner) (format_nat n)
        (digits-Lacks (format_nat n) (format_nat-All n)))
      (split_index-parts claim owner (format_nat n) (pos n) h l (format_nat-ne-nil n)
        (unfold format_int in parse_int-format_int (pos n) b))
