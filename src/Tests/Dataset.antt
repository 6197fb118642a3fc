-- ===== src/Tests/Dataset.antt =====
-- A dataset with a quota and a property that are set. The world outside is a pair: whether the quota of
-- 5 bytes is set, and whether the property is.
use k8s_subvol_provisioner.Base.{
  ℕ, zero, suc, List, [], ◌∷◌, ◌++◌, some, true, false, if◌then◌else◌, ◌≡◌, refl, sym, ◌∙◌, arith,
  All,
}
use mathlib.Core.Path.{subst, ap}
use mathlib.Core.List.Permᴰ
use k8s_subvol_provisioner.Base.Int.{ℤ, pos, IsInt64}
use k8s_subvol_provisioner.Text.{Text, codes, eq_text, contains_char}
use k8s_subvol_provisioner.Text.Equality.{eq_text_ne}
use k8s_subvol_provisioner.Text.Splitting.{Lacks}
use k8s_subvol_provisioner.Strconv.{format_int, format_nat, digits_onto}
use k8s_subvol_provisioner.Dict.{Dict, lookup, get}
use k8s_subvol_provisioner.Errors.{ok, err}
use k8s_subvol_provisioner.Exec.{Exec}
use k8s_subvol_provisioner.Config.Names.{ann_dataset_name}
use k8s_subvol_provisioner.Host.{Host}
use k8s_subvol_provisioner.Zfs.{Zfs, run}
use k8s_subvol_provisioner.Zfs.Quota.{quota_setting}
use k8s_subvol_provisioner.Zfs.Quota.Convergence.{HasQuota}
use k8s_subvol_provisioner.Zfs.Properties.{
  managed_only, is_managed, is_reconcilable, is_member, prop_setting,
}
use k8s_subvol_provisioner.Zfs.Properties.Laws.{IsManagedOnly}
use k8s_subvol_provisioner.Zfs.Properties.Loops.{InSomeOrder}
use k8s_subvol_provisioner.Zfs.Properties.Inherit.{RefusesInherit}
use k8s_subvol_provisioner.Zfs.Properties.Convergence.{Shows, IsAssigned, SetsAsWritten}
use k8s_subvol_provisioner.Tests.Properties.{printed, opened, others}
use k8s_subvol_provisioner.Tests.Samples.{broken, built}

abbrev pub World : Type 0
World = ℕ × ℕ

abbrev bytes_of : ℕ → ℤ
bytes_of zero = pos 0
bytes_of (suc n) = pos 5

abbrev pub bytes : World → ℤ
bytes w = bytes_of w.0

abbrev answer : List Text → Exec World Text
answer [] w = (err broken, w)
answer (verb ∷ []) w = (err broken, w)
answer (verb ∷ arg ∷ []) w = (err broken, w)
answer (verb ∷ arg ∷ option ∷ args) w =
    if eq_text verb (codes "get")
    then if eq_text option (codes "-p")
      then (ok (format_int (bytes w) ++ 10 ∷ []), w)
      else (ok (printed w.1), w)
    else if eq_text verb (codes "set")
    then if eq_text arg (codes "quota=5") then (ok [], (1, w.1)) else (ok [], (w.0, 1))
    else (err broken, w)

-- No file can be reached.
abbrev no_files : Host World
no_files = record {
  stat = λ path w. (err broken, w);
  chown = λ path uid gid w. (err broken, w);
  chmod = λ path mode w. (err broken, w);
  mkdir_all = λ path mode w. (err broken, w);
  rename = λ old new w. (err broken, w);
  remove_all = λ path w. (err broken, w);
  info = λ path w. (err broken, w);
  walk_dir = λ root f w. (err broken, w);
  now = λ w. pos 1700;
}

abbrev pub pool : Zfs World
pool = record {
  zfs_path = codes "zfs";
  executor = record { run = λ stdin path args. answer args };
  host = no_files;
  range_texts = λ m. m;
  range_props = λ m. m;
}

abbrev pub dataset : Text
dataset = get built.annotations ann_dataset_name

pub bounded : (w : World) → IsInt64 (bytes w)
bounded (zero, p) = omega arith
bounded (suc n, p) = omega arith

unfoldable pub has : HasQuota pool dataset (some (pos 5))
unfolding run eq_text codes quota_setting format_int format_nat digits_onto
has = record { quota = bytes; bounded = bounded; read = λ w. refl; set = λ w out h. refl }

unfoldable pub shows : Shows pool dataset
unfolding run eq_text codes
shows = record { text = λ w. printed w.1; read = λ w. refl }

sync_set : (w : World) → IsAssigned pool dataset shows (codes "sync") (codes "disabled") w (w.0, 1)
unfolding lookup eq_text codes shows
sync_set w = (rw (opened.1 0) refl, λ j ne. others j w.1 ne)

abbrev pub wanted : Dict Text
wanted = (codes "sync", codes "disabled") ∷ []

pub sets : All (SetsAsWritten pool dataset shows) (managed_only wanted)
unfolding managed_only is_managed contains_char is_reconcilable is_member run eq_text codes
    prop_setting
sets = (λ w out h. sync_set w, tt)

pub order : InSomeOrder pool
order = record { texts = λ m. Permᴰ.refl m; props = λ m. Permᴰ.refl m }

pub refuses : RefusesInherit pool dataset
unfolding run eq_text codes
refuses k w = (broken, refl)

-- Only one "=" separates a name from a value without "=".
sep_occurs : (k v : Text) → Lacks b'=' (k ++ b'=' ∷ v) → ⊥
sep_occurs [] v h = h.0 refl
sep_occurs (c ∷ k) v h = sep_occurs k v h.1

cons_parts : (c d : ℕ) (k l : Text) → c ∷ k ≡ d ∷ l → (c ≡ d) × (k ≡ l)
cons_parts c d k l e = (ground arith, ground arith)

same_name : (k v s t : Text) → Lacks b'=' s → Lacks b'=' t → k ++ b'=' ∷ v ≡ s ++ b'=' ∷ t → k ≡ s
same_name [] v [] t p q e = refl
same_name [] v (c ∷ s) t (h, p) q e = absurd (h (ground arith))
same_name (c ∷ k) v [] t p q e = absurd (sep_occurs k v (subst (Lacks b'=') (ground arith) q))
same_name (c ∷ k) v (d ∷ s) t (h, p) q e =
    let (head, rest) = cons_parts c d (k ++ b'=' ∷ v) (s ++ b'=' ∷ t) e in
    rw head (ap (λ l. d ∷ l) (same_name k v s t p q rest))

unmanaged : is_managed (codes "quota") ≡ false
unfolding is_managed contains_char is_reconcilable is_member eq_text codes
unmanaged = refl

managed_setting :
    (k v : Text) → is_managed k ≡ true → eq_text (prop_setting k v) (codes "quota=5") ≡ false
unfolding prop_setting codes
managed_setting k v h = eq_text_ne (k ++ b'=' ∷ v) (codes "quota=5") λ e.
    let named = same_name k v (codes "quota") (codes "5") (ground arith) (ground arith) e in
    let differs : true ≡ false = sym h ∙ (ap is_managed named ∙ unmanaged) in absurd (ground arith)

pub keeps : IsManagedOnly pool (λ v w. bytes w ≡ bytes v) dataset
unfolding run eq_text codes
keeps = record {
  preorder = record { reflexive = λ w. refl; transitive = λ s t u h k. k ∙ h };
  read = record { at = λ w. refl };
  set = λ k v h. record { at = λ w. rw (managed_setting k v h) refl };
  inherit = λ k h. record { at = λ w. refl };
}
