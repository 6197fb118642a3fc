-- ===== src/Controller/Guard/Workers.antt =====
-- Any number of workers that share the table `inProgress`, interleaved at its two sections.
use k8s_subvol_provisioner.Base.{
  ℕ, ◌==◌, ==_iff, Bool, true, [], none, some, if◌then◌else◌, ◌≡◌, ◌≢◌, arith, Bool-cases, inl, inr,
}
use k8s_subvol_provisioner.Text.{Text, eq_text}
use k8s_subvol_provisioner.Text.Equality.{eq_text_iff, eq_text_refl}
use k8s_subvol_provisioner.Dict.{Dict, insert, lookup}
use k8s_subvol_provisioner.Controller.Guard.{
  is_in_progress, enter, leave, is_in_progress-enter, is_in_progress-leave, enter_free,
}

-- What a worker does: nothing that is guarded, or the body of the handler for a key.
pub data Worker : Type 0 where
  idle : Worker
  busy : Text → Worker

pub record Workers : Type 0 where
  pub table : Dict Bool
  pub worker : ℕ → Worker

abbrev pub update : (ℕ → Worker) → ℕ → Worker → ℕ → Worker
update w i v j = if i == j then v else w j

-- A step of one worker: it starts a handler, finds that its key is in progress, or ends a handler.
pub data Step (s : Workers) : Workers → Type 0 where
  start :
      (i : ℕ) (key : Text) (m : Dict Bool)
      → s.worker i ≡ idle
      → enter key s.table ≡ some m
      → Step s (record { table = m; worker = update s.worker i (busy key) })
  skip : (i : ℕ) (key : Text) → s.worker i ≡ idle → enter key s.table ≡ none → Step s s
  finish :
      (i : ℕ) (key : Text)
      → s.worker i ≡ busy key
      → Step s (record { table = leave key s.table; worker = update s.worker i idle })

abbrev pub init : Workers
init = record { table = []; worker = λ i. idle }

pub data Reach : Workers → Type 0 where
  here : Reach init
  next : {s t : Workers} → Reach s → Step s t → Reach t

-- A key is in progress exactly where a worker is busy with it, and that worker is the only one.
record IsGuarded (s : Workers) : Type 0 where
  held : (i : ℕ) (k : Text) → s.worker i ≡ busy k → is_in_progress k s.table ≡ true
  alone : (i j : ℕ) (k : Text) → s.worker i ≡ busy k → s.worker j ≡ busy k → i ≡ j
  used : (k : Text) → is_in_progress k s.table ≡ true → (i : ℕ) × (s.worker i ≡ busy k)

init-IsGuarded : IsGuarded init
unfolding is_in_progress lookup
init-IsGuarded = record {
  held = λ i k h. absurd (cc);
  alone = λ i j k h. absurd (cc);
  used = λ k h. absurd (cc);
}

module _ (s : Workers) (g : IsGuarded s) (i : ℕ) (key : Text) where
  start-IsGuarded :
      (m : Dict Bool)
      → s.worker i ≡ idle
      → enter key s.table ≡ some m
      → IsGuarded (record { table = m; worker = update s.worker i (busy key) })
  start-IsGuarded m free e = record {
    held = λ j k h.
        ground
          (arith, is_in_progress-enter key k s.table m e, g.held j k, eq_text_refl k, ==_iff i j);
    alone = λ j j' k h h'. ground (
      arith,
      is_in_progress-enter key k s.table m e,
      g.held j k,
      g.held j' k,
      g.alone j j' k,
      ==_iff i j,
      ==_iff i j',
    );
    used = λ k h. elim (Bool-cases (eq_text key k)) [
      | inl same ↦ (i, ground (arith, eq_text_iff key k, ==_iff i i))
      | inr other ↦
          let (j, runs) = g.used k (ground (arith, is_in_progress-enter key k s.table m e)) in
          (j, ground (arith, ==_iff i j))
    ];
  }

  finish-IsGuarded :
      s.worker i ≡ busy key
      → IsGuarded (record { table = leave key s.table; worker = update s.worker i idle })
  finish-IsGuarded runs = record {
    held = λ j k h. ground (
      arith,
      is_in_progress-leave key k s.table,
      g.held j k,
      g.alone i j k,
      eq_text_iff key k,
      ==_iff i j,
    );
    alone = λ j j' k h h'. ground (arith, g.alone j j' k, ==_iff i j, ==_iff i j');
    used = λ k h.
        let (j, runs') = g.used k (ground (arith, is_in_progress-leave key k s.table)) in
        (j, ground (arith, is_in_progress-leave key k s.table, eq_text_iff key k, ==_iff i j));
  }

Step-IsGuarded : {s t : Workers} → Step s t → IsGuarded s → IsGuarded t
Step-IsGuarded {s} (start i key m free e) g = start-IsGuarded s g i key m free e
Step-IsGuarded (skip i key free e) g = g
Step-IsGuarded {s} (finish i key runs) g = finish-IsGuarded s g i key runs

Reach-IsGuarded : {s : Workers} → Reach s → IsGuarded s
Reach-IsGuarded here = init-IsGuarded
Reach-IsGuarded (next r st) = Step-IsGuarded st (Reach-IsGuarded r)

-- However any number of workers are interleaved, no two of them run the handler of one key at a time.
pub mutual_exclusion :
    {s : Workers} (i j : ℕ) (k : Text) → Reach s → s.worker i ≡ busy k → s.worker j ≡ busy k → i ≡ j
mutual_exclusion i j k r = (Reach-IsGuarded r).alone i j k

-- However the workers are interleaved, no key stays blocked: a worker can start the handler of every
-- key that no worker is busy with.
pub enter-Reach :
    {s : Workers} (k : Text)
    → Reach s
    → ((j : ℕ) → s.worker j ≢ busy k)
    → (m : Dict Bool) × (enter k s.table ≡ some m)
enter-Reach {s} k r none_busy = elim (Bool-cases (is_in_progress k s.table)) [
  | inl taken ↦ let (j, runs) = (Reach-IsGuarded r).used k taken in absurd (none_busy j runs)
  | inr free ↦ (insert k true s.table, enter_free k s.table free)
]
