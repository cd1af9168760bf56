-- ===== src/Runtime/Executor/Landing.antt =====
-- How a stretch of code is shown to keep the invariant, to land in a given state of its job and to
-- leave every other job as it was.
use mathlib.Core.List.{append-nil}
use pyxxl.Base.{
  ℕ, ◌≡◌, sym, ap, subst, ◌∙◌, inl, inr, String, Bool, true, Option, List, [], ◌++◌, get, nat_eq,
  nat_beq, Bool-cases, arith,
}
use pyxxl.Model.{RunData}
use pyxxl.Runtime.Executor.State.{Callback, Executor}
use pyxxl.Runtime.Executor.Spec.{JobState}
use pyxxl.Runtime.Executor.Slots.{Slot, slot, only}
use pyxxl.Runtime.Executor.Drains.{Kept, kept}
use pyxxl.Runtime.Executor.Entries.{state_of, IsGood}
use pyxxl.Runtime.Executor.Owned.{IsOwned}
use pyxxl.Runtime.Executor.Invariant.{IsValid, current_data, task_data, job_state}

-- What no stretch of code changes.
pub record Fixed : Type 0 where
  pub handler : String → Bool
  pub succeeded_raises : Option String

abbrev pub fixed : Executor → Fixed
fixed s = record { handler = s.handler; succeeded_raises = s.succeeded_raises }

-- From `s` to `s'` the entries of job `k` become `v` with a current task for `c`, and `sent` is
-- given to the callback manager.
pub record IsChange (s s' : Executor) (k : ℕ) (v : Slot) (c : Option RunData) (sent : List Callback)
    : Type 0 where
  pub owned : IsOwned s'.tasks s'.objects s'.next_task
  pub good : IsGood s.task_queue_length k v c
  pub slots : (j : ℕ) → slot s' j ≡ only k j v (slot s j)
  pub triggers : (j : ℕ) → current_data s' j ≡ only k j c (current_data s j)
  pub bound : s'.task_queue_length ≡ s.task_queue_length
  pub settings : fixed s' ≡ fixed s
  pub sends : s'.pushed ≡ s.pushed ++ sent

-- The same, seen from outside.
pub record Lands (s s' : Executor) (k : ℕ) (after : JobState) (sent : List Callback) : Type 0 where
  pub valid : IsValid s'
  pub moves : (j : ℕ) → job_state s' j ≡ only k j after (job_state s j)
  pub settings : fixed s' ≡ fixed s
  pub sends : s'.pushed ≡ s.pushed ++ sent

eq_of_beq : (k j : ℕ) → nat_beq k j ≡ true → k ≡ j
eq_of_beq k j e = ground arith

module _ {s s' : Executor} {k : ℕ} {v : Slot} {c : Option RunData} {sent : List Callback} where
  IsGood-at :
      IsValid s
      → IsChange s s' k v c sent
      → (j : ℕ) → IsGood s'.task_queue_length j (slot s' j) (current_data s' j)
  IsGood-at w h j = elim (Bool-cases (nat_beq k j)) [
    | inl e ↦
        rw (h.slots j, h.triggers j, h.bound, e)
          (subst (λ x. IsGood s.task_queue_length x v c) (eq_of_beq k j e) h.good)
    | inr e ↦ rw (h.slots j, h.triggers j, h.bound, e) (w.jobs j)
  ]

  pub IsChange-Lands : IsValid s → IsChange s s' k v c sent → Lands s s' k (state_of v c) sent
  IsChange-Lands w h = record {
    valid = record { owned = h.owned; jobs = IsGood-at w h };
    moves = λ j. elim (Bool-cases (nat_beq k j)) [
      | inl e ↦ rw (h.slots j, h.triggers j, e)
      | inr e ↦ rw (h.slots j, h.triggers j, e)
    ];
    settings = h.settings;
    sends = h.sends;
  }

-- A stretch that changes no entry of any job.
pub record IsSame (s s' : Executor) : Type 0 where
  pub slots : (j : ℕ) → slot s' j ≡ slot s j
  pub rest : kept s' ≡ kept s

module _ {s s' : Executor} (h : IsSame s s') where
  pub IsSame-triggers : (j : ℕ) → current_data s' j ≡ current_data s j
  unfolding kept
  IsSame-triggers j = ap (λ (x : Kept). task_data x.objects (get x.tasks j)) h.rest

  pub IsSame-state : (j : ℕ) → job_state s' j ≡ job_state s j
  IsSame-state j = rw (h.slots j, IsSame-triggers j)

  pub IsSame-bound : s'.task_queue_length ≡ s.task_queue_length
  unfolding kept
  IsSame-bound = ap (λ (x : Kept). x.task_queue_length) h.rest

  IsSame-settings : fixed s' ≡ fixed s
  unfolding kept
  IsSame-settings =
      ap {B = Fixed}
        (λ (x : Kept). record { handler = x.handler; succeeded_raises = x.succeeded_raises }) h.rest

  pub IsSame-pushed : s'.pushed ≡ s.pushed
  unfolding kept
  IsSame-pushed = ap (λ (x : Kept). x.pushed) h.rest

  pub IsSame-IsValid : IsValid s → IsValid s'
  unfolding kept
  IsSame-IsValid v = record {
    owned = subst (λ (x : Kept). IsOwned x.tasks x.objects x.next_task) (sym h.rest) v.owned;
    jobs = λ j. rw (h.slots j, IsSame-triggers j, IsSame-bound) (v.jobs j);
  }

  -- then what lands from `s'` lands from `s`
  pub IsSame-Lands :
      {u : Executor} {k : ℕ} {after : JobState} {sent : List Callback}
      → Lands s' u k after sent
      → Lands s u k after sent
  IsSame-Lands {u} {k} l = record {
    valid = l.valid;
    moves = λ j. rw (← IsSame-state j) (l.moves j);
    settings = l.settings ∙ IsSame-settings;
    sends = rw (← IsSame-pushed) l.sends;
  }

  -- and a refusal lands where the job was
  pub IsSame-refuses : (k : ℕ) → IsValid s → Lands s s' k (job_state s k) []
  IsSame-refuses k v = record {
    valid = IsSame-IsValid v;
    moves = λ j. elim (Bool-cases (nat_beq k j)) [
      | inl e ↦ rw e (IsSame-state j ∙ ap (job_state s) (sym (eq_of_beq k j e)))
      | inr e ↦ rw e (IsSame-state j)
    ];
    settings = IsSame-settings;
    sends = IsSame-pushed ∙ sym (append-nil s.pushed);
  }
