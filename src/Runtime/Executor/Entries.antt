-- ===== src/Runtime/Executor/Entries.antt =====
-- What holds of the entries of one job between two stretches of code.
use mathlib.Core.List.{map-append}
use pyxxl.Base.{
  ℕ, ◌+◌, ◌≤◌, ◌<◌, ◌≡◌, refl, Option, none, some, List, [], ◌∷◌, map, length, nat_beq, ltb,
  discard, count, count-cons, count-nil, count-append, count-discard, All, arith, if◌then◌else◌,
}
use pyxxl.Model.{RunData}
use pyxxl.Runtime.Executor.Spec.{JobState, idle, busy, log_of, to_list, pending, ids}
use pyxxl.Runtime.Executor.Slots.{Slot, discard_all}

-- The state of a job, from its slot and the trigger of its current task.
abbrev pub state_of : Slot → Option RunData → JobState
state_of v none = idle
state_of v (some r) = busy r v.next v.waiting

abbrev pub IsFor : ℕ → RunData → Type 0
IsFor j d = d.job_id ≡ j

-- `bound` is the queue's bound, `j` the job, `c` the trigger of its current task.
pub record IsGood (bound j : ℕ) (v : Slot) (c : Option RunData) : Type 0 where
  -- without a task nothing waits
  pub at_rest : c ≡ none → (v.current ≡ none) × (v.next ≡ none) × (v.waiting ≡ [])
  -- all triggers are the job's
  pub runs_ours : All (IsFor j) (to_list c)
  pub next_ours : All (IsFor j) (to_list v.next)
  pub waiting_ours : All (IsFor j) v.waiting
  -- the registered log ids are those of the triggers that run or wait, each once
  pub held : (l : ℕ) → count l v.log_ids ≡ count l (ids (state_of v c))
  pub once : (l : ℕ) → count l v.log_ids ≤ 1
  pub bounded : 0 < bound → length v.waiting ≤ bound

pub count-discard_all :
    (l : ℕ) (ds : List RunData) (xs : List ℕ)
    → count l (discard_all ds xs) ≡ (if ltb 0 (count l (map log_of ds)) then 0 else count l xs)
count-discard_all l [] xs = ground (arith, count-nil l)
count-discard_all l (d ∷ ds) xs = ground (
  arith,
  count-discard_all l ds (discard d.log_id xs),
  count-discard l d.log_id xs,
  count-cons l d.log_id (map log_of ds),
)

-- How often a log id stands in the parts of a busy job.
pub count-ids :
    (l : ℕ) (r : RunData) (next : Option RunData) (waiting : List RunData)
    → count l (ids (busy r next waiting))
      ≡ (if nat_beq r.log_id l then 1 else 0)
        + count l (map log_of waiting)
        + count l (map log_of (to_list next))
count-ids l r next waiting = ground (
  arith,
  count-cons l r.log_id (map log_of (pending next waiting)),
  map-append log_of waiting (to_list next),
  count-append l (map log_of waiting) (map log_of (to_list next)),
)

pub count-pending :
    (l : ℕ) (next : Option RunData) (waiting : List RunData)
    → count l (map log_of (pending next waiting))
      ≡ count l (map log_of waiting) + count l (map log_of (to_list next))
count-pending l next waiting = ground (
  arith,
  map-append log_of waiting (to_list next),
  count-append l (map log_of waiting) (map log_of (to_list next)),
)

pub count-one :
    (l : ℕ) (d : RunData) → count l (map log_of (d ∷ [])) ≡ (if nat_beq d.log_id l then 1 else 0)
count-one l d = ground (arith, count-cons l d.log_id [], count-nil l)

abbrev pub empty_slot : Slot
empty_slot = record { current = none; next = none; waiting = []; log_ids = [] }

pub IsGood-empty : (bound j : ℕ) → IsGood bound j empty_slot none
IsGood-empty bound j = record {
  at_rest = λ p. (refl, refl, refl);
  runs_ours = tt;
  next_ours = tt;
  waiting_ours = tt;
  held = λ l. refl;
  once = λ l. rw count-nil (omega arith);
  bounded = λ p. omega arith;
}
