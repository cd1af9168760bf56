-- ===== src/Runtime/Executor/Invariant.antt =====
-- The invariant of the executor, the state of a job as its entries show it, and how a stretch of
-- code is shown to land in a given state of its job while it leaves the other jobs alone.
use pyxxl.Base.{
  ℕ, ◌≡◌, refl, ap, ◌∙◌, inl, inr, Option, none, some, Dict, get, nat_eq, Option-cases,
}
use pyxxl.Model.{RunData}
use pyxxl.Runtime.Executor.State.{Task, Executor}
use pyxxl.Runtime.Executor.Spec.{JobState}
use pyxxl.Runtime.Executor.Slots.{slot, slot-current}
use pyxxl.Runtime.Executor.Entries.{state_of, IsGood}
use pyxxl.Runtime.Executor.Owned.{IsOwned}

abbrev pub data_at : Option Task → Option RunData
data_at none = none
data_at (some o) = some o.data_of

abbrev pub task_data : Dict ℕ Task → Option ℕ → Option RunData
task_data objects none = none
task_data objects (some t) = data_at (get objects t)

-- The trigger of a job's current task.
abbrev pub current_data : Executor → ℕ → Option RunData
current_data s j = task_data s.objects (get s.tasks j)

-- What the executor's entries say of a job.
abbrev pub job_state : Executor → ℕ → JobState
job_state s j = state_of (slot s j) (current_data s j)

pub record IsValid (s : Executor) : Type 0 where
  pub owned : IsOwned s.tasks s.objects s.next_task
  pub jobs : (j : ℕ) → IsGood s.task_queue_length j (slot s j) (current_data s j)

-- A job is at rest, or it has a current task object.
pub data Standing (s : Executor) (k : ℕ) : Type 0 where
  resting : get s.tasks k ≡ none → Standing s k
  running : (t : ℕ) (o : Task) → get s.tasks k ≡ some t → get s.objects t ≡ some o → Standing s k

Standing-task :
    (s : Executor) (k t : ℕ)
    → IsValid s
    → get s.tasks k ≡ some t
    → (o : Option Task) → get s.objects t ≡ o
    → Standing s k
Standing-task s k t v e none h =
    absurd
      (cc (((v.jobs k).at_rest (ap (task_data s.objects) e ∙ ap data_at h)).0, e, slot-current s k))
Standing-task s k t v e (some o) h = running t o e h

pub standing : (s : Executor) (k : ℕ) → IsValid s → Standing s k
standing s k v = elim (Option-cases (get s.tasks k)) [
  | inl e ↦ resting e
  | inr (t, e) ↦ Standing-task s k t v e (get s.objects t) refl
]
