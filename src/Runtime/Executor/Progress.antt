-- ===== src/Runtime/Executor/Progress.antt =====
-- A job that is busy can go on: the loop can bring its current task to its end.

use pyxxl.Base.{
  String, Bool, ℕ, ◌≡◌, refl, ap, ◌∙◌, true, false, some, List, [], ◌∷◌, get, get-set, nat_eq,
  nat_beq, nat_beq_iff, if_intro, arith, if◌then◌else◌,
}
use pyxxl.Runtime.Executor.State.{Task, Executor}
use pyxxl.Runtime.Executor.Tasks.{Outcome, begin_run}
use pyxxl.Runtime.Executor.Events.{
  may_end, may_drop, end_at, drop_at, Event, begins, ends, drops, step, run, begin_at,
}
use pyxxl.Runtime.Executor.Spec.{JobState, advance}
use pyxxl.Runtime.Executor.Jobs.{reset_handler}
use pyxxl.Runtime.Executor.Slots.{only, slot}
use pyxxl.Runtime.Executor.Invariant.{IsValid, job_state}
use pyxxl.Runtime.Executor.Steps.{step-Lands}
use pyxxl.Runtime.Executor.Promises.{end_task_refines, drop_task_refines}

-- The events that end a task: those of a task that started, of one that was cancelled before, and
-- of one that waits for its first step.
abbrev pub closing : ℕ → ℕ → Outcome → Task → List Event
closing now t outcome o =
    if o.started
    then ends now t outcome ∷ []
    else if o.cancelling
    then drops now t ∷ []
    else begins t ∷ ends now t outcome ∷ []

only_self : (f : ℕ → JobState) (k j : ℕ) → only k j (f k) (f j) ≡ f j
only_self f k j =
    if_intro (λ x. x ≡ f j) (nat_beq k j) _ _ (λ e. ap f ((nat_beq_iff k j).0 e)) (λ e. refl)

module _ (s : Executor) (now t : ℕ) (o : Task) (outcome : Outcome) (w : IsValid s)
    (at : get s.objects t ≡ some o) (live : o.ended ≡ false)
    (known : s.handler o.data_of.executor_handler ≡ true) where
  abbrev begun : Executor
  begun = step s (begins t)

  begun_objects :
      o.started ≡ false
      → o.cancelling ≡ false
      → get begun.objects t ≡ some (record o { started = true })
  unfolding step begin_at begin_run
  begun_objects f c =
      rw (at, f, c, live, known)
        (ground (arith, get-set s.objects t t (record o { started = true })))

  begun_states : (j : ℕ) → job_state begun j ≡ job_state s j
  unfolding step
  begun_states j = (step-Lands s w (begins t)).moves j ∙ only_self (job_state s) _ j

  -- What the events that end the task make of the states of the jobs.
  abbrev Closes : List Event → Type 0
  Closes es =
      (j : ℕ)
      → job_state (run s es) j
        ≡ only o.data_of.job_id j (advance (job_state s o.data_of.job_id)) (job_state s j)

  pub closing-Closes : Closes (closing now t outcome o)
  unfolding run step
  closing-Closes =
      if_intro Closes o.started _ _
        (λ f. (end_task_refines s now t o outcome w at (ground (arith, f, live))).0)
        λ f.
          if_intro Closes o.cancelling _ _
            (λ c. (drop_task_refines s now t o w at (ground (arith, f, c, live))).0)
            λ c j.
              (end_task_refines begun now t (record o { started = true }) outcome
                  (step-Lands s w (begins t)).valid (begun_objects f c) (ground (arith, live))).0
                j
              ∙ ap (λ x. only o.data_of.job_id j (advance x) (job_state begun j))
                  (begun_states o.data_of.job_id)
              ∙ ap (only o.data_of.job_id j (advance (job_state s o.data_of.job_id)))
                  (begun_states j)

-- In a valid state, a task whose coroutine has not ended and whose handler is known can be brought to
-- its end, whatever its outcome: by its first step and its end, by its end alone where it has started,
-- or by its cancellation. Then its job has gone on to what waits next, and every other job stays.
pub busy_job_goes_on :
    (s : Executor) (now t : ℕ) (o : Task) (outcome : Outcome)
    → IsValid s
    → get s.objects t ≡ some o
    → o.ended ≡ false
    → s.handler o.data_of.executor_handler ≡ true
    → (j : ℕ)
    → job_state (run s (closing now t outcome o)) j
      ≡ only o.data_of.job_id j (advance (job_state s o.data_of.job_id)) (job_state s j)
busy_job_goes_on s now t o outcome w at live known j =
    closing-Closes s now t o outcome w at live known j

-- A task whose coroutine has ended can neither end nor be cancelled.
pub step-after_end :
    (s : Executor) (t : ℕ) (o : Task)
    → get s.objects t ≡ some o
    → o.ended ≡ true
    → (now : ℕ) (outcome : Outcome) → step s (ends now t outcome) ≡ s
unfolding step end_at
step-after_end s t o at ended now outcome =
    ap (end_at s now t outcome) at
    ∙ if_intro (λ u. u ≡ s) (may_end o) _ _ (λ e. absurd (ground (arith, e, ended))) (λ e. refl)

pub step-after_drop :
    (s : Executor) (t : ℕ) (o : Task)
    → get s.objects t ≡ some o
    → o.ended ≡ true
    → (now : ℕ) → step s (drops now t) ≡ s
unfolding step drop_at
step-after_drop s t o at ended now =
    ap (drop_at s now t) at
    ∙ if_intro (λ u. u ≡ s) (may_drop o) _ _ (λ e. absurd (ground (arith, e, ended))) (λ e. refl)

-- Another registry leaves the state valid.
pub reset_handler-IsValid :
    (s : Executor) (h : String → Bool) → IsValid s → IsValid (reset_handler s h)
unfolding reset_handler slot
reset_handler-IsValid s h w = record { owned = w.owned; jobs = w.jobs }
