-- ===== src/Runtime/Executor/Promises.antt =====
-- What the executor promises to its callers: each operation refines the specification of one job,
-- in every state that a history of events reaches.
use pyxxl.Base.{
  ℕ, ◌+◌, ◌≡◌, refl, ap, ◌∙◌, inl, inr, String, Bool, true, false, not, ◌||◌, Option, none, some,
  List, [], ◌++◌, map, length, Bool-cases, get, nat_eq, count, count-nil, arith, ◌≢◌, is_empty,
  if◌then◌else◌, string_eq,
}
use pyxxl.Model.{RunData}
use pyxxl.Runtime.Executor.State.{Task, Message, Executor, cover_effect, handler_missing}
use pyxxl.Runtime.Executor.Tasks.{Outcome}
use pyxxl.Runtime.Executor.Jobs.{
  err, not_found, run_job, cancel_job, is_running, is_running_or_has_queue, has,
}
use pyxxl.Runtime.Executor.Events.{Event, ends, drops, may_end, may_drop, step, run, init}
use pyxxl.Runtime.Executor.Spec.{idle, ids, submit, give_up, advance}
use pyxxl.Runtime.Executor.Slots.{slot, only}
use pyxxl.Runtime.Executor.Invariant.{
  IsValid, job_state, task_data, data_at, resting, running, standing,
}
use pyxxl.Runtime.Executor.Landing.{IsSame, IsSame-refuses}
use pyxxl.Runtime.Executor.Answers.{queue_failure, answer}
use pyxxl.Runtime.Executor.Submit.{run_job-Does, run_job-unknown}
use pyxxl.Runtime.Executor.Kill.{cancel_job-Lands}
use pyxxl.Runtime.Executor.Ends.{
  cleanup_callbacks, run_callbacks, end_run-Lands, on_task_done-Lands,
}
use pyxxl.Runtime.Executor.Steps.{
  run-IsValid, init-IsValid, owns, init-raises, init-state, step-ends, step-drops,
}
use pyxxl.Runtime.Executor.Effects.{end_not_ended, drop_not_ended, drop_not_started}
use pyxxl.Runtime.Executor.Accounting.{accepted_in, reported_in, run_accounts}

unchanged : (s : Executor) → IsSame s s
unchanged s = record { slots = λ j. refl; rest = refl }

busy_of :
    (s : Executor) (j : ℕ)
    → is_running_or_has_queue s j
      ≡ (has (get s.tasks j) || not (is_empty (slot s j).waiting) || has (slot s j).next)
unfolding is_running_or_has_queue slot
busy_of s j = refl

-- From a new executor, whatever triggers, kills and task steps follow one another, the state stays
-- valid: a job without a task has nothing waiting, its registered log ids are exactly those of the
-- triggers that run or wait, each once, a bounded queue keeps its bound, and each task object that
-- was not cleaned up is the current task of its job.
pub run-init-IsValid :
    (handler : String → Bool) (timeout bound : ℕ) (raises : Option String) (es : List Event)
    → IsValid (run (init handler timeout bound raises) es)
run-init-IsValid handler timeout bound raises es =
    run-IsValid _ es (init-IsValid handler timeout bound raises)

-- In a valid state `run_job` does to the trigger's job what the specification of a trigger says,
-- leaves every other job, reports as failed exactly the triggers that it gives up, and answers by
-- the verdict; for an unknown handler it answers so and does nothing.
pub run_job_refines :
    (s : Executor) (now : ℕ) (d : RunData)
    → IsValid s
    → ((j : ℕ)
        → job_state (run_job s now d).1 j
          ≡ only d.job_id j
              (if s.handler d.executor_handler
                then (submit s.task_queue_length d (job_state s d.job_id)).after
                else job_state s d.job_id)
              (job_state s j))
      × ((run_job s now d).1.pushed
          ≡ s.pushed
            ++ (if s.handler d.executor_handler
                then map
                    (queue_failure now cover_effect)
                    (submit s.task_queue_length d (job_state s d.job_id)).given_up
                else []))
      × ((run_job s now d).0 ≡ (
          if s.handler d.executor_handler
          then answer s.task_queue_length d
              (length (slot s d.job_id).waiting)
              (submit s.task_queue_length d (job_state s d.job_id)).verdict
          else err (not_found (handler_missing d.executor_handler))))
run_job_refines s now d w = elim (Bool-cases (s.handler d.executor_handler)) [
  | inl e ↦ let D = run_job-Does s now d w e in rw e (D.lands.moves, D.lands.sends, D.answers)
  | inr e ↦
      let L = IsSame-refuses (unchanged s) d.job_id w in
      rw (run_job-unknown s now d e, e) (L.moves, L.sends, refl)
]

-- In a valid state `cancel_job` makes the job give up all that waits, when the queue is included,
-- reports exactly those triggers as failed, and leaves what runs and every other job.
pub cancel_job_refines :
    (s : Executor) (now k : ℕ) (include_queue : Bool) (reason : Message)
    → IsValid s
    → ((j : ℕ)
        → job_state (cancel_job s now k include_queue reason) j
          ≡ only k j
              (if include_queue then (give_up (job_state s k)).1 else job_state s k)
              (job_state s j))
      × ((cancel_job s now k include_queue reason).pushed
          ≡ s.pushed
            ++ map
                (queue_failure now reason)
                (if include_queue then (give_up (job_state s k)).0 else []))
cancel_job_refines s now k include_queue reason w =
    let L = cancel_job-Lands s now k include_queue reason w in (L.moves, L.sends)

-- In a valid state, when a started task ends, its job goes on with the replacement, else with the
-- oldest trigger of the queue, else rests; every other job stays; the outcome is reported.
pub end_task_refines :
    (s : Executor) (now t : ℕ) (o : Task) (outcome : Outcome)
    → IsValid s
    → get s.objects t ≡ some o
    → may_end o ≡ true
    → ((j : ℕ)
        → job_state (step s (ends now t outcome)) j
          ≡ only o.data_of.job_id j (advance (job_state s o.data_of.job_id)) (job_state s j))
      × ((step s (ends now t outcome)).pushed
          ≡ s.pushed ++ run_callbacks now o s.succeeded_raises outcome)
end_task_refines s now t o outcome w e may =
    let L = end_run-Lands s w now t o (owns s w t o e (end_not_ended o may)) e outcome in
    rw (step-ends s now t o outcome e may) (L.moves, L.sends)

-- In a valid state, a task that was cancelled before its first step is reported once as failed,
-- with the reason of its cancellation, and its job goes on as after an end.
pub drop_task_refines :
    (s : Executor) (now t : ℕ) (o : Task)
    → IsValid s
    → get s.objects t ≡ some o
    → may_drop o ≡ true
    → ((j : ℕ)
        → job_state (step s (drops now t)) j
          ≡ only o.data_of.job_id j (advance (job_state s o.data_of.job_id)) (job_state s j))
      × ((step s (drops now t)).pushed ≡ s.pushed ++ cleanup_callbacks now o true)
drop_task_refines s now t o w e may =
    let L =
      on_task_done-Lands s w now t o (owns s w t o e (drop_not_ended o may)) e
        (drop_not_started o may) in
    rw (step-drops s now t o e may) (L.moves, L.sends)

-- In every reachable state, two task objects of one job that were not cleaned up are the same.
pub single_task :
    (handler : String → Bool) (timeout bound : ℕ) (raises : Option String) (es : List Event)
    (t u : ℕ) (o p : Task)
    → get (run (init handler timeout bound raises) es).objects t ≡ some o
    → get (run (init handler timeout bound raises) es).objects u ≡ some p
    → o.cleaned ≡ false
    → p.cleaned ≡ false
    → o.data_of.job_id ≡ p.data_of.job_id
    → t ≡ u
single_task handler timeout bound raises es t u o p e f c d same =
    let w = (run-init-IsValid handler timeout bound raises es).owned in
    ground (arith, w.owner t o e c, w.owner u p f d)

-- Over any history of an executor whose success hook does not raise, and for every job and log id,
-- the callbacks that the job's events pushed and the triggers that it still holds are together
-- as many as the triggers that `run_job` accepted for it.
pub exactly_once :
    (handler : String → Bool) (timeout bound : ℕ) (es : List Event) (j l : ℕ)
    → reported_in j l (init handler timeout bound none) es
        + count l (ids (job_state (run (init handler timeout bound none) es) j))
      ≡ accepted_in j l (init handler timeout bound none) es
exactly_once handler timeout bound es j l = omega (
  arith,
  run_accounts j l (init handler timeout bound none) es (init-IsValid handler timeout bound none)
      (init-raises handler timeout bound none),
  ap (λ x. count l (ids x)) (init-state handler timeout bound none j),
  count-nil l,
)

-- In a valid state `is_running_or_has_queue` is true exactly when the job is not idle, and then a
-- task of it is running: nothing waits without one.
pub idle_beat_exact :
    (s : Executor) (j : ℕ)
    → IsValid s
    → ((is_running_or_has_queue s j ≡ true) → job_state s j ≢ idle)
      × ((is_running_or_has_queue s j ≡ false) → job_state s j ≡ idle)
      × (is_running_or_has_queue s j ≡ is_running s j)
unfolding is_running
idle_beat_exact s j w = elim (standing s j w) [
  | resting e ↦
      let c = ap (task_data s.objects) e in
      let g = (w.jobs j).at_rest c in let free = busy_of s j in ground (arith, free, e, c, g)
  | running t o e f ↦
      let c = ap (task_data s.objects) e ∙ ap data_at f in ground (arith, busy_of s j, e, c)
]
