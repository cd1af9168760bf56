-- ===== src/Runtime/Executor/Effects.antt =====
-- What each event of the executor is to do, by the specification of its job.
use pyxxl.Base.{
  ℕ, ◌≡◌, Bool, true, false, Option, none, some, List, [], map, get, nat_eq, arith, if◌then◌else◌,
}
use pyxxl.Runtime.Executor.State.{Task, Callback, Executor, cover_effect}
use pyxxl.Runtime.Executor.Tasks.{Outcome}
use pyxxl.Runtime.Executor.Events.{
  Event, triggers, kills, begins, ends, drops, may_begin, may_end, may_drop,
}
use pyxxl.Runtime.Executor.Spec.{JobState, submit, give_up, advance}
use pyxxl.Runtime.Executor.Answers.{queue_failure}
use pyxxl.Runtime.Executor.Ends.{cleanup_callbacks, run_callbacks}

abbrev pub task_job : Option Task → ℕ
task_job none = 0
task_job (some o) = o.data_of.job_id

-- The job that an event is about.
abbrev pub job_of : Executor → Event → ℕ
job_of s (triggers now d) = d.job_id
job_of s (kills now job include_queue reason) = job
job_of s (begins t) = task_job (get s.objects t)
job_of s (ends now t outcome) = task_job (get s.objects t)
job_of s (drops now t) = task_job (get s.objects t)

abbrev pub passes : (Task → Bool) → Option Task → Bool
passes test none = false
passes test (some o) = test o

-- What the specification makes of the event's job.
abbrev pub after_event : Executor → Event → JobState → JobState
after_event s (triggers now d) j =
    if s.handler d.executor_handler then (submit s.task_queue_length d j).after else j
after_event s (kills now job include_queue reason) j = if include_queue then (give_up j).1 else j
after_event s (begins t) j = j
after_event s (ends now t outcome) j = if passes may_end (get s.objects t) then advance j else j
after_event s (drops now t) j = if passes may_drop (get s.objects t) then advance j else j

abbrev pub end_callbacks : Executor → ℕ → Outcome → Option Task → List Callback
end_callbacks s now outcome none = []
end_callbacks s now outcome (some o) =
    if may_end o then run_callbacks now o s.succeeded_raises outcome else []

abbrev pub drop_callbacks : ℕ → Option Task → List Callback
drop_callbacks now none = []
drop_callbacks now (some o) = if may_drop o then cleanup_callbacks now o true else []

-- The callbacks that the event pushes.
abbrev pub sent_by : Executor → Event → JobState → List Callback
sent_by s (triggers now d) j =
    if s.handler d.executor_handler
    then map (queue_failure now cover_effect) (submit s.task_queue_length d j).given_up
    else []
sent_by s (kills now job include_queue reason) j =
    map (queue_failure now reason) (if include_queue then (give_up j).0 else [])
sent_by s (begins t) j = []
sent_by s (ends now t outcome) j = end_callbacks s now outcome (get s.objects t)
sent_by s (drops now t) j = drop_callbacks now (get s.objects t)

pub begin_not_ended : (o : Task) → may_begin o ≡ true → o.ended ≡ false
begin_not_ended o h = ground arith

pub end_not_ended : (o : Task) → may_end o ≡ true → o.ended ≡ false
end_not_ended o h = ground arith

pub drop_not_ended : (o : Task) → may_drop o ≡ true → o.ended ≡ false
drop_not_ended o h = ground arith

pub drop_not_started : (o : Task) → may_drop o ≡ true → o.started ≡ false
drop_not_started o h = ground arith
