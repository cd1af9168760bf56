-- ===== src/Runtime/Executor/Events.antt =====
-- The executor under an event loop: the calls from outside, and the ends of stretches of its own
-- coroutines, in any order. The loop starts a coroutine once, throws a pending cancellation into
-- one that has not started, and resumes one that has.
use pyxxl.Base.{
  ℕ, Bool, true, Option, none, some, List, [], ◌∷◌, String, empty, get, nat_eq, not, ◌&&◌,
  if◌then◌else◌,
}
use pyxxl.Model.{RunData}
use pyxxl.Runtime.Executor.State.{Message, Task, Executor}
use pyxxl.Runtime.Executor.Tasks.{Outcome, begin_run, end_run, on_task_done}
use pyxxl.Runtime.Executor.Jobs.{run_job, cancel_job}

pub data Event : Type 0 where
  -- a trigger arrives at a time
  triggers : ℕ → RunData → Event
  -- a job is killed: time, job, whether its queue is included, reason
  kills : ℕ → ℕ → Bool → Message → Event
  -- a task's coroutine takes its first step
  begins : ℕ → Event
  -- `handler.start` of a task ends: the clock as `_run` has read it before it called it, the task
  ends : ℕ → ℕ → Outcome → Event
  -- a task that was cancelled before its first step is done
  drops : ℕ → ℕ → Event

abbrev pub may_begin : Task → Bool
may_begin o = not o.started && (not o.ended && not o.cancelling)

abbrev pub may_end : Task → Bool
may_end o = o.started && not o.ended

abbrev pub may_drop : Task → Bool
may_drop o = not o.started && (not o.ended && o.cancelling)

unfoldable pub begin_at : Executor → ℕ → Option Task → Executor
begin_at s t none = s
begin_at s t (some o) = if may_begin o then begin_run s t o else s

unfoldable pub end_at : Executor → ℕ → ℕ → Outcome → Option Task → Executor
end_at s now t outcome none = s
end_at s now t outcome (some o) = if may_end o then end_run s now t o outcome else s

unfoldable pub drop_at : Executor → ℕ → ℕ → Option Task → Executor
drop_at s now t none = s
drop_at s now t (some o) = if may_drop o then on_task_done s now t o true else s

unfoldable pub step : Executor → Event → Executor
step s (triggers now d) = (run_job s now d).1
step s (kills now job include_queue reason) = cancel_job s now job include_queue reason
step s (begins t) = begin_at s t (get s.objects t)
step s (ends now t outcome) = end_at s now t outcome (get s.objects t)
step s (drops now t) = drop_at s now t (get s.objects t)

unfoldable pub run : Executor → List Event → Executor
run s [] = s
run s (e ∷ es) = run (step s e) es

-- `Executor.__init__`, for a handler registry, the two settings it reads and the success hook
unfoldable pub init : (String → Bool) → ℕ → ℕ → Option String → Executor
init handler timeout bound raises = record {
  handler = handler;
  task_timeout = timeout;
  task_queue_length = bound;
  succeeded_raises = raises;
  tasks = empty;
  objects = empty;
  next_task = 0;
  queue = empty;
  job_log_ids = empty;
  cover_replacements = empty;
  pushed = [];
  succeeded = 0;
  failed = [];
}
