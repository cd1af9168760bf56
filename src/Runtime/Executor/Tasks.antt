-- ===== src/Runtime/Executor/Tasks.antt =====
-- pyxxl/runtime/executor.py: the life of one task object, from its coroutine's first step to the
-- start of what waits behind it (`_run`, `_on_executor_task_done`, `_cleanup_task`, `_finish`).
use pyxxl.Base.{
  ℕ, suc, String, Bool, true, false, Option, none, some, List, [], ◌∷◌, ◌++◌, get, set, remove,
  nat_eq, nat_beq, not, ◌||◌, or_else, if◌then◌else◌,
}
use pyxxl.Model.{RunData}
use pyxxl.Runtime.Executor.State.{
  Message, cancelled_error, timeout_error, running_killed, result, Task, Executor, release_log_id,
  pop_cover_replacement, callback_timestamp, push_callback, start_task, get_queue,
}

-- How `await handler.start(...)` ends.
pub data Outcome : Type 0 where
  returned : String → Outcome
  cancelled : Outcome
  timed_out : Outcome
  raised : String → Outcome

-- `current_task is finish_task`
unfoldable pub is_task : Option ℕ → ℕ → Bool
is_task none t = false
is_task (some c) t = nat_beq c t

-- _finish, from the `not queue.empty()` test on
unfoldable pub start_queued : Executor → ℕ → List RunData → Executor
start_queued s job [] = s
start_queued s job (d ∷ rest) = start_task (record s { queue = set s.queue job rest }) job d

-- _finish, from the test of the replacement on
unfoldable pub start_next : Executor → ℕ → Option RunData → Executor
start_next s job (some d) = start_task s job d
start_next s job none = let (q, s') = get_queue s job in start_queued s' job q

-- _finish
unfoldable pub finish : Executor → ℕ → RunData → Executor
finish s t d =
    let job = d.job_id in
    let current = is_task (get s.tasks job) t in
    let popped = if current then record s { tasks = remove s.tasks job } else s in
    let released = release_log_id popped job d.log_id in
    let (replacement, left) = pop_cover_replacement released job in
    if not current then released else start_next left job replacement

-- _cancel_message_for_task
unfoldable pub cancel_message : Option Message → Message
cancel_message none = cancelled_error
cancel_message (some reason) = running_killed reason

unfoldable pub fail_callback : Executor → String → Executor
fail_callback s reason = record s { failed = s.failed ++ reason ∷ [] }

-- the guarded part of _cleanup_task
unfoldable pub cleanup_object : Executor → ℕ → ℕ → Task → Bool → Executor
cleanup_object s now t o push_cancel =
    let d = o.data_of in
    let marked = record s {
      objects = set s.objects t (record o { cleaned = true; ended = true });
    } in
    let pushed =
      if push_cancel
      then fail_callback
          (push_callback marked d.log_id (callback_timestamp now d) 500
            (cancel_message o.cancel_reason))
          "cancelled"
      else marked in
    finish pushed t d

-- _cleanup_task; it is the last thing that a task's coroutine does, so the coroutine ends with it
unfoldable pub cleanup_task : Executor → ℕ → ℕ → Task → Bool → Executor
cleanup_task s now t o push_cancel = if o.cleaned then s else cleanup_object s now t o push_cancel

-- `_run` up to `await handler.start(...)`. Where the handler is gone the assertion ends the
-- coroutine above the `try`, so that nothing is cleaned up; `new_logger` is taken not to raise.
unfoldable pub begin_run : Executor → ℕ → Task → Executor
begin_run s t o =
    if s.handler o.data_of.executor_handler
    then record s { objects = set s.objects t (record o { started = true }) }
    else record s { objects = set s.objects t (record o { started = true; ended = true }) }

-- `data.executorTimeout or self.config.task_timeout`
unfoldable pub run_timeout : Executor → RunData → ℕ
run_timeout s d = or_else d.executor_timeout s.task_timeout

-- the `except Exception` clause of `_run`
unfoldable pub report_exception : Executor → ℕ → ℕ → String → Executor
report_exception s log time text =
    fail_callback (push_callback s log time 500 (result text)) "exception"

-- `self.succeeded_callback()` stands inside the `try`: what it raises is reported as a failure.
unfoldable pub succeed : Executor → ℕ → ℕ → Option String → Executor
succeed s log time none = record s { succeeded = suc s.succeeded }
succeed s log time (some text) = report_exception s log time text

-- the `try` of `_run` after `await handler.start(...)`, with its `except` clauses; `now` is the clock as
-- `_run` read it for `callback_timestamp`, above the `try`
unfoldable pub report : Executor → ℕ → Task → Outcome → Executor
report s now o (returned text) =
    let d = o.data_of in
    let time = callback_timestamp now d in
    succeed (push_callback s d.log_id time 200 (result text)) d.log_id time s.succeeded_raises
report s now o cancelled =
    let d = o.data_of in
    fail_callback
      (push_callback s d.log_id (callback_timestamp now d) 500 (cancel_message o.cancel_reason))
      "cancelled"
report s now o timed_out =
    let d = o.data_of in
    fail_callback (push_callback s d.log_id (callback_timestamp now d) 500 timeout_error) "timeout"
report s now o (raised text) =
    report_exception s o.data_of.log_id (callback_timestamp now o.data_of) text

-- `_run` after `await handler.start(...)`, with the `finally`
unfoldable pub end_run : Executor → ℕ → ℕ → Task → Outcome → Executor
end_run s now t o outcome = cleanup_task (report s now o outcome) now t o false

-- _on_executor_task_done for a task whose coroutine has ended, with the cleanup that it schedules
unfoldable pub on_task_done : Executor → ℕ → ℕ → Task → Bool → Executor
on_task_done s now t o was_cancelled =
    if not was_cancelled || o.started || o.cleaned then s else cleanup_task s now t o true
