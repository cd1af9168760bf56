-- ===== src/Runtime/System/Examples.antt =====
-- Runs of the executor with its callback manager.
use pyxxl.Base.{ℕ, ◌+◌, ◌≤◌, ◌≡◌, String, true, Option, none, List, [], ◌∷◌, nat_eq, Dict}
use pyxxl.Model.{RunData}
use pyxxl.Runtime.Executor.State.{Message}
use pyxxl.Runtime.Executor.Tasks.{returned, cancelled}
use pyxxl.Runtime.Executor.Events.{
  triggers, begins, ends, init as new_executor, run as schedule_all,
}
use pyxxl.Runtime.Callbacks.State.{File, saved, damaged}
use pyxxl.Runtime.Callbacks.Worker.{
  takes, delivers, fails, wakes, stops, new_request, init as new_manager,
}
use pyxxl.Runtime.Callbacks.Balance.{start-init-IsRunning}
use pyxxl.Runtime.Callbacks.Held.{held_of}
use pyxxl.Runtime.System.{System, launch, Event, schedules, manages, step, run}
use pyxxl.Runtime.Callbacks.Closed.{IsClosed, stops-IsClosed}
use pyxxl.Runtime.System.Closing.{late_reports_lost, run-started}
use pyxxl.Runtime.System.Delivery.{delivered_in, scheduled}

abbrev trigger : ℕ → RunData
trigger log = record {
  job_id = 7;
  log_id = log;
  executor_handler = "demo";
  executor_block_strategy = "SERIAL_EXECUTION";
  executor_params = none;
  executor_timeout = none;
  log_date_time = none;
  glue_type = none;
  glue_source = none;
  glue_updatetime = none;
  broadcast_index = none;
  broadcast_total = none;
}

abbrev text : Message → Option String
text m = none

-- A report with the log id 1 was left in the store by an earlier process.
abbrev old_store : Dict ℕ File
old_store = record { entries = (4, saved (new_request 1 5 200 none)) ∷ (5, damaged) ∷ [] }

abbrev before : System
before = launch (new_executor (λ name. true) 600 30 none) (new_manager (λ p. true) old_store 6)

-- The trigger 1 runs and is reported, the old report fails once, then both are delivered.
abbrev history : List Event
history =
    (schedules (triggers 10 (trigger 1))
      ∷ schedules (begins 0)
      ∷ manages takes
      ∷ schedules (triggers 11 (trigger 1))
      ∷ manages fails
      ∷ schedules (ends 12 0 (returned "done"))
      ∷ manages takes
      ∷ manages delivers
      ∷ schedules (triggers 13 (trigger 1))
      ∷ manages wakes
      ∷ manages takes
      ∷ [])

-- A manager that was closed, while the trigger 1 still runs.
abbrev serving : System
serving = run text before (schedules (triggers 10 (trigger 1)) ∷ schedules (begins 0) ∷ [])

abbrev shut_down : System
shut_down = step text serving (manages (stops true))

abbrev late : List Event
late = (schedules (ends 12 0 cancelled) ∷ manages takes ∷ manages delivers ∷ [])

before_started : before.callback_manager.started ≡ true
unfolding launch
before_started = (start-init-IsRunning (λ p. true) old_store 6).started

shut_down-IsClosed : IsClosed shut_down.callback_manager
unfolding step
shut_down-IsClosed = stops-IsClosed serving.callback_manager (
    run-started text before (schedules (triggers 10 (trigger 1)) ∷ schedules (begins 0) ∷ [])
      before_started)

late_reports_lost_example :
    (delivered_in text 1 shut_down late + held_of 1 (run text shut_down late).callback_manager
      ≤ held_of 1 shut_down.callback_manager)
    × IsClosed (run text shut_down late).callback_manager
    × ((run text shut_down late).executor ≡ schedule_all shut_down.executor (scheduled late))
late_reports_lost_example = late_reports_lost text 1 shut_down late shut_down-IsClosed
