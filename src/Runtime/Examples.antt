-- ===== src/Runtime/Examples.antt =====
-- The log of a task that writes one line and fails.
use pyxxl.Base.{
  set, keys, length, if◌then◌else◌, contains, ℕ, ◌≡◌, refl, String, true, Option, none, some, List,
  [], ◌∷◌, ◌++◌, empty, get, take, arith, nat_eq,
}
use pyxxl.Model.{RunData}
use pyxxl.Context.{new_context}
use pyxxl.Runtime.Executor.State.{Executor, items}
use pyxxl.Runtime.Executor.Tasks.{raised}
use pyxxl.Runtime.Executor.Events.{triggers, run, init}
use pyxxl.Runtime.Executor.Invariant.{job_state}
use pyxxl.Runtime.Executor.Promises.{run-init-IsValid}
use pyxxl.Runtime.Handlers.Process.{failed}
use pyxxl.Runtime.ChildLog.{caught_lines, process_logged_run, child_log_pages}
use pyxxl.Runtime.Metrics.{Page, show_all, runner_of, waiting_of, metrics, metrics_show}
use pyxxl.Logs.Loggers.{no_logging, disk_log, info_level, is_file_handler, Event, writes}
use pyxxl.Logs.Handled.{times, copies}
use pyxxl.Logs.Isolation.{subject}
use pyxxl.Logs.Written.{is_steady, written}
use pyxxl.Logs.Following.{disk_pages, room}
use pyxxl.Runtime.TaskLog.{
  LogEntry, started, finished, cancelled_error, timeout_error, error, end_entries, entry_lines,
  logged_run, task_log_pages,
}

abbrev trigger : RunData
trigger = record {
  job_id = 3;
  log_id = 7;
  executor_handler = "demo";
  executor_block_strategy = "SERIAL_EXECUTION";
  executor_params = none;
  executor_timeout = none;
  log_date_time = none;
  glue_type = none;
  glue_source = none;
  glue_updatetime = none;
  broadcast_index = none;
  broadcast_total = none;
}

abbrev plain : Option ℕ → String → String
plain n text = text

abbrev one_line : String → List String
one_line text = text ∷ []

abbrev describe : LogEntry → String
describe (started d) = "Start job"
describe (finished job log) = "Job finished"
describe cancelled_error = "CancelledError"
describe timeout_error = "TimeoutError"
describe (error text) = text

abbrev during : List (Event plain one_line)
during = writes 7 (some trigger) (record { level = info_level; content = "work" }) ∷ []

during_steady : is_steady plain one_line 7 during ≡ true
unfolding is_steady subject
during_steady = refl

unopened : times is_file_handler (items no_logging.handlers 7) ≡ 0
unfolding no_logging empty get times
unopened = refl

fresh : items no_logging.files 7 ≡ []
unfolding no_logging empty get
fresh = refl

nothing_after : is_steady plain one_line 7 [] ≡ true
unfolding is_steady
nothing_after = refl

task_log_pages_example :
    disk_pages 2 2
      (items
        (logged_run plain one_line describe disk_log trigger none
          (raised "boom")
          during
          []
          no_logging
          new_context).0.files
        7)
      1
    ≡ take (room 2 2) (
        entry_lines plain one_line describe trigger (started trigger ∷ [])
        ++ (written plain one_line one_line 1 7 during
            ++ (entry_lines plain one_line describe trigger
                  (end_entries trigger none (raised "boom"))
                ++ written plain one_line one_line 1 7 [])))
task_log_pages_example =
    task_log_pages plain one_line describe trigger none (raised "boom") during [] no_logging
      new_context 2 2 (omega arith) unopened fresh during_steady nothing_after

-- The two pages of two lines hold the whole log.
whole_log :
    take (room 2 2) (
      entry_lines plain one_line describe trigger (started trigger ∷ [])
      ++ (written plain one_line one_line 1 7 during
          ++ (entry_lines plain one_line describe trigger (end_entries trigger none (raised "boom"))
              ++ written plain one_line one_line 1 7 [])))
    ≡ "Start job" ∷ "work" ∷ "boom" ∷ []
unfolding entry_lines written end_entries copies
whole_log = refl

child_log_pages_example :
    disk_pages 2 2
      (items
        (process_logged_run plain one_line describe trigger 1 none
          (raised "boom")
          during
          (some (failed "oops" "trace"))
          no_logging
          new_context).files
        7)
      1
    ≡ take (room 2 2) (
        entry_lines plain one_line describe trigger (started trigger ∷ [])
        ++ (written plain one_line one_line 1 7 during
            ++ (caught_lines plain one_line describe trigger (some (failed "oops" "trace"))
                ++ entry_lines plain one_line describe trigger
                    (end_entries trigger none (raised "boom")))))
child_log_pages_example =
    child_log_pages plain one_line describe trigger 1 none (raised "boom") during
      (some (failed "oops" "trace")) no_logging new_context 2 2 (omega arith) unopened fresh
      during_steady

-- One trigger of job 3 that runs and one that waits.
abbrev next_trigger : RunData
next_trigger = record trigger { log_id = 8 }

abbrev busy_executor : Executor
busy_executor =
    run (init (λ name. true) 60 5 none) (triggers 10 trigger ∷ triggers 11 next_trigger ∷ [])

-- A job that ran and a queue, both from before.
abbrev stale : Page
stale = record {
  running_task_info = set empty 9 trigger;
  queue_tasks_total = empty;
  queue_tasks_info = set empty 9 (trigger ∷ []);
}

metrics_show_example :
    let p = show_all stale (metrics busy_executor 4) in
    (get p.running_task_info 9 ≡ runner_of (job_state busy_executor 9))
    × (get p.queue_tasks_info 9 ≡ (
        if contains (keys busy_executor.queue) 9
        then some (waiting_of (job_state busy_executor 9))
        else none))
    × (get p.queue_tasks_total 9 ≡ (
        if contains (keys busy_executor.queue) 9
        then some (length (waiting_of (job_state busy_executor 9)))
        else get stale.queue_tasks_total 9))
metrics_show_example = metrics_show busy_executor 4 stale 9 (
    run-init-IsValid (λ name. true) 60 5 none (triggers 10 trigger ∷ triggers 11 next_trigger ∷ []))
