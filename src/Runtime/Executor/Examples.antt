-- ===== src/Runtime/Executor/Examples.antt =====
-- Runs of the executor: three triggers of one job under the bound 2, the promises applied to them.
use pyxxl.Base.{
  ℕ, ◌+◌, ◌*◌, ◌≤◌, ◌≡◌, refl, String, Bool, true, false, none, some, List, [], ◌∷◌, ◌++◌, map, get,
  set, empty, add, nat_eq, nat_beq, string_eq, contains, length, count, if◌then◌else◌,
}
use pyxxl.Model.{RunData, strategy_value}
use pyxxl.Runtime.Executor.State.{
  killed, cover_effect, handler_missing, Task, Executor, new_task, touch, register_log_id,
  push_failed_queued_tasks, create_task, start_task, get_queue, cancel_object, cancel_task, is_full,
}
use pyxxl.Runtime.Executor.Tasks.{Outcome, returned, timed_out, begin_run}
use pyxxl.Runtime.Executor.Jobs.{
  reset_handler, err, not_found, run_job, run_locked, block, enqueue, handle_serial_execution,
  cancel_job,
}
use pyxxl.Runtime.Executor.Events.{
  Event, triggers, kills, begins, ends, drops, begin_at, step, run, init,
}
use pyxxl.Runtime.Executor.Spec.{idle, ids, submit, give_up, advance}
use pyxxl.Runtime.Executor.Slots.{slot, only}
use pyxxl.Runtime.Executor.Answers.{queue_failure, answer}
use pyxxl.Runtime.Executor.Invariant.{IsValid, job_state}
use pyxxl.Runtime.Executor.Ends.{cleanup_callbacks, run_callbacks}
use pyxxl.Runtime.Executor.Accounting.{accepted_in, reported_in}
use pyxxl.Runtime.Executor.Progress.{reset_handler-IsValid}
use pyxxl.Runtime.Executor.Hooks.{on_task_done_instrumented, raising_failed_hook_blocks}
use pyxxl.Runtime.Executor.Draining.{size, drain, job_drains}
use pyxxl.Runtime.Executor.Reports.{reasons, successes}
use pyxxl.Runtime.Executor.Tally.{hooks_follow_reports}
use pyxxl.Runtime.Executor.Promises.{
  run-init-IsValid, run_job_refines, cancel_job_refines, end_task_refines, drop_task_refines,
  exactly_once,
}

abbrev trigger : ℕ → String → RunData
trigger log strategy = record {
  job_id = 7;
  log_id = log;
  executor_handler = "demo";
  executor_block_strategy = strategy;
  executor_params = none;
  executor_timeout = none;
  log_date_time = none;
  glue_type = none;
  glue_source = none;
  glue_updatetime = none;
  broadcast_index = none;
  broadcast_total = none;
}

abbrev any_handler : String → Bool
any_handler name = true

abbrev history : List Event
history =
    (triggers 10 (trigger 1 "SERIAL_EXECUTION")
      ∷ begins 0
      ∷ triggers 11 (trigger 2 "SERIAL_EXECUTION")
      ∷ triggers 12 (trigger 3 "SERIAL_EXECUTION")
      ∷ [])

abbrev opened : Executor
opened = init any_handler 60 2 none

-- One trigger runs and two wait.
abbrev loaded : Executor
loaded = run opened history

loaded-IsValid : IsValid loaded
loaded-IsValid = run-init-IsValid any_handler 60 2 none history

abbrev loaded_task : Task
loaded_task = record (new_task (trigger 1 "SERIAL_EXECUTION")) { started = true }

loaded_objects : get loaded.objects 0 ≡ some loaded_task
unfolding run step init run_job run_locked block handle_serial_execution enqueue start_task
    create_task get_queue touch register_log_id is_full begin_at begin_run get set empty add
    contains strategy_value
loaded_objects = refl

-- A trigger whose task is killed before its first step, with another behind it.
abbrev killed_history : List Event
killed_history =
    (triggers 10 (trigger 1 "SERIAL_EXECUTION")
      ∷ triggers 11 (trigger 2 "SERIAL_EXECUTION")
      ∷ kills 12 7 false killed
      ∷ [])

abbrev killed_early : Executor
killed_early = run opened killed_history

abbrev killed_task : Task
killed_task = record (new_task (trigger 1 "SERIAL_EXECUTION")) {
  cancel_reason = some killed;
  cancelling = true;
}

killed_objects : get killed_early.objects 0 ≡ some killed_task
unfolding run step init run_job run_locked block handle_serial_execution enqueue start_task
    create_task get_queue touch register_log_id is_full cancel_job cancel_task cancel_object
    push_failed_queued_tasks get set empty add contains strategy_value
killed_objects = refl

run-init-IsValid_example : IsValid (run (init any_handler 60 2 none) killed_history)
run-init-IsValid_example = run-init-IsValid any_handler 60 2 none killed_history

-- A trigger that covers gives up the two that wait.
run_job_refines_example :
    ((j : ℕ)
      → job_state (run_job loaded 13 (trigger 4 "COVER_EARLY")).1 j
        ≡ only 7 j
            (if loaded.handler "demo"
              then (submit loaded.task_queue_length
                  (trigger 4 "COVER_EARLY")
                  (job_state loaded 7)).after
              else job_state loaded 7)
            (job_state loaded j))
    × ((run_job loaded 13 (trigger 4 "COVER_EARLY")).1.pushed
        ≡ loaded.pushed
          ++ (if loaded.handler "demo"
              then map
                  (queue_failure 13 cover_effect)
                  (submit loaded.task_queue_length
                    (trigger 4 "COVER_EARLY")
                    (job_state loaded 7)).given_up
              else []))
    × ((run_job loaded 13 (trigger 4 "COVER_EARLY")).0 ≡ (
        if loaded.handler "demo"
        then answer loaded.task_queue_length
            (trigger 4 "COVER_EARLY")
            (length (slot loaded 7).waiting)
            (submit loaded.task_queue_length (trigger 4 "COVER_EARLY") (job_state loaded 7)).verdict
        else err (not_found (handler_missing "demo"))))
run_job_refines_example = run_job_refines loaded 13 (trigger 4 "COVER_EARLY") loaded-IsValid

cancel_job_refines_example :
    ((j : ℕ)
      → job_state (cancel_job loaded 13 7 true killed) j
        ≡ only 7 j (give_up (job_state loaded 7)).1 (job_state loaded j))
    × ((cancel_job loaded 13 7 true killed).pushed
        ≡ loaded.pushed ++ map (queue_failure 13 killed) (give_up (job_state loaded 7)).0)
cancel_job_refines_example = cancel_job_refines loaded 13 7 true killed loaded-IsValid

end_task_refines_example :
    ((j : ℕ)
      → job_state (step loaded (ends 14 0 timed_out)) j
        ≡ only 7 j (advance (job_state loaded 7)) (job_state loaded j))
    × ((step loaded (ends 14 0 timed_out)).pushed
        ≡ loaded.pushed ++ run_callbacks 14 loaded_task loaded.succeeded_raises timed_out)
end_task_refines_example =
    end_task_refines loaded 14 0 loaded_task timed_out loaded-IsValid loaded_objects refl

drop_task_refines_example :
    ((j : ℕ)
      → job_state (step killed_early (drops 14 0)) j
        ≡ only 7 j (advance (job_state killed_early 7)) (job_state killed_early j))
    × ((step killed_early (drops 14 0)).pushed
        ≡ killed_early.pushed ++ cleanup_callbacks 14 killed_task true)
drop_task_refines_example =
    drop_task_refines killed_early 14 0 killed_task run-init-IsValid_example killed_objects refl

raising_failed_hook_blocks_example :
    (on_task_done_instrumented killed_early 14 0 killed_task true (some (trigger 9 ""))
      ≡ step killed_early (drops 14 0))
    × (let s' = on_task_done_instrumented killed_early 14 0 killed_task true none in
        ((j : ℕ) → job_state s' j ≡ job_state killed_early j)
        × (s'.pushed ≡ killed_early.pushed ++ cleanup_callbacks 14 killed_task true)
        × ((later : ℕ) (outcome : Outcome) → step s' (ends later 0 outcome) ≡ s')
        × ((later : ℕ) → step s' (drops later 0) ≡ s'))
raising_failed_hook_blocks_example =
    raising_failed_hook_blocks killed_early 14 0 killed_task (trigger 9 "") run-init-IsValid_example
      killed_objects refl

exactly_once_example :
    reported_in 7 2 opened history + count 2 (ids (job_state loaded 7))
    ≡ accepted_in 7 2 opened history
exactly_once_example = exactly_once any_handler 60 2 history 7 2

-- Draining ends all three triggers.
job_drains_example :
    let ends_of = drain (size (job_state loaded 7)) 14 (λ t. timed_out) 7 loaded in
    ((k : ℕ)
      → job_state (run loaded ends_of) k ≡ (if nat_beq 7 k then idle else job_state loaded k))
    × ((l : ℕ) → reported_in 7 l loaded ends_of ≡ count l (ids (job_state loaded 7)))
    × (length ends_of ≤ 2 * size (job_state loaded 7))
job_drains_example = job_drains any_handler 60 2 history 14 (λ t. timed_out) 7

-- The registry is emptied before the first step of a task.
abbrev emptied : Executor
emptied =
    reset_handler (run opened (triggers 10 (trigger 1 "SERIAL_EXECUTION") ∷ [])) (λ name. false)

emptied-IsValid : IsValid emptied
emptied-IsValid =
    reset_handler-IsValid _ (λ name. false)
      (run-init-IsValid any_handler 60 2 none (triggers 10 (trigger 1 "SERIAL_EXECUTION") ∷ []))

-- The first trigger ends in time; the second is killed before its first step, and the third is given up.
abbrev mixed_history : List Event
mixed_history = history ++ (ends 14 0 (returned "done") ∷ kills 15 7 true killed ∷ drops 16 1 ∷ [])

hooks_follow_reports_example :
    ((run opened mixed_history).failed ≡ reasons (run opened mixed_history).pushed)
    × ((run opened mixed_history).succeeded ≡ successes (run opened mixed_history).pushed)
hooks_follow_reports_example = hooks_follow_reports any_handler 60 2 none mixed_history
