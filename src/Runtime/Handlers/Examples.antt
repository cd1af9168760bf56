-- ===== src/Runtime/Handlers/Examples.antt =====
-- A registry of one coroutine function, and a second registration under its name.
use pyxxl.Base.{
  suc, false, arith, ◌&&◌, ℕ, ltb, ◌≤◌, arith, ◌≡◌, Bool, true, false, none, some, List, [], ◌∷◌,
  empty, refl, if◌then◌else◌, string_eq,
}
use pyxxl.Model.{async, process, RunData}
use pyxxl.Config.Settings.{ExecutorConfig, default_config}
use pyxxl.Runtime.Handlers.Process.{
  Call, throws, Child, child_of, resolve, process_handler_entry, exited, timed_out, starts, joins,
  closes, start_process,
}
use pyxxl.Runtime.Handlers.Running.{end_of, process_mode_result}
use pyxxl.Runtime.Handlers.Registry.{
  Function, HandlerInfo, is_process_safe, Handlers, Entry, decorate_all,
}
use pyxxl.Runtime.Handlers.Ladder.{
  stop_process, waits, any_action, is_terminate, is_kill, asks_first, is_sleep, stop_process_ladder,
}
use pyxxl.Runtime.Handlers.Runnable.{AllRunnable, decorate_all-AllRunnable}

abbrev demo : Function
demo = record { name = "demo"; is_coroutine = true; is_function = true; has_locals = false }

abbrev entries : List Entry
entries =
    (record { func = demo; name = none; replace = false; mode = none }
      ∷ record { func = demo; name = none; replace = false; mode = some async }
      ∷ [])

abbrev handlers : Handlers
handlers = decorate_all empty entries

decorate_all-AllRunnable_example : AllRunnable (decorate_all empty entries)
decorate_all-AllRunnable_example = decorate_all-AllRunnable entries

-- A process that ends between the fourteenth look and the next.
abbrev lingering : ℕ → Bool
lingering k = ltb k 14

lingering_stays : (k : ℕ) → lingering k ≡ false → lingering (suc k) ≡ false
lingering_stays k h = ground (arith, h)

stop_process_ladder_example :
    (any_action is_terminate (stop_process lingering true) ≡ lingering 10)
    × (any_action is_kill (stop_process lingering true) ≡ (lingering 31 && true))
    × (asks_first (stop_process lingering true) ≡ true)
    × (waits (stop_process lingering true) ≤ 30)
    × (any_action is_sleep (stop_process lingering true) ≡ lingering 0)
stop_process_ladder_example = stop_process_ladder lingering true lingering_stays

-- A function that a child process can import.
abbrev importable : Function
importable = record { name = "job"; is_coroutine = false; is_function = true; has_locals = false }

abbrev trigger : RunData
trigger = record {
  job_id = 7;
  log_id = 1;
  executor_handler = "job";
  executor_block_strategy = "SERIAL_EXECUTION";
  executor_params = none;
  executor_timeout = none;
  log_date_time = none;
  glue_type = none;
  glue_source = none;
  glue_updatetime = none;
  broadcast_index = none;
  broadcast_total = none;
}

abbrev config : ExecutorConfig
config = default_config [] []

-- Its call raises; the payload shows at the third look, the process is dead at the fifth.
abbrev call : Call
call = throws "no input" "Traceback"

process_mode_result_example :
    start_process
      (some trigger)
      (some config)
      (child_of
        (if true then some (process_handler_entry (resolve importable "" call)) else none)
        3
        5)
      4
      true
      timed_out
    ≡ (if true then end_of call else exited, starts ∷ joins ∷ closes ∷ [])
unfolding is_process_safe
process_mode_result_example =
    process_mode_result importable "" call 3 5 4 true true trigger config timed_out refl
      (omega arith) (omega arith)

abbrev job_info : HandlerInfo
job_info = record { handler = importable; mode = process; is_async = false }

abbrev stuck_child : Child
stuck_child = child_of none 0 90
