-- ===== src/Runtime/Handlers/Process.antt =====
-- pyxxl/runtime/handlers.py: `HandlerInfo.start` and its three modes; pyxxl/runtime/process.py:
-- `process_handler_entry` and `resolve_process_handler`. Time is counted in looks of the parent at
-- the result queue and at the process.
use pyxxl.Base.{
  ℕ, zero, suc, ◌+◌, ◌*◌, String, Bool, true, false, Option, none, some, List, [], ◌∷◌, leb, ltb,
  string_eq, ◌==◌, if◌then◌else◌,
}
use pyxxl.Model.{async, thread, process, RunData}
use pyxxl.Config.Settings.{ExecutorConfig}
use pyxxl.Runtime.Handlers.Registry.{Function, HandlerInfo}
use pyxxl.Runtime.Handlers.Ladder.{Action, stop_process}

-- What the child puts into the queue: the result, or the error's text and its traceback.
pub data Payload : Type 0 where
  succeeded : Option String → Payload
  failed : String → String → Payload

pub data Interruption : Type 0 where
  timed_out cancelled : Interruption

-- How `start` ends.
pub data Ending : Type 0 where
  returns : Option String → Ending
  -- `RuntimeError`: the error's text, and the traceback where there is one
  raises : String → Option String → Ending
  -- `RuntimeError`: the process is gone without a payload
  exited : Ending
  -- `ValueError`: there is no trigger or no configuration
  no_arguments : Ending
  interrupted : Interruption → Ending

-- What the function does when it is called: it returns a value or a coroutine, or it raises an
-- exception with a text and a traceback.
pub data Call : Type 0 where
  gives : Option String → Call
  gives_coroutine : String → Call
  throws : String → String → Call

-- resolve_process_handler refuses a local function; the traceback is an argument
unfoldable pub resolve : Function → String → Call → Call
resolve f trace call =
    if f.has_locals
    then throws "Process mode handler must be a top-level importable function." trace
    else call

-- process_handler_entry: what it puts into the queue
unfoldable pub process_handler_entry : Call → Payload
process_handler_entry (gives v) = succeeded v
process_handler_entry (gives_coroutine trace) =
    failed "Process mode does not support async handlers." trace
process_handler_entry (throws text trace) = failed text trace

-- `payload.get("error") or "Process mode handler failed."`, `if stack: ...`
unfoldable pub read_payload : Option Payload → Ending
read_payload none = exited
read_payload (some (succeeded v)) = returns v
read_payload (some (failed text trace)) =
    raises (if text == "" then "Process mode handler failed." else text)
      (if trace == "" then none else some trace)

-- A child process: what it puts, from which look on the queue shows it, and from which look on the
-- process is dead. A child that is killed puts nothing.
pub record Child : Type 0 where
  pub put : Option Payload
  pub shows : ℕ
  pub death : ℕ

unfoldable pub child_of : Option Payload → ℕ → ℕ → Child
child_of p shows death = record { put = p; shows = shows; death = death }

-- result_queue.get_nowait()
abbrev pub get_nowait : Child → ℕ → Option Payload
get_nowait c k = if leb c.shows k then c.put else none

-- process.is_alive()
abbrev pub is_alive : Child → ℕ → Bool
is_alive c k = ltb k c.death

-- the loop of _wait_process_result, for so many rounds; a round that finds the process dead looks
-- into the queue once more
unfoldable pub wait_process_result : Child → ℕ → ℕ → Option Ending
unfolding read_payload
wait_process_result c zero k = none
wait_process_result c (suc n) k = elim (get_nowait c k) [
  | some p ↦ some (read_payload (some p))
  | none ↦ elim (is_alive c (suc k)) [
    | true ↦ wait_process_result c n (suc (suc k))
    | false ↦ some (read_payload (get_nowait c (suc (suc k))))
  ]
]

-- What _start_process does with the process and the queue.
pub data Step : Type 0 where
  starts joins closes : Step
  stops : List Action → Step

abbrev pub is_set : Option ExecutorConfig → Bool
is_set none = false
is_set (some c) = true

-- `asyncio.wait_for(...)`, `except ...`, `finally`: by how the wait came out in its time
abbrev pub after_wait : Child → ℕ → Bool → Interruption → Option Ending → Ending × List Step
after_wait c k can_kill why (some e) = (e, starts ∷ joins ∷ closes ∷ [])
after_wait c k can_kill why none = (
  interrupted why,
  starts ∷ stops (stop_process (λ n. is_alive c (k + n)) can_kill) ∷ joins ∷ closes ∷ [],
)

-- _start_process, when an interruption leaves it `n` rounds
unfoldable pub start_process :
    Option RunData → Option ExecutorConfig → Child → ℕ → Bool → Interruption → Ending × List Step
start_process none config c n can_kill why = (no_arguments, [])
start_process (some d) none c n can_kill why = (no_arguments, [])
start_process (some d) (some config) c n can_kill why =
    after_wait c (2 * n) can_kill why (wait_process_result c n 0)

-- the function's own end, where it came in time
abbrev pub in_time : Interruption → Option Ending → Ending
in_time why none = interrupted why
in_time why (some e) = e

-- TimeoutError or CancelledError
abbrev pub is_interruption : Ending → Bool
is_interruption (interrupted why) = true
is_interruption _ = false

-- _start_thread, with whether the cancel event is set
unfoldable pub start_thread : Interruption → Option Ending → Ending × Bool
start_thread why none = (interrupted why, true)
start_thread why (some e) = (e, is_interruption e)

abbrev pub signalled : List Step → Bool
signalled [] = false
signalled (stops actions ∷ rest) = true
signalled (_ ∷ rest) = signalled rest

-- start: how it ends, and whether the function's cancel event is set; `local` is how a coroutine or a
-- thread comes out in its time
unfoldable pub start :
    HandlerInfo
    → Option RunData
    → Option ExecutorConfig
    → Option Ending
    → Child
    → ℕ
    → Bool
    → Interruption
    → Ending × Bool
unfolding start_thread start_process
start h d config local c n can_kill why = elim h.mode [
  | async ↦ (in_time why local, false)
  | thread ↦ start_thread why local
  | process ↦ let (e, steps) = start_process d config c n can_kill why in (e, signalled steps)
]
