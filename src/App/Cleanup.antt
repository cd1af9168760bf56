-- ===== src/App/Cleanup.antt =====
-- pyxxl/app/runner.py: `_cleanup_ctx` behind its `yield`; `shutdown`, `graceful_close` and
-- `stop_callback_manager` of pyxxl/runtime/executor.py. While the code waits, the executor and the
-- manager go on: each wait has the events that fall into it.
use pyxxl.Base.{
  ℕ, String, Bool, true, false, ◌&&◌, Option, none, some, List, [], ◌∷◌, ◌++◌, get, nat_eq, take,
  if◌then◌else◌,
}
use pyxxl.Protocol.Admin.{PostError}
use pyxxl.Runtime.Executor.State.{Message, shut_down, Task, Executor}
use pyxxl.Runtime.Executor.Jobs.{job_ids, has_work}
use pyxxl.Runtime.Executor.Events.{kills}
use pyxxl.Runtime.Callbacks.Worker.{stops, drains, times_out}
use pyxxl.Runtime.System.{System, Event, schedules, manages, step, run}
use pyxxl.App.Runner.{App}

-- One `cancel_job` of a shutdown: the events up to its stretch, and the clock then.
pub record Turn : Type 0 where
  pub before : List Event
  pub now : ℕ

-- The events that fall into the waits of a cleanup, and how the waits end: whether graceful_close
-- times out, whether the two flushes of the callback queue end in their time, and whether a task that
-- the shutdown awaits raises, with the number of jobs that were cancelled by then. `turns` has the
-- cancellations of the shutdown, `settling` its first wait, `awaiting` the wait for the tasks.
pub record Waits : Type 0 where
  pub removing : List Event
  pub closing : List Event
  pub timed_out : Bool
  pub flushing : List Event
  pub settling : List Event
  pub turns : ℕ → Turn
  pub awaiting : List Event
  pub failing : Option (ℕ × String)
  pub stopping : List Event
  pub flushed : Bool
  pub stopped : Bool

-- What keeps the cleanup from its end.
pub data Halt : Type 0 where
  removal_failed : PostError → Halt
  -- the `TimeoutError` of graceful_close
  still_busy : Halt
  -- the exception of a task that the shutdown awaits
  task_raised : String → Halt
  -- the wait goes on
  still_waiting : Halt

-- `task_to_cancel`, where there is one
abbrev pub task_to_cancel : Option ℕ → List ℕ
task_to_cancel none = []
task_to_cancel (some t) = t ∷ []

abbrev pub has_ended : Option Task → Bool
has_ended none = true
has_ended (some o) = o.ended

unfoldable pub all_ended : Executor → List ℕ → Bool
all_ended s [] = true
all_ended s (t ∷ ts) = let rest = all_ended s ts in has_ended (get s.objects t) && rest

module _ (text : Message → Option String) where
  -- stop_callback_manager: a stop, the events of its wait, and the end of the wait
  unfoldable pub stop_callback_manager : System → Bool → List Event → Bool → System
  unfolding step
  stop_callback_manager s close es drained =
      step text (run text (step text s (manages (stops close))) es)
        (manages (if drained then drains else times_out))

  -- the `gather` of shutdown up to its waits for tasks, and these tasks
  unfoldable pub cancel_each : List ℕ → (ℕ → Turn) → System → List ℕ × System
  unfolding run step
  cancel_each [] turns s = ([], s)
  cancel_each (job ∷ jobs) turns s =
      let s₁ = run text s (turns job).before in
      let (ts, s₂) =
        cancel_each jobs turns
          (step text s₁ (schedules (kills (turns job).now job true shut_down))) in
      (task_to_cancel (get s₁.executor.tasks job) ++ ts, s₂)

  -- shutdown: it ends when all tasks that it awaits have ended
  unfoldable pub shutdown : System → Waits → Option Halt × System
  unfolding cancel_each job_ids all_ended
  shutdown s w =
      let s₁ = run text s w.settling in
      elim w.failing [
        | some (n, e) ↦
            let (ts, s₂) = cancel_each (take n (job_ids s₁.executor)) w.turns s₁ in
            (some (task_raised e), run text s₂ w.awaiting)
        | none ↦
            let (ts, s₂) = cancel_each (job_ids s₁.executor) w.turns s₁ in
            let s₃ = run text s₂ w.awaiting in
            (if all_ended s₃.executor ts then none else some still_waiting, s₃)
      ]

  -- graceful_close: its loop ends when no work is left, or by its timeout, at any time
  unfoldable pub graceful_close : System → Waits → Option Halt × System
  unfolding stop_callback_manager
  graceful_close s w =
      let s₁ = run text s w.closing in
      if w.timed_out
      then (some still_busy, s₁)
      else if has_work s₁.executor
      then (some still_waiting, s₁)
      else (none, stop_callback_manager s₁ false w.flushing w.flushed)

  -- `stop_callback_manager(timeout=1, close=True)`, where nothing was raised before
  abbrev pub and_close : Option Halt × System → Waits → Option Halt × System
  and_close (some e, s) w = (some e, s)
  and_close (none, s) w = (none, stop_callback_manager s true w.stopping w.stopped)

  -- the closing of the executor, by the setting `graceful_close`
  unfoldable pub close_executor : Bool → System → Waits → Option Halt × System
  unfolding graceful_close shutdown
  close_executor true s w = and_close (graceful_close s w) w
  close_executor false s w = and_close (shutdown s w) w

  abbrev pub is_halted : Option Halt → Bool
  is_halted none = false
  is_halted (some e) = true

  -- _cleanup_ctx behind its `yield`; `removal` is the error that registryRemove raises, if it does.
  -- The client is closed where nothing keeps the cleanup from its end.
  unfoldable pub cleanup : Bool → Option PostError → Waits → App → Option Halt × App
  unfolding close_executor
  cleanup graceful removal w a =
      let s = run text a.system w.removing in
      let b = record a { system = s; register_task = false; log_task = false } in
      elim removal [
        | some e ↦ (some (removal_failed e), b)
        | none ↦
            let (r, s₁) = close_executor graceful s w in
            (r, record b { system = s₁; client_open = b.client_open && is_halted r })
      ]
