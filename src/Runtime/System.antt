-- ===== src/Runtime/System.antt =====
-- pyxxl/runtime/executor.py with pyxxl/runtime/callbacks.py: the executor and its callback manager.
-- Every callback that a stretch of the executor pushes is a call of the manager's `enqueue`.
use pyxxl.Base.{ℕ, String, Option, List, [], ◌∷◌}
use pyxxl.Runtime.Executor.State.{Message, Callback, Executor}
use pyxxl.Runtime.Executor.Events.{Event as Schedule, step as schedule}
use pyxxl.Runtime.Executor.Accounting.{new_callbacks}
use pyxxl.Runtime.Callbacks.State.{Manager, enqueue, start}
use pyxxl.Runtime.Callbacks.Worker.{Event as Report, new_request, step as manage}
pub mod Delivery
pub mod Closing
mod Examples

pub record System : Type 0 where
  pub executor : Executor
  pub callback_manager : Manager

-- `Executor.start_callback_manager`, of a new executor
unfoldable pub launch : Executor → Manager → System
launch e m = record { executor = e; callback_manager = start m }

pub data Event : Type 0 where
  -- a stretch of the executor
  schedules : Schedule → Event
  -- a stretch of the callback manager
  manages : Report → Event

-- What a message formats to is an argument.
module _ (text : Message → Option String) where
  -- _push_callback: `CallbackRequest(...)` and `callback_manager.enqueue`
  unfoldable pub push : Manager → Callback → Manager
  push m c = enqueue m (new_request c.log_id c.timestamp c.code (text c.msg))

  -- the callbacks of a stretch, in their order
  unfoldable pub push_all : Manager → List Callback → Manager
  push_all m [] = m
  push_all m (c ∷ cs) = push_all (push m c) cs

  unfoldable pub step : System → Event → System
  step s (schedules e) = record {
    executor = schedule s.executor e;
    callback_manager =
        push_all s.callback_manager (new_callbacks s.executor (schedule s.executor e));
  }
  step s (manages e) = record s { callback_manager = manage s.callback_manager e }

  unfoldable pub run : System → List Event → System
  run s [] = s
  run s (e ∷ es) = run (step s e) es
