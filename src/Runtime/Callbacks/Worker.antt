-- ===== src/Runtime/Callbacks/Worker.antt =====
-- pyxxl/runtime/callbacks.py: the worker, the retry tasks and `stop`, and a run over the stretches
-- that the event loop executes in any order.
use pyxxl.Base.{
  ℕ, suc, String, Bool, true, false, Option, none, some, List, [], ◌∷◌, ◌++◌, Dict, nat_beq,
  if◌then◌else◌,
}
use pyxxl.Runtime.Callbacks.State.{
  Request, File, Manager, ensure_worker, enqueue, start, persist_request, delete_persisted_request,
  mark_completed,
}

-- `self._queue.get()` by a worker that awaits it
abbrev pub take_first : Manager → List Request → Manager
take_first m [] = m
take_first m (r ∷ rest) = record m { queue = rest; in_flight = some r }

unfoldable pub take_request : Manager → Manager
take_request m = elim m.in_flight [
  | none ↦ if m.worker then take_first m m.queue else m
  | some r ↦ m
]

-- _worker_loop after `client.callback` returned
abbrev pub deliver : Manager → Option Request → Manager
deliver m none = m
deliver m (some r) =
    mark_completed (delete_persisted_request (record m { in_flight = none }) r.persisted_path)

-- _worker_loop after `client.callback` raised
abbrev pub fail : Manager → Option Request → Manager
fail m none = m
fail m (some r) =
    let (r₁, m₁) =
      persist_request (record m { in_flight = none }) (record r { attempts = suc r.attempts }) in
    record m₁ { retry_tasks = m₁.retry_tasks ++ r₁ ∷ [] }

-- _requeue_later after its sleep, and the end of its task
unfoldable pub requeue : Manager → Request → Manager
requeue m r =
    if m.closed then m else let m₁ = ensure_worker m in record m₁ { queue = m₁.queue ++ r ∷ [] }

abbrev pub wake_oldest : Manager → List Request → Manager
wake_oldest m [] = m
wake_oldest m (r ∷ rest) = requeue (record m { retry_tasks = rest }) r

-- The retry tasks sleep for the same time, so the oldest wakes first.
unfoldable pub wake : Manager → Manager
wake m = wake_oldest m m.retry_tasks

-- _persist_buffered_requests
unfoldable pub persist_all : Manager → List Request → Manager
persist_all m [] = m
persist_all m (r ∷ rest) = persist_all (persist_request (record m { queue = rest }) r).1 rest

unfoldable pub persist_buffered_requests : Manager → Manager
persist_buffered_requests m = persist_all m m.queue

-- the cancellation of the worker: `except asyncio.CancelledError` of _worker_loop
abbrev pub cancel_flight : Manager → Option Request → Manager
cancel_flight m none = m
cancel_flight m (some r) = (persist_request (record m { in_flight = none }) r).1

unfoldable pub cancel_worker : Manager → Manager
cancel_worker m = if m.worker then record (cancel_flight m m.in_flight) { worker = false } else m

-- `self._pending = 0; self._pending_empty.set()`
unfoldable pub reset_pending : Manager → Manager
reset_pending m = record m { pending = 0; pending_empty = true }

-- stop, before it waits
unfoldable pub begin_stop : Manager → Bool → Manager
begin_stop m close = if close then record m { closed = true } else m

-- stop, after it waited: `drained` says that the wait did not time out
unfoldable pub finish_stop : Manager → Bool → Manager
finish_stop m drained =
    let m₁ = record m { retry_tasks = [] } in
    if drained
    then cancel_worker m₁
    else reset_pending (cancel_worker (persist_buffered_requests m₁))

-- `CallbackRequest(log_id=..., timestamp=..., code=..., msg=...)`
abbrev pub new_request : ℕ → ℕ → ℕ → Option String → Request
new_request log_id timestamp code msg = record {
  log_id = log_id;
  timestamp = timestamp;
  code = code;
  msg = msg;
  attempts = 0;
  persisted_path = none;
}

pub data Event : Type 0 where
  -- the executor reports: log id, timestamp, code, message
  enqueues : ℕ → ℕ → ℕ → Option String → Event
  starts takes delivers fails wakes : Event
  -- `stop` is called, with `close`
  stops : Bool → Event
  -- the wait of a `stop` ends, because nothing is pending or by its timeout
  drains times_out : Event

unfoldable pub step : Manager → Event → Manager
step m (enqueues log time code msg) = enqueue m (new_request log time code msg)
step m starts = start m
step m takes = take_request m
step m delivers = deliver m m.in_flight
step m fails = fail m m.in_flight
step m wakes = wake m
step m (stops close) = begin_stop m close
step m drains = if nat_beq m.pending 0 then finish_stop m true else m
step m times_out = finish_stop m false

unfoldable pub run : Manager → List Event → Manager
run m [] = m
run m (e ∷ es) = run (step m e) es

-- `CallbackManager.__init__` over a store that may hold files
unfoldable pub init : (ℕ → Bool) → Dict ℕ File → ℕ → Manager
init writable store next_path = record {
  writable = writable;
  queue = [];
  in_flight = none;
  worker = false;
  retry_tasks = [];
  pending = 0;
  pending_empty = true;
  closed = false;
  started = false;
  store = store;
  next_path = next_path;
}
