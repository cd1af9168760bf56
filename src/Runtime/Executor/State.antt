-- ===== src/Runtime/Executor/State.antt =====
-- pyxxl/runtime/executor.py, pyxxl/runtime/models.py: what the executor keeps, and its helpers on
-- that state. `next_task` numbers the task objects: a number is the identity of an `XXLTask`.
use pyxxl.Base.{
  ℕ, suc, String, Bool, false, Option, none, some, List, [], ◌∷◌, ◌++◌, Dict, get, set, remove, add,
  discard, is_empty, length, or_else, nat_eq, nat_beq, leb, not, ◌||◌, if◌then◌else◌,
}
use pyxxl.Model.{RunData}

-- Texts that the executor builds from a format string, by their arguments.
pub data Message : Type 0 where
  running : Message
  replaced : ℕ → ℕ → Message
  ranked : ℕ → ℕ → ℕ → ℕ → Message
  discarded : RunData → Message
  queue_full : ℕ → RunData → ℕ → Message
  repeated : ℕ → Message
  handler_missing : String → Message
  unknown_strategy : String → Message
  cover_effect : Message
  killed : Message
  shut_down : Message
  not_executed : Message → Message
  running_killed : Message → Message
  cancelled_error : Message
  timeout_error : Message
  result : String → Message

-- `CallbackRequest` as the executor fills it.
pub record Callback : Type 0 where
  pub log_id : ℕ
  pub timestamp : ℕ
  pub code : ℕ
  pub msg : Message

-- `XXLTask`, with what the event loop knows of its `asyncio.Task`: whether `cancel()` was called
-- while it was pending, and whether its coroutine has ended.
pub record Task : Type 0 where
  pub data_of : RunData
  pub cancel_reason : Option Message
  pub started : Bool
  pub cleaned : Bool
  pub cancelling : Bool
  pub ended : Bool

pub record Executor : Type 0 where
  pub handler : String → Bool
  pub task_timeout : ℕ
  pub task_queue_length : ℕ
  -- what `succeeded_callback()` raises, if it raises
  pub succeeded_raises : Option String
  pub tasks : Dict ℕ ℕ
  pub objects : Dict ℕ Task
  pub next_task : ℕ
  pub queue : Dict ℕ (List RunData)
  pub job_log_ids : Dict ℕ (List ℕ)
  pub cover_replacements : Dict ℕ RunData
  -- what `callback_manager.enqueue` was given, oldest first
  pub pushed : List Callback
  -- the calls of `succeeded_callback` and `failed_callback`
  pub succeeded : ℕ
  pub failed : List String

-- What a `defaultdict` of lists or sets holds at a key.
abbrev pub items {ℓ} : {A : Type ℓ} → Dict ℕ (List A) → ℕ → List A
items d k = elim (get d k) [ none ↦ [] | some l ↦ l ]

-- Reading `d[k]` of a `defaultdict` leaves an entry.
unfoldable pub touch {ℓ} : {A : Type ℓ} → Dict ℕ (List A) → ℕ → Dict ℕ (List A)
touch d k = elim (get d k) [ none ↦ set d k [] | some l ↦ d ]

-- _register_log_id
unfoldable pub register_log_id : Executor → ℕ → ℕ → Executor
register_log_id s job log = record s {
  job_log_ids = set s.job_log_ids job (add log (items s.job_log_ids job));
}

unfoldable pub release_from : Dict ℕ (List ℕ) → ℕ → ℕ → List ℕ → Dict ℕ (List ℕ)
release_from d job log [] = d
release_from d job log (x ∷ xs) =
    let left = discard log (x ∷ xs) in if is_empty left then remove d job else set d job left

-- _release_log_id
unfoldable pub release_log_id : Executor → ℕ → ℕ → Executor
unfolding release_from
release_log_id s job log = record s {
  job_log_ids = release_from s.job_log_ids job log (items s.job_log_ids job);
}

-- _pop_cover_replacement: the replacement is read before by its callers.
unfoldable pub pop_cover_replacement : Executor → ℕ → Option RunData × Executor
pop_cover_replacement s job = (
  get s.cover_replacements job,
  record s { cover_replacements = remove s.cover_replacements job },
)

-- _callback_timestamp, with the clock as an argument
unfoldable pub callback_timestamp : ℕ → RunData → ℕ
callback_timestamp now d = or_else d.log_date_time now

-- _push_callback
unfoldable pub push_callback : Executor → ℕ → ℕ → ℕ → Message → Executor
push_callback s log time code msg = record s {
  pushed = s.pushed ++ record { log_id = log; timestamp = time; code = code; msg = msg } ∷ [];
}

-- _push_failed_queued_tasks
unfoldable pub push_failed_queued_tasks : Executor → ℕ → List RunData → Message → Executor
unfolding push_callback callback_timestamp
push_failed_queued_tasks s now [] reason = s
push_failed_queued_tasks s now (d ∷ ds) reason =
    push_failed_queued_tasks
      (push_callback s d.log_id (callback_timestamp now d) 500 (not_executed reason)) now ds reason

-- XXLTask.__init__, and its asyncio task before its first step
abbrev pub new_task : RunData → Task
new_task d = record {
  data_of = d;
  cancel_reason = none;
  started = false;
  cleaned = false;
  cancelling = false;
  ended = false;
}

-- _create_task
unfoldable pub create_task : Executor → RunData → ℕ × Executor
create_task s d = (
  s.next_task,
  record s { objects = set s.objects s.next_task (new_task d); next_task = suc s.next_task },
)

-- `self.tasks[job] = self._create_task(d)`
unfoldable pub start_task : Executor → ℕ → RunData → Executor
unfolding create_task
start_task s job d = let (t, s') = create_task s d in record s' { tasks = set s'.tasks job t }

-- get_queue: `self.queue` is a `defaultdict`
unfoldable pub get_queue : Executor → ℕ → List RunData × Executor
unfolding touch
get_queue s job = (items s.queue job, record s { queue = touch s.queue job })

-- one round of the loop of _drain_pending_queue_locked: `d` leaves the queue, `rest` is left in it
unfoldable pub drain_one : Executor → ℕ → RunData → List RunData → Executor
unfolding release_log_id
drain_one s job d rest = release_log_id (record s { queue = set s.queue job rest }) job d.log_id

-- the loop of _drain_pending_queue_locked, over the entries that are left in the queue
unfoldable pub drain_loop : Executor → ℕ → List RunData → List RunData → List RunData × Executor
unfolding drain_one
drain_loop s job drained [] = (drained, s)
drain_loop s job drained (d ∷ rest) =
    drain_loop (drain_one s job d rest) job (drained ++ d ∷ []) rest

-- _drain_pending_queue_locked
unfoldable pub drain_pending_queue : Executor → ℕ → List RunData × Executor
unfolding drain_loop get_queue
drain_pending_queue s job = let (q, s') = get_queue s job in drain_loop s' job [] q

unfoldable pub cancel_object : Executor → ℕ → Message → Option Task → Executor
cancel_object s t reason none = s
cancel_object s t reason (some o) = record s {
  objects =
      set s.objects t
        (record o { cancel_reason = some reason; cancelling = o.cancelling || not o.ended });
}

-- the task object's `cancel_reason = reason; cancel()`
unfoldable pub cancel_task : Executor → ℕ → Message → Executor
cancel_task s t reason = cancel_object s t reason (get s.objects t)

-- asyncio.Queue.full: a queue with no bound is never full
unfoldable pub is_full : ℕ → List RunData → Bool
is_full bound l = if nat_beq bound 0 then false else leb bound (length l)
