-- ===== src/Runtime/Executor/Jobs.antt =====
-- pyxxl/runtime/executor.py: what the outside asks of the executor (`run_job`, `cancel_job`,
-- `is_running`, `is_running_or_has_queue`, `shutdown`, `reset_handler`).
use pyxxl.Base.{
  ℕ, ◌+◌, String, Bool, true, false, Option, none, some, List, [], ◌∷◌, ◌++◌, get, set, keys, add,
  contains, is_empty, length, nat_eq, string_eq, ◌==◌, not, ◌&&◌, ◌||◌, if◌then◌else◌,
}
use pyxxl.Model.{RunData, strategy_value, serial_execution, discard_later, cover_early}
use pyxxl.Runtime.Executor.State.{
  Message, running, replaced, ranked, discarded, queue_full, repeated, handler_missing,
  unknown_strategy, cover_effect, Executor, items, touch, register_log_id, release_log_id,
  pop_cover_replacement, push_failed_queued_tasks, start_task, drain_pending_queue, cancel_task,
  get_queue, is_full,
}

pub data JobError : Type 0 where
  duplicate not_found params : Message → JobError

pub data Reply : Type 0 where
  ok : Message → Reply
  err : JobError → Reply

-- _handle_discard_later
unfoldable pub handle_discard_later : Executor → RunData → Reply × Executor
handle_discard_later s d = (err (duplicate (discarded d)), s)

-- A popped replacement joins the entries that are given up, and its log id is released.
unfoldable pub give_up_replacement :
    Executor → ℕ → List RunData → Option RunData → List RunData × Executor
give_up_replacement s job dropped none = (dropped, s)
give_up_replacement s job dropped (some r) = (dropped ++ r ∷ [], release_log_id s job r.log_id)

-- `_drain_pending_queue_locked` and `_pop_cover_replacement`, as `_handle_cover_early` and
-- `cancel_job` call them: everything that waits at the job, and the state without it
unfoldable pub give_up_pending : Executor → ℕ → List RunData × Executor
give_up_pending s job =
    let (drained, s₁) = drain_pending_queue s job in
    let (r, s₂) = pop_cover_replacement s₁ job in give_up_replacement s₂ job drained r

-- `_handle_cover_early`, from `current_task = self.tasks.get(...)` to the callbacks
unfoldable pub replace_current : Executor → RunData → Option ℕ → Executor
replace_current s d none = start_task s d.job_id d
replace_current s d (some t) =
    cancel_task (record s { cover_replacements = set s.cover_replacements d.job_id d }) t
      cover_effect

-- _handle_cover_early
unfoldable pub handle_cover_early : Executor → ℕ → RunData → Reply × Executor
handle_cover_early s now d =
    let (dropped, s₁) = give_up_pending s d.job_id in
    let s₂ = register_log_id s₁ d.job_id d.log_id in
    let s₃ = replace_current s₂ d (get s₂.tasks d.job_id) in
    (ok (replaced d.job_id d.log_id), push_failed_queued_tasks s₃ now dropped cover_effect)

-- `queue.put(data)` and the registration that follows it; `q` is the queue before
unfoldable pub enqueue : Executor → RunData → List RunData → Executor
enqueue s d q =
    register_log_id (record s { queue = set s.queue d.job_id (q ++ d ∷ []) }) d.job_id d.log_id

-- _handle_serial_execution: `put` on a queue that is not full returns at once
unfoldable pub handle_serial_execution : Executor → RunData → Reply × Executor
handle_serial_execution s d =
    let (q, s₁) = get_queue s d.job_id in
    if is_full s.task_queue_length q
    then (err (duplicate (queue_full d.job_id d s.task_queue_length)), s₁)
    else (ok (ranked d.job_id d.log_id (length q + 1) s.task_queue_length), enqueue s₁ d q)

-- the strategy tests of `run_job`
unfoldable pub block : Executor → ℕ → RunData → Reply × Executor
block s now d =
    let strategy = d.executor_block_strategy in
    if strategy == strategy_value discard_later
    then handle_discard_later s d
    else if strategy == strategy_value cover_early
    then handle_cover_early s now d
    else if strategy == strategy_value serial_execution
    then handle_serial_execution s d
    else (err (params (unknown_strategy strategy)), s)

abbrev pub has {ℓ} : {A : Type ℓ} → Option A → Bool
has none = false
has (some a) = true

-- no task, nothing in the queue and no replacement
abbrev pub is_free : Option ℕ → List RunData → Option RunData → Bool
is_free current q replacement = not (has current) && (is_empty q && not (has replacement))

-- `run_job` under the job's lock
unfoldable pub run_locked : Executor → ℕ → RunData → Reply × Executor
run_locked s now d =
    let job = d.job_id in
    let s₁ = record s { job_log_ids = touch s.job_log_ids job } in
    let current = get s₁.tasks job in
    let (q, s₂) = get_queue s₁ job in
    if contains (items s₁.job_log_ids job) d.log_id
    then (err (duplicate (repeated d.log_id)), s₁)
    else if is_free current q (get s₂.cover_replacements job)
    then (ok running, start_task (register_log_id s₂ job d.log_id) job d)
    else block s₂ now d

-- run_job
unfoldable pub run_job : Executor → ℕ → RunData → Reply × Executor
run_job s now d =
    if s.handler d.executor_handler
    then run_locked s now d
    else (err (not_found (handler_missing d.executor_handler)), s)

abbrev pub cancel_current : Executor → Option ℕ → Message → Executor
cancel_current s none reason = s
cancel_current s (some t) reason = cancel_task s t reason

-- `cancel_job` from taking the job's lock to the callbacks; what follows waits for the task
unfoldable pub cancel_job : Executor → ℕ → ℕ → Bool → Message → Executor
cancel_job s now job include_queue reason =
    let (queued, s₁) : List RunData × Executor =
      if include_queue then give_up_pending s job else ([], s) in
    push_failed_queued_tasks (cancel_current s₁ (get s₁.tasks job) reason) now queued reason

unfoldable pub is_running : Executor → ℕ → Bool
is_running s job = has (get s.tasks job)

-- is_running_or_has_queue: `self.queue.get` makes no entry
unfoldable pub is_running_or_has_queue : Executor → ℕ → Bool
is_running_or_has_queue s job =
    has (get s.tasks job)
    || not (is_empty (items s.queue job))
    || has (get s.cover_replacements job)

unfoldable pub union : List ℕ → List ℕ → List ℕ
union [] ys = ys
union (x ∷ xs) ys = add x (union xs ys)

-- shutdown: the jobs of a set, in some order
unfoldable pub job_ids : Executor → List ℕ
unfolding union
job_ids s = union (keys s.tasks) (union (keys s.queue) (keys s.cover_replacements))

-- the condition of the waiting loop in graceful_close
pub any_waiting : List (ℕ × List RunData) → Bool
any_waiting [] = false
any_waiting ((job, l) ∷ rest) = not (is_empty l) || any_waiting rest

unfoldable pub has_work : Executor → Bool
has_work s =
    not (is_empty (keys s.tasks))
    || any_waiting s.queue.entries
    || not (is_empty (keys s.cover_replacements))

-- reset_handler
unfoldable pub reset_handler : Executor → (String → Bool) → Executor
reset_handler s h = record s { handler = h }
