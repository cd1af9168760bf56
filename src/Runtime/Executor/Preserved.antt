-- ===== src/Runtime/Executor/Preserved.antt =====
-- What every operation of the executor keeps, once its tasks' starts, cancellations and reports keep it.
use pyxxl.Base.{
  ℕ, ◌≡◌, refl, ap, String, Bool, true, false, not, Option, none, some, List, [], ◌∷◌, Dict, get,
  remove, length, ◌+◌, contains, nat_eq, string_eq, ◌==◌, if_intro, if◌then◌else◌,
}
use pyxxl.Model.{RunData, strategy_value, serial_execution, discard_later, cover_early}
use pyxxl.Runtime.Executor.State.{
  Message, running as running_message, repeated, unknown_strategy, handler_missing, queue_full,
  ranked, touch, is_full, Task, Executor, Callback, items, start_task, cancel_task,
  push_failed_queued_tasks, get_queue, register_log_id, release_log_id, pop_cover_replacement,
}
use pyxxl.Runtime.Executor.Tasks.{is_task, start_queued, start_next, finish}
use pyxxl.Runtime.Executor.Jobs.{
  Reply, ok, err, duplicate, params, not_found, is_free, handle_discard_later, give_up_pending,
  replace_current, handle_cover_early, enqueue, handle_serial_execution, block, run_locked, run_job,
  cancel_current, cancel_job,
}
use pyxxl.Runtime.Executor.Drains.{Kept, kept, kept-give_up}

-- What an executor has besides its tables of jobs.
pub record Core : Type 0 where
  pub objects : Dict ℕ Task
  pub next_task : ℕ
  pub raises : Option String
  pub pushed : List Callback
  pub succeeded : ℕ
  pub failed : List String

abbrev pub core : Executor → Core
core s = record {
  objects = s.objects;
  next_task = s.next_task;
  raises = s.succeeded_raises;
  pushed = s.pushed;
  succeeded = s.succeeded;
  failed = s.failed;
}

core-popped :
    (b : Bool) (s : Executor) (m : Dict ℕ ℕ)
    → core (if b then record s { tasks = m } else s) ≡ core s
core-popped true s m = refl
core-popped false s m = refl

-- A property of executors that does not look at the tables, and that these keep.
pub record Keeps (P : Executor → Type 0) : Type 0 where
  pub moved : (s s' : Executor) → core s' ≡ core s → P s → P s'
  pub started : (s : Executor) (job : ℕ) (d : RunData) → P s → P (start_task s job d)
  pub cancelled : (s : Executor) (t : ℕ) (reason : Message) → P s → P (cancel_task s t reason)
  pub refused :
      (s : Executor) (now : ℕ) (ds : List RunData) (reason : Message)
      → P s
      → P (push_failed_queued_tasks s now ds reason)

module _ (P : Executor → Type 0) (k : Keeps P) where
  -- The state that is left behind a reply.
  pub record Leaves (r : Reply × Executor) : Type 0 where
    pub after : P r.1

  give_up-keeps : (s : Executor) (job : ℕ) → P s → P (give_up_pending s job).1
  unfolding kept
  give_up-keeps s job w =
      k.moved s (give_up_pending s job).1
        (ap
          (λ (x : Kept). record {
            objects = x.objects;
            next_task = x.next_task;
            raises = x.succeeded_raises;
            pushed = x.pushed;
            succeeded = x.succeeded;
            failed = x.failed;
          })
          (kept-give_up s job))
        w

  replace_current-keeps :
      (s : Executor) (d : RunData) (t : Option ℕ) → P s → P (replace_current s d t)
  unfolding replace_current
  replace_current-keeps s d none w = k.started s d.job_id d w
  replace_current-keeps s d (some t) w = k.cancelled _ t _ (k.moved s _ refl w)

  handle_cover_early-keeps :
      (s : Executor) (now : ℕ) (d : RunData) → P s → P (handle_cover_early s now d).1
  unfolding handle_cover_early register_log_id
  handle_cover_early-keeps s now d w =
      k.refused _ now _ _
        (replace_current-keeps _ d _ (k.moved _ _ refl (give_up-keeps s d.job_id w)))

  handle_serial_execution-keeps :
      (s : Executor) (d : RunData) → P s → Leaves (handle_serial_execution s d)
  unfolding handle_serial_execution get_queue enqueue register_log_id
  handle_serial_execution-keeps s d w =
      let (q, s₁) = get_queue s d.job_id in
      if_intro Leaves (is_full s.task_queue_length q)
        (err (duplicate (queue_full d.job_id d s.task_queue_length)), s₁)
        (ok (ranked d.job_id d.log_id (length q + 1) s.task_queue_length), enqueue s₁ d q)
        (λ e. record { after = k.moved s s₁ refl w })
        (λ e. record { after = k.moved s (enqueue s₁ d q) refl w })

  block-keeps : (s : Executor) (now : ℕ) (d : RunData) → P s → Leaves (block s now d)
  unfolding block handle_discard_later
  block-keeps s now d w =
      let strategy = d.executor_block_strategy in
      let bad : Reply × Executor = (err (params (unknown_strategy strategy)), s) in
      let serial =
        if strategy == strategy_value serial_execution then handle_serial_execution s d else bad in
      let cover =
        if strategy == strategy_value cover_early then handle_cover_early s now d else serial in
      if_intro Leaves (strategy == strategy_value discard_later) (handle_discard_later s d) cover
        (λ e. record { after = w })
        λ e.
          if_intro Leaves (strategy == strategy_value cover_early) (handle_cover_early s now d)
            serial (λ e. record { after = handle_cover_early-keeps s now d w })
            λ e.
              if_intro Leaves (strategy == strategy_value serial_execution)
                (handle_serial_execution s d) bad (λ e. handle_serial_execution-keeps s d w)
                (λ e. record { after = w })

  run_locked-keeps : (s : Executor) (now : ℕ) (d : RunData) → P s → Leaves (run_locked s now d)
  unfolding run_locked get_queue register_log_id
  run_locked-keeps s now d w =
      let job = d.job_id in
      let s₁ = record s { job_log_ids = touch s.job_log_ids job } in
      let (q, s₂) = get_queue s₁ job in
      let free = is_free (get s₁.tasks job) q (get s₂.cover_replacements job) in
      let started = start_task (register_log_id s₂ job d.log_id) job d in
      if_intro Leaves (contains (items s₁.job_log_ids job) d.log_id)
        (err (duplicate (repeated d.log_id)), s₁)
        (if free then (ok running_message, started) else block s₂ now d)
        (λ e. record { after = k.moved s s₁ refl w })
        λ e.
          if_intro Leaves free (ok running_message, started) (block s₂ now d)
            (λ e. record {
              after =
                  k.started (register_log_id s₂ job d.log_id) job d
                    (k.moved s (register_log_id s₂ job d.log_id) refl w);
            })
            (λ e. block-keeps s₂ now d (k.moved s s₂ refl w))

  pub run_job-keeps : (s : Executor) (now : ℕ) (d : RunData) → P s → Leaves (run_job s now d)
  unfolding run_job
  run_job-keeps s now d w =
      if_intro Leaves (s.handler d.executor_handler) (run_locked s now d)
        (err (not_found (handler_missing d.executor_handler)), s) (λ e. run_locked-keeps s now d w)
        (λ e. record { after = w })

  cancel_current-keeps :
      (s : Executor) (t : Option ℕ) (reason : Message) → P s → P (cancel_current s t reason)
  cancel_current-keeps s none reason w = w
  cancel_current-keeps s (some t) reason w = k.cancelled s t reason w

  pub cancel_job-keeps :
      (s : Executor) (now job : ℕ) (include_queue : Bool) (reason : Message)
      → P s
      → P (cancel_job s now job include_queue reason)
  unfolding cancel_job
  cancel_job-keeps s now job true reason w =
      k.refused _ now _ _ (cancel_current-keeps _ _ reason (give_up-keeps s job w))
  cancel_job-keeps s now job false reason w =
      k.refused _ now [] reason (cancel_current-keeps s _ reason w)

  start_queued-keeps : (s : Executor) (job : ℕ) (q : List RunData) → P s → P (start_queued s job q)
  unfolding start_queued
  start_queued-keeps s job [] w = w
  start_queued-keeps s job (d ∷ rest) w = k.started _ job d (k.moved s _ refl w)

  start_next-keeps : (s : Executor) (job : ℕ) (r : Option RunData) → P s → P (start_next s job r)
  unfolding start_next get_queue
  start_next-keeps s job (some d) w = k.started s job d w
  start_next-keeps s job none w = start_queued-keeps _ job _ (k.moved s _ refl w)

  pub finish-keeps : (s : Executor) (t : ℕ) (d : RunData) → P s → P (finish s t d)
  unfolding finish release_log_id pop_cover_replacement
  finish-keeps s t d w =
      let current = is_task (get s.tasks d.job_id) t in
      let popped = if current then record s { tasks = remove s.tasks d.job_id } else s in
      let released = release_log_id popped d.job_id d.log_id in
      let (replacement, left) = pop_cover_replacement released d.job_id in
      let kept = core-popped current s (remove s.tasks d.job_id) in
      if_intro P (not current) released (start_next left d.job_id replacement)
        (λ e. k.moved s released kept w)
        (λ e. start_next-keeps left d.job_id replacement (k.moved s left kept w))
