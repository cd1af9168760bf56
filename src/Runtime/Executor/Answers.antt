-- ===== src/Runtime/Executor/Answers.antt =====
-- What a trigger is shown to do, and the callbacks of triggers that are given up.
use mathlib.Core.List.{append-nil, append_assoc}
use pyxxl.Base.{ℕ, ◌+◌, ◌≡◌, refl, sym, ap, ◌∙◌, List, [], ◌∷◌, ◌++◌, map, nat_eq, string_eq}
use pyxxl.Model.{RunData}
use pyxxl.Runtime.Executor.State.{
  Message, running, replaced, ranked, discarded, queue_full, repeated, unknown_strategy,
  cover_effect, not_executed, Callback, Executor, touch, push_callback, push_failed_queued_tasks,
  callback_timestamp, get_queue,
}
use pyxxl.Runtime.Executor.Jobs.{Reply, ok, err, duplicate, params}
use pyxxl.Runtime.Executor.Spec.{
  Verdict, runs, replaces, queues, is_repeated, is_discarded, overflows, has_bad_strategy, Result,
}
use pyxxl.Runtime.Executor.Slots.{slot-get_queue, slot-touch_logs}
use pyxxl.Runtime.Executor.Drains.{kept}
use pyxxl.Runtime.Executor.Landing.{Lands, IsSame}

-- The callback for a trigger that is given up before it ran.
unfoldable pub queue_failure : ℕ → Message → RunData → Callback
queue_failure now reason d = record {
  log_id = d.log_id;
  timestamp = callback_timestamp now d;
  code = 500;
  msg = not_executed reason;
}

pub push_failed_lem :
    (s : Executor) (now : ℕ) (ds : List RunData) (reason : Message)
    → push_failed_queued_tasks s now ds reason
      ≡ record s { pushed = s.pushed ++ map (queue_failure now reason) ds }
unfolding push_failed_queued_tasks queue_failure
push_failed_lem s now [] reason = ap (λ l. record s { pushed = l }) (sym (append-nil s.pushed))
push_failed_lem s now (d ∷ ds) reason =
    push_failed_lem (push_callback s d.log_id (callback_timestamp now d) 500 (not_executed reason))
      now ds reason
    ∙ ap (λ l. record s { pushed = l })
        (append_assoc s.pushed (queue_failure now reason d ∷ [])
          (map (queue_failure now reason) ds))

-- The answer that goes with a verdict; `waiting` is the length of the queue before.
abbrev pub answer : ℕ → RunData → ℕ → Verdict → Reply
answer bound d waiting runs = ok running
answer bound d waiting replaces = ok (replaced d.job_id d.log_id)
answer bound d waiting queues = ok (ranked d.job_id d.log_id (waiting + 1) bound)
answer bound d waiting is_repeated = err (duplicate (repeated d.log_id))
answer bound d waiting is_discarded = err (duplicate (discarded d))
answer bound d waiting overflows = err (duplicate (queue_full d.job_id d bound))
answer bound d waiting has_bad_strategy = err (params (unknown_strategy d.executor_block_strategy))

pub IsSame-queue : (s : Executor) (k : ℕ) → IsSame s (get_queue s k).1
unfolding get_queue kept
IsSame-queue s k = record { slots = slot-get_queue s k; rest = refl }

pub IsSame-touch :
    (s : Executor) (k : ℕ) → IsSame s (record s { job_log_ids = touch s.job_log_ids k })
unfolding kept
IsSame-touch s k = record { slots = slot-touch_logs s k; rest = refl }

-- What a trigger is shown to do: land in the state, send the callbacks and give the answer.
pub record Does (s : Executor) (now : ℕ) (d : RunData) (waiting : ℕ) (r : Result)
    (out : Reply × Executor) : Type 0 where
  pub lands : Lands s out.1 d.job_id r.after (map (queue_failure now cover_effect) r.given_up)
  pub answers : out.0 ≡ answer s.task_queue_length d waiting r.verdict
