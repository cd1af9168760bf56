-- ===== src/Runtime/Executor/Hooks.antt =====
-- pyxxl/monitoring/prometheus.py and pyxxl/context/runtime.py, as `InstrumentedExecutor` of
-- pyxxl/app/runner.py hooks them into the executor: `failed` reads the trigger of the running task
-- from the context, and raises where the context has none.

use pyxxl.Base.{
  ℕ, ◌≡◌, refl, ap, ◌∙◌, sym, inl, inr, String, Bool, true, false, Option, none, some, ◌++◌, get,
  set, get-set, nat_beq_iff, nat_eq, nat_beq, not, ◌||◌, arith, if◌then◌else◌, Bool-cases,
}
use pyxxl.Model.{RunData}
use pyxxl.Runtime.Executor.State.{Task, Executor, push_callback, callback_timestamp}
use pyxxl.Runtime.Executor.Tasks.{
  Outcome, finish, cancel_message, fail_callback, cleanup_object, cleanup_task, on_task_done,
}
use pyxxl.Runtime.Executor.Events.{may_drop, ends, drops, step}
use pyxxl.Runtime.Executor.Slots.{slot}
use pyxxl.Runtime.Executor.Entries.{state_of}
use pyxxl.Runtime.Executor.Invariant.{IsValid, job_state, task_data, data_at}
use pyxxl.Runtime.Executor.Ends.{cleanup_callbacks}
use pyxxl.Runtime.Executor.Steps.{step-drops}
use pyxxl.Runtime.Executor.Effects.{drop_not_ended}
use pyxxl.Runtime.Executor.Progress.{step-after_end, step-after_drop}

-- What a hook does: it counts for a job and a reason, or it raises since the context has no trigger.
pub data Hook : Type 0 where
  counts : ℕ → String → Hook
  no_run_data : Hook

-- failed, through `g.xxl_run_data`
unfoldable pub failed : Option RunData → String → Hook
failed none reason = no_run_data
failed (some d) reason = counts d.job_id reason

-- _cleanup_task from the call of the hook on
unfoldable pub after_hook : Executor → ℕ → RunData → Hook → Executor
unfolding fail_callback
after_hook s t d (counts job reason) = finish (fail_callback s reason) t d
after_hook s t d no_run_data = s

-- _cleanup_task(push_cancel_callback=True) of an instrumented executor, by the trigger of the context
-- that its task has
unfoldable pub cleanup_instrumented : Executor → ℕ → ℕ → Task → Option RunData → Executor
unfolding failed after_hook
cleanup_instrumented s now t o context =
    let d = o.data_of in
    let marked = record s {
      objects = set s.objects t (record o { cleaned = true; ended = true });
    } in
    let pushed =
      push_callback marked d.log_id (callback_timestamp now d) 500
        (cancel_message o.cancel_reason) in
    if o.cleaned then s else after_hook pushed t d (failed context "cancelled")

-- _on_executor_task_done of an instrumented executor
unfoldable pub on_task_done_instrumented :
    Executor → ℕ → ℕ → Task → Bool → Option RunData → Executor
unfolding cleanup_instrumented
on_task_done_instrumented s now t o was_cancelled context =
    if not was_cancelled || o.started || o.cleaned
    then s
    else cleanup_instrumented s now t o context

-- In a context with a trigger the instrumented executor does what the other does.
hooked_same :
    (s : Executor) (now t : ℕ) (o : Task) (d : RunData)
    → on_task_done_instrumented s now t o true (some d) ≡ on_task_done s now t o true
unfolding on_task_done_instrumented on_task_done cleanup_task cleanup_object
hooked_same s now t o d = refl

object-data :
    (s : Executor) (t : ℕ) (o : Task) (u : ℕ)
    → get s.objects t ≡ some o
    → data_at (get (set s.objects t (record o { cleaned = true; ended = true })) u)
      ≡ data_at (get s.objects u)
object-data s t o u at =
    let o' = record o { cleaned = true; ended = true } in
    elim (Bool-cases (nat_beq t u)) [
      | inl e ↦
          rw (get-set s.objects t u o', e)
            (sym (ap data_at at) ∙ ap (λ x. data_at (get s.objects x)) ((nat_beq_iff t u).0 e))
      | inr e ↦ rw (get-set s.objects t u o', e) refl
    ]

-- What a raising hook leaves: the report was pushed, and the task object is marked as cleaned.
abbrev pub abandoned : Executor → ℕ → ℕ → Task → Executor
abandoned s now t o =
    let d = o.data_of in
    push_callback
      (record s { objects = set s.objects t (record o { cleaned = true; ended = true }) }) d.log_id
      (callback_timestamp now d) 500 (cancel_message o.cancel_reason)

hook_raises :
    (s : Executor) (now t : ℕ) (o : Task)
    → may_drop o ≡ true
    → o.cleaned ≡ false
    → on_task_done_instrumented s now t o true none ≡ abandoned s now t o
unfolding on_task_done_instrumented
hook_raises s now t o may live = ground (arith, may, live)

abandoned-states :
    (s : Executor) (now t : ℕ) (o : Task)
    → get s.objects t ≡ some o
    → (j : ℕ) → job_state (abandoned s now t o) j ≡ job_state s j
unfolding slot push_callback
abandoned-states s now t o at j = ap (state_of (slot s j)) (of_task (get s.tasks j))
  where
    of_task :
        (u : Option ℕ)
        → task_data (set s.objects t (record o { cleaned = true; ended = true })) u
          ≡ task_data s.objects u
    of_task none = refl
    of_task (some u) = object-data s t o u at

-- In a valid state, a task that was cancelled before its first step is reported once as failed by an
-- instrumented executor too. Where the context of its done callback has a trigger, the rest is as
-- without hooks. Where it has none, the hook raises and every job stays as it is, its own job busy:
-- afterwards neither an end nor a cancellation of the task does anything.
pub raising_failed_hook_blocks :
    (s : Executor) (now t : ℕ) (o : Task) (d : RunData)
    → IsValid s
    → get s.objects t ≡ some o
    → may_drop o ≡ true
    → (on_task_done_instrumented s now t o true (some d) ≡ step s (drops now t))
      × (let s' = on_task_done_instrumented s now t o true none in
          ((j : ℕ) → job_state s' j ≡ job_state s j)
          × (s'.pushed ≡ s.pushed ++ cleanup_callbacks now o true)
          × ((later : ℕ) (outcome : Outcome) → step s' (ends later t outcome) ≡ s')
          × ((later : ℕ) → step s' (drops later t) ≡ s'))
unfolding push_callback
raising_failed_hook_blocks s now t o d w at may =
    let live = w.owned.uncleaned t o at (drop_not_ended o may) in
    let e = hook_raises s now t o may live in
    let o' = record o { cleaned = true; ended = true } in
    let at' : get (abandoned s now t o).objects t ≡ some o' =
      ground (arith, get-set s.objects t t o') in
    (
      hooked_same s now t o d ∙ sym (step-drops s now t o at may),
      rw e (
        abandoned-states s now t o at,
        refl,
        step-after_end (abandoned s now t o) t o' at' refl,
        step-after_drop (abandoned s now t o) t o' at' refl,
      ),
    )
