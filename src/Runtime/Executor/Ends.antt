-- ===== src/Runtime/Executor/Ends.antt =====
-- The three ways in which a task goes on: its first step, its end, and its end before a first step.
use mathlib.Core.Path.{ap₂}
use mathlib.Core.List.{append-nil}
use pyxxl.Base.{
  ℕ, suc, ◌≡◌, refl, sym, ap, subst, ◌∙◌, inl, inr, String, Bool, true, false, ◌||◌, Option, none,
  some, List, [], ◌∷◌, ◌++◌, get, set, nat_eq, Bool-cases, arith, if◌then◌else◌, string_eq,
}
use pyxxl.Model.{RunData}
use pyxxl.Runtime.Executor.State.{
  Message, Task, Callback, Executor, push_callback, callback_timestamp,
}
use pyxxl.Runtime.Executor.Slots.{slot, slot-current}
use pyxxl.Runtime.Executor.Invariant.{IsValid, current_data, task_data, data_at, job_state}
use pyxxl.Runtime.Executor.Landing.{IsChange-Lands, Lands}
use pyxxl.Runtime.Executor.Edits.{IsEdit, IsEdit-none, IsEdit-push, IsEdit-end}
use pyxxl.Runtime.Executor.State.{timeout_error, result}
use pyxxl.Runtime.Executor.Spec.{advance}
use pyxxl.Runtime.Executor.Edits.{IsEdit-finish, IsEdit-update, IsEdit-hooks}
use pyxxl.Runtime.Executor.Tasks.{
  Outcome, returned, cancelled, timed_out, raised, is_task, cancel_message, fail_callback,
  cleanup_object, cleanup_task, begin_run, report_exception, succeed, report, end_run, on_task_done,
}
use pyxxl.Runtime.Executor.Finish.{finish-Lands}

-- The callback that `_push_callback` makes.
abbrev pub callback : ℕ → RunData → ℕ → Message → Callback
callback now d code msg = record {
  log_id = d.log_id;
  timestamp = callback_timestamp now d;
  code = code;
  msg = msg;
}

-- The callbacks of a cleanup that reports a cancellation, or does not.
abbrev pub cleanup_callbacks : ℕ → Task → Bool → List Callback
cleanup_callbacks now o true = callback now o.data_of 500 (cancel_message o.cancel_reason) ∷ []
cleanup_callbacks now o false = []

-- The callbacks by which `_run` reports how a task ended; `raises` is what the success hook raises.
unfoldable pub run_callbacks : ℕ → Task → Option String → Outcome → List Callback
run_callbacks now o none (returned text) = callback now o.data_of 200 (result text) ∷ []
run_callbacks now o (some text') (returned text) =
    callback now o.data_of 200 (result text) ∷ callback now o.data_of 500 (result text') ∷ []
run_callbacks now o raises cancelled =
    callback now o.data_of 500 (cancel_message o.cancel_reason) ∷ []
run_callbacks now o raises timed_out = callback now o.data_of 500 timeout_error ∷ []
run_callbacks now o raises (raised text) = callback now o.data_of 500 (result text) ∷ []

pub done_task : Task → Task
done_task o = record o { cleaned = true; ended = true }

succeed_keeps :
    (s : Executor) (log time : ℕ) (x : Option String)
    → ((succeed s log time x).objects ≡ s.objects) × ((succeed s log time x).tasks ≡ s.tasks)
unfolding succeed report_exception push_callback fail_callback
succeed_keeps s log time none = (refl, refl)
succeed_keeps s log time (some text) = (refl, refl)

cleanup_task-once :
    (s : Executor) (now t : ℕ) (o : Task) (push_cancel : Bool)
    → o.cleaned ≡ false
    → cleanup_task s now t o push_cancel ≡ cleanup_object s now t o push_cancel
unfolding cleanup_task
cleanup_task-once s now t o push_cancel e =
    ap (λ b. if b then s else cleanup_object s now t o push_cancel) e

module _ (s : Executor) (w : IsValid s) (now t : ℕ) (o : Task)
    (task_t : get s.tasks o.data_of.job_id ≡ some t) (object_o : get s.objects t ≡ some o) where
  abbrev job : ℕ
  job = o.data_of.job_id

  busy_o : current_data s job ≡ some o.data_of
  busy_o = ap (task_data s.objects) task_t ∙ ap data_at object_o

  is_task_t : (c : Option ℕ) → c ≡ some t → is_task c t ≡ true
  unfolding is_task
  is_task_t c e = ground arith

  cleanup-Lands :
      (s₁ : Executor) (sent : List Callback) (push_cancel : Bool)
      → IsEdit s s₁ job (slot s job) sent
      → get s₁.objects t ≡ some o
      → get s₁.tasks job ≡ some t
      → Lands s
          (cleanup_object s₁ now t o push_cancel)
          job
          (advance (job_state s job))
          (sent ++ cleanup_callbacks now o push_cancel)
  unfolding cleanup_object push_callback fail_callback
  cleanup-Lands s₁ sent false e f g =
      rw (busy_o, append-nil sent)
        (finish-Lands s w o.data_of busy_o _ t sent (is_task_t (get s₁.tasks job) g)
          (IsEdit-finish e t o _ f refl refl refl g refl))
  cleanup-Lands s₁ sent true e f g = rw busy_o (
      finish-Lands s w o.data_of busy_o _ t _ (is_task_t (get s₁.tasks job) g) (
        IsEdit-hooks
          (IsEdit-push (IsEdit-finish e t o _ f refl refl refl g refl)
            (cleanup_callbacks now o true))
          s₁.succeeded (s₁.failed ++ "cancelled" ∷ [])))

  pushes :
      (more : List Callback)
      → IsEdit s (record s { pushed = s.pushed ++ more }) job (slot s job) more
  pushes more = IsEdit-push (IsEdit-none s job w) more

  -- The `except` clauses and the success path push their callbacks and change nothing else.
  report-IsEdit :
      (outcome : Outcome)
      → (raises : Option String) → s.succeeded_raises ≡ raises
      → IsEdit s (report s now o outcome) job (slot s job) (run_callbacks now o raises outcome)
  unfolding report succeed report_exception push_callback fail_callback run_callbacks
  report-IsEdit (returned text) none e =
      subst
        (λ x.
          IsEdit s
            (succeed
              (push_callback s o.data_of.log_id (callback_timestamp now o.data_of) 200
                (result text))
              o.data_of.log_id (callback_timestamp now o.data_of) x)
            job (slot s job) (run_callbacks now o none (returned text)))
        (sym e)
        (IsEdit-hooks (pushes (run_callbacks now o none (returned text))) (suc s.succeeded)
          s.failed)
  report-IsEdit (returned text) (some text') e =
      subst
        (λ x.
          IsEdit s
            (succeed
              (push_callback s o.data_of.log_id (callback_timestamp now o.data_of) 200
                (result text))
              o.data_of.log_id (callback_timestamp now o.data_of) x)
            job (slot s job) (run_callbacks now o (some text') (returned text)))
        (sym e)
        (IsEdit-hooks
          (IsEdit-push (pushes (callback now o.data_of 200 (result text) ∷ []))
            (callback now o.data_of 500 (result text') ∷ []))
          s.succeeded (s.failed ++ "exception" ∷ []))
  report-IsEdit cancelled raises e =
      IsEdit-hooks (pushes (run_callbacks now o raises cancelled)) s.succeeded
        (s.failed ++ "cancelled" ∷ [])
  report-IsEdit timed_out raises e =
      IsEdit-hooks (pushes (run_callbacks now o raises timed_out)) s.succeeded
        (s.failed ++ "timeout" ∷ [])
  report-IsEdit (raised text) raises e =
      IsEdit-hooks (pushes (run_callbacks now o raises (raised text))) s.succeeded
        (s.failed ++ "exception" ∷ [])

  report_objects :
      (outcome : Outcome)
      → ((report s now o outcome).objects ≡ s.objects) × ((report s now o outcome).tasks ≡ s.tasks)
  unfolding report push_callback fail_callback report_exception
  report_objects (returned text) = succeed_keeps _ _ _ s.succeeded_raises
  report_objects cancelled = (refl, refl)
  report_objects timed_out = (refl, refl)
  report_objects (raised text) = (refl, refl)

  not_cleaned : o.cleaned ≡ false
  not_cleaned = w.owned.live job t o task_t object_o

  -- A task that ends reports once, and what waits behind it starts.
  pub end_run-Lands :
      (outcome : Outcome)
      → Lands s
          (end_run s now t o outcome)
          job
          (advance (job_state s job))
          (run_callbacks now o s.succeeded_raises outcome)
  unfolding end_run
  end_run-Lands outcome =
      let s₁ = report s now o outcome in
      let sent = run_callbacks now o s.succeeded_raises outcome in
      rw (cleanup_task-once s₁ now t o false not_cleaned) (
        subst (Lands s (cleanup_object s₁ now t o false) job (advance (job_state s job)))
          (append-nil sent)
          (cleanup-Lands s₁ sent false (report-IsEdit outcome s.succeeded_raises refl)
            (ap (λ m. get m t) (report_objects outcome).0 ∙ object_o)
            (ap (λ m. get m job) (report_objects outcome).1 ∙ task_t)))

  -- A task that was cancelled before its first step is reported as cancelled.
  pub on_task_done-Lands :
      o.started ≡ false
      → Lands s
          (on_task_done s now t o true)
          job
          (advance (job_state s job))
          (cleanup_callbacks now o true)
  unfolding on_task_done
  on_task_done-Lands fresh =
      subst (λ u. Lands s u job (advance (job_state s job)) (cleanup_callbacks now o true))
        (sym (ap₂ (λ a b. if a || b then s else cleanup_task s now t o true) fresh not_cleaned))
        (rw (cleanup_task-once s now t o true not_cleaned)
          (cleanup-Lands s [] true (IsEdit-none s job w) object_o task_t))

  updates :
      (new : Task)
      → new.data_of ≡ o.data_of
      → new.cleaned ≡ o.cleaned
      → (new.ended ≡ false → o.ended ≡ false)
      → Lands s (record s { objects = set s.objects t new }) job (job_state s job) []
  updates new d c f = IsChange-Lands w (
      IsEdit-end (IsEdit-update (IsEdit-none s job w) t o new object_o d c f) (current_data s job)
        (w.jobs job) (ap (task_data s.objects) (slot-current s job)))

  -- The first step of a task changes no job.
  pub begin_run-Lands : Lands s (begin_run s t o) job (job_state s job) []
  unfolding begin_run
  begin_run-Lands = elim (Bool-cases (s.handler o.data_of.executor_handler)) [
    | inl e ↦ rw e (updates (record o { started = true }) refl refl (λ q. q))
    | inr e ↦ rw e (updates (record o { started = true; ended = true }) refl refl (λ q. cc))
  ]
