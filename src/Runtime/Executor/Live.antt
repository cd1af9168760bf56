-- ===== src/Runtime/Executor/Live.antt =====
-- A coroutine ends only by its cleanup, as long as its handler is known: a task object that was not
-- cleaned up has not ended.
use pyxxl.Base.{
  ℕ, ◌≡◌, refl, ap, subst, inl, inr, String, Bool, true, false, not, ◌||◌, Option, none, some, List,
  [], ◌∷◌, get, set, get-set, nat_eq, string_eq, nat_beq, Bool-cases, if_intro, arith,
}
use pyxxl.Model.{RunData}
use pyxxl.Runtime.Executor.State.{
  Message, result, callback_timestamp, Task, Executor, new_task, start_task, create_task,
  cancel_object, cancel_task, push_callback, push_failed_queued_tasks,
}
use pyxxl.Runtime.Executor.Tasks.{
  Outcome, returned, cancelled, timed_out, raised, cleanup_object, cleanup_task, begin_run, report,
  succeed, report_exception, fail_callback, end_run, on_task_done,
}
use pyxxl.Runtime.Executor.Preserved.{Core, Keeps, run_job-keeps, cancel_job-keeps, finish-keeps}
use pyxxl.Runtime.Executor.Events.{
  Event, triggers, kills, begins, ends, drops, may_begin, may_end, may_drop, begin_at, end_at,
  drop_at, step,
}

-- What was not cleaned up has not ended.
pub record IsLive (s : Executor) : Type 0 where
  pub live : (t : ℕ) (o : Task) → get s.objects t ≡ some o → o.cleaned ≡ false → o.ended ≡ false

-- The same objects, or one of them replaced by one for which it holds too.
same-IsLive : (s s' : Executor) → s'.objects ≡ s.objects → IsLive s → IsLive s'
same-IsLive s s' e w = record { live = λ t o at. w.live t o (subst (λ m. get m t ≡ some o) e at) }

set-IsLive :
    (s s' : Executor) (u : ℕ) (new : Task)
    → s'.objects ≡ set s.objects u new
    → (new.cleaned ≡ false → new.ended ≡ false)
    → IsLive s
    → IsLive s'
set-IsLive s s' u new e h w = record {
  live = λ t o at c.
      let at' : get (set s.objects u new) t ≡ some o = subst (λ m. get m t ≡ some o) e at in
      elim (Bool-cases (nat_beq u t)) [
        | inl same ↦ ground (arith, get-set s.objects u t new, at', same, c, h)
        | inr other ↦ ground (arith, get-set s.objects u t new, at', other, c, w.live t o)
      ];
}

start_task-IsLive : (s : Executor) (job : ℕ) (d : RunData) → IsLive s → IsLive (start_task s job d)
unfolding start_task create_task
start_task-IsLive s job d w =
    set-IsLive s (start_task s job d) s.next_task (new_task d) refl (λ c. refl) w

cancel_task-IsLive :
    (s : Executor) (t : ℕ) (reason : Message) → IsLive s → IsLive (cancel_task s t reason)
unfolding cancel_task cancel_object
cancel_task-IsLive s t reason w = at (get s.objects t) refl
  where
    at : (o : Option Task) → get s.objects t ≡ o → IsLive (cancel_object s t reason o)
    at none e = w
    at (some o) e = set-IsLive s _ t _ refl (λ c. w.live t o e c) w

objects-push_failed :
    (ds : List RunData) (s : Executor) (now : ℕ) (reason : Message)
    → (push_failed_queued_tasks s now ds reason).objects ≡ s.objects
unfolding push_failed_queued_tasks push_callback
objects-push_failed [] s now reason = refl
objects-push_failed (d ∷ ds) s now reason = objects-push_failed ds _ now reason

IsLive-Keeps : Keeps IsLive
IsLive-Keeps = record {
  moved = λ s s' e w. same-IsLive s s' (ap (λ (c : Core). c.objects) e) w;
  started = start_task-IsLive;
  cancelled = cancel_task-IsLive;
  refused = λ s now ds reason w. same-IsLive s _ (objects-push_failed ds s now reason) w;
}

cleanup_object-IsLive :
    (s : Executor) (now t : ℕ) (o : Task) (push_cancel : Bool)
    → IsLive s
    → IsLive (cleanup_object s now t o push_cancel)
unfolding cleanup_object push_callback fail_callback
cleanup_object-IsLive s now t o true w =
    finish-keeps IsLive IsLive-Keeps _ t o.data_of (set-IsLive s _ t _ refl (λ c. absurd (cc c)) w)
cleanup_object-IsLive s now t o false w =
    finish-keeps IsLive IsLive-Keeps _ t o.data_of (set-IsLive s _ t _ refl (λ c. absurd (cc c)) w)

cleanup_task-IsLive :
    (s : Executor) (now t : ℕ) (o : Task) (push_cancel : Bool)
    → IsLive s
    → IsLive (cleanup_task s now t o push_cancel)
unfolding cleanup_task
cleanup_task-IsLive s now t o push_cancel w =
    if_intro IsLive o.cleaned _ _ (λ e. w) (λ e. cleanup_object-IsLive s now t o push_cancel w)

objects-report :
    (s : Executor) (now : ℕ) (o : Task) (outcome : Outcome)
    → (report s now o outcome).objects ≡ s.objects
unfolding report succeed report_exception push_callback fail_callback
objects-report s now o (returned text) = of_hook s.succeeded_raises
  where
    of_hook :
        (hook : Option String)
        → (succeed
            (push_callback s o.data_of.log_id (callback_timestamp now o.data_of) 200 (result text))
            o.data_of.log_id
            (callback_timestamp now o.data_of)
            hook).objects
          ≡ s.objects
    of_hook none = refl
    of_hook (some e) = refl
objects-report s now o cancelled = refl
objects-report s now o timed_out = refl
objects-report s now o (raised text) = refl

-- A step keeps this, when a coroutine that begins has a known handler.
pub step-IsLive :
    (s : Executor) (e : Event)
    → ((t : ℕ) (o : Task)
        → get s.objects t ≡ some o
        → may_begin o ≡ true
        → s.handler o.data_of.executor_handler ≡ true)
    → IsLive s
    → IsLive (step s e)
unfolding step begin_at end_at drop_at begin_run end_run on_task_done
step-IsLive s (triggers now d) known w = (run_job-keeps IsLive IsLive-Keeps s now d w).after
step-IsLive s (kills now job q reason) known w =
    cancel_job-keeps IsLive IsLive-Keeps s now job q reason w
step-IsLive s (begins t) known w = at (get s.objects t) refl
  where
    at : (o : Option Task) → get s.objects t ≡ o → IsLive (begin_at s t o)
    at none e = w
    at (some o) e =
        if_intro IsLive (may_begin o) _ _
          (λ may.
            if_intro IsLive (s.handler o.data_of.executor_handler) _ _
              (λ h. set-IsLive s _ t _ refl (w.live t o e) w)
              (λ h. absurd (cc (h, known t o e may))))
          (λ may. w)
step-IsLive s (ends now t outcome) known w = at (get s.objects t)
  where
    at : (o : Option Task) → IsLive (end_at s now t outcome o)
    at none = w
    at (some o) =
        if_intro IsLive (may_end o) _ _
          (λ e.
            cleanup_task-IsLive _ now t o false
              (same-IsLive s _ (objects-report s now o outcome) w))
          (λ e. w)
step-IsLive s (drops now t) known w = at (get s.objects t)
  where
    at : (o : Option Task) → IsLive (drop_at s now t o)
    at none = w
    at (some o) =
        if_intro IsLive (may_drop o) _ _
          (λ e.
            if_intro IsLive (not true || o.started || o.cleaned) _ _ (λ e. w)
              (λ e. cleanup_task-IsLive s now t o true w))
          (λ e. w)
