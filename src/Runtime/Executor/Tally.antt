-- ===== src/Runtime/Executor/Tally.antt =====
-- The success and the failure hook of pyxxl/runtime/executor.py, against what is reported.
use mathlib.Core.List.{append-nil}
use pyxxl.Base.{
  ℕ, suc, ◌≡◌, refl, ap, sym, ◌∙◌, String, Bool, true, false, not, ◌||◌, Option, none, some, List,
  [], ◌∷◌, ◌++◌, get, set, nat_eq, if_intro, arith,
}
use pyxxl.Runtime.Executor.State.{
  Message, result, Callback, Task, Executor, callback_timestamp, push_callback,
}
use pyxxl.Runtime.Executor.Tasks.{
  Outcome, returned, cancelled, timed_out, raised, cancel_message, cleanup_object, cleanup_task,
  begin_run, report, succeed, report_exception, fail_callback, end_run, on_task_done,
}
use pyxxl.Runtime.Executor.Preserved.{run_job-keeps, cancel_job-keeps, finish-keeps}
use pyxxl.Runtime.Executor.Events.{
  Event, triggers, kills, begins, ends, drops, may_begin, may_end, may_drop, begin_at, end_at,
  drop_at, step, run, init,
}
use pyxxl.Runtime.Executor.Reports.{
  reasons, successes, reasons-append, successes-append, reason_of, hooked, IsTallied, failing,
  IsTallied-Keeps,
}

module _ (raises : Option String) where
  cancel_message-reason : (o : Option Message) → reason_of (cancel_message o) ≡ "cancelled" ∷ []
  unfolding cancel_message
  cancel_message-reason none = refl
  cancel_message-reason (some reason) = refl

  succeed-IsTallied :
      (s : Executor) (log time : ℕ) (text : String) (hook : Option String)
      → s.succeeded_raises ≡ hook
      → IsTallied raises s
      → IsTallied raises (succeed (push_callback s log time 200 (result text)) log time hook)
  unfolding succeed report_exception push_callback fail_callback reasons successes
  succeed-IsTallied s log time text hook e w = of_hook hook (sym w.hook ∙ e)
    where
      ok : Callback
      ok = record { log_id = log; timestamp = time; code = 200; msg = result text }

      told : s.failed ≡ reasons (s.pushed ++ ok ∷ [])
      told =
          w.failures ∙ sym (append-nil (reasons s.pushed)) ∙ sym (reasons-append s.pushed (ok ∷ []))

      of_hook :
          (hook : Option String)
          → raises ≡ hook
          → IsTallied raises (succeed (push_callback s log time 200 (result text)) log time hook)
      of_hook none e = record {
        hook = w.hook;
        failures = told;
        wins =
            ap suc (w.wins ∙ ap (λ r. hooked r (successes s.pushed)) e)
            ∙ ground (arith, successes-append s.pushed (ok ∷ []))
            ∙ sym (ap (λ r. hooked r (successes (s.pushed ++ ok ∷ []))) e);
      }
      of_hook (some raised_text) e =
          failing raises (push_callback s log time 200 (result text)) _ ("exception" ∷ []) refl refl
            (record {
              hook = w.hook;
              failures = told;
              wins =
                  w.wins
                  ∙ ap (λ r. hooked r (successes s.pushed)) e
                  ∙ sym (ap (λ r. hooked r (successes (s.pushed ++ ok ∷ []))) e);
            })

  report-IsTallied :
      (s : Executor) (now : ℕ) (o : Task) (outcome : Outcome)
      → IsTallied raises s
      → IsTallied raises (report s now o outcome)
  unfolding report report_exception push_callback fail_callback
  report-IsTallied s now o (returned text) w =
      succeed-IsTallied s o.data_of.log_id (callback_timestamp now o.data_of) text
        s.succeeded_raises refl w
  report-IsTallied s now o cancelled w =
      failing raises s _ ("cancelled" ∷ []) refl (cancel_message-reason o.cancel_reason) w
  report-IsTallied s now o timed_out w = failing raises s _ ("timeout" ∷ []) refl refl w
  report-IsTallied s now o (raised text) w = failing raises s _ ("exception" ∷ []) refl refl w

  cleanup_object-IsTallied :
      (s : Executor) (now t : ℕ) (o : Task) (push_cancel : Bool)
      → IsTallied raises s
      → IsTallied raises (cleanup_object s now t o push_cancel)
  unfolding cleanup_object push_callback fail_callback
  cleanup_object-IsTallied s now t o push_cancel w = of_flag push_cancel
    where
      marked : Executor
      marked = record s { objects = set s.objects t (record o { cleaned = true; ended = true }) }

      marked-IsTallied : IsTallied raises marked
      marked-IsTallied = record { hook = w.hook; failures = w.failures; wins = w.wins }

      of_flag : (b : Bool) → IsTallied raises (cleanup_object s now t o b)
      of_flag true = finish-keeps (IsTallied raises) (IsTallied-Keeps raises) _ t o.data_of (
          failing raises marked _ ("cancelled" ∷ []) refl (cancel_message-reason o.cancel_reason)
            marked-IsTallied)
      of_flag false =
          finish-keeps (IsTallied raises) (IsTallied-Keeps raises) _ t o.data_of marked-IsTallied

  cleanup_task-IsTallied :
      (s : Executor) (now t : ℕ) (o : Task) (push_cancel : Bool)
      → IsTallied raises s
      → IsTallied raises (cleanup_task s now t o push_cancel)
  unfolding cleanup_task
  cleanup_task-IsTallied s now t o push_cancel w =
      if_intro (IsTallied raises) o.cleaned _ _ (λ e. w)
        (λ e. cleanup_object-IsTallied s now t o push_cancel w)

  step-IsTallied : (s : Executor) (e : Event) → IsTallied raises s → IsTallied raises (step s e)
  unfolding step begin_at end_at drop_at begin_run end_run on_task_done
  step-IsTallied s (triggers now d) w =
      (run_job-keeps (IsTallied raises) (IsTallied-Keeps raises) s now d w).after
  step-IsTallied s (kills now job q reason) w =
      cancel_job-keeps (IsTallied raises) (IsTallied-Keeps raises) s now job q reason w
  step-IsTallied s (begins t) w = at (get s.objects t)
    where
      at : (o : Option Task) → IsTallied raises (begin_at s t o)
      at none = w
      at (some o) =
          if_intro (IsTallied raises) (may_begin o) _ _
            (λ may.
              if_intro (IsTallied raises) (s.handler o.data_of.executor_handler) _ _
                (λ h. record { hook = w.hook; failures = w.failures; wins = w.wins })
                (λ h. record { hook = w.hook; failures = w.failures; wins = w.wins }))
            (λ may. w)
  step-IsTallied s (ends now t outcome) w = at (get s.objects t)
    where
      at : (o : Option Task) → IsTallied raises (end_at s now t outcome o)
      at none = w
      at (some o) =
          if_intro (IsTallied raises) (may_end o) _ _
            (λ e. cleanup_task-IsTallied _ now t o false (report-IsTallied s now o outcome w))
            (λ e. w)
  step-IsTallied s (drops now t) w = at (get s.objects t)
    where
      at : (o : Option Task) → IsTallied raises (drop_at s now t o)
      at none = w
      at (some o) =
          if_intro (IsTallied raises) (may_drop o) _ _
            (λ e.
              if_intro (IsTallied raises) (not true || o.started || o.cleaned) _ _ (λ e. w)
                (λ e. cleanup_task-IsTallied s now t o true w))
            (λ e. w)

  run-IsTallied :
      (s : Executor) (es : List Event) → IsTallied raises s → IsTallied raises (run s es)
  unfolding run
  run-IsTallied s [] w = w
  run-IsTallied s (e ∷ es) w = run-IsTallied (step s e) es (step-IsTallied s e w)

-- Over any history of an executor: the failure hook was called exactly for the reports of triggers
-- that ran or were to run, once for each and in their order, with the reason that the report's
-- message has, and never for a trigger that was given up while it waited; the success hook returned
-- as often as a success was reported, and never where it raises.
pub hooks_follow_reports :
    (handler : String → Bool) (timeout bound : ℕ) (raises : Option String) (es : List Event)
    → let s = run (init handler timeout bound raises) es in
      (s.failed ≡ reasons s.pushed) × (s.succeeded ≡ hooked raises (successes s.pushed))
unfolding init reasons successes
hooks_follow_reports handler timeout bound raises es =
    let start : IsTallied raises (init handler timeout bound raises) = record {
      hook = refl;
      failures = refl;
      wins = of_hook raises;
    } in
    let w = run-IsTallied raises (init handler timeout bound raises) es start in
    (w.failures, w.wins)
  where
    of_hook : (o : Option String) → 0 ≡ hooked o 0
    of_hook none = refl
    of_hook (some e) = refl
