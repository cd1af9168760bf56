-- ===== src/App/Outcome.antt =====
-- How the cleanup of an application ends, and what it leaves.
use pyxxl.Base.{
  take, ℕ, ◌≡◌, refl, String, Bool, true, false, ◌&&◌, Option, none, some, List, [], ◌∷◌,
  if◌then◌else◌, arith, keys, contains, is_empty,
}
use pyxxl.Protocol.Admin.{PostError}
use pyxxl.Runtime.Executor.State.{Message, shut_down, Executor}
use pyxxl.Runtime.Executor.Jobs.{job_ids, has_work}
use pyxxl.Runtime.Executor.Events.{kills}
use pyxxl.Runtime.Executor.Spec.{idle}
use pyxxl.Runtime.Executor.Invariant.{job_state}
use pyxxl.Runtime.Callbacks.Worker.{stops, drains, times_out}
use pyxxl.Runtime.Callbacks.Closed.{IsClosed, stops-IsClosed, step-IsClosed, step-started}
use pyxxl.Runtime.System.Closing.{late_reports_lost, run-started}
use pyxxl.Runtime.Executor.Shutdown.{state-of-keys}
use pyxxl.Runtime.System.{System, Event, schedules, manages, step, run}
use pyxxl.App.Runner.{App}
use pyxxl.App.Cleanup.{
  Turn, Waits, Halt, removal_failed, still_busy, task_raised, still_waiting, is_halted, all_ended,
  stop_callback_manager, cancel_each, shutdown, graceful_close, and_close, close_executor, cleanup,
}

module _ (text : Message → Option String) where
  -- Every task that a shutdown cancelled has ended.
  abbrev pub Ended : Waits → System → Type 0
  Ended w s =
      let s₁ = run text s w.settling in
      let (ts, s₂) = cancel_each text (job_ids s₁.executor) w.turns s₁ in
      all_ended (run text s₂ w.awaiting).executor ts ≡ true

  -- What a cleanup leaves, by how it ends.
  abbrev pub Leaves : Bool → Option PostError → Waits → App → Option Halt → App → Type 0
  Leaves graceful removal w a none b =
      let s = run text a.system w.removing in
      (removal ≡ none)
      × IsClosed b.system.callback_manager
      × (b.client_open ≡ false)
      × ((j : ℕ) → (if graceful then job_state (run text s w.closing).executor j else idle) ≡ idle)
      × (if graceful then (w.timed_out ≡ false) else Ended w s)
  Leaves graceful removal w a (some (removal_failed e)) b =
      (removal ≡ some e)
      × (b.system ≡ run text a.system w.removing)
      × (b.client_open ≡ a.client_open)
  Leaves graceful removal w a (some still_busy) b =
      (removal ≡ none)
      × (graceful ≡ true)
      × (w.timed_out ≡ true)
      × (b.system ≡ run text (run text a.system w.removing) w.closing)
      × (b.client_open ≡ a.client_open)
  Leaves graceful removal w a (some (task_raised e)) b =
      (removal ≡ none)
      × (graceful ≡ false)
      × (b.system ≡ (shutdown text (run text a.system w.removing) w).1)
      × (b.client_open ≡ a.client_open)
  Leaves graceful removal w a (some still_waiting) b =
      (removal ≡ none)
      × (b.system ≡ (
          if graceful
          then run text (run text a.system w.removing) w.closing
          else (shutdown text (run text a.system w.removing) w).1))
      × (b.client_open ≡ a.client_open)

-- Without work every job is idle.
has_work-idle : (s : Executor) → has_work s ≡ false → (j : ℕ) → job_state s j ≡ idle
unfolding has_work contains
has_work-idle s h j = state-of-keys s j (contains_none (keys s.tasks) j (ground (arith, h)))
  where
    contains_none : (ks : List ℕ) (j : ℕ) → is_empty ks ≡ true → contains ks j ≡ false
    contains_none [] j e = refl
    contains_none (k ∷ ks) j e = absurd (cc e)

module _ (text : Message → Option String) where
  stop-IsClosed :
      (s : System) (es : List Event) (drained : Bool)
      → s.callback_manager.started ≡ true
      → IsClosed (stop_callback_manager text s true es drained).callback_manager
  unfolding stop_callback_manager
  stop-IsClosed s es drained on =
      let s₁ = step text s (manages (stops true)) in
      let closed = stops-IsClosed s.callback_manager on in
      let s₂ = run text s₁ es in
      let still = (late_reports_lost text 0 s₁ es closed).1 in
      step-IsClosed s₂.callback_manager (if drained then drains else times_out) still

  stop-started :
      (s : System) (es : List Event) (drained : Bool)
      → s.callback_manager.started ≡ true
      → (stop_callback_manager text s false es drained).callback_manager.started ≡ true
  unfolding stop_callback_manager
  stop-started s es drained on =
      let s₁ = step text s (manages (stops false)) in
      step-started (run text s₁ es).callback_manager (if drained then drains else times_out)
        (run-started text s₁ es (step-started s.callback_manager (stops false) on))

  -- What `close_executor` leaves, where a client is open.
  abbrev Closes : Bool → Waits → App → App → Option Halt × System → Type 0
  Closes graceful w a b r =
      Leaves text graceful none w a r.0
        (record b { system = r.1; client_open = b.client_open && is_halted text r.0 })

  Closes-gracefully :
      (w : Waits) (a b : App)
      → a.system.callback_manager.started ≡ true
      → b.client_open ≡ a.client_open
      → Closes true w a b (close_executor text true (run text a.system w.removing) w)
  unfolding close_executor graceful_close
  Closes-gracefully w a b on same = go w.timed_out refl (has_work s₁.executor) refl
    where
      s₁ : System
      s₁ = run text (run text a.system w.removing) w.closing

      go :
          (late : Bool)
          → w.timed_out ≡ late
          → (busy : Bool) → has_work s₁.executor ≡ busy
          → Closes true w a b (
              and_close text
                (if late
                  then (some still_busy, s₁)
                  else if busy
                  then (some still_waiting, s₁)
                  else (none, stop_callback_manager text s₁ false w.flushing w.flushed))
                w)
      go true l busy e = (refl, refl, l, refl, ground (arith, same))
      go false l true e = (refl, refl, ground (arith, same))
      go false l false e = (
        refl,
        stop-IsClosed (stop_callback_manager text s₁ false w.flushing w.flushed) w.stopping
            w.stopped
            (stop-started s₁ w.flushing w.flushed (
              run-started text (run text a.system w.removing) w.closing
                (run-started text a.system w.removing on))),
        ground arith,
        has_work-idle s₁.executor e,
        l,
      )

  cancel_each-started :
      (jobs : List ℕ) (turns : ℕ → Turn) (s : System)
      → s.callback_manager.started ≡ true
      → (cancel_each text jobs turns s).1.callback_manager.started ≡ true
  unfolding cancel_each
  cancel_each-started [] turns s on = on
  cancel_each-started (job ∷ jobs) turns s on =
      let s₁ = run text s (turns job).before in
      let e = schedules (kills (turns job).now job true shut_down) in
      cancel_each-started jobs turns (step text s₁ e)
        (run-started text s₁ (e ∷ []) (run-started text s (turns job).before on))

  -- How a shutdown comes out.
  abbrev ComesOut : Waits → System → Option Halt × System → Type 0
  ComesOut w s (none, s') = Ended text w s × (s'.callback_manager.started ≡ true)
  ComesOut w s (some (task_raised e), s') = s'.callback_manager.started ≡ true
  ComesOut w s (some still_waiting, s') = s'.callback_manager.started ≡ true
  ComesOut w s (some _, s') = false ≡ true

  shutdown-ComesOut :
      (w : Waits) (s : System)
      → s.callback_manager.started ≡ true
      → ComesOut w s (shutdown text s w)
  unfolding shutdown
  shutdown-ComesOut w s on = of_failing w.failing
    where
      s₁ : System
      s₁ = run text s w.settling

      settled : s₁.callback_manager.started ≡ true
      settled = run-started text s w.settling on

      cancelled : List ℕ × System
      cancelled = cancel_each text (job_ids s₁.executor) w.turns s₁

      s₃ : System
      s₃ = run text cancelled.1 w.awaiting

      still_on : s₃.callback_manager.started ≡ true
      still_on =
          run-started text cancelled.1 w.awaiting
            (cancel_each-started (job_ids s₁.executor) w.turns s₁ settled)

      of_ended :
          (b : Bool)
          → all_ended s₃.executor cancelled.0 ≡ b
          → ComesOut w s (if b then none else some still_waiting, s₃)
      of_ended true e = (e, still_on)
      of_ended false e = still_on

      of_failing :
          (f : Option (ℕ × String))
          → ComesOut w s (elim f [
            | some (n, e) ↦
                let (ts, s₂) = cancel_each text (take n (job_ids s₁.executor)) w.turns s₁ in
                (some (task_raised e), run text s₂ w.awaiting)
            | none ↦ (if all_ended s₃.executor cancelled.0 then none else some still_waiting, s₃)
          ])
      of_failing none = of_ended (all_ended s₃.executor cancelled.0) refl
      of_failing (some (n, e)) =
          run-started text (cancel_each text (take n (job_ids s₁.executor)) w.turns s₁).1 w.awaiting
            (cancel_each-started (take n (job_ids s₁.executor)) w.turns s₁ settled)

  Closes-at_once :
      (w : Waits) (a b : App)
      → a.system.callback_manager.started ≡ true
      → b.client_open ≡ a.client_open
      → Closes false w a b (close_executor text false (run text a.system w.removing) w)
  unfolding close_executor
  Closes-at_once w a b on same =
      go (shutdown text s w).0 (shutdown text s w).1
        (shutdown-ComesOut w s (run-started text a.system w.removing on)) refl
    where
      s : System
      s = run text a.system w.removing

      go :
          (r : Option Halt) (s' : System)
          → ComesOut w s (r, s')
          → s' ≡ (shutdown text s w).1
          → Closes false w a b (and_close text (r, s') w)
      go none s' h e =
          (refl, stop-IsClosed s' w.stopping w.stopped h.1, ground arith, λ j. refl, h.0)
      go (some (removal_failed x)) s' h e = absurd (cc h)
      go (some still_busy) s' h e = absurd (cc h)
      go (some (task_raised x)) s' h e = (refl, refl, e, ground (arith, same))
      go (some still_waiting) s' h e = (refl, e, ground (arith, same))

  -- For an application whose callback manager was started, whatever falls into the waits of its
  -- cleanup: when the cleanup comes to its end, `registryRemove` raised no exception, the callback
  -- manager is closed, the client is closed, and before the close every job was idle after a graceful
  -- wait, or every task that the shutdown cancelled had ended. When `registryRemove` raised, when the
  -- graceful wait timed out, when a task that the shutdown awaited raised, and while a wait for tasks
  -- goes on, the executor and the manager are as these waits left them, and the client as it was.
  pub cleanup_outcome :
      (graceful : Bool) (removal : Option PostError) (w : Waits) (a : App)
      → a.system.callback_manager.started ≡ true
      → Leaves text graceful removal w a
          (cleanup text graceful removal w a).0
          (cleanup text graceful removal w a).1
  unfolding cleanup
  cleanup_outcome graceful (some e) w a on = (refl, refl, refl)
  cleanup_outcome true none w a on =
      Closes-gracefully w a
        (record a {
          system = run text a.system w.removing;
          register_task = false;
          log_task = false;
        })
        on refl
  cleanup_outcome false none w a on =
      Closes-at_once w a
        (record a {
          system = run text a.system w.removing;
          register_task = false;
          log_task = false;
        })
        on refl
