-- ===== src/Runtime/System/Closing.antt =====
-- What the executor reports after the callback manager was closed.
use pyxxl.Base.{ℕ, ◌+◌, ◌≤◌, ◌≡◌, refl, ap, ◌∙◌, String, Option, List, [], ◌∷◌, arith, true}
use pyxxl.Runtime.Executor.State.{Message, Callback}
use pyxxl.Runtime.Executor.Events.{step as schedule, run as schedule_all}
use pyxxl.Runtime.Executor.Accounting.{new_callbacks}
use pyxxl.Runtime.Callbacks.State.{Manager}
use pyxxl.Runtime.Callbacks.Worker.{new_request, enqueues, step as manage}
use pyxxl.Runtime.Callbacks.Held.{held_of}
use pyxxl.Runtime.Callbacks.Closed.{
  IsClosed, step-Shrinks, step-IsClosed, enqueue-closed, step-started,
}
use pyxxl.Runtime.System.{System, Event, schedules, manages, push, push_all, step, run}
use pyxxl.Runtime.System.Delivery.{delivered_in, scheduled}

module _ (text : Message → Option String) where
  pub push_all-closed :
      (m : Manager) (cs : List Callback) → m.closed ≡ true → push_all text m cs ≡ m
  unfolding push_all push
  push_all-closed m [] shut = refl
  push_all-closed m (c ∷ cs) shut =
      let e = enqueue-closed m (new_request c.log_id c.timestamp c.code (text c.msg)) shut in
      ap (λ n. push_all text n cs) e ∙ push_all-closed m cs shut

  pub step-IsClosed-manager :
      (s : System) (e : Event)
      → IsClosed s.callback_manager
      → IsClosed (step text s e).callback_manager
  unfolding step
  step-IsClosed-manager s (schedules e) w =
      let same =
        push_all-closed s.callback_manager (new_callbacks s.executor (schedule s.executor e))
          w.shut in
      record {
        shut = ap (λ (m : Manager). m.closed) same ∙ w.shut;
        started = ap (λ (m : Manager). m.started) same ∙ w.started;
      }
  step-IsClosed-manager s (manages e) w = step-IsClosed s.callback_manager e w

  -- the executor goes its own way
  pub run-executor :
      (s : System) (es : List Event)
      → (run text s es).executor ≡ schedule_all s.executor (scheduled es)
  unfolding run step scheduled schedule_all
  run-executor s [] = refl
  run-executor s (schedules e ∷ es) = run-executor (step text s (schedules e)) es
  run-executor s (manages e ∷ es) = run-executor (step text s (manages e)) es

  delivers_less :
      (l : ℕ) (s : System) (es : List Event)
      → IsClosed s.callback_manager
      → (delivered_in text l s es + held_of l (run text s es).callback_manager
          ≤ held_of l s.callback_manager)
        × IsClosed (run text s es).callback_manager
  unfolding run step delivered_in
  delivers_less l s [] w = (omega arith, w)
  delivers_less l s (schedules e ∷ es) w =
      let s₁ = step text s (schedules e) in
      let rest = delivers_less l s₁ es (step-IsClosed-manager s (schedules e) w) in
      let same =
        push_all-closed s.callback_manager (new_callbacks s.executor (schedule s.executor e))
          w.shut in
      (omega (arith, rest.0, ap (held_of l) same), rest.1)
  delivers_less l s (manages e ∷ es) w =
      let s₁ = step text s (manages e) in
      let rest = delivers_less l s₁ es (step-IsClosed-manager s (manages e) w) in
      (omega (arith, rest.0, (step-Shrinks l s.callback_manager e w).fewer), rest.1)

  -- Once a manager that was started is closed, over every history of the executor and the manager:
  -- what is delivered to the admin and held for a log id is at most what was held when it was closed,
  -- and the manager stays closed, while the executor runs as it would with an open one: what it
  -- reports then is lost.
  pub late_reports_lost :
      (l : ℕ) (s : System) (es : List Event)
      → IsClosed s.callback_manager
      → (delivered_in text l s es + held_of l (run text s es).callback_manager
          ≤ held_of l s.callback_manager)
        × IsClosed (run text s es).callback_manager
        × ((run text s es).executor ≡ schedule_all s.executor (scheduled es))
  late_reports_lost l s es w = let b = delivers_less l s es w in (b.0, b.1, run-executor s es)

  pub push_all-started :
      (m : Manager) (cs : List Callback) → m.started ≡ true → (push_all text m cs).started ≡ true
  unfolding push_all push manage
  push_all-started m [] on = on
  push_all-started m (c ∷ cs) on =
      push_all-started (push text m c) cs
        (step-started m (enqueues c.log_id c.timestamp c.code (text c.msg)) on)

  -- a manager that was started stays so in every history
  pub run-started :
      (s : System) (es : List Event)
      → s.callback_manager.started ≡ true
      → (run text s es).callback_manager.started ≡ true
  unfolding run step
  run-started s [] on = on
  run-started s (schedules e ∷ es) on =
      run-started (step text s (schedules e)) es
        (push_all-started s.callback_manager (new_callbacks s.executor (schedule s.executor e)) on)
  run-started s (manages e ∷ es) on =
      run-started (step text s (manages e)) es (step-started s.callback_manager e on)
