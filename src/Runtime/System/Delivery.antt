-- ===== src/Runtime/System/Delivery.antt =====
-- From a trigger to the admin: each accepted trigger is held by the executor, held by the manager,
-- or its one callback was delivered.
use pyxxl.Base.{
  ℕ, ◌+◌, ◌≡◌, String, true, false, Option, none, List, [], ◌∷◌, nat_beq, count, nat_eq,
}
use pyxxl.Runtime.Executor.State.{Message, Executor}
use pyxxl.Runtime.Executor.Events.{
  Event as Schedule, triggers, step as schedule, init as new_executor,
}
use pyxxl.Runtime.Executor.Spec.{ids}
use pyxxl.Runtime.Executor.Invariant.{IsValid, job_state}
use pyxxl.Runtime.Callbacks.Worker.{init as new_manager}
use pyxxl.Runtime.Callbacks.Held.{IsRunning, is_regular, delivered_by}
use pyxxl.Runtime.System.{System, Event, schedules, manages, step}

-- The triggers with the log id are of one job.
abbrev pub Belongs : ℕ → ℕ → Schedule → Type 0
Belongs j l (triggers now d) = nat_beq d.log_id l ≡ true → d.job_id ≡ j
Belongs j l _ = Unit

-- Events of the executor whose triggers with the log id are of one job, and events of the manager
-- that are regular.
abbrev pub IsRegular : ℕ → ℕ → Event → Type 0
IsRegular j l (schedules e) = Belongs j l e
IsRegular j l (manages e) = is_regular e ≡ true

-- The stretches of the executor in a history.
unfoldable pub scheduled : List Event → List Schedule
scheduled [] = []
scheduled (schedules e ∷ es) = e ∷ scheduled es
scheduled (manages e ∷ es) = scheduled es

-- No other job holds the log id.
Alone : ℕ → ℕ → Executor → Type 0
Alone j l s = (k : ℕ) → nat_beq k j ≡ false → count l (ids (job_state s k)) ≡ 0

module _ (text : Message → Option String) where
  -- the requests with the log id that were delivered to the admin
  unfoldable pub delivered_in : ℕ → System → List Event → ℕ
  delivered_in l s [] = 0
  delivered_in l s (schedules e ∷ es) = delivered_in l (step text s (schedules e)) es
  delivered_in l s (manages e ∷ es) =
      delivered_by l s.callback_manager e + delivered_in l (step text s (manages e)) es

  module _ (j l : ℕ) where
    record IsSound (s : System) : Type 0 where
      pub valid : IsValid s.executor
      pub quiet : s.executor.succeeded_raises ≡ none
      pub alone : Alone j l s.executor
      pub running : IsRunning s.callback_manager
