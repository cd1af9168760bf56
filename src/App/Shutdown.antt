-- ===== src/App/Shutdown.antt =====
-- What `shutdown` of pyxxl/runtime/executor.py leaves at every job, with the waits inside it.
use pyxxl.Base.{
  ℕ, ◌≡◌, refl, sym, ap, subst, ◌∙◌, inl, inr, String, true, false, Option, none, List, [], ◌∷◌,
  All, Bool-cases, contains, keys, nat_eq, nat_beq, arith,
}
use pyxxl.Runtime.Executor.State.{Message, shut_down, Executor}
use pyxxl.Runtime.Executor.Jobs.{cancel_job, union, job_ids}
use pyxxl.Runtime.Executor.Events.{Event as Schedule, kills, step as schedule, run as schedule_all}
use pyxxl.Runtime.Executor.Invariant.{IsValid, job_state}
use pyxxl.Runtime.Executor.Kill.{cancel_job-Lands}
use pyxxl.Runtime.Executor.Steps.{step-Lands, run-IsValid}
use pyxxl.Runtime.Executor.Shutdown.{
  contains-union, state-of-keys, IsCancelled, cancel_hits, cancel_keeps,
}
use pyxxl.Runtime.Executor.Stopped.{
  nothing_waits, is_own, give_up-nothing_waits, IsStopped, idle-IsStopped, own-IsStopped,
}
use pyxxl.Runtime.System.{System, Event, schedules, step, run}
use pyxxl.Runtime.System.Delivery.{scheduled}
use pyxxl.Runtime.System.Closing.{run-executor}
use pyxxl.App.Cleanup.{Turn, Waits, cancel_each, shutdown}

own_run-IsStopped :
    (es : List Schedule) (s : Executor) (j : ℕ)
    → IsValid s
    → All (λ e. is_own e ≡ true) es
    → IsStopped s j
    → IsStopped (schedule_all s es) j
unfolding schedule_all
own_run-IsStopped [] s j w own c = c
own_run-IsStopped (e ∷ es) s j w own c =
    own_run-IsStopped es (schedule s e) j (step-Lands s w e).valid own.1
      (own-IsStopped s e j w own.0 c)

-- The cancellation of a job stops it, and leaves another one stopped.
kill-IsStopped :
    (s : Executor) (now k j : ℕ)
    → IsValid s
    → (nat_beq k j ≡ false → IsStopped s j)
    → IsStopped (cancel_job s now k true shut_down) j
kill-IsStopped s now k j w c =
    let moves = (cancel_job-Lands s now k true shut_down w).moves j in
    elim (Bool-cases (nat_beq k j)) [
      | inl e ↦
          let same : k ≡ j = ground arith in
          record {
            waiting =
                ap nothing_waits moves ∙ ground (arith, e, give_up-nothing_waits (job_state s k));
            current =
                subst (IsCancelled (cancel_job s now k true shut_down)) same (cancel_hits s now k);
          }
      | inr e ↦ record {
        waiting = ap nothing_waits moves ∙ ground (arith, e, (c e).waiting);
        current = cancel_keeps s now k j (c e).current;
      }
    ]

module _ (text : Message → Option String) where
  -- The events of the tasks between the cancellations.
  abbrev pub OwnOnly : List Event → Type 0
  OwnOnly es = All (λ e. is_own e ≡ true) (scheduled es)

  run-IsValid_system :
      (s : System) (es : List Event) → IsValid s.executor → IsValid (run text s es).executor
  run-IsValid_system s es w =
      subst IsValid (sym (run-executor text s es)) (run-IsValid s.executor (scheduled es) w)

  run-IsStopped :
      (s : System) (es : List Event) (j : ℕ)
      → IsValid s.executor
      → OwnOnly es
      → IsStopped s.executor j
      → IsStopped (run text s es).executor j
  run-IsStopped s es j w own c =
      subst (λ x. IsStopped x j) (sym (run-executor text s es))
        (own_run-IsStopped (scheduled es) s.executor j w own c)

  cancel_each-IsValid :
      (jobs : List ℕ) (turns : ℕ → Turn) (s : System)
      → IsValid s.executor
      → IsValid (cancel_each text jobs turns s).1.executor
  unfolding cancel_each step schedule
  cancel_each-IsValid [] turns s w = w
  cancel_each-IsValid (k ∷ jobs) turns s w =
      let s₁ = run text s (turns k).before in
      cancel_each-IsValid jobs turns
        (step text s₁ (schedules (kills (turns k).now k true shut_down)))
        (cancel_job-Lands s₁.executor (turns k).now k true shut_down
          (run-IsValid_system s (turns k).before w)).valid

  cancel_each-IsStopped :
      (jobs : List ℕ) (turns : ℕ → Turn) (s : System) (j : ℕ)
      → ((job : ℕ) → OwnOnly (turns job).before)
      → IsValid s.executor
      → (contains jobs j ≡ false → IsStopped s.executor j)
      → IsStopped (cancel_each text jobs turns s).1.executor j
  unfolding cancel_each step schedule contains
  cancel_each-IsStopped [] turns s j own w c = c refl
  cancel_each-IsStopped (k ∷ jobs) turns s j own w c =
      let s₁ = run text s (turns k).before in
      let v = run-IsValid_system s (turns k).before w in
      cancel_each-IsStopped jobs turns
        (step text s₁ (schedules (kills (turns k).now k true shut_down))) j own
        (cancel_job-Lands s₁.executor (turns k).now k true shut_down v).valid
        (λ miss.
          kill-IsStopped s₁.executor (turns k).now k j v
            (λ e. run-IsStopped s (turns k).before j w (own k) (c (ground (arith, e, miss)))))

  -- A shutdown of a valid executor, with anything in its first wait: when behind its look at the
  -- jobs only the tasks' own coroutines and the callback manager go on, up to and between its
  -- cancellations and while it waits for the tasks, and no task that it awaits raises, then nothing
  -- waits at any job, in its queue or as a replacement, and the current task of every job that has one
  -- is being cancelled or has ended.
  pub shutdown_stops_all :
      (s : System) (w : Waits)
      → IsValid s.executor
      → w.failing ≡ none
      → ((job : ℕ) → OwnOnly (w.turns job).before)
      → OwnOnly w.awaiting
      → (j : ℕ) → IsStopped (shutdown text s w).1.executor j
  unfolding shutdown job_ids
  shutdown_stops_all s w v whole own after j =
      let s₁ = run text s w.settling in
      let v₁ = run-IsValid_system s w.settling v in
      let jobs = job_ids s₁.executor in
      let others = union (keys s₁.executor.queue) (keys s₁.executor.cover_replacements) in
      let (ts, s₂) = cancel_each text jobs w.turns s₁ in
      let stopped = cancel_each-IsStopped jobs w.turns s₁ j own v₁ (λ miss.
        idle-IsStopped s₁.executor j v₁ (
          state-of-keys s₁.executor j
            (ground (arith, miss, contains-union (keys s₁.executor.tasks) others j)))) in
      let goal =
        run-IsStopped s₂ w.awaiting j (cancel_each-IsValid jobs w.turns s₁ v₁) after stopped in
      rw whole goal
