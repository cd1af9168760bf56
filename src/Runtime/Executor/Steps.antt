-- ===== src/Runtime/Executor/Steps.antt =====
-- Each event of the executor lands where the specification of its job says; so every history keeps
-- the invariant.
use pyxxl.Base.{
  ℕ, ◌≡◌, refl, ap, ◌∙◌, inl, inr, String, Bool, true, false, Option, none, some, List, [], ◌∷◌,
  get, Bool-cases, nat_eq, get-empty, arith, if◌then◌else◌,
}
use pyxxl.Model.{RunData}
use pyxxl.Runtime.Executor.State.{Task, Callback, Executor}
use pyxxl.Runtime.Executor.Tasks.{Outcome, end_run, on_task_done}
use pyxxl.Runtime.Executor.Jobs.{run_job}
use pyxxl.Runtime.Executor.Events.{
  Event, triggers, kills, begins, ends, drops, may_begin, may_end, may_drop, begin_at, end_at,
  drop_at, step, run, init,
}
use pyxxl.Runtime.Executor.Spec.{JobState, idle, advance}
use pyxxl.Runtime.Executor.Slots.{slot}
use pyxxl.Runtime.Executor.Entries.{empty_slot, IsGood-empty}
use pyxxl.Runtime.Executor.Invariant.{IsValid, job_state}
use pyxxl.Runtime.Executor.Landing.{Lands, IsSame, IsSame-refuses}
use pyxxl.Runtime.Executor.Submit.{run_job-Does, run_job-unknown}
use pyxxl.Runtime.Executor.Kill.{cancel_job-Lands}
use pyxxl.Runtime.Executor.Ends.{end_run-Lands, on_task_done-Lands, begin_run-Lands}
use pyxxl.Runtime.Executor.Effects.{
  task_job, job_of, passes, after_event, end_callbacks, drop_callbacks, sent_by, begin_not_ended,
  end_not_ended, drop_not_ended, drop_not_started,
}

module _ (s : Executor) (w : IsValid s) where
  same : IsSame s s
  same = record { slots = λ j. refl; rest = refl }

  trigger-Lands :
      (now : ℕ) (d : RunData)
      → Lands s
          (run_job s now d).1
          d.job_id
          (after_event s (triggers now d) (job_state s d.job_id))
          (sent_by s (triggers now d) (job_state s d.job_id))
  trigger-Lands now d = elim (Bool-cases (s.handler d.executor_handler)) [
    | inl e ↦ rw e (run_job-Does s now d w e).lands
    | inr e ↦ rw (run_job-unknown s now d e, e) (IsSame-refuses same d.job_id w)
  ]

  pub owns :
      (t : ℕ) (o : Task)
      → get s.objects t ≡ some o
      → o.ended ≡ false
      → get s.tasks o.data_of.job_id ≡ some t
  owns t o e f = w.owned.owner t o e (w.owned.uncleaned t o e f)

  -- a guarded stretch, which does nothing where the guard fails
  guarded :
      (b : Bool) (u : Executor) (k : ℕ) (after : JobState) (sent : List Callback)
      → (b ≡ true → Lands s u k after sent)
      → Lands s (if b then u else s) k (if b then after else job_state s k) (if b then sent else [])
  guarded true u k after sent h = h refl
  guarded false u k after sent h = IsSame-refuses same k w

  guarded_still :
      (b : Bool) (u : Executor) (k : ℕ)
      → (b ≡ true → Lands s u k (job_state s k) [])
      → Lands s (if b then u else s) k (job_state s k) []
  guarded_still true u k h = h refl
  guarded_still false u k h = IsSame-refuses same k w

  begin_at-Lands :
      (t : ℕ) (o : Option Task)
      → get s.objects t ≡ o
      → Lands s (begin_at s t o) (task_job o) (job_state s (task_job o)) []
  unfolding begin_at
  begin_at-Lands t none e = IsSame-refuses same 0 w
  begin_at-Lands t (some o) e =
      guarded_still (may_begin o) _ o.data_of.job_id
        λ b. begin_run-Lands s w 0 t o (owns t o e (begin_not_ended o b)) e

  end_at-Lands :
      (now t : ℕ) (outcome : Outcome) (o : Option Task)
      → get s.objects t ≡ o
      → Lands s
          (end_at s now t outcome o)
          (task_job o)
          (if passes may_end o
            then advance (job_state s (task_job o))
            else job_state s (task_job o))
          (end_callbacks s now outcome o)
  unfolding end_at
  end_at-Lands now t outcome none e = IsSame-refuses same 0 w
  end_at-Lands now t outcome (some o) e =
      guarded (may_end o) _ o.data_of.job_id _ _
        λ b. end_run-Lands s w now t o (owns t o e (end_not_ended o b)) e outcome

  drop_at-Lands :
      (now t : ℕ) (o : Option Task)
      → get s.objects t ≡ o
      → Lands s
          (drop_at s now t o)
          (task_job o)
          (if passes may_drop o
            then advance (job_state s (task_job o))
            else job_state s (task_job o))
          (drop_callbacks now o)
  unfolding drop_at
  drop_at-Lands now t none e = IsSame-refuses same 0 w
  drop_at-Lands now t (some o) e =
      guarded (may_drop o) _ o.data_of.job_id _ _ λ b.
        on_task_done-Lands s w now t o (owns t o e (drop_not_ended o b)) e (drop_not_started o b)

  -- Every event lands its job where the specification says, and leaves the other jobs.
  pub step-Lands :
      (e : Event)
      → Lands s
          (step s e)
          (job_of s e)
          (after_event s e (job_state s (job_of s e)))
          (sent_by s e (job_state s (job_of s e)))
  unfolding step
  step-Lands (triggers now d) = trigger-Lands now d
  step-Lands (kills now job include_queue reason) =
      cancel_job-Lands s now job include_queue reason w
  step-Lands (begins t) = begin_at-Lands t (get s.objects t) refl
  step-Lands (ends now t outcome) = end_at-Lands now t outcome (get s.objects t) refl
  step-Lands (drops now t) = drop_at-Lands now t (get s.objects t) refl

pub run-IsValid : (s : Executor) (es : List Event) → IsValid s → IsValid (run s es)
unfolding run
run-IsValid s [] w = w
run-IsValid s (e ∷ es) w = run-IsValid (step s e) es (step-Lands s w e).valid

slot-init :
    (handler : String → Bool) (timeout bound : ℕ) (raises : Option String) (j : ℕ)
    → slot (init handler timeout bound raises) j ≡ empty_slot
unfolding init slot
slot-init handler timeout bound raises j = ground (
  arith,
  get-empty {K = ℕ} {V = ℕ} j,
  get-empty {K = ℕ} {V = RunData} j,
  get-empty {K = ℕ} {V = List RunData} j,
  get-empty {K = ℕ} {V = List ℕ} j,
)

-- A new executor is valid.
pub init-IsValid :
    (handler : String → Bool) (timeout bound : ℕ) (raises : Option String)
    → IsValid (init handler timeout bound raises)
unfolding init
init-IsValid handler timeout bound raises = record {
  owned = record {
    fresh = λ t o p. absurd (cc (get-empty {K = ℕ} {V = Task} t));
    known = λ j t p. absurd (cc (get-empty {K = ℕ} {V = ℕ} j));
    placed = λ j t o p q. absurd (cc (get-empty {K = ℕ} {V = ℕ} j));
    live = λ j t o p q. absurd (cc (get-empty {K = ℕ} {V = ℕ} j));
    owner = λ t o p q. absurd (cc (get-empty {K = ℕ} {V = Task} t));
    uncleaned = λ t o p q. absurd (cc (get-empty {K = ℕ} {V = Task} t));
  };
  jobs = λ j.
      rw (slot-init handler timeout bound raises j, get-empty {K = ℕ} {V = ℕ} j)
        (IsGood-empty bound j);
}

pub init-raises :
    (handler : String → Bool) (timeout bound : ℕ) (raises : Option String)
    → (init handler timeout bound raises).succeeded_raises ≡ raises
unfolding init
init-raises handler timeout bound raises = refl

pub init-state :
    (handler : String → Bool) (timeout bound : ℕ) (raises : Option String) (j : ℕ)
    → job_state (init handler timeout bound raises) j ≡ idle
unfolding init
init-state handler timeout bound raises j = rw (get-empty {K = ℕ} {V = ℕ} j)

-- An event whose guard holds.
pub step-ends :
    (s : Executor) (now t : ℕ) (o : Task) (outcome : Outcome)
    → get s.objects t ≡ some o
    → may_end o ≡ true
    → step s (ends now t outcome) ≡ end_run s now t o outcome
unfolding step end_at
step-ends s now t o outcome e may =
    ap (end_at s now t outcome) e ∙ ap (λ b. if b then end_run s now t o outcome else s) may

pub step-drops :
    (s : Executor) (now t : ℕ) (o : Task)
    → get s.objects t ≡ some o
    → may_drop o ≡ true
    → step s (drops now t) ≡ on_task_done s now t o true
unfolding step drop_at
step-drops s now t o e may =
    ap (drop_at s now t) e ∙ ap (λ b. if b then on_task_done s now t o true else s) may
