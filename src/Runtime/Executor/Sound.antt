-- ===== src/Runtime/Executor/Sound.antt =====
-- While the registry of handlers stays, every task that is accepted can run to its end: its handler is
-- known, and its coroutine has not ended without a cleanup.
use pyxxl.Base.{
  ℕ, ◌≡◌, refl, ap, subst, ◌∙◌, if_intro, String, Bool, true, false, ◌&&◌, Option, none, some, List,
  [], ◌∷◌, ◌++◌, get, get-empty, nat_eq, nat_beq, string_eq, arith,
}
use pyxxl.Model.{RunData}
use pyxxl.Runtime.Executor.State.{Task, Executor}
use pyxxl.Runtime.Executor.Events.{Event, triggers, kills, begins, ends, drops, init, step, run}
use pyxxl.Runtime.Executor.Spec.{JobState, idle, busy, submit_busy, submit, give_up, advance}
use pyxxl.Runtime.Executor.Slots.{slot, only}
use pyxxl.Runtime.Executor.Entries.{state_of}
use pyxxl.Runtime.Executor.Invariant.{IsValid, job_state, task_data, data_at}
use pyxxl.Runtime.Executor.Landing.{Fixed}
use pyxxl.Runtime.Executor.Effects.{job_of, after_event, begin_not_ended}
use pyxxl.Runtime.Executor.Steps.{step-Lands, owns, init-IsValid, init-state}
use pyxxl.Runtime.Executor.Live.{IsLive, step-IsLive}

-- The handlers of triggers, and of all that a job holds, are known.
unfoldable pub all_known : (String → Bool) → List RunData → Bool
all_known h [] = true
all_known h (d ∷ ds) = let rest = all_known h ds in h d.executor_handler && rest

abbrev pub next_known : (String → Bool) → Option RunData → Bool
next_known h none = true
next_known h (some d) = h d.executor_handler

abbrev pub job_known : (String → Bool) → JobState → Bool
job_known h idle = true
job_known h (busy r next waiting) =
    h r.executor_handler && (next_known h next && all_known h waiting)

all_known-append :
    (h : String → Bool) (xs ys : List RunData)
    → all_known h (xs ++ ys) ≡ (all_known h xs && all_known h ys)
unfolding all_known
all_known-append h [] ys = refl
all_known-append h (d ∷ ds) ys = ground (arith, all_known-append h ds ys)

submit-job_known :
    (h : String → Bool) (bound : ℕ) (d : RunData) (j : JobState)
    → h d.executor_handler ≡ true
    → job_known h j ≡ true
    → job_known h (submit bound d j).after ≡ true
unfolding submit submit_busy all_known
submit-job_known h bound d idle k w = ground arith
submit-job_known h bound d (busy r next waiting) k w =
    ground (arith, all_known-append h waiting (d ∷ []), k, w)

advance-job_known :
    (h : String → Bool) (j : JobState) → job_known h j ≡ true → job_known h (advance j) ≡ true
unfolding advance all_known
advance-job_known h idle w = refl
advance-job_known h (busy r (some d) waiting) w = ground (arith, w)
advance-job_known h (busy r none []) w = refl
advance-job_known h (busy r none (d ∷ waiting)) w = ground (arith, w)

give_up-job_known :
    (h : String → Bool) (j : JobState) → job_known h j ≡ true → job_known h (give_up j).1 ≡ true
unfolding give_up all_known
give_up-job_known h idle w = refl
give_up-job_known h (busy r next waiting) w = ground (arith, w)

after_event-job_known :
    (s : Executor) (e : Event) (j : JobState)
    → job_known s.handler j ≡ true
    → job_known s.handler (after_event s e j) ≡ true
after_event-job_known s (triggers now d) j w =
    ground (arith, submit-job_known s.handler s.task_queue_length d j, w)
after_event-job_known s (kills now job q reason) j w =
    ground (arith, give_up-job_known s.handler j, w)
after_event-job_known s (begins t) j w = w
after_event-job_known s (ends now t outcome) j w = ground (arith, advance-job_known s.handler j, w)
after_event-job_known s (drops now t) j w = ground (arith, advance-job_known s.handler j, w)

pub record IsSound (s : Executor) : Type 0 where
  pub valid : IsValid s
  pub live : IsLive s
  pub known : (j : ℕ) → job_known s.handler (job_state s j) ≡ true

-- The handler of a task whose coroutine has not ended is known.
pub task_known :
    (s : Executor) (t : ℕ) (o : Task)
    → IsSound s
    → get s.objects t ≡ some o
    → o.ended ≡ false
    → s.handler o.data_of.executor_handler ≡ true
task_known s t o w at f =
    let current : task_data s.objects (get s.tasks o.data_of.job_id) ≡ some o.data_of =
      ap (task_data s.objects) (owns s w.valid t o at f) ∙ ap data_at at in
    let k : job_known s.handler (state_of (slot s o.data_of.job_id) (some o.data_of)) ≡ true =
      subst (λ c. job_known s.handler (state_of (slot s o.data_of.job_id) c) ≡ true) current
        (w.known o.data_of.job_id) in
    ground (arith, k)

pub step-IsSound : (s : Executor) (e : Event) → IsSound s → IsSound (step s e)
step-IsSound s e w =
    let L = step-Lands s w.valid e in
    let same : (step s e).handler ≡ s.handler = ap (λ (x : Fixed). x.handler) L.settings in
    record {
      valid = L.valid;
      live = step-IsLive s e (λ t o at may. task_known s t o w at (begin_not_ended o may)) w.live;
      known = λ j.
          let k = job_of s e in
          let after = after_event s e (job_state s k) in
          ap (job_known (step s e).handler) (L.moves j)
          ∙ ap (λ h. job_known h (only k j after (job_state s j))) same
          ∙ if_intro (λ x. job_known s.handler x ≡ true) (nat_beq k j) after (job_state s j)
              (λ h. after_event-job_known s e (job_state s k) (w.known k)) (λ e. w.known j);
    }

pub run-IsSound : (s : Executor) (es : List Event) → IsSound s → IsSound (run s es)
unfolding run
run-IsSound s [] w = w
run-IsSound s (e ∷ es) w = run-IsSound (step s e) es (step-IsSound s e w)

pub run-raises :
    (s : Executor) (es : List Event) → IsValid s → (run s es).succeeded_raises ≡ s.succeeded_raises
unfolding run
run-raises s [] w = refl
run-raises s (e ∷ es) w =
    let L = step-Lands s w e in
    run-raises (step s e) es L.valid ∙ ap (λ (x : Fixed). x.succeeded_raises) L.settings

pub init-IsSound :
    (handler : String → Bool) (timeout bound : ℕ) (raises : Option String)
    → IsSound (init handler timeout bound raises)
unfolding init
init-IsSound handler timeout bound raises = record {
  valid = init-IsValid handler timeout bound raises;
  live = record { live = λ t o at c. absurd (cc (get-empty {K = ℕ} {V = Task} t)) };
  known = λ j. rw (init-state handler timeout bound raises j) refl;
}
