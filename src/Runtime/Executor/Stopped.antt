-- ===== src/Runtime/Executor/Stopped.antt =====
-- A job at which nothing waits and whose current task is being cancelled stays so, whatever the event
-- loop does with the tasks.
use pyxxl.Base.{
  ℕ, ◌<◌, ◌≤◌, ◌≡◌, refl, ap, sym, ◌∙◌, inl, inr, String, Bool, true, false, ◌||◌, not, Option,
  none, some, List, [], ◌∷◌, get, set, remove, get-set, get-remove, nat_eq, nat_beq, if_intro,
  Bool-cases, arith, if◌then◌else◌,
}
use pyxxl.Model.{RunData}
use pyxxl.Runtime.Executor.State.{
  Task, Executor, result, new_task, create_task, start_task, get_queue, push_callback,
  release_log_id, pop_cover_replacement, callback_timestamp,
}
use pyxxl.Runtime.Executor.Tasks.{
  Outcome, returned, cancelled, timed_out, raised, is_task, start_queued, start_next, finish,
  cleanup_object, cleanup_task, begin_run, report, succeed, report_exception, fail_callback,
  end_run, on_task_done,
}
use pyxxl.Runtime.Executor.Events.{
  Event, triggers, kills, begins, ends, drops, may_begin, may_end, may_drop, begin_at, end_at,
  drop_at, step,
}
use pyxxl.Runtime.Executor.Spec.{JobState, idle, busy, give_up, advance}
use pyxxl.Runtime.Executor.Slots.{only}
use pyxxl.Runtime.Executor.Invariant.{
  IsValid, job_state, task_data, data_at, standing, resting, running,
}
use pyxxl.Runtime.Executor.Effects.{
  job_of, after_event, end_not_ended, drop_not_ended, drop_not_started,
}
use pyxxl.Runtime.Executor.Ends.{end_run-Lands, on_task_done-Lands}
use pyxxl.Runtime.Executor.Steps.{step-Lands, owns}
use pyxxl.Runtime.Executor.Shutdown.{IsCancelled, going}

-- No trigger of the job waits.
abbrev pub nothing_waits : JobState → Bool
nothing_waits idle = true
nothing_waits (busy r none []) = true
nothing_waits (busy r next waiting) = false

-- The stretches of the tasks' own coroutines.
abbrev pub is_own : Event → Bool
is_own (triggers now d) = false
is_own (kills now job include_queue reason) = false
is_own _ = true

advance-idle : (j : JobState) → nothing_waits j ≡ true → advance j ≡ idle
unfolding advance
advance-idle idle h = refl
advance-idle (busy r none []) h = refl
advance-idle (busy r none (d ∷ waiting)) h = absurd (cc h)
advance-idle (busy r (some d) waiting) h = absurd (cc h)

pub give_up-nothing_waits : (j : JobState) → nothing_waits (give_up j).1 ≡ true
unfolding give_up
give_up-nothing_waits idle = refl
give_up-nothing_waits (busy r next waiting) = refl

pub idle-IsCancelled : (s : Executor) (j : ℕ) → IsValid s → job_state s j ≡ idle → IsCancelled s j
idle-IsCancelled s j w h t o p q = elim (standing s j w) [
  | resting e ↦ absurd (cc (e, p))
  | running u x e f ↦ let c = ap (task_data s.objects) e ∙ ap data_at f in absurd (cc (h, c))
]

-- From `s` to `s'` a job keeps its current task, and what is cancelled stays so.
record Apart (s s' : Executor) (j : ℕ) : Type 0 where
  tasks : get s'.tasks j ≡ get s.tasks j
  objects :
      (u : ℕ) (o' : Task)
      → u < s.next_task
      → get s'.objects u ≡ some o'
      → ((o : Task) → get s.objects u ≡ some o → going o ≡ true)
      → going o' ≡ true
  later : s.next_task ≤ s'.next_task

Apart-trans : (s s₁ s₂ : Executor) (j : ℕ) → Apart s s₁ j → Apart s₁ s₂ j → Apart s s₂ j
Apart-trans s s₁ s₂ j a b = record {
  tasks = b.tasks ∙ a.tasks;
  objects =
      λ u o' lt q c. b.objects u o' (omega (arith, lt, a.later)) q (λ o e. a.objects u o lt e c);
  later = omega (arith, a.later, b.later);
}

Apart-IsCancelled :
    (s s' : Executor) (j : ℕ) → IsValid s → Apart s s' j → IsCancelled s j → IsCancelled s' j
Apart-IsCancelled s s' j w a c t o' p q =
    let p' : get s.tasks j ≡ some t = sym a.tasks ∙ p in
    a.objects t o' (w.owned.known j t p') q (λ o e. c t o p' e)

same-Apart :
    (s s' : Executor) (j : ℕ)
    → s'.tasks ≡ s.tasks
    → s'.objects ≡ s.objects
    → s'.next_task ≡ s.next_task
    → Apart s s' j
same-Apart s s' j a b n = record {
  tasks = ap (λ m. get m j) a;
  objects = λ u o' lt q c. c o' (sym (ap (λ m. get m u) b) ∙ q);
  later = omega (arith, n);
}

-- An object is written, which stays cancelled if it was.
set-Apart :
    (s : Executor) (j t : ℕ) (new : Task)
    → (((o : Task) → get s.objects t ≡ some o → going o ≡ true) → going new ≡ true)
    → Apart s (record s { objects = set s.objects t new }) j
set-Apart s j t new h = record {
  tasks = refl;
  objects = λ u o' lt q c. elim (Bool-cases (nat_beq t u)) [
    | inl e ↦
        let same : t ≡ u = ground arith in
        let g = h (λ o at. c o (ap (get s.objects) (sym same) ∙ at)) in
        ground (arith, get-set s.objects t u new, e, q, g)
    | inr e ↦ c o' (ground (arith, get-set s.objects t u new, e, q))
  ];
  later = omega arith;
}

start_task-Apart :
    (s : Executor) (job : ℕ) (d : RunData) (j : ℕ)
    → nat_beq job j ≡ false
    → Apart s (start_task s job d) j
unfolding start_task create_task
start_task-Apart s job d j e = record {
  tasks = ground (arith, get-set s.tasks job j s.next_task, e);
  objects =
      λ u o' lt q c. c o' (ground (arith, get-set s.objects s.next_task u (new_task d), q, lt));
  later = omega arith;
}

start_queued-Apart :
    (s : Executor) (job : ℕ) (q : List RunData) (j : ℕ)
    → nat_beq job j ≡ false
    → Apart s (start_queued s job q) j
unfolding start_queued
start_queued-Apart s job [] j e = same-Apart s s j refl refl refl
start_queued-Apart s job (d ∷ rest) j e =
    Apart-trans s _ _ j (same-Apart s _ j refl refl refl) (start_task-Apart _ job d j e)

start_next-Apart :
    (s : Executor) (job : ℕ) (r : Option RunData) (j : ℕ)
    → nat_beq job j ≡ false
    → Apart s (start_next s job r) j
unfolding start_next get_queue
start_next-Apart s job (some d) j e = start_task-Apart s job d j e
start_next-Apart s job none j e =
    Apart-trans s _ _ j (same-Apart s _ j refl refl refl) (start_queued-Apart _ job _ j e)

popped-Apart :
    (b : Bool) (s : Executor) (job j : ℕ)
    → nat_beq job j ≡ false
    → Apart s (if b then record s { tasks = remove s.tasks job } else s) j
popped-Apart false s job j e = same-Apart s s j refl refl refl
popped-Apart true s job j e = record {
  tasks = ground (arith, get-remove s.tasks job j, e);
  objects = λ u o' lt q c. c o' q;
  later = omega arith;
}

finish-Apart :
    (s : Executor) (t : ℕ) (d : RunData) (j : ℕ)
    → nat_beq d.job_id j ≡ false
    → Apart s (finish s t d) j
unfolding finish release_log_id pop_cover_replacement
finish-Apart s t d j e =
    let current = is_task (get s.tasks d.job_id) t in
    let popped = if current then record s { tasks = remove s.tasks d.job_id } else s in
    let released = release_log_id popped d.job_id d.log_id in
    let (replacement, left) = pop_cover_replacement released d.job_id in
    let first = popped-Apart current s d.job_id j e in
    let second =
      Apart-trans s popped released j first (same-Apart popped released j refl refl refl) in
    if_intro (λ x. Apart s x j) (not current) released (start_next left d.job_id replacement)
      (λ h. second)
      (λ h. Apart-trans s released _ j second (
        Apart-trans released left _ j (same-Apart released left j refl refl refl)
          (start_next-Apart left d.job_id replacement j e)))

cleanup_object-Apart :
    (s : Executor) (now t : ℕ) (o : Task) (push_cancel : Bool) (j : ℕ)
    → nat_beq o.data_of.job_id j ≡ false
    → Apart s (cleanup_object s now t o push_cancel) j
unfolding cleanup_object push_callback fail_callback
cleanup_object-Apart s now t o push_cancel j e = of_flag push_cancel
  where
    done : Task
    done = record o { cleaned = true; ended = true }

    marked : Executor
    marked = record s { objects = set s.objects t done }

    first : Apart s marked j
    first = set-Apart s j t done (λ h. ground arith)

    of_flag : (b : Bool) → Apart s (cleanup_object s now t o b) j
    of_flag true =
        Apart-trans s _ _ j (Apart-trans s marked _ j first (same-Apart marked _ j refl refl refl))
          (finish-Apart _ t o.data_of j e)
    of_flag false = Apart-trans s marked _ j first (finish-Apart marked t o.data_of j e)

cleanup_task-Apart :
    (s : Executor) (now t : ℕ) (o : Task) (push_cancel : Bool) (j : ℕ)
    → nat_beq o.data_of.job_id j ≡ false
    → Apart s (cleanup_task s now t o push_cancel) j
unfolding cleanup_task
cleanup_task-Apart s now t o push_cancel j e =
    if_intro (λ x. Apart s x j) o.cleaned _ _ (λ h. same-Apart s s j refl refl refl)
      (λ h. cleanup_object-Apart s now t o push_cancel j e)

report-Apart :
    (s : Executor) (now : ℕ) (o : Task) (outcome : Outcome) (j : ℕ)
    → Apart s (report s now o outcome) j
unfolding report succeed report_exception push_callback fail_callback
report-Apart s now o (returned text) j = of_hook s.succeeded_raises
  where
    of_hook :
        (hook : Option String)
        → Apart s
            (succeed
              (push_callback s o.data_of.log_id
                (callback_timestamp now o.data_of)
                200
                (result text))
              o.data_of.log_id
              (callback_timestamp now o.data_of)
              hook)
            j
    of_hook none = same-Apart s _ j refl refl refl
    of_hook (some e) = same-Apart s _ j refl refl refl
report-Apart s now o cancelled j = same-Apart s _ j refl refl refl
report-Apart s now o timed_out j = same-Apart s _ j refl refl refl
report-Apart s now o (raised text) j = same-Apart s _ j refl refl refl

end_run-Apart :
    (s : Executor) (now t : ℕ) (o : Task) (outcome : Outcome) (j : ℕ)
    → nat_beq o.data_of.job_id j ≡ false
    → Apart s (end_run s now t o outcome) j
unfolding end_run
end_run-Apart s now t o outcome j e =
    Apart-trans s (report s now o outcome) _ j (report-Apart s now o outcome j)
      (cleanup_task-Apart (report s now o outcome) now t o false j e)

on_task_done-Apart :
    (s : Executor) (now t : ℕ) (o : Task) (j : ℕ)
    → nat_beq o.data_of.job_id j ≡ false
    → Apart s (on_task_done s now t o true) j
unfolding on_task_done
on_task_done-Apart s now t o j e =
    if_intro (λ x. Apart s x j) (not true || o.started || o.cleaned) _ _
      (λ h. same-Apart s s j refl refl refl) (λ h. cleanup_task-Apart s now t o true j e)

-- A task of the job that comes to its end leaves the job idle; another one leaves what is cancelled.
module _ (s : Executor) (j : ℕ) (w : IsValid s) (quiet : nothing_waits (job_state s j) ≡ true)
    (c : IsCancelled s j) where
  begin_at-IsCancelled :
      (t : ℕ) (o : Option Task) → get s.objects t ≡ o → IsCancelled (begin_at s t o) j
  unfolding begin_at begin_run
  begin_at-IsCancelled t none e = c
  begin_at-IsCancelled t (some o) e =
      if_intro (λ x. IsCancelled x j) (may_begin o) _ _
        (λ b.
          if_intro (λ x. IsCancelled x j) (s.handler o.data_of.executor_handler) _ _
            (λ h.
              Apart-IsCancelled s _ j w
                (set-Apart s j t (record o { started = true }) (λ k. ground (arith, k o e))) c)
            (λ h.
              Apart-IsCancelled s _ j w
                (set-Apart s j t (record o { started = true; ended = true }) (λ k. ground arith))
                c))
        (λ b. c)

  -- the own job goes on to nothing
  own_idle :
      (k : ℕ) (s' : Executor)
      → nat_beq k j ≡ true
      → IsValid s'
      → job_state s' j ≡ only k j (advance (job_state s k)) (job_state s j)
      → IsCancelled s' j
  own_idle k s' h v moves =
      let same : k ≡ j = ground arith in
      idle-IsCancelled s' j v (
        moves
        ∙ ap (λ x. only k j (advance (job_state s x)) (job_state s j)) same
        ∙ ground (arith, h, advance-idle (job_state s j) quiet))

  end_at-IsCancelled :
      (now t : ℕ) (outcome : Outcome) (o : Option Task)
      → get s.objects t ≡ o
      → IsCancelled (end_at s now t outcome o) j
  unfolding end_at
  end_at-IsCancelled now t outcome none e = c
  end_at-IsCancelled now t outcome (some o) e =
      if_intro (λ x. IsCancelled x j) (may_end o) _ _
        (λ b. elim (Bool-cases (nat_beq o.data_of.job_id j)) [
          | inl h ↦
              let L = end_run-Lands s w now t o (owns s w t o e (end_not_ended o b)) e outcome in
              own_idle o.data_of.job_id _ h L.valid (L.moves j)
          | inr h ↦
              Apart-IsCancelled s (end_run s now t o outcome) j w
                (end_run-Apart s now t o outcome j h) c
        ])
        (λ b. c)

  drop_at-IsCancelled :
      (now t : ℕ) (o : Option Task) → get s.objects t ≡ o → IsCancelled (drop_at s now t o) j
  unfolding drop_at
  drop_at-IsCancelled now t none e = c
  drop_at-IsCancelled now t (some o) e =
      if_intro (λ x. IsCancelled x j) (may_drop o) _ _
        (λ b. elim (Bool-cases (nat_beq o.data_of.job_id j)) [
          | inl h ↦
              let L =
                on_task_done-Lands s w now t o (owns s w t o e (drop_not_ended o b)) e
                  (drop_not_started o b) in
              own_idle o.data_of.job_id _ h L.valid (L.moves j)
          | inr h ↦
              Apart-IsCancelled s (on_task_done s now t o true) j w
                (on_task_done-Apart s now t o j h) c
        ])
        (λ b. c)

-- Nothing waits at a job, and its current task is being cancelled or has ended.
pub record IsStopped (s : Executor) (j : ℕ) : Type 0 where
  pub waiting : nothing_waits (job_state s j) ≡ true
  pub current : IsCancelled s j

pub idle-IsStopped : (s : Executor) (j : ℕ) → IsValid s → job_state s j ≡ idle → IsStopped s j
idle-IsStopped s j w h = record { waiting = ap nothing_waits h; current = idle-IsCancelled s j w h }

after_own-nothing_waits :
    (s : Executor) (e : Event) (x : JobState)
    → is_own e ≡ true
    → nothing_waits x ≡ true
    → nothing_waits (after_event s e x) ≡ true
after_own-nothing_waits s (triggers now d) x own h = absurd (cc own)
after_own-nothing_waits s (kills now job q reason) x own h = absurd (cc own)
after_own-nothing_waits s (begins t) x own h = h
after_own-nothing_waits s (ends now t outcome) x own h = ground (arith, advance-idle x h, h)
after_own-nothing_waits s (drops now t) x own h = ground (arith, advance-idle x h, h)

pub own-IsStopped :
    (s : Executor) (e : Event) (j : ℕ)
    → IsValid s
    → is_own e ≡ true
    → IsStopped s j
    → IsStopped (step s e) j
unfolding step
own-IsStopped s e j w own c = record {
  waiting =
      let k = job_of s e in
      ap nothing_waits ((step-Lands s w e).moves j)
      ∙ if_intro (λ x. nothing_waits x ≡ true) (nat_beq k j) (after_event s e (job_state s k))
          (job_state s j)
          (λ h.
            let same : k ≡ j = ground arith in
            after_own-nothing_waits s e (job_state s k) own
              (ap (λ x. nothing_waits (job_state s x)) same ∙ c.waiting))
          (λ h. c.waiting);
  current = at e own;
}
  where
    at : (e : Event) → is_own e ≡ true → IsCancelled (step s e) j
    at (triggers now d) h = absurd (cc h)
    at (kills now job q reason) h = absurd (cc h)
    at (begins t) h = begin_at-IsCancelled s j w c.waiting c.current t (get s.objects t) refl
    at (ends now t outcome) h =
        end_at-IsCancelled s j w c.waiting c.current now t outcome (get s.objects t) refl
    at (drops now t) h = drop_at-IsCancelled s j w c.waiting c.current now t (get s.objects t) refl
