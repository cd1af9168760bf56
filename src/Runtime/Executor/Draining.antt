-- ===== src/Runtime/Executor/Draining.antt =====
-- A job can be brought to rest: its tasks begin and end one after the other until nothing is left.
use pyxxl.Base.{
  ℕ, zero, suc, ◌+◌, ◌*◌, ◌≤◌, ◌-◌, ◌≡◌, refl, ap, sym, subst, ◌∙◌, inl, inr, String, Bool, true,
  false, not, ◌&&◌, Option, none, some, List, [], ◌∷◌, ◌++◌, map, length, length-append, get,
  nat_eq, nat_beq, nat_beq_refl, nat_beq_iff, Bool-cases, count, count-nil, arith, if◌then◌else◌,
}
use pyxxl.Model.{RunData}
use pyxxl.Runtime.Executor.State.{Task, Executor}
use pyxxl.Runtime.Executor.Tasks.{Outcome}
use pyxxl.Runtime.Executor.Events.{Event, triggers, kills, begins, ends, drops, init, step, run}
use pyxxl.Runtime.Executor.Spec.{JobState, idle, busy, log_of, to_list, pending, ids, advance}
use pyxxl.Runtime.Executor.Slots.{only, slot}
use pyxxl.Runtime.Executor.Entries.{state_of}
use pyxxl.Runtime.Executor.Invariant.{job_state, task_data, data_at, resting, running, standing}
use pyxxl.Runtime.Executor.Accounting.{accepted_in, reported_in, run_accounts}
use pyxxl.Runtime.Executor.Steps.{init-IsValid, init-raises}
use pyxxl.Runtime.Executor.Sound.{IsSound, task_known, run-IsSound, run-raises, init-IsSound}
use pyxxl.Runtime.Executor.Progress.{closing, busy_job_goes_on}

-- How many triggers a job holds.
abbrev pub size : JobState → ℕ
size j = length (ids j)

length-map : (ds : List RunData) → length (map log_of ds) ≡ length ds
length-map [] = refl
length-map (d ∷ ds) = ap suc (length-map ds)

abbrev closing_at : ℕ → ℕ → Outcome → Option Task → List Event
closing_at now t outcome none = []
closing_at now t outcome (some o) = closing now t outcome o

abbrev closing_of : Executor → ℕ → (ℕ → Outcome) → Option ℕ → List Event
closing_of s now outcomes none = []
closing_of s now outcomes (some t) = closing_at now t (outcomes t) (get s.objects t)

-- The events that end the current task of a job, then the next one, so many times.
unfoldable pub drain : ℕ → ℕ → (ℕ → Outcome) → ℕ → Executor → List Event
drain zero now outcomes j s = []
drain (suc n) now outcomes j s =
    let es = closing_of s now outcomes (get s.tasks j) in es ++ drain n now outcomes j (run s es)

run-append : (xs ys : List Event) (s : Executor) → run s (xs ++ ys) ≡ run (run s xs) ys
unfolding run
run-append [] ys s = refl
run-append (x ∷ xs) ys s = run-append xs ys (step s x)

is_trigger : Event → Bool
is_trigger (triggers now d) = true
is_trigger (kills now job q reason) = false
is_trigger (begins t) = false
is_trigger (ends now t outcome) = false
is_trigger (drops now t) = false

-- No trigger arrives.
unfoldable pub is_quiet : List Event → Bool
unfolding is_trigger
is_quiet [] = true
is_quiet (e ∷ es) = let rest = is_quiet es in not (is_trigger e) && rest

is_quiet-append : (xs ys : List Event) → is_quiet (xs ++ ys) ≡ (is_quiet xs && is_quiet ys)
unfolding is_quiet
is_quiet-append [] ys = refl
is_quiet-append (x ∷ xs) ys = ground (arith, is_quiet-append xs ys)

accepted_in_quiet :
    (j l : ℕ) (s : Executor) (es : List Event) → is_quiet es ≡ true → accepted_in j l s es ≡ 0
unfolding accepted_in is_quiet
accepted_in_quiet j l s [] h = refl
accepted_in_quiet j l s (triggers now d ∷ es) h = absurd (ground (arith, h))
accepted_in_quiet j l s (kills now job q reason ∷ es) h =
    ground (arith, accepted_in_quiet j l (step s (kills now job q reason)) es, h)
accepted_in_quiet j l s (begins t ∷ es) h =
    ground (arith, accepted_in_quiet j l (step s (begins t)) es, h)
accepted_in_quiet j l s (ends now t outcome ∷ es) h =
    ground (arith, accepted_in_quiet j l (step s (ends now t outcome)) es, h)
accepted_in_quiet j l s (drops now t ∷ es) h =
    ground (arith, accepted_in_quiet j l (step s (drops now t)) es, h)

length-ids :
    (r : RunData) (next : Option RunData) (waiting : List RunData)
    → size (busy r next waiting) ≡ 1 + (length waiting + length (to_list next))
length-ids r next waiting =
    ap suc (length-map (pending next waiting) ∙ length-append waiting (to_list next)) ∙ omega arith

size-advance : (j : JobState) → size (advance j) ≡ size j - 1
unfolding advance
size-advance idle = refl
size-advance (busy r (some d) waiting) =
    omega (arith, length-ids d none waiting, length-ids r (some d) waiting)
size-advance (busy r none []) = refl
size-advance (busy r none (d ∷ waiting)) =
    omega (arith, length-ids d none waiting, length-ids r none (d ∷ waiting))

empty-idle : (j : JobState) → size j ≤ 0 → j ≡ idle
empty-idle idle h = refl
empty-idle (busy r next waiting) h = absurd (omega (arith, h, length-ids r next waiting))

closing_short : (now t : ℕ) (outcome : Outcome) (o : Task) → length (closing now t outcome o) ≤ 2
closing_short now t outcome o = ground arith

closing_quiet :
    (now t : ℕ) (outcome : Outcome) (o : Task) → is_quiet (closing now t outcome o) ≡ true
unfolding is_quiet
closing_quiet now t outcome o = ground arith

-- What draining a job leaves.
record IsDrained (s : Executor) (j : ℕ) (es : List Event) : Type 0 where
  rests : job_state (run s es) j ≡ idle
  others : (k : ℕ) → nat_beq j k ≡ false → job_state (run s es) k ≡ job_state s k
  quiet : is_quiet es ≡ true
  short : length es ≤ 2 * size (job_state s j)

module _ (now : ℕ) (outcomes : ℕ → Outcome) (j : ℕ) where
  -- what the end of the current task makes of the jobs
  round-states :
      (s : Executor) (t : ℕ) (o : Task)
      → IsSound s
      → get s.tasks j ≡ some t
      → get s.objects t ≡ some o
      → (k : ℕ)
      → job_state (run s (closing now t (outcomes t) o)) k
        ≡ only j k (advance (job_state s j)) (job_state s k)
  round-states s t o w e at =
      let ended = w.live.live t o at (w.valid.owned.live j t o e at) in
      subst
        (λ i.
          (k : ℕ)
          → job_state (run s (closing now t (outcomes t) o)) k
            ≡ only i k (advance (job_state s i)) (job_state s k))
        (w.valid.owned.placed j t o e at)
        (busy_job_goes_on s now t o (outcomes t) w.valid at ended (task_known s t o w at ended))

  round-size :
      (s : Executor) (t : ℕ) (o : Task)
      → IsSound s
      → get s.tasks j ≡ some t
      → get s.objects t ≡ some o
      → 1 + size (job_state (run s (closing now t (outcomes t) o)) j) ≡ size (job_state s j)
  round-size s t o w e at =
      let current : task_data s.objects (get s.tasks j) ≡ some o.data_of =
        ap (task_data s.objects) e ∙ ap data_at at in
      let holds : 1 ≤ size (job_state s j) =
        subst (λ c. 1 ≤ size (state_of (slot s j) c)) (sym current) (omega arith) in
      let less : size (job_state (run s (closing now t (outcomes t) o)) j)
          ≡ size (job_state s j) - 1 =
        ap size (
          round-states s t o w e at j
          ∙ ap (λ b. if b then advance (job_state s j) else job_state s j) (nat_beq_refl j))
        ∙ size-advance (job_state s j) in
      omega (arith, holds, less)

  -- a round of an executor that is drained afterwards
  round :
      (s : Executor) (t : ℕ) (o : Task) (rest : List Event)
      → IsSound s
      → get s.tasks j ≡ some t
      → get s.objects t ≡ some o
      → IsDrained (run s (closing now t (outcomes t) o)) j rest
      → IsDrained s j (closing now t (outcomes t) o ++ rest)
  round s t o rest w e at d =
      let es = closing now t (outcomes t) o in
      record {
        rests = ap (λ u. job_state u j) (run-append es rest s) ∙ d.rests;
        others = λ k h.
            ap (λ u. job_state u k) (run-append es rest s)
            ∙ d.others k h
            ∙ round-states s t o w e at k
            ∙ ap (λ b. if b then advance (job_state s j) else job_state s k) h;
        quiet =
            is_quiet-append es rest ∙ ground (arith, closing_quiet now t (outcomes t) o, d.quiet);
        short = omega (
          arith,
          length-append es rest,
          closing_short now t (outcomes t) o,
          d.short,
          round-size s t o w e at,
        );
      }

  drain-IsDrained :
      (n : ℕ) (s : Executor)
      → IsSound s
      → size (job_state s j) ≤ n
      → IsDrained s j (drain n now outcomes j s)
  unfolding drain run is_quiet
  drain-IsDrained zero s w h = record {
    rests = empty-idle (job_state s j) h;
    others = λ k e. refl;
    quiet = refl;
    short = omega arith;
  }
  drain-IsDrained (suc n) s w h = elim (standing s j w.valid) [
    | resting e ↦
        subst
          (λ c.
            let es = closing_of s now outcomes c in
            IsDrained s j (es ++ drain n now outcomes j (run s es)))
          (sym e)
          (drain-IsDrained n s w (
            subst (λ c. size (state_of (slot s j) (task_data s.objects c)) ≤ n) (sym e)
              (omega arith)))
    | running t o e at ↦
        subst
          (λ c.
            let es = closing_of s now outcomes c in
            IsDrained s j (es ++ drain n now outcomes j (run s es)))
          (sym e)
          (subst
            (λ c.
              let es = closing_at now t (outcomes t) c in
              IsDrained s j (es ++ drain n now outcomes j (run s es)))
            (sym at)
            (round s t o _ w e at (
              drain-IsDrained n (run s (closing now t (outcomes t) o))
                (run-IsSound s (closing now t (outcomes t) o) w)
                (omega (arith, h, round-size s t o w e at)))))
  ]

-- From a new executor whose success hook does not raise, after any history of events, and for every
-- job: when the event loop brings the job's tasks to their ends one after the other, each with any
-- outcome, at most two events for each trigger that the job held leave it idle and every other job
-- as it was, and by then each trigger that it held was reported by exactly one callback.
pub job_drains :
    (handler : String → Bool) (timeout bound : ℕ) (es : List Event) (now : ℕ)
    (outcomes : ℕ → Outcome) (j : ℕ)
    → let s = run (init handler timeout bound none) es in
      let ends_of = drain (size (job_state s j)) now outcomes j s in
      ((k : ℕ) → job_state (run s ends_of) k ≡ (if nat_beq j k then idle else job_state s k))
      × ((l : ℕ) → reported_in j l s ends_of ≡ count l (ids (job_state s j)))
      × (length ends_of ≤ 2 * size (job_state s j))
job_drains handler timeout bound es now outcomes j =
    let new = init handler timeout bound none in
    let s = run new es in
    let w = run-IsSound new es (init-IsSound handler timeout bound none) in
    let ends_of = drain (size (job_state s j)) now outcomes j s in
    let d = drain-IsDrained now outcomes j (size (job_state s j)) s w (omega arith) in
    (
      λ k. elim (Bool-cases (nat_beq j k)) [
        | inl h ↦
            ap (job_state (run s ends_of)) (sym ((nat_beq_iff j k).0 h))
            ∙ d.rests
            ∙ sym (ap (λ b. if b then idle else job_state s k) h)
        | inr h ↦ d.others k h ∙ sym (ap (λ b. if b then idle else job_state s k) h)
      ],
      λ l. omega (
        arith,
        run_accounts j l s ends_of w.valid (
            run-raises new es (init-IsValid handler timeout bound none)
            ∙ init-raises handler timeout bound none),
        ap (λ x. count l (ids x)) d.rests,
        count-nil l,
        accepted_in_quiet j l s ends_of d.quiet,
      ),
      d.short,
    )
