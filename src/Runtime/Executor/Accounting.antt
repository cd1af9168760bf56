-- ===== src/Runtime/Executor/Accounting.antt =====
-- Every trigger that was accepted is held by its job until exactly one callback reports it.
use pyxxl.Base.{
  ℕ, ◌+◌, ◌≡◌, refl, ap, ◌∙◌, inl, inr, Bool, true, false, Option, none, some, List, [], ◌∷◌, ◌++◌,
  map, Bool-cases, get, nat_eq, nat_beq, count, count-nil, count-cons, length, drop, arith,
  if◌then◌else◌,
}
use pyxxl.Model.{RunData}
use pyxxl.Runtime.Executor.State.{Task, Callback, Message, Executor, cover_effect}
use pyxxl.Runtime.Executor.Tasks.{Outcome, returned}
use pyxxl.Runtime.Executor.Jobs.{Reply, ok, err, run_job}
use pyxxl.Runtime.Executor.Events.{
  Event, triggers, kills, begins, ends, drops, may_end, may_drop, step, run,
}
use pyxxl.Runtime.Executor.Spec.{
  JobState, busy, log_of, ids, Verdict, runs, submit, give_up, advance,
}
use pyxxl.Runtime.Executor.Slots.{slot}
use pyxxl.Runtime.Executor.Invariant.{IsValid, job_state, task_data, data_at}
use pyxxl.Runtime.Executor.Landing.{Fixed}
use pyxxl.Runtime.Executor.Answers.{queue_failure, answer}
use pyxxl.Runtime.Executor.Submit.{run_job-Does, run_job-unknown}
use pyxxl.Runtime.Executor.Ends.{cleanup_callbacks, run_callbacks}
use pyxxl.Runtime.Executor.Steps.{step-Lands, owns}
use pyxxl.Runtime.Executor.Effects.{
  job_of, after_event, sent_by, task_job, passes, end_callbacks, drop_callbacks, end_not_ended,
  drop_not_ended,
}
use pyxxl.Runtime.Executor.Counts.{
  hit, accepts, submit-Accounts, give_up-Accounts, advance-Accounts,
}

abbrev pub callback_log : Callback → ℕ
callback_log c = c.log_id

abbrev pub is_ok : Reply → Bool
is_ok (ok m) = true
is_ok (err e) = false

-- One if the event is a trigger with this log id that `run_job` accepts.
abbrev pub accepted : Executor → Event → ℕ → ℕ
accepted s (triggers now d) l = if is_ok (run_job s now d).0 then hit l d else 0
accepted s _ l = 0

callback_log-failures :
    (now : ℕ) (reason : Message) (ds : List RunData)
    → map callback_log (map (queue_failure now reason) ds) ≡ map log_of ds
unfolding queue_failure
callback_log-failures now reason [] = refl
callback_log-failures now reason (d ∷ ds) =
    ap (λ l. d.log_id ∷ l) (callback_log-failures now reason ds)

is_ok-answer :
    (bound : ℕ) (d : RunData) (n : ℕ) (v : Verdict) → is_ok (answer bound d n v) ≡ accepts v
is_ok-answer bound d n runs = refl
is_ok-answer bound d n _ = refl

count-run_callbacks :
    (l now : ℕ) (o : Task) (outcome : Outcome)
    → count l (map callback_log (run_callbacks now o none outcome)) ≡ hit l o.data_of
unfolding run_callbacks
count-run_callbacks l now o (returned text) =
    ground (arith, count-cons l o.data_of.log_id [], count-nil l)
count-run_callbacks l now o _ = ground (arith, count-cons l o.data_of.log_id [], count-nil l)

guarded_balance :
    (l : ℕ) (b : Bool) (cs : List Callback) (j : JobState)
    → (b ≡ true → count l (map callback_log cs) + count l (ids (advance j)) ≡ count l (ids j))
    → count l (map callback_log (if b then cs else [])) + count l (ids (if b then advance j else j))
      ≡ count l (ids j) + 0
guarded_balance l true cs j h = omega (arith, h refl)
guarded_balance l false cs j h = omega (arith, count-nil l)

module _ (s : Executor) (w : IsValid s) (quiet : s.succeeded_raises ≡ none) (l : ℕ) where
  -- What an event's job holds and what is reported is what it held and what was accepted.
  abbrev Balances : Event → Type 0
  Balances e =
      count l (map callback_log (sent_by s e (job_state s (job_of s e))))
        + count l (ids (after_event s e (job_state s (job_of s e))))
      ≡ count l (ids (job_state s (job_of s e))) + accepted s e l

  trigger-Balances : (now : ℕ) (d : RunData) → Balances (triggers now d)
  trigger-Balances now d = elim (Bool-cases (s.handler d.executor_handler)) [
    | inl e ↦
        let j = job_state s d.job_id in
        let r = submit s.task_queue_length d j in
        let reply = ap is_ok (run_job-Does s now d w e).answers ∙ is_ok-answer _ d _ r.verdict in
        rw (e, reply, callback_log-failures now cover_effect r.given_up)
          (ground (arith, submit-Accounts l s.task_queue_length d j))
    | inr e ↦ rw (e, run_job-unknown s now d e) (ground (arith, count-nil l))
  ]

  kill-Balances :
      (now k : ℕ) (include_queue : Bool) (reason : Message)
      → Balances (kills now k include_queue reason)
  kill-Balances now k true reason =
      rw (callback_log-failures now reason (give_up (job_state s k)).0)
        (ground (arith, give_up-Accounts l (job_state s k)))
  kill-Balances now k false reason = ground (arith, count-nil l)

  busy_at :
      (t : ℕ) (o : Task)
      → get s.objects t ≡ some o
      → o.ended ≡ false
      → job_state s o.data_of.job_id
        ≡ busy o.data_of (slot s o.data_of.job_id).next (slot s o.data_of.job_id).waiting
  busy_at t o e f = rw (ap (task_data s.objects) (owns s w t o e f) ∙ ap data_at e)

  ended_balance :
      (t : ℕ) (o : Task) (cs : List Callback)
      → get s.objects t ≡ some o
      → o.ended ≡ false
      → count l (map callback_log cs) ≡ hit l o.data_of
      → count l (map callback_log cs) + count l (ids (advance (job_state s o.data_of.job_id)))
        ≡ count l (ids (job_state s o.data_of.job_id))
  ended_balance t o cs e f h =
      let v = slot s o.data_of.job_id in
      rw (busy_at t o e f) (ground (arith, h, advance-Accounts l o.data_of v.next v.waiting))

  end-Balances :
      (now : ℕ) (outcome : Outcome) (t : ℕ) (o : Option Task)
      → get s.objects t ≡ o
      → count l (map callback_log (end_callbacks s now outcome o))
          + count l (
              ids (
                if passes may_end o
                then advance (job_state s (task_job o))
                else job_state s (task_job o)))
        ≡ count l (ids (job_state s (task_job o))) + 0
  end-Balances now outcome t none e = ground (arith, count-nil l)
  end-Balances now outcome t (some o) e =
      guarded_balance l (may_end o) _ (job_state s o.data_of.job_id) λ b.
        ended_balance t o (run_callbacks now o s.succeeded_raises outcome) e (end_not_ended o b) (
          ap (λ x. count l (map callback_log (run_callbacks now o x outcome))) quiet
          ∙ count-run_callbacks l now o outcome)

  drop-Balances :
      (now t : ℕ) (o : Option Task)
      → get s.objects t ≡ o
      → count l (map callback_log (drop_callbacks now o))
          + count l (
              ids (
                if passes may_drop o
                then advance (job_state s (task_job o))
                else job_state s (task_job o)))
        ≡ count l (ids (job_state s (task_job o))) + 0
  drop-Balances now t none e = ground (arith, count-nil l)
  drop-Balances now t (some o) e =
      guarded_balance l (may_drop o) _ (job_state s o.data_of.job_id) λ b.
        ended_balance t o (cleanup_callbacks now o true) e (drop_not_ended o b)
          (ground (arith, count-cons l o.data_of.log_id [], count-nil l))

  event-Balances : (e : Event) → Balances e
  event-Balances (triggers now d) = trigger-Balances now d
  event-Balances (kills now k include_queue reason) = kill-Balances now k include_queue reason
  event-Balances (begins t) = ground (arith, count-nil l)
  event-Balances (ends now t outcome) = end-Balances now outcome t (get s.objects t) refl
  event-Balances (drops now t) = drop-Balances now t (get s.objects t) refl

-- The callbacks that are pushed between two states.
abbrev pub new_callbacks : Executor → Executor → List Callback
new_callbacks s s' = drop (length s.pushed) s'.pushed

pub drop-length-append {ℓ} : {A : Type ℓ} (xs ys : List A) → drop (length xs) (xs ++ ys) ≡ ys
drop-length-append [] ys = refl
drop-length-append (x ∷ xs) ys = drop-length-append xs ys

-- Over a history: the triggers of job `j` with log id `l` that were accepted, ...
unfoldable pub accepted_in : ℕ → ℕ → Executor → List Event → ℕ
accepted_in j l s [] = 0
accepted_in j l s (e ∷ es) =
    (if nat_beq (job_of s e) j then accepted s e l else 0) + accepted_in j l (step s e) es

-- ... and the callbacks with log id `l` that were pushed by events of job `j`.
unfoldable pub reported_in : ℕ → ℕ → Executor → List Event → ℕ
reported_in j l s [] = 0
reported_in j l s (e ∷ es) =
    (if nat_beq (job_of s e) j then count l (map callback_log (new_callbacks s (step s e))) else 0)
    + reported_in j l (step s e) es

module _ (j l : ℕ) where
  pub step_accounts :
      (s : Executor) (e : Event)
      → IsValid s
      → s.succeeded_raises ≡ none
      → (if nat_beq (job_of s e) j
            then count l (map callback_log (new_callbacks s (step s e)))
            else 0)
          + count l (ids (job_state (step s e) j))
        ≡ count l (ids (job_state s j)) + (if nat_beq (job_of s e) j then accepted s e l else 0)
  step_accounts s e w quiet =
      let L = step-Lands s w e in
      let new : new_callbacks s (step s e) ≡ sent_by s e (job_state s (job_of s e)) =
        ap (drop (length s.pushed)) L.sends ∙ drop-length-append s.pushed _ in
      elim (Bool-cases (nat_beq (job_of s e) j)) [
        | inl h ↦
            let p : job_of s e ≡ j = ground arith in
            rw (h, new, L.moves j, h, ← p) (event-Balances s w quiet l e)
        | inr h ↦ rw (h, L.moves j, h) (omega arith)
      ]

  -- what was reported and what is held is what was held before and what was accepted
  pub run_accounts :
      (s : Executor) (es : List Event)
      → IsValid s
      → s.succeeded_raises ≡ none
      → reported_in j l s es + count l (ids (job_state (run s es) j))
        ≡ count l (ids (job_state s j)) + accepted_in j l s es
  unfolding reported_in accepted_in run
  run_accounts s [] w quiet = omega arith
  run_accounts s (e ∷ es) w quiet =
      let L = step-Lands s w e in
      omega (
        arith,
        step_accounts s e w quiet,
        run_accounts (step s e) es L.valid
            (ap (λ (x : Fixed). x.succeeded_raises) L.settings ∙ quiet),
      )
