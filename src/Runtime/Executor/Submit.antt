-- ===== src/Runtime/Executor/Submit.antt =====
-- `run_job` does what the specification of a trigger says.
use mathlib.Core.Path.{subst₂}
use pyxxl.Base.{
  ℕ, ◌≡◌, refl, ap, ◌∙◌, inl, inr, true, false, Option, none, some, List, [], get, nat_eq,
  Bool-cases, arith, if◌then◌else◌, contains, add, contains-eq-ltb, string_eq,
}
use pyxxl.Model.{RunData}
use pyxxl.Runtime.Executor.State.{
  running, repeated, handler_missing, Executor, items, touch, start_task, get_queue,
  register_log_id,
}
use pyxxl.Runtime.Executor.Jobs.{ok, err, duplicate, not_found, block, is_free, run_locked, run_job}
use pyxxl.Runtime.Executor.Spec.{busy, ids, submit}
use pyxxl.Runtime.Executor.Slots.{slot, items-touch, slot-register}
use pyxxl.Runtime.Executor.Drains.{kept, fst-get_queue}
use pyxxl.Runtime.Executor.Good.{IsGood-run}
use pyxxl.Runtime.Executor.Entries.{IsGood}
use pyxxl.Runtime.Executor.Invariant.{
  IsValid, current_data, task_data, data_at, job_state, resting, running as running_task, standing,
}
use pyxxl.Runtime.Executor.Landing.{
  IsChange-Lands, Lands, IsSame, IsSame-refuses, IsSame-IsValid, IsSame-triggers,
}
use pyxxl.Runtime.Executor.Edits.{IsEdit-none, IsEdit-slot, IsEdit-same, IsEdit-start}
use pyxxl.Runtime.Executor.Answers.{IsSame-queue, IsSame-touch, Does}
use pyxxl.Runtime.Executor.Busy.{length_at, submit_repeated, submit_new, Does-same, block-Does}

module _ (s : Executor) (now : ℕ) (d : RunData) (w : IsValid s) where
  starts :
      current_data s d.job_id ≡ none
      → (s₂ : Executor) → IsSame s s₂
      → Lands s
          (start_task (register_log_id s₂ d.job_id d.log_id) d.job_id d)
          d.job_id
          (busy d none [])
          []
  unfolding kept register_log_id
  starts rest s₂ same =
      let k = d.job_id in
      let g : IsGood s.task_queue_length k (slot s k) none = rw rest at (w.jobs k) in
      let e₁ = IsEdit-same (IsEdit-none s k w) s₂ same in
      let e₂ =
        IsEdit-slot e₁ (register_log_id s₂ k d.log_id)
          (λ v. record v { log_ids = add d.log_id v.log_ids }) (λ j. slot-register s₂ k d.log_id j)
          refl in
      let l =
        IsChange-Lands w
          (IsEdit-start e₂ d w (g.at_rest refl).0 refl (IsGood-run s.next_task d g refl)) in
      subst₂ (λ n q. Lands s (start_task (register_log_id s₂ k d.log_id) k d) k (busy d n q) [])
        (g.at_rest refl).1 (g.at_rest refl).2 l

  -- whether the log id is registered, read off the state of the job
  contains-ids :
      contains (slot s d.job_id).log_ids d.log_id ≡ contains (ids (job_state s d.job_id)) d.log_id
  contains-ids = ground (
    arith,
    contains-eq-ltb (slot s d.job_id).log_ids d.log_id,
    contains-eq-ltb (ids (job_state s d.job_id)) d.log_id,
    (w.jobs d.job_id).held d.log_id,
  )

  locked : Executor
  locked = record s { job_log_ids = touch s.job_log_ids d.job_id }

  IsSame-locked : IsSame s locked
  unfolding locked
  IsSame-locked = IsSame-touch s d.job_id

  IsSame-read : IsSame s (get_queue locked d.job_id).1
  unfolding locked kept
  IsSame-read = record {
    slots = λ j. (IsSame-queue locked d.job_id).slots j ∙ IsSame-locked.slots j;
    rest = (IsSame-queue locked d.job_id).rest ∙ IsSame-locked.rest;
  }

  repeated-Does :
      contains (slot s d.job_id).log_ids d.log_id ≡ true
      → Does s now d
          (length_at s d.job_id)
          (submit s.task_queue_length d (job_state s d.job_id))
          (err (duplicate (repeated d.log_id)), locked)
  repeated-Does held =
      rw (submit_repeated s.task_queue_length d (job_state s d.job_id) (rw contains-ids at held))
        (record { lands = IsSame-refuses IsSame-locked d.job_id w; answers = refl })

  idle-Does :
      current_data s d.job_id ≡ none
      → Does s now d (length_at s d.job_id) (submit s.task_queue_length d (job_state s d.job_id)) (
        ok running,
        start_task (register_log_id (get_queue locked d.job_id).1 d.job_id d.log_id) d.job_id d,
      )
  unfolding submit
  idle-Does rest =
      rw rest
        (record { lands = starts rest (get_queue locked d.job_id).1 IsSame-read; answers = refl })

  busy-Does :
      (r : RunData)
      → current_data s d.job_id ≡ some r
      → contains (slot s d.job_id).log_ids d.log_id ≡ false
      → Does s now d
          (length_at s d.job_id)
          (submit s.task_queue_length d (job_state s d.job_id))
          (block (get_queue locked d.job_id).1 now d)
  busy-Does r e new =
      let s' = (get_queue locked d.job_id).1 in
      let v = slot s d.job_id in
      rw (e, submit_new s.task_queue_length d r v.next v.waiting (rw (contains-ids, e) at new))
        (Does-same s s' now d r _ IsSame-read (
          block-Does s' now d (IsSame-IsValid IsSame-read w) r
            (IsSame-triggers IsSame-read d.job_id ∙ e) (rw (IsSame-read.slots d.job_id) new)))

  reads_log_ids : items s.job_log_ids d.job_id ≡ (slot s d.job_id).log_ids
  unfolding slot
  reads_log_ids = refl

  reads_queue : (get_queue locked d.job_id).0 ≡ (slot s d.job_id).waiting
  reads_queue = fst-get_queue locked d.job_id ∙ ap (λ v. v.waiting) (IsSame-locked.slots d.job_id)

  reads_next :
      get (get_queue locked d.job_id).1.cover_replacements d.job_id ≡ (slot s d.job_id).next
  unfolding locked get_queue slot
  reads_next = refl

  reads_seen :
      contains (items locked.job_log_ids d.job_id) d.log_id
      ≡ contains (slot s d.job_id).log_ids d.log_id
  unfolding locked
  reads_seen =
      ap (λ l. contains l d.log_id) (items-touch s.job_log_ids d.job_id d.job_id ∙ reads_log_ids)

  run_locked-eq : run_locked s now d ≡ (
      if contains (items locked.job_log_ids d.job_id) d.log_id
      then (err (duplicate (repeated d.log_id)), locked)
      else if is_free
          (get s.tasks d.job_id)
          (get_queue locked d.job_id).0
          (get (get_queue locked d.job_id).1.cover_replacements d.job_id)
      then (
        ok running,
        start_task (register_log_id (get_queue locked d.job_id).1 d.job_id d.log_id) d.job_id d,
      )
      else block (get_queue locked d.job_id).1 now d)
  unfolding run_locked locked
  run_locked-eq = refl

  -- `run_locked` with its reads replaced by the entries of the job
  run_locked-reads : run_locked s now d ≡ (
      if contains (slot s d.job_id).log_ids d.log_id
      then (err (duplicate (repeated d.log_id)), locked)
      else if is_free (get s.tasks d.job_id) (slot s d.job_id).waiting (slot s d.job_id).next
      then (
        ok running,
        start_task (register_log_id (get_queue locked d.job_id).1 d.job_id d.log_id) d.job_id d,
      )
      else block (get_queue locked d.job_id).1 now d)
  run_locked-reads = run_locked-eq ∙ rw (reads_seen, reads_queue, reads_next) refl

  reads_busy :
      (o : Option ℕ) (t : ℕ)
      → o ≡ some t
      → (q : List RunData) (n : Option RunData) → is_free o q n ≡ false
  reads_busy o t e q n = rw e

  reads_free :
      (o : Option ℕ) (q : List RunData) (n : Option RunData)
      → o ≡ none
      → n ≡ none
      → q ≡ []
      → is_free o q n ≡ true
  reads_free o q n e f g = rw (e, f, g)

  run_locked-Does :
      Does s now d
        (length_at s d.job_id)
        (submit s.task_queue_length d (job_state s d.job_id))
        (run_locked s now d)
  run_locked-Does =
      rw run_locked-reads (elim (Bool-cases (contains (slot s d.job_id).log_ids d.log_id)) [
        | inl held ↦ rw held (repeated-Does held)
        | inr new ↦ elim (standing s d.job_id w) [
          | resting e ↦
              let v = slot s d.job_id in
              let g = (w.jobs d.job_id).at_rest (ap (task_data s.objects) e) in
              rw (new, reads_free (get s.tasks d.job_id) v.waiting v.next e g.1 g.2)
                (idle-Does (ap (task_data s.objects) e))
          | running_task t o e f ↦
              rw
                (
                  new,
                  reads_busy (get s.tasks d.job_id) t e (slot s d.job_id).waiting
                      (slot s d.job_id).next,
                )
                (busy-Does o.data_of (ap (task_data s.objects) e ∙ ap data_at f) new)
        ]
      ])

-- What `run_job` does with a trigger whose handler is known.
pub run_job-Does :
    (s : Executor) (now : ℕ) (d : RunData)
    → IsValid s
    → s.handler d.executor_handler ≡ true
    → Does s now d
        (length_at s d.job_id)
        (submit s.task_queue_length d (job_state s d.job_id))
        (run_job s now d)
unfolding run_job
run_job-Does s now d w h = rw h (run_locked-Does s now d w)

pub run_job-unknown :
    (s : Executor) (now : ℕ) (d : RunData)
    → s.handler d.executor_handler ≡ false
    → run_job s now d ≡ (err (not_found (handler_missing d.executor_handler)), s)
unfolding run_job
run_job-unknown s now d h = rw h
