-- ===== src/Runtime/Executor/Kill.antt =====
-- `cancel_job` does what the specification of a kill says.
use mathlib.Core.Path.{subst₂}
use pyxxl.Base.{
  ℕ, ◌≡◌, refl, ap, ◌∙◌, Bool, true, false, Option, none, some, List, [], map, get, nat_eq, arith,
  if◌then◌else◌, string_eq,
}
use pyxxl.Model.{RunData}
use pyxxl.Runtime.Executor.State.{Message, Callback, Executor, push_failed_queued_tasks}
use pyxxl.Runtime.Executor.Jobs.{give_up_pending, cancel_job, cancel_current}
use pyxxl.Runtime.Executor.Spec.{idle, pending, give_up}
use pyxxl.Runtime.Executor.Slots.{Slot, slot, slot-current}
use pyxxl.Runtime.Executor.Drains.{slot-give_up, kept-give_up, fst-give_up, cleared}
use pyxxl.Runtime.Executor.Good.{IsGood-clear}
use pyxxl.Runtime.Executor.Entries.{state_of, IsGood}
use pyxxl.Runtime.Executor.Invariant.{
  IsValid, current_data, task_data, data_at, job_state, resting, running as running_task, standing,
}
use pyxxl.Runtime.Executor.Landing.{IsChange-Lands, Lands}
use pyxxl.Runtime.Executor.Edits.{
  IsEdit, IsEdit-none, IsEdit-slot, IsEdit-push, IsEdit-cancel, IsEdit-end,
}
use pyxxl.Runtime.Executor.Answers.{queue_failure, push_failed_lem}

cleared-rest : (v : Slot) → v.next ≡ none → v.waiting ≡ [] → cleared v ≡ v
cleared-rest v e f = ground arith

cancel_current-IsEdit :
    {s s₁ : Executor} {k : ℕ} {v : Slot} {sent : List Callback} (t : Option ℕ) (reason : Message)
    → IsEdit s s₁ k v sent
    → IsEdit s (cancel_current s₁ t reason) k v sent
cancel_current-IsEdit none reason e = e
cancel_current-IsEdit (some t) reason e = IsEdit-cancel e t reason

module _ (s : Executor) (now k : ℕ) (reason : Message) (w : IsValid s) where
  -- with the job's queue left out, only the current task is cancelled
  kill_current : Lands s (cancel_job s now k false reason) k (job_state s k) []
  unfolding cancel_job push_failed_queued_tasks
  kill_current = IsChange-Lands w (
      IsEdit-end (cancel_current-IsEdit (get s.tasks k) reason (IsEdit-none s k w))
        (current_data s k) (w.jobs k) (rw slot-current refl))

  pending_failures : List Callback
  pending_failures = map (queue_failure now reason) (pending (slot s k).next (slot s k).waiting)

  given_up :
      (c : Option RunData)
      → current_data s k ≡ c
      → IsGood s.task_queue_length k (cleared (slot s k)) c
      → Lands s
          (cancel_job s now k true reason)
          k
          (state_of (cleared (slot s k)) c)
          pending_failures
  unfolding cancel_job pending_failures
  given_up c e g =
      let s₁ = (give_up_pending s k).1 in
      let e₁ = IsEdit-slot (IsEdit-none s k w) s₁ cleared (slot-give_up s k) (kept-give_up s k) in
      let e₂ = cancel_current-IsEdit (get s₁.tasks k) reason e₁ in
      rw (push_failed_lem, fst-give_up s k)
        (IsChange-Lands w (
          IsEdit-end
            (IsEdit-push e₂
              (map (queue_failure now reason) (pending (slot s k).next (slot s k).waiting)))
            c g (rw slot-current e)))

  kill_resting :
      get s.tasks k ≡ none
      → Lands s
          (cancel_job s now k true reason)
          k
          (give_up (job_state s k)).1
          (map (queue_failure now reason) (give_up (job_state s k)).0)
  unfolding give_up pending_failures
  kill_resting e =
      let v = slot s k in
      let c : current_data s k ≡ none = ap (task_data s.objects) e in
      let g = (w.jobs k).at_rest c in
      rw c (
        subst₂
          (λ n q.
            Lands s (cancel_job s now k true reason) k idle
              (map (queue_failure now reason) (pending n q)))
          g.1 g.2 (given_up none c (rw (cleared-rest v g.1 g.2) (rw c at (w.jobs k)))))

  kill_running :
      (r : RunData)
      → current_data s k ≡ some r
      → Lands s
          (cancel_job s now k true reason)
          k
          (give_up (job_state s k)).1
          (map (queue_failure now reason) (give_up (job_state s k)).0)
  unfolding give_up pending_failures
  kill_running r e = rw e (given_up (some r) e (IsGood-clear (rw e at (w.jobs k))))

-- What a kill of a job does, with its queue included or not.
pub cancel_job-Lands :
    (s : Executor) (now k : ℕ) (include_queue : Bool) (reason : Message)
    → IsValid s
    → Lands s
        (cancel_job s now k include_queue reason)
        k
        (if include_queue then (give_up (job_state s k)).1 else job_state s k)
        (map (queue_failure now reason) (if include_queue then (give_up (job_state s k)).0 else []))
cancel_job-Lands s now k false reason w = kill_current s now k reason w
cancel_job-Lands s now k true reason w = elim (standing s k w) [
  | resting e ↦ kill_resting s now k reason w e
  | running_task t o e f ↦
      kill_running s now k reason w o.data_of (ap (task_data s.objects) e ∙ ap data_at f)
]
