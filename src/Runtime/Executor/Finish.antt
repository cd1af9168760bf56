-- ===== src/Runtime/Executor/Finish.antt =====
-- The end of a task: its callbacks, and the start of what follows it.
use mathlib.Core.Path.{subst₂}
use pyxxl.Base.{
  ℕ, ◌≡◌, refl, ap, ◌∙◌, true, Option, none, some, List, [], ◌∷◌, get, set, remove, nat_eq, All,
  discard, string_eq,
}
use pyxxl.Model.{RunData}
use pyxxl.Runtime.Executor.State.{Callback, Executor, get_queue}
use pyxxl.Runtime.Executor.Spec.{JobState, idle, busy}
use pyxxl.Runtime.Executor.Slots.{Slot, slot, slot-set_queue}
use pyxxl.Runtime.Executor.Drains.{kept, fst-get_queue, fst-pop, kept-pop}
use pyxxl.Runtime.Executor.Entries.{IsGood}
use pyxxl.Runtime.Executor.Invariant.{IsValid, current_data}
use pyxxl.Runtime.Executor.Landing.{IsChange-Lands, Lands}
use pyxxl.Runtime.Executor.Edits.{
  IsEdit, IsEdit-slot, IsEdit-same, IsEdit-start, IsEdit-end, IsEdit-at,
}
use pyxxl.Runtime.Executor.Answers.{IsSame-queue}
use pyxxl.Runtime.Executor.State.{release_log_id, pop_cover_replacement}
use pyxxl.Runtime.Executor.Spec.{advance}
use pyxxl.Runtime.Executor.Slots.{slot-release, slot-pop}
use pyxxl.Runtime.Executor.Good.{IsGood-next, IsGood-queued, IsGood-rest}
use pyxxl.Runtime.Executor.Entries.{IsFor}
use pyxxl.Runtime.Executor.Tasks.{is_task, start_queued, start_next, finish}

-- The slot of a job whose task with the trigger `r` has ended.
abbrev ended_slot : RunData → Slot → Slot
ended_slot r v = record v { current = none; next = none; log_ids = discard r.log_id v.log_ids }

module _ (s : Executor) (w : IsValid s) (r : RunData)
    (busy_r : current_data s r.job_id ≡ some r) where
  good : IsGood s.task_queue_length r.job_id (slot s r.job_id) (some r)
  good = rw busy_r at (w.jobs r.job_id)

  after_r : JobState
  after_r = advance (busy r (slot s r.job_id).next (slot s r.job_id).waiting)

  start_queued-Lands :
      (s₁ : Executor) (sent : List Callback) (q : List RunData)
      → IsEdit s s₁ r.job_id (ended_slot r (slot s r.job_id)) sent
      → (slot s r.job_id).next ≡ none
      → (slot s r.job_id).waiting ≡ q
      → Lands s (start_queued s₁ r.job_id q) r.job_id (advance (busy r none q)) sent
  unfolding start_queued advance kept
  start_queued-Lands s₁ sent [] e n f =
      subst₂ (λ m q. Lands s s₁ r.job_id idle sent) n f
        (IsChange-Lands w (IsEdit-end e none (IsGood-rest good n f) refl))
  start_queued-Lands s₁ sent (d ∷ rest) e n f =
      let k = r.job_id in
      let ours : All (IsFor k) (d ∷ rest) = rw f at good.waiting_ours in
      let e₁ =
        IsEdit-slot e (record s₁ { queue = set s₁.queue k rest }) (λ v. record v { waiting = rest })
          (λ j. slot-set_queue s₁ k j rest) refl in
      IsChange-Lands w (IsEdit-start e₁ d w refl ours.0 (IsGood-queued good s.next_task d rest n f))

  start_next-Lands :
      (s₁ : Executor) (sent : List Callback) (n : Option RunData)
      → IsEdit s s₁ r.job_id (ended_slot r (slot s r.job_id)) sent
      → (slot s r.job_id).next ≡ n
      → Lands s
          (start_next s₁ r.job_id n)
          r.job_id
          (advance (busy r n (slot s r.job_id).waiting))
          sent
  unfolding start_next advance
  start_next-Lands s₁ sent none e n =
      rw (fst-get_queue s₁ r.job_id ∙ ap (λ v. v.waiting) (IsEdit-at e)) (
        start_queued-Lands (get_queue s₁ r.job_id).1 sent (slot s r.job_id).waiting
          (IsEdit-same e (get_queue s₁ r.job_id).1 (IsSame-queue s₁ r.job_id)) n refl)
  start_next-Lands s₁ sent (some d) e n =
      let ours : All (IsFor r.job_id) (d ∷ []) = rw n at good.next_ours in
      IsChange-Lands w (IsEdit-start e d w refl ours.0 (IsGood-next good s.next_task d n))

  pub finish-Lands :
      (s₀ : Executor) (t : ℕ) (sent : List Callback)
      → is_task (get s₀.tasks r.job_id) t ≡ true
      → IsEdit s
          (record s₀ { tasks = remove s₀.tasks r.job_id })
          r.job_id
          (record (slot s r.job_id) { current = none })
          sent
      → Lands s
          (finish s₀ t r)
          r.job_id
          (advance (busy r (slot s r.job_id).next (slot s r.job_id).waiting))
          sent
  unfolding finish kept release_log_id
  finish-Lands s₀ t sent is e =
      let k = r.job_id in
      let s₁ = record s₀ { tasks = remove s₀.tasks k } in
      let s₂ = release_log_id s₁ k r.log_id in
      let e₂ =
        IsEdit-slot e s₂ (λ v. record v { log_ids = discard r.log_id v.log_ids })
          (λ j. slot-release s₁ k r.log_id j) refl in
      let s₃ = (pop_cover_replacement s₂ k).1 in
      let e₃ = IsEdit-slot e₂ s₃ (λ v. record v { next = none }) (slot-pop s₂ k) (kept-pop s₂ k) in
      rw is (
        rw (fst-pop s₂ k ∙ ap (λ v. v.next) (IsEdit-at e₂))
          (start_next-Lands s₃ sent (slot s k).next e₃ refl))
