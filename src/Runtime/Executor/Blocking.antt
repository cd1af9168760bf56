-- ===== src/Runtime/Executor/Blocking.antt =====
-- What the block strategies do for a job that is busy.
use pyxxl.Base.{
  ℕ, ◌≡◌, refl, sym, ap, ◌≢◌, true, false, Option, none, some, List, [], ◌∷◌, ◌++◌, map, length,
  get, set, nat_eq, arith, contains, add, string_eq,
}
use pyxxl.Model.{RunData}
use pyxxl.Runtime.Executor.State.{
  cover_effect, Callback, Executor, get_queue, register_log_id, is_full,
}
use pyxxl.Runtime.Executor.Jobs.{
  give_up_pending, replace_current, handle_cover_early, handle_serial_execution, enqueue,
}
use pyxxl.Runtime.Executor.Spec.{busy, pending, replaces, queues, overflows, has_room}
use pyxxl.Runtime.Executor.Slots.{
  Slot, slot, slot-current, slot-register, slot-set_queue, slot-set_next,
}
use pyxxl.Runtime.Executor.Drains.{
  kept, slot-give_up, kept-give_up, fst-give_up, cleared, fst-get_queue,
}
use pyxxl.Runtime.Executor.Good.{IsGood-enqueue, IsGood-clear, IsGood-replace, contains-clear}
use pyxxl.Runtime.Executor.Entries.{IsGood}
use pyxxl.Runtime.Executor.Invariant.{IsValid, current_data, task_data, job_state}
use pyxxl.Runtime.Executor.Landing.{IsChange-Lands, Lands, IsSame, IsSame-refuses}
use pyxxl.Runtime.Executor.Edits.{
  IsEdit, IsEdit-none, IsEdit-slot, IsEdit-same, IsEdit-push, IsEdit-cancel, IsEdit-end,
  IsEdit-current,
}
use pyxxl.Runtime.Executor.Answers.{queue_failure, push_failed_lem, IsSame-queue, Does}

room→full : (bound : ℕ) (q : List RunData) → has_room bound q ≡ true → is_full bound q ≡ false
unfolding is_full
room→full bound q h = ground arith

full→room : (bound : ℕ) (q : List RunData) → has_room bound q ≡ false → is_full bound q ≡ true
unfolding is_full
full→room bound q h = ground arith

-- A busy job with the trigger `r` running, and a trigger `d` whose log id it does not hold.
module _ (s : Executor) (now : ℕ) (d : RunData) (w : IsValid s) (r : RunData)
    (busy_r : current_data s d.job_id ≡ some r)
    (new : contains (slot s d.job_id).log_ids d.log_id ≡ false) where
  good : IsGood s.task_queue_length d.job_id (slot s d.job_id) (some r)
  good = rw busy_r at (w.jobs d.job_id)

  holds_r : task_data s.objects (slot s d.job_id).current ≡ some r
  holds_r = rw slot-current busy_r

  enqueue-Lands :
      (s₁ : Executor)
      → IsSame s s₁
      → has_room s.task_queue_length (slot s d.job_id).waiting ≡ true
      → Lands s
          (enqueue s₁ d (slot s d.job_id).waiting)
          d.job_id
          (busy r (slot s d.job_id).next ((slot s d.job_id).waiting ++ d ∷ []))
          []
  unfolding enqueue kept register_log_id
  enqueue-Lands s₁ same room =
      let k = d.job_id in
      let q = (slot s k).waiting ++ d ∷ [] in
      let s₂ = record s₁ { queue = set s₁.queue k q } in
      let e₁ = IsEdit-same (IsEdit-none s k w) s₁ same in
      let e₂ =
        IsEdit-slot e₁ s₂ (λ v. record v { waiting = q }) (λ j. slot-set_queue s₁ k j q) refl in
      let e₃ =
        IsEdit-slot e₂ (register_log_id s₂ k d.log_id)
          (λ v. record v { log_ids = add d.log_id v.log_ids }) (λ j. slot-register s₂ k d.log_id j)
          refl in
      IsChange-Lands w (IsEdit-end e₃ (some r) (IsGood-enqueue good d refl new room) holds_r)

  pub serial_room :
      has_room s.task_queue_length (slot s d.job_id).waiting ≡ true
      → Does s now d
          (length (slot s d.job_id).waiting)
          (record {
            verdict = queues;
            after = busy r (slot s d.job_id).next ((slot s d.job_id).waiting ++ d ∷ []);
            given_up = [];
          })
          (handle_serial_execution s d)
  unfolding handle_serial_execution
  serial_room room =
      rw (fst-get_queue s d.job_id, room→full s.task_queue_length (slot s d.job_id).waiting room)
        (record {
          lands = enqueue-Lands (get_queue s d.job_id).1 (IsSame-queue s d.job_id) room;
          answers = refl;
        })

  pub serial_full :
      has_room s.task_queue_length (slot s d.job_id).waiting ≡ false
      → Does s now d
          (length (slot s d.job_id).waiting)
          (record { verdict = overflows; after = job_state s d.job_id; given_up = [] })
          (handle_serial_execution s d)
  unfolding handle_serial_execution
  serial_full full =
      rw (fst-get_queue s d.job_id, full→room s.task_queue_length (slot s d.job_id).waiting full)
        (record { lands = IsSame-refuses (IsSame-queue s d.job_id) d.job_id w; answers = refl })

  replace_current-IsEdit :
      {s₁ : Executor} {v : Slot} {sent : List Callback} (t : Option ℕ)
      → IsEdit s s₁ d.job_id v sent
      → t ≡ v.current
      → v.current ≢ none
      → IsEdit s (replace_current s₁ d t) d.job_id (record v { next = some d }) sent
  unfolding replace_current kept
  replace_current-IsEdit none e h some_task = absurd (some_task (sym h))
  replace_current-IsEdit {s₁} (some t) e h some_task =
      IsEdit-cancel
        (IsEdit-slot e (record s₁ { cover_replacements = set s₁.cover_replacements d.job_id d })
          (λ v. record v { next = some d }) (λ j. slot-set_next s₁ d.job_id j d) refl)
        t cover_effect

  has_task : (slot s d.job_id).current ≢ none
  has_task e = cc (holds_r, ap (task_data s.objects) e)

  cover-Lands : Lands s (handle_cover_early s now d).1 d.job_id (busy r (some d) []) (
      map
        (queue_failure now cover_effect)
        (pending (slot s d.job_id).next (slot s d.job_id).waiting))
  unfolding handle_cover_early kept register_log_id
  cover-Lands =
      let k = d.job_id in
      let s₁ = (give_up_pending s k).1 in
      let s₂ = register_log_id s₁ k d.log_id in
      let e₁ = IsEdit-slot (IsEdit-none s k w) s₁ cleared (slot-give_up s k) (kept-give_up s k) in
      let e₂ =
        IsEdit-slot e₁ s₂ (λ v. record v { log_ids = add d.log_id v.log_ids })
          (λ j. slot-register s₁ k d.log_id j) refl in
      let e₃ = replace_current-IsEdit (get s₂.tasks k) e₂ (IsEdit-current e₂) has_task in
      rw (push_failed_lem, fst-give_up s k)
        (IsChange-Lands w (
          IsEdit-end
            (IsEdit-push e₃
              (map (queue_failure now cover_effect) (pending (slot s k).next (slot s k).waiting)))
            (some r)
            (IsGood-replace (IsGood-clear good) d refl (contains-clear good d.log_id new) refl)
            holds_r))

  pub cover_Does :
      Does s now d
        (length (slot s d.job_id).waiting)
        (record {
          verdict = replaces;
          after = busy r (some d) [];
          given_up = pending (slot s d.job_id).next (slot s d.job_id).waiting;
        })
        (handle_cover_early s now d)
  unfolding handle_cover_early
  cover_Does = record { lands = cover-Lands; answers = refl }
