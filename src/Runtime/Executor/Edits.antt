-- ===== src/Runtime/Executor/Edits.antt =====
-- A stretch of code in the making: the entries of one job change step by step, and at the end a
-- task starts or not.
use mathlib.Core.List.{append-nil, append_assoc}
use pyxxl.Base.{
  ℕ, ◌<◌, ◌≡◌, refl, sym, ap, subst, ◌∙◌, inl, inr, String, true, false, Option, none, some, List,
  [], ◌++◌, get, set, remove, nat_eq, nat_beq, Bool-cases, get-set, get-remove, arith,
}
use pyxxl.Model.{RunData}
use pyxxl.Runtime.Executor.State.{
  Task, Callback, Message, Executor, start_task, new_task, cancel_task, cancel_object,
}
use pyxxl.Runtime.Executor.Slots.{Slot, slot, only, slot-current, slot-start}
use pyxxl.Runtime.Executor.Drains.{Kept, kept}
use pyxxl.Runtime.Executor.Entries.{IsGood}
use pyxxl.Runtime.Executor.Owned.{IsOwned, IsOwned-start, IsOwned-update, IsOwned-finish}
use pyxxl.Runtime.Executor.Invariant.{IsValid, current_data, task_data, data_at}
use pyxxl.Runtime.Executor.Landing.{IsChange, IsSame, Fixed, fixed}

pub record IsEdit (s s₁ : Executor) (k : ℕ) (v : Slot) (sent : List Callback) : Type 0 where
  pub owned : IsOwned s₁.tasks s₁.objects s.next_task
  pub slots : (j : ℕ) → slot s₁ j ≡ only k j v (slot s j)
  pub triggers : (t : ℕ) → data_at (get s₁.objects t) ≡ data_at (get s.objects t)
  pub numbered : s₁.next_task ≡ s.next_task
  pub bound : s₁.task_queue_length ≡ s.task_queue_length
  pub settings : fixed s₁ ≡ fixed s
  pub sends : s₁.pushed ≡ s.pushed ++ sent

slot_self : (s : Executor) (k j : ℕ) → slot s j ≡ only k j (slot s k) (slot s j)
slot_self s k j = elim (Bool-cases (nat_beq k j)) [
  | inl e ↦ rw e (ap (slot s) (same j k e))
  | inr e ↦ rw e
]
  where
    same : (a b : ℕ) → nat_beq b a ≡ true → a ≡ b
    same a b h = ground arith

pub IsEdit-none : (s : Executor) (k : ℕ) → IsValid s → IsEdit s s k (slot s k) []
IsEdit-none s k w = record {
  owned = w.owned;
  slots = slot_self s k;
  triggers = λ t. refl;
  numbered = refl;
  bound = refl;
  settings = refl;
  sends = sym (append-nil s.pushed);
}

module _ {s s₁ : Executor} {k : ℕ} {v : Slot} {sent : List Callback}
    (h : IsEdit s s₁ k v sent) where
  -- one more change of the slot
  pub IsEdit-slot :
      (s₂ : Executor) (f : Slot → Slot)
      → ((j : ℕ) → slot s₂ j ≡ only k j (f (slot s₁ j)) (slot s₁ j))
      → kept s₂ ≡ kept s₁
      → IsEdit s s₂ k (f v) sent
  unfolding kept
  IsEdit-slot s₂ f change same = record {
    owned = subst (λ (x : Kept). IsOwned x.tasks x.objects s.next_task) (sym same) h.owned;
    slots = λ j. elim (Bool-cases (nat_beq k j)) [
      | inl e ↦ rw (change j, h.slots j, e)
      | inr e ↦ rw (change j, h.slots j, e)
    ];
    triggers = λ t. ap (λ (x : Kept). data_at (get x.objects t)) same ∙ h.triggers t;
    numbered = ap (λ (x : Kept). x.next_task) same ∙ h.numbered;
    bound = ap (λ (x : Kept). x.task_queue_length) same ∙ h.bound;
    settings =
        ap {B = Fixed}
          (λ (x : Kept). record { handler = x.handler; succeeded_raises = x.succeeded_raises }) same
        ∙ h.settings;
    sends = ap (λ (x : Kept). x.pushed) same ∙ h.sends;
  }

  -- callbacks are pushed
  pub IsEdit-push :
      (more : List Callback)
      → IsEdit s (record s₁ { pushed = s₁.pushed ++ more }) k v (sent ++ more)
  unfolding slot
  IsEdit-push more = record {
    owned = h.owned;
    slots = h.slots;
    triggers = h.triggers;
    numbered = h.numbered;
    bound = h.bound;
    settings = h.settings;
    sends = rw h.sends (append_assoc s.pushed sent more);
  }

  -- nothing of the slots changes
  pub IsEdit-same : (s₂ : Executor) → IsSame s₁ s₂ → IsEdit s s₂ k v sent
  IsEdit-same s₂ same =
      IsEdit-slot s₂ (λ u. u)
        (λ j. elim (Bool-cases (nat_beq k j)) [
          | inl e ↦ rw e (same.slots j)
          | inr e ↦ rw e (same.slots j)
        ])
        same.rest

  -- a task object changes, but for its trigger and its `cleaned`
  pub IsEdit-update :
      (t : ℕ) (old new : Task)
      → get s₁.objects t ≡ some old
      → new.data_of ≡ old.data_of
      → new.cleaned ≡ old.cleaned
      → (new.ended ≡ false → old.ended ≡ false)
      → IsEdit s (record s₁ { objects = set s₁.objects t new }) k v sent
  unfolding slot
  IsEdit-update t old new e d c f = record {
    owned = IsOwned-update h.owned t old new e d c f;
    slots = h.slots;
    triggers = λ u. ground (arith, get-set s₁.objects t u new, h.triggers u, h.triggers t);
    numbered = h.numbered;
    bound = h.bound;
    settings = h.settings;
    sends = h.sends;
  }

  -- a task is cleaned up and leaves the table
  pub IsEdit-finish :
      (t : ℕ) (old new : Task)
      → get s₁.objects t ≡ some old
      → new.data_of ≡ old.data_of
      → new.cleaned ≡ true
      → new.ended ≡ true
      → get s₁.tasks old.data_of.job_id ≡ some t
      → old.data_of.job_id ≡ k
      → IsEdit s
          (record s₁ { objects = set s₁.objects t new; tasks = remove s₁.tasks old.data_of.job_id })
          k
          (record v { current = none })
          sent
  unfolding slot
  IsEdit-finish t old new e d c f m j_k = record {
    owned = IsOwned-finish h.owned t old new e d c f m;
    slots = λ j. ground (arith, h.slots j, get-remove s₁.tasks old.data_of.job_id j);
    triggers = λ u. ground (arith, get-set s₁.objects t u new, h.triggers u, h.triggers t);
    numbered = h.numbered;
    bound = h.bound;
    settings = h.settings;
    sends = h.sends;
  }

  cancel_object-IsEdit :
      (t : ℕ) (reason : Message) (o : Option Task)
      → get s₁.objects t ≡ o
      → IsEdit s (cancel_object s₁ t reason o) k v sent
  unfolding cancel_object
  cancel_object-IsEdit t reason none e = h
  cancel_object-IsEdit t reason (some o) e = IsEdit-update t o _ e refl refl (λ q. q)

  pub IsEdit-cancel : (t : ℕ) (reason : Message) → IsEdit s (cancel_task s₁ t reason) k v sent
  unfolding cancel_task
  IsEdit-cancel t reason = cancel_object-IsEdit t reason (get s₁.objects t) refl

  tasks-edit : (j : ℕ) → get s₁.tasks j ≡ only k j v.current (get s.tasks j)
  tasks-edit j = ground (arith, h.slots j, slot-current s₁ j, slot-current s j)

  pub IsEdit-at : slot s₁ k ≡ v
  IsEdit-at = ground (arith, h.slots k)

  pub IsEdit-current : get s₁.tasks k ≡ v.current
  IsEdit-current = ground (arith, tasks-edit k)

  task_data-edit : (o : Option ℕ) → task_data s₁.objects o ≡ task_data s.objects o
  task_data-edit none = refl
  task_data-edit (some t) = h.triggers t

  -- the success and failure hooks are called
  pub IsEdit-hooks :
      (n : ℕ) (l : List String) → IsEdit s (record s₁ { succeeded = n; failed = l }) k v sent
  unfolding slot
  IsEdit-hooks n l = record {
    owned = h.owned;
    slots = h.slots;
    triggers = h.triggers;
    numbered = h.numbered;
    bound = h.bound;
    settings = h.settings;
    sends = h.sends;
  }

  -- the stretch ends here
  pub IsEdit-end :
      (c : Option RunData)
      → IsGood s.task_queue_length k v c
      → task_data s.objects v.current ≡ c
      → IsChange s s₁ k v c sent
  IsEdit-end c g e = record {
    owned = rw h.numbered h.owned;
    good = g;
    slots = h.slots;
    triggers =
        λ j. ground (arith, tasks-edit j, task_data-edit v.current, task_data-edit (get s.tasks j));
    bound = h.bound;
    settings = h.settings;
    sends = h.sends;
  }

  task_data-start :
      (d : RunData) (o : Option ℕ)
      → ((t : ℕ) → o ≡ some t → t < s.next_task)
      → task_data (start_task s₁ k d).objects o ≡ task_data s.objects o
  unfolding start_task
  task_data-start d none below = refl
  task_data-start d (some t) below = ground (
    arith,
    get-set s₁.objects s₁.next_task t (new_task d),
    below t refl,
    h.triggers t,
    h.numbered,
  )

  current_data-start :
      (d : RunData) (j : ℕ)
      → IsValid s
      → current_data (start_task s₁ k d) j ≡ only k j (some d) (current_data s j)
  unfolding start_task
  current_data-start d j w = elim (Bool-cases (nat_beq k j)) [
    | inl e ↦ ground (
      arith,
      get-set s₁.tasks k j s₁.next_task,
      get-set s₁.objects s₁.next_task s₁.next_task (new_task d),
    )
    | inr e ↦ ground (
      arith,
      get-set s₁.tasks k j s₁.next_task,
      tasks-edit j,
      task_data-start d (get s.tasks j) (w.owned.known j),
    )
  ]

  -- a task starts
  pub IsEdit-start :
      (d : RunData)
      → IsValid s
      → v.current ≡ none
      → d.job_id ≡ k
      → IsGood s.task_queue_length k (record v { current = some s.next_task }) (some d)
      → IsChange s (start_task s₁ k d) k (record v { current = some s.next_task }) (some d) sent
  unfolding start_task
  IsEdit-start d w rest for g = record {
    owned =
        rw h.numbered
          (IsOwned-start h.owned k (new_task d) for refl (ground (arith, tasks-edit k)));
    good = g;
    slots = λ j. ground (arith, slot-start s₁ k j d, h.slots j, h.numbered);
    triggers = λ j. current_data-start d j w;
    bound = h.bound;
    settings = h.settings;
    sends = h.sends;
  }
