-- ===== src/Runtime/Executor/Drains.antt =====
-- What draining a job's queue and giving up all that waits does to the slots, and what it leaves.
use mathlib.Core.List.{append-nil, append_assoc}
use pyxxl.Base.{
  ℕ, ◌≡◌, refl, sym, ◌∙◌, ap, String, Bool, true, Option, none, some, List, [], ◌∷◌, ◌++◌, Dict,
  set, nat_eq, nat_beq, discard, arith,
}
use pyxxl.Model.{RunData}
use pyxxl.Runtime.Executor.State.{
  Task, Callback, Executor, items, release_log_id, pop_cover_replacement, drain_one, drain_loop,
  drain_pending_queue, get_queue,
}
use pyxxl.Runtime.Executor.Jobs.{give_up_replacement, give_up_pending}
use pyxxl.Runtime.Executor.Spec.{pending}
use pyxxl.Runtime.Executor.Slots.{
  Slot, slot, only, slot-release, slot-pop, slot-set_queue, slot-get_queue, discard_all,
  drained_slot,
}

-- What the helpers on queues, replacements and log ids do not touch.
pub record Kept : Type 0 where
  pub handler : String → Bool
  pub task_queue_length : ℕ
  pub succeeded_raises : Option String
  pub tasks : Dict ℕ ℕ
  pub objects : Dict ℕ Task
  pub next_task : ℕ
  pub pushed : List Callback
  pub succeeded : ℕ
  pub failed : List String

unfoldable pub kept : Executor → Kept
kept s = record {
  handler = s.handler;
  task_queue_length = s.task_queue_length;
  succeeded_raises = s.succeeded_raises;
  tasks = s.tasks;
  objects = s.objects;
  next_task = s.next_task;
  pushed = s.pushed;
  succeeded = s.succeeded;
  failed = s.failed;
}

kept-drain_one :
    (s : Executor) (k : ℕ) (d : RunData) (q : List RunData) → kept (drain_one s k d q) ≡ kept s
unfolding kept drain_one
kept-drain_one s k d q = refl

kept-drain_loop :
    (s : Executor) (k : ℕ) (acc q : List RunData) → kept (drain_loop s k acc q).1 ≡ kept s
unfolding drain_loop
kept-drain_loop s k acc [] = refl
kept-drain_loop s k acc (d ∷ q) =
    kept-drain_loop (drain_one s k d q) k (acc ++ d ∷ []) q ∙ kept-drain_one s k d q

fst-drain_loop : (s : Executor) (k : ℕ) (acc q : List RunData) → (drain_loop s k acc q).0 ≡ acc ++ q
unfolding drain_loop
fst-drain_loop s k acc [] = sym (append-nil acc)
fst-drain_loop s k acc (d ∷ q) =
    fst-drain_loop (drain_one s k d q) k (acc ++ d ∷ []) q ∙ append_assoc acc (d ∷ []) q

slot-drain_one :
    (s : Executor) (k : ℕ) (d : RunData) (q : List RunData) (j : ℕ)
    → slot (drain_one s k d q) j
      ≡ only k j
          (record (slot s j) { waiting = q; log_ids = discard d.log_id (slot s j).log_ids })
          (slot s j)
unfolding drain_one
slot-drain_one s k d q j = ground (
  arith,
  slot-release (record s { queue = set s.queue k q }) k d.log_id j,
  slot-set_queue s k j q,
)

slot-drain_loop :
    (s : Executor) (k : ℕ) (acc q : List RunData) (j : ℕ)
    → (slot s k).waiting ≡ q
    → slot (drain_loop s k acc q).1 j ≡ only k j (drained_slot q (slot s j)) (slot s j)
unfolding drain_loop
slot-drain_loop s k acc [] j h = ground arith
slot-drain_loop s k acc (d ∷ q) j h = ground (
  arith,
  slot-drain_loop (drain_one s k d q) k (acc ++ d ∷ []) q j,
  slot-drain_one s k d q j,
  slot-drain_one s k d q k,
)

kept-drain : (s : Executor) (k : ℕ) → kept (drain_pending_queue s k).1 ≡ kept s
unfolding drain_pending_queue get_queue
kept-drain s k = kept-drain_loop (get_queue s k).1 k [] (items s.queue k) ∙ unfold kept in refl

fst-drain : (s : Executor) (k : ℕ) → (drain_pending_queue s k).0 ≡ (slot s k).waiting
unfolding drain_pending_queue get_queue
fst-drain s k = fst-drain_loop (get_queue s k).1 k [] (items s.queue k) ∙ unfold slot in refl

pub fst-get_queue : (s : Executor) (k : ℕ) → (get_queue s k).0 ≡ (slot s k).waiting
unfolding get_queue slot
fst-get_queue s k = refl

slot-drain :
    (s : Executor) (k j : ℕ)
    → slot (drain_pending_queue s k).1 j
      ≡ only k j (drained_slot (slot s k).waiting (slot s j)) (slot s j)
unfolding drain_pending_queue
slot-drain s k j = ground (
  arith,
  slot-drain_loop (get_queue s k).1 k [] (get_queue s k).0 j,
  slot-get_queue s k j,
  slot-get_queue s k k,
  fst-get_queue s k,
)

discard_all-append :
    (ds : List RunData) (d : RunData) (xs : List ℕ)
    → discard_all (ds ++ d ∷ []) xs ≡ discard d.log_id (discard_all ds xs)
discard_all-append [] d xs = refl
discard_all-append (e ∷ ds) d xs = discard_all-append ds d (discard e.log_id xs)

-- Giving up the replacement too.
discard_next : Option RunData → List ℕ → List ℕ
discard_next none xs = xs
discard_next (some d) xs = discard d.log_id xs

discard_all-next :
    (ds : List RunData) (o : Option RunData) (xs : List ℕ)
    → discard_next o (discard_all ds xs) ≡ discard_all (pending o ds) xs
unfolding discard_next
discard_all-next ds none xs = rw (append-nil ds)
discard_all-next ds (some d) xs = sym (discard_all-append ds d xs)

pub fst-pop : (s : Executor) (k : ℕ) → (pop_cover_replacement s k).0 ≡ (slot s k).next
unfolding pop_cover_replacement slot
fst-pop s k = refl

pub kept-pop : (s : Executor) (k : ℕ) → kept (pop_cover_replacement s k).1 ≡ kept s
unfolding pop_cover_replacement kept
kept-pop s k = refl

fst-give_up_replacement :
    (s : Executor) (k : ℕ) (ds : List RunData) (o : Option RunData)
    → (give_up_replacement s k ds o).0 ≡ pending o ds
unfolding give_up_replacement
fst-give_up_replacement s k ds none = sym (append-nil ds)
fst-give_up_replacement s k ds (some d) = refl

slot-give_up_replacement :
    (s : Executor) (k : ℕ) (ds : List RunData) (o : Option RunData) (j : ℕ)
    → slot (give_up_replacement s k ds o).1 j
      ≡ only k j (record (slot s j) { log_ids = discard_next o (slot s j).log_ids }) (slot s j)
unfolding give_up_replacement discard_next
slot-give_up_replacement s k ds none j = ground arith
slot-give_up_replacement s k ds (some d) j = slot-release s k d.log_id j

kept-give_up_replacement :
    (s : Executor) (k : ℕ) (ds : List RunData) (o : Option RunData)
    → kept (give_up_replacement s k ds o).1 ≡ kept s
unfolding give_up_replacement kept release_log_id
kept-give_up_replacement s k ds none = refl
kept-give_up_replacement s k ds (some d) = refl

slot_at : (s : Executor) (k j : ℕ) → nat_beq k j ≡ true → slot s k ≡ slot s j
slot_at s k j h = ap (slot s) (ground arith)

-- A slot with nothing waiting.
abbrev pub cleared : Slot → Slot
cleared v = record v {
  next = none;
  waiting = [];
  log_ids = discard_all (pending v.next v.waiting) v.log_ids;
}

-- `give_up_pending` returns all that waits, the queue's entries first, ...
pub fst-give_up :
    (s : Executor) (k : ℕ) → (give_up_pending s k).0 ≡ pending (slot s k).next (slot s k).waiting
unfolding give_up_pending
fst-give_up s k = ground (
  arith,
  fst-give_up_replacement (pop_cover_replacement (drain_pending_queue s k).1 k).1 k
      (drain_pending_queue s k).0 (pop_cover_replacement (drain_pending_queue s k).1 k).0,
  fst-drain s k,
  fst-pop (drain_pending_queue s k).1 k,
  slot-drain s k k,
)

-- ... clears the job's slot and no other, ...
pub slot-give_up :
    (s : Executor) (k j : ℕ)
    → slot (give_up_pending s k).1 j ≡ only k j (cleared (slot s j)) (slot s j)
unfolding give_up_pending
slot-give_up s k j = ground (
  arith,
  slot-give_up_replacement (pop_cover_replacement (drain_pending_queue s k).1 k).1 k
      (drain_pending_queue s k).0 (pop_cover_replacement (drain_pending_queue s k).1 k).0 j,
  fst-drain s k,
  fst-pop (drain_pending_queue s k).1 k,
  slot-pop (drain_pending_queue s k).1 k j,
  slot-drain s k j,
  slot-drain s k k,
  discard_all-next (slot s k).waiting (slot s k).next (slot s j).log_ids,
  slot_at s k j,
)

-- ... and leaves the rest of the state.
pub kept-give_up : (s : Executor) (k : ℕ) → kept (give_up_pending s k).1 ≡ kept s
unfolding give_up_pending
kept-give_up s k =
    kept-give_up_replacement (pop_cover_replacement (drain_pending_queue s k).1 k).1 k
      (drain_pending_queue s k).0 (pop_cover_replacement (drain_pending_queue s k).1 k).0
    ∙ kept-pop (drain_pending_queue s k).1 k
    ∙ kept-drain s k
