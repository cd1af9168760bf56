-- ===== src/Runtime/Executor/Slots.antt =====
-- What each helper on the executor's dictionaries does to the entries of one job.
use pyxxl.Base.{
  ℕ, ◌≡◌, refl, Option, none, some, List, [], ◌∷◌, Dict, get, set, remove, add, discard, nat_eq,
  nat_beq, get-set, get-remove, arith, if◌then◌else◌,
}
use pyxxl.Model.{RunData}
use pyxxl.Runtime.Executor.State.{
  Message, Executor, items, touch, register_log_id, release_log_id, release_from,
  pop_cover_replacement, start_task, cancel_task, cancel_object, get_queue,
}

pub record Slot : Type 0 where
  pub current : Option ℕ
  pub next : Option RunData
  pub waiting : List RunData
  pub log_ids : List ℕ

unfoldable pub slot : Executor → ℕ → Slot
slot s j = record {
  current = get s.tasks j;
  next = get s.cover_replacements j;
  waiting = items s.queue j;
  log_ids = items s.job_log_ids j;
}

pub slot-current : (s : Executor) (j : ℕ) → (slot s j).current ≡ get s.tasks j
unfolding slot
slot-current s j = refl

-- A change of the entries of job `k` alone.
abbrev pub only {ℓ} : {A : Type ℓ} → ℕ → ℕ → A → A → A
only k j new old = if nat_beq k j then new else old

pub items-touch {ℓ} : {A : Type ℓ} (d : Dict ℕ (List A)) (k j : ℕ) → items (touch d k) j ≡ items d j
unfolding touch
items-touch d k j = ground (arith, get-set d k j [])

pub slot-register :
    (s : Executor) (k l j : ℕ)
    → slot (register_log_id s k l) j
      ≡ only k j (record (slot s j) { log_ids = add l (slot s j).log_ids }) (slot s j)
unfolding slot register_log_id
slot-register s k l j = ground (arith, get-set s.job_log_ids k j (add l (items s.job_log_ids k)))

items-release_from :
    (d : Dict ℕ (List ℕ)) (k l : ℕ) (xs : List ℕ) (j : ℕ)
    → items d k ≡ xs
    → items (release_from d k l xs) j ≡ only k j (discard l xs) (items d j)
unfolding release_from discard
items-release_from d k l [] j h = ground arith
items-release_from d k l (x ∷ xs) j h =
    ground (arith, get-set d k j (discard l (x ∷ xs)), get-remove d k j)

pub slot-release :
    (s : Executor) (k l j : ℕ)
    → slot (release_log_id s k l) j
      ≡ only k j (record (slot s j) { log_ids = discard l (slot s j).log_ids }) (slot s j)
unfolding slot release_log_id
slot-release s k l j =
    ground (arith, items-release_from s.job_log_ids k l (items s.job_log_ids k) j refl)

pub slot-pop :
    (s : Executor) (k j : ℕ)
    → slot (pop_cover_replacement s k).1 j ≡ only k j (record (slot s j) { next = none }) (slot s j)
unfolding slot pop_cover_replacement
slot-pop s k j = ground (arith, get-remove s.cover_replacements k j)

pub slot-set_queue :
    (s : Executor) (k j : ℕ) (l : List RunData)
    → slot (record s { queue = set s.queue k l }) j
      ≡ only k j (record (slot s j) { waiting = l }) (slot s j)
unfolding slot
slot-set_queue s k j l = ground (arith, get-set s.queue k j l)

pub slot-set_next :
    (s : Executor) (k j : ℕ) (d : RunData)
    → slot (record s { cover_replacements = set s.cover_replacements k d }) j
      ≡ only k j (record (slot s j) { next = some d }) (slot s j)
unfolding slot
slot-set_next s k j d = ground (arith, get-set s.cover_replacements k j d)

pub slot-pop_task :
    (s : Executor) (k j : ℕ)
    → slot (record s { tasks = remove s.tasks k }) j
      ≡ only k j (record (slot s j) { current = none }) (slot s j)
unfolding slot
slot-pop_task s k j = ground (arith, get-remove s.tasks k j)

pub slot-get_queue : (s : Executor) (k j : ℕ) → slot (get_queue s k).1 j ≡ slot s j
unfolding slot get_queue
slot-get_queue s k j = ground (arith, items-touch s.queue k j)

pub slot-touch_logs :
    (s : Executor) (k j : ℕ) → slot (record s { job_log_ids = touch s.job_log_ids k }) j ≡ slot s j
unfolding slot
slot-touch_logs s k j = ground (arith, items-touch s.job_log_ids k j)

pub slot-start :
    (s : Executor) (k j : ℕ) (d : RunData)
    → slot (start_task s k d) j
      ≡ only k j (record (slot s j) { current = some s.next_task }) (slot s j)
unfolding slot start_task
slot-start s k j d = ground (arith, get-set s.tasks k j s.next_task)

pub slot-cancel :
    (s : Executor) (t j : ℕ) (reason : Message) → slot (cancel_task s t reason) j ≡ slot s j
unfolding slot cancel_task cancel_object
slot-cancel s t j reason = ground arith

-- Releasing the log ids of given-up triggers, one by one.
abbrev pub discard_all : List RunData → List ℕ → List ℕ
discard_all [] xs = xs
discard_all (d ∷ ds) xs = discard_all ds (discard d.log_id xs)

-- What is left of a slot when its queue is drained.
abbrev pub drained_slot : List RunData → Slot → Slot
drained_slot q v = record v { waiting = []; log_ids = discard_all q v.log_ids }
