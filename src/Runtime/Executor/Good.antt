-- ===== src/Runtime/Executor/Good.antt =====
-- Each change which the executor makes to the entries of one job keeps what holds of them.
use mathlib.Core.List.{map-append}
use pyxxl.Base.{
  ℕ, ◌+◌, ◌≤◌, ◌≡◌, refl, true, false, none, some, List, [], ◌∷◌, ◌++◌, map, length-append, discard,
  add, count, count-cons, count-nil, count-append, count-add, count-discard, contains,
  contains-eq-ltb, All, All-append, arith,
}
use pyxxl.Model.{RunData}
use pyxxl.Runtime.Executor.Spec.{log_of, to_list, pending, has_room}
use pyxxl.Runtime.Executor.Slots.{Slot}
use pyxxl.Runtime.Executor.Drains.{cleared}
use pyxxl.Runtime.Executor.Entries.{
  IsFor, IsGood, count-discard_all, count-ids, count-pending, count-one,
}

module _ {bound j : ℕ} {v : Slot} where
  -- an idle job starts a trigger
  pub IsGood-run :
      (t : ℕ) (d : RunData)
      → IsGood bound j v none
      → d.job_id ≡ j
      → IsGood bound j (record v { current = some t; log_ids = add d.log_id v.log_ids }) (some d)
  IsGood-run t d g h = record {
    at_rest = λ e. absurd (cc);
    runs_ours = (h, tt);
    next_ours = g.next_ours;
    waiting_ours = g.waiting_ours;
    held = λ l. ground (
      arith,
      g.at_rest refl,
      g.held l,
      count-add l d.log_id v.log_ids,
      count-nil l,
      count-cons l d.log_id [],
    );
    once = λ l. ground (arith, g.held l, count-add l d.log_id v.log_ids, count-nil l);
    bounded = g.bounded;
  }

module _ {bound j : ℕ} {v : Slot} {r : RunData} (g : IsGood bound j v (some r)) where
  -- a trigger joins the queue
  pub IsGood-enqueue :
      (d : RunData)
      → d.job_id ≡ j
      → contains v.log_ids d.log_id ≡ false
      → has_room bound v.waiting ≡ true
      → IsGood bound j
          (record v { waiting = v.waiting ++ d ∷ []; log_ids = add d.log_id v.log_ids })
          (some r)
  IsGood-enqueue d h fresh room = record {
    at_rest = λ e. absurd (cc);
    runs_ours = g.runs_ours;
    next_ours = g.next_ours;
    waiting_ours = All-append (IsFor j) v.waiting (d ∷ []) g.waiting_ours (h, tt);
    held = λ l. ground (
      arith,
      g.held l,
      g.once l,
      count-add l d.log_id v.log_ids,
      contains-eq-ltb v.log_ids d.log_id,
      count-ids l r v.next v.waiting,
      count-ids l r v.next (v.waiting ++ d ∷ []),
      map-append log_of v.waiting (d ∷ []),
      count-append l (map log_of v.waiting) (map log_of (d ∷ [])),
      count-one l d,
    );
    once = λ l. ground (arith, g.once l, count-add l d.log_id v.log_ids);
    bounded = λ p. ground (arith, g.bounded p, length-append v.waiting (d ∷ []));
  }

  -- all that waits is given up
  pub IsGood-clear : IsGood bound j (cleared v) (some r)
  IsGood-clear = record {
    at_rest = λ e. absurd (cc);
    runs_ours = g.runs_ours;
    next_ours = tt;
    waiting_ours = tt;
    held = λ l. ground (
      arith,
      g.held l,
      g.once l,
      count-discard_all l (pending v.next v.waiting) v.log_ids,
      count-ids l r v.next v.waiting,
      count-pending l v.next v.waiting,
      count-one l r,
    );
    once = λ l. ground (arith, g.once l, count-discard_all l (pending v.next v.waiting) v.log_ids);
    bounded = λ p. omega arith;
  }

  -- a log id that was free stays free when others are given up
  pub contains-clear :
      (l : ℕ) → contains v.log_ids l ≡ false → contains (cleared v).log_ids l ≡ false
  contains-clear l h = ground (
    arith,
    contains-eq-ltb v.log_ids l,
    contains-eq-ltb (cleared v).log_ids l,
    count-discard_all l (pending v.next v.waiting) v.log_ids,
  )

  -- a trigger becomes the replacement
  pub IsGood-replace :
      (d : RunData)
      → d.job_id ≡ j
      → contains v.log_ids d.log_id ≡ false
      → v.next ≡ none
      → IsGood bound j (record v { next = some d; log_ids = add d.log_id v.log_ids }) (some r)
  IsGood-replace d h fresh empty = record {
    at_rest = λ e. absurd (cc);
    runs_ours = g.runs_ours;
    next_ours = (h, tt);
    waiting_ours = g.waiting_ours;
    held = λ l. ground (
      arith,
      g.held l,
      g.once l,
      count-add l d.log_id v.log_ids,
      contains-eq-ltb v.log_ids d.log_id,
      count-ids l r v.next v.waiting,
      count-ids l r (some d) v.waiting,
      count-one l d,
      count-nil l,
    );
    once = λ l. ground (arith, g.once l, count-add l d.log_id v.log_ids);
    bounded = g.bounded;
  }

  -- The trigger that ran is gone: its log id is free, ...
  abbrev pub released : Slot
  released = record v { current = none; next = none; log_ids = discard r.log_id v.log_ids }

  held_released :
      (l : ℕ)
      → count l released.log_ids
        ≡ count l (map log_of v.waiting) + count l (map log_of (to_list v.next))
  held_released l = ground (
    arith,
    g.held l,
    g.once l,
    count-discard l r.log_id v.log_ids,
    count-ids l r v.next v.waiting,
  )

  once_released : (l : ℕ) → count l released.log_ids ≤ 1
  once_released l = ground (arith, g.once l, count-discard l r.log_id v.log_ids)

  -- ... and the replacement runs, ...
  pub IsGood-next :
      (t : ℕ) (d : RunData)
      → v.next ≡ some d
      → IsGood bound j (record released { current = some t }) (some d)
  IsGood-next t d e = record {
    at_rest = λ e. absurd (cc);
    runs_ours = rw e at g.next_ours;
    next_ours = tt;
    waiting_ours = g.waiting_ours;
    held = λ l.
        ground
          (arith, held_released l, count-ids l d none v.waiting, count-one l d, count-nil l, e);
    once = once_released;
    bounded = g.bounded;
  }

  -- ... or the oldest of the queue, ...
  pub IsGood-queued :
      (t : ℕ) (d : RunData) (rest : List RunData)
      → v.next ≡ none
      → v.waiting ≡ d ∷ rest
      → IsGood bound j (record released { waiting = rest; current = some t }) (some d)
  IsGood-queued t d rest e q = record {
    at_rest = λ e. absurd (cc);
    runs_ours = let h : All (IsFor j) (d ∷ rest) = rw q at g.waiting_ours in (h.0, tt);
    next_ours = tt;
    waiting_ours = let h : All (IsFor j) (d ∷ rest) = rw q at g.waiting_ours in h.1;
    held = λ l. ground (
      arith,
      held_released l,
      count-ids l d none rest,
      count-cons l d.log_id (map log_of rest),
      count-nil l,
      e,
      q,
    );
    once = once_released;
    bounded = λ p. ground (arith, g.bounded p, q);
  }

  -- ... or nothing.
  pub IsGood-rest : v.next ≡ none → v.waiting ≡ [] → IsGood bound j released none
  IsGood-rest e q = record {
    at_rest = λ _. (refl, refl, q);
    runs_ours = tt;
    next_ours = tt;
    waiting_ours = g.waiting_ours;
    held = λ l. ground (arith, held_released l, count-nil l, e, q);
    once = once_released;
    bounded = g.bounded;
  }
