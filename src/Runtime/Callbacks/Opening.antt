-- ===== src/Runtime/Callbacks/Opening.antt =====
-- A manager that starts over any store has its files in order.
use pyxxl.Base.{
  ℕ, suc, ◌+◌, ◌≤◌, ◌≡◌, refl, sym, ap, Bool, true, false, Option, none, some, List, [], ◌∷◌, ◌++◌,
  get, arith, if_intro, nat_eq, keys, Dict, count,
}
use pyxxl.Runtime.Callbacks.State.{
  Request, File, Manager, saved, ensure_worker, queue_request, start, replay_one, replay_paths,
  replay_persisted_requests, load_request_from_file, sorted,
}
use pyxxl.Runtime.Callbacks.Worker.{init}
use pyxxl.Runtime.Callbacks.Ledger.{
  uses, uses-append, at_path, Ledger, IsLedger-mono, IsLedger-remove,
}
use pyxxl.Runtime.Callbacks.Filed.{to_list, IsFiled, IsFiled-by}
use pyxxl.Runtime.Callbacks.Replay.{count-sorted}

-- What is left to load is not yet used by the queue.
record IsLoading (m : Manager) (ps : List ℕ) : Type 0 where
  on : m.started ≡ true
  in_flight : m.in_flight ≡ none
  retry_tasks : m.retry_tasks ≡ []
  ledger : Ledger m [] (λ p. uses p m.queue + count p ps)

queue_request-IsLoading :
    (m : Manager) (q : ℕ) (r : Request) (ps : List ℕ)
    → IsLoading m (q ∷ ps)
    → IsLoading (queue_request m (at_path q r)) ps
unfolding queue_request ensure_worker count
queue_request-IsLoading m q r ps l =
    if_intro (λ (m₁ : Manager). IsLoading (record m₁ { queue = m₁.queue ++ at_path q r ∷ [] }) ps)
      m.worker _ _ (λ w. next) (λ w. next)
  where
    next :
        {b : Bool}
        → IsLoading
            (record m {
              worker = b;
              pending = suc m.pending;
              pending_empty = false;
              queue = m.queue ++ at_path q r ∷ [];
            })
            ps
    next = record {
      on = l.on;
      in_flight = l.in_flight;
      retry_tasks = l.retry_tasks;
      ledger =
          IsLedger-mono m.next_path _ (omega arith)
            (λ p. ground (arith, uses-append p m.queue (at_path q r ∷ []))) l.ledger;
    }

replay_one-IsLoading :
    (m : Manager) (q : ℕ) (f : Option File) (ps : List ℕ)
    → IsLoading m (q ∷ ps)
    → IsLoading (replay_one m q (load_request_from_file q f)) ps
unfolding replay_one load_request_from_file count
replay_one-IsLoading m q (some (saved r)) ps l = queue_request-IsLoading m q r ps l
replay_one-IsLoading m q _ ps l = record {
  on = l.on;
  in_flight = l.in_flight;
  retry_tasks = l.retry_tasks;
  ledger =
      IsLedger-remove q refl
        (IsLedger-mono m.next_path _ (omega arith) (λ p. ground arith) l.ledger);
}

replay_paths-IsLoading :
    (m : Manager) (ps : List ℕ) → IsLoading m ps → IsLoading (replay_paths m ps) []
unfolding replay_paths
replay_paths-IsLoading m [] l = l
replay_paths-IsLoading m (q ∷ ps) l =
    replay_paths-IsLoading (replay_one m q (load_request_from_file q (get m.store q))) ps
      (replay_one-IsLoading m q (get m.store q) ps l)

-- A store where every path can be written and no name was given out that is behind `n`.
pub record IsStore (writable : ℕ → Bool) (store : Dict ℕ File) (n : ℕ) : Type 0 where
  pub writes : (p : ℕ) → writable p ≡ true
  pub stored_once : (p : ℕ) → count p (keys store) ≤ 1
  pub stored_fresh : (p : ℕ) → n ≤ p → count p (keys store) ≡ 0

pub start-init-IsFiled :
    (writable : ℕ → Bool) (store : Dict ℕ File) (n : ℕ)
    → IsStore writable store n
    → IsFiled (start (init writable store n))
unfolding start init replay_persisted_requests
start-init-IsFiled writable store n s =
    let m = record (init writable store n) { started = true } in
    let l = replay_paths-IsLoading m (sorted (keys store)) record {
      on = refl;
      in_flight = refl;
      retry_tasks = refl;
      ledger = record {
        writes = s.writes;
        once = λ p. omega (arith, count-sorted p (keys store), s.stored_once p);
        fresh = λ p h. omega (arith, count-sorted p (keys store), s.stored_fresh p h);
        are_saved = tt;
        stored_once = s.stored_once;
        stored_fresh = s.stored_fresh;
      };
    } in
    IsFiled-by _ [] _ l.on (sym l.retry_tasks)
      (λ p. omega (arith, ap (λ x. uses p (to_list x)) l.in_flight)) l.ledger
