-- ===== src/Runtime/Callbacks/Promises.antt =====
-- What the callback manager promises: counts, recovery, and that no callback is lost over a stop
-- that times out.
use pyxxl.Base.{ℕ, ◌≤◌, ◌≡◌, Bool, true, false, List, ◌∷◌, All, arith, nat_eq, Dict}
use pyxxl.Runtime.Callbacks.State.{Request, File, Manager, start}
use pyxxl.Runtime.Callbacks.Worker.{finish_stop, Event, starts, wakes, step, run, init}
use pyxxl.Runtime.Callbacks.Pending.{IsCounted}
use pyxxl.Runtime.Callbacks.Stopping.{step-IsCounted}
use pyxxl.Runtime.Callbacks.Persist.{IsFound}
use pyxxl.Runtime.Callbacks.Filed.{to_list, IsFiled}
use pyxxl.Runtime.Callbacks.Saved.{times_out-IsEmptied}
use pyxxl.Runtime.Callbacks.Restart.{run-IsFiled}
use pyxxl.Runtime.Callbacks.Stopping.{run-IsCounted, init-IsCounted}
use pyxxl.Runtime.Callbacks.Replay.{All-load}
use pyxxl.Runtime.Callbacks.Leak.{is_timeout, abandoned-IsLeaking}
use pyxxl.Runtime.Callbacks.Opening.{IsStore, start-init-IsFiled}

pub run-init-IsCounted :
    (writable : ℕ → Bool) (store : Dict ℕ File) (n : ℕ) (es : List Event)
    → IsCounted (run (init writable store n) es)
run-init-IsCounted writable store n es =
    run-IsCounted (init writable store n) es (init-IsCounted writable store n)

-- From a manager that started over a store that can be written, in every history: each request that
-- waits for a retry is in the store as it is now, no two requests share a path, no file is there
-- twice, and the names still to be given out are those of no request and no file.
pub run-start-IsFiled :
    (writable : ℕ → Bool) (store : Dict ℕ File) (n : ℕ) (es : List Event)
    → IsStore writable store n
    → IsFiled (run (start (init writable store n)) es)
unfolding step
run-start-IsFiled writable store n es s =
    run-IsFiled (start (init writable store n)) es
      (step-IsCounted (init writable store n) starts (init-IsCounted writable store n))
      (start-init-IsFiled writable store n s)

-- The manager that starts over the store of one whose stop timed out.
abbrev pub restarted : Manager → Manager
restarted m = let s = finish_stop m false in start (init s.writable s.store s.next_path)

-- For a manager that was started and whose every path can be written, with counted requests and
-- the requests of its retries in its store (as in every history of one that started over a store
-- that can be written): when the wait of a stop times out, every request that it held (queued, being
-- sent or waiting for a retry) is queued, with some path, by a manager that starts over the same store.
pub stop_restart_keeps :
    (m : Manager)
    → IsCounted m
    → IsFiled m
    → All (IsFound (restarted m).queue) m.queue
      × All (IsFound (restarted m).queue) (to_list m.in_flight)
      × All (IsFound (restarted m).queue) m.retry_tasks
stop_restart_keeps m c f =
    let s = times_out-IsEmptied m c f in
    let n = finish_stop m false in
    let load = All-load n.writable n.store n.next_path s.done in
    (
      load m.queue s.ledger.are_saved s.queue,
      load (to_list m.in_flight) s.ledger.are_saved s.in_flight,
      load m.retry_tasks s.ledger.are_saved s.retry_tasks,
    )

-- In a closed manager, after a retry task woke, something stays pending and the event is not set,
-- whatever follows, until the wait of a stop times out: a stop without a timeout would not end.
pub abandoned_retry_stays_pending :
    (m : Manager) (r : Request) (rest : List Request)
    → IsCounted m
    → m.closed ≡ true
    → m.retry_tasks ≡ r ∷ rest
    → (es : List Event) → All (λ e. is_timeout e ≡ false) es
    → (1 ≤ (run (step m wakes) es).pending) × ((run (step m wakes) es).pending_empty ≡ false)
abandoned_retry_stays_pending m r rest c shut e es h =
    let more = abandoned-IsLeaking m r rest c shut e es h in
    let counted = run-IsCounted (step m wakes) es (step-IsCounted m wakes c) in
    (more, ground (arith, counted.event, more))
