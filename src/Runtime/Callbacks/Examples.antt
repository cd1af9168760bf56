-- ===== src/Runtime/Callbacks/Examples.antt =====
-- Runs of the callback manager over an empty store, the promises applied to them.
use pyxxl.Base.{
  ℕ, ◌≤◌, ◌≡◌, refl, Bool, true, false, none, some, List, [], ◌∷◌, All, Dict, empty, keys, get, set,
  nat_eq, count, arith,
}
use pyxxl.Runtime.Callbacks.State.{
  Request, File, Manager, start, replay_persisted_requests, replay_paths, sorted, enqueue,
  queue_request, ensure_worker, persist_request, give_path, write_file,
}
use pyxxl.Runtime.Callbacks.Worker.{
  take_request, begin_stop, Event, new_request, enqueues, starts, takes, delivers, fails, wakes,
  stops, step, run, init,
}
use pyxxl.Runtime.Callbacks.Pending.{IsCounted}
use pyxxl.Runtime.Callbacks.Filed.{IsFiled, to_list}
use pyxxl.Runtime.Callbacks.Persist.{IsFound}
use pyxxl.Runtime.Callbacks.Opening.{IsStore}
use pyxxl.Runtime.Callbacks.Promises.{
  run-init-IsCounted, run-start-IsFiled, restarted, stop_restart_keeps,
  abandoned_retry_stays_pending,
}

abbrev everywhere : ℕ → Bool
everywhere path = true

abbrev no_files : Dict ℕ File
no_files = empty

-- One request fails, one is being sent, one waits.
abbrev reports : List Event
reports =
    (starts
      ∷ enqueues 1 10 200 (some "done")
      ∷ takes
      ∷ fails
      ∷ enqueues 2 11 500 none
      ∷ takes
      ∷ enqueues 3 12 200 none
      ∷ [])

abbrev opened : Manager
opened = init everywhere no_files 0

abbrev waiting : Manager
waiting = run opened reports

no_files-IsStore : IsStore everywhere no_files 0
unfolding empty keys count
no_files-IsStore = record {
  writes = λ p. refl;
  stored_once = λ p. omega arith;
  stored_fresh = λ p h. refl;
}

run-start-IsFiled_example : IsFiled (run (start opened) reports)
run-start-IsFiled_example = run-start-IsFiled everywhere no_files 0 reports no_files-IsStore

abbrev running : Manager
running = run (start opened) reports

running-IsCounted : IsCounted running
unfolding run step
running-IsCounted = run-init-IsCounted everywhere no_files 0 (starts ∷ reports)

stop_restart_keeps_example :
    All (IsFound (restarted running).queue) running.queue
    × All (IsFound (restarted running).queue) (to_list running.in_flight)
    × All (IsFound (restarted running).queue) running.retry_tasks
stop_restart_keeps_example = stop_restart_keeps running running-IsCounted run-start-IsFiled_example

-- A stop that closes the manager while a retry sleeps.
abbrev closing : List Event
closing = (starts ∷ enqueues 1 10 200 (some "done") ∷ takes ∷ fails ∷ stops true ∷ [])

abbrev shut : Manager
shut = run opened closing

abbrev failed : Request
failed = record (new_request 1 10 200 (some "done")) { attempts = 1; persisted_path = some 0 }

shut_closed : shut.closed ≡ true
unfolding run step init start replay_persisted_requests replay_paths sorted enqueue queue_request
    ensure_worker take_request begin_stop persist_request give_path write_file get set empty keys
shut_closed = refl

shut_retries : shut.retry_tasks ≡ failed ∷ []
unfolding run step init start replay_persisted_requests replay_paths sorted enqueue queue_request
    ensure_worker take_request begin_stop persist_request give_path write_file get set empty keys
shut_retries = refl

abandoned_retry_stays_pending_example :
    (1 ≤ (run (step shut wakes) (takes ∷ delivers ∷ [])).pending)
    × ((run (step shut wakes) (takes ∷ delivers ∷ [])).pending_empty ≡ false)
abandoned_retry_stays_pending_example =
    abandoned_retry_stays_pending shut failed [] (run-init-IsCounted everywhere no_files 0 closing)
      shut_closed shut_retries (takes ∷ delivers ∷ []) (refl, (refl, tt))
