-- ===== src/Runtime/Callbacks/Recovery.antt =====
-- When the admin answers again, the retry tasks and the worker bring the pending count to zero.
use pyxxl.Base.{
  ℕ, zero, suc, ◌+◌, ◌≡◌, refl, ap, ◌∙◌, Bool, true, false, Option, none, some, List, [], ◌∷◌, ◌++◌,
  length, length-append, arith, if◌then◌else◌, nat_eq,
}
use pyxxl.Runtime.Callbacks.State.{
  Request, Manager, ensure_worker, delete_file, delete_persisted_request, mark_completed,
}
use pyxxl.Runtime.Callbacks.Worker.{
  take_first, take_request, deliver, requeue, wake, Event, takes, delivers, wakes, step, run,
}
use pyxxl.Runtime.Callbacks.Pending.{IsCounted}
use pyxxl.Runtime.Callbacks.Stopping.{step-IsCounted, run-IsCounted}

abbrev pub wake_all : List Request → List Event
wake_all [] = []
wake_all (r ∷ rs) = wakes ∷ wake_all rs

-- The worker takes a request and the admin accepts it, once for each entry.
abbrev pub send_all : ℕ → List Event
send_all zero = []
send_all (suc n) = takes ∷ delivers ∷ send_all n

-- Every retry task wakes, the request that is sent is accepted, and then every request of the queue.
abbrev pub recovery : Manager → List Event
recovery m = wake_all m.retry_tasks ++ delivers ∷ send_all (length m.queue + length m.retry_tasks)

pub run-append : (m : Manager) (es fs : List Event) → run m (es ++ fs) ≡ run (run m es) fs
unfolding run
run-append m [] fs = refl
run-append m (e ∷ es) fs = run-append (step m e) es fs

-- An open manager without retry tasks, with so many requests in the queue.
record IsAwake (m n : Manager) (k : ℕ) : Type 0 where
  queue : length n.queue ≡ k
  in_flight : n.in_flight ≡ m.in_flight
  retry_tasks : n.retry_tasks ≡ []
  closed : n.closed ≡ false

-- One retry task wakes.
record IsWoken (m n : Manager) (rest : List Request) : Type 0 where
  queue : length n.queue ≡ length m.queue + 1
  in_flight : n.in_flight ≡ m.in_flight
  retry_tasks : n.retry_tasks ≡ rest
  closed : n.closed ≡ false

step-wakes :
    (m : Manager) (r : Request) (rest : List Request)
    → m.retry_tasks ≡ r ∷ rest
    → m.closed ≡ false
    → IsWoken m (step m wakes) rest
unfolding step wake requeue ensure_worker
step-wakes m r rest e open_ =
    rw (e, open_)
      record {
        queue = ground (arith, length-append m.queue (r ∷ []));
        in_flight = ground arith;
        retry_tasks = ground arith;
        closed = ground (arith, open_);
      }

run-wake_all :
    (m : Manager) (rs : List Request)
    → m.retry_tasks ≡ rs
    → m.closed ≡ false
    → IsAwake m (run m (wake_all rs)) (length m.queue + length rs)
unfolding run
run-wake_all m [] e open_ = record {
  queue = omega arith;
  in_flight = refl;
  retry_tasks = e;
  closed = open_;
}
run-wake_all m (r ∷ rest) e open_ =
    let s = step-wakes m r rest e open_ in
    let a = run-wake_all (step m wakes) rest s.retry_tasks s.closed in
    record {
      queue = ground (arith, a, s);
      in_flight = a.in_flight ∙ s.in_flight;
      retry_tasks = a.retry_tasks;
      closed = a.closed;
    }

-- The request that is sent is accepted.
record IsLanded (m n : Manager) : Type 0 where
  queue : n.queue ≡ m.queue
  in_flight : n.in_flight ≡ none
  retry_tasks : n.retry_tasks ≡ m.retry_tasks
  closed : n.closed ≡ m.closed

deliver-IsLanded : (m : Manager) (f : Option Request) → m.in_flight ≡ f → IsLanded m (deliver m f)
unfolding mark_completed delete_persisted_request delete_file
deliver-IsLanded m none e = record {
  queue = refl;
  in_flight = e;
  retry_tasks = refl;
  closed = refl;
}
deliver-IsLanded m (some r) e = record {
  queue = ground arith;
  in_flight = ground arith;
  retry_tasks = ground arith;
  closed = ground arith;
}

step-delivers : (m : Manager) → IsLanded m (step m delivers)
unfolding step
step-delivers m = deliver-IsLanded m m.in_flight refl

-- The worker takes a request and the admin accepts it.
record IsSent (m n : Manager) (k : ℕ) : Type 0 where
  queue : length n.queue ≡ k
  in_flight : n.in_flight ≡ none
  retry_tasks : n.retry_tasks ≡ m.retry_tasks
  closed : n.closed ≡ m.closed

-- What a worker that awaits the queue takes.
record IsTaken (m n : Manager) (k : ℕ) : Type 0 where
  queue : length n.queue ≡ k
  retry_tasks : n.retry_tasks ≡ m.retry_tasks
  closed : n.closed ≡ m.closed

take_first-IsTaken :
    (m : Manager) (q : List Request) (k : ℕ) → length q ≡ suc k → IsTaken m (take_first m q) k
take_first-IsTaken m [] k e = absurd (ground (arith, e))
take_first-IsTaken m (r ∷ rest) k e = record {
  queue = ground (arith, e);
  retry_tasks = refl;
  closed = refl;
}

step-takes :
    (m : Manager) (k : ℕ)
    → length m.queue ≡ suc k
    → m.in_flight ≡ none
    → IsCounted m
    → IsTaken m (step m takes) k
unfolding step take_request
step-takes m k q f c = go m.in_flight m.worker f (ground (arith, c.queue_served))
  where
    go :
        (f : Option Request) (b : Bool)
        → f ≡ none
        → b ≡ true
        → IsTaken m (elim f [ none ↦ if b then take_first m m.queue else m | some r ↦ m ]) k
    go none true e h = take_first-IsTaken m m.queue k q
    go none false e h = absurd (ground (arith, h))
    go (some r) b e h = absurd (ground (arith, e))

step-sends :
    (m : Manager) (k : ℕ)
    → length m.queue ≡ suc k
    → m.in_flight ≡ none
    → IsCounted m
    → IsSent m (step (step m takes) delivers) k
step-sends m k q f c =
    let s = step-takes m k q f c in
    let d = step-delivers (step m takes) in
    record {
      queue = ap length d.queue ∙ s.queue;
      in_flight = d.in_flight;
      retry_tasks = d.retry_tasks ∙ s.retry_tasks;
      closed = d.closed ∙ s.closed;
    }

run-send_all :
    (m : Manager) (k : ℕ)
    → length m.queue ≡ k
    → m.in_flight ≡ none
    → m.retry_tasks ≡ []
    → m.closed ≡ false
    → IsCounted m
    → ((run m (send_all k)).pending ≡ 0)
unfolding run
run-send_all m zero q f r open_ c = ground (arith, c.exact open_)
run-send_all m (suc k) q f r open_ c =
    let s = step-sends m k q f c in
    run-send_all (step (step m takes) delivers) k s.queue s.in_flight (s.retry_tasks ∙ r)
      (s.closed ∙ open_) (step-IsCounted _ delivers (step-IsCounted m takes c))

-- When the admin accepts whatever is sent, an open manager whose count is right has nothing pending
-- once each retry task has woken and the worker has sent each request.
pub recovery-settles :
    (m : Manager) → IsCounted m → m.closed ≡ false → (run m (recovery m)).pending ≡ 0
unfolding run step
recovery-settles m c open_ =
    let a = run-wake_all m m.retry_tasks refl open_ in
    let w = run-IsCounted m (wake_all m.retry_tasks) c in
    let n = run m (wake_all m.retry_tasks) in
    let d = step-delivers n in
    rw
      (run-append m (wake_all m.retry_tasks)
        (delivers ∷ send_all (length m.queue + length m.retry_tasks)))
      (run-send_all (step n delivers) _ (ap length d.queue ∙ a.queue) d.in_flight
        (d.retry_tasks ∙ a.retry_tasks) (d.closed ∙ a.closed) (step-IsCounted n delivers w))
