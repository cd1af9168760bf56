-- ===== src/Runtime/Callbacks/Pending.antt =====
-- The pending count and the queues: what `_pending` and `_pending_empty` say of the requests that
-- the manager holds.
use pyxxl.Base.{
  ℕ, suc, ◌+◌, ◌≤◌, ◌≡◌, refl, true, false, Option, none, some, List, [], ◌∷◌, length,
  length-append, get, nat_beq, arith, if◌then◌else◌, if_intro, nat_eq, keys,
}
use pyxxl.Runtime.Callbacks.State.{
  Request, Manager, ensure_worker, queue_request, replay_one, replay_paths, sorted,
  load_request_from_file, replay_persisted_requests, start, enqueue, give_path, persist_request,
  write_file, delete_file, delete_persisted_request, mark_completed,
}
use pyxxl.Runtime.Callbacks.Worker.{take_first, take_request, deliver, fail, requeue, wake_oldest}

abbrev pub flying : Option Request → ℕ
flying none = 0
flying (some r) = 1

-- The number of requests that the manager holds.
abbrev pub held_count : Manager → ℕ
held_count m = length m.queue + flying m.in_flight + length m.retry_tasks

-- At least the held requests are pending, before a closing stop exactly those; the event is set
-- when nothing is; and what is queued or sent has a worker.
pub record IsCounted (m : Manager) : Type 0 where
  pub most : held_count m ≤ m.pending
  pub exact : m.closed ≡ false → held_count m ≡ m.pending
  pub event : m.pending_empty ≡ nat_beq m.pending 0
  pub queue_served : m.worker ≡ false → length m.queue ≡ 0
  pub flight_served : m.worker ≡ false → flying m.in_flight ≡ 0

-- What counts of a manager.
pub record IsSameCount (m n : Manager) : Type 0 where
  pub queue : n.queue ≡ m.queue
  pub in_flight : n.in_flight ≡ m.in_flight
  pub worker : n.worker ≡ m.worker
  pub retry_tasks : n.retry_tasks ≡ m.retry_tasks
  pub pending : n.pending ≡ m.pending
  pub pending_empty : n.pending_empty ≡ m.pending_empty
  pub closed : n.closed ≡ m.closed
  pub started : n.started ≡ m.started

pub persist_request-IsSameCount :
    (m : Manager) (r : Request) → IsSameCount m (persist_request m r).1
unfolding persist_request give_path write_file
persist_request-IsSameCount m r = record {
  queue = ground arith;
  in_flight = ground arith;
  worker = ground arith;
  retry_tasks = ground arith;
  pending = ground arith;
  pending_empty = ground arith;
  closed = ground arith;
  started = ground arith;
}

pub queue_request-IsCounted :
    (m : Manager) (r : Request) → IsCounted m → IsCounted (queue_request m r)
unfolding queue_request ensure_worker
queue_request-IsCounted m r c = record {
  most = ground (arith, c.most, length-append m.queue (r ∷ []));
  exact = λ open_. ground (arith, c.exact, length-append m.queue (r ∷ []));
  event = ground arith;
  queue_served = λ idle. ground (arith, c.queue_served);
  flight_served = λ idle. ground (arith, c.flight_served);
}

replay_one-IsCounted :
    (m : Manager) (p : ℕ) (r : Option Request) → IsCounted m → IsCounted (replay_one m p r)
unfolding replay_one
replay_one-IsCounted m p none c = record {
  most = c.most;
  exact = c.exact;
  event = c.event;
  queue_served = c.queue_served;
  flight_served = c.flight_served;
}
replay_one-IsCounted m p (some r) c = queue_request-IsCounted m r c

replay_paths-IsCounted : (m : Manager) (ps : List ℕ) → IsCounted m → IsCounted (replay_paths m ps)
unfolding replay_paths
replay_paths-IsCounted m [] c = c
replay_paths-IsCounted m (p ∷ ps) c =
    replay_paths-IsCounted (replay_one m p (load_request_from_file p (get m.store p))) ps
      (replay_one-IsCounted m p (load_request_from_file p (get m.store p)) c)

pub start-IsCounted : (m : Manager) → IsCounted m → IsCounted (start m)
unfolding start replay_persisted_requests
start-IsCounted m c =
    if_intro IsCounted m.started _ _ (λ old. c)
      λ new.
        replay_paths-IsCounted (record m { started = true }) (sorted (keys m.store))
          record {
            most = c.most;
            exact = c.exact;
            event = c.event;
            queue_served = c.queue_served;
            flight_served = c.flight_served;
          }

pub enqueue-IsCounted : (m : Manager) (r : Request) → IsCounted m → IsCounted (enqueue m r)
unfolding enqueue
enqueue-IsCounted m r c =
    if_intro IsCounted m.closed _ _ (λ shut. c)
      λ open_. queue_request-IsCounted (start m) r (start-IsCounted m c)

take_first-IsCounted :
    (m : Manager) (q : List Request)
    → m.queue ≡ q
    → m.in_flight ≡ none
    → m.worker ≡ true
    → IsCounted m
    → IsCounted (take_first m q)
take_first-IsCounted m [] e f w c = c
take_first-IsCounted m (r ∷ rest) e f w c = record {
  most = ground (arith, c.most);
  exact = λ open_. ground (arith, c.exact open_);
  event = c.event;
  queue_served = λ idle. ground (arith, c.queue_served idle);
  flight_served = λ idle. ground arith;
}

pub take_request-IsCounted : (m : Manager) → IsCounted m → IsCounted (take_request m)
unfolding take_request
take_request-IsCounted m c = go m.in_flight refl
  where
    go :
        (f : Option Request)
        → m.in_flight ≡ f
        → IsCounted (elim f [ none ↦ if m.worker then take_first m m.queue else m | some r ↦ m ])
    go none f =
        if_intro IsCounted m.worker _ _ (λ w. take_first-IsCounted m m.queue refl f w c) (λ w. c)
    go (some r) f = c

-- A manager of which nothing that counts changed since `m`.
same_count : (m n : Manager) → IsSameCount m n → IsCounted m → IsCounted n
same_count m n s c = record {
  most = ground (arith, c.most, s);
  exact = λ open_. ground (arith, c.exact, s);
  event = ground (arith, c.event, s);
  queue_served = λ idle. ground (arith, c.queue_served, s);
  flight_served = λ idle. ground (arith, c.flight_served, s);
}

pub deliver-IsCounted :
    (m : Manager) (f : Option Request) → m.in_flight ≡ f → IsCounted m → IsCounted (deliver m f)
unfolding mark_completed delete_persisted_request delete_file
deliver-IsCounted m none e c = c
deliver-IsCounted m (some r) e c = record {
  most = ground (arith, c.most);
  exact = λ open_. ground (arith, c.exact);
  event = ground (arith, c.event, c.most);
  queue_served = λ idle. ground (arith, c.queue_served);
  flight_served = λ idle. ground arith;
}

pub fail-IsCounted :
    (m : Manager) (f : Option Request) → m.in_flight ≡ f → IsCounted m → IsCounted (fail m f)
fail-IsCounted m none e c = c
fail-IsCounted m (some r) e c =
    let p =
      persist_request (record m { in_flight = none }) (record r { attempts = suc r.attempts }) in
    let s =
      persist_request-IsSameCount (record m { in_flight = none })
        (record r { attempts = suc r.attempts }) in
    let len = length-append p.1.retry_tasks (p.0 ∷ []) in
    record {
      most = ground (arith, c.most, s, len);
      exact = λ open_. ground (arith, c.exact, s, len);
      event = ground (arith, c.event, s);
      queue_served = λ idle. ground (arith, c.queue_served, s);
      flight_served = λ idle. ground (arith, s);
    }

pub wake_oldest-IsCounted :
    (m : Manager) (rs : List Request)
    → m.retry_tasks ≡ rs
    → IsCounted m
    → IsCounted (wake_oldest m rs)
unfolding requeue ensure_worker
wake_oldest-IsCounted m [] e c = c
wake_oldest-IsCounted m (r ∷ rest) e c =
    if_intro IsCounted m.closed _ _
      (λ shut. record {
        most = ground (arith, c.most);
        exact = λ open_. ground arith;
        event = c.event;
        queue_served = c.queue_served;
        flight_served = c.flight_served;
      })
      λ open_. record {
        most = ground (arith, c.most, length-append m.queue (r ∷ []));
        exact = λ o. ground (arith, c.exact open_, length-append m.queue (r ∷ []));
        event = ground (arith, c.event);
        queue_served = λ idle. ground (arith, c.queue_served);
        flight_served = λ idle. ground (arith, c.flight_served);
      }
