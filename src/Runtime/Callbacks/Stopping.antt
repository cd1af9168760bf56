-- ===== src/Runtime/Callbacks/Stopping.antt =====
-- `stop` and the pending count; every stretch of the manager's code keeps the count.
use pyxxl.Base.{
  ℕ, ◌≡◌, refl, sym, ap, ◌∙◌, nat_beq_iff, Bool, true, false, Option, none, some, List, [], ◌∷◌,
  nat_beq, arith, if_intro, nat_eq, Dict,
}
use pyxxl.Runtime.Callbacks.State.{Request, File, Manager, persist_request}
use pyxxl.Runtime.Callbacks.Worker.{
  wake, persist_all, persist_buffered_requests, cancel_flight, cancel_worker, reset_pending,
  begin_stop, finish_stop, Event, new_request, enqueues, starts, takes, delivers, fails, wakes,
  stops, drains, times_out, step, run, init,
}
use pyxxl.Runtime.Callbacks.Pending.{
  flying, IsCounted, persist_request-IsSameCount, start-IsCounted, enqueue-IsCounted,
  take_request-IsCounted, deliver-IsCounted, fail-IsCounted, wake_oldest-IsCounted,
}

-- What `persist_all` leaves of a manager whose queue it is given.
pub record IsBare (m n : Manager) : Type 0 where
  pub queue : n.queue ≡ []
  pub in_flight : n.in_flight ≡ m.in_flight
  pub worker : n.worker ≡ m.worker
  pub retry_tasks : n.retry_tasks ≡ m.retry_tasks
  pub closed : n.closed ≡ m.closed
  pub started : n.started ≡ m.started

pub persist_all-IsBare : (m : Manager) (q : List Request) → m.queue ≡ q → IsBare m (persist_all m q)
unfolding persist_all
persist_all-IsBare m [] e = record {
  queue = e;
  in_flight = refl;
  worker = refl;
  retry_tasks = refl;
  closed = refl;
  started = refl;
}
persist_all-IsBare m (r ∷ rest) e =
    let s = persist_request-IsSameCount (record m { queue = rest }) r in
    let b = persist_all-IsBare (persist_request (record m { queue = rest }) r).1 rest s.queue in
    record {
      queue = b.queue;
      in_flight = b.in_flight ∙ s.in_flight;
      worker = b.worker ∙ s.worker;
      retry_tasks = b.retry_tasks ∙ s.retry_tasks;
      closed = b.closed ∙ s.closed;
      started = b.started ∙ s.started;
    }

-- A manager whose worker was cancelled, when it had no worker or nothing was sent without one.
pub record IsHalted (m n : Manager) : Type 0 where
  pub queue : n.queue ≡ m.queue
  pub in_flight : flying n.in_flight ≡ 0
  pub worker : n.worker ≡ false
  pub retry_tasks : n.retry_tasks ≡ m.retry_tasks
  pub closed : n.closed ≡ m.closed
  pub pending : n.pending ≡ m.pending
  pub pending_empty : n.pending_empty ≡ m.pending_empty
  pub started : n.started ≡ m.started

cancel_flight-IsHalted :
    (m : Manager) (f : Option Request)
    → m.in_flight ≡ f
    → IsHalted m (record (cancel_flight m f) { worker = false })
cancel_flight-IsHalted m none e = record {
  queue = refl;
  in_flight = rw e refl;
  worker = refl;
  retry_tasks = refl;
  closed = refl;
  pending = refl;
  pending_empty = refl;
  started = refl;
}
cancel_flight-IsHalted m (some r) e =
    let s = persist_request-IsSameCount (record m { in_flight = none }) r in
    record {
      queue = s.queue;
      in_flight = ap flying s.in_flight;
      worker = refl;
      retry_tasks = s.retry_tasks;
      closed = s.closed;
      pending = s.pending;
      pending_empty = s.pending_empty;
      started = s.started;
    }

pub cancel_worker-IsHalted :
    (m : Manager) → (m.worker ≡ false → flying m.in_flight ≡ 0) → IsHalted m (cancel_worker m)
unfolding cancel_worker
cancel_worker-IsHalted m served =
    if_intro (IsHalted m) m.worker _ _ (λ on. cancel_flight-IsHalted m m.in_flight refl)
      λ off. record {
        queue = refl;
        in_flight = served off;
        worker = off;
        retry_tasks = refl;
        closed = refl;
        pending = refl;
        pending_empty = refl;
        started = refl;
      }

finish_stop-IsCounted : (m : Manager) → m.pending ≡ 0 → IsCounted m → IsCounted (finish_stop m true)
unfolding finish_stop
finish_stop-IsCounted m zero_pending c =
    let h = cancel_worker-IsHalted (record m { retry_tasks = [] }) c.flight_served in
    record {
      most = ground (arith, h, c.most);
      exact = λ open_. ground (arith, h, c.most);
      event = ground (arith, h, c.event);
      queue_served = λ idle. ground (arith, h, c.most);
      flight_served = λ idle. h.in_flight;
    }

timed_out_stop-IsCounted : (m : Manager) → IsCounted m → IsCounted (finish_stop m false)
unfolding finish_stop persist_buffered_requests reset_pending
timed_out_stop-IsCounted m c =
    let b = persist_all-IsBare (record m { retry_tasks = [] }) m.queue refl in
    let h =
      cancel_worker-IsHalted (persist_all (record m { retry_tasks = [] }) m.queue)
        (λ idle. ap flying b.in_flight ∙ c.flight_served (sym b.worker ∙ idle)) in
    record {
      most = ground (arith, h, b);
      exact = λ open_. ground (arith, h, b);
      event = ground arith;
      queue_served = λ idle. ground (arith, h, b);
      flight_served = λ idle. h.in_flight;
    }

begin_stop-IsCounted : (m : Manager) (close : Bool) → IsCounted m → IsCounted (begin_stop m close)
unfolding begin_stop
begin_stop-IsCounted m true c = record {
  most = c.most;
  exact = λ open_. ground arith;
  event = c.event;
  queue_served = c.queue_served;
  flight_served = c.flight_served;
}
begin_stop-IsCounted m false c = c

pub step-IsCounted : (m : Manager) (e : Event) → IsCounted m → IsCounted (step m e)
unfolding step wake
step-IsCounted m (enqueues log time code msg) c =
    enqueue-IsCounted m (new_request log time code msg) c
step-IsCounted m starts c = start-IsCounted m c
step-IsCounted m takes c = take_request-IsCounted m c
step-IsCounted m delivers c = deliver-IsCounted m m.in_flight refl c
step-IsCounted m fails c = fail-IsCounted m m.in_flight refl c
step-IsCounted m wakes c = wake_oldest-IsCounted m m.retry_tasks refl c
step-IsCounted m (stops close) c = begin_stop-IsCounted m close c
step-IsCounted m drains c =
    if_intro IsCounted (nat_beq m.pending 0) _ _
      (λ z. finish_stop-IsCounted m ((nat_beq_iff m.pending 0).0 z) c) (λ z. c)
step-IsCounted m times_out c = timed_out_stop-IsCounted m c

pub run-IsCounted : (m : Manager) (es : List Event) → IsCounted m → IsCounted (run m es)
unfolding run
run-IsCounted m [] c = c
run-IsCounted m (e ∷ es) c = run-IsCounted (step m e) es (step-IsCounted m e c)

pub init-IsCounted :
    (writable : ℕ → Bool) (store : Dict ℕ File) (n : ℕ) → IsCounted (init writable store n)
unfolding init
init-IsCounted writable store n = record {
  most = ground arith;
  exact = λ open_. refl;
  event = refl;
  queue_served = λ idle. refl;
  flight_served = λ idle. refl;
}
