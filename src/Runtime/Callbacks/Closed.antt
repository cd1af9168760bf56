-- ===== src/Runtime/Callbacks/Closed.antt =====
-- A closed manager takes no more reports: what it delivers it held when it was closed.
use pyxxl.Base.{
  ℕ, ◌+◌, ◌≤◌, ◌≡◌, refl, ◌∙◌, Bool, true, false, Option, none, some, List, [], ◌∷◌, nat_beq, arith,
  if_intro, nat_eq,
}
use pyxxl.Runtime.Callbacks.State.{Request, Manager, enqueue, start, queue_request, ensure_worker}
use pyxxl.Runtime.Callbacks.Worker.{
  persist_all, persist_buffered_requests, cancel_flight, cancel_worker, reset_pending, begin_stop,
  finish_stop, wake_oldest, requeue, wake, Event, enqueues, starts, takes, delivers, fails, wakes,
  stops, drains, times_out, step,
}
use pyxxl.Runtime.Callbacks.Pending.{persist_request-IsSameCount}
use pyxxl.Runtime.Callbacks.Stopping.{persist_all-IsBare}
use pyxxl.Runtime.Callbacks.Balance.{deliver-Keeps, fail-Keeps}
use pyxxl.Runtime.Callbacks.Held.{
  all_hits, held_of, delivered_by, take_request-held_of, take_request-same,
}

-- A closed manager that was started.
pub record IsClosed (m : Manager) : Type 0 where
  pub shut : m.closed ≡ true
  pub started : m.started ≡ true

-- Nothing comes to what is held of a log id, and the two flags stay.
pub record Shrinks (l : ℕ) (m : Manager) (delivered : ℕ) (n : Manager) : Type 0 where
  pub fewer : delivered + held_of l n ≤ held_of l m
  pub closed : n.closed ≡ m.closed
  pub started : n.started ≡ m.started

same-Shrinks : (l : ℕ) (m : Manager) → Shrinks l m 0 m
same-Shrinks l m = record { fewer = omega arith; closed = refl; started = refl }

wake_oldest-Shrinks :
    (l : ℕ) (m : Manager) (rs : List Request)
    → m.retry_tasks ≡ rs
    → m.closed ≡ true
    → Shrinks l m 0 (wake_oldest m rs)
unfolding requeue all_hits
wake_oldest-Shrinks l m [] e shut = same-Shrinks l m
wake_oldest-Shrinks l m (r ∷ rest) e shut = record {
  fewer = ground arith;
  closed = ground arith;
  started = ground arith;
}

cancel_worker-Shrinks : (l : ℕ) (m : Manager) → Shrinks l m 0 (cancel_worker m)
unfolding cancel_worker
cancel_worker-Shrinks l m =
    if_intro (Shrinks l m 0) m.worker _ _ (λ on. flight m.in_flight refl) (λ off. same-Shrinks l m)
  where
    flight :
        (f : Option Request)
        → m.in_flight ≡ f
        → Shrinks l m 0 (record (cancel_flight m f) { worker = false })
    flight none e = record { fewer = omega arith; closed = refl; started = refl }
    flight (some r) e =
        let s = persist_request-IsSameCount (record m { in_flight = none }) r in
        record { fewer = ground (arith, s, e); closed = s.closed; started = s.started }

finish_stop-Shrinks : (l : ℕ) (m : Manager) (drained : Bool) → Shrinks l m 0 (finish_stop m drained)
unfolding finish_stop persist_buffered_requests reset_pending all_hits
finish_stop-Shrinks l m true =
    let c = cancel_worker-Shrinks l (record m { retry_tasks = [] }) in
    record { fewer = ground (arith, c.fewer); closed = c.closed; started = c.started }
finish_stop-Shrinks l m false =
    let b = persist_all-IsBare (record m { retry_tasks = [] }) m.queue refl in
    let n = persist_all (record m { retry_tasks = [] }) m.queue in
    let c = cancel_worker-Shrinks l n in
    record {
      fewer = ground (arith, c.fewer, b);
      closed = c.closed ∙ b.closed;
      started = c.started ∙ b.started;
    }

-- Whatever happens to a closed manager.
pub step-Shrinks :
    (l : ℕ) (m : Manager) (e : Event) → IsClosed m → Shrinks l m (delivered_by l m e) (step m e)
unfolding step start wake begin_stop enqueue
step-Shrinks l m (enqueues log time code msg) w =
    if_intro (Shrinks l m 0) m.closed _ _ (λ s. same-Shrinks l m) (λ o. absurd (cc (o, w.shut)))
step-Shrinks l m starts w =
    if_intro (Shrinks l m 0) m.started _ _ (λ s. same-Shrinks l m) (λ o. absurd (cc (o, w.started)))
step-Shrinks l m takes w =
    let s = take_request-same m in
    record { fewer = omega (arith, take_request-held_of l m); closed = s.0; started = s.1 }
step-Shrinks l m delivers w =
    let k = deliver-Keeps l m m.in_flight refl in
    record { fewer = omega (arith, k.0); closed = k.1; started = k.2 }
step-Shrinks l m fails w =
    let k = fail-Keeps l m m.in_flight refl in
    record { fewer = omega (arith, k.0); closed = k.1; started = k.2 }
step-Shrinks l m wakes w = wake_oldest-Shrinks l m m.retry_tasks refl w.shut
step-Shrinks l m (stops true) w = record {
  fewer = omega arith;
  closed = ground (arith, w.shut);
  started = refl;
}
step-Shrinks l m (stops false) w = same-Shrinks l m
step-Shrinks l m drains w =
    if_intro (Shrinks l m 0) (nat_beq m.pending 0) _ _ (λ z. finish_stop-Shrinks l m true)
      (λ z. same-Shrinks l m)
step-Shrinks l m times_out w = finish_stop-Shrinks l m false

pub step-IsClosed : (m : Manager) (e : Event) → IsClosed m → IsClosed (step m e)
step-IsClosed m e w =
    let s = step-Shrinks 0 m e w in
    record { shut = s.closed ∙ w.shut; started = s.started ∙ w.started }

-- A report is dropped.
pub enqueue-closed : (m : Manager) (r : Request) → m.closed ≡ true → enqueue m r ≡ m
unfolding enqueue
enqueue-closed m r shut =
    if_intro (λ n. n ≡ m) m.closed _ _ (λ s. refl) (λ o. absurd (cc (o, shut)))

wake_oldest-started : (m : Manager) (rs : List Request) → (wake_oldest m rs).started ≡ m.started
unfolding requeue ensure_worker
wake_oldest-started m [] = refl
wake_oldest-started m (r ∷ rest) = ground arith

-- A manager that was started stays so.
pub step-started : (m : Manager) (e : Event) → m.started ≡ true → (step m e).started ≡ true
unfolding step start wake begin_stop enqueue queue_request ensure_worker
step-started m (enqueues log time code msg) on = ground (arith, on)
step-started m starts on = ground (arith, on)
step-started m takes on = (take_request-same m).1 ∙ on
step-started m delivers on = (deliver-Keeps 0 m m.in_flight refl).2 ∙ on
step-started m fails on = (fail-Keeps 0 m m.in_flight refl).2 ∙ on
step-started m wakes on = wake_oldest-started m m.retry_tasks ∙ on
step-started m (stops true) on = on
step-started m (stops false) on = on
step-started m drains on =
    if_intro (λ (n : Manager). n.started ≡ true) (nat_beq m.pending 0) _ _
      (λ z. (finish_stop-Shrinks 0 m true).started ∙ on) (λ z. on)
step-started m times_out on = (finish_stop-Shrinks 0 m false).started ∙ on

pub stops-IsClosed : (m : Manager) → m.started ≡ true → IsClosed (step m (stops true))
unfolding step begin_stop
stops-IsClosed m on = record { shut = refl; started = on }
