-- ===== src/Runtime/Callbacks/Restart.antt =====
-- The store over a whole run, and a manager that starts over what another one saved.
use pyxxl.Base.{
  ℕ, ◌≡◌, refl, sym, ap, ◌∙◌, Bool, true, false, Option, List, [], ◌∷◌, nat_beq, arith, if_intro,
  nat_eq,
}
use pyxxl.Runtime.Callbacks.State.{Request, Manager}
use pyxxl.Runtime.Callbacks.Worker.{
  wake, persist_all, persist_buffered_requests, cancel_worker, reset_pending, begin_stop,
  finish_stop, Event, new_request, enqueues, starts, takes, delivers, fails, wakes, stops, drains,
  times_out, step, run,
}
use pyxxl.Runtime.Callbacks.Pending.{IsCounted, flying}
use pyxxl.Runtime.Callbacks.Stopping.{persist_all-IsBare, step-IsCounted, cancel_worker-IsHalted}
use pyxxl.Runtime.Callbacks.Ledger.{uses, IsLedger-mono, IsLedger-none}
use pyxxl.Runtime.Callbacks.Filed.{
  to_list, IsFiled, IsFiled-by, start-IsFiled, enqueue-IsFiled, take_request-IsFiled,
  deliver-IsFiled, fail-IsFiled, wake_oldest-IsFiled,
}
use pyxxl.Runtime.Callbacks.Saved.{unserved, cancel_worker-IsKept, times_out-IsEmptied}

-- A worker that was cancelled uses no path.
no_uses : (o : Option Request) (p : ℕ) → flying o ≡ 0 → uses p (to_list o) ≡ 0
no_uses o p e = ap (λ x. uses p (to_list x)) (unserved o e)

drains-IsFiled : (m : Manager) → IsCounted m → IsFiled m → IsFiled (finish_stop m true)
unfolding finish_stop
drains-IsFiled m c f =
    let m₁ = record m { retry_tasks = [] } in
    let h = cancel_worker-IsHalted m₁ c.flight_served in
    let k =
      cancel_worker-IsKept m₁ m.in_flight m.retry_tasks (λ p. uses p m.queue) [] refl
        c.flight_served (IsLedger-mono m.next_path _ (omega arith) (λ p. omega arith) f.ledger)
        tt in
    IsFiled-by _ [] (λ p. uses p m.queue) (h.started ∙ f.on) (sym h.retry_tasks)
      (λ p. omega (arith, ap (uses p) h.queue, no_uses (cancel_worker m₁).in_flight p h.in_flight))
      (IsLedger-none k.ledger)

times_out-IsFiled : (m : Manager) → IsCounted m → IsFiled m → IsFiled (finish_stop m false)
unfolding finish_stop persist_buffered_requests reset_pending
times_out-IsFiled m c f =
    let m₁ = record m { retry_tasks = [] } in
    let b = persist_all-IsBare m₁ m.queue refl in
    let h =
      cancel_worker-IsHalted (persist_all m₁ m.queue)
        (λ idle. ap flying b.in_flight ∙ c.flight_served (sym b.worker ∙ idle)) in
    let s = times_out-IsEmptied m c f in
    IsFiled-by _ [] (λ p. 0) (h.started ∙ b.started ∙ f.on) (sym (h.retry_tasks ∙ b.retry_tasks))
      (λ p. omega (
        arith,
        ap (uses p) (h.queue ∙ b.queue),
        no_uses (cancel_worker (persist_all m₁ m.queue)).in_flight p h.in_flight,
      ))
      (IsLedger-none s.ledger)

begin_stop-IsFiled : (m : Manager) (close : Bool) → IsFiled m → IsFiled (begin_stop m close)
unfolding begin_stop
begin_stop-IsFiled m true f = record { on = f.on; ledger = f.ledger }
begin_stop-IsFiled m false f = f

pub step-IsFiled : (m : Manager) (e : Event) → IsCounted m → IsFiled m → IsFiled (step m e)
unfolding step wake
step-IsFiled m (enqueues log time code msg) c f =
    enqueue-IsFiled m (new_request log time code msg) refl f
step-IsFiled m starts c f = start-IsFiled m f
step-IsFiled m takes c f = take_request-IsFiled m f
step-IsFiled m delivers c f = deliver-IsFiled m m.in_flight refl f
step-IsFiled m fails c f = fail-IsFiled m m.in_flight refl f
step-IsFiled m wakes c f = wake_oldest-IsFiled m m.retry_tasks refl f
step-IsFiled m (stops close) c f = begin_stop-IsFiled m close f
step-IsFiled m drains c f =
    if_intro IsFiled (nat_beq m.pending 0) _ _ (λ z. drains-IsFiled m c f) (λ z. f)
step-IsFiled m times_out c f = times_out-IsFiled m c f

pub run-IsFiled : (m : Manager) (es : List Event) → IsCounted m → IsFiled m → IsFiled (run m es)
unfolding run
run-IsFiled m [] c f = f
run-IsFiled m (e ∷ es) c f = run-IsFiled (step m e) es (step-IsCounted m e c) (step-IsFiled m e c f)
