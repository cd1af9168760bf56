-- ===== src/Runtime/Callbacks/Saved.antt =====
-- `stop` saves what the manager holds, and every stretch of code keeps the store in order.
use pyxxl.Base.{
  ℕ, ◌+◌, ◌≡◌, refl, sym, ap, ◌∙◌, subst, false, Option, none, some, List, [], ◌∷◌, ◌++◌, All,
  All-append, All-split, inl, arith, if_intro, nat_eq, Dict,
}
use pyxxl.Runtime.Callbacks.State.{Request, File, Manager, persist_request}
use pyxxl.Runtime.Callbacks.Worker.{
  persist_all, persist_buffered_requests, cancel_flight, cancel_worker, reset_pending, finish_stop,
}
use pyxxl.Runtime.Callbacks.Pending.{IsCounted, flying}
use pyxxl.Runtime.Callbacks.Stopping.{persist_all-IsBare}
use pyxxl.Runtime.Callbacks.Ledger.{uses, IsSaved, Ledger, IsLedger-mono}
use pyxxl.Runtime.Callbacks.Persist.{
  persist_request-IsPersisted, persist_all-IsKept, IsKept, IsFound, IsFound-later,
}
use pyxxl.Runtime.Callbacks.Filed.{to_list, IsFiled}

cancel_flight-IsKept :
    (m : Manager) (o : Option Request) (done : List Request) (extra : ℕ → ℕ) (before : List Request)
    → Ledger m done (λ p. uses p (to_list o) + extra p)
    → All (IsFound done) before
    → IsKept (cancel_flight m o) done extra before (to_list o)
unfolding persist_request
cancel_flight-IsKept m none done extra before l b = record {
  now_done = done;
  ledger = IsLedger-mono m.next_path extra (omega arith) (λ p. omega arith) l;
  old = b;
  new = tt;
}
cancel_flight-IsKept m (some r) done extra before l b =
    let m' = record m { in_flight = none } in
    let s =
      persist_request-IsPersisted m' done extra r r.persisted_path refl
        (IsLedger-mono m.next_path _ (omega arith) (λ p. omega arith) l) in
    let out = persist_request m' r in
    record {
      now_done = out.0 ∷ done;
      ledger = s.ledger;
      old = IsFound-later out.0 done before b;
      new = (record { path = s.path; among = inl s.same }, tt);
    }

pub unserved : (o : Option Request) → flying o ≡ 0 → o ≡ none
unserved none e = refl
unserved (some r) e = absurd (ground (arith, e))

pub cancel_worker-IsKept :
    (m : Manager) (o : Option Request) (done : List Request) (extra : ℕ → ℕ) (before : List Request)
    → m.in_flight ≡ o
    → (m.worker ≡ false → flying m.in_flight ≡ 0)
    → Ledger m done (λ p. uses p (to_list o) + extra p)
    → All (IsFound done) before
    → IsKept (cancel_worker m) done extra before (to_list o)
unfolding cancel_worker
cancel_worker-IsKept m o done extra before e served l b =
    if_intro (λ n. IsKept n done extra before (to_list o)) m.worker _ _
      (λ on.
        let k =
          cancel_flight-IsKept m m.in_flight done extra before
            (subst (λ x. Ledger m done (λ p. uses p (to_list x) + extra p)) (sym e) l) b in
        record {
          now_done = k.now_done;
          ledger = k.ledger;
          old = k.old;
          new = subst (λ x. All (IsFound k.now_done) (to_list x)) e k.new;
        })
      λ off. record {
        now_done = done;
        ledger = IsLedger-mono m.next_path extra (omega arith) (λ p. omega arith) l;
        old = b;
        new =
            subst (λ x. All (IsFound done) (to_list x))
              (sym (unserved m.in_flight (served off)) ∙ e) tt;
      }

-- What the retry tasks hold is saved under its own path.
IsFound-itself :
    (store : Dict ℕ File) (rs : List Request) → All (IsSaved store) rs → All (IsFound rs) rs
IsFound-itself store [] s = tt
IsFound-itself store (r ∷ rs) s = (
  record { path = s.0.path; among = inl (λ i. record r { persisted_path = s.0.own i }) },
  IsFound-later r rs rs (IsFound-itself store rs s.1),
)

-- `stop` after its wait timed out: the ledger of what is saved has everything that was held.
pub record IsEmptied (m n : Manager) : Type 0 where
  pub done : List Request
  pub ledger : Ledger n done (λ p. 0)
  pub queue : All (IsFound done) m.queue
  pub in_flight : All (IsFound done) (to_list m.in_flight)
  pub retry_tasks : All (IsFound done) m.retry_tasks

pub times_out-IsEmptied :
    (m : Manager) → IsCounted m → IsFiled m → IsEmptied m (finish_stop m false)
unfolding finish_stop persist_buffered_requests reset_pending
times_out-IsEmptied m c f =
    let m₁ = record m { retry_tasks = [] } in
    let b = persist_all-IsBare m₁ m.queue refl in
    let q =
      persist_all-IsKept m₁ m.retry_tasks (λ p. uses p (to_list m.in_flight) + 0) m.retry_tasks
        m.queue (IsLedger-mono m.next_path _ (omega arith) (λ p. omega arith) f.ledger)
        (IsFound-itself m.store m.retry_tasks f.ledger.are_saved) in
    let w =
      cancel_worker-IsKept (persist_all m₁ m.queue) m.in_flight q.now_done (λ p. 0)
        (m.retry_tasks ++ m.queue) b.in_flight
        (λ off. ap flying b.in_flight ∙ c.flight_served (sym b.worker ∙ off)) q.ledger
        (All-append (IsFound q.now_done) m.retry_tasks m.queue q.old q.new) in
    let both = All-split (IsFound w.now_done) m.retry_tasks m.queue w.old in
    record {
      done = w.now_done;
      ledger = w.ledger;
      queue = both.1;
      in_flight = w.new;
      retry_tasks = both.0;
    }
