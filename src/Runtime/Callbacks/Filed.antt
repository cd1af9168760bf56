-- ===== src/Runtime/Callbacks/Filed.antt =====
-- Every stretch of the started manager's code keeps the store in order: each request that waits for
-- a retry is saved, and no two requests share a path.
use pyxxl.Base.{
  ℕ, suc, ◌+◌, ◌≤◌, ◌≡◌, refl, sym, ap, ◌∙◌, subst, Bool, true, false, Option, none, some, List, [],
  ◌∷◌, ◌++◌, arith, if◌then◌else◌, if_intro, nat_eq,
}
use pyxxl.Runtime.Callbacks.State.{
  Request, Manager, persist_request, ensure_worker, queue_request, enqueue, start, delete_file,
  delete_persisted_request, mark_completed,
}
use pyxxl.Runtime.Callbacks.Worker.{take_first, take_request, deliver, fail, requeue, wake_oldest}
use pyxxl.Runtime.Callbacks.Pending.{persist_request-IsSameCount}
use pyxxl.Runtime.Callbacks.Ledger.{
  path_hit, uses, uses-append, IsLedger, Ledger, IsLedger-mono, IsLedger-take, IsLedger-rotate,
  IsLedger-remove,
}
use pyxxl.Runtime.Callbacks.Persist.{persist_request-IsPersisted}

abbrev pub to_list : Option Request → List Request
to_list none = []
to_list (some r) = r ∷ []

-- How often the queue and the worker use a path.
abbrev pub open_uses : Manager → ℕ → ℕ
open_uses m p = uses p m.queue + uses p (to_list m.in_flight)

-- The manager is started; every path can be written, its retry tasks hold saved requests, and no path
-- is used twice.
pub record IsFiled (m : Manager) : Type 0 where
  pub on : m.started ≡ true
  pub ledger : Ledger m m.retry_tasks (open_uses m)

queue_request-IsFiled :
    (m : Manager) (r : Request) → r.persisted_path ≡ none → IsFiled m → IsFiled (queue_request m r)
unfolding queue_request ensure_worker
queue_request-IsFiled m r e f = elim m.worker as (λ b. IsFiled (go b)) [
  | true ↦ record { on = f.on; ledger = moved }
  | false ↦ record { on = f.on; ledger = moved }
]
  where
    go : Bool → Manager
    go b =
        let m₁ = record m { pending = suc m.pending; pending_empty = false } in
        let m₂ = if b then m₁ else record m₁ { worker = true } in
        record m₂ { queue = m₂.queue ++ r ∷ [] }

    moved :
        IsLedger m.writable m.store m.next_path m.retry_tasks
          (λ p. uses p (m.queue ++ r ∷ []) + uses p (to_list m.in_flight))
    moved =
        IsLedger-mono m.next_path _ (omega arith)
          (λ p. omega (arith, uses-append p m.queue (r ∷ []), ap (path_hit p) e)) f.ledger

pub start-IsFiled : (m : Manager) → IsFiled m → IsFiled (start m)
unfolding start
start-IsFiled m f =
    if_intro IsFiled m.started _ _ (λ on. f) λ off. absurd (ground (arith, f.on, off))

pub enqueue-IsFiled :
    (m : Manager) (r : Request) → r.persisted_path ≡ none → IsFiled m → IsFiled (enqueue m r)
unfolding enqueue start
enqueue-IsFiled m r e f =
    if_intro IsFiled m.closed _ _ (λ shut. f)
      λ open_. queue_request-IsFiled _ r e (start-IsFiled m f)

take_first-IsFiled :
    (m : Manager) (q : List Request)
    → m.queue ≡ q
    → m.in_flight ≡ none
    → IsFiled m
    → IsFiled (take_first m q)
take_first-IsFiled m [] e i f = f
take_first-IsFiled m (r ∷ rest) e i f = record {
  on = f.on;
  ledger =
      IsLedger-mono m.next_path _ (omega arith)
        (λ p. omega (arith, ap (uses p) e, ap (λ x. uses p (to_list x)) i)) f.ledger;
}

pub take_request-IsFiled : (m : Manager) → IsFiled m → IsFiled (take_request m)
unfolding take_request
take_request-IsFiled m f = go m.in_flight refl
  where
    go :
        (o : Option Request)
        → m.in_flight ≡ o
        → IsFiled (elim o [ none ↦ if m.worker then take_first m m.queue else m | some r ↦ m ])
    go none e = if_intro IsFiled m.worker _ _ (λ w. take_first-IsFiled m m.queue refl e f) (λ w. f)
    go (some r) e = f

-- The request that is sent leaves the worker, its path still in use.
unsent :
    (m : Manager) (r : Request)
    → m.in_flight ≡ some r
    → IsFiled m
    → Ledger m m.retry_tasks (λ p. path_hit p r.persisted_path + uses p m.queue)
unsent m r e f =
    IsLedger-mono m.next_path _ (omega arith) (λ p. omega (arith, ap (λ x. uses p (to_list x)) e))
      f.ledger

delete-Ledger :
    (m : Manager) (done : List Request) (extra : ℕ → ℕ) (o : Option ℕ)
    → Ledger m done (λ p. path_hit p o + extra p)
    → Ledger (delete_persisted_request m o) done extra
unfolding delete_persisted_request delete_file
delete-Ledger m done extra none l =
    IsLedger-mono m.next_path extra (omega arith) (λ p. omega arith) l
delete-Ledger m done extra (some q) l = rw (l.writes q) (
    IsLedger-remove q (ground (arith, l.once q))
      (IsLedger-mono m.next_path extra (omega arith) (λ p. omega arith) l))

-- A manager is filed when a ledger covers what it holds.
pub IsFiled-by :
    (n : Manager) (done : List Request) (extra : ℕ → ℕ)
    → n.started ≡ true
    → done ≡ n.retry_tasks
    → ((p : ℕ) → open_uses n p ≤ extra p)
    → Ledger n done extra
    → IsFiled n
IsFiled-by n done extra on e le l = record {
  on = on;
  ledger =
      subst (λ rs. Ledger n rs (open_uses n)) e (IsLedger-mono n.next_path _ (omega arith) le l);
}

-- The fields that deleting a file leaves.
record IsDeleted (m n : Manager) : Type 0 where
  queue : n.queue ≡ m.queue
  in_flight : n.in_flight ≡ m.in_flight
  retry_tasks : n.retry_tasks ≡ m.retry_tasks
  started : n.started ≡ m.started

delete-IsDeleted : (m : Manager) (o : Option ℕ) → IsDeleted m (delete_persisted_request m o)
unfolding delete_persisted_request delete_file
delete-IsDeleted m none = record {
  queue = refl;
  in_flight = refl;
  retry_tasks = refl;
  started = refl;
}
delete-IsDeleted m (some q) = record {
  queue = ground arith;
  in_flight = ground arith;
  retry_tasks = ground arith;
  started = ground arith;
}

pub deliver-IsFiled :
    (m : Manager) (o : Option Request) → m.in_flight ≡ o → IsFiled m → IsFiled (deliver m o)
unfolding mark_completed
deliver-IsFiled m none e f = f
deliver-IsFiled m (some r) e f =
    let d = delete-IsDeleted (record m { in_flight = none }) r.persisted_path in
    IsFiled-by _ m.retry_tasks (λ p. uses p m.queue) (d.started ∙ f.on) (sym d.retry_tasks)
      (λ p. omega (arith, ap (uses p) d.queue, ap (λ x. uses p (to_list x)) d.in_flight))
      (delete-Ledger (record m { in_flight = none }) m.retry_tasks _ r.persisted_path
        (unsent m r e f))

pub fail-IsFiled :
    (m : Manager) (o : Option Request) → m.in_flight ≡ o → IsFiled m → IsFiled (fail m o)
unfolding persist_request
fail-IsFiled m none e f = f
fail-IsFiled m (some r) e f =
    let m' = record m { in_flight = none } in
    let r' = record r { attempts = suc r.attempts } in
    let s = persist_request-IsSameCount m' r' in
    let l =
      persist_request-IsPersisted m' m.retry_tasks (λ p. uses p m.queue) r' r.persisted_path refl
        (unsent m r e f) in
    let out = persist_request m' r' in
    IsFiled-by _ (m.retry_tasks ++ out.0 ∷ []) (λ p. uses p m.queue) (s.started ∙ f.on)
      (ap (λ x. x ++ out.0 ∷ []) (sym s.retry_tasks))
      (λ p. omega (arith, ap (uses p) s.queue, ap (λ x. uses p (to_list x)) s.in_flight))
      (IsLedger-rotate out.0 l.ledger)

pub wake_oldest-IsFiled :
    (m : Manager) (rs : List Request) → m.retry_tasks ≡ rs → IsFiled m → IsFiled (wake_oldest m rs)
unfolding requeue ensure_worker
wake_oldest-IsFiled m [] e f = f
wake_oldest-IsFiled m (r ∷ rest) e f =
    let l = IsLedger-take r (subst (λ x. Ledger m x (open_uses m)) e f.ledger) in
    if_intro IsFiled m.closed _ _
      (λ shut. record {
        on = f.on;
        ledger = IsLedger-mono m.next_path _ (omega arith) (λ p. omega arith) l;
      })
      λ open_.
        if_intro (λ (m₁ : Manager). IsFiled (record m₁ { queue = m₁.queue ++ r ∷ [] })) m.worker _ _
          (λ w.
            IsFiled-by _ rest _ f.on refl (λ p. omega (arith, uses-append p m.queue (r ∷ []))) l)
          λ w. IsFiled-by _ rest _ f.on refl (λ p. omega (arith, uses-append p m.queue (r ∷ []))) l
