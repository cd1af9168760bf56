-- ===== src/Runtime/Callbacks/Leak.antt =====
-- A retry that wakes after `stop(close=True)` ends without a mark of completion, so that its request
-- stays pending.
use pyxxl.Base.{
  ℕ, suc, ◌≤◌, ◌≡◌, refl, sym, ◌∙◌, subst, Bool, true, false, Option, none, some, List, [], ◌∷◌,
  ◌++◌, drop, All, get, nat_beq, arith, if◌then◌else◌, if_intro, nat_eq, keys,
}
use pyxxl.Runtime.Callbacks.State.{
  Request, Manager, persist_request, ensure_worker, queue_request, enqueue, start, replay_one,
  replay_paths, replay_persisted_requests, load_request_from_file, sorted, delete_file,
  delete_persisted_request, mark_completed,
}
use pyxxl.Runtime.Callbacks.Worker.{
  take_first, take_request, deliver, fail, requeue, wake_oldest, wake, begin_stop, Event,
  new_request, enqueues, starts, takes, delivers, fails, wakes, stops, drains, times_out, step, run,
}
use pyxxl.Runtime.Callbacks.Pending.{IsCounted, persist_request-IsSameCount}
use pyxxl.Runtime.Callbacks.Pending.{held_count}
use pyxxl.Base.{length-append, ◌<◌}

-- A closed manager with more pending than it holds.
record IsLeaking (m : Manager) : Type 0 where
  shut : m.closed ≡ true
  more : held_count m < m.pending

queue_request-IsLeaking : (m : Manager) (r : Request) → IsLeaking m → IsLeaking (queue_request m r)
unfolding queue_request ensure_worker
queue_request-IsLeaking m r l = record {
  shut = ground (arith, l.shut);
  more = ground (arith, l.more, length-append m.queue (r ∷ []));
}

replay_one-IsLeaking :
    (m : Manager) (p : ℕ) (r : Option Request) → IsLeaking m → IsLeaking (replay_one m p r)
unfolding replay_one
replay_one-IsLeaking m p none l = record { shut = l.shut; more = l.more }
replay_one-IsLeaking m p (some r) l = queue_request-IsLeaking m r l

replay_paths-IsLeaking : (m : Manager) (ps : List ℕ) → IsLeaking m → IsLeaking (replay_paths m ps)
unfolding replay_paths
replay_paths-IsLeaking m [] l = l
replay_paths-IsLeaking m (p ∷ ps) l =
    replay_paths-IsLeaking (replay_one m p (load_request_from_file p (get m.store p))) ps
      (replay_one-IsLeaking m p (load_request_from_file p (get m.store p)) l)

start-IsLeaking : (m : Manager) → IsLeaking m → IsLeaking (start m)
unfolding start replay_persisted_requests
start-IsLeaking m l =
    if_intro IsLeaking m.started _ _ (λ on. l)
      λ off.
        replay_paths-IsLeaking (record m { started = true }) (sorted (keys m.store))
          record { shut = l.shut; more = l.more }

enqueue-IsLeaking : (m : Manager) (r : Request) → IsLeaking m → IsLeaking (enqueue m r)
unfolding enqueue
enqueue-IsLeaking m r l =
    if_intro IsLeaking m.closed _ _ (λ shut. l)
      λ off. queue_request-IsLeaking (start m) r (start-IsLeaking m l)

take_first-IsLeaking :
    (m : Manager) (q : List Request)
    → m.queue ≡ q
    → m.in_flight ≡ none
    → IsLeaking m
    → IsLeaking (take_first m q)
take_first-IsLeaking m [] e i l = l
take_first-IsLeaking m (r ∷ rest) e i l = record {
  shut = l.shut;
  more = ground (arith, l.more, e, i);
}

take_request-IsLeaking : (m : Manager) → IsLeaking m → IsLeaking (take_request m)
unfolding take_request
take_request-IsLeaking m l = go m.in_flight refl
  where
    go :
        (o : Option Request)
        → m.in_flight ≡ o
        → IsLeaking (elim o [ none ↦ if m.worker then take_first m m.queue else m | some r ↦ m ])
    go none e =
        if_intro IsLeaking m.worker _ _ (λ w. take_first-IsLeaking m m.queue refl e l) (λ w. l)
    go (some r) e = l

deliver-IsLeaking :
    (m : Manager) (o : Option Request) → m.in_flight ≡ o → IsLeaking m → IsLeaking (deliver m o)
unfolding mark_completed delete_persisted_request delete_file
deliver-IsLeaking m none e l = l
deliver-IsLeaking m (some r) e l = record {
  shut = ground (arith, l.shut);
  more = ground (arith, l.more, e);
}

fail-IsLeaking :
    (m : Manager) (o : Option Request) → m.in_flight ≡ o → IsLeaking m → IsLeaking (fail m o)
fail-IsLeaking m none e l = l
fail-IsLeaking m (some r) e l =
    let m' = record m { in_flight = none } in
    let p = persist_request m' (record r { attempts = suc r.attempts }) in
    let s = persist_request-IsSameCount m' (record r { attempts = suc r.attempts }) in
    record {
      shut = s.closed ∙ l.shut;
      more = ground (arith, l.more, s, e, length-append p.1.retry_tasks (p.0 ∷ []));
    }

-- A retry that wakes is dropped, and no longer held.
wake_oldest-drops :
    (m : Manager) (rs : List Request)
    → m.retry_tasks ≡ rs
    → m.closed ≡ true
    → wake_oldest m rs ≡ record m { retry_tasks = drop 1 rs }
unfolding requeue
wake_oldest-drops m [] e shut = λ i. record m { retry_tasks = e i }
wake_oldest-drops m (r ∷ rest) e shut = go m.closed shut
  where
    go :
        (b : Bool)
        → b ≡ true
        → (if b
            then record m { retry_tasks = rest }
            else let m₁ = ensure_worker (record m { retry_tasks = rest }) in
              record m₁ { queue = m₁.queue ++ r ∷ [] })
          ≡ record m { retry_tasks = rest }
    go true h = refl
    go false h = absurd (ground (arith, h))

wake_oldest-IsLeaking :
    (m : Manager) (rs : List Request)
    → m.retry_tasks ≡ rs
    → IsLeaking m
    → IsLeaking (wake_oldest m rs)
wake_oldest-IsLeaking m rs e l =
    subst IsLeaking (sym (wake_oldest-drops m rs e l.shut)) (fewer rs e)
  where
    fewer :
        (rs : List Request) → m.retry_tasks ≡ rs → IsLeaking (record m { retry_tasks = drop 1 rs })
    fewer [] e = record { shut = l.shut; more = ground (arith, l.more, e) }
    fewer (r ∷ rest) e = record { shut = l.shut; more = ground (arith, l.more, e) }

begin_stop-IsLeaking : (m : Manager) (close : Bool) → IsLeaking m → IsLeaking (begin_stop m close)
unfolding begin_stop
begin_stop-IsLeaking m true l = record { shut = refl; more = l.more }
begin_stop-IsLeaking m false l = l

abbrev pub is_timeout : Event → Bool
is_timeout times_out = true
is_timeout _ = false

step-IsLeaking :
    (m : Manager) (e : Event) → is_timeout e ≡ false → IsLeaking m → IsLeaking (step m e)
unfolding step wake
step-IsLeaking m (enqueues log time code msg) h l =
    enqueue-IsLeaking m (new_request log time code msg) l
step-IsLeaking m starts h l = start-IsLeaking m l
step-IsLeaking m takes h l = take_request-IsLeaking m l
step-IsLeaking m delivers h l = deliver-IsLeaking m m.in_flight refl l
step-IsLeaking m fails h l = fail-IsLeaking m m.in_flight refl l
step-IsLeaking m wakes h l = wake_oldest-IsLeaking m m.retry_tasks refl l
step-IsLeaking m (stops close) h l = begin_stop-IsLeaking m close l
step-IsLeaking m drains h l =
    if_intro IsLeaking (nat_beq m.pending 0) _ _ (λ z. absurd (ground (arith, z, l.more))) (λ z. l)
step-IsLeaking m times_out h l = absurd (ground (arith, h))

run-IsLeaking :
    (m : Manager) (es : List Event)
    → All (λ e. is_timeout e ≡ false) es
    → IsLeaking m
    → IsLeaking (run m es)
unfolding run
run-IsLeaking m [] h l = l
run-IsLeaking m (e ∷ es) h l = run-IsLeaking (step m e) es h.1 (step-IsLeaking m e h.0 l)

-- The retry that wakes in a closed manager.
pub abandoned-IsLeaking :
    (m : Manager) (r : Request) (rest : List Request)
    → IsCounted m
    → m.closed ≡ true
    → m.retry_tasks ≡ r ∷ rest
    → (es : List Event) → All (λ e. is_timeout e ≡ false) es
    → 1 ≤ (run (step m wakes) es).pending
unfolding step wake
abandoned-IsLeaking m r rest c shut e es h =
    let first : IsLeaking (wake_oldest m m.retry_tasks) =
      subst IsLeaking (sym (wake_oldest-drops m m.retry_tasks refl shut))
        record { shut = shut; more = ground (arith, c.most, e) } in
    omega (arith, (run-IsLeaking _ es h first).more)
