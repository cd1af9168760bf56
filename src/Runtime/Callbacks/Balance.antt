-- ===== src/Runtime/Callbacks/Balance.antt =====
-- A running manager loses no request: by log id, what it holds and what it delivered is what it held
-- before and what it was given.
use pyxxl.Base.{
  ℕ, suc, ◌+◌, ◌≡◌, refl, ◌∙◌, Bool, true, false, Option, none, some, List, [], ◌∷◌, nat_beq,
  nat_beq_iff, arith, if_intro, nat_eq, get, keys, Dict,
}
use pyxxl.Runtime.Callbacks.State.{
  Request, Manager, ensure_worker, queue_request, start, give_path, persist_request, delete_file,
  delete_persisted_request, mark_completed, File, replay_one, replay_paths, sorted,
  load_request_from_file, replay_persisted_requests,
}
use pyxxl.Runtime.Callbacks.Worker.{
  deliver, fail, requeue, wake_oldest, wake, cancel_worker, begin_stop, finish_stop, Event,
  enqueues, starts, takes, delivers, fails, wakes, stops, drains, times_out, step, init,
}
use pyxxl.Runtime.Callbacks.Pending.{
  IsCounted, start-IsCounted, flying, persist_request-IsSameCount,
}
use pyxxl.Runtime.Callbacks.Stopping.{step-IsCounted, init-IsCounted, cancel_worker-IsHalted}
use pyxxl.Runtime.Callbacks.Held.{
  flight_hits, all_hits, all_hits-one, all_hits-nil, held_of, IsRunning, is_regular, delivered_by,
  take_request-held_of, take_request-same,
}

-- What the event delivers and what is held then is what was held.
abbrev pub Keeps : ℕ → Manager → ℕ → Manager → Type 0
Keeps l m delivered n =
    (delivered + held_of l n ≡ held_of l m) × (n.closed ≡ m.closed) × (n.started ≡ m.started)

unmoved : (l : ℕ) (m : Manager) → Keeps l m 0 m
unmoved l m = (omega arith, refl, refl)

pub deliver-Keeps :
    (l : ℕ) (m : Manager) (f : Option Request)
    → m.in_flight ≡ f
    → Keeps l m (flight_hits l f) (deliver m f)
unfolding mark_completed delete_persisted_request delete_file
deliver-Keeps l m none e = unmoved l m
deliver-Keeps l m (some r) e = ground arith

pub persist_request-log_id : (m : Manager) (r : Request) → (persist_request m r).0.log_id ≡ r.log_id
unfolding persist_request give_path
persist_request-log_id m r = go r.persisted_path
  where
    go : (p : Option ℕ) → (give_path m r p).1.log_id ≡ r.log_id
    go none = refl
    go (some path) = refl

pub fail-Keeps :
    (l : ℕ) (m : Manager) (f : Option Request) → m.in_flight ≡ f → Keeps l m 0 (fail m f)
fail-Keeps l m none e = unmoved l m
fail-Keeps l m (some r) e =
    let m₁ = record m { in_flight = none } in
    let r₁ = record r { attempts = suc r.attempts } in
    let p = persist_request m₁ r₁ in
    let s = persist_request-IsSameCount m₁ r₁ in
    let one = all_hits-one l p.1.retry_tasks p.0 in
    let same = persist_request-log_id m₁ r₁ in (ground (arith, s, one, same), s.closed, s.started)

wake_oldest-Keeps :
    (l : ℕ) (m : Manager) (rs : List Request)
    → m.retry_tasks ≡ rs
    → m.closed ≡ false
    → Keeps l m 0 (wake_oldest m rs)
unfolding requeue ensure_worker all_hits
wake_oldest-Keeps l m [] e o = unmoved l m
wake_oldest-Keeps l m (r ∷ rest) e o =
    (ground (arith, all_hits-one l m.queue r), ground arith, ground arith)

-- The wait of a stop ends when nothing is pending: then nothing is held.
drained-Keeps :
    (l : ℕ) (m : Manager) → IsCounted m → m.pending ≡ 0 → Keeps l m 0 (finish_stop m true)
unfolding finish_stop all_hits
drained-Keeps l m c z =
    let m₁ = record m { retry_tasks = [] } in
    let h = cancel_worker-IsHalted m₁ c.flight_served in
    let none_queued = all_hits-nil l m.queue (ground (arith, c.most, z)) in
    let none_waits = all_hits-nil l m.retry_tasks (ground (arith, c.most, z)) in
    (
      ground (
        arith,
        h,
        none_queued,
        none_waits,
        no_flight l m.in_flight (ground (arith, c.most, z)),
        no_flight l (cancel_worker m₁).in_flight h.in_flight,
      ),
      h.closed,
      h.started,
    )
  where
    no_flight : (l : ℕ) (f : Option Request) → flying f ≡ 0 → flight_hits l f ≡ 0
    no_flight l none e = refl
    no_flight l (some r) e = absurd (omega (arith, e))

step-Keeps :
    (l : ℕ) (m : Manager) (e : Event)
    → is_regular e ≡ true
    → IsRunning m
    → Keeps l m (delivered_by l m e) (step m e)
unfolding step start wake begin_stop
step-Keeps l m (enqueues log time code msg) h w = absurd (cc h)
step-Keeps l m starts h w =
    if_intro (Keeps l m 0) m.started _ _ (λ s. unmoved l m) (λ s. absurd (cc (s, w.started)))
step-Keeps l m takes h w =
    (omega (arith, take_request-held_of l m), (take_request-same m).0, (take_request-same m).1)
step-Keeps l m delivers h w = deliver-Keeps l m m.in_flight refl
step-Keeps l m fails h w = fail-Keeps l m m.in_flight refl
step-Keeps l m wakes h w = wake_oldest-Keeps l m m.retry_tasks refl w.open_
step-Keeps l m (stops true) h w = absurd (cc h)
step-Keeps l m (stops false) h w = unmoved l m
step-Keeps l m drains h w =
    if_intro (Keeps l m 0) (nat_beq m.pending 0) _ _
      (λ z. drained-Keeps l m w.counted ((nat_beq_iff m.pending 0).0 z)) (λ z. unmoved l m)
step-Keeps l m times_out h w = absurd (cc h)

-- A regular event keeps a running manager running, and by log id what it holds and delivers is what
-- it held.
pub step-IsRunning :
    (m : Manager) (e : Event) → is_regular e ≡ true → IsRunning m → IsRunning (step m e)
step-IsRunning m e h w =
    let k = step-Keeps 0 m e h w in
    record {
      counted = step-IsCounted m e w.counted;
      open_ = k.1 ∙ w.open_;
      started = k.2 ∙ w.started;
    }

pub step-held_of :
    (l : ℕ) (m : Manager) (e : Event)
    → is_regular e ≡ true
    → IsRunning m
    → delivered_by l m e + held_of l (step m e) ≡ held_of l m
step-held_of l m e h w = (step-Keeps l m e h w).0

-- Replaying neither closes nor starts.
IsAlike : Manager → Manager → Type 0
IsAlike m n = (n.closed ≡ m.closed) × (n.started ≡ m.started)

replay_one-IsAlike : (m : Manager) (p : ℕ) (r : Option Request) → IsAlike m (replay_one m p r)
unfolding replay_one queue_request ensure_worker IsAlike
replay_one-IsAlike m p none = (refl, refl)
replay_one-IsAlike m p (some r) = ground arith

replay_paths-IsAlike : (m : Manager) (ps : List ℕ) → IsAlike m (replay_paths m ps)
unfolding replay_paths IsAlike
replay_paths-IsAlike m [] = (refl, refl)
replay_paths-IsAlike m (p ∷ ps) =
    let r = load_request_from_file p (get m.store p) in
    let one = replay_one-IsAlike m p r in
    let rest = replay_paths-IsAlike (replay_one m p r) ps in (rest.0 ∙ one.0, rest.1 ∙ one.1)

-- A new manager runs once it was started.
pub start-init-IsRunning :
    (writable : ℕ → Bool) (store : Dict ℕ File) (n : ℕ) → IsRunning (start (init writable store n))
unfolding start init replay_persisted_requests IsAlike
start-init-IsRunning writable store n =
    let m = record (init writable store n) { started = true } in
    let same = replay_paths-IsAlike m (sorted (keys store)) in
    record {
      counted = start-IsCounted (init writable store n) (init-IsCounted writable store n);
      open_ = same.0;
      started = same.1;
    }
