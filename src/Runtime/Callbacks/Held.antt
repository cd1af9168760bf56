-- ===== src/Runtime/Callbacks/Held.antt =====
-- What a manager holds, by log id: reports and the worker.
use pyxxl.Base.{
  ℕ, ◌+◌, ◌≡◌, refl, Bool, true, false, Option, none, some, List, [], ◌∷◌, ◌++◌, nat_beq, String,
  arith, if◌then◌else◌, if_intro, nat_eq, length,
}
use pyxxl.Runtime.Callbacks.State.{Request, Manager, ensure_worker, queue_request, start, enqueue}
use pyxxl.Runtime.Callbacks.Worker.{
  take_first, take_request, new_request, Event, enqueues, delivers, stops, times_out, step,
}
use pyxxl.Runtime.Callbacks.Pending.{IsCounted}
use pyxxl.Runtime.Callbacks.Stopping.{step-IsCounted}

-- One if the request reports the log id.
abbrev pub hits : ℕ → Request → ℕ
hits l r = if nat_beq r.log_id l then 1 else 0

abbrev pub flight_hits : ℕ → Option Request → ℕ
flight_hits l none = 0
flight_hits l (some r) = hits l r

unfoldable pub all_hits : ℕ → List Request → ℕ
all_hits l [] = 0
all_hits l (r ∷ rs) = hits l r + all_hits l rs

pub all_hits-append :
    (l : ℕ) (rs ss : List Request) → all_hits l (rs ++ ss) ≡ all_hits l rs + all_hits l ss
unfolding all_hits
all_hits-append l [] ss = omega arith
all_hits-append l (r ∷ rs) ss = omega (arith, all_hits-append l rs ss)

pub all_hits-one :
    (l : ℕ) (rs : List Request) (r : Request) → all_hits l (rs ++ r ∷ []) ≡ all_hits l rs + hits l r
unfolding all_hits
all_hits-one l rs r = omega (arith, all_hits-append l rs (r ∷ []))

pub all_hits-nil : (l : ℕ) (rs : List Request) → length rs ≡ 0 → all_hits l rs ≡ 0
unfolding all_hits
all_hits-nil l [] e = refl
all_hits-nil l (r ∷ rs) e = absurd (omega (arith, e))

-- How many of the requests that the manager holds report the log id.
abbrev pub held_of : ℕ → Manager → ℕ
held_of l m = all_hits l m.queue + flight_hits l m.in_flight + all_hits l m.retry_tasks

-- An open manager that was started.
pub record IsRunning (m : Manager) : Type 0 where
  pub counted : IsCounted m
  pub open_ : m.closed ≡ false
  pub started : m.started ≡ true

-- An event that neither closes the manager nor ends a stop by its timeout, and that is not a report.
abbrev pub is_regular : Event → Bool
is_regular (enqueues log time code msg) = false
is_regular (stops close) = if close then false else true
is_regular times_out = false
is_regular _ = true

-- How many requests with the log id the event delivers.
abbrev pub delivered_by : ℕ → Manager → Event → ℕ
delivered_by l m delivers = flight_hits l m.in_flight
delivered_by l m _ = 0

pub enqueue-held_of :
    (l : ℕ) (m : Manager) (r : Request)
    → IsRunning m
    → held_of l (enqueue m r) ≡ held_of l m + hits l r
unfolding enqueue start queue_request ensure_worker
enqueue-held_of l m r w = ground (arith, w.open_, w.started, all_hits-one l m.queue r)

pub enqueue-IsRunning :
    (m : Manager) (log time code : ℕ) (msg : Option String)
    → IsRunning m
    → IsRunning (enqueue m (new_request log time code msg))
unfolding enqueue start queue_request ensure_worker step
enqueue-IsRunning m log time code msg w = record {
  counted = step-IsCounted m (enqueues log time code msg) w.counted;
  open_ = ground (arith, w.open_, w.started);
  started = ground (arith, w.open_, w.started);
}

pub take_request-held_of : (l : ℕ) (m : Manager) → held_of l (take_request m) ≡ held_of l m
unfolding take_request all_hits
take_request-held_of l m = go m.in_flight refl
  where
    first :
        (q : List Request)
        → m.queue ≡ q
        → m.in_flight ≡ none
        → held_of l (take_first m q) ≡ held_of l m
    first [] q f = refl
    first (r ∷ rest) q f = ground arith

    go :
        (f : Option Request)
        → m.in_flight ≡ f
        → held_of l (elim f [ none ↦ if m.worker then take_first m m.queue else m | some r ↦ m ])
          ≡ held_of l m
    go none f =
        if_intro (λ n. held_of l n ≡ held_of l m) m.worker _ _ (λ w. first m.queue refl f)
          (λ w. refl)
    go (some r) f = refl

pub take_request-same :
    (m : Manager) → ((take_request m).closed ≡ m.closed) × ((take_request m).started ≡ m.started)
unfolding take_request
take_request-same m = ground arith
