-- ===== src/Runtime/Callbacks/Replay.antt =====
-- A manager that starts over the files of another one sends what they hold.
use pyxxl.Base.{
  ℕ, ◌+◌, ◌≤◌, ◌≡◌, refl, sym, ap, ◌∙◌, subst, Bool, Option, none, some, List, [], ◌∷◌, ◌++◌, All,
  get-remove, count-keys-get, inl, inr, get, nat_beq, nat_beq_iff, Bool-cases, arith, if◌then◌else◌,
  nat_eq, keys, Dict, count,
}
use pyxxl.Runtime.Callbacks.State.{
  Request, File, Manager, saved, ensure_worker, queue_request, start, replay_one, replay_paths,
  replay_persisted_requests, load_request_from_file, insert_path, sorted, damaged,
}
use pyxxl.Runtime.Callbacks.Worker.{init}
use pyxxl.Runtime.Callbacks.Ledger.{at_path, IsSaved}
use pyxxl.Runtime.Callbacks.Persist.{IsFound, IsIn}

IsIn-append : (x : Request) (rs ss : List Request) → IsIn x rs → IsIn x (rs ++ ss)
IsIn-append x [] ss h = absurd h
IsIn-append x (r ∷ rs) ss (inl e) = inl e
IsIn-append x (r ∷ rs) ss (inr h) = inr (IsIn-append x rs ss h)

IsIn-last : (x : Request) (rs : List Request) → IsIn x (rs ++ x ∷ [])
IsIn-last x [] = inl refl
IsIn-last x (r ∷ rs) = inr (IsIn-last x rs)

-- What `_queue_request` does to the queue and leaves.
record IsQueued (m n : Manager) (r : Request) : Type 0 where
  queue : n.queue ≡ m.queue ++ r ∷ []
  store : n.store ≡ m.store

queue_request-IsQueued : (m : Manager) (r : Request) → IsQueued m (queue_request m r) r
unfolding queue_request ensure_worker
queue_request-IsQueued m r = record { queue = ground arith; store = ground arith }

replay_one-IsIn :
    (m : Manager) (p : ℕ) (r : Option Request) (x : Request)
    → IsIn x m.queue
    → IsIn x (replay_one m p r).queue
unfolding replay_one
replay_one-IsIn m p none x h = h
replay_one-IsIn m p (some r) x h =
    subst (IsIn x) (sym (queue_request-IsQueued m r).queue) (IsIn-append x m.queue (r ∷ []) h)

replay_paths-IsIn :
    (m : Manager) (ps : List ℕ) (x : Request) → IsIn x m.queue → IsIn x (replay_paths m ps).queue
unfolding replay_paths
replay_paths-IsIn m [] x h = h
replay_paths-IsIn m (p ∷ ps) x h =
    replay_paths-IsIn (replay_one m p (load_request_from_file p (get m.store p))) ps x
      (replay_one-IsIn m p (load_request_from_file p (get m.store p)) x h)

-- A round of the loop leaves the text of a request that loads.
replay_one-get :
    (m : Manager) (q p : ℕ) (r : Request)
    → get m.store p ≡ some (saved r)
    → get (replay_one m q (load_request_from_file q (get m.store q))).store p ≡ some (saved r)
unfolding replay_one load_request_from_file
replay_one-get m q p r e = go (get m.store q) refl
  where
    go :
        (f : Option File)
        → get m.store q ≡ f
        → get (replay_one m q (load_request_from_file q f)).store p ≡ some (saved r)
    go none g = ground (arith, get-remove m.store q p, e, g)
    go (some damaged) g = ground (arith, get-remove m.store q p, e, g)
    go (some (saved x)) g = ap (λ d. get d p) (queue_request-IsQueued m (at_path q x)).store ∙ e

replay_one-loads :
    (m : Manager) (q p : ℕ) (r : Request)
    → get m.store p ≡ some (saved r)
    → q ≡ p
    → IsIn (at_path p r) (replay_one m q (load_request_from_file q (get m.store q))).queue
unfolding replay_one load_request_from_file
replay_one-loads m q p r e same =
    rw (same, e)
      (subst (IsIn (at_path p r)) (sym (queue_request-IsQueued m (at_path p r)).queue)
        (IsIn-last (at_path p r) m.queue))

replay_paths-loads :
    (m : Manager) (ps : List ℕ) (p : ℕ) (r : Request)
    → get m.store p ≡ some (saved r)
    → 1 ≤ count p ps
    → IsIn (at_path p r) (replay_paths m ps).queue
unfolding replay_paths count
replay_paths-loads m [] p r e h = absurd (ground (arith, h))
replay_paths-loads m (q ∷ ps) p r e h =
    let n = replay_one m q (load_request_from_file q (get m.store q)) in
    elim (Bool-cases (nat_beq q p)) [
      | inl same ↦
          replay_paths-IsIn n ps (at_path p r)
            (replay_one-loads m q p r e ((nat_beq_iff q p).0 same))
      | inr other ↦
          replay_paths-loads n ps p r (replay_one-get m q p r e) (ground (arith, h, other))
    ]

count-insert_path :
    (p q : ℕ) (qs : List ℕ)
    → count p (insert_path q qs) ≡ (if nat_beq q p then 1 else 0) + count p qs
unfolding insert_path count
count-insert_path p q [] = ground arith
count-insert_path p q (x ∷ xs) = ground (arith, count-insert_path p q xs)

-- `sorted` has the same paths.
pub count-sorted : (p : ℕ) (ps : List ℕ) → count p (sorted ps) ≡ count p ps
unfolding sorted count
count-sorted p [] = refl
count-sorted p (x ∷ xs) = ground (arith, count-sorted p xs, count-insert_path p x (sorted xs))

-- A manager that starts over a store queues every request whose text is in it.
pub start-loads :
    (writable : ℕ → Bool) (store : Dict ℕ File) (n p : ℕ) (r : Request)
    → get store p ≡ some (saved r)
    → IsIn (at_path p r) (start (init writable store n)).queue
unfolding start init replay_persisted_requests
start-loads writable store n p r e =
    replay_paths-loads _ (sorted (keys store)) p r e
      (omega (arith, count-sorted p (keys store), count-keys-get p (saved r) store e))

-- What is found among saved requests, a new manager queues.
module _ (writable : ℕ → Bool) (store : Dict ℕ File) (n : ℕ) where
  one_loads :
      (x : Request) (p : ℕ) (done : List Request)
      → x.persisted_path ≡ some p
      → All (IsSaved store) done
      → IsIn x done
      → IsIn x (start (init writable store n)).queue
  one_loads x p [] own s h = absurd h
  one_loads x p (y ∷ done) own s (inl e) =
      let same = ap (λ z. z.persisted_path) e ∙ own in
      let text = s.0.text ∙ ap (λ z. some (saved z)) e in
      subst (λ z. IsIn z (start (init writable store n)).queue)
        (λ i. record x { persisted_path = (sym s.0.own ∙ same ∙ sym own) i })
        (start-loads writable store n s.0.path x text)
  one_loads x p (y ∷ done) own s (inr h) = one_loads x p done own s.1 h

  pub All-load :
      (done rs : List Request)
      → All (IsSaved store) done
      → All (IsFound done) rs
      → All (IsFound (start (init writable store n)).queue) rs
  All-load done [] s h = tt
  All-load done (r ∷ rs) s h = (
    record {
      path = h.0.path;
      among = one_loads (at_path h.0.path r) h.0.path done refl s h.0.among;
    },
    All-load done rs s h.1,
  )
