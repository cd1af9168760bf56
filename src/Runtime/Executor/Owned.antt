-- ===== src/Runtime/Executor/Owned.antt =====
-- The task table and the task objects: each job's current task is a live object of that job, and
-- each object that was not cleaned up is the current task of its job.
use pyxxl.Base.{
  ℕ, suc, ◌<◌, ◌≡◌, true, false, none, some, Dict, get, set, remove, nat_eq, nat_beq, get-set,
  get-remove, Bool-cases, inl, inr, arith,
}
use pyxxl.Runtime.Executor.State.{Task}

pub record IsOwned (tasks : Dict ℕ ℕ) (objects : Dict ℕ Task) (next_task : ℕ) : Type 0 where
  pub fresh : (t : ℕ) (o : Task) → get objects t ≡ some o → t < next_task
  pub known : (j t : ℕ) → get tasks j ≡ some t → t < next_task
  pub placed :
      (j t : ℕ) (o : Task) → get tasks j ≡ some t → get objects t ≡ some o → o.data_of.job_id ≡ j
  pub live :
      (j t : ℕ) (o : Task) → get tasks j ≡ some t → get objects t ≡ some o → o.cleaned ≡ false
  pub owner :
      (t : ℕ) (o : Task)
      → get objects t ≡ some o
      → o.cleaned ≡ false
      → get tasks o.data_of.job_id ≡ some t
  -- only a coroutine that has ended was cleaned up
  pub uncleaned : (t : ℕ) (o : Task) → get objects t ≡ some o → o.ended ≡ false → o.cleaned ≡ false

module _ {tasks : Dict ℕ ℕ} {objects : Dict ℕ Task} {n : ℕ} (w : IsOwned tasks objects n) where
  -- a new object becomes the task of a job that has none
  pub IsOwned-start :
      (k : ℕ) (new : Task)
      → new.data_of.job_id ≡ k
      → new.cleaned ≡ false
      → get tasks k ≡ none
      → IsOwned (set tasks k n) (set objects n new) (suc n)
  IsOwned-start k new h c e = record {
    fresh = λ t o p. ground (arith, get-set objects n t new, w.fresh t o);
    known = λ j t p. ground (arith, get-set tasks k j n, w.known j t);
    placed = λ j t o p q.
        ground (arith, get-set tasks k j n, get-set objects n t new, w.known j t, w.placed j t o);
    live = λ j t o p q.
        ground (arith, get-set tasks k j n, get-set objects n t new, w.known j t, w.live j t o);
    owner = λ t o p q.
        ground (arith, get-set tasks k o.data_of.job_id n, get-set objects n t new, w.owner t o);
    uncleaned = λ t o p q. ground (arith, get-set objects n t new, w.uncleaned t o);
  }

  -- an object changes, but for its trigger and its `cleaned`
  pub IsOwned-update :
      (u : ℕ) (old new : Task)
      → get objects u ≡ some old
      → new.data_of ≡ old.data_of
      → new.cleaned ≡ old.cleaned
      → (new.ended ≡ false → old.ended ≡ false)
      → IsOwned tasks (set objects u new) n
  IsOwned-update u old new e d c f = record {
    fresh = λ t o p. ground (arith, get-set objects u t new, w.fresh t o, w.fresh u old);
    known = w.known;
    placed = λ j t o p q. ground (arith, get-set objects u t new, w.placed j t o, w.placed j u old);
    live = λ j t o p q. ground (arith, get-set objects u t new, w.live j t o, w.live j u old);
    owner = λ t o p q. ground (arith, get-set objects u t new, w.owner t o, w.owner u old);
    uncleaned = λ t o p q. elim (Bool-cases (nat_beq u t)) [
      | inl h ↦ ground (arith, get-set objects u t new, w.uncleaned u old e, f)
      | inr h ↦ ground (arith, get-set objects u t new, w.uncleaned t o)
    ];
  }

  -- a task is cleaned up and leaves the table
  pub IsOwned-finish :
      (u : ℕ) (old new : Task)
      → get objects u ≡ some old
      → new.data_of ≡ old.data_of
      → new.cleaned ≡ true
      → new.ended ≡ true
      → get tasks old.data_of.job_id ≡ some u
      → IsOwned (remove tasks old.data_of.job_id) (set objects u new) n
  IsOwned-finish u old new e d c f m = record {
    fresh = λ t o p. ground (arith, get-set objects u t new, w.fresh t o, w.fresh u old);
    known = λ j t p. ground (arith, get-remove tasks old.data_of.job_id j, w.known j t);
    placed = λ j t o p q. ground (
      arith,
      get-remove tasks old.data_of.job_id j,
      get-set objects u t new,
      w.placed j t o,
      w.placed j u old,
    );
    live = λ j t o p q. ground (
      arith,
      get-remove tasks old.data_of.job_id j,
      get-set objects u t new,
      w.live j t o,
      w.placed j u old,
    );
    owner = λ t o p q. ground (
      arith,
      get-remove tasks old.data_of.job_id o.data_of.job_id,
      get-set objects u t new,
      w.owner t o,
    );
    uncleaned = λ t o p q. ground (arith, get-set objects u t new, w.uncleaned t o);
  }
