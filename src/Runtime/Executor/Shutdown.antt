-- ===== src/Runtime/Executor/Shutdown.antt =====
-- What a shutdown cancels: the current task of a job that is killed, and no other changes that.
use pyxxl.Base.{
  ℕ, ◌≡◌, refl, sym, ap, subst, ◌∙◌, Bool, true, false, ◌||◌, not, Option, none, some, List, [],
  ◌∷◌, Dict, get, set, keys, nat_eq, contains, contains-add, get-set, get-of-keys, arith,
}
use pyxxl.Runtime.Executor.State.{Task, Message, shut_down, Executor, cancel_task, cancel_object}
use pyxxl.Runtime.Executor.Jobs.{cancel_job, cancel_current, union, give_up_pending}
use pyxxl.Runtime.Executor.Spec.{idle}
use pyxxl.Runtime.Executor.Drains.{Kept, kept, kept-give_up}
use pyxxl.Runtime.Executor.Invariant.{job_state}
use pyxxl.Runtime.Executor.Answers.{push_failed_lem}

pub contains-union :
    (xs ys : List ℕ) (a : ℕ) → contains (union xs ys) a ≡ (contains xs a || contains ys a)
unfolding union contains
contains-union [] ys a = refl
contains-union (x ∷ xs) ys a =
    ground (arith, contains-add x a (union xs ys), contains-union xs ys a)

pub state-of-keys :
    (s : Executor) (j : ℕ) → contains (keys s.tasks) j ≡ false → job_state s j ≡ idle
state-of-keys s j h = rw (get-of-keys s.tasks j h)

-- The current task of a job is being cancelled, or its coroutine has ended.
abbrev pub IsCancelled : Executor → ℕ → Type 0
IsCancelled s j =
    (t : ℕ) (o : Task)
    → get s.tasks j ≡ some t
    → get s.objects t ≡ some o
    → (o.cancelling || o.ended) ≡ true

abbrev cancelled_in : Dict ℕ Task → ℕ → Message → Option Task → Dict ℕ Task
cancelled_in m t reason none = m
cancelled_in m t reason (some o) =
    set m t (record o { cancel_reason = some reason; cancelling = o.cancelling || not o.ended })

abbrev cancelled_at : Dict ℕ Task → Option ℕ → Message → Dict ℕ Task
cancelled_at m none reason = m
cancelled_at m (some t) reason = cancelled_in m t reason (get m t)

objects-cancel_object :
    (s : Executor) (t : ℕ) (reason : Message) (o : Option Task)
    → ((cancel_object s t reason o).objects ≡ cancelled_in s.objects t reason o)
      × ((cancel_object s t reason o).tasks ≡ s.tasks)
unfolding cancel_object
objects-cancel_object s t reason none = (refl, refl)
objects-cancel_object s t reason (some o) = (refl, refl)

objects-cancel_current :
    (s : Executor) (t : Option ℕ) (reason : Message)
    → ((cancel_current s t reason).objects ≡ cancelled_at s.objects t reason)
      × ((cancel_current s t reason).tasks ≡ s.tasks)
unfolding cancel_task
objects-cancel_current s none reason = (refl, refl)
objects-cancel_current s (some t) reason = objects-cancel_object s t reason (get s.objects t)

objects-cancel_job :
    (s : Executor) (now k : ℕ) (reason : Message)
    → ((cancel_job s now k true reason).objects ≡ cancelled_at s.objects (get s.tasks k) reason)
      × ((cancel_job s now k true reason).tasks ≡ s.tasks)
unfolding cancel_job kept
objects-cancel_job s now k reason =
    let s₁ = (give_up_pending s k).1 in
    let same = kept-give_up s k in
    let parts = objects-cancel_current s₁ (get s₁.tasks k) reason in
    rw push_failed_lem (
      parts.0 ∙ ap (λ (x : Kept). cancelled_at x.objects (get x.tasks k) reason) same,
      parts.1 ∙ ap (λ (x : Kept). x.tasks) same,
    )

abbrev pub going : Task → Bool
going o = o.cancelling || o.ended

cancelled_hit :
    (m : Dict ℕ Task) (t : ℕ) (reason : Message) (oo : Option Task)
    → get m t ≡ oo
    → (o' : Task) → get (cancelled_in m t reason oo) t ≡ some o'
    → going o' ≡ true
cancelled_hit m t reason none e o' h = cc
cancelled_hit m t reason (some o) e o' h = ground (
  arith,
  get-set m t t
      (record o { cancel_reason = some reason; cancelling = o.cancelling || not o.ended }),
)

cancelled_mono :
    (m : Dict ℕ Task) (t : ℕ) (reason : Message) (oo : Option Task)
    → get m t ≡ oo
    → (u : ℕ) → ((o : Task) → get m u ≡ some o → going o ≡ true)
    → (o' : Task) → get (cancelled_in m t reason oo) u ≡ some o'
    → going o' ≡ true
cancelled_mono m t reason none e u p o' h = p o' h
cancelled_mono m t reason (some o) e u p o' h = ground (
  arith,
  get-set m t u
      (record o { cancel_reason = some reason; cancelling = o.cancelling || not o.ended }),
  p o',
)

-- A cancelled job's task stays cancelled when another job is cancelled, ...
pub cancel_keeps :
    (s : Executor) (now k j : ℕ)
    → IsCancelled s j
    → IsCancelled (cancel_job s now k true shut_down) j
cancel_keeps s now k j c t o' p q =
    let parts = objects-cancel_job s now k shut_down in
    keeps (get s.tasks k) (ap (λ m. get m j) (sym parts.1) ∙ p)
      (ap (λ m. get m t) (sym parts.0) ∙ q)
  where
    keeps :
        (x : Option ℕ)
        → get s.tasks j ≡ some t
        → get (cancelled_at s.objects x shut_down) t ≡ some o'
        → going o' ≡ true
    keeps none p' q' = c t o' p' q'
    keeps (some u) p' q' =
        cancelled_mono s.objects u shut_down (get s.objects u) refl t (λ o e. c t o p' e) o' q'

-- ... and cancelling a job cancels its task.
pub cancel_hits : (s : Executor) (now k : ℕ) → IsCancelled (cancel_job s now k true shut_down) k
cancel_hits s now k t o' p q =
    let parts = objects-cancel_job s now k shut_down in
    hits (get s.tasks k) (ap (λ m. get m k) (sym parts.1) ∙ p) (ap (λ m. get m t) (sym parts.0) ∙ q)
  where
    hits :
        (x : Option ℕ)
        → x ≡ some t
        → get (cancelled_at s.objects x shut_down) t ≡ some o'
        → going o' ≡ true
    hits none p' q' = cc
    hits (some u) p' q' =
        let e : u ≡ t = cc in
        cancelled_hit s.objects t shut_down (get s.objects t) refl o' (
          subst (λ (x : ℕ). get (cancelled_in s.objects x shut_down (get s.objects x)) t ≡ some o')
            e q')
