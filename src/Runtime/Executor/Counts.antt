-- ===== src/Runtime/Executor/Counts.antt =====
-- How often a log id is held by a job before and after an operation of the specification.
use mathlib.Core.List.{map-append}
use pyxxl.Base.{
  ℕ, ◌+◌, ◌≡◌, inl, inr, Bool, true, false, Option, none, some, List, [], ◌∷◌, ◌++◌, map,
  Bool-cases, nat_beq, count, count-nil, count-cons, count-append, contains, string_eq, arith,
  if◌then◌else◌,
}
use pyxxl.Model.{RunData}
use pyxxl.Runtime.Executor.Spec.{
  JobState, idle, busy, log_of, ids, Verdict, runs, replaces, queues, Result, submit, submit_busy,
  give_up, advance,
}
use pyxxl.Runtime.Executor.Entries.{count-ids, count-pending, count-one}

-- One if the trigger has the log id.
abbrev pub hit : ℕ → RunData → ℕ
hit l d = if nat_beq d.log_id l then 1 else 0

abbrev pub accepts : Verdict → Bool
accepts runs = true
accepts replaces = true
accepts queues = true
accepts _ = false

-- A result accounts for every log id: what the job holds and what it gives up is what it held,
-- with the new trigger if it was accepted.
abbrev Accounts : ℕ → RunData → JobState → Result → Type 0
Accounts l d j r =
    count l (ids r.after) + count l (map log_of r.given_up)
    ≡ count l (ids j) + (if accepts r.verdict then hit l d else 0)

submit_busy-Accounts :
    (l bound : ℕ) (d r : RunData) (next : Option RunData) (waiting : List RunData)
    → Accounts l d (busy r next waiting) (submit_busy bound d r next waiting)
unfolding submit_busy
submit_busy-Accounts l bound d r next waiting = ground (
  arith,
  count-ids l r next waiting,
  count-ids l r (some d) [],
  count-ids l r next (waiting ++ d ∷ []),
  count-pending l next waiting,
  map-append log_of waiting (d ∷ []),
  count-append l (map log_of waiting) (map log_of (d ∷ [])),
  count-one l d,
  count-nil l,
)

pub submit-Accounts : (l bound : ℕ) (d : RunData) (j : JobState) → Accounts l d j (submit bound d j)
unfolding submit
submit-Accounts l bound d idle = ground (arith, count-one l d, count-nil l)
submit-Accounts l bound d (busy r next waiting) =
    elim (Bool-cases (contains (ids (busy r next waiting)) d.log_id)) [
      | inl e ↦ rw e (ground (arith, count-nil l))
      | inr e ↦ rw e (submit_busy-Accounts l bound d r next waiting)
    ]

pub give_up-Accounts :
    (l : ℕ) (j : JobState)
    → count l (ids (give_up j).1) + count l (map log_of (give_up j).0) ≡ count l (ids j)
unfolding give_up
give_up-Accounts l idle = ground (arith, count-nil l)
give_up-Accounts l (busy r next waiting) =
    ground (arith, count-ids l r next waiting, count-pending l next waiting, count-one l r)

pub advance-Accounts :
    (l : ℕ) (r : RunData) (next : Option RunData) (waiting : List RunData)
    → count l (ids (advance (busy r next waiting))) + hit l r ≡ count l (ids (busy r next waiting))
unfolding advance
advance-Accounts l r (some d) waiting =
    ground (
      arith,
      count-ids l r (some d) waiting,
      count-ids l d none waiting,
      count-one l d,
      count-nil l,
    )
advance-Accounts l r none [] = ground (arith, count-one l r, count-nil l)
advance-Accounts l r none (d ∷ waiting) = ground (
  arith,
  count-ids l r none (d ∷ waiting),
  count-ids l d none waiting,
  count-cons l d.log_id (map log_of waiting),
  count-nil l,
)
