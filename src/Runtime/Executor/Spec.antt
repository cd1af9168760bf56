-- ===== src/Runtime/Executor/Spec.antt =====
-- What the executor promises for one job, with task objects, dictionaries and log-id sets left
-- out: a job is idle, or one trigger of it runs, at most one waits to replace it, and others wait
-- in the order of their arrival. The operations say what becomes of the job and which triggers are
-- given up.
use pyxxl.Base.{
  ℕ, Bool, true, false, Option, none, some, List, [], ◌∷◌, ◌++◌, map, length, contains, nat_beq,
  leb, string_eq, ◌==◌, if◌then◌else◌,
}
use pyxxl.Model.{RunData, strategy_value, serial_execution, discard_later, cover_early}

pub data JobState : Type 0 where
  idle : JobState
  busy : RunData → Option RunData → List RunData → JobState

abbrev pub log_of : RunData → ℕ
log_of d = d.log_id

abbrev pub to_list : Option RunData → List RunData
to_list none = []
to_list (some d) = d ∷ []

-- The triggers that wait, those in the queue first.
abbrev pub pending : Option RunData → List RunData → List RunData
pending next waiting = waiting ++ to_list next

-- The log ids that a job holds.
abbrev pub ids : JobState → List ℕ
ids idle = []
ids (busy r next waiting) = r.log_id ∷ map log_of (pending next waiting)

-- What a trigger gets, and the triggers that are given up for it.
pub data Verdict : Type 0 where
  runs replaces queues is_repeated is_discarded overflows has_bad_strategy : Verdict

pub record Result : Type 0 where
  pub verdict : Verdict
  pub after : JobState
  pub given_up : List RunData

abbrev pub refuse : Verdict → JobState → Result
refuse v j = record { verdict = v; after = j; given_up = [] }

-- a bound of 0 is no bound
abbrev pub has_room : ℕ → List RunData → Bool
has_room bound waiting =
    if nat_beq bound 0 then true else if leb bound (length waiting) then false else true

unfoldable pub submit_busy : ℕ → RunData → RunData → Option RunData → List RunData → Result
submit_busy bound d r next waiting =
    let strategy = d.executor_block_strategy in
    if strategy == strategy_value discard_later
    then refuse is_discarded (busy r next waiting)
    else if strategy == strategy_value cover_early
    then record { verdict = replaces; after = busy r (some d) []; given_up = pending next waiting }
    else if strategy == strategy_value serial_execution
    then (if has_room bound waiting
        then record { verdict = queues; after = busy r next (waiting ++ d ∷ []); given_up = [] }
        else refuse overflows (busy r next waiting))
    else refuse has_bad_strategy (busy r next waiting)

unfoldable pub submit : ℕ → RunData → JobState → Result
unfolding submit_busy
submit bound d idle = record { verdict = runs; after = busy d none []; given_up = [] }
submit bound d (busy r next waiting) =
    if contains (ids (busy r next waiting)) d.log_id
    then refuse is_repeated (busy r next waiting)
    else submit_busy bound d r next waiting

-- Killing a job gives up what waits; what runs ends by itself later.
unfoldable pub give_up : JobState → List RunData × JobState
give_up idle = ([], idle)
give_up (busy r next waiting) = (pending next waiting, busy r none [])

-- What follows the trigger that ran: the replacement, else the oldest in the queue.
unfoldable pub advance : JobState → JobState
advance idle = idle
advance (busy r (some d) waiting) = busy d none waiting
advance (busy r none []) = idle
advance (busy r none (d ∷ waiting)) = busy d none waiting
