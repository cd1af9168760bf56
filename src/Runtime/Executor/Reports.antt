-- ===== src/Runtime/Executor/Reports.antt =====
-- Which calls of the hooks of pyxxl/runtime/executor.py go with which reports.
use mathlib.Core.List.{append-nil, append_assoc}
use pyxxl.Base.{
  ℕ, suc, ◌+◌, ◌≡◌, refl, ap, sym, ◌∙◌, String, false, Option, none, some, List, [], ◌∷◌, ◌++◌, get,
  nat_eq, nat_beq, arith, if◌then◌else◌,
}
use pyxxl.Model.{RunData}
use pyxxl.Runtime.Executor.State.{
  Message, running_killed, cancelled_error, timeout_error, result, Callback, Task, Executor,
  cancel_object, cancel_task, create_task, start_task, push_callback, push_failed_queued_tasks,
}
use pyxxl.Runtime.Executor.Preserved.{Core, core, Keeps}

-- The reason that the failure hook gets for a message: none where the trigger never ran.
abbrev pub reason_of : Message → List String
reason_of (running_killed reason) = "cancelled" ∷ []
reason_of cancelled_error = "cancelled" ∷ []
reason_of timeout_error = "timeout" ∷ []
reason_of (result text) = "exception" ∷ []
reason_of _ = []

-- What the failure hook is called with for reports, oldest first.
unfoldable pub reasons : List Callback → List String
reasons [] = []
reasons (c ∷ cs) = (if nat_beq c.code 200 then [] else reason_of c.msg) ++ reasons cs

-- How many reports say that a trigger succeeded.
unfoldable pub successes : List Callback → ℕ
successes [] = 0
successes (c ∷ cs) = let rest = successes cs in if nat_beq c.code 200 then suc rest else rest

pub reasons-append : (cs ds : List Callback) → reasons (cs ++ ds) ≡ reasons cs ++ reasons ds
unfolding reasons
reasons-append [] ds = refl
reasons-append (c ∷ cs) ds =
    ap (λ l. (if nat_beq c.code 200 then [] else reason_of c.msg) ++ l) (reasons-append cs ds)
    ∙ sym (
        append_assoc (if nat_beq c.code 200 then [] else reason_of c.msg) (reasons cs) (reasons ds))

pub successes-append : (cs ds : List Callback) → successes (cs ++ ds) ≡ successes cs + successes ds
unfolding successes
successes-append [] ds = ground arith
successes-append (c ∷ cs) ds = ground (arith, successes-append cs ds)

-- The calls of the success hook: where it raises, none of them returns.
abbrev pub hooked : Option String → ℕ → ℕ
hooked none n = n
hooked (some raised_text) n = 0

-- What is counted is what was reported.
pub record IsTallied (raises : Option String) (s : Executor) : Type 0 where
  pub hook : s.succeeded_raises ≡ raises
  pub failures : s.failed ≡ reasons s.pushed
  pub wins : s.succeeded ≡ hooked raises (successes s.pushed)

core-IsTallied :
    (raises : Option String) (s s' : Executor)
    → core s' ≡ core s
    → IsTallied raises s
    → IsTallied raises s'
core-IsTallied raises s s' e w = record {
  hook = ap (λ (c : Core). c.raises) e ∙ w.hook;
  failures =
      ap (λ (c : Core). c.failed) e ∙ w.failures ∙ sym (ap (λ (c : Core). reasons c.pushed) e);
  wins =
      ap (λ (c : Core). c.succeeded) e
      ∙ w.wins
      ∙ sym (ap (λ (c : Core). hooked raises (successes c.pushed)) e);
}

module _ (raises : Option String) where
  -- A report of a failure, with the calls of the hook that go with it.
  pub failing :
      (s : Executor) (c : Callback) (calls : List String)
      → nat_beq c.code 200 ≡ false
      → reason_of c.msg ≡ calls
      → IsTallied raises s
      → IsTallied raises (record s { pushed = s.pushed ++ c ∷ []; failed = s.failed ++ calls })
  unfolding reasons successes
  failing s c calls code e w = record {
    hook = w.hook;
    failures =
        ap (λ l. l ++ calls) w.failures
        ∙ ap (λ l. reasons s.pushed ++ l) (sym (append-nil calls) ∙ sym (rw (code, e) refl))
        ∙ sym (reasons-append s.pushed (c ∷ []));
    wins = w.wins ∙ ap (hooked raises) (ground (arith, code, successes-append s.pushed (c ∷ [])));
  }

  start_task-IsTallied :
      (s : Executor) (job : ℕ) (d : RunData)
      → IsTallied raises s
      → IsTallied raises (start_task s job d)
  unfolding start_task create_task
  start_task-IsTallied s job d w = record { hook = w.hook; failures = w.failures; wins = w.wins }

  cancel_task-IsTallied :
      (s : Executor) (t : ℕ) (reason : Message)
      → IsTallied raises s
      → IsTallied raises (cancel_task s t reason)
  unfolding cancel_task cancel_object
  cancel_task-IsTallied s t reason w = at (get s.objects t)
    where
      at : (o : Option Task) → IsTallied raises (cancel_object s t reason o)
      at none = w
      at (some o) = record { hook = w.hook; failures = w.failures; wins = w.wins }

  push_failed-IsTallied :
      (ds : List RunData) (s : Executor) (now : ℕ) (reason : Message)
      → IsTallied raises s
      → IsTallied raises (push_failed_queued_tasks s now ds reason)
  unfolding push_failed_queued_tasks push_callback
  push_failed-IsTallied [] s now reason w = w
  push_failed-IsTallied (d ∷ ds) s now reason w =
      let w' = failing s _ [] refl refl w in
      push_failed-IsTallied ds _ now reason (record {
        hook = w'.hook;
        failures = sym (append-nil s.failed) ∙ w'.failures;
        wins = w'.wins;
      })

  pub IsTallied-Keeps : Keeps (IsTallied raises)
  IsTallied-Keeps = record {
    moved = core-IsTallied raises;
    started = start_task-IsTallied;
    cancelled = cancel_task-IsTallied;
    refused = λ s now ds reason w. push_failed-IsTallied ds s now reason w;
  }
