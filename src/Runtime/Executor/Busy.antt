-- ===== src/Runtime/Executor/Busy.antt =====
-- `run_job` for a job that is busy: each block strategy does what the specification says.
use mathlib.Core.Path.{subst₂}
use pyxxl.Base.{
  ℕ, ◌≡◌, refl, inl, inr, true, false, Option, some, List, [], ◌∷◌, ◌++◌, map, length, nat_eq,
  Bool-cases, if◌then◌else◌, contains, string_eq, ◌==◌,
}
use pyxxl.Model.{RunData, strategy_value, serial_execution, discard_later, cover_early}
use pyxxl.Runtime.Executor.State.{cover_effect, Executor}
use pyxxl.Runtime.Executor.Jobs.{Reply, handle_discard_later, handle_serial_execution, block}
use pyxxl.Runtime.Executor.Spec.{
  JobState, idle, busy, ids, refuse, queues, is_repeated, overflows, Result, submit, submit_busy,
  has_room,
}
use pyxxl.Runtime.Executor.Slots.{slot}
use pyxxl.Runtime.Executor.Invariant.{IsValid, current_data, job_state}
use pyxxl.Runtime.Executor.Landing.{Lands, IsSame, IsSame-refuses, IsSame-Lands, IsSame-bound}
use pyxxl.Runtime.Executor.Answers.{queue_failure, Does, answer}
use pyxxl.Runtime.Executor.Blocking.{serial_room, serial_full, cover_Does}

abbrev pub length_at : Executor → ℕ → ℕ
length_at s k = length (slot s k).waiting

abbrev pub result_at : Executor → RunData → RunData → Result
result_at s d r =
    submit_busy s.task_queue_length d r (slot s d.job_id).next (slot s d.job_id).waiting

module _ (s : Executor) (now : ℕ) (d : RunData) (w : IsValid s) (r : RunData)
    (busy_r : current_data s d.job_id ≡ some r)
    (new : contains (slot s d.job_id).log_ids d.log_id ≡ false) where
  state_busy : job_state s d.job_id ≡ busy r (slot s d.job_id).next (slot s d.job_id).waiting
  state_busy = rw busy_r

  refused :
      (s' : Executor)
      → IsSame s s'
      → Lands s s' d.job_id (busy r (slot s d.job_id).next (slot s d.job_id).waiting) []
  refused s' same = rw state_busy at (IsSame-refuses same d.job_id w)

  serial_Does :
      Does s now d
        (length_at s d.job_id)
        (if has_room s.task_queue_length (slot s d.job_id).waiting
          then record {
            verdict = queues;
            after = busy r (slot s d.job_id).next ((slot s d.job_id).waiting ++ d ∷ []);
            given_up = [];
          }
          else record {
            verdict = overflows;
            after = busy r (slot s d.job_id).next (slot s d.job_id).waiting;
            given_up = [];
          })
        (handle_serial_execution s d)
  serial_Does = elim (Bool-cases (has_room s.task_queue_length (slot s d.job_id).waiting)) [
    | inl e ↦ rw e (serial_room s now d w r busy_r new e)
    | inr e ↦ rw e (rw state_busy at (serial_full s now d w r busy_r new e))
  ]

  pub block-Does : Does s now d (length_at s d.job_id) (result_at s d r) (block s now d)
  unfolding block submit_busy handle_discard_later
  block-Does = elim (Bool-cases (d.executor_block_strategy == strategy_value discard_later)) [
    | inl e ↦
        rw e
          (record { lands = refused s (record { slots = λ j. refl; rest = refl }); answers = refl })
    | inr e ↦ elim (Bool-cases (d.executor_block_strategy == strategy_value cover_early)) [
      | inl f ↦ rw (e, f) (cover_Does s now d w r busy_r new)
      | inr f ↦ elim (Bool-cases (d.executor_block_strategy == strategy_value serial_execution)) [
        | inl g ↦ rw (e, f, g) serial_Does
        | inr g ↦
            rw (e, f, g)
              (record {
                lands = refused s (record { slots = λ j. refl; rest = refl });
                answers = refl;
              })
      ]
    ]
  ]

pub submit_repeated :
    (bound : ℕ) (d : RunData) (j : JobState)
    → contains (ids j) d.log_id ≡ true
    → submit bound d j ≡ refuse is_repeated j
unfolding submit contains
submit_repeated bound d idle h = cc
submit_repeated bound d (busy r next waiting) h = rw h

pub submit_new :
    (bound : ℕ) (d r : RunData) (next : Option RunData) (waiting : List RunData)
    → contains (ids (busy r next waiting)) d.log_id ≡ false
    → submit bound d (busy r next waiting) ≡ submit_busy bound d r next waiting
unfolding submit
submit_new bound d r next waiting h = rw h

pub Does-same :
    (s s' : Executor) (now : ℕ) (d r : RunData) (out : Reply × Executor)
    → IsSame s s'
    → Does s' now d (length_at s' d.job_id) (result_at s' d r) out
    → Does s now d (length_at s d.job_id) (result_at s d r) out
Does-same s s' now d r out same h = record {
  lands =
      subst₂
        (λ b v.
          Lands s out.1 d.job_id (submit_busy b d r v.next v.waiting).after
            (map (queue_failure now cover_effect) (submit_busy b d r v.next v.waiting).given_up))
        (IsSame-bound same) (same.slots d.job_id) (IsSame-Lands same h.lands);
  answers =
      subst₂
        (λ b v. out.0 ≡ answer b d (length v.waiting) (submit_busy b d r v.next v.waiting).verdict)
        (IsSame-bound same) (same.slots d.job_id) h.answers;
}
