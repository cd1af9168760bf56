-- ===== src/Protocol/Serving.antt =====
-- What the endpoints answer, by the specification of the job that the request is about.

use pyxxl.Base.{
  ℕ, ◌≡◌, refl, ap, ◌∙◌, ◌↔◌, inl, inr, String, Bool, true, false, Option, none, some, not, ◌&&◌,
  Bool-cases, length, string_eq, if◌then◌else◌, arith,
}
use pyxxl.Model.{RunData}
use pyxxl.Logs.Store.{LogResponse}
use pyxxl.Runtime.Executor.State.{killed, handler_missing, Executor}
use pyxxl.Runtime.Executor.Jobs.{run_job, cancel_job, err, not_found, is_running_or_has_queue}
use pyxxl.Runtime.Executor.Spec.{
  idle, Verdict, runs, replaces, queues, is_repeated, is_discarded, overflows, has_bad_strategy,
  submit,
}
use pyxxl.Runtime.Executor.Slots.{slot}
use pyxxl.Runtime.Executor.Invariant.{IsValid, job_state}
use pyxxl.Runtime.Executor.Answers.{answer}
use pyxxl.Runtime.Executor.Promises.{run_job_refines, idle_beat_exact}
use pyxxl.Protocol.Server.{
  wrong_token, Response, respond, uncaught, respond_page, asks_token, same_token,
  validate_access_token, idle_beat, reply_of, run_request, Request, beats, idle_beats, logs, handle,
  beat, kill_request, log_request, beat_route, idle_beat_route, run_route, kill_route, log_route,
}

-- The code of a response; the framework's for an exception that is not caught.
abbrev pub code_of : Response → Option ℕ
code_of (respond code text) = some code
code_of (uncaught e) = none
code_of (respond_page page) = some 200

-- The code that goes with a verdict: none where the handler ends with an exception.
abbrev pub verdict_code : Verdict → Option ℕ
verdict_code runs = some 200
verdict_code replaces = some 200
verdict_code queues = some 200
verdict_code is_repeated = some 500
verdict_code is_discarded = some 500
verdict_code overflows = some 500
verdict_code has_bad_strategy = none

code_of-answer :
    (bound : ℕ) (d : RunData) (n : ℕ) (v : Verdict)
    → code_of (reply_of (answer bound d n v)) ≡ verdict_code v
unfolding reply_of
code_of-answer bound d n runs = refl
code_of-answer bound d n replaces = refl
code_of-answer bound d n queues = refl
code_of-answer bound d n is_repeated = refl
code_of-answer bound d n is_discarded = refl
code_of-answer bound d n overflows = refl
code_of-answer bound d n has_bad_strategy = refl

-- What a request with a valid token does to the executor.
abbrev pub effect : Executor → Request → Executor
effect s (Request.runs now d) = (run_job s now d).1
effect s (Request.kills now job) = cancel_job s now job true killed
effect s _ = s

-- When a token is configured and the header does not carry it, each of the endpoints beat, idleBeat,
-- run, kill and log answers that the token is wrong and leaves the executor. Otherwise it answers as
-- without a token, and the executor is what `run_job` makes of it for run, what `cancel_job` with the
-- queue makes of it for kill, and as before for the others.
pub token_guards :
    (get_logs : ℕ → ℕ → LogResponse) (token header : Option String) (s : Executor) (r : Request)
    → ((handle get_logs token header s r).0 ≡ (
        if asks_token token && not (same_token header token)
        then respond 500 (some wrong_token)
        else (handle get_logs none none s r).0))
      × ((handle get_logs token header s r).1
          ≡ (if asks_token token && not (same_token header token) then s else effect s r))
unfolding handle validate_access_token asks_token beat_route idle_beat_route run_route kill_route
    log_route beat idle_beat run_request kill_request log_request
token_guards get_logs token header s beats = (ground arith, ground arith)
token_guards get_logs token header s (idle_beats job) = (ground arith, ground arith)
token_guards get_logs token header s (Request.runs now d) = (ground arith, ground arith)
token_guards get_logs token header s (Request.kills now job) = (ground arith, ground arith)
token_guards get_logs token header s (logs log from) = (ground arith, ground arith)

-- In a valid state the code of a run request is 500 for an unknown handler, and else the code of the
-- verdict that the specification gives the trigger: 200 where it runs, replaces or is queued, 500
-- where it is repeated, discarded or overflows, and none (an exception that the endpoint does not
-- catch) where its block strategy is unknown to a busy job.
pub run_request_code :
    (s : Executor) (now : ℕ) (d : RunData)
    → IsValid s
    → code_of (run_request s now d).0 ≡ (
        if s.handler d.executor_handler
        then verdict_code (submit s.task_queue_length d (job_state s d.job_id)).verdict
        else some 500)
unfolding run_request reply_of
run_request_code s now d w =
    ap (λ x. code_of (reply_of x)) (run_job_refines s now d w).2 ∙ go (s.handler d.executor_handler)
  where
    go :
        (b : Bool)
        → code_of (
            reply_of (
              if b
              then answer s.task_queue_length d
                  (length (slot s d.job_id).waiting)
                  (submit s.task_queue_length d (job_state s d.job_id)).verdict
              else err (not_found (handler_missing d.executor_handler))))
          ≡ (if b
              then verdict_code (submit s.task_queue_length d (job_state s d.job_id)).verdict
              else some 500)
    go true = code_of-answer s.task_queue_length d _ _
    go false = refl

-- In a valid state an idle beat answers 200 exactly when nothing of the job runs or waits.
pub idle_beat_code :
    (s : Executor) (job : ℕ)
    → IsValid s
    → ((code_of (idle_beat s job).0 ≡ some 200) ↔ (job_state s job ≡ idle))
      × ((idle_beat s job).1 ≡ s)
unfolding idle_beat
idle_beat_code s job w =
    let p = idle_beat_exact s job w in
    elim (Bool-cases (is_running_or_has_queue s job)) [
      | inl e ↦ rw e ((λ h. absurd (ground (arith, h)), λ i. absurd (p.0 e i)), refl)
      | inr e ↦ rw e ((λ h. p.1 e, λ i. refl), refl)
    ]
