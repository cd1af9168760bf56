-- ===== src/Protocol/Examples.antt =====
-- Requests to two admins, of which one is out of reach at first, and requests to the endpoints.

use pyxxl.Base.{
  ℕ, ◌≡◌, refl, String, Bool, true, none, some, List, [], ◌∷◌, not, ◌&&◌, nat_beq, if◌then◌else◌,
  string_eq, ◌==◌,
}
use pyxxl.Logs.Store.{LogResponse, lines_of}
use pyxxl.Model.{RunData}
use pyxxl.Runtime.Executor.State.{Executor}
use pyxxl.Runtime.Executor.Events.{Event, init, triggers, run}
use pyxxl.Runtime.Executor.Spec.{submit}
use pyxxl.Runtime.Executor.Invariant.{IsValid, job_state}
use pyxxl.Runtime.Executor.Promises.{run-init-IsValid}
use pyxxl.Protocol.Admin.{Response, Exchange, json, unreachable, breaks, post, post_once}
use pyxxl.Protocol.Failover.{escapes, answer_of, first_in_rounds, post_finds_first}
use pyxxl.Protocol.Server.{wrong_token, respond, asks_token, same_token, handle, kills, run_request}
use pyxxl.Protocol.Serving.{code_of, verdict_code, effect, token_guards, run_request_code}

abbrev admins : List String
admins = "http://one/api/" ∷ "http://two/api/" ∷ []

abbrev accepted_response : Response
accepted_response = record { code = 200; msg = none }

-- No admin is reached in the first round; in the second each accepts.
abbrev flaky : ℕ → String → Exchange
flaky times url = if nat_beq times 1 then unreachable "refused" else json accepted_response

post_finds_first_example :
    answer_of (post admins flaky (some 5) 1) ≡ first_in_rounds flaky admins 5 1
post_finds_first_example = post_finds_first admins flaky (some 5) 1

-- The second admin answers with a page that is not JSON.
broken_page :
    answer_of (
      post admins
        (λ times url.
          if url == "http://two/api/" then breaks "ContentTypeError" else unreachable "refused")
        (some 5)
        1)
    ≡ some (escapes "ContentTypeError")
unfolding post post_once
broken_page = refl

abbrev any_handler : String → Bool
any_handler name = true

abbrev trigger : ℕ → String → RunData
trigger log strategy = record {
  job_id = 7;
  log_id = log;
  executor_handler = "demo";
  executor_block_strategy = strategy;
  executor_params = none;
  executor_timeout = none;
  log_date_time = none;
  glue_type = none;
  glue_source = none;
  glue_updatetime = none;
  broadcast_index = none;
  broadcast_total = none;
}

abbrev history : List Event
history = triggers 10 (trigger 1 "SERIAL_EXECUTION") ∷ []

abbrev serving : Executor
serving = run (init any_handler 60 2 none) history

serving-IsValid : IsValid serving
serving-IsValid = run-init-IsValid any_handler 60 2 none history

-- A log of one line, whatever is asked for.
abbrev one_line : ℕ → ℕ → LogResponse
one_line log from = record {
  from_line_num = from;
  to_line_num = from;
  log_content = lines_of ("done" ∷ []);
  is_end = true;
}

token_guards_example :
    ((handle one_line (some "secret") none serving (kills 12 7)).0 ≡ (
      if asks_token (some "secret") && not (same_token none (some "secret"))
      then respond 500 (some wrong_token)
      else (handle one_line none none serving (kills 12 7)).0))
    × ((handle one_line (some "secret") none serving (kills 12 7)).1 ≡ (
        if asks_token (some "secret") && not (same_token none (some "secret"))
        then serving
        else effect serving (kills 12 7)))
token_guards_example = token_guards one_line (some "secret") none serving (kills 12 7)

run_request_code_example : code_of (run_request serving 11 (trigger 2 "UNKNOWN")).0 ≡ (
    if serving.handler "demo"
    then verdict_code
        (submit serving.task_queue_length (trigger 2 "UNKNOWN") (job_state serving 7)).verdict
    else some 500)
run_request_code_example = run_request_code serving 11 (trigger 2 "UNKNOWN") serving-IsValid
