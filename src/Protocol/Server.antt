-- ===== src/Protocol/Server.antt =====
-- pyxxl/protocol/server.py: the endpoints over the executor. A request is given parsed, its `jobId`
-- and `RunData` read from the JSON body; the log store is an argument, by log id and first line.
use pyxxl.Base.{
  ℕ, String, Bool, true, false, Option, none, some, not, ◌&&◌, string_eq, ◌==◌, if◌then◌else◌,
}
use pyxxl.Model.{RunData}
use pyxxl.Logs.Store.{LogResponse}
use pyxxl.Runtime.Executor.State.{Message, killed, Executor}
use pyxxl.Runtime.Executor.Jobs.{
  JobError, duplicate, not_found, params, Reply, ok, err, run_job, cancel_job,
  is_running_or_has_queue,
}

-- The texts of the responses: the executor's, and the server's own.
pub data Text : Type 0 where
  wrong_token busy : Text
  says : Message → Text

-- What a handler of the web framework ends with: a JSON response, or an exception that it does not
-- catch, which the framework answers by HTTP status 500.
pub data Response : Type 0 where
  respond : ℕ → Option Text → Response
  uncaught : JobError → Response
  -- code 200, no text, and the page twice, as `content` and as `data`
  respond_page : LogResponse → Response

-- `access_token and ...`: no token and an empty one ask for nothing
unfoldable pub asks_token : Option String → Bool
asks_token none = false
asks_token (some token) = not (token == "")

-- `request.headers.get(ACCESS_TOKEN_HEADER) != access_token`
unfoldable pub same_token : Option String → Option String → Bool
same_token none none = true
same_token (some a) (some b) = a == b
same_token _ _ = false

-- validate_access_token, for the configured token and the header
unfoldable pub validate_access_token : Option String → Option String → Option Response
validate_access_token token header =
    if asks_token token && not (same_token header token)
    then some (respond 500 (some wrong_token))
    else none

-- beat, behind the token
unfoldable pub beat : Executor → Response × Executor
beat s = (respond 200 none, s)

-- idle_beat, behind the token
unfoldable pub idle_beat : Executor → ℕ → Response × Executor
idle_beat s job =
    if is_running_or_has_queue s job then (respond 500 (some busy), s) else (respond 200 none, s)

-- the `try` of run, on what run_job gave
unfoldable pub reply_of : Reply → Response
reply_of (ok m) = respond 200 (some (says m))
reply_of (err (duplicate m)) = respond 500 (some (says m))
reply_of (err (not_found m)) = respond 500 (some (says m))
reply_of (err (params m)) = uncaught (params m)

-- run, behind the token
unfoldable pub run_request : Executor → ℕ → RunData → Response × Executor
run_request s now d = let (reply, s') = run_job s now d in (reply_of reply, s')

-- kill, behind the token
unfoldable pub kill_request : Executor → ℕ → ℕ → Response × Executor
kill_request s now job = (respond 200 none, cancel_job s now job true killed)

pub data Request : Type 0 where
  beats : Request
  idle_beats : ℕ → Request
  runs : ℕ → RunData → Request
  kills : ℕ → ℕ → Request
  logs : ℕ → ℕ → Request

-- log, behind the token
unfoldable pub log_request : (ℕ → ℕ → LogResponse) → Executor → ℕ → ℕ → Response × Executor
log_request get_logs s log from = (respond_page (get_logs log from), s)

-- the first lines of every handler: an answer of the check, or what the handler does behind it
abbrev pub if_valid : Executor → Option Response → Response × Executor → Response × Executor
if_valid s (some invalid_response) rest = (invalid_response, s)
if_valid s none rest = rest

-- beat
unfoldable pub beat_route : Option String → Option String → Executor → Response × Executor
unfolding validate_access_token beat
beat_route token header s = if_valid s (validate_access_token token header) (beat s)

-- idle_beat
unfoldable pub idle_beat_route : Option String → Option String → Executor → ℕ → Response × Executor
unfolding validate_access_token idle_beat
idle_beat_route token header s job =
    if_valid s (validate_access_token token header) (idle_beat s job)

-- run
unfoldable pub run_route :
    Option String → Option String → Executor → ℕ → RunData → Response × Executor
unfolding validate_access_token run_request
run_route token header s now d =
    if_valid s (validate_access_token token header) (run_request s now d)

-- kill
unfoldable pub kill_route : Option String → Option String → Executor → ℕ → ℕ → Response × Executor
unfolding validate_access_token kill_request
kill_route token header s now job =
    if_valid s (validate_access_token token header) (kill_request s now job)

module _ (get_logs : ℕ → ℕ → LogResponse) where
  -- log
  unfoldable pub log_route : Option String → Option String → Executor → ℕ → ℕ → Response × Executor
  unfolding validate_access_token log_request
  log_route token header s log from =
      if_valid s (validate_access_token token header) (log_request get_logs s log from)

  -- the routes, each a handler with a check of its own
  unfoldable pub handle : Option String → Option String → Executor → Request → Response × Executor
  unfolding log_route
  handle token header s beats = beat_route token header s
  handle token header s (idle_beats job) = idle_beat_route token header s job
  handle token header s (runs now d) = run_route token header s now d
  handle token header s (kills now job) = kill_route token header s now job
  handle token header s (logs log from) = log_route token header s log from
