-- ===== src/App/Examples.antt =====
-- Runs of the application: a start, a cleanup, and the shutdown of a busy executor.
use pyxxl.Base.{
  ℕ, ◌≡◌, refl, String, Bool, true, false, List, ◌||◌, Option, none, some, [], ◌∷◌, Dict, nat_eq,
}
use pyxxl.Config.Texts.{
  Text, codes, lstrip, strip, split, join, starts_with, ends_with, same_text, span, decimal,
}
use pyxxl.Config.Url.{split_params, urlparse, geturl}
use pyxxl.Config.Address.{
  ok, normalize_admin_url, validate_admin_baseurl, split_admin_baseurls, normalize_admin_urls,
}
use pyxxl.Config.Settings.{ExecutorConfig, default_config, post_init, admin_baseurls}
use pyxxl.Runtime.Executor.State.{Message}
use pyxxl.Model.{RunData}
use pyxxl.Runtime.Executor.Tasks.{cancelled}
use pyxxl.Runtime.Executor.Events.{
  Event as Schedule, triggers, begins, ends, drops, run as run_executor, init as new_executor,
}
use pyxxl.Runtime.Executor.Promises.{run-init-IsValid}
use pyxxl.Runtime.Executor.Stopped.{IsStopped}
use pyxxl.Runtime.Callbacks.State.{File}
use pyxxl.Runtime.Callbacks.Worker.{init as new_manager}
use pyxxl.Runtime.Callbacks.Balance.{start-init-IsRunning}
use pyxxl.Runtime.System.{System, schedules, launch}
use pyxxl.Runtime.System.Delivery.{scheduled}
use pyxxl.App.Backends.{
  disk, get_log_backend, build_process_log_config, build_process_log_factory, has_place,
  child_logs_agree,
}
use pyxxl.App.Runner.{App, Client, started, start_app, get_xxl_client}
use pyxxl.App.Cleanup.{Turn, Waits, shutdown, cleanup}
use pyxxl.App.Shutdown.{shutdown_stops_all}
use pyxxl.App.Outcome.{Leaves, cleanup_outcome}

abbrev local_ip : Text
local_ip = codes "10.0.0.7"

abbrev given : ExecutorConfig
given = default_config (codes "http://a/api") (codes "app")

abbrev settled : ExecutorConfig
settled = record given {
  xxl_admin_baseurl = codes "http://a/api/";
  executor_listen_host = local_ip;
  executor_url = codes "http://10.0.0.7:9999";
  executor_logger = some (codes "pyxxl.runtime.executor");
}

settles : post_init local_ip given ≡ ok settled
unfolding post_init default_config validate_admin_baseurl split_admin_baseurls split strip
    normalize_admin_url geturl urlparse span lstrip split_params starts_with ends_with join decimal
settles = refl

child_logs_agree_example :
    (build_process_log_factory (build_process_log_config settled) ≡ get_log_backend settled)
    × (has_place (get_log_backend settled) ≡ (
        same_text settled.log_target (codes "disk")
        || same_text settled.log_target (codes "redis")))
child_logs_agree_example = child_logs_agree local_ip given settled settles

abbrev any_handler : String → Bool
any_handler name = true

abbrev no_files : Dict ℕ File
no_files = record { entries = [] }

abbrev client : Client
client = record {
  admin_urls = codes "http://a/api/" ∷ [];
  headers = [];
  retry_times = 3;
  retry_duration = 5;
  http_timeout = 30;
}

abbrev app : App
app = record {
  system = launch (new_executor any_handler 600 30 none) (new_manager (λ p. true) no_files 0);
  task_log = disk (codes "logs") 14;
  client = client;
  register_task = true;
  log_task = true;
  client_open = true;
}

app_starts : start_app any_handler settled (new_manager (λ p. true) no_files 0) ≡ started app
unfolding start_app default_config get_log_backend get_xxl_client normalize_admin_urls
    admin_baseurls split_admin_baseurls split strip normalize_admin_url geturl urlparse span lstrip
    split_params starts_with ends_with same_text
app_starts = refl

app_manager : app.system.callback_manager.started ≡ true
unfolding launch
app_manager = (start-init-IsRunning (λ p. true) no_files 0).started

abbrev text : Message → Option String
text m = none

abbrev alone : ℕ → Turn
alone job = record { before = []; now = 20 }

abbrev quiet : Waits
quiet = record {
  removing = [];
  closing = [];
  timed_out = false;
  flushing = [];
  settling = [];
  turns = alone;
  awaiting = [];
  failing = none;
  stopping = [];
  flushed = true;
  stopped = true;
}

cleanup_outcome_example :
    Leaves text false none quiet app
      (cleanup text false none quiet app).0
      (cleanup text false none quiet app).1
cleanup_outcome_example = cleanup_outcome text false none quiet app app_manager

abbrev trigger : RunData
trigger = record {
  job_id = 3;
  log_id = 7;
  executor_handler = "demo";
  executor_block_strategy = "SERIAL_EXECUTION";
  executor_params = none;
  executor_timeout = none;
  log_date_time = none;
  glue_type = none;
  glue_source = none;
  glue_updatetime = none;
  broadcast_index = none;
  broadcast_total = none;
}

-- One trigger runs, one waits; the shutdown finds them after its first wait.
abbrev arriving : List Schedule
arriving = triggers 10 trigger ∷ triggers 11 (record trigger { log_id = 8 }) ∷ begins 0 ∷ []

abbrev busy_system : System
busy_system = record app.system {
  executor = run_executor (new_executor any_handler 600 30 none) arriving;
}

-- Between the cancellations a coroutine takes its first step, and the cancelled task ends then.
abbrev restless : Waits
restless = record quiet {
  settling = schedules (triggers 12 (record trigger { job_id = 4 })) ∷ [];
  turns = λ job. record { before = schedules (begins 1) ∷ []; now = 20 };
  awaiting = schedules (ends 21 0 cancelled) ∷ schedules (drops 21 1) ∷ [];
}

shutdown_stops_all_example : IsStopped (shutdown text busy_system restless).1.executor 3
unfolding scheduled
shutdown_stops_all_example =
    shutdown_stops_all text busy_system restless (run-init-IsValid any_handler 600 30 none arriving)
      refl (λ job. (refl, tt)) (refl, (refl, tt)) 3
