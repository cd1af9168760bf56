-- ===== src/Config/Settings.antt =====
-- pyxxl/config/executor.py: `ExecutorConfig` and its `__post_init__`. The settings are numbers and
-- texts that were given to the constructor; what the environment overrides is given as if it were.
use pyxxl.Base.{ℕ, Bool, ◌&&◌, Option, none, some, List, [], ◌++◌, is_empty, if◌then◌else◌}
use pyxxl.Config.Texts.{Text, codes, same_text, decimal}
use pyxxl.Config.Address.{
  app_name_required, local_dir_required, redis_uri_required, Result, ok, err, ◌>>=◌,
  split_admin_baseurls, validate_admin_baseurl,
}

-- `ExecutorConfig`; a logger is its name, `log_expired_days` a number of whole days
pub record ExecutorConfig : Type 0 where
  pub xxl_admin_baseurl : Text
  pub executor_app_name : Text
  pub access_token : Option Text
  pub executor_url : Text
  pub executor_listen_port : ℕ
  pub executor_listen_host : Text
  pub executor_log_path : Text
  pub executor_logger : Option Text
  pub max_workers : ℕ
  pub task_timeout : ℕ
  pub task_queue_length : ℕ
  pub graceful_close : Bool
  pub graceful_timeout : ℕ
  pub log_target : Text
  pub log_local_dir : Text
  pub log_redis_uri : Text
  pub log_expired_days : ℕ
  pub log_clean_interval : ℕ
  pub http_retry_times : ℕ
  pub http_retry_duration : ℕ
  pub http_timeout : ℕ
  pub dotenv_try : Bool
  pub dotenv_path : Option Text
  pub debug : Bool

-- the configuration with the two arguments that have no default
unfoldable pub default_config : Text → Text → ExecutorConfig
default_config admin app = record {
  xxl_admin_baseurl = admin;
  executor_app_name = app;
  access_token = none;
  executor_url = [];
  executor_listen_port = 9999;
  executor_listen_host = [];
  executor_log_path = codes "pyxxl.log";
  executor_logger = none;
  max_workers = 30;
  task_timeout = 600;
  task_queue_length = 30;
  graceful_close = Bool.false;
  graceful_timeout = 300;
  log_target = codes "disk";
  log_local_dir = codes "logs";
  log_redis_uri = [];
  log_expired_days = 14;
  log_clean_interval = 3600;
  http_retry_times = 3;
  http_retry_duration = 5;
  http_timeout = 30;
  dotenv_try = Bool.true;
  dotenv_path = none;
  debug = Bool.false;
}

-- _validate_executor_app_name
unfoldable pub validate_executor_app_name : ExecutorConfig → Result ExecutorConfig
validate_executor_app_name c = if is_empty c.executor_app_name then err app_name_required else ok c

-- _validate_logger_target
unfoldable pub validate_logger_target : ExecutorConfig → Result ExecutorConfig
validate_logger_target c =
    if same_text c.log_target (codes "disk") && is_empty c.log_local_dir
    then err local_dir_required
    else if same_text c.log_target (codes "redis") && is_empty c.log_redis_uri
    then err redis_uri_required
    else ok c

-- `if not self.executor_listen_host: ...`, by the address that get_network_ip gives
unfoldable pub fill_host : Text → ExecutorConfig → ExecutorConfig
fill_host ip c =
    if is_empty c.executor_listen_host then record c { executor_listen_host = ip } else c

-- `if not self.executor_url: ...`
unfoldable pub fill_url : ExecutorConfig → ExecutorConfig
fill_url c =
    if is_empty c.executor_url
    then record c {
      executor_url =
          codes "http://" ++ c.executor_listen_host ++ codes ":" ++ decimal c.executor_listen_port;
    }
    else c

-- `if self.executor_logger is None: ...`
unfoldable pub fill_logger : ExecutorConfig → ExecutorConfig
fill_logger c = elim c.executor_logger [
  | none ↦ record c { executor_logger = some (codes "pyxxl.runtime.executor") }
  | some name ↦ c
]

-- __post_init__
unfoldable pub post_init : Text → ExecutorConfig → Result ExecutorConfig
unfolding validate_executor_app_name validate_logger_target fill_host fill_url fill_logger
post_init ip c = do
  urls ← validate_admin_baseurl c.xxl_admin_baseurl
  c₁ ← validate_executor_app_name (record c { xxl_admin_baseurl = urls })
  c₂ ← validate_logger_target c₁
  ok (fill_logger (fill_url (fill_host ip c₂)))

-- admin_baseurls
unfoldable pub admin_baseurls : ExecutorConfig → List Text
admin_baseurls c = split_admin_baseurls c.xxl_admin_baseurl

-- executor_baseurl
unfoldable pub executor_baseurl : ExecutorConfig → Text
executor_baseurl c = c.executor_url
