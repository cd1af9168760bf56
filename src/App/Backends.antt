-- ===== src/App/Backends.antt =====
-- The log backend: `_get_log_backend` of pyxxl/app/runner.py for the executor, and
-- `build_process_log_config` and `build_process_log_factory` of pyxxl/runtime/process.py for a child.
use pyxxl.Base.{
  ℕ, ◌≡◌, refl, Bool, true, false, Option, none, some, is_empty, if◌then◌else◌, arith, ◌||◌,
}
use pyxxl.Config.Texts.{Text, codes, same_text}
use pyxxl.Config.Address.{ok}
use pyxxl.Config.Settings.{ExecutorConfig, post_init}
use pyxxl.Config.Complete.{post_init-IsComplete}

-- `DiskLog(log_path, expired_days)` and `RedisLog(app, uri, expired_days)`
pub data Backend : Type 0 where
  disk : Text → ℕ → Backend
  redis : Text → Text → ℕ → Backend

-- _get_log_backend; `none` is NotImplementedError
unfoldable pub get_log_backend : ExecutorConfig → Option Backend
get_log_backend c =
    if same_text c.log_target (codes "disk")
    then some (disk c.log_local_dir c.log_expired_days)
    else if same_text c.log_target (codes "redis")
    then some (redis c.executor_app_name c.log_redis_uri c.log_expired_days)
    else none

-- `ProcessLogConfig`
pub record ProcessLogConfig : Type 0 where
  pub log_target : Text
  pub log_local_dir : Text
  pub log_expired_days : ℕ
  pub log_redis_uri : Text
  pub executor_app_name : Text

-- build_process_log_config
unfoldable pub build_process_log_config : ExecutorConfig → ProcessLogConfig
build_process_log_config c = record {
  log_target = c.log_target;
  log_local_dir = c.log_local_dir;
  log_expired_days = c.log_expired_days;
  log_redis_uri = c.log_redis_uri;
  executor_app_name = c.executor_app_name;
}

-- build_process_log_factory
unfoldable pub build_process_log_factory : ProcessLogConfig → Option Backend
build_process_log_factory c =
    if same_text c.log_target (codes "disk")
    then some (disk c.log_local_dir c.log_expired_days)
    else if same_text c.log_target (codes "redis")
    then some (redis c.executor_app_name c.log_redis_uri c.log_expired_days)
    else none

abbrev pub has_place : Option Backend → Bool
has_place none = false
has_place (some (disk dir days)) = if is_empty dir then false else true
has_place (some (redis app uri days)) = if is_empty app || is_empty uri then false else true

-- For a configuration that was accepted: a child process writes its task's log to the backend that
-- the executor reads; there is one, with a directory or with an application and an address, exactly
-- when the target is `disk` or `redis`.
pub child_logs_agree :
    (ip : Text) (c c' : ExecutorConfig)
    → post_init ip c ≡ ok c'
    → (build_process_log_factory (build_process_log_config c') ≡ get_log_backend c')
      × (has_place (get_log_backend c')
          ≡ (same_text c'.log_target (codes "disk") || same_text c'.log_target (codes "redis")))
unfolding build_process_log_factory build_process_log_config get_log_backend
child_logs_agree ip c c' e =
    let w = post_init-IsComplete ip c c' e in
    (refl, ground (arith, w.app_name, w.local_dir, w.redis_uri))
