-- ===== src/App/Runner.antt =====
-- pyxxl/app/runner.py: `_get_xxl_client`, `_register_task`, and the part of `_cleanup_ctx` that starts
-- the executor; pyxxl/protocol/admin_client.py: `XXL.__init__`, `registry` and `registryRemove`.
use pyxxl.Base.{
  ℕ, String, Bool, true, false, Option, none, some, List, [], ◌∷◌, is_empty, if◌then◌else◌,
}
use pyxxl.Config.Texts.{Text, codes}
use pyxxl.Config.Address.{ValueError, Result, ok, err, ◌>>=◌, normalize_admin_urls}
use pyxxl.Config.Settings.{ExecutorConfig, admin_baseurls}
use pyxxl.Protocol.Admin.{Exchange, PostError, client_error, other_error, returned, raised, post}
use pyxxl.Runtime.Executor.Events.{init as new_executor}
use pyxxl.Runtime.Callbacks.State.{Manager}
use pyxxl.Runtime.System.{System, launch}
use pyxxl.App.Backends.{Backend, get_log_backend}

-- `XXL`
pub record Client : Type 0 where
  pub admin_urls : List Text
  pub headers : List (Text × Text)
  pub retry_times : ℕ
  pub retry_duration : ℕ
  pub http_timeout : ℕ

-- `if token`: the two headers
unfoldable pub headers_of : Option Text → List (Text × Text)
headers_of none = []
headers_of (some token) =
    if is_empty token
    then []
    else (codes "XXL-JOB-ACCESS-TOKEN", token) ∷ (codes "XXL-RPC-ACCESS-TOKEN", token) ∷ []

-- _get_xxl_client, with XXL.__init__
unfoldable pub get_xxl_client : ExecutorConfig → Result Client
unfolding headers_of
get_xxl_client c = do
  urls ← normalize_admin_urls (admin_baseurls c)
  ok record {
    admin_urls = urls;
    headers = headers_of c.access_token;
    retry_times = c.http_retry_times;
    retry_duration = c.http_retry_duration;
    http_timeout = c.http_timeout;
  }

-- How registry ends: whether an admin took the registration, or an exception that it does not catch.
pub data Registration : Type 0 where
  registered : Bool → Registration
  registry_raised : String → Registration

-- registry, with five rounds at most
unfoldable pub registry : List String → (ℕ → String → Exchange) → ℕ → Registration
registry urls send default = elim (post urls send (some 5) default) [
  | returned r ↦ registered true
  | raised e ↦ elim e [ client_error e' ↦ registered false | other_error why ↦ registry_raised why ]
]

abbrev pub after_registry : Registration → List Bool × Option String → List Bool × Option String
after_registry (registered b) (results, raised_text) = (b ∷ results, raised_text)
after_registry (registry_raised why) later = ([], some why)

-- _register_task over what the network gives in each of its rounds: the results of registry, and the
-- exception that ended the loop, if one did
unfoldable pub register_task :
    List String → ℕ → List (ℕ → String → Exchange) → List Bool × Option String
unfolding registry
register_task urls default [] = ([], none)
register_task urls default (send ∷ sends) =
    let later = register_task urls default sends in
    after_registry (registry urls send default) later

-- registryRemove: three rounds at most; an error is raised
unfoldable pub registry_remove : List String → (ℕ → String → Exchange) → ℕ → Option PostError
registry_remove urls send default = elim (post urls send (some 3) default) [
  | returned r ↦ none
  | raised e ↦ some e
]

-- What the application holds while it serves.
pub record App : Type 0 where
  pub system : System
  pub task_log : Backend
  pub client : Client
  pub register_task : Bool
  pub log_task : Bool
  pub client_open : Bool

pub data StartError : Type 0 where
  not_implemented : StartError
  value_error : ValueError → StartError

pub data Started : Type 0 where
  started : App → Started
  failed : StartError → Started

-- _cleanup_ctx up to its `yield`, for a handler registry and a callback manager before its start;
-- the hooks are taken not to raise
unfoldable pub start_app : (String → Bool) → ExecutorConfig → Manager → Started
start_app known c m = elim (get_log_backend c) [
  | none ↦ failed not_implemented
  | some log ↦ elim (get_xxl_client c) [
    | err e ↦ failed (value_error e)
    | ok x ↦ started record {
      system = launch (new_executor known c.task_timeout c.task_queue_length none) m;
      task_log = log;
      client = x;
      register_task = true;
      log_task = true;
      client_open = true;
    }
  ]
]
