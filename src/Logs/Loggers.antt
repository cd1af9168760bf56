-- ===== src/Logs/Loggers.antt =====
-- pyxxl/logger/__init__.py, and the loggers and handlers of pyxxl/logger/common.py, disk.py and
-- redis.py: `new_logger`, `get_logger`, `after_running`, `emit`. A task logger is known by its log id:
-- `logging.getLogger` gives the same object for a log id each time. One process has one backend. What
-- a child process writes to the same log, by loggers of its own, is left out.
use pyxxl.Base.{
  ℕ, String, Bool, true, false, Option, none, some, List, [], ◌∷◌, ◌++◌, Dict, set, empty, leb,
  nat_eq, if◌then◌else◌,
}
use pyxxl.Model.{RunData}
use pyxxl.Context.{Context, try_get_run_data, set_task_logger, reset_task_logger}
use pyxxl.Runtime.Executor.State.{items}
use pyxxl.Logs.Store.{emit}

-- `DiskLog` and `RedisLog`
pub data LogFactory : Type 0 where
  disk_log redis_log : LogFactory

-- `PyxxlStreamHandler`, `PyxxlFileHandler` and `RedisHandler`; the latter two write to the key of the
-- log id of their logger
pub data Handler : Type 0 where
  stream file redis : Handler

-- `LogRecord`: its level, and all that the formatter reads of it but the log id
pub record Record : Type 0 where
  pub level : ℕ
  pub content : String

-- The handlers of the loggers, the log files, the lists of Redis, and what went to the console.
pub record Logging : Type 0 where
  pub handlers : Dict ℕ (List Handler)
  pub files : Dict ℕ (List String)
  pub lists : Dict ℕ (List String)
  pub console : List String

unfoldable pub no_logging : Logging
unfolding empty
no_logging = record { handlers = empty; files = empty; lists = empty; console = [] }

-- logging.DEBUG, logging.INFO, logging.WARNING, logging.ERROR
abbrev pub debug_level : ℕ
debug_level = 10

abbrev pub info_level : ℕ
info_level = 20

abbrev pub warning_level : ℕ
warning_level = 30

abbrev pub error_level : ℕ
error_level = 40

-- MAX_LOG_TAIL_LINES
abbrev pub max_log_tail_lines : ℕ
max_log_tail_lines = 1000

-- isinstance(h, logging.FileHandler)
abbrev pub is_file_handler : Handler → Bool
is_file_handler stream = false
is_file_handler file = true
is_file_handler redis = false

unfoldable pub file_handlers : List Handler → List Handler
file_handlers [] = []
file_handlers (h ∷ hs) = let rest = file_handlers hs in if is_file_handler h then h ∷ rest else rest

-- logger.removeHandler, of a handler of a file
unfoldable pub remove_handler : List Handler → List Handler
remove_handler [] = []
remove_handler (h ∷ hs) = let rest = remove_handler hs in if is_file_handler h then hs else h ∷ rest

-- `record.logId = xxl_kwargs.logId if xxl_kwargs else "NotInTask"`
unfoldable pub log_id_of : Option RunData → Option ℕ
log_id_of none = none
log_id_of (some d) = some d.log_id

-- get_logger: both backends add a handler for the console, and their own
unfoldable pub own_handler : LogFactory → Handler
own_handler disk_log = file
own_handler redis_log = redis

unfoldable pub get_logger : LogFactory → Logging → ℕ → Logging
unfolding own_handler
get_logger f s n = record s {
  handlers = set s.handlers n (items s.handlers n ++ stream ∷ own_handler f ∷ []);
}

-- `format` is the formatter of a task's records, of the log id and the rest of a record; `lines` are
-- the lines that `readline` finds in what one record adds to a file.
module _ (format : Option ℕ → String → String) (lines : String → List String) where
  -- the `emit` of a handler
  unfoldable pub emit_to : Logging → ℕ → String → Handler → Logging
  emit_to s n text stream = record s { console = s.console ++ text ∷ [] }
  emit_to s n text file = record s { files = set s.files n (items s.files n ++ lines text) }
  emit_to s n text redis = record s {
    lists = set s.lists n (emit max_log_tail_lines (items s.lists n) text);
  }

  unfoldable pub call_handlers : Logging → ℕ → String → List Handler → Logging
  unfolding emit_to
  call_handlers s n text [] = s
  call_handlers s n text (h ∷ hs) = call_handlers (emit_to s n text h) n text hs

  -- a call of the logger of a log id, where the context has that trigger; the logger and its
  -- handlers have the level INFO, and the logger does not propagate
  unfoldable pub log_record : Logging → ℕ → Option RunData → Record → Logging
  unfolding call_handlers log_id_of
  log_record s n context r =
      if leb info_level r.level
      then call_handlers s n (format (log_id_of context) r.content) (items s.handlers n)
      else s

  -- the loop of DiskLog.after_running
  unfoldable pub close_files : Logging → ℕ → Option RunData → List Handler → Logging
  unfolding log_record remove_handler
  close_files s n context [] = s
  close_files s n context (fh ∷ fhs) =
      let s₁ =
        log_record s n context
          (record { level = debug_level; content = "close file log object" }) in
      close_files
        (record s₁ { handlers = set s₁.handlers n (remove_handler (items s₁.handlers n)) }) n
        context fhs

  -- after_running; that of RedisLog is LogBase's, which does nothing
  unfoldable pub after_running : LogFactory → Logging → ℕ → Option RunData → Logging
  unfolding close_files file_handlers
  after_running disk_log s n context = close_files s n context (file_handlers (items s.handlers n))
  after_running redis_log s n context = s

  -- What happens to the loggers of a process: new_logger begins or ends for a log id, or somebody
  -- calls the logger of a log id.
  pub data Event : Type 0 where
    opens : LogFactory → ℕ → Event
    writes : ℕ → Option RunData → Record → Event
    closes : LogFactory → ℕ → Option RunData → Event

  unfoldable pub step : Logging → Event → Logging
  unfolding get_logger log_record after_running
  step s (opens f n) = get_logger f s n
  step s (writes n context r) = log_record s n context r
  step s (closes f n context) = after_running f s n context

  unfoldable pub run : Logging → List Event → Logging
  unfolding step
  run s [] = s
  run s (e ∷ es) = run (step s e) es

  -- new_logger around a `with` body: what happens in the body, and whether an exception leaves it.
  -- Behind a `yield` that raises nothing is done.
  unfoldable pub new_logger :
      LogFactory → ℕ → List Event → Bool → Logging → Context → Logging × Context
  unfolding run set_task_logger reset_task_logger try_get_run_data
  new_logger f n es raised s c =
      let s₁ = run (get_logger f s n) es in
      let (token, c₁) = set_task_logger n c in
      if raised
      then (s₁, c₁)
      else (after_running f s₁ n (try_get_run_data c), reset_task_logger token c₁)
