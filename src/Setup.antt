-- ===== src/Setup.antt =====
-- pyxxl/utils.py: `setup_logging`; and its calls in `ExecutorConfig.__post_init__` of
-- pyxxl/config/executor.py and in `PyxxlRunner._setup_logging` of pyxxl/app/runner.py.
use pyxxl.Base.{
  ℕ, ◌≡◌, refl, ap, sym, ◌∙◌, inl, inr, String, Bool, true, false, Option, none, some, List, [],
  ◌∷◌, ◌++◌, map, Dict, get, set, empty, get-set, string_eq, ◌==◌, is_empty, arith, if◌then◌else◌,
  Bool-cases, not, ◌||◌,
}
use pyxxl.Config.Texts.{Text}
use pyxxl.Config.Address.{ok, err}
use pyxxl.Config.Settings.{ExecutorConfig, post_init}
mod Once
mod Kept
mod Examples

-- Where a handler writes: the console, a file that is rotated, or a handler of the caller.
pub data Target : Type 0 where
  console : Target
  rotating_file : Text → Target
  custom : ℕ → Target

-- STD_FORMATTER, or a formatter of the caller
pub data Formatter : Type 0 where
  standard : Formatter
  own : ℕ → Formatter

pub record Handler : Type 0 where
  pub target : Target
  pub formatter : Formatter
  pub level : ℕ

-- `logging.Logger`
pub record Logger : Type 0 where
  pub level : ℕ
  pub propagate : Bool
  pub handlers : List Handler

-- logging.DEBUG, logging.INFO
abbrev pub debug_level : ℕ
debug_level = 10

abbrev pub info_level : ℕ
info_level = 20

abbrev pub new_logger : Logger
new_logger = record { level = 0; propagate = true; handlers = [] }

abbrev pub or_new : Option Logger → Logger
or_new none = new_logger
or_new (some l) = l

-- logging.getLogger(name): a new logger has no handler
unfoldable pub get_logger : Dict String Logger → String → Logger
get_logger loggers name = or_new (get loggers name)

-- `std_formatter or STD_FORMATTER`
abbrev formatter_of : Option Formatter → Formatter
formatter_of none = standard
formatter_of (some f) = f

-- the loop over the handlers
unfoldable pub equip : Formatter → ℕ → List Target → List Handler
equip f level [] = []
equip f level (t ∷ ts) = record { target = t; formatter = f; level = level } ∷ equip f level ts

-- setup_logging: a logger that has handlers stays as it is; the caller's handlers are distinct
unfoldable pub setup_logging :
    Text → String → ℕ → List Target → Option Formatter → Dict String Logger → Dict String Logger
unfolding get_logger equip
setup_logging path name level custom_handlers std_formatter loggers =
    let equipped : Logger = record {
      level = level;
      propagate = false;
      handlers =
          equip (formatter_of std_formatter) level (console ∷ rotating_file path ∷ custom_handlers);
    } in
    if is_empty (get_logger loggers name).handlers then set loggers name equipped else loggers

abbrev pub level_of : Bool → ℕ
level_of debug = if debug then debug_level else info_level

abbrev pub setting_name : String
setting_name = "pyxxl.config.executor"

abbrev pub executor_name : String
executor_name = "pyxxl.runtime.executor"

-- `if self.executor_logger is None: ...` of a configuration that was not refused
unfoldable pub sets_up : Text → ExecutorConfig → Bool
sets_up ip c = elim (post_init ip c) [
  | ok filled ↦ elim c.executor_logger [ none ↦ true | some logger ↦ false ]
  | err refusal ↦ false
]

-- `setup_logging(self.executor_log_path, __name__, level=logging.DEBUG)`
abbrev pub setup_settings : ExecutorConfig → Dict String Logger → Dict String Logger
setup_settings given loggers =
    setup_logging given.executor_log_path setting_name debug_level [] none loggers

-- the calls in __post_init__: `given` has the settings of the constructor, `loaded` those behind
-- `_try_load_from_dotenv`
unfoldable pub configure_logging :
    Text → ExecutorConfig × ExecutorConfig → Dict String Logger → Dict String Logger
unfolding sets_up
configure_logging ip (given, loaded) loggers =
    if sets_up ip loaded
    then setup_logging loaded.executor_log_path executor_name (level_of loaded.debug) [] none
        (setup_settings given loggers)
    else setup_settings given loggers

-- one configuration after the other
unfoldable pub configure_all :
    Text → List (ExecutorConfig × ExecutorConfig) → Dict String Logger → Dict String Logger
unfolding configure_logging
configure_all ip [] loggers = loggers
configure_all ip (c ∷ cs) loggers = configure_all ip cs (configure_logging ip c loggers)

-- PyxxlRunner._setup_logging, with `_logging_setup`
unfoldable pub setup_runner : ExecutorConfig → Bool × Dict String Logger → Bool × Dict String Logger
setup_runner c (is_setup, loggers) =
    if is_setup
    then (is_setup, loggers)
    else (true, setup_logging c.executor_log_path "pyxxl" (level_of c.debug) [] none loggers)
