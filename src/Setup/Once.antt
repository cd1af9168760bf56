-- ===== src/Setup/Once.antt =====
-- What one call of `setup_logging` of pyxxl/utils.py does to the loggers.
use pyxxl.Base.{
  ℕ, ◌≡◌, refl, ap, ◌∙◌, String, Bool, true, false, none, some, [], ◌∷◌, Dict, get, set, get-set,
  string_eq, ◌==◌, is_empty, if◌then◌else◌, not,
}
use pyxxl.Config.Texts.{Text}
use pyxxl.Setup.{console, rotating_file, standard, Logger, get_logger, equip, setup_logging, or_new}

-- The logger of a name has handlers.
abbrev pub is_equipped : String → Dict String Logger → Bool
is_equipped name loggers = not (is_empty (get_logger loggers name).handlers)

get_logger-set :
    (loggers : Dict String Logger) (name other : String) (l : Logger)
    → get_logger (set loggers name l) other
      ≡ (if name == other then l else get_logger loggers other)
unfolding get_logger
get_logger-set loggers name other l =
    ap or_new (get-set loggers name other l) ∙ of_test (name == other)
  where
    of_test :
        (b : Bool)
        → or_new (if b then some l else get loggers other)
          ≡ (if b then l else get_logger loggers other)
    of_test true = refl
    of_test false = refl

-- What a call of setup_logging makes of its own logger.
abbrev pub equipped : Text → ℕ → Logger
equipped path level = record {
  level = level;
  propagate = false;
  handlers = equip standard level (console ∷ rotating_file path ∷ []);
}

-- A call that finds no handlers on its own logger changes that one; no other is changed.
pub setup_logging-get :
    (path : Text) (name other : String) (level : ℕ) (loggers : Dict String Logger)
    → get_logger (setup_logging path name level [] none loggers) other ≡ (
        if is_equipped name loggers
        then get_logger loggers other
        else if name == other
        then equipped path level
        else get_logger loggers other)
unfolding setup_logging
setup_logging-get path name other level loggers =
    of_test (is_empty (get_logger loggers name).handlers)
  where
    of_test :
        (b : Bool)
        → get_logger (if b then set loggers name (equipped path level) else loggers) other ≡ (
            if not b
            then get_logger loggers other
            else if name == other
            then equipped path level
            else get_logger loggers other)
    of_test true = get_logger-set loggers name other (equipped path level)
    of_test false = refl
