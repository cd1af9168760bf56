-- ===== src/Setup/Kept.antt =====
-- Which configuration the loggers of pyxxl/utils.py keep.
use pyxxl.Base.{
  ◌≡◌, refl, ap, sym, ◌∙◌, String, Bool, true, false, Option, none, some, List, [], ◌∷◌, Dict, get,
  empty, string_eq, is_empty, if◌then◌else◌, not,
}
use pyxxl.Config.Texts.{Text}
use pyxxl.Config.Settings.{ExecutorConfig}
use pyxxl.Setup.{
  Handler, Logger, debug_level, get_logger, equip, setup_logging, new_logger, level_of,
  setup_settings, setting_name, executor_name, sets_up, configure_logging, configure_all,
}
use pyxxl.Setup.Once.{is_equipped, equipped, setup_logging-get}

-- The logger that a configuration asks for.
abbrev executor_logger_of : ExecutorConfig → Logger
executor_logger_of c = equipped c.executor_log_path (level_of c.debug)

-- The first configuration that is accepted and leaves the logger to `pyxxl`.
unfoldable pub first_logged : Text → List (ExecutorConfig × ExecutorConfig) → Option ExecutorConfig
unfolding sets_up
first_logged ip [] = none
first_logged ip ((given, loaded) ∷ cs) =
    let rest = first_logged ip cs in if sets_up ip loaded then some loaded else rest

if_both {ℓ} : {A : Type ℓ} (b : Bool) (x : A) → (if b then x else x) ≡ x
if_both true x = refl
if_both false x = refl

module _ (ip : Text) (given loaded : ExecutorConfig) (loggers : Dict String Logger) where
  abbrev settings : Dict String Logger
  settings = setup_settings given loggers

  settings-executor : get_logger settings executor_name ≡ get_logger loggers executor_name
  settings-executor =
      setup_logging-get given.executor_log_path setting_name executor_name debug_level loggers
      ∙ if_both (is_equipped setting_name loggers) (get_logger loggers executor_name)

  settings-setting : get_logger settings setting_name ≡ (
      if is_equipped setting_name loggers
      then get_logger loggers setting_name
      else equipped given.executor_log_path debug_level)
  settings-setting =
      setup_logging-get given.executor_log_path setting_name setting_name debug_level loggers

  configure_logging-executor :
      get_logger (configure_logging ip (given, loaded) loggers) executor_name ≡ (
        if is_equipped executor_name loggers
        then get_logger loggers executor_name
        else if sets_up ip loaded
        then executor_logger_of loaded
        else get_logger loggers executor_name)
  unfolding configure_logging
  configure_logging-executor = of_test (sets_up ip loaded)
    where
      of_test :
          (b : Bool)
          → get_logger
              (if b
                then setup_logging loaded.executor_log_path executor_name
                    (level_of loaded.debug)
                    []
                    none
                    settings
                else settings)
              executor_name
            ≡ (if is_equipped executor_name loggers
                then get_logger loggers executor_name
                else if b
                then executor_logger_of loaded
                else get_logger loggers executor_name)
      of_test true =
          setup_logging-get loaded.executor_log_path executor_name executor_name
            (level_of loaded.debug) settings
          ∙ ap (λ (l : Logger). if not (is_empty l.handlers) then l else executor_logger_of loaded)
              settings-executor
      of_test false =
          settings-executor
          ∙ sym (if_both (is_equipped executor_name loggers) (get_logger loggers executor_name))

  configure_logging-setting :
      get_logger (configure_logging ip (given, loaded) loggers) setting_name ≡ (
        if is_equipped setting_name loggers
        then get_logger loggers setting_name
        else equipped given.executor_log_path debug_level)
  unfolding configure_logging
  configure_logging-setting = of_test (sets_up ip loaded)
    where
      of_test :
          (b : Bool)
          → get_logger
              (if b
                then setup_logging loaded.executor_log_path executor_name
                    (level_of loaded.debug)
                    []
                    none
                    settings
                else settings)
              setting_name
            ≡ (if is_equipped setting_name loggers
                then get_logger loggers setting_name
                else equipped given.executor_log_path debug_level)
      of_test true =
          setup_logging-get loaded.executor_log_path executor_name setting_name
            (level_of loaded.debug) settings
          ∙ if_both (is_equipped executor_name settings) (get_logger settings setting_name)
          ∙ settings-setting
      of_test false = settings-setting

-- What stands under a name when a configuration has asked for it.
abbrev keep : Option Logger → Logger → Logger
keep none l = l
keep (some made) l = if not (is_empty l.handlers) then l else made

abbrev asked : Option ExecutorConfig → Option Logger
asked none = none
asked (some c) = some (executor_logger_of c)

keep_step :
    (b : Bool) (c : ExecutorConfig) (rest : Option ExecutorConfig) (l : Logger)
    → keep
        (asked rest)
        (if not (is_empty l.handlers) then l else if b then executor_logger_of c else l)
      ≡ keep (asked (if b then some c else rest)) l
unfolding equip
keep_step b c rest l = step b c rest l.handlers
  where
    step :
        (b : Bool) (c : ExecutorConfig) (rest : Option ExecutorConfig) (hs : List Handler)
        → let l : Logger = record { level = l.level; propagate = l.propagate; handlers = hs } in
          keep
            (asked rest)
            (if not (is_empty l.handlers) then l else if b then executor_logger_of c else l)
          ≡ keep (asked (if b then some c else rest)) l
    step true c none [] = refl
    step true c none (h ∷ hs) = refl
    step true c (some d) [] = refl
    step true c (some d) (h ∷ hs) = refl
    step false c none [] = refl
    step false c none (h ∷ hs) = refl
    step false c (some d) [] = refl
    step false c (some d) (h ∷ hs) = refl

configure_all-executor :
    (ip : Text) (cs : List (ExecutorConfig × ExecutorConfig)) (loggers : Dict String Logger)
    → get_logger (configure_all ip cs loggers) executor_name
      ≡ keep (asked (first_logged ip cs)) (get_logger loggers executor_name)
unfolding configure_all first_logged
configure_all-executor ip [] loggers = refl
configure_all-executor ip ((given, loaded) ∷ cs) loggers =
    configure_all-executor ip cs (configure_logging ip (given, loaded) loggers)
    ∙ ap (keep (asked (first_logged ip cs))) (configure_logging-executor ip given loaded loggers)
    ∙ keep_step (sets_up ip loaded) loaded (first_logged ip cs) (get_logger loggers executor_name)

configure_all-setting :
    (ip : Text) (cs : List (ExecutorConfig × ExecutorConfig)) (loggers : Dict String Logger)
    → is_equipped setting_name loggers ≡ true
    → get_logger (configure_all ip cs loggers) setting_name ≡ get_logger loggers setting_name
unfolding configure_all
configure_all-setting ip [] loggers e = refl
configure_all-setting ip ((given, loaded) ∷ cs) loggers e =
    let one =
      configure_logging-setting ip given loaded loggers
      ∙ ap
          (λ b.
            if b
            then get_logger loggers setting_name
            else equipped given.executor_log_path debug_level)
          e in
    configure_all-setting ip cs (configure_logging ip (given, loaded) loggers)
      (ap (λ (l : Logger). not (is_empty l.handlers)) one ∙ e)
    ∙ one

-- From a process without loggers, after any sequence of configurations, accepted or refused: the
-- logger of the executor writes where the first accepted configuration without a logger of its own
-- says, at that configuration's level, and has no handlers before there is one; the logger of the
-- settings writes at the debug level where the first configuration says that was given to a
-- constructor, without the environment, whether it was accepted or not. Later configurations change
-- neither.
pub first_config_wins :
    (ip : Text) (c : ExecutorConfig × ExecutorConfig) (cs : List (ExecutorConfig × ExecutorConfig))
    → (get_logger (configure_all ip (c ∷ cs) empty) executor_name
        ≡ (elim (first_logged ip (c ∷ cs)) [
          | none ↦ new_logger
          | some first ↦ equipped first.executor_log_path (level_of first.debug)
        ]))
      × (get_logger (configure_all ip (c ∷ cs) empty) setting_name
          ≡ equipped c.0.executor_log_path debug_level)
unfolding configure_all empty get get_logger equip
first_config_wins ip c cs = (
  configure_all-executor ip (c ∷ cs) empty ∙ of_first (first_logged ip (c ∷ cs)),
  configure_all-setting ip cs (configure_logging ip c empty) (
        ap (λ (l : Logger). not (is_empty l.handlers)) (configure_logging-setting ip c.0 c.1 empty))
      ∙ configure_logging-setting ip c.0 c.1 empty,
)
  where
    of_first :
        (o : Option ExecutorConfig)
        → keep (asked o) new_logger ≡ (elim o [
          | none ↦ new_logger
          | some first ↦ equipped first.executor_log_path (level_of first.debug)
        ])
    of_first none = refl
    of_first (some first) = refl
