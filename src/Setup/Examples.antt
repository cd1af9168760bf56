-- ===== src/Setup/Examples.antt =====
-- The loggers of a process that makes three configurations, one of them refused, and a runner.
use pyxxl.Base.{◌≡◌, refl, true, false, List, [], ◌∷◌, empty, get, set, string_eq}
use pyxxl.Config.Texts.{
  Text, codes, lstrip, strip, split, join, starts_with, ends_with, span, decimal,
}
use pyxxl.Config.Url.{split_params, urlparse, geturl}
use pyxxl.Config.Address.{normalize_admin_url, validate_admin_baseurl, split_admin_baseurls}
use pyxxl.Config.Settings.{ExecutorConfig, default_config, post_init}
use pyxxl.Setup.{
  debug_level, info_level, get_logger, equip, setup_logging, sets_up, setting_name, executor_name,
  configure_all, setup_runner,
}
use pyxxl.Setup.Once.{equipped}
use pyxxl.Setup.Kept.{first_logged, first_config_wins}

abbrev local_ip : Text
local_ip = codes "10.0.0.7"

abbrev plain : ExecutorConfig
plain = default_config (codes "http://a:8080") (codes "app")

abbrev nameless : ExecutorConfig
nameless = record plain { executor_app_name = []; executor_log_path = codes "n.log" }

abbrev verbose : ExecutorConfig
verbose = record plain { executor_log_path = codes "v.log"; debug = true }

abbrev later : List (ExecutorConfig × ExecutorConfig)
later = (plain, verbose) ∷ (plain, plain) ∷ []

-- The refused configuration leaves the logger of the settings with its own file.
first_config_wins_example :
    (get_logger (configure_all local_ip ((nameless, nameless) ∷ later) empty) executor_name
      ≡ equipped (codes "v.log") debug_level)
    × (get_logger (configure_all local_ip ((nameless, nameless) ∷ later) empty) setting_name
        ≡ equipped (codes "n.log") debug_level)
unfolding first_logged sets_up post_init default_config validate_admin_baseurl split_admin_baseurls
    split strip normalize_admin_url geturl urlparse span lstrip split_params starts_with ends_with
    join decimal
first_config_wins_example = first_config_wins local_ip (nameless, nameless) later

-- A runner's logger is set up once.
runner_logger :
    get_logger (setup_runner verbose (setup_runner plain (false, empty))).1 "pyxxl"
    ≡ equipped plain.executor_log_path info_level
unfolding setup_runner setup_logging get_logger get set empty equip default_config
runner_logger = refl
