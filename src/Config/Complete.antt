-- ===== src/Config/Complete.antt =====
-- What `ExecutorConfig.__post_init__` leaves of a configuration that it accepts.
use pyxxl.Base.{
  ◌&&◌, ◌≡◌, ◌≢◌, refl, ap, sym, subst, ◌∙◌, false, none, [], ◌∷◌, is_empty, if◌then◌else◌, arith,
}
use pyxxl.Config.Texts.{Text, codes, same_text}
use pyxxl.Config.Address.{Result, ok, err, ◌>>=◌, validate_admin_baseurl}
use pyxxl.Config.Settings.{
  ExecutorConfig, post_init, validate_executor_app_name, validate_logger_target, fill_host,
  fill_url, fill_logger,
}

-- What the executor reads is there: a name, a place for the logs, an address to report, a logger.
-- Only the four settings that have no other default change.
pub record IsComplete (ip : Text) (c c' : ExecutorConfig) : Type 0 where
  pub admins : validate_admin_baseurl c.xxl_admin_baseurl ≡ ok c'.xxl_admin_baseurl
  pub app_name : is_empty c'.executor_app_name ≡ false
  pub local_dir : (same_text c'.log_target (codes "disk") && is_empty c'.log_local_dir) ≡ false
  pub redis_uri : (same_text c'.log_target (codes "redis") && is_empty c'.log_redis_uri) ≡ false
  pub host :
      c'.executor_listen_host
      ≡ (if is_empty c.executor_listen_host then ip else c.executor_listen_host)
  pub url : is_empty c'.executor_url ≡ false
  pub url_kept :
      c'.executor_url ≡ (if is_empty c.executor_url then c'.executor_url else c.executor_url)
  pub logger : c'.executor_logger ≢ none
  pub others : c' ≡ record c {
    xxl_admin_baseurl = c'.xxl_admin_baseurl;
    executor_listen_host = c'.executor_listen_host;
    executor_url = c'.executor_url;
    executor_logger = c'.executor_logger;
  }

filled : Text → ExecutorConfig → ExecutorConfig
filled ip c = fill_logger (fill_url (fill_host ip c))

filled-logger : (ip : Text) (c : ExecutorConfig) → (filled ip c).executor_logger ≢ none
unfolding filled fill_logger
filled-logger ip c = ground arith

filled-url : (ip : Text) (c : ExecutorConfig) → is_empty (filled ip c).executor_url ≡ false
unfolding filled fill_logger fill_url fill_host
filled-url ip c = go c.executor_url refl
  where
    go : (u : Text) → c.executor_url ≡ u → is_empty (filled ip c).executor_url ≡ false
    go [] e = ground (arith, e)
    go (x ∷ u) e = ground (arith, e)

finish_init : Text → ExecutorConfig → Text → Result ExecutorConfig
finish_init ip c urls = do
  c₁ ← validate_executor_app_name (record c { xxl_admin_baseurl = urls })
  c₂ ← validate_logger_target c₁
  ok (filled ip c₂)

-- How a configuration with valid addresses is accepted.
record IsAccepted (ip : Text) (c c' : ExecutorConfig) (urls : Text) : Type 0 where
  pub app_name : is_empty c.executor_app_name ≡ false
  pub local_dir : (same_text c.log_target (codes "disk") && is_empty c.log_local_dir) ≡ false
  pub redis_uri : (same_text c.log_target (codes "redis") && is_empty c.log_redis_uri) ≡ false
  pub result : c' ≡ filled ip (record c { xxl_admin_baseurl = urls })

finish_init-IsAccepted :
    (ip : Text) (c c' : ExecutorConfig) (urls : Text)
    → finish_init ip c urls ≡ ok c'
    → IsAccepted ip c c' urls
unfolding finish_init validate_executor_app_name validate_logger_target
finish_init-IsAccepted ip c c' urls e = record {
  app_name = ground arith;
  local_dir = ground arith;
  redis_uri = ground arith;
  result = ground arith;
}

-- What the three fillings leave.
record IsFilled (ip : Text) (c d : ExecutorConfig) : Type 0 where
  pub host :
      d.executor_listen_host
      ≡ (if is_empty c.executor_listen_host then ip else c.executor_listen_host)
  pub url_kept :
      d.executor_url ≡ (if is_empty c.executor_url then d.executor_url else c.executor_url)
  pub others : d ≡ record c {
    executor_listen_host = d.executor_listen_host;
    executor_url = d.executor_url;
    executor_logger = d.executor_logger;
  }

filled-IsFilled : (ip : Text) (c : ExecutorConfig) → IsFilled ip c (filled ip c)
unfolding filled fill_host fill_url fill_logger
filled-IsFilled ip c = record {
  host = ground arith;
  url_kept = ground arith;
  others = ground arith;
}

accepted-IsComplete :
    (ip urls : Text) (c c' : ExecutorConfig)
    → validate_admin_baseurl c.xxl_admin_baseurl ≡ ok urls
    → IsAccepted ip c c' urls
    → IsComplete ip c c'
accepted-IsComplete ip urls c c' v w =
    let c₁ = record c { xxl_admin_baseurl = urls } in
    let f = filled-IsFilled ip c₁ in
    subst (IsComplete ip c) (sym w.result) record {
      admins = v ∙ ap (λ (x : ExecutorConfig). ok x.xxl_admin_baseurl) (sym f.others);
      app_name = ap (λ (x : ExecutorConfig). is_empty x.executor_app_name) f.others ∙ w.app_name;
      local_dir =
          ap
            (λ (x : ExecutorConfig).
              same_text x.log_target (codes "disk") && is_empty x.log_local_dir)
            f.others
          ∙ w.local_dir;
      redis_uri =
          ap
            (λ (x : ExecutorConfig).
              same_text x.log_target (codes "redis") && is_empty x.log_redis_uri)
            f.others
          ∙ w.redis_uri;
      host = f.host;
      url = filled-url ip c₁;
      url_kept = f.url_kept;
      logger = filled-logger ip c₁;
      others =
          f.others
          ∙ ap
              (λ (u : Text). record c {
                xxl_admin_baseurl = u;
                executor_listen_host = (filled ip c₁).executor_listen_host;
                executor_url = (filled ip c₁).executor_url;
                executor_logger = (filled ip c₁).executor_logger;
              })
              (sym (ap (λ (x : ExecutorConfig). x.xxl_admin_baseurl) f.others));
    }

-- A configuration that `__post_init__` accepts has normalised addresses, a name, and the place that
-- its log target wants; its host is the given one or else the machine's, it has an address to report
-- (the given one, where there is one) and a logger; every other setting is as it was given.
pub post_init-IsComplete :
    (ip : Text) (c c' : ExecutorConfig) → post_init ip c ≡ ok c' → IsComplete ip c c'
unfolding post_init finish_init filled
post_init-IsComplete ip c c' e = go (validate_admin_baseurl c.xxl_admin_baseurl) refl e
  where
    go :
        (r : Result Text)
        → validate_admin_baseurl c.xxl_admin_baseurl ≡ r
        → (r >>= finish_init ip c) ≡ ok c'
        → IsComplete ip c c'
    go (err x) v h = absurd (cc h)
    go (ok urls) v h = accepted-IsComplete ip urls c c' v (finish_init-IsAccepted ip c c' urls h)
