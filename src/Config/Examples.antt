-- ===== src/Config/Examples.antt =====
-- Runs of the configuration: its addresses, an accepted configuration and refused ones.
use pyxxl.Base.{◌≡◌, refl, some, [], ◌∷◌}
use pyxxl.Config.Texts.{
  Text, codes, is_space, lstrip, strip, split, join, starts_with, ends_with, same_text, span,
  decimal,
}
use pyxxl.Config.Url.{all_of, lower, split_params, starts_alpha, urlparse, geturl}
use pyxxl.Config.Address.{
  ok, err, redis_uri_required, normalize_admin_url, normalize_admin_urls, validate_admin_baseurl,
  split_admin_baseurls,
}
use pyxxl.Config.Settings.{
  ExecutorConfig, default_config, post_init, admin_baseurls, executor_baseurl,
}
use pyxxl.Config.Plain.{is_visible}
use pyxxl.Config.Written.{Address, written}
use pyxxl.Config.Kept.{IsListed, texts, normals, client_keeps_urls}
use pyxxl.Config.Complete.{IsComplete, post_init-IsComplete}

-- urlparse and geturl of an address with every part
parts : geturl (urlparse (codes "HTTP://h:80/a;b/c;d?e#f")) ≡ codes "http://h:80/a;b/c;d?e#f"
unfolding geturl urlparse span lstrip split_params same_text
parts = refl

query_kept : normalize_admin_url (codes " http://h/x?y=/api ") ≡ ok (codes "http://h/x/api/?y=/api")
unfolding normalize_admin_url strip geturl urlparse span lstrip split_params starts_with ends_with
query_kept = refl

abbrev root : Address
root = record { scheme = codes "http"; host = codes "a:8080"; path = [] }

abbrev with_path : Address
with_path = record { scheme = codes "HTTPS"; host = codes "b"; path = codes "/xxl/api//" }

root-IsListed : IsListed root
unfolding starts_alpha all_of is_visible is_space starts_with lower
root-IsListed = record {
  address = record {
    alpha = refl;
    scheme_chars = refl;
    host_given = refl;
    host_chars = refl;
    host_visible = refl;
    path_visible = refl;
    rooted = refl;
    no_query = refl;
    no_fragment = refl;
    no_params = refl;
  };
  web = refl;
  host_comma = refl;
  path_comma = refl;
}

with_path-IsListed : IsListed with_path
unfolding starts_alpha all_of is_visible is_space starts_with lower
with_path-IsListed = record {
  address = record {
    alpha = refl;
    scheme_chars = refl;
    host_given = refl;
    host_chars = refl;
    host_visible = refl;
    path_visible = refl;
    rooted = refl;
    no_query = refl;
    no_fragment = refl;
    no_params = refl;
  };
  web = refl;
  host_comma = refl;
  path_comma = refl;
}

abbrev local_ip : Text
local_ip = codes "10.0.0.7"

abbrev given : ExecutorConfig
given = default_config (codes "http://a:8080,HTTPS://b/xxl/api//") (codes "app")

-- what `__post_init__` makes of it
abbrev settled : ExecutorConfig
settled = record given {
  xxl_admin_baseurl = codes "http://a:8080/api/,https://b/xxl/api/";
  executor_listen_host = local_ip;
  executor_url = codes "http://10.0.0.7:9999";
  executor_logger = some (codes "pyxxl.runtime.executor");
}

settles : post_init local_ip given ≡ ok settled
unfolding post_init default_config validate_admin_baseurl split_admin_baseurls split strip
    normalize_admin_url geturl urlparse span lstrip split_params starts_with ends_with join decimal
settles = refl

given_setting : given.xxl_admin_baseurl ≡ join b',' (texts (root ∷ with_path ∷ []))
unfolding default_config join written
given_setting = refl

client_keeps_urls_example :
    (admin_baseurls settled ≡ texts (normals (root ∷ with_path ∷ [])))
    × (normalize_admin_urls (admin_baseurls settled) ≡ ok (admin_baseurls settled))
client_keeps_urls_example =
    client_keeps_urls local_ip given settled root (with_path ∷ []) given_setting
      (root-IsListed, (with_path-IsListed, tt)) settles

post_init-IsComplete_example : IsComplete local_ip given settled
post_init-IsComplete_example = post_init-IsComplete local_ip given settled settles

-- A Redis target without an address is refused.
no_redis : post_init local_ip (record given { log_target = codes "redis" }) ≡ err redis_uri_required
unfolding post_init default_config validate_admin_baseurl split_admin_baseurls split strip
    normalize_admin_url geturl urlparse span lstrip split_params starts_with ends_with join
no_redis = refl

reported : executor_baseurl settled ≡ codes "http://10.0.0.7:9999"
unfolding executor_baseurl
reported = refl
