-- ===== src/Config/Address.antt =====
-- pyxxl/config/executor.py, the addresses of the admins: `_split_admin_baseurls`,
-- `_normalize_admin_baseurl` and `_validate_admin_baseurl`; and pyxxl/protocol/admin_client.py,
-- `_normalize_admin_urls`.
use pyxxl.Base.{not, List, [], ◌∷◌, ◌++◌, is_empty, if◌then◌else◌}
use pyxxl.Config.Texts.{Text, codes, nat_is, rstrip, strip, starts_with, ends_with, split, join}
use pyxxl.Config.Url.{urlparse, geturl}

-- `ValueError`, by the setting that is missing or wrong
pub data ValueError : Type 0 where
  bad_admin_url app_name_required local_dir_required redis_uri_required : ValueError

pub data Result {ℓ} (A : Type ℓ) : Type ℓ where
  ok : A → Result A
  err : ValueError → Result A

infixl 5 ◌>>=◌
abbrev pub ◌>>=◌ {ℓ κ} : {A : Type ℓ} {B : Type κ} → Result A → (A → Result B) → Result B
ok a >>= f = f a
err e >>= f = err e

-- the path that `_normalize_admin_baseurl` and `_normalize_admin_url` give an address
unfoldable pub normalize_path : Text → Text
normalize_path p =
    let path = rstrip (nat_is b'/') p in
    if ends_with (codes "/api") path
    then path ++ codes "/"
    else if is_empty path
    then codes "/api/"
    else path ++ codes "/api/"

-- _normalize_admin_baseurl, _normalize_admin_url
unfoldable pub normalize_admin_url : Text → Result Text
unfolding normalize_path
normalize_admin_url raw =
    let u = urlparse (strip raw) in
    if not (starts_with (codes "http") u.scheme)
    then err bad_admin_url
    else ok (geturl (record u { path = normalize_path u.path }))

-- `[url for url in urls if url.strip()]`
unfoldable pub not_blank : List Text → List Text
not_blank [] = []
not_blank (t ∷ ts) = let rest = not_blank ts in if is_empty (strip t) then rest else t ∷ rest

unfoldable pub strip_all : List Text → List Text
strip_all [] = []
strip_all (t ∷ ts) = strip t ∷ strip_all ts

-- _split_admin_baseurls
unfoldable pub split_admin_baseurls : Text → List Text
unfolding not_blank strip_all
split_admin_baseurls raw = strip_all (not_blank (split b',' raw))

unfoldable pub normalize_all : List Text → Result (List Text)
normalize_all [] = ok []
normalize_all (t ∷ ts) = do u ← normalize_admin_url t; us ← normalize_all ts; ok (u ∷ us)

-- `if not admin_urls: raise ValueError(...)`
unfoldable pub some_urls : List Text → Result (List Text)
some_urls [] = err bad_admin_url
some_urls (u ∷ us) = ok (u ∷ us)

-- _validate_admin_baseurl, with the text that it writes to `xxl_admin_baseurl`
unfoldable pub validate_admin_baseurl : Text → Result Text
unfolding normalize_all some_urls
validate_admin_baseurl raw = do
  us ← normalize_all (split_admin_baseurls raw)
  urls ← some_urls us
  ok (join b',' urls)

-- XXL._normalize_admin_urls, of a list
unfoldable pub normalize_admin_urls : List Text → Result (List Text)
unfolding normalize_all some_urls not_blank
normalize_admin_urls raw = normalize_all (not_blank raw) >>= some_urls
