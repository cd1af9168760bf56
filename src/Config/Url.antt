-- ===== src/Config/Url.antt =====
-- `urlparse`, `_replace` and `geturl` of Python's urllib.parse, as `_normalize_admin_baseurl` of
-- pyxxl/config/executor.py and `_normalize_admin_url` of pyxxl/protocol/admin_client.py use them. The
-- refusals of `urlparse` for hosts with brackets or with characters that NFKC changes are left out.
use Prim.Native.Nat.{ℕ, ◌+◌}
use pyxxl.Base.{
  Bool, true, false, not, ◌&&◌, ◌||◌, [], ◌∷◌, ◌++◌, nat_beq, leb, is_empty, if◌then◌else◌,
}
use pyxxl.Config.Texts.{Text, codes, nat_is, one_of, lstrip, starts_with, same_text, span, cut}

-- `ParseResult`
pub record Url : Type 0 where
  pub scheme : Text
  pub netloc : Text
  pub path : Text
  pub params : Text
  pub query : Text
  pub fragment : Text

abbrev pub is_upper : ℕ → Bool
is_upper c = leb b'A' c && leb c b'Z'

abbrev pub is_alpha : ℕ → Bool
is_alpha c = is_upper c || leb b'a' c && leb c b'z'

abbrev pub to_lower : ℕ → ℕ
to_lower c = if is_upper c then c + 32 else c

-- scheme_chars
abbrev pub is_scheme_char : ℕ → Bool
is_scheme_char c = is_alpha c || leb b'0' c && leb c b'9' || one_of (b'+' ∷ b'-' ∷ b'.' ∷ []) c

unfoldable pub all_of : (ℕ → Bool) → Text → Bool
all_of p [] = true
all_of p (x ∷ xs) = p x && all_of p xs

abbrev pub is_rooted : Text → Bool
is_rooted [] = true
is_rooted (x ∷ xs) = nat_beq x b'/'

unfoldable pub lower : Text → Text
lower [] = []
lower (x ∷ xs) = to_lower x ∷ lower xs

-- `url.replace(b, "")` for the tab and the two ends of a line
unfoldable pub without_breaks : Text → Text
without_breaks [] = []
without_breaks (x ∷ xs) =
    let rest = without_breaks xs in if one_of (9 ∷ 10 ∷ 13 ∷ []) x then rest else x ∷ rest

unfoldable pub starts_alpha : Text → Bool
starts_alpha [] = false
starts_alpha (x ∷ xs) = is_alpha x

-- the scheme and what follows it, by the part before the first `:` and the rest from there on
unfoldable pub split_scheme : Text → Text → Text → Text × Text
unfolding starts_alpha all_of lower
split_scheme s before [] = ([], s)
split_scheme s before (colon ∷ rest) =
    if starts_alpha before && all_of is_scheme_char before then (lower before, rest) else ([], s)

-- _splitnetloc behind `//`
abbrev pub split_netloc : Text → Text × Text
split_netloc (x ∷ y ∷ rest) =
    if nat_beq x b'/' && nat_beq y b'/'
    then span (one_of (codes "/?#")) rest
    else ([], x ∷ y ∷ rest)
split_netloc s = ([], s)

-- _splitparams: at the first `;` of the last segment of the path
unfoldable pub split_params : Text → Text × Text
unfolding cut
split_params [] = ([], [])
split_params (x ∷ xs) =
    let (path, params) = split_params xs in
    let (p, q) = cut b';' xs in
    if one_of xs b'/'
    then (x ∷ path, params)
    else if nat_beq x b'/'
    then (x ∷ p, q)
    else cut b';' (x ∷ xs)

-- the schemes of uses_params and of uses_netloc that start with `http`
unfoldable pub is_web : Text → Bool
is_web s = same_text s (codes "http") || same_text s (codes "https")

-- urlparse
unfoldable pub urlparse : Text → Url
unfolding split_scheme without_breaks is_web cut
urlparse raw =
    let s = without_breaks (lstrip (λ c. leb c 32) raw) in
    let (before, after) = span (nat_is b':') s in
    let (scheme, rest) = split_scheme s before after in
    let (netloc, tail) = split_netloc rest in
    let (front, fragment) = cut b'#' tail in
    let (whole, query) = cut b'?' front in
    let (path, params) = if is_web scheme then split_params whole else (whole, []) in
    record {
      scheme = scheme;
      netloc = netloc;
      path = path;
      params = params;
      query = query;
      fragment = fragment;
    }

-- a part with its mark, where there is one
abbrev pub with_mark : ℕ → Text → Text
with_mark c [] = []
with_mark c (x ∷ xs) = c ∷ x ∷ xs

abbrev pub with_slash : Text → Text
with_slash [] = []
with_slash (x ∷ xs) = if nat_beq x b'/' then x ∷ xs else b'/' ∷ x ∷ xs

-- geturl
unfoldable pub geturl : Url → Text
geturl u =
    let path = u.path ++ with_mark b';' u.params in
    let host =
      if not (is_empty u.netloc) || is_web u.scheme && not (starts_with (codes "//") path)
      then codes "//" ++ u.netloc ++ with_slash path
      else path in
    (if is_empty u.scheme then host else u.scheme ++ b':' ∷ host)
    ++ with_mark b'?' u.query
    ++ with_mark b'#' u.fragment
