-- ===== src/Config/Written.antt =====
-- An address of an admin as it is written, and what normalising its text gives.
use Prim.Native.Nat.{ℕ}
use mathlib.Core.List.{append-nil}
use pyxxl.Base.{
  ◌≡◌, refl, ◌∙◌, Bool, true, false, not, [], ◌∷◌, ◌++◌, is_empty, if◌then◌else◌, arith,
}
use pyxxl.Config.Texts.{Text, codes, nat_is, one_of, is_space, starts_with, span}
use pyxxl.Config.Url.{
  is_scheme_char, all_of, is_rooted, lower, starts_alpha, split_scheme, split_netloc, urlparse,
  with_slash, geturl,
}
use pyxxl.Config.Address.{Result, ok, err, bad_admin_url, normalize_path, normalize_admin_url}
use pyxxl.Config.Plain.{
  Lacks, is_visible, Excludes, all_of-append, span_stops, span_none, strip_visible, lstrip_visible,
  without_breaks_visible, cut_none, split_params_none,
}
use pyxxl.Config.Paths.{rooted-normalize_path}

-- An address: a scheme, a host and a path.
pub record Address : Type 0 where
  pub scheme : Text
  pub host : Text
  pub path : Text

-- scheme://hostpath
unfoldable pub written : Address → Text
written a = a.scheme ++ (codes "://" ++ a.host ++ a.path)

abbrev pub is_host_char : ℕ → Bool
is_host_char c = not (one_of (codes "/?#") c)

-- An address as it is written: a scheme of letters, digits and marks; a host; a path that is empty
-- or starts at the root; no blanks, no query, fragment or parameters.
pub record IsAddress (a : Address) : Type 0 where
  pub alpha : starts_alpha a.scheme ≡ true
  pub scheme_chars : all_of is_scheme_char a.scheme ≡ true
  pub host_given : is_empty a.host ≡ false
  pub host_chars : all_of is_host_char a.host ≡ true
  pub host_visible : all_of is_visible a.host ≡ true
  pub path_visible : all_of is_visible a.path ≡ true
  pub rooted : is_rooted a.path ≡ true
  pub no_query : Lacks b'?' a.path
  pub no_fragment : Lacks b'#' a.path
  pub no_params : Lacks b';' a.path

abbrev pub normal : Address → Address
normal a = record { scheme = lower a.scheme; host = a.host; path = normalize_path a.path }

scheme_not_colon : Excludes (nat_is b':') is_scheme_char
scheme_not_colon x h = ground (arith, h)

scheme_visible : (x : ℕ) → is_scheme_char x ≡ true → is_visible x ≡ true
unfolding is_visible is_space
scheme_visible x h = ground (arith, h)

all_visible : (s : Text) → all_of is_scheme_char s ≡ true → all_of is_visible s ≡ true
unfolding all_of
all_visible [] h = refl
all_visible (x ∷ s) h = ground (arith, h, scheme_visible x, all_visible s)

marks_visible : all_of is_visible (codes "://") ≡ true
unfolding all_of is_visible is_space
marks_visible = refl

pub written-visible : (a : Address) → IsAddress a → all_of is_visible (written a) ≡ true
unfolding written
written-visible a w =
    all_of-append is_visible a.scheme (codes "://" ++ a.host ++ a.path)
      (all_visible a.scheme w.scheme_chars)
      (all_of-append is_visible (codes "://" ++ a.host) a.path
        (all_of-append is_visible (codes "://") a.host marks_visible w.host_visible) w.path_visible)

host_stops : Excludes (one_of (codes "/?#")) is_host_char
host_stops x h = ground (arith, h)

split_netloc_lem :
    (host path : Text)
    → all_of is_host_char host ≡ true
    → is_rooted path ≡ true
    → split_netloc (codes "//" ++ host ++ path) ≡ (host, path)
split_netloc_lem host [] h r =
    rw append-nil (span_none (one_of (codes "/?#")) is_host_char host_stops host h)
split_netloc_lem host (x ∷ path) h r =
    span_stops (one_of (codes "/?#")) is_host_char host_stops host path x h (ground (arith, r))

split_scheme_lem :
    (s scheme rest : Text)
    → starts_alpha scheme ≡ true
    → all_of is_scheme_char scheme ≡ true
    → split_scheme s scheme (b':' ∷ rest) ≡ (lower scheme, rest)
unfolding split_scheme
split_scheme_lem s scheme rest a c = ground (arith, a, c)

span-written :
    (a : Address)
    → IsAddress a
    → span (nat_is b':') (written a) ≡ (a.scheme, codes "://" ++ a.host ++ a.path)
unfolding written
span-written a w =
    span_stops (nat_is b':') is_scheme_char scheme_not_colon a.scheme
      (codes "//" ++ a.host ++ a.path) b':' w.scheme_chars refl

if_same {ℓ} : {A : Type ℓ} (b : Bool) (x : A) → (if b then x else x) ≡ x
if_same true x = refl
if_same false x = refl

urlparse_lem :
    (a : Address)
    → IsAddress a
    → urlparse (written a) ≡ record {
      scheme = lower a.scheme;
      netloc = a.host;
      path = a.path;
      params = [];
      query = [];
      fragment = [];
    }
unfolding urlparse
urlparse_lem a w =
    let v = written-visible a w in
    rw
      (
        lstrip_visible (written a) v,
        without_breaks_visible (written a) v,
        span-written a w,
        split_scheme_lem (written a) a.scheme (codes "//" ++ a.host ++ a.path) w.alpha
            w.scheme_chars,
        split_netloc_lem a.host a.path w.host_chars w.rooted,
        cut_none b'#' a.path w.no_fragment,
        cut_none b'?' a.path w.no_query,
        split_params_none a.path w.no_params,
        if_same {A = Text × Text},
      )
      refl

with_slash_rooted : (p : Text) → is_rooted p ≡ true → with_slash p ≡ p
with_slash_rooted [] h = refl
with_slash_rooted (x ∷ p) h = ground (arith, h)

lower_given : (s : Text) → starts_alpha s ≡ true → is_empty (lower s) ≡ false
unfolding lower starts_alpha
lower_given [] h = absurd (ground (arith, h))
lower_given (x ∷ s) h = refl

geturl_lem :
    (scheme host path : Text)
    → is_empty scheme ≡ false
    → is_empty host ≡ false
    → is_rooted path ≡ true
    → geturl (record {
      scheme = scheme;
      netloc = host;
      path = path;
      params = [];
      query = [];
      fragment = [];
    })
      ≡ written (record { scheme = scheme; host = host; path = path })
unfolding geturl written
geturl_lem scheme host path s h r =
    rw (s, h, append-nil path, with_slash_rooted path r) (append-nil _ ∙ append-nil _)

flip_if {ℓ} : {A : Type ℓ} (b : Bool) (x y : A) → (if not b then x else y) ≡ (if b then y else x)
flip_if true x y = refl
flip_if false x y = refl

-- Normalising an address gives its normal form, when the scheme is a web scheme.
pub normalize_admin_url_lem :
    (a : Address)
    → IsAddress a
    → normalize_admin_url (written a) ≡ (
        if starts_with (codes "http") (lower a.scheme)
        then ok (written (normal a))
        else err bad_admin_url)
unfolding normalize_admin_url
normalize_admin_url_lem a w =
    rw
      (
        strip_visible (written a) (written-visible a w),
        urlparse_lem a w,
        geturl_lem (lower a.scheme) a.host (normalize_path a.path) (lower_given a.scheme w.alpha)
            w.host_given (rooted-normalize_path a.path w.rooted),
      )
      (flip_if {A = Result Text} (starts_with (codes "http") (lower a.scheme)) _ _)

pub text_given : (a : Address) → IsAddress a → is_empty (written a) ≡ false
unfolding written
text_given a w = given a.scheme w.alpha
  where
    given :
        (s : Text)
        → starts_alpha s ≡ true
        → is_empty (s ++ (codes "://" ++ a.host ++ a.path)) ≡ false
    given [] h = refl
    given (x ∷ s) h = refl
