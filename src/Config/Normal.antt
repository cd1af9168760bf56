-- ===== src/Config/Normal.antt =====
-- What an address of an admin is normalised to.
use Prim.Native.Nat.{ℕ}
use pyxxl.Base.{◌≡◌, refl, true, [], ◌∷◌, arith, Bool-cases, inl, inr}
use pyxxl.Config.Texts.{Text, codes, is_space}
use pyxxl.Config.Url.{is_alpha, to_lower, is_scheme_char, all_of, lower, starts_alpha}
use pyxxl.Config.Plain.{Lacks, is_visible}
use pyxxl.Config.Paths.{
  normalize_path_idem, all_of-normalize_path, rooted-normalize_path, normalize_path-Lacks,
}
use pyxxl.Config.Written.{Address, IsAddress, normal}

api_visible : all_of is_visible (codes "/api/") ≡ true
unfolding all_of is_visible is_space
api_visible = refl

to_lower-is_alpha : (x : ℕ) → is_alpha x ≡ true → is_alpha (to_lower x) ≡ true
to_lower-is_alpha x h = ground (arith, h)

to_lower_scheme : (x : ℕ) → is_scheme_char x ≡ true → is_scheme_char (to_lower x) ≡ true
to_lower_scheme x h = ground (arith, h)

pub to_lower_idem : (x : ℕ) → to_lower (to_lower x) ≡ to_lower x
to_lower_idem x = ground arith

pub lower_idem : (s : Text) → lower (lower s) ≡ lower s
unfolding lower
lower_idem [] = refl
lower_idem (x ∷ s) = cc (to_lower_idem x, lower_idem s)

starts_alpha-lower : (s : Text) → starts_alpha s ≡ true → starts_alpha (lower s) ≡ true
unfolding lower starts_alpha
starts_alpha-lower [] h = h
starts_alpha-lower (x ∷ s) h = to_lower-is_alpha x h

lower_scheme : (s : Text) → all_of is_scheme_char s ≡ true → all_of is_scheme_char (lower s) ≡ true
unfolding lower all_of
lower_scheme [] h = refl
lower_scheme (x ∷ s) h = elim (Bool-cases (is_scheme_char x)) [
  | inl e ↦ rw (to_lower_scheme x e) (lower_scheme s (rw e at h))
  | inr e ↦ absurd (ground (arith, e, h))
]

-- The normal form of an address is an address, and its own normal form.
pub normal-IsAddress : (a : Address) → IsAddress a → IsAddress (normal a)
normal-IsAddress a w = record {
  alpha = starts_alpha-lower a.scheme w.alpha;
  scheme_chars = lower_scheme a.scheme w.scheme_chars;
  host_given = w.host_given;
  host_chars = w.host_chars;
  host_visible = w.host_visible;
  path_visible = all_of-normalize_path is_visible a.path api_visible w.path_visible;
  rooted = rooted-normalize_path a.path w.rooted;
  no_query = normalize_path-Lacks b'?' a.path refl w.no_query;
  no_fragment = normalize_path-Lacks b'#' a.path refl w.no_fragment;
  no_params = normalize_path-Lacks b';' a.path refl w.no_params;
}

pub normal_idem : (a : Address) → normal (normal a) ≡ normal a
normal_idem a = λ i. record {
  scheme = lower_idem a.scheme i;
  host = a.host;
  path = normalize_path_idem a.path i;
}

-- A scheme has no comma.
pub scheme_comma : (s : Text) → all_of is_scheme_char s ≡ true → Lacks b',' s
unfolding all_of
scheme_comma [] h = refl
scheme_comma (x ∷ s) h = elim (Bool-cases (is_scheme_char x)) [
  | inl e ↦ ground (arith, e, scheme_comma s (rw e at h))
  | inr e ↦ absurd (ground (arith, e, h))
]
