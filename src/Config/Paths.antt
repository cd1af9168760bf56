-- ===== src/Config/Paths.antt =====
-- `normalize_path`: the normal form of a path is rooted, ends in `/api/`, and is its own normal form.
use Prim.Native.Nat.{ℕ}
use mathlib.Core.List.{append_assoc}
use pyxxl.Base.{
  ◌≡◌, refl, ap, sym, ◌∙◌, Bool, true, false, not, [], ◌∷◌, ◌++◌, nat_beq, is_empty, if◌then◌else◌,
  arith, Bool-cases, inl, inr, if_intro,
}
use pyxxl.Config.Texts.{Text, codes, nat_is, rstrip, ends_with, same_text}
use pyxxl.Config.Url.{all_of, is_rooted}
use pyxxl.Config.Address.{normalize_path}
use pyxxl.Config.Plain.{Lacks, all_of-append}

rstrip_api : (s : Text) → rstrip (nat_is b'/') (s ++ codes "/api/") ≡ s ++ codes "/api"
unfolding rstrip
rstrip_api [] = refl
rstrip_api (z ∷ s) = ground (arith, rstrip_api s, not_empty s)
  where
    not_empty : (s : Text) → is_empty (s ++ codes "/api") ≡ false
    not_empty [] = refl
    not_empty (x ∷ s) = refl

rstrip_more : (s : Text) (x : ℕ) → rstrip (nat_is x) (s ++ x ∷ []) ≡ rstrip (nat_is x) s
unfolding rstrip
rstrip_more [] x = ground arith
rstrip_more (z ∷ s) x = ground (arith, rstrip_more s x)

rstrip_idem : (s : Text) (x : ℕ) → rstrip (nat_is x) (rstrip (nat_is x) s) ≡ rstrip (nat_is x) s
unfolding rstrip
rstrip_idem [] x = refl
rstrip_idem (z ∷ s) x = ground (arith, rstrip_idem s x)

same_text_refl : (s : Text) → same_text s s ≡ true
unfolding same_text
same_text_refl [] = refl
same_text_refl (x ∷ s) = ground (arith, same_text_refl s)

ends_with-append : (t s : Text) → ends_with t (s ++ t) ≡ true
unfolding ends_with
ends_with-append [] [] = same_text_refl []
ends_with-append (y ∷ t) [] = ground (arith, same_text_refl (y ∷ t))
ends_with-append t (x ∷ s) = ground (arith, ends_with-append t s)

-- the three ways to normalise a path whose slashes at the end are gone
by_end : Text → Text
by_end q =
    if ends_with (codes "/api") q
    then q ++ codes "/"
    else if is_empty q
    then codes "/api/"
    else q ++ codes "/api/"

normalize_path_lem : (p : Text) → normalize_path p ≡ by_end (rstrip (nat_is b'/') p)
unfolding normalize_path by_end
normalize_path_lem p = refl

by_end_idem :
    (q : Text) → rstrip (nat_is b'/') q ≡ q → by_end (rstrip (nat_is b'/') (by_end q)) ≡ by_end q
unfolding by_end
by_end_idem q e = elim (Bool-cases (ends_with (codes "/api") q)) [
  | inl api ↦ rw (api, rstrip_more q b'/', e, api) refl
  | inr other ↦ elim (Bool-cases (is_empty q)) [
    | inl none ↦ rw (other, none, rstrip_api [], ends_with-append (codes "/api") []) refl
    | inr some_path ↦
        rw (other, some_path, rstrip_api q, ends_with-append (codes "/api") q)
          (append_assoc q (codes "/api") (codes "/"))
  ]
]

pub normalize_path_idem : (p : Text) → normalize_path (normalize_path p) ≡ normalize_path p
normalize_path_idem p =
    let q = rstrip (nat_is b'/') p in
    normalize_path_lem (normalize_path p)
    ∙ ap (λ x. by_end (rstrip (nat_is b'/') x)) (normalize_path_lem p)
    ∙ by_end_idem q (rstrip_idem p b'/')
    ∙ sym (normalize_path_lem p)

-- What holds of every character of a path and of `/api/` holds of every character of its normal form.
all_of-rstrip :
    (p : ℕ → Bool) (x : ℕ) (s : Text) → all_of p s ≡ true → all_of p (rstrip (nat_is x) s) ≡ true
unfolding all_of rstrip
all_of-rstrip p x [] h = refl
all_of-rstrip p x (z ∷ s) h = ground (arith, h, all_of-rstrip p x s)

pub all_of-normalize_path :
    (p : ℕ → Bool) (s : Text)
    → all_of p (codes "/api/") ≡ true
    → all_of p s ≡ true
    → all_of p (normalize_path s) ≡ true
unfolding normalize_path all_of
all_of-normalize_path p s k h =
    let q = rstrip (nat_is b'/') s in
    let hq = all_of-rstrip p b'/' s h in
    if_intro (λ t. all_of p t ≡ true) (ends_with (codes "/api") q) _ _
      (λ e. all_of-append p q (codes "/") hq (slash k))
      λ e.
        if_intro (λ t. all_of p t ≡ true) (is_empty q) _ _ (λ e. k)
          (λ e. all_of-append p q (codes "/api/") hq k)
  where
    slash : all_of p (codes "/api/") ≡ true → all_of p (codes "/") ≡ true
    slash k = ground (arith, k)

rooted-rstrip : (s : Text) → is_rooted s ≡ true → is_rooted (rstrip (nat_is b'/') s) ≡ true
unfolding rstrip
rooted-rstrip [] h = refl
rooted-rstrip (x ∷ s) h = ground (arith, h)

rooted-append : (s t : Text) → is_rooted s ≡ true → is_rooted t ≡ true → is_rooted (s ++ t) ≡ true
rooted-append [] t h k = k
rooted-append (x ∷ s) t h k = h

pub rooted-normalize_path : (s : Text) → is_rooted s ≡ true → is_rooted (normalize_path s) ≡ true
unfolding normalize_path
rooted-normalize_path s h =
    let q = rstrip (nat_is b'/') s in
    let hq = rooted-rstrip s h in
    if_intro (λ t. is_rooted t ≡ true) (ends_with (codes "/api") q) _ _
      (λ e. rooted-append q (codes "/") hq refl)
      λ e.
        if_intro (λ t. is_rooted t ≡ true) (is_empty q) _ _ (λ e. refl)
          (λ e. rooted-append q (codes "/api/") hq refl)

same_text-append : (t s u : Text) → same_text t s ≡ true → same_text (t ++ u) (s ++ u) ≡ true
unfolding same_text
same_text-append [] [] u h = same_text_refl u
same_text-append [] (y ∷ s) u h = absurd (ground (arith, h))
same_text-append (x ∷ t) [] u h = absurd (ground (arith, h))
same_text-append (x ∷ t) (y ∷ s) u h = ground (arith, h, same_text-append t s u)

-- what ends a text, with what follows, ends the text with what follows
ends_with-more : (t s u : Text) → ends_with t s ≡ true → ends_with (t ++ u) (s ++ u) ≡ true
unfolding ends_with
ends_with-more t [] u h = whole u (same_text-append t [] u h)
  where
    whole : (s : Text) → same_text (t ++ u) s ≡ true → ends_with (t ++ u) s ≡ true
    whole [] k = k
    whole (y ∷ s) k = ground (arith, k)
ends_with-more t (x ∷ s) u h = ground (arith, h, same_text-append t (x ∷ s) u, ends_with-more t s u)

pub normalize_path-ends_with : (s : Text) → ends_with (codes "/api/") (normalize_path s) ≡ true
unfolding normalize_path
normalize_path-ends_with s =
    let q = rstrip (nat_is b'/') s in
    if_intro (λ t. ends_with (codes "/api/") t ≡ true) (ends_with (codes "/api") q) _ _
      (λ e. ends_with-more (codes "/api") q (codes "/") e)
      λ e.
        if_intro (λ t. ends_with (codes "/api/") t ≡ true) (is_empty q) _ _
          (λ e. ends_with-append (codes "/api/") []) (λ e. ends_with-append (codes "/api/") q)

-- A text without a character, as a test on every character.
Lacks-all : (c : ℕ) (s : Text) → Lacks c s → all_of (λ x. not (nat_beq x c)) s ≡ true
unfolding all_of
Lacks-all c [] h = refl
Lacks-all c (x ∷ s) h = ground (arith, h, Lacks-all c s)

pub all-Lacks : (c : ℕ) (s : Text) → all_of (λ x. not (nat_beq x c)) s ≡ true → Lacks c s
unfolding all_of
all-Lacks c [] h = refl
all-Lacks c (x ∷ s) h = ground (arith, h, all-Lacks c s)

pub normalize_path-Lacks :
    (c : ℕ) (s : Text) → Lacks c (codes "/api/") → Lacks c s → Lacks c (normalize_path s)
normalize_path-Lacks c s k h = all-Lacks c (normalize_path s) (
    all_of-normalize_path (λ x. not (nat_beq x c)) s (Lacks-all c (codes "/api/") k)
      (Lacks-all c s h))
