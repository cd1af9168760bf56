-- ===== src/Config/Plain.antt =====
-- What the operations on texts do to a text without the characters that they look for.
use Prim.Native.Nat.{ℕ}
use pyxxl.Base.{
  ◌≡◌, Bool-cases, inl, inr, refl, ap, ◌∙◌, Bool, true, false, not, ◌&&◌, ◌||◌, List, [], ◌∷◌, ◌++◌,
  leb, arith, All,
}
use pyxxl.Config.Texts.{Text, one_of, is_space, lstrip, rstrip, strip, split, join, span, cut}
use pyxxl.Config.Url.{all_of, without_breaks, split_params}

-- The text has no `c`.
abbrev pub Lacks : ℕ → Text → Type 0
Lacks c s = one_of s c ≡ false

-- A character that is neither blank nor a control character.
unfoldable pub is_visible : ℕ → Bool
unfolding is_space
is_visible c = not (is_space c) && not (leb c 32)

pub all_of-append :
    (p : ℕ → Bool) (s t : Text) → all_of p s ≡ true → all_of p t ≡ true → all_of p (s ++ t) ≡ true
unfolding all_of
all_of-append p [] t h k = k
all_of-append p (x ∷ s) t h k = ground (arith, h, all_of-append p s t (ground (arith, h)) k)

pub one_of-append : (s t : Text) (c : ℕ) → one_of (s ++ t) c ≡ (one_of s c || one_of t c)
one_of-append [] t c = refl
one_of-append (x ∷ s) t c = ground (arith, one_of-append s t c)

visible-is_space : (x : ℕ) → is_visible x ≡ true → is_space x ≡ false
unfolding is_visible
visible-is_space x h = elim (Bool-cases (is_space x)) [
  | inl blank ↦ absurd (ground (arith, blank, h))
  | inr e ↦ e
]

visible_high : (x : ℕ) → is_visible x ≡ true → leb x 32 ≡ false
unfolding is_visible
visible_high x h = elim (Bool-cases (is_space x)) [
  | inl blank ↦ absurd (ground (arith, blank, h))
  | inr e ↦ ground (arith, e, h)
]

-- No character that passes `q` passes `p`.
abbrev pub Excludes : (ℕ → Bool) → (ℕ → Bool) → Type 0
Excludes p q = (x : ℕ) → q x ≡ true → p x ≡ false

module _ (p q : ℕ → Bool) (apart : Excludes p q) where
  lstrip_none : (s : Text) → all_of q s ≡ true → lstrip p s ≡ s
  unfolding lstrip all_of
  lstrip_none [] h = refl
  lstrip_none (x ∷ s) h = ground (arith, h, apart x)

  pub rstrip_none : (s : Text) → all_of q s ≡ true → rstrip p s ≡ s
  unfolding rstrip all_of
  rstrip_none [] h = refl
  rstrip_none (x ∷ s) h = ground (arith, h, apart x, rstrip_none s)

  -- a text without the characters that `span` looks for, and one of them behind it
  pub span_stops :
      (s t : Text) (y : ℕ) → all_of q s ≡ true → p y ≡ true → span p (s ++ y ∷ t) ≡ (s, y ∷ t)
  unfolding span all_of
  span_stops [] t y h k = ground (arith, k)
  span_stops (x ∷ s) t y h k = ground (arith, h, apart x, span_stops s t y)

  pub span_none : (s : Text) → all_of q s ≡ true → span p s ≡ (s, [])
  unfolding span all_of
  span_none [] h = refl
  span_none (x ∷ s) h = ground (arith, h, apart x, span_none s)

pub strip_visible : (s : Text) → all_of is_visible s ≡ true → strip s ≡ s
unfolding strip
strip_visible s h =
    ap (rstrip is_space) (lstrip_none is_space is_visible visible-is_space s h)
    ∙ rstrip_none is_space is_visible visible-is_space s h

pub lstrip_visible : (s : Text) → all_of is_visible s ≡ true → lstrip (λ c. leb c 32) s ≡ s
lstrip_visible s h = lstrip_none (λ c. leb c 32) is_visible visible_high s h

pub without_breaks_visible : (s : Text) → all_of is_visible s ≡ true → without_breaks s ≡ s
unfolding without_breaks all_of
without_breaks_visible [] h = refl
without_breaks_visible (x ∷ s) h = ground (arith, h, visible_high x, without_breaks_visible s)

pub cut_none : (c : ℕ) (s : Text) → Lacks c s → cut c s ≡ (s, [])
unfolding cut
cut_none c [] h = refl
cut_none c (x ∷ s) h = ground (arith, h, cut_none c s)

pub split_params_none : (s : Text) → Lacks b';' s → split_params s ≡ (s, [])
unfolding split_params
split_params_none [] h = refl
split_params_none (x ∷ s) h =
    ground (arith, h, cut_none b';' s, cut_none b';' (x ∷ s), split_params_none s)

-- The parts of a joined text are those that were joined, where none has the mark.
split_last : (c : ℕ) (t : Text) → Lacks c t → split c t ≡ t ∷ []
unfolding split
split_last c [] h = refl
split_last c (x ∷ t) h = ground (arith, h, split_last c t)

split_first : (c : ℕ) (t s : Text) → Lacks c t → split c (t ++ c ∷ s) ≡ t ∷ split c s
unfolding split
split_first c [] s h = ground arith
split_first c (x ∷ t) s h = ground (arith, h, split_first c t s)

pub split-join :
    (c : ℕ) (t : Text) (ts : List Text)
    → All (Lacks c) (t ∷ ts)
    → split c (join c (t ∷ ts)) ≡ t ∷ ts
unfolding join
split-join c t [] h = split_last c t h.0
split-join c t (u ∷ us) h =
    split_first c t (join c (u ∷ us)) h.0 ∙ ap (λ x. t ∷ x) (split-join c u us h.1)
