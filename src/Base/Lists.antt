-- ===== src/Base/Lists.antt =====
-- Lists measured by native numbers, and lists of numbers as Python sets.
use Prim.Native.Nat.{ℕ, ◌≤◌, zero, suc, ◌+◌, ◌-◌, max, min}
use mathlib.Core.Path.{◌≡◌, refl, ap}
use mathlib.Core.Bool.{Bool, true, false, ◌||◌}
use mathlib.Core.List.{List, [], ◌∷◌, ◌++◌}
use native.Mathlib.Omega.{arith}
use pyxxl.Base.Tests.{nat_beq, ltb, if◌then◌else◌}

module _ {ℓ} {A : Type ℓ} where
  abbrev pub length : List A → ℕ
  length [] = 0
  length (x ∷ xs) = suc (length xs)

  pub length-append : (xs ys : List A) → length (xs ++ ys) ≡ length xs + length ys
  length-append [] ys = omega arith
  length-append (x ∷ xs) ys = omega (arith, length-append xs ys)

  abbrev pub is_empty : List A → Bool
  is_empty [] = true
  is_empty (x ∷ xs) = false

  abbrev pub take : ℕ → List A → List A
  take zero xs = []
  take (suc n) [] = []
  take (suc n) (x ∷ xs) = x ∷ take n xs

  abbrev pub drop : ℕ → List A → List A
  drop zero xs = xs
  drop (suc n) [] = []
  drop (suc n) (x ∷ xs) = drop n xs

  pub length-drop : (n : ℕ) (xs : List A) → length (drop n xs) ≡ length xs - n
  length-drop zero xs = omega arith
  length-drop (suc n) [] = omega arith
  length-drop (suc n) (x ∷ xs) = omega (arith, length-drop n xs)

  pub length-take : (n : ℕ) (xs : List A) → length (take n xs) ≡ min n (length xs)
  length-take zero xs = omega arith
  length-take (suc n) [] = omega arith
  length-take (suc n) (x ∷ xs) = omega (arith, length-take n xs)

  pub take-append-drop : (n : ℕ) (xs : List A) → take n xs ++ drop n xs ≡ xs
  take-append-drop zero xs = refl
  take-append-drop (suc n) [] = refl
  take-append-drop (suc n) (x ∷ xs) = λ i. x ∷ take-append-drop n xs i

  pub drop-nil : (n : ℕ) → drop n [] ≡ []
  drop-nil zero = refl
  drop-nil (suc n) = refl

  pub drop-drop : (a b c : ℕ) (xs : List A) → c ≡ a + b → drop b (drop a xs) ≡ drop c xs
  drop-drop zero b c xs e = ap (λ n. drop n xs) (omega (arith, e))
  drop-drop (suc a) b zero xs e = absurd (ground (arith, e))
  drop-drop (suc a) b (suc c) [] e = drop-nil b
  drop-drop (suc a) b (suc c) (x ∷ xs) e = drop-drop a b c xs (omega (arith, e))

  pub drop_all : (n : ℕ) (xs : List A) → length xs ≤ n → drop n xs ≡ []
  drop_all n [] h = drop-nil n
  drop_all zero (x ∷ xs) h = absurd (ground (arith, h))
  drop_all (suc n) (x ∷ xs) h = drop_all n xs (omega (arith, h))

  pub drop-append : (n : ℕ) (xs ys : List A) → n ≤ length xs → drop n (xs ++ ys) ≡ drop n xs ++ ys
  drop-append zero xs ys h = refl
  drop-append (suc n) [] ys h = absurd (ground (arith, h))
  drop-append (suc n) (x ∷ xs) ys h = drop-append n xs ys (omega (arith, h))

  pub take_nil : (n : ℕ) → take n [] ≡ []
  take_nil zero = refl
  take_nil (suc n) = refl

  pub take_more :
      (a b c : ℕ) (xs : List A) → c ≡ a + b → take a xs ++ take b (drop a xs) ≡ take c xs
  take_more zero b c xs e = ap (λ n. take n xs) (omega (arith, e))
  take_more (suc a) b zero xs e = absurd (ground (arith, e))
  take_more (suc a) b (suc c) [] e = take_nil b
  take_more (suc a) b (suc c) (x ∷ xs) e = λ i. x ∷ take_more a b c xs (omega (arith, e)) i

-- A predicate on every entry, by recursion.
abbrev pub All {ℓ κ} : {A : Type ℓ} → (A → Type κ) → List A → Type κ
All P [] = Unit
All P (x ∷ xs) = P x × All P xs

module _ {ℓ κ} {A : Type ℓ} (P : A → Type κ) where
  pub All-append : (front back : List A) → All P front → All P back → All P (front ++ back)
  All-append [] back left right = right
  All-append (a ∷ front) back left right = (left.0, All-append front back left.1 right)

  pub All-split : (front back : List A) → All P (front ++ back) → All P front × All P back
  All-split [] back h = (tt, h)
  All-split (a ∷ front) back h = let rest = All-split front back h.1 in ((h.0, rest.0), rest.1)

-- How often a number stands in a list.
unfoldable pub count : ℕ → List ℕ → ℕ
count a [] = 0
count a (x ∷ xs) = (if nat_beq x a then 1 else 0) + count a xs

pub count-nil : (a : ℕ) → count a [] ≡ 0
unfolding count
count-nil a = refl

pub count-cons :
    (a x : ℕ) (xs : List ℕ) → count a (x ∷ xs) ≡ (if nat_beq x a then 1 else 0) + count a xs
unfolding count
count-cons a x xs = refl

pub count-append : (a : ℕ) (xs ys : List ℕ) → count a (xs ++ ys) ≡ count a xs + count a ys
unfolding count
count-append a [] ys = omega arith
count-append a (x ∷ xs) ys = omega (arith, count-append a xs ys)

-- A Python `set` of numbers: membership, `add` and `discard`.
unfoldable pub contains : List ℕ → ℕ → Bool
contains [] a = false
contains (x ∷ xs) a = nat_beq x a || contains xs a

unfoldable pub add : ℕ → List ℕ → List ℕ
unfolding contains
add a xs = if contains xs a then xs else a ∷ xs

unfoldable pub discard : ℕ → List ℕ → List ℕ
discard a [] = []
discard a (x ∷ xs) = let rest = discard a xs in if nat_beq x a then rest else x ∷ rest

pub contains-add : (a b : ℕ) (xs : List ℕ) → contains (add a xs) b ≡ (nat_beq a b || contains xs b)
unfolding contains add
contains-add a b [] = ground arith
contains-add a b (x ∷ xs) = ground (arith, contains-add a b xs)

pub contains-discard :
    (a b : ℕ) (xs : List ℕ)
    → contains (discard a xs) b ≡ (if nat_beq a b then false else contains xs b)
unfolding contains discard
contains-discard a b [] = ground arith
contains-discard a b (x ∷ xs) = ground (arith, contains-discard a b xs)

pub contains-eq-ltb : (xs : List ℕ) (a : ℕ) → contains xs a ≡ ltb 0 (count a xs)
unfolding contains count
contains-eq-ltb [] a = refl
contains-eq-ltb (x ∷ xs) a = ground (arith, contains-eq-ltb xs a)

pub count-add :
    (b a : ℕ) (xs : List ℕ)
    → count b (add a xs) ≡ (if nat_beq a b then max 1 (count b xs) else count b xs)
unfolding add count
count-add b a xs = ground (arith, contains-eq-ltb xs a)

pub count-discard :
    (b a : ℕ) (xs : List ℕ) → count b (discard a xs) ≡ (if nat_beq a b then 0 else count b xs)
unfolding count discard
count-discard b a [] = ground arith
count-discard b a (x ∷ xs) = ground (arith, count-discard b a xs)

pub contains-append :
    (xs ys : List ℕ) (a : ℕ) → contains (xs ++ ys) a ≡ (contains xs a || contains ys a)
unfolding contains
contains-append [] ys a = refl
contains-append (x ∷ xs) ys a = ground (arith, contains-append xs ys a)
