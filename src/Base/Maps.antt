-- ===== src/Base/Maps.antt =====
-- Python's `dict`, in insertion order, behind laws on `get`; and `defaultdict(list)`-like reads.
use mathlib.Core.Path.{◌≡◌, refl}
use mathlib.Core.Option.{Option, none, some}
use mathlib.Core.List.{List, [], ◌∷◌, map}
use native.Mathlib.Omega.{arith}
use Prim.Native.Nat.{ℕ, ◌≤◌, max}
use mathlib.Core.Bool.{false}
use pyxxl.Base.Tests.{Eq, ◌==◌, nat_eq, nat_beq, if◌then◌else◌}
use pyxxl.Base.Lists.{contains, count}

-- The entries, oldest key first: writing to a key that is there keeps its place.
pub record Dict {ℓ κ} (K : Type ℓ) (V : Type κ) : Type (ℓ ⊔ κ) where
  pub entries : List (K × V)

module _ {ℓ κ} {K : Type ℓ} {V : Type κ} where
  unfoldable pub empty : Dict K V
  empty = record { entries = [] }

  first : K × V → K
  first (k, v) = k

  unfoldable pub keys : Dict K V → List K
  unfolding first
  keys d = map first d.entries

module _ {ℓ κ} {K : Type ℓ} {V : Type κ} ⦃e : Eq K⦄ where
  find : K → List (K × V) → Option V
  find k [] = none
  find k ((j, v) ∷ l) = if j == k then some v else find k l

  write : K → V → List (K × V) → List (K × V)
  write k v [] = (k, v) ∷ []
  write k v ((j, w) ∷ l) = let rest = write k v l in if j == k then (j, v) ∷ l else (j, w) ∷ rest

  erase : K → List (K × V) → List (K × V)
  erase k [] = []
  erase k ((j, v) ∷ l) = let rest = erase k l in if j == k then rest else (j, v) ∷ rest

  -- d.get(k)
  unfoldable pub get : Dict K V → K → Option V
  unfolding find
  get d k = find k d.entries

  -- d[k] = v
  unfoldable pub set : Dict K V → K → V → Dict K V
  unfolding write
  set d k v = record { entries = write k v d.entries }

  -- d.pop(k, None), without its result
  unfoldable pub remove : Dict K V → K → Dict K V
  unfolding erase
  remove d k = record { entries = erase k d.entries }

  find-write :
      (k j : K) (v : V) (l : List (K × V))
      → find j (write k v l) ≡ (if k == j then some v else find j l)
  unfolding find write
  find-write k j v [] = refl
  find-write k j v ((i, w) ∷ l) =
      ground (arith, e.agrees i k, e.agrees i j, e.agrees k j, find-write k j v l)

  find-erase :
      (k j : K) (l : List (K × V)) → find j (erase k l) ≡ (if k == j then none else find j l)
  unfolding find erase
  find-erase k j [] = ground arith
  find-erase k j ((i, w) ∷ l) =
      ground (arith, e.agrees i k, e.agrees i j, e.agrees k j, find-erase k j l)

  pub get-set :
      (d : Dict K V) (k j : K) (v : V) → get (set d k v) j ≡ (if k == j then some v else get d j)
  unfolding get set
  get-set d k j v = find-write k j v d.entries

  pub get-remove :
      (d : Dict K V) (k j : K) → get (remove d k) j ≡ (if k == j then none else get d j)
  unfolding get remove
  get-remove d k j = find-erase k j d.entries

  pub get-empty : (k : K) → get (empty {V = V}) k ≡ none
  unfolding get empty find
  get-empty k = refl

-- A number that is no key has no value.
find-of-keys {κ} :
    {V : Type κ} (k : ℕ) (l : List (ℕ × V)) → contains (map first l) k ≡ false → find k l ≡ none
unfolding find first contains
find-of-keys k [] h = refl
find-of-keys k ((j, v) ∷ l) h = ground (arith, find-of-keys k l)

pub get-of-keys {κ} :
    {V : Type κ} (d : Dict ℕ V) (k : ℕ) → contains (keys d) k ≡ false → get d k ≡ none
unfolding get keys
get-of-keys d k h = find-of-keys k d.entries h

-- How often a number is a key, after a write and after a removal.
count-write {κ} :
    {V : Type κ} (p k : ℕ) (v : V) (l : List (ℕ × V))
    → count p (map first (write k v l))
      ≡ (if nat_beq k p then max 1 (count p (map first l)) else count p (map first l))
unfolding write first count
count-write p k v [] = ground arith
count-write p k v ((j, w) ∷ l) = ground (arith, count-write p k v l)

count-erase {κ} :
    {V : Type κ} (p k : ℕ) (l : List (ℕ × V))
    → count p (map first (erase k l)) ≡ (if nat_beq k p then 0 else count p (map first l))
unfolding erase first count
count-erase p k [] = ground arith
count-erase p k ((j, w) ∷ l) = ground (arith, count-erase p k l)

pub count-keys-set {κ} :
    {V : Type κ} (p k : ℕ) (v : V) (d : Dict ℕ V)
    → count p (keys (set d k v))
      ≡ (if nat_beq k p then max 1 (count p (keys d)) else count p (keys d))
unfolding set keys
count-keys-set p k v d = count-write p k v d.entries

pub count-keys-remove {κ} :
    {V : Type κ} (p k : ℕ) (d : Dict ℕ V)
    → count p (keys (remove d k)) ≡ (if nat_beq k p then 0 else count p (keys d))
unfolding remove keys
count-keys-remove p k d = count-erase p k d.entries

count-find {κ} :
    {V : Type κ} (p : ℕ) (v : V) (l : List (ℕ × V)) → find p l ≡ some v → 1 ≤ count p (map first l)
unfolding find first count
count-find p v [] e = absurd (cc e)
count-find p v ((j, w) ∷ l) e = ground (arith, count-find p v l)

-- What has a value is a key.
pub count-keys-get {κ} :
    {V : Type κ} (p : ℕ) (v : V) (d : Dict ℕ V) → get d p ≡ some v → 1 ≤ count p (keys d)
unfolding get keys
count-keys-get p v d e = count-find p v d.entries e
