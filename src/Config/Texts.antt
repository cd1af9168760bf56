-- ===== src/Config/Texts.antt =====
-- Python's texts as lists of code points: the operations of `str` that the configuration uses.
use Prim.Native.Char.{code}
use Prim.Native.Nat.{ℕ, zero, suc, ◌+◌, ◌/◌, ◌%◌}
use Prim.Native.String.{String}
use pyxxl.Base.{
  Bool, true, false, ◌&&◌, ◌||◌, List, [], ◌∷◌, ◌++◌, nat_beq, leb, is_empty, if◌then◌else◌,
}

abbrev pub Text : Type 0
Text = List ℕ

-- The code points of a text.
abbrev pub codes : String → Text
codes String.[] = []
codes (String.◌∷◌ c s) = code c ∷ codes s

abbrev pub nat_is : ℕ → ℕ → Bool
nat_is c x = nat_beq x c

abbrev pub one_of : Text → ℕ → Bool
one_of [] c = false
one_of (x ∷ xs) c = nat_beq x c || one_of xs c

abbrev between : ℕ → ℕ → ℕ → Bool
between lo hi c = leb lo c && leb c hi

-- `str.isspace` of one character
unfoldable pub is_space : ℕ → Bool
is_space c =
    between 9 13 c
    || between 28 32 c
    || between 0x2000 0x200a c
    || one_of (133 ∷ 160 ∷ 0x1680 ∷ 0x2028 ∷ 0x2029 ∷ 0x202f ∷ 0x205f ∷ 0x3000 ∷ []) c

-- s.lstrip(chars), s.rstrip(chars), by a test on characters
unfoldable pub lstrip : (ℕ → Bool) → Text → Text
lstrip p [] = []
lstrip p (x ∷ xs) = if p x then lstrip p xs else x ∷ xs

unfoldable pub rstrip : (ℕ → Bool) → Text → Text
rstrip p [] = []
rstrip p (x ∷ xs) = let rest = rstrip p xs in if p x && is_empty rest then [] else x ∷ rest

-- s.strip()
unfoldable pub strip : Text → Text
unfolding lstrip rstrip is_space
strip s = rstrip is_space (lstrip is_space s)

abbrev pub prepend : ℕ → List Text → List Text
prepend x [] = (x ∷ []) ∷ []
prepend x (t ∷ ts) = (x ∷ t) ∷ ts

-- s.split(c)
unfoldable pub split : ℕ → Text → List Text
split c [] = [] ∷ []
split c (x ∷ xs) = let rest = split c xs in if nat_beq x c then [] ∷ rest else prepend x rest

-- c.join(ts)
unfoldable pub join : ℕ → List Text → Text
join c [] = []
join c (t ∷ []) = t
join c (t ∷ u ∷ us) = t ++ c ∷ join c (u ∷ us)

unfoldable pub same_text : Text → Text → Bool
same_text [] [] = true
same_text (x ∷ xs) (y ∷ ys) = nat_beq x y && same_text xs ys
same_text _ _ = false

-- s.startswith(t)
unfoldable pub starts_with : Text → Text → Bool
starts_with [] s = true
starts_with (x ∷ xs) [] = false
starts_with (x ∷ xs) (y ∷ ys) = nat_beq x y && starts_with xs ys

-- s.endswith(t)
unfoldable pub ends_with : Text → Text → Bool
unfolding same_text
ends_with t [] = same_text t []
ends_with t (x ∷ xs) = same_text t (x ∷ xs) || ends_with t xs

-- The part before the first character that passes the test, and the rest from it on.
unfoldable pub span : (ℕ → Bool) → Text → Text × Text
span p [] = ([], [])
span p (x ∷ xs) =
    let (before, after) = span p xs in if p x then ([], x ∷ xs) else (x ∷ before, after)

-- The part before the first `c` and the part behind it; all and nothing where there is none.
unfoldable pub cut : ℕ → Text → Text × Text
cut c [] = ([], [])
cut c (x ∷ xs) =
    let (before, after) = cut c xs in if nat_beq x c then ([], xs) else (x ∷ before, after)

-- The decimal digits of a number, at most as many as the fuel.
unfoldable pub digits : ℕ → ℕ → Text → Text
digits zero n out = out
digits (suc f) n out =
    let rest = digits f (n / 10) ((b'0' + n % 10) ∷ out) in
    if nat_beq (n / 10) 0 then (b'0' + n % 10) ∷ out else rest

-- str(n): a number has no more digits than itself and one
unfoldable pub decimal : ℕ → Text
unfolding digits
decimal n = digits (suc n) n []
