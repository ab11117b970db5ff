-- ===== src/Wire/Sample.antt =====
-- A codec that meets the laws: a number is written as itself, and a text or an array after its length.
use Prim.Native.Nat.{compare, Ordering}
use Prim.Native.Char.{Char, char, code, IsLt, IsScalar}
use text.Mathlib.TextEquality.{IsScalar-prop}
use pokapali.Prelude.{
  ℕ, suc, zero, ◌≡◌, refl, ap, String, Option, none, some, List, [], ◌∷◌, ◌++◌, length,
}
use pokapali.Facts.Types.{Bytes}
use pokapali.Wire.{Parser, Reads, Lib0, give, ◌>>=◌}

unfoldable pub read_one : Parser ℕ
read_one [] = none
read_one (n ∷ rest) = some (n, rest)

unfoldable pub read_bytes_of : ℕ → Parser Bytes
read_bytes_of zero = give []
read_bytes_of (suc n) = do x ← read_one; xs ← read_bytes_of n; give (x ∷ xs)

unfoldable pub codes : String → List ℕ
codes String.[] = []
codes (String.◌∷◌ c s) = code c ∷ codes s

-- The tests of `IsScalar`, by its own three comparisons.
abbrev Both : Ordering → Ordering → Type 0
Both Ordering.lt p = IsLt p
Both Ordering.eq p = ⊥
Both Ordering.gt p = ⊥

abbrev Scalar : Ordering → Ordering → Ordering → Type 0
Scalar Ordering.lt p q = Unit
Scalar Ordering.eq p q = Both p q
Scalar Ordering.gt p q = Both p q

unfoldable pub both? : (p q : Ordering) → Option (Both p q)
both? Ordering.lt Ordering.lt = some tt
both? Ordering.lt Ordering.eq = none
both? Ordering.lt Ordering.gt = none
both? Ordering.eq q = none
both? Ordering.gt q = none

unfoldable pub scalar? : (o p q : Ordering) → Option (Scalar o p q)
unfolding both?
scalar? Ordering.lt p q = some tt
scalar? Ordering.eq p q = both? p q
scalar? Ordering.gt p q = both? p q

both-some : (p q : Ordering) (h : Both p q) → (g : Both p q) × (both? p q ≡ some g)
unfolding both?
both-some Ordering.lt Ordering.lt h = (tt, refl)
both-some Ordering.lt Ordering.eq h = absurd h
both-some Ordering.lt Ordering.gt h = absurd h
both-some Ordering.eq q h = absurd h
both-some Ordering.gt q h = absurd h

scalar-some : (o p q : Ordering) (h : Scalar o p q) → (g : Scalar o p q) × (scalar? o p q ≡ some g)
unfolding scalar?
scalar-some Ordering.lt p q h = (tt, refl)
scalar-some Ordering.eq p q h = both-some p q h
scalar-some Ordering.gt p q h = both-some p q h

unfoldable pub is_scalar? : (n : ℕ) → Option (IsScalar n)
unfolding scalar?
is_scalar? n = scalar? (compare n 55296) (compare 57343 n) (compare n 1114112)

unfoldable pub read_char : Parser Char
unfolding read_one is_scalar?
read_char [] = none
read_char (n ∷ rest) = elim (is_scalar? n) [ none ↦ none | some h ↦ some (char n h, rest) ]

read_char_lem : (c : Char) (rest : Bytes) → read_char (code c ∷ rest) ≡ some (c, rest)
unfolding read_char is_scalar?
read_char_lem (char n h) rest =
    let (g, e) = scalar-some (compare n 55296) (compare 57343 n) (compare n 1114112) h in
    rw (e, read_char) (ap (λ k. some (char n k, rest)) (IsScalar-prop n g h))

unfoldable pub read_text : ℕ → Parser String
unfolding read_char
read_text zero = give String.[]
read_text (suc n) = do c ← read_char; s ← read_text n; give (String.◌∷◌ c s)

read_text-codes :
    (s : String) (rest : Bytes) → read_text (length (codes s)) (codes s ++ rest) ≡ some (s, rest)
unfolding read_text codes
read_text-codes String.[] rest = refl
read_text-codes (String.◌∷◌ c s) rest =
    rw (read_char_lem c (codes s ++ rest), ◌>>=◌) (rw (read_text-codes s rest, ◌>>=◌))

read_bytes_of_lem :
    (b : Bytes) (rest : Bytes) → read_bytes_of (length b) (b ++ rest) ≡ some (b, rest)
unfolding read_bytes_of read_one
read_bytes_of_lem [] rest = refl
read_bytes_of_lem (x ∷ b) rest = rw (read_bytes_of_lem b rest, ◌>>=◌)

unfoldable pub read_text_sized : Parser String
read_text_sized = do n ← read_one; read_text n

unfoldable pub read_bytes_sized : Parser Bytes
read_bytes_sized = do n ← read_one; read_bytes_of n

pub text_law : (s : String) → Reads read_text_sized (length (codes s) ∷ codes s) s
unfolding read_text_sized read_one
text_law s = record { reads = λ rest. read_text-codes s rest }

pub bytes_law : (b : Bytes) → Reads read_bytes_sized (length b ∷ b) b
unfolding read_bytes_sized read_one
bytes_law b = record { reads = λ rest. read_bytes_of_lem b rest }

pub one_law : (n : ℕ) → Reads read_one (n ∷ []) n
unfolding read_one
one_law n = record { reads = λ rest. refl }

unfoldable pub sample : Lib0
unfolding read_one read_text read_bytes_of read_text_sized read_bytes_sized codes
sample = record {
  Float = ℕ;
  write_uint = λ n. n ∷ [];
  read_uint = read_one;
  write_string = λ s. length (codes s) ∷ codes s;
  read_string = read_text_sized;
  write_bytes = λ b. length b ∷ b;
  read_bytes = read_bytes_sized;
  write_float = λ n. n ∷ [];
  read_float = read_one;
  uint = λ n h. one_law n;
  string = text_law;
  bytes = λ b h k. bytes_law b;
  float = one_law;
}
