-- ===== src/Wire.antt =====
-- The lib0 encoding library, of which packages/sync and packages/node use the functions below: a
-- parameter, with the documented behaviour that what was written is read back.
pub mod Sample
use pokapali.Prelude.{
  ℕ, suc, zero, ◌+◌, ◌<◌, ◌≡◌, ◌^◌, refl, String, Option, none, some, List, [], ◌∷◌, ◌++◌,
  append_assoc, length,
}
use pokapali.Facts.Types.{Bytes}

-- A read from a decoder: the value and the rest of the input, or a throw, which is `none`.
abbrev pub Parser {ℓ} : Type ℓ → Type ℓ
Parser A = Bytes → Option (A × Bytes)

infixl 5 ◌>>=◌
abbrev pub ◌>>=◌ {ℓ κ} : {A : Type ℓ} {B : Type κ} → Parser A → (A → Parser B) → Parser B
◌>>=◌ p f bytes = elim (p bytes) [ none ↦ none | some (a, rest) ↦ f a rest ]

abbrev pub give {ℓ} : {A : Type ℓ} → A → Parser A
give a bytes = some (a, bytes)

abbrev pub throw {ℓ} : {A : Type ℓ} → Parser A
throw bytes = none

-- Whatever follows, `p` reads `a` from `written` and leaves the rest.
pub record Reads {ℓ} {A : Type ℓ} (p : Parser A) (written : Bytes) (a : A) : Type ℓ where
  pub reads : (rest : Bytes) → p (written ++ rest) ≡ some (a, rest)

-- The numbers that writeVarUint takes exactly: JavaScript's safe integers.
abbrev pub IsUint : ℕ → Type 0
IsUint n = n < 2 ^ 53

abbrev pub IsBytes : Bytes → Type 0
IsBytes [] = Unit
IsBytes (b ∷ bs) = (b < 256) × IsBytes bs

pub record Lib0 : Type 1 where
  pub Float : Type 0
  pub write_uint : ℕ → Bytes
  pub read_uint : Parser ℕ
  pub write_string : String → Bytes
  pub read_string : Parser String
  pub write_bytes : Bytes → Bytes
  pub read_bytes : Parser Bytes
  pub write_float : Float → Bytes
  pub read_float : Parser Float
  pub uint : (n : ℕ) → IsUint n → Reads read_uint (write_uint n) n
  pub string : (s : String) → Reads read_string (write_string s) s
  pub bytes : (b : Bytes) → IsBytes b → IsUint (length b) → Reads read_bytes (write_bytes b) b
  pub float : (x : Float) → Reads read_float (write_float x) x

pub Reads-give {ℓ} : {A : Type ℓ} (a : A) → Reads (give a) [] a
Reads-give a = record { reads = λ rest. refl }

pub Reads-bind {ℓ κ} :
    {A : Type ℓ} {B : Type κ} {p : Parser A} {written more : Bytes} {a : A} {b : B}
    (f : A → Parser B)
    → Reads p written a
    → Reads (f a) more b
    → Reads (p >>= f) (written ++ more) b
Reads-bind {p = p} {written = written} {more = more} f h k = record {
  reads = λ rest. rw (append_assoc, h.reads (more ++ rest), ◌>>=◌) (k.reads rest);
}

-- A read after which the rest of the chain reads nothing.
pub Reads-then {ℓ κ} :
    {A : Type ℓ} {B : Type κ} {p : Parser A} {written : Bytes} {a : A} {b : B} (f : A → Parser B)
    → Reads p written a
    → Reads (f a) [] b
    → Reads (p >>= f) written b
Reads-then f h k = record { reads = λ rest. rw (h.reads rest, ◌>>=◌) (k.reads rest) }

-- The last read of a chain.
pub Reads-last {ℓ κ} :
    {A : Type ℓ} {B : Type κ} {p : Parser A} {written : Bytes} {a : A} (f : A → B)
    → Reads p written a
    → Reads (p >>= λ x. give (f x)) written (f a)
Reads-last f h = record { reads = λ rest. rw (h.reads rest, ◌>>=◌) }

module _ {ℓ} {A : Type ℓ} where
  -- A loop that writes the elements, and one that reads `count` of them.
  unfoldable pub write_all : (A → Bytes) → List A → Bytes
  write_all f [] = []
  write_all f (x ∷ xs) = f x ++ write_all f xs

  unfoldable pub read_many : ℕ → Parser A → Parser (List A)
  read_many zero p = give []
  read_many (suc count) p = do x ← p; xs ← read_many count p; give (x ∷ xs)

  abbrev pub All {κ} : (A → Type κ) → List A → Type κ
  All P [] = Unit
  All P (x ∷ xs) = P x × All P xs

  pub Reads-many {κ} :
      (P : A → Type κ) (p : Parser A) (f : A → Bytes)
      → ((a : A) → P a → Reads p (f a) a)
      → (xs : List A) → All P xs
      → Reads (read_many (length xs) p) (write_all f xs) xs
  unfolding read_many write_all
  Reads-many P p f h [] all = Reads-give []
  Reads-many P p f h (x ∷ xs) all =
      Reads-bind _ (h x all.0) (Reads-last (◌∷◌ x) (Reads-many P p f h xs all.1))
