-- ===== src/Sync/Trie/Bits.antt =====
-- packages/sync/src/reconciliation/merkle-trie.ts: the bits of a hash determine it.
use pokapali.Prelude.{
  ℕ, zero, suc, ◌+◌, ◌*◌, ◌/◌, ◌%◌, ◌<◌, ◌≤◌, ◌≡◌, refl, sym, ap₂, ◌∙◌, subst, inl, inr, ◌↔◌, Bool,
  true, false, [], ◌∷◌, length, ◌==◌, ==_iff, Bool-cases, Eq, arith,
}
use pokapali.Facts.Types.{Bytes}
use pokapali.Wire.{IsBytes}
use pokapali.Sync.Trie.{byte_at, get_bit, bytes_equal, same_bit, same_bits}

bytes_equal→eq : (a b : Bytes) → bytes_equal a b ≡ true → a ≡ b
unfolding bytes_equal
bytes_equal→eq [] [] h = refl
bytes_equal→eq [] (y ∷ ys) h = cc
bytes_equal→eq (x ∷ xs) [] h = cc
bytes_equal→eq (x ∷ xs) (y ∷ ys) h = elim (Bool-cases (x == y)) [
  | inl q ↦ ap₂ ◌∷◌ ((==_iff x y).0 q) (bytes_equal→eq xs ys (rw q at h))
  | inr q ↦ let e = rw q at h in cc
]

bytes_equal_refl : (a : Bytes) → bytes_equal a a ≡ true
unfolding bytes_equal
bytes_equal_refl [] = refl
bytes_equal_refl (x ∷ xs) = rw ((==_iff x x).1 refl) (bytes_equal_refl xs)

pub bytes_equal_iff : (a b : Bytes) → (bytes_equal a b ≡ true) ↔ (a ≡ b)
bytes_equal_iff a b =
    (bytes_equal→eq a b, λ q. subst (λ x. bytes_equal a x ≡ true) q (bytes_equal_refl a))

instance abbrev pub bytes_eq : Eq Bytes
bytes_eq = record { beq = bytes_equal; beq_iff = bytes_equal_iff }

-- A SHA-256 digest.
abbrev pub IsHash : Bytes → Type 0
IsHash h = (length h ≡ 32) × IsBytes h

-- The first `n` bits agree.
abbrev pub Agrees : ℕ → Bytes → Bytes → Type 0
Agrees n a b = (i : ℕ) → i < n → get_bit a i ≡ get_bit b i

same_bit→eq : (a b : Bool) → same_bit a b ≡ true → a ≡ b
same_bit→eq true true h = refl
same_bit→eq true false h = sym h
same_bit→eq false true h = h
same_bit→eq false false h = refl

pub same_bits→eq :
    (n d : ℕ) (a b : Bytes)
    → same_bits n d a b ≡ true
    → (i : ℕ) → d ≤ i
    → i < d + n
    → get_bit a i ≡ get_bit b i
unfolding same_bits
same_bits→eq zero d a b h i p q = absurd (omega arith)
same_bits→eq (suc n) d a b h i p q = elim (Bool-cases (same_bit (get_bit a d) (get_bit b d))) [
  | inr e ↦ let x = rw e at h in cc
  | inl e ↦ elim (Bool-cases (d == i)) [
    | inl same ↦ subst (λ k. get_bit a k ≡ get_bit b k) ((==_iff d i).0 same) (same_bit→eq _ _ e)
    | inr other ↦ same_bits→eq n (suc d) a b (rw e at h) i (ground arith) (omega arith)
  ]
]

-- The test of a bit, as a number.
bit→eq : (m n : ℕ) → (m % 2 == 1) ≡ (n % 2 == 1) → m % 2 ≡ n % 2
bit→eq m n h = ground arith

byte→eq : (x y : ℕ) (xs ys : Bytes) → x < 256 → y < 256 → Agrees 8 (x ∷ xs) (y ∷ ys) → x ≡ y
unfolding get_bit byte_at
byte→eq x y xs ys p q h =
    let b7 = bit→eq (x / 128) (y / 128) (h 0 (omega arith)) in
    let b6 = bit→eq (x / 64) (y / 64) (h 1 (omega arith)) in
    let b5 = bit→eq (x / 32) (y / 32) (h 2 (omega arith)) in
    let b4 = bit→eq (x / 16) (y / 16) (h 3 (omega arith)) in
    let b3 = bit→eq (x / 8) (y / 8) (h 4 (omega arith)) in
    let b2 = bit→eq (x / 4) (y / 4) (h 5 (omega arith)) in
    let b1 = bit→eq (x / 2) (y / 2) (h 6 (omega arith)) in
    let b0 = bit→eq (x / 1) (y / 1) (h 7 (omega arith)) in omega arith

get_bit-next : (x : ℕ) (xs : Bytes) (i : ℕ) → get_bit (x ∷ xs) (8 + i) ≡ get_bit xs i
unfolding get_bit byte_at
get_bit-next x xs i =
    let byte : (8 + i) / 8 ≡ suc (i / 8) = omega arith in
    let bit : (8 + i) % 8 ≡ i % 8 = omega arith in rw (byte, bit) refl

pub Agrees→eq :
    (a b : Bytes) → length a ≡ length b → IsBytes a → IsBytes b → Agrees (8 * length a) a b → a ≡ b
Agrees→eq [] [] l p q h = refl
Agrees→eq [] (y ∷ ys) l p q h = cc
Agrees→eq (x ∷ xs) [] l p q h = cc
Agrees→eq (x ∷ xs) (y ∷ ys) l p q h =
    ap₂ ◌∷◌ (byte→eq x y xs ys p.0 q.0 (λ i k. h i (omega arith))) (
      Agrees→eq xs ys (omega arith) p.1 q.1
        (λ i k. sym (get_bit-next x xs i) ∙ h (8 + i) (omega arith) ∙ get_bit-next y ys i))
