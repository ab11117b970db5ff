-- ===== src/Sync/Session/Prefixes/Halves.antt =====
-- packages/sync/src/reconciliation/session.ts: the two halves of a prefix.
use pokapali.Prelude.{
  ℕ, zero, suc, ◌+◌, ◌-◌, ◌/◌, ◌%◌, ◌<◌, ◌≤◌, ◌≡◌, refl, sym, ap, ◌∙◌, inl, inr, Bool, true, false,
  [], ◌∷◌, length, ◌==◌, ==_iff, if◌then◌else◌, Bool-cases, arith,
}
use pokapali.Facts.Types.{Bytes}
use pokapali.Wire.{IsBytes}
use pokapali.Sync.Trie.{byte_at, get_bit, same_bit, same_bits}
use pokapali.Sync.Trie.Bits.{IsHash, same_bits→eq}
use pokapali.Sync.Session.{Query, set_byte, child_prefix, half}
use pokapali.Sync.Session.Prefixes.{bit_at, written, written-bit, written-size}

==-suc : (i j : ℕ) → (i == j) ≡ (suc i == suc j)
==-suc i j = ground arith

byte_at-set_byte :
    (p : Bytes) (i j v : ℕ)
    → j < length p
    → byte_at (set_byte p j v) i ≡ (if i == j then v else byte_at p i)
unfolding byte_at set_byte
byte_at-set_byte [] i j v h = absurd (omega arith)
byte_at-set_byte (b ∷ p) zero zero v h = refl
byte_at-set_byte (b ∷ p) zero (suc j) v h = ground arith
byte_at-set_byte (b ∷ p) (suc i) zero v h = ground arith
byte_at-set_byte (b ∷ p) (suc i) (suc j) v h =
    byte_at-set_byte p i j v (omega arith) ∙ ap (λ c. if c then v else byte_at p i) (==-suc i j)

length-set_byte : (p : Bytes) (j v : ℕ) → length (set_byte p j v) ≡ length p
unfolding set_byte
length-set_byte [] j v = refl
length-set_byte (b ∷ p) zero v = refl
length-set_byte (b ∷ p) (suc j) v = let ih = length-set_byte p j v in omega arith

IsBytes-set_byte : (p : Bytes) (j v : ℕ) → IsBytes p → v < 256 → IsBytes (set_byte p j v)
unfolding set_byte
IsBytes-set_byte [] j v h k = tt
IsBytes-set_byte (b ∷ p) zero v h k = (k, h.1)
IsBytes-set_byte (b ∷ p) (suc j) v h k = (h.0, IsBytes-set_byte p j v h.1 k)

IsBytes-byte_at : (p : Bytes) (i : ℕ) → IsBytes p → byte_at p i < 256
unfolding byte_at
IsBytes-byte_at [] i h = omega arith
IsBytes-byte_at (b ∷ p) zero h = h.0
IsBytes-byte_at (b ∷ p) (suc i) h = IsBytes-byte_at p i h.1

child_prefix-written :
    (p : Bytes) (d : ℕ) (b : Bool)
    → child_prefix p d b ≡ set_byte p (d / 8) (written (byte_at p (d / 8)) (7 - d % 8) b)
unfolding child_prefix
child_prefix-written p d true = refl
child_prefix-written p d false = refl

pub child_prefix-IsHash : (p : Bytes) (d : ℕ) (b : Bool) → IsHash p → IsHash (child_prefix p d b)
child_prefix-IsHash p d b h =
    let v = written (byte_at p (d / 8)) (7 - d % 8) b in
    rw (child_prefix-written p d b) (
      length-set_byte p (d / 8) v ∙ h.0,
      IsBytes-set_byte p (d / 8) v h.1 (
          written-size (byte_at p (d / 8)) (7 - d % 8) b (IsBytes-byte_at p (d / 8) h.1)
            (omega arith)),
    )

get_bit-at : (h : Bytes) (i : ℕ) → get_bit h i ≡ bit_at (byte_at h (i / 8)) (7 - i % 8)
unfolding get_bit
get_bit-at h i = refl

at-equal : (i d : ℕ) → i ≡ d → (7 - i % 8 == 7 - d % 8) ≡ true
at-equal i d e = (==_iff _ _).1 (ap (λ n. 7 - n % 8) e)

at-apart : (i d : ℕ) → i / 8 ≡ d / 8 → (i == d) ≡ false → (7 - i % 8 == 7 - d % 8) ≡ false
at-apart i d e h = ground arith

byte-child_prefix :
    (p : Bytes) (d i : ℕ) (b : Bool)
    → IsHash p
    → d < 256
    → byte_at (child_prefix p d b) i
      ≡ (if i == d / 8 then written (byte_at p (d / 8)) (7 - d % 8) b else byte_at p i)
byte-child_prefix p d i b h k =
    ap (λ q. byte_at q i) (child_prefix-written p d b)
    ∙ byte_at-set_byte p i (d / 8) (written (byte_at p (d / 8)) (7 - d % 8) b) (omega arith)

-- The half of a prefix has the bit of its depth, and the prefix's bits elsewhere.
pub get_bit-child_prefix :
    (p : Bytes) (d i : ℕ) (b : Bool)
    → IsHash p
    → d < 256
    → get_bit (child_prefix p d b) i ≡ (if i == d then b else get_bit p i)
get_bit-child_prefix p d i b h k =
    let byte = byte-child_prefix p d (i / 8) b h k in
    let here = get_bit-at (child_prefix p d b) i in
    elim (Bool-cases (i / 8 == d / 8)) [
      | inr e ↦
          let other : (i == d) ≡ false = ground arith in
          rw other (here ∙ ap (λ v. bit_at v (7 - i % 8)) (rw e at byte) ∙ sym (get_bit-at p i))
      | inl e ↦
          let same = (==_iff (i / 8) (d / 8)).0 e in
          let bit =
            written-bit (byte_at p (d / 8)) (7 - d % 8) (7 - i % 8) b
              (IsBytes-byte_at p (d / 8) h.1) (omega arith) (omega arith) in
          let there = here ∙ ap (λ v. bit_at v (7 - i % 8)) (rw e at byte) ∙ bit in
          elim (Bool-cases (i == d)) [
            | inl q ↦
                let equal : (7 - i % 8 == 7 - d % 8) ≡ true = at-equal i d ((==_iff i d).0 q) in
                rw q (rw equal at there)
            | inr q ↦
                let apart : (7 - i % 8 == 7 - d % 8) ≡ false = at-apart i d same q in
                rw q (
                  (rw apart at there)
                  ∙ ap (λ j. bit_at (byte_at p j) (7 - i % 8)) (sym same)
                  ∙ sym (get_bit-at p i))
          ]
    ]

eq→same_bit : (a b : Bool) → a ≡ b → same_bit a b ≡ true
eq→same_bit true b e = sym e
eq→same_bit false true e = e
eq→same_bit false false e = refl

eq→same_bits :
    (n d : ℕ) (a b : Bytes)
    → ((i : ℕ) → d ≤ i → i < d + n → get_bit a i ≡ get_bit b i)
    → same_bits n d a b ≡ true
unfolding same_bits
eq→same_bits zero d a b h = refl
eq→same_bits (suc n) d a b h =
    let one = eq→same_bit (get_bit a d) (get_bit b d) (h d (omega arith) (omega arith)) in
    let rest = eq→same_bits n (suc d) a b (λ i p q. h i (omega arith) (omega arith)) in
    rw (one, rest) refl

-- What is in the range of a prefix is in the range of the half that its next bit says.
pub same_bits-half :
    (x : Bytes) (q : Query)
    → IsHash q.prefix
    → q.depth < 256
    → same_bits q.depth 0 x q.prefix ≡ true
    → same_bits (suc q.depth) 0 x (half q (get_bit x q.depth)).prefix ≡ true
unfolding half
same_bits-half x q h k covers =
    eq→same_bits (suc q.depth) 0 x (child_prefix q.prefix q.depth (get_bit x q.depth)) (λ i p l.
      let law = get_bit-child_prefix q.prefix q.depth i (get_bit x q.depth) h k in
      elim (Bool-cases (i == q.depth)) [
        | inl e ↦ ap (get_bit x) ((==_iff i q.depth).0 e) ∙ sym (rw e at law)
        | inr e ↦
            same_bits→eq q.depth 0 x q.prefix covers i (omega arith) (ground arith)
            ∙ sym (rw e at law)
      ])
