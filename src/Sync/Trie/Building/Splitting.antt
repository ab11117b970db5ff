-- ===== src/Sync/Trie/Building/Splitting.antt =====
-- packages/sync/src/reconciliation/merkle-trie.ts: `splitLeaf`.
use mathlib.Core.Bool.{false≢true}
use pokapali.Prelude.{
  ℕ, zero, suc, ◌*◌, ◌≡◌, refl, sym, ◌∙◌, subst, inl, inr, Bool, true, false, Option, some, ◌>>=◌,
  List, [], ◌∷◌, length, Bool-cases, ◌===◌, ltb, ltb→lt, arith,
}
use pokapali.Facts.Types.{Bytes}
use pokapali.Sync.Trie.{
  Trie, absent, leaf, get_bit, build_internal, bytes_equal, split_leaf, hash_bits, same_bit,
  same_bits, gather,
}
use pokapali.Sync.Trie.Bits.{bytes_eq, bytes_equal_iff, IsHash, Agrees, same_bits→eq, Agrees→eq}
use pokapali.Sync.Trie.Building.{
  Has, Inserted, one_bit, no_bit, Adds-bit, build_internal-IsTrie, With, With-left, With-swap,
  With-front,
}

-- `splitLeaf` by the bits of both hashes.
abbrev pub sides : ℕ → Bytes → Bytes → ℕ → Bool → Bool → Option Trie
sides fuel old hash depth false false = do
  child ← split_leaf fuel old hash (suc depth)
  some (build_internal child absent)
sides fuel old hash depth false true = some (build_internal (leaf old) (leaf hash))
sides fuel old hash depth true false = some (build_internal (leaf hash) (leaf old))
sides fuel old hash depth true true = do
  child ← split_leaf fuel old hash (suc depth)
  some (build_internal absent child)

pub split_leaf-sides :
    (fuel : ℕ) (old hash : Bytes) (d : ℕ) (b c : Bool)
    → get_bit old d ≡ b
    → get_bit hash d ≡ c
    → split_leaf (suc fuel) old hash d ≡ sides fuel old hash d b c
unfolding split_leaf
split_leaf-sides fuel old hash d false false p q = rw (split_leaf, p, q) refl
split_leaf-sides fuel old hash d false true p q = rw (split_leaf, p, q) refl
split_leaf-sides fuel old hash d true false p q = rw (split_leaf, p, q) refl
split_leaf-sides fuel old hash d true true p q = rw (split_leaf, p, q) refl

pub sides-Inserted :
    (fuel : ℕ) (old hash : Bytes) (d : ℕ) (b c : Bool)
    → get_bit old d ≡ b
    → get_bit hash d ≡ c
    → IsHash old
    → IsHash hash
    → (b ≡ c → Inserted (suc d) hash (leaf old) (split_leaf fuel old hash (suc d)))
    → Inserted d hash (leaf old) (sides fuel old hash d b c)
unfolding gather build_internal
sides-Inserted fuel old hash d false false p q ho hh ih =
    let (child, e, trie, adds) = ih refl in
    (
      build_internal child absent,
      rw (e, ◌>>=◌) refl,
      build_internal-IsTrie d child absent
          (Adds-bit hash d false (leaf old) child adds q (one_bit old d false p)) (no_bit d true)
          trie tt,
      With-left hash (old ∷ []) (gather child) [] adds,
    )
sides-Inserted fuel old hash d false true p q ho hh ih = (
  build_internal (leaf old) (leaf hash),
  refl,
  build_internal-IsTrie d (leaf old) (leaf hash) (one_bit old d false p) (one_bit hash d true q) ho
      hh,
  With-swap hash old,
)
sides-Inserted fuel old hash d true false p q ho hh ih = (
  build_internal (leaf hash) (leaf old),
  refl,
  build_internal-IsTrie d (leaf hash) (leaf old) (one_bit hash d false q) (one_bit old d true p) hh
      ho,
  With-front hash old,
)
sides-Inserted fuel old hash d true true p q ho hh ih =
    let (child, e, trie, adds) = ih refl in
    (
      build_internal absent child,
      rw (e, ◌>>=◌) refl,
      build_internal-IsTrie d absent child (no_bit d false)
          (Adds-bit hash d true (leaf old) child adds q (one_bit old d true p)) tt trie,
      adds,
    )

pub same_bit-same : (b c : Bool) → b ≡ c → same_bit b c ≡ true
same_bit-same true c e = sym e
same_bit-same false true e = e
same_bit-same false false e = refl

-- Two hashes that one of the next `fuel` bits tells apart are split there.
pub split_leaf-Inserted :
    (fuel : ℕ) (old hash : Bytes) (d : ℕ)
    → IsHash old
    → IsHash hash
    → same_bits fuel d old hash ≡ false
    → Inserted d hash (leaf old) (split_leaf fuel old hash d)
unfolding same_bits
split_leaf-Inserted zero old hash d p q h = absurd (false≢true (sym h))
split_leaf-Inserted (suc fuel) old hash d p q h =
    let b = get_bit old d in
    let c = get_bit hash d in
    subst (Inserted d hash (leaf old)) (sym (split_leaf-sides fuel old hash d b c refl refl)) (
      sides-Inserted fuel old hash d b c refl refl p q
        (λ e. split_leaf-Inserted fuel old hash (suc d) p q (rw (same_bit-same b c e) at h)))

pub With-same : (hash : Bytes) (xs : List Bytes) → Has hash xs → With hash xs xs
With-same hash xs has x = elim (Bool-cases (hash === x)) [
  | inl e ↦ rw e (subst (λ y. Has y xs) ((bytes_equal_iff hash x).0 e) has)
  | inr e ↦ rw e refl
]

-- Hashes that are not the same, and agree on the first `depth` bits, differ in one of the next 256.
pub told_apart :
    (old hash : Bytes) (d : ℕ)
    → IsHash old
    → IsHash hash
    → Agrees d old hash
    → bytes_equal old hash ≡ false
    → same_bits hash_bits d old hash ≡ false
told_apart old hash d p q agrees h = elim (Bool-cases (same_bits hash_bits d old hash)) [
  | inr e ↦ e
  | inl e ↦
      let same : Agrees (8 * length old) old hash = λ i k. elim (Bool-cases (ltb i d)) [
        | inl l ↦ agrees i (ltb→lt i d l)
        | inr l ↦ same_bits→eq hash_bits d old hash e i (ground arith) (omega arith)
      ] in
      let eq = Agrees→eq old hash (p.0 ∙ sym q.0) p.1 q.1 same in
      absurd (false≢true (sym h ∙ (bytes_equal_iff old hash).1 eq))
]
