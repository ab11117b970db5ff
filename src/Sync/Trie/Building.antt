-- ===== src/Sync/Trie/Building.antt =====
-- packages/sync/src/reconciliation/merkle-trie.ts: tries that are sound, and the hashes they have.
pub mod Splitting
pub mod Inserting
use mathlib.Core.Bool.{false≢true}
use pokapali.Prelude.{
  ℕ, zero, suc, ◌+◌, ◌-◌, ◌*◌, ◌<◌, ◌≤◌, ◌≡◌, refl, sym, ap, ◌∙◌, subst, inl, inr, ◌⊎◌, Bool, true,
  false, Option, none, some, ◌>>=◌, List, [], ◌∷◌, ◌++◌, length, ◌==◌, if◌then◌else◌, either_assoc,
  either_swap, Bool-cases, Eq, ◌===◌, ===-refl, set_has, ltb, ltb→lt, arith,
}
use pokapali.Facts.Types.{Bytes}
use pokapali.Wire.{IsBytes, All}
use pokapali.Sync.Trie.{
  Trie, absent, leaf, internal, get_bit, xor_bytes, fingerprint, edit_count, build_internal,
  bytes_equal, split_leaf, hash_bits, insert, empty_internal, insert_all, build_trie, same_bit,
  same_bits, gather,
}
use pokapali.Sync.Trie.Bits.{bytes_eq, bytes_equal_iff, IsHash, Agrees, same_bits→eq, Agrees→eq}

abbrev pub Has : Bytes → List Bytes → Type 0
Has x xs = set_has x xs ≡ true

-- Every hash on the left has bit `depth` 0, every one on the right 1, and so on below; a node's
-- fingerprint and count are those of its children.
abbrev pub IsTrie : ℕ → Trie → Type 0
IsTrie depth absent = Unit
IsTrie depth (leaf hash) = IsHash hash
IsTrie depth (internal fp n left right) =
    ((x : Bytes) → Has x (gather left) → get_bit x depth ≡ false)
    × ((x : Bytes) → Has x (gather right) → get_bit x depth ≡ true)
    × IsTrie (suc depth) left
    × IsTrie (suc depth) right
    × (fp ≡ xor_bytes (fingerprint left) (fingerprint right))
    × (n ≡ edit_count left + edit_count right)

-- The trie after an insertion has the hash, and what it had.
abbrev pub Adds : Bytes → Trie → Trie → Type 0
Adds hash before after =
    (x : Bytes)
    → set_has x (gather after) ≡ (if hash === x then true else set_has x (gather before))

abbrev pub Inserted : ℕ → Bytes → Trie → Option Trie → Type 0
Inserted depth hash before result =
    (after : Trie) × (result ≡ some after) × IsTrie depth after × Adds hash before after

pub set_has-append :
    (x : Bytes) (xs ys : List Bytes)
    → set_has x (xs ++ ys) ≡ (if set_has x xs then true else set_has x ys)
unfolding set_has
set_has-append x [] ys = refl
set_has-append x (y ∷ xs) ys = elim (Bool-cases (y === x)) [
  | inl h ↦ rw h refl
  | inr h ↦ rw h (set_has-append x xs ys)
]

-- The bit of whatever a list of one hash has.
pub one_bit :
    (h : Bytes) (d : ℕ) (b : Bool)
    → get_bit h d ≡ b
    → (x : Bytes) → Has x (h ∷ [])
    → get_bit x d ≡ b
unfolding set_has
one_bit h d b q x has = elim (Bool-cases (h === x)) [
  | inl e ↦ subst (λ y. get_bit y d ≡ b) ((bytes_equal_iff h x).0 e) q
  | inr e ↦ let bad = rw e at has in cc
]

pub no_bit : (d : ℕ) (b : Bool) (x : Bytes) → Has x [] → get_bit x d ≡ b
unfolding set_has
no_bit d b x has = cc

-- After an insertion below, the bit of the hashes on that side.
pub Adds-bit :
    (hash : Bytes) (d : ℕ) (b : Bool) (before after : Trie)
    → Adds hash before after
    → get_bit hash d ≡ b
    → ((x : Bytes) → Has x (gather before) → get_bit x d ≡ b)
    → (x : Bytes) → Has x (gather after)
    → get_bit x d ≡ b
Adds-bit hash d b before after adds q old x has = elim (Bool-cases (hash === x)) [
  | inl e ↦ subst (λ y. get_bit y d ≡ b) ((bytes_equal_iff hash x).0 e) q
  | inr e ↦ old x (rw e at (sym (adds x) ∙ has))
]

pub build_internal-IsTrie :
    (d : ℕ) (left right : Trie)
    → ((x : Bytes) → Has x (gather left) → get_bit x d ≡ false)
    → ((x : Bytes) → Has x (gather right) → get_bit x d ≡ true)
    → IsTrie (suc d) left
    → IsTrie (suc d) right
    → IsTrie d (build_internal left right)
unfolding build_internal
build_internal-IsTrie d left right p q l r = (p, q, l, r, refl, refl)

pub Adds-self :
    (hash : Bytes) (before after : Trie) (x : Bytes)
    → Adds hash before after
    → (hash === x) ≡ true
    → Has x (gather after)
Adds-self hash before after x adds e = rw e at (adds x)

pub Adds-other :
    (hash : Bytes) (before after : Trie) (x : Bytes)
    → Adds hash before after
    → (hash === x) ≡ false
    → set_has x (gather after) ≡ set_has x (gather before)
Adds-other hash before after x adds e = rw e at (adds x)

-- A list of hashes that has one more.
abbrev pub With : Bytes → List Bytes → List Bytes → Type 0
With hash before after =
    (x : Bytes) → set_has x after ≡ (if hash === x then true else set_has x before)

pub With-left :
    (hash : Bytes) (before after right : List Bytes)
    → With hash before after
    → With hash (before ++ right) (after ++ right)
With-left hash before after right w x =
    rw (set_has-append x after right, set_has-append x before right, w x)
      (either_assoc (hash === x) (set_has x before) (set_has x right))

pub With-right :
    (hash : Bytes) (before after left : List Bytes)
    → With hash before after
    → With hash (left ++ before) (left ++ after)
With-right hash before after left w x =
    rw (set_has-append x left after, set_has-append x left before, w x)
      (either_swap (set_has x left) (hash === x) (set_has x before))

pub With-swap : (hash old : Bytes) → With hash (old ∷ []) (old ∷ hash ∷ [])
unfolding set_has
With-swap hash old x = either_swap (old === x) (hash === x) false

pub With-front : (hash old : Bytes) → With hash (old ∷ []) (hash ∷ old ∷ [])
unfolding set_has
With-front hash old x = refl

pub Has-head : (h : Bytes) (hs : List Bytes) → Has h (h ∷ hs)
unfolding set_has
Has-head h hs = rw ((bytes_equal_iff h h).1 refl) refl

pub Has-left : (x : Bytes) (xs ys : List Bytes) → Has x xs → Has x (xs ++ ys)
Has-left x xs ys h = rw (set_has-append x xs ys, h) refl

pub Has-right : (x : Bytes) (xs ys : List Bytes) → Has x ys → Has x (xs ++ ys)
Has-right x xs ys h =
    rw (set_has-append x xs ys, h)
      (elim (Bool-cases (set_has x xs)) [ inl g ↦ rw g refl | inr g ↦ rw g refl ])
