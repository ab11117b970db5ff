-- ===== src/Sync/Trie.antt =====
-- packages/sync/src/reconciliation/merkle-trie.ts: the binary prefix trie over the hashes of edits.
pub mod Bits
pub mod Building
pub mod Ranges
use Prim.Native.Nat.{bit_xor}
use pokapali.Prelude.{
  ℕ, zero, suc, ◌+◌, ◌-◌, ◌/◌, ◌%◌, ◌^◌, Bool, true, false, not, Option, none, some, ◌>>=◌, List,
  [], ◌∷◌, ◌++◌, leb, ◌==◌, if◌then◌else◌,
}
use pokapali.Facts.Types.{Bytes}

-- `TrieNode | undefined`
pub data Trie : Type 0 where
  absent : Trie
  leaf : (hash : Bytes) → Trie
  internal : (fingerprint : Bytes) (edit_count : ℕ) (left : Trie) (right : Trie) → Trie

-- `hash[i]!` where it is only shifted, which reads a byte that is missing as 0.
unfoldable pub byte_at : Bytes → ℕ → ℕ
byte_at [] i = 0
byte_at (b ∷ bs) zero = b
byte_at (b ∷ bs) (suc i) = byte_at bs i

-- `getBit`: `true` is 1.
unfoldable pub get_bit : Bytes → ℕ → Bool
unfolding byte_at
get_bit hash i = byte_at hash (i / 8) / 2 ^ (7 - i % 8) % 2 == 1

abbrev pub same_bit : Bool → Bool → Bool
same_bit true b = b
same_bit false b = not b

-- A byte of `b` that is missing is xored as 0.
unfoldable pub xor_bytes : Bytes → Bytes → Bytes
xor_bytes [] ys = []
xor_bytes (x ∷ xs) [] = x ∷ xor_bytes xs []
xor_bytes (x ∷ xs) (y ∷ ys) = bit_xor x y ∷ xor_bytes xs ys

unfoldable pub zeros : ℕ → Bytes
zeros zero = []
zeros (suc n) = 0 ∷ zeros n

-- `ZERO_32`
abbrev pub zero_32 : Bytes
unfolding zeros
zero_32 = zeros 32

-- `left ? fingerprint(left) : ZERO_32`, and on a node `fingerprint`.
unfoldable pub fingerprint : Trie → Bytes
fingerprint absent = zero_32
fingerprint (leaf hash) = hash
fingerprint (internal fp n left right) = fp

-- `left ? editCount(left) : 0`, and on a node `editCount`.
unfoldable pub edit_count : Trie → ℕ
edit_count absent = 0
edit_count (leaf hash) = 1
edit_count (internal fp n left right) = n

unfoldable pub build_internal : Trie → Trie → Trie
unfolding xor_bytes fingerprint edit_count
build_internal left right =
    internal (xor_bytes (fingerprint left) (fingerprint right)) (edit_count left + edit_count right)
      left right

unfoldable pub bytes_equal : Bytes → Bytes → Bool
bytes_equal [] [] = true
bytes_equal [] (y ∷ ys) = false
bytes_equal (x ∷ xs) [] = false
bytes_equal (x ∷ xs) (y ∷ ys) = let rest = bytes_equal xs ys in if x == y then rest else false

-- `none` is the recursion that does not end: no bit tells the hashes apart.
unfoldable pub split_leaf : ℕ → Bytes → Bytes → ℕ → Option Trie
unfolding build_internal get_bit
split_leaf zero existing new_hash depth = none
split_leaf (suc fuel) existing new_hash depth =
    let deeper = split_leaf fuel existing new_hash (suc depth) in
    elim (get_bit existing depth) [
      | false ↦ elim (get_bit new_hash depth) [
        | false ↦ do child ← deeper; some (build_internal child absent)
        | true ↦ some (build_internal (leaf existing) (leaf new_hash))
      ]
      | true ↦ elim (get_bit new_hash depth) [
        | false ↦ some (build_internal (leaf new_hash) (leaf existing))
        | true ↦ do child ← deeper; some (build_internal absent child)
      ]
    ]

-- The fuel of `splitLeaf`: the bits of a hash, after which no other can tell two hashes apart.
abbrev pub hash_bits : ℕ
hash_bits = 256

-- `child === undefined ? makeLeaf(hash) : insert(child, hash, depth + 1)`, and on a node `insert`.
unfoldable pub insert : Trie → Bytes → ℕ → Option Trie
unfolding bytes_equal split_leaf get_bit build_internal
insert absent hash depth = some (leaf hash)
insert (leaf old) hash depth =
    if bytes_equal old hash then some (leaf old) else split_leaf hash_bits old hash depth
insert (internal fp n left right) hash depth =
    let into_left = insert left hash (suc depth) in
    let into_right = insert right hash (suc depth) in
    elim (get_bit hash depth) [
      | false ↦ do child ← into_left; some (build_internal child right)
      | true ↦ do child ← into_right; some (build_internal left child)
    ]

-- `emptyInternal`
abbrev pub empty_internal : Trie
unfolding zeros
empty_internal = internal zero_32 0 absent absent

unfoldable pub insert_all : Trie → List Bytes → Option Trie
unfolding insert
insert_all root [] = some root
insert_all root (hash ∷ hashes) = elim (insert root hash 0) [
  | none ↦ none
  | some next ↦ insert_all next hashes
]

unfoldable pub build_trie : List Bytes → Option Trie
unfolding insert_all
build_trie [] = some empty_internal
build_trie (hash ∷ hashes) = insert_all (leaf hash) hashes

-- `descend`'s loop on a leaf: do `count` bits from `depth` on agree?
unfoldable pub same_bits : ℕ → ℕ → Bytes → Bytes → Bool
unfolding get_bit
same_bits zero depth hash prefix = true
same_bits (suc count) depth hash prefix =
    let rest = same_bits count (suc depth) hash prefix in
    if same_bit (get_bit hash depth) (get_bit prefix depth) then rest else false

unfoldable pub descend : Trie → Bytes → (target current : ℕ) → Trie
unfolding same_bits get_bit
descend absent prefix target current = absent
descend (leaf hash) prefix target current =
    if leb target current
    then leaf hash
    else if same_bits (target - current) current hash prefix
    then leaf hash
    else absent
descend (internal fp n left right) prefix target current =
    let in_left = descend left prefix target (suc current) in
    let in_right = descend right prefix target (suc current) in
    if leb target current
    then internal fp n left right
    else if get_bit prefix current
    then in_right
    else in_left

unfoldable pub gather : Trie → List Bytes
gather absent = []
gather (leaf hash) = hash ∷ []
gather (internal fp n left right) = gather left ++ gather right

unfoldable pub collect_hashes : Trie → Bytes → ℕ → List Bytes
unfolding descend gather
collect_hashes trie prefix depth = gather (descend trie prefix depth 0)

unfoldable pub query_prefix : Trie → Bytes → ℕ → Bytes × ℕ
unfolding descend fingerprint edit_count
query_prefix trie prefix depth =
    let node = descend trie prefix depth 0 in (fingerprint node, edit_count node)

-- `filter`
unfoldable pub select : (Bytes → Bool) → List Bytes → List Bytes
select f [] = []
select f (x ∷ xs) = let rest = select f xs in if f x then x ∷ rest else rest
