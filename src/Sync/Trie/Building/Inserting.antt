-- ===== src/Sync/Trie/Building/Inserting.antt =====
-- packages/sync/src/reconciliation/merkle-trie.ts: `insert` and `buildTrie`.
use pokapali.Prelude.{
  ℕ, suc, ◌≡◌, refl, sym, ap, ◌∙◌, subst, inl, inr, Bool, true, false, Option, some, ◌>>=◌, List,
  [], ◌∷◌, if◌then◌else◌, either_false, either_assoc, either_swap, Bool-cases, ◌===◌, set_has, ltb,
  ltb→lt, arith,
}
use pokapali.Facts.Types.{Bytes}
use pokapali.Wire.{All}
use pokapali.Sync.Trie.{
  Trie, absent, leaf, internal, get_bit, xor_bytes, fingerprint, edit_count, build_internal,
  bytes_equal, split_leaf, hash_bits, insert, empty_internal, insert_all, build_trie, gather,
}
use pokapali.Sync.Trie.Bits.{bytes_eq, bytes_equal_iff, IsHash, Agrees}
use pokapali.Sync.Trie.Building.{
  Has, IsTrie, Inserted, no_bit, Adds-bit, build_internal-IsTrie, With-left, With-right, Has-head,
  Has-left, Has-right,
}
use pokapali.Sync.Trie.Building.Splitting.{split_leaf-Inserted, With-same, told_apart}

insert-leaf_same :
    (old hash : Bytes) (d : ℕ)
    → bytes_equal old hash ≡ true
    → insert (leaf old) hash d ≡ some (leaf old)
unfolding insert
insert-leaf_same old hash d e = rw (insert, e) refl

insert-leaf_split :
    (old hash : Bytes) (d : ℕ)
    → bytes_equal old hash ≡ false
    → insert (leaf old) hash d ≡ split_leaf hash_bits old hash d
unfolding insert
insert-leaf_split old hash d e = rw (insert, e) refl

Has-one : (h : Bytes) → Has h (h ∷ [])
Has-one h = Has-head h []

insert_leaf-Inserted :
    (old hash : Bytes) (d : ℕ)
    → IsHash old
    → IsHash hash
    → Agrees d old hash
    → Inserted d hash (leaf old) (insert (leaf old) hash d)
unfolding gather
insert_leaf-Inserted old hash d h q agree = elim (Bool-cases (bytes_equal old hash)) [
  | inl e ↦
      let has = subst (λ y. Has y (old ∷ [])) ((bytes_equal_iff old hash).0 e) (Has-one old) in
      (leaf old, insert-leaf_same old hash d e, h, With-same hash (old ∷ []) has)
  | inr e ↦
      subst (Inserted d hash (leaf old)) (sym (insert-leaf_split old hash d e))
        (split_leaf-Inserted hash_bits old hash d h q (told_apart old hash d h q agree e))
]

-- `insert` on a node, by the bit of the hash.
abbrev child_at : Trie → Trie → Bytes → ℕ → Bool → Option Trie
child_at left right hash depth false = do
  child ← insert left hash (suc depth)
  some (build_internal child right)
child_at left right hash depth true = do
  child ← insert right hash (suc depth)
  some (build_internal left child)

insert-child :
    (fp : Bytes) (n : ℕ) (left right : Trie) (hash : Bytes) (d : ℕ) (b : Bool)
    → get_bit hash d ≡ b
    → insert (internal fp n left right) hash d ≡ child_at left right hash d b
unfolding insert
insert-child fp n left right hash d false p = rw (insert, p) refl
insert-child fp n left right hash d true p = rw (insert, p) refl

-- Agreement with all of a side, on one bit more.
Agrees-more :
    (d : ℕ) (x hash : Bytes) (b : Bool)
    → Agrees d x hash
    → get_bit x d ≡ b
    → get_bit hash d ≡ b
    → Agrees (suc d) x hash
Agrees-more d x hash b agree p q i k = elim (Bool-cases (ltb i d)) [
  | inl l ↦ agree i (ltb→lt i d l)
  | inr l ↦
      let last : i ≡ d = ground arith in
      subst (λ j. get_bit x j ≡ get_bit hash j) (sym last) (p ∙ sym q)
]

child_at-Inserted :
    (fp : Bytes) (n : ℕ) (left right : Trie) (hash : Bytes) (d : ℕ) (b : Bool)
    → get_bit hash d ≡ b
    → IsTrie d (internal fp n left right)
    → (b ≡ false → Inserted (suc d) hash left (insert left hash (suc d)))
    → (b ≡ true → Inserted (suc d) hash right (insert right hash (suc d)))
    → Inserted d hash (internal fp n left right) (child_at left right hash d b)
unfolding gather build_internal
child_at-Inserted fp n left right hash d false q h ih ih' =
    let (child, e, trie, adds) = ih refl in
    (
      build_internal child right,
      rw (e, ◌>>=◌) refl,
      build_internal-IsTrie d child right (Adds-bit hash d false left child adds q h.0) h.1 trie
          h.3,
      With-left hash (gather left) (gather child) (gather right) adds,
    )
child_at-Inserted fp n left right hash d true q h ih ih' =
    let (child, e, trie, adds) = ih' refl in
    (
      build_internal left child,
      rw (e, ◌>>=◌) refl,
      build_internal-IsTrie d left child h.0 (Adds-bit hash d true right child adds q h.1) h.2 trie,
      With-right hash (gather right) (gather child) (gather left) adds,
    )

insert_absent-Inserted :
    (hash : Bytes) (d : ℕ) → IsHash hash → Inserted d hash absent (insert absent hash d)
unfolding insert gather set_has
insert_absent-Inserted hash d q = (leaf hash, refl, q, λ x. refl)

-- An insertion of a hash into a trie whose hashes agree with it on the bits above.
insert-Inserted :
    (t : Trie) (hash : Bytes) (d : ℕ)
    → IsTrie d t
    → IsHash hash
    → ((x : Bytes) → Has x (gather t) → Agrees d x hash)
    → Inserted d hash t (insert t hash d)
unfolding gather
insert-Inserted absent hash d h q agree = insert_absent-Inserted hash d q
insert-Inserted (leaf old) hash d h q agree =
    insert_leaf-Inserted old hash d h q (agree old (Has-one old))
insert-Inserted (internal fp n left right) hash d h q agree =
    subst (Inserted d hash (internal fp n left right))
      (sym (insert-child fp n left right hash d (get_bit hash d) refl))
      (child_at-Inserted fp n left right hash d (get_bit hash d) refl h
        (λ b.
          insert-Inserted left hash (suc d) h.2 q
            (λ x has. Agrees-more d x hash false (agree x (Has-left x _ _ has)) (h.0 x has) b))
        (λ b.
          insert-Inserted right hash (suc d) h.3 q
            (λ x has. Agrees-more d x hash true (agree x (Has-right x _ _ has)) (h.1 x has) b)))

Built : Trie → List Bytes → Option Trie → Type 0
Built root hashes result =
    (t : Trie) × (result ≡ some t)
    × IsTrie 0 t
    × ((x : Bytes)
        → set_has x (gather t) ≡ (if set_has x (gather root) then true else set_has x hashes))

insert_all-Built :
    (root : Trie) (hashes : List Bytes)
    → IsTrie 0 root
    → All IsHash hashes
    → Built root hashes (insert_all root hashes)
unfolding insert_all set_has Built
insert_all-Built root [] h all = (root, refl, h, λ x. sym (either_false (set_has x (gather root))))
insert_all-Built root (hash ∷ hashes) h all =
    let (next, e, trie, adds) =
      insert-Inserted root hash 0 h all.0 (λ x has i k. absurd (omega arith)) in
    let (t, e', trie', law) = insert_all-Built next hashes trie all.1 in
    (
      t,
      rw (insert_all, e) e',
      trie',
      λ x.
          law x
          ∙ ap (λ b. if b then true else set_has x hashes) (adds x)
          ∙ either_assoc (hash === x) (set_has x (gather root)) (set_has x hashes)
          ∙ either_swap (hash === x) (set_has x (gather root)) (set_has x hashes),
    )

empty_internal-IsTrie : IsTrie 0 empty_internal
unfolding gather xor_bytes fingerprint edit_count empty_internal
empty_internal-IsTrie = (no_bit 0 false, no_bit 0 true, tt, tt, refl, refl)

-- `buildTrie` ends on any SHA-256 digests: it builds a sound trie, of exactly those hashes.
pub build_trie-builds :
    (hashes : List Bytes)
    → All IsHash hashes
    → (t : Trie) × (build_trie hashes ≡ some t)
      × IsTrie 0 t
      × ((x : Bytes) → set_has x (gather t) ≡ set_has x hashes)
unfolding build_trie gather set_has Built empty_internal
build_trie-builds [] h = (empty_internal, refl, empty_internal-IsTrie, λ x. refl)
build_trie-builds (hash ∷ hashes) h =
    let (t, e, trie, law) = insert_all-Built (leaf hash) hashes h.0 h.1 in
    (t, e, trie, λ x. law x ∙ either_assoc (hash === x) false (set_has x hashes))
