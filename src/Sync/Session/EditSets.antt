-- ===== src/Sync/Session/EditSets.antt =====
-- packages/sync/src/reconciliation/session.ts: what the answer to a set of hashes sends.
use mathlib.Core.Bool.{false≢true}
use pokapali.Prelude.{
  ◌/◌, ◌%◌, ◌≡◌, refl, sym, ap, ap₂, ◌∙◌, subst, inl, inr, Bool, true, false, not, some, List, [],
  ◌∷◌, map, if◌then◌else◌, Bool-cases, ◌===◌, set_has, arith,
}
use pokapali.Facts.Types.{Bytes}
use pokapali.Wire.{All}
use pokapali.Sync.Messages.{Edit, edit_batch}
use pokapali.Sync.Trie.{Trie, gather, collect_hashes, same_bits, select}
use pokapali.Sync.Trie.Bits.{bytes_eq, bytes_equal_iff, IsHash}
use pokapali.Sync.Trie.Building.{IsTrie}
use pokapali.Sync.Trie.Building.Inserting.{build_trie-builds}
use pokapali.Sync.Trie.Ranges.{in_range, collect_hashes-in_range}
use pokapali.Sync.Session.{
  Query, Session, hex_hash, as_edit, edits_to_send, message, handle_edit_set,
}

hex_hash_inj : (a b : Bytes) → hex_hash a ≡ hex_hash b → a ≡ b
unfolding hex_hash
hex_hash_inj [] [] h = refl
hex_hash_inj [] (y ∷ ys) h = cc
hex_hash_inj (x ∷ xs) [] h = cc
hex_hash_inj (x ∷ xs) (y ∷ ys) h =
    let high : x / 16 ≡ y / 16 = cc in
    let low : x % 16 ≡ y % 16 = cc in
    let rest : hex_hash xs ≡ hex_hash ys = cc in ap₂ ◌∷◌ (omega arith) (hex_hash_inj xs ys rest)

===-hex_hash : (a b : Bytes) → (hex_hash a === hex_hash b) ≡ (a === b)
===-hex_hash a b = elim (Bool-cases (a === b)) [
  | inl e ↦ rw e ((bytes_equal_iff _ _).1 (ap hex_hash ((bytes_equal_iff a b).0 e)))
  | inr e ↦ elim (Bool-cases (hex_hash a === hex_hash b)) [
    | inr g ↦ g ∙ sym e
    | inl g ↦
        let same = hex_hash_inj a b ((bytes_equal_iff _ _).0 g) in
        absurd (false≢true (sym e ∙ (bytes_equal_iff a b).1 same))
  ]
]

set_has-hex_hash :
    (x : Bytes) (xs : List Bytes) → set_has (hex_hash x) (map hex_hash xs) ≡ set_has x xs
unfolding set_has map
set_has-hex_hash x [] = refl
set_has-hex_hash x (y ∷ ys) = rw (===-hex_hash y x, set_has-hex_hash x ys) refl

set_has-select :
    (f : Bytes → Bool) (x : Bytes) (xs : List Bytes)
    → set_has x (select f xs) ≡ (if f x then set_has x xs else false)
unfolding set_has select
set_has-select f x [] = elim (Bool-cases (f x)) [ inl h ↦ rw h refl | inr h ↦ rw h refl ]
set_has-select f x (y ∷ ys) =
    let ih = set_has-select f x ys in
    elim (Bool-cases (f y)) [
      | inl h ↦ rw h (elim (Bool-cases (y === x)) [
        | inl e ↦ rw (e, subst (λ z. f z ≡ true) ((bytes_equal_iff y x).0 e) h) refl
        | inr e ↦ rw e ih
      ])
      | inr h ↦ rw h (elim (Bool-cases (y === x)) [
        | inl e ↦
            let g = subst (λ z. f z ≡ false) ((bytes_equal_iff y x).0 e) h in rw g (rw g at ih)
        | inr e ↦ rw e ih
      ])
    ]

abbrev pub payloads : List Edit → List Bytes
payloads es = map (λ e. e.payload) es

payloads-as_edit : (hs : List Bytes) → payloads (map as_edit hs) ≡ hs
unfolding map
payloads-as_edit [] = refl
payloads-as_edit (h ∷ hs) = ap (◌∷◌ h) (payloads-as_edit hs)

pub range :
    (root : Trie) (q : Query) (x : Bytes)
    → IsTrie 0 root
    → set_has x (collect_hashes root q.prefix q.depth)
      ≡ (if same_bits q.depth 0 x q.prefix then set_has x (gather root) else false)
unfolding in_range
range root q x h =
    ap (set_has x) (collect_hashes-in_range root q.prefix q.depth h)
    ∙ set_has-select (λ y. same_bits q.depth 0 y q.prefix) x (gather root)

-- A session whose local hashes are SHA-256 digests always answers a set of hashes, with edits that
-- name exactly the local hashes that start with the prefix and that the set lacks.
pub handle_edit_set-sends :
    (Float : Type 0) (s : Session) (q : Query) (remote : List Bytes)
    → All IsHash s.local_hashes
    → (es : List Edit) × (handle_edit_set Float s q remote
        ≡ some (s, message (edit_batch s.channel es)))
      × ((x : Bytes)
          → set_has x (payloads es) ≡ (
              if not (set_has x remote)
              then (if same_bits q.depth 0 x q.prefix then set_has x s.local_hashes else false)
              else false))
unfolding handle_edit_set edits_to_send
handle_edit_set-sends Float s q remote h =
    let (root, e, trie, law) = build_trie-builds s.local_hashes h in
    let here = collect_hashes root q.prefix q.depth in
    (
      edits_to_send remote here,
      rw (handle_edit_set, e) refl,
      λ x.
          ap (set_has x) (payloads-as_edit _)
          ∙ set_has-select _ x here
          ∙ ap₂ (λ b c. if not b then c else false) (set_has-hex_hash x remote)
              (range root q x trie
                ∙ ap (λ c. if same_bits q.depth 0 x q.prefix then c else false) (law x)),
    )
