-- ===== src/Sync/Trie/Ranges.antt =====
-- packages/sync/src/reconciliation/merkle-trie.ts: what a prefix of a trie holds.
use pokapali.Prelude.{
  ℕ, suc, ◌+◌, ◌-◌, ◌≡◌, refl, sym, ap, ap₂, ◌∙◌, inl, inr, Bool, true, false, not, List, [], ◌∷◌,
  ◌++◌, append-nil, length, length-append, leb, leb→le, if◌then◌else◌, Bool-cases, arith,
}
use pokapali.Facts.Types.{Bytes}
use pokapali.Sync.Trie.{
  Trie, absent, leaf, internal, get_bit, edit_count, same_bit, same_bits, descend, gather,
  collect_hashes, query_prefix, select,
}
use pokapali.Sync.Trie.Bits.{bytes_eq}
use pokapali.Sync.Trie.Building.{Has, Has-right, Has-head, IsTrie}

-- The hashes whose first `depth` bits are those of the prefix.
unfoldable pub in_range : Bytes → ℕ → List Bytes → List Bytes
unfolding same_bits
in_range prefix depth hashes = select (λ h. same_bits depth 0 h prefix) hashes

select-append :
    (f : Bytes → Bool) (xs ys : List Bytes) → select f (xs ++ ys) ≡ select f xs ++ select f ys
unfolding select
select-append f [] ys = refl
select-append f (x ∷ xs) ys = elim (Bool-cases (f x)) [
  | inl h ↦ rw h (ap (◌∷◌ x) (select-append f xs ys))
  | inr h ↦ rw h (select-append f xs ys)
]

select_same :
    (f g : Bytes → Bool) (xs : List Bytes)
    → ((x : Bytes) → Has x xs → f x ≡ g x)
    → select f xs ≡ select g xs
unfolding select
select_same f g [] h = refl
select_same f g (x ∷ xs) h =
    let rest = select_same f g xs (λ y k. h y (Has-right y (x ∷ []) xs k)) in
    rw (h x (Has-head x xs), rest) refl

select_none :
    (f : Bytes → Bool) (xs : List Bytes) → ((x : Bytes) → Has x xs → f x ≡ false) → select f xs ≡ []
unfolding select
select_none f [] h = refl
select_none f (x ∷ xs) h =
    rw (h x (Has-head x xs)) (select_none f xs (λ y k. h y (Has-right y (x ∷ []) xs k)))

select_all : (f : Bytes → Bool) (xs : List Bytes) → ((x : Bytes) → f x ≡ true) → select f xs ≡ xs
unfolding select
select_all f [] h = refl
select_all f (x ∷ xs) h = rw (h x) (ap (◌∷◌ x) (select_all f xs h))

same_bit_refl : (b : Bool) → same_bit b b ≡ true
same_bit_refl true = refl
same_bit_refl false = refl

same_bit-not : (b : Bool) → same_bit (not b) b ≡ false
same_bit-not true = refl
same_bit-not false = refl

abbrev In : Bytes → (target current : ℕ) → Bytes → Bool
In prefix target current h = same_bits (target - current) current h prefix

-- At the depth or below it, all is in range.
In-done :
    (prefix : Bytes) (target current : ℕ)
    → leb target current ≡ true
    → (h : Bytes) → In prefix target current h ≡ true
unfolding same_bits
In-done prefix target current e h =
    let le = leb→le target current e in
    let stop : target - current ≡ 0 = omega arith in rw stop refl

-- One bit above it, a hash is in range by its bit and the bits below.
In-next :
    (prefix : Bytes) (target current : ℕ)
    → leb target current ≡ false
    → (h : Bytes)
    → In prefix target current h ≡ (
        if same_bit (get_bit h current) (get_bit prefix current)
        then In prefix target (suc current) h
        else false)
unfolding same_bits
In-next prefix target current e h =
    let more : target - current ≡ suc (target - suc current) = ground arith in
    rw (more, same_bits) refl

descend-side :
    (fp : Bytes) (n : ℕ) (left right : Trie) (prefix : Bytes) (target current : ℕ) (b : Bool)
    → leb target current ≡ false
    → get_bit prefix current ≡ b
    → descend (internal fp n left right) prefix target current ≡ (
        if b
        then descend right prefix target (suc current)
        else descend left prefix target (suc current))
unfolding descend
descend-side fp n left right prefix target current b e q = rw (descend, e, q) refl

-- The hashes on the side of the prefix are in range by the bits below; none on the other side is.
same_side :
    (prefix : Bytes) (target current : ℕ) (b : Bool) (hs : List Bytes)
    → leb target current ≡ false
    → get_bit prefix current ≡ b
    → ((x : Bytes) → Has x hs → get_bit x current ≡ b)
    → select (In prefix target current) hs ≡ select (In prefix target (suc current)) hs
same_side prefix target current b hs e q h =
    select_same _ _ hs
      (λ x k. In-next prefix target current e x ∙ rw (h x k, q, same_bit_refl b) refl)

other_side :
    (prefix : Bytes) (target current : ℕ) (b : Bool) (hs : List Bytes)
    → leb target current ≡ false
    → get_bit prefix current ≡ b
    → ((x : Bytes) → Has x hs → get_bit x current ≡ not b)
    → select (In prefix target current) hs ≡ []
other_side prefix target current b hs e q h =
    select_none _ hs (λ x k. In-next prefix target current e x ∙ rw (h x k, q, same_bit-not b) refl)

gather_side :
    (fp : Bytes) (n : ℕ) (left right : Trie) (prefix : Bytes) (target current : ℕ) (b : Bool)
    → leb target current ≡ false
    → get_bit prefix current ≡ b
    → IsTrie current (internal fp n left right)
    → gather (
        if b
        then descend right prefix target (suc current)
        else descend left prefix target (suc current))
      ≡ select (In prefix target (suc current)) (gather (if b then right else left))
    → gather (descend (internal fp n left right) prefix target current)
      ≡ select (In prefix target current) (gather (internal fp n left right))
unfolding gather
gather_side fp n left right prefix target current false e q h ih =
    rw
      (
        descend-side fp n left right prefix target current false e q,
        select-append (In prefix target current) (gather left) (gather right),
        other_side prefix target current false (gather right) e q h.1,
        same_side prefix target current false (gather left) e q h.0,
        append-nil,
      )
      ih
gather_side fp n left right prefix target current true e q h ih =
    rw
      (
        descend-side fp n left right prefix target current true e q,
        select-append (In prefix target current) (gather left) (gather right),
        other_side prefix target current true (gather left) e q h.0,
        same_side prefix target current true (gather right) e q h.1,
      )
      ih

below :
    (b : Bool) (left right : Trie) (prefix : Bytes) (target current : ℕ)
    → gather (descend left prefix target (suc current))
      ≡ select (In prefix target (suc current)) (gather left)
    → gather (descend right prefix target (suc current))
      ≡ select (In prefix target (suc current)) (gather right)
    → gather (
        if b
        then descend right prefix target (suc current)
        else descend left prefix target (suc current))
      ≡ select (In prefix target (suc current)) (gather (if b then right else left))
below false left right prefix target current l r = l
below true left right prefix target current l r = r

gather-descend :
    (t : Trie) (prefix : Bytes) (target current : ℕ)
    → IsTrie current t
    → gather (descend t prefix target current) ≡ select (In prefix target current) (gather t)
unfolding descend gather select
gather-descend absent prefix target current h = refl
gather-descend (leaf hash) prefix target current h = elim (Bool-cases (leb target current)) [
  | inl e ↦ rw (descend, e, In-done prefix target current e hash) refl
  | inr e ↦ elim (Bool-cases (same_bits (target - current) current hash prefix)) [
    | inl g ↦ rw (descend, e, g) refl
    | inr g ↦ rw (descend, e, g) refl
  ]
]
gather-descend (internal fp n left right) prefix target current h =
    elim (Bool-cases (leb target current)) [
      | inl e ↦
          rw (descend, e)
            (sym (
              select_all (In prefix target current) (gather left ++ gather right)
                (In-done prefix target current e)))
      | inr e ↦
          gather_side fp n left right prefix target current (get_bit prefix current) e refl h (
            below (get_bit prefix current) left right prefix target current
              (gather-descend left prefix target (suc current) h.2)
              (gather-descend right prefix target (suc current) h.3))
    ]

-- In a sound trie, the hashes below a prefix are those whose first bits are the prefix's, in the
-- order of the trie.
pub collect_hashes-in_range :
    (t : Trie) (prefix : Bytes) (depth : ℕ)
    → IsTrie 0 t
    → collect_hashes t prefix depth ≡ in_range prefix depth (gather t)
unfolding collect_hashes in_range
collect_hashes-in_range t prefix depth h =
    let whole : depth - 0 ≡ depth = omega arith in
    gather-descend t prefix depth 0 h
    ∙ ap (λ n. select (λ x. same_bits n 0 x prefix) (gather t)) whole

-- A node's count is the number of the hashes below it.
edit_count-gather : (t : Trie) (d : ℕ) → IsTrie d t → edit_count t ≡ length (gather t)
unfolding edit_count gather
edit_count-gather absent d h = refl
edit_count-gather (leaf hash) d h = refl
edit_count-gather (internal fp n left right) d h =
    h.5
    ∙ ap₂ ◌+◌ (edit_count-gather left (suc d) h.2) (edit_count-gather right (suc d) h.3)
    ∙ sym (length-append (gather left) (gather right))

descend-IsTrie :
    (t : Trie) (prefix : Bytes) (target current : ℕ)
    → IsTrie current t
    → (d : ℕ) × IsTrie d (descend t prefix target current)
unfolding descend
descend-IsTrie absent prefix target current h = (current, tt)
descend-IsTrie (leaf hash) prefix target current h = elim (Bool-cases (leb target current)) [
  | inl e ↦ (current, rw (descend, e) h)
  | inr e ↦ elim (Bool-cases (same_bits (target - current) current hash prefix)) [
    | inl g ↦ (current, rw (descend, e, g) h)
    | inr g ↦ (current, rw (descend, e, g) tt)
  ]
]
descend-IsTrie (internal fp n left right) prefix target current h =
    elim (Bool-cases (leb target current)) [
      | inl e ↦ (current, rw (descend, e) h)
      | inr e ↦ elim (Bool-cases (get_bit prefix current)) [
        | inl g ↦
            let (d, k) = descend-IsTrie right prefix target (suc current) h.3 in
            (d, rw (descend, e, g) k)
        | inr g ↦
            let (d, k) = descend-IsTrie left prefix target (suc current) h.2 in
            (d, rw (descend, e, g) k)
      ]
    ]

-- In a sound trie, the count that a query of a prefix answers is the number of its hashes whose
-- first bits are the prefix's.
pub query_prefix-counts :
    (t : Trie) (prefix : Bytes) (depth : ℕ)
    → IsTrie 0 t
    → (query_prefix t prefix depth).1 ≡ length (in_range prefix depth (gather t))
unfolding query_prefix collect_hashes
query_prefix-counts t prefix depth h =
    let (d, k) = descend-IsTrie t prefix depth 0 h in
    edit_count-gather (descend t prefix depth 0) d k
    ∙ ap length (collect_hashes-in_range t prefix depth h)
