-- ===== src/FingerTree/Tree.antt =====
-- packages/finger-tree/src/tree.ts: the ends of a tree. `log.debug` is left out.
use pokapali.Prelude.{ℕ, suc, Bool, true, false, Option, none, some}
use pokapali.FingerTree.Types.{
  Measured, Node, node2, node3, Digit, one, two, three, four, Elem, FingerTree, empty, single, deep,
  mk_node3, node_measured, digit_measure, digit_head, digit_tail, digit_last, digit_init,
}

module _ {ℓ} {A : Type ℓ} where
  -- Prepends to a digit that is not `four`; `none` is the throw "unreachable".
  unfoldable cons_digit_unsafe : A → Digit A → Option (Digit A)
  cons_digit_unsafe x (one a) = some (two x a)
  cons_digit_unsafe x (two a b) = some (three x a b)
  cons_digit_unsafe x (three a b c) = some (four x a b c)
  cons_digit_unsafe x (four a b c d) = none

  unfoldable snoc_digit_unsafe : Digit A → A → Option (Digit A)
  snoc_digit_unsafe (one a) x = some (two a x)
  snoc_digit_unsafe (two a b) x = some (three a b x)
  snoc_digit_unsafe (three a b c) x = some (four a b c x)
  snoc_digit_unsafe (four a b c d) x = none

module _ {ℓ} {V A : Type ℓ} where
  unfoldable pub node_to_digit : Node V A → Digit A
  node_to_digit (node2 v a b) = two a b
  node_to_digit (node3 v a b c) = three a b c

module _ {ℓ} {V A : Type ℓ} where
  unfoldable pub is_empty : {n : ℕ} → FingerTree V A n → Bool
  is_empty empty = true
  is_empty (single a) = false
  is_empty (deep v pr mid sf) = false

  unfoldable pub measure_tree : {n : ℕ} → Measured V (Elem V A n) → FingerTree V A n → V
  measure_tree m empty = m.monoid.empty
  measure_tree m (single a) = m.measure a
  measure_tree m (deep v pr mid sf) = v

  -- `deep` of tree.ts, which computes the cached measure
  unfoldable pub mk_deep :
      {n : ℕ}
      → Measured V (Elem V A n)
      → Digit (Elem V A n)
      → FingerTree V A (suc n)
      → Digit (Elem V A n)
      → FingerTree V A n
  unfolding measure_tree
  mk_deep m pr mid sf =
      deep
        (m.monoid.append (m.monoid.append (digit_measure m pr) (measure_tree (node_measured m) mid))
          (digit_measure m sf))
        pr mid sf

  -- The cases of `consDigitUnsafe` are written in place of its call.
  unfoldable pub cons :
      {n : ℕ} → Measured V (Elem V A n) → Elem V A n → FingerTree V A n → FingerTree V A n
  unfolding mk_deep mk_node3
  cons m a empty = single a
  cons m a (single b) = mk_deep m (one a) empty (one b)
  cons m a (deep v (one b) mid sf) = mk_deep m (two a b) mid sf
  cons m a (deep v (two b c) mid sf) = mk_deep m (three a b c) mid sf
  cons m a (deep v (three b c d) mid sf) = mk_deep m (four a b c d) mid sf
  cons m a (deep v (four b c d e) mid sf) =
      mk_deep m (two a b) (cons (node_measured m) (mk_node3 m c d e) mid) sf

  unfoldable pub snoc :
      {n : ℕ} → Measured V (Elem V A n) → FingerTree V A n → Elem V A n → FingerTree V A n
  unfolding mk_deep mk_node3
  snoc m empty a = single a
  snoc m (single b) a = mk_deep m (one b) empty (one a)
  snoc m (deep v pr mid (one b)) a = mk_deep m pr mid (two b a)
  snoc m (deep v pr mid (two b c)) a = mk_deep m pr mid (three b c a)
  snoc m (deep v pr mid (three b c d)) a = mk_deep m pr mid (four b c d a)
  snoc m (deep v pr mid (four b c d e)) a =
      mk_deep m pr (snoc (node_measured m) mid (mk_node3 m b c d)) (two e a)

  unfoldable pub digit_to_tree :
      {n : ℕ} → Measured V (Elem V A n) → Digit (Elem V A n) → FingerTree V A n
  unfolding mk_deep
  digit_to_tree m (one a) = single a
  digit_to_tree m (two a b) = mk_deep m (one a) empty (one b)
  digit_to_tree m (three a b c) = mk_deep m (two a b) empty (one c)
  digit_to_tree m (four a b c d) = mk_deep m (two a b) empty (two c d)

  -- `deepL` and `deepR`, given the view of the middle that they take
  unfoldable pub deep_l :
      {n : ℕ}
      → Measured V (Elem V A n)
      → Option (Digit (Elem V A n))
      → FingerTree V A (suc n)
      → Digit (Elem V A n)
      → Option (Elem V A (suc n) × FingerTree V A (suc n))
      → FingerTree V A n
  unfolding mk_deep digit_to_tree node_to_digit
  deep_l m (some pr) mid sf view = mk_deep m pr mid sf
  deep_l m none mid sf none = digit_to_tree m sf
  deep_l m none mid sf (some (head, tail)) = mk_deep m (node_to_digit head) tail sf

  unfoldable pub deep_r :
      {n : ℕ}
      → Measured V (Elem V A n)
      → Digit (Elem V A n)
      → FingerTree V A (suc n)
      → Option (Digit (Elem V A n))
      → Option (FingerTree V A (suc n) × Elem V A (suc n))
      → FingerTree V A n
  unfolding mk_deep digit_to_tree node_to_digit
  deep_r m pr mid (some sf) view = mk_deep m pr mid sf
  deep_r m pr mid none none = digit_to_tree m pr
  deep_r m pr mid none (some (init, last)) = mk_deep m pr init (node_to_digit last)

  unfoldable pub viewl :
      {n : ℕ} → Measured V (Elem V A n) → FingerTree V A n → Option (Elem V A n × FingerTree V A n)
  unfolding deep_l
  viewl m empty = none
  viewl m (single a) = some (a, empty)
  viewl m (deep v pr mid sf) =
      some (digit_head pr, deep_l m (digit_tail pr) mid sf (viewl (node_measured m) mid))

  unfoldable pub viewr :
      {n : ℕ} → Measured V (Elem V A n) → FingerTree V A n → Option (FingerTree V A n × Elem V A n)
  unfolding deep_r
  viewr m empty = none
  viewr m (single a) = some (empty, a)
  viewr m (deep v pr mid sf) =
      some (deep_r m pr mid (digit_init sf) (viewr (node_measured m) mid), digit_last sf)

  unfoldable head : {n : ℕ} → FingerTree V A n → Option (Elem V A n)
  head empty = none
  head (single a) = some a
  head (deep v pr mid sf) = some (digit_head pr)

  unfoldable pub last : {n : ℕ} → FingerTree V A n → Option (Elem V A n)
  last empty = none
  last (single a) = some a
  last (deep v pr mid sf) = some (digit_last sf)
