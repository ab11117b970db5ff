-- ===== src/FingerTree/Contents.antt =====
-- packages/finger-tree/src/tree.ts and fold.ts: what the operations on a tree do to the sequence of its elements.
use pokapali.Prelude.{ℕ, zero, suc, ◌≡◌, refl, List, [], ◌++◌, append_laws}
use pokapali.FingerTree.Types.{
  Measured, node2, node3, Digit, one, two, three, four, Elem, FingerTree, empty, single, deep,
  mk_node3, node_measured,
}
use pokapali.FingerTree.Tree.{cons, snoc}
use pokapali.FingerTree.Fold.{
  push_element, push_digit_elements, push_tree, to_array, iterate_element, iterate_digit,
  iterate_tree, iterate,
}

module _ {ℓ} (V : Type ℓ) {A : Type ℓ} where
  -- Pushing an element appends what the iterator yields for it.
  push_element-eq :
      (n : ℕ) (x : Elem V A n) (out : List A)
      → push_element V n x out ≡ out ++ iterate_element V n x
  unfolding push_element iterate_element
  push_element-eq zero x out = refl
  push_element-eq (suc n) (node2 v a b) out = simp (push_element-eq n, append_laws)
  push_element-eq (suc n) (node3 v a b c) out = simp (push_element-eq n, append_laws)

  push_digit_elements-eq :
      (n : ℕ) (d : Digit (Elem V A n)) (out : List A)
      → push_digit_elements V n d out ≡ out ++ iterate_digit V n d
  unfolding push_digit_elements iterate_digit
  push_digit_elements-eq n (one a) out = simp (push_element-eq n, append_laws)
  push_digit_elements-eq n (two a b) out = simp (push_element-eq n, append_laws)
  push_digit_elements-eq n (three a b c) out = simp (push_element-eq n, append_laws)
  push_digit_elements-eq n (four a b c d) out = simp (push_element-eq n, append_laws)

module _ {ℓ} {V A : Type ℓ} where
  pub push_tree-eq :
      (n : ℕ) (t : FingerTree V A n) (out : List A) → push_tree n t out ≡ out ++ iterate_tree n t
  unfolding push_tree iterate_tree
  push_tree-eq n empty out = simp append_laws
  push_tree-eq n (single a) out = push_element-eq V n a out
  push_tree-eq n (deep v pr mid sf) out =
      simp (push_digit_elements-eq V n, push_tree-eq (suc n) mid, append_laws)

  -- The array of a tree is what its iterator yields, in the same order.
  pub to_array-eq-iterate : (t : FingerTree V A zero) → to_array t ≡ iterate t
  unfolding to_array iterate
  to_array-eq-iterate t = push_tree-eq zero t []

  pub iterate_tree-cons :
      (n : ℕ) (m : Measured V (Elem V A n)) (a : Elem V A n) (t : FingerTree V A n)
      → iterate_tree n (cons m a t) ≡ iterate_element V n a ++ iterate_tree n t
  unfolding cons iterate_tree
  iterate_tree-cons n m a empty = simp append_laws
  iterate_tree-cons n m a (single b) = simp append_laws
  iterate_tree-cons n m a (deep v (one b) mid sf) = simp append_laws
  iterate_tree-cons n m a (deep v (two b c) mid sf) = simp append_laws
  iterate_tree-cons n m a (deep v (three b c d) mid sf) = simp append_laws
  iterate_tree-cons n m a (deep v (four b c d e) mid sf) =
      simp (iterate_tree-cons (suc n) (node_measured m) (mk_node3 m c d e) mid, append_laws)

  pub iterate_tree-snoc :
      (n : ℕ) (m : Measured V (Elem V A n)) (t : FingerTree V A n) (a : Elem V A n)
      → iterate_tree n (snoc m t a) ≡ iterate_tree n t ++ iterate_element V n a
  unfolding snoc iterate_tree
  iterate_tree-snoc n m empty a = refl
  iterate_tree-snoc n m (single b) a = simp append_laws
  iterate_tree-snoc n m (deep v pr mid (one b)) a = simp append_laws
  iterate_tree-snoc n m (deep v pr mid (two b c)) a = simp append_laws
  iterate_tree-snoc n m (deep v pr mid (three b c d)) a = simp append_laws
  iterate_tree-snoc n m (deep v pr mid (four b c d e)) a =
      simp (iterate_tree-snoc (suc n) (node_measured m) mid (mk_node3 m b c d), append_laws)
