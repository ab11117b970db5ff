-- ===== src/FingerTree/Fold.antt =====
-- packages/finger-tree/src/fold.ts. An array that is pushed to is passed along and returned; a
-- generator is the list of what it yields.
use mathlib.Core.List
use pokapali.Prelude.{ℕ, zero, suc, List, [], ◌∷◌, ◌++◌, flat_map}
use pokapali.FingerTree.Types.{
  Measured, Digit, Elem, FingerTree, empty, single, deep, node_to_array, digit_to_array,
}
use pokapali.FingerTree.Tree.{snoc}

module _ {ℓ} (V : Type ℓ) {A : Type ℓ} where
  unfoldable pub push_element : (depth : ℕ) → Elem V A depth → List A → List A
  push_element zero x out = out ++ x ∷ []
  push_element (suc depth) x out =
      List.foldl (λ o child. push_element depth child o) out (node_to_array x)

  unfoldable pub push_digit_elements : (depth : ℕ) → Digit (Elem V A depth) → List A → List A
  unfolding push_element
  push_digit_elements depth d out =
      List.foldl (λ o x. push_element depth x o) out (digit_to_array d)

  unfoldable pub iterate_element : (depth : ℕ) → Elem V A depth → List A
  iterate_element zero x = x ∷ []
  iterate_element (suc depth) x = flat_map (iterate_element depth) (node_to_array x)

  unfoldable pub iterate_digit : (depth : ℕ) → Digit (Elem V A depth) → List A
  unfolding iterate_element
  iterate_digit depth d = flat_map (iterate_element depth) (digit_to_array d)

module _ {ℓ} {V A : Type ℓ} where
  unfoldable pub push_tree : (depth : ℕ) → FingerTree V A depth → List A → List A
  unfolding push_element push_digit_elements
  push_tree depth empty out = out
  push_tree depth (single a) out = push_element V depth a out
  push_tree depth (deep v pr mid sf) out =
      push_digit_elements V depth sf
        (push_tree (suc depth) mid (push_digit_elements V depth pr out))

  unfoldable pub to_array : FingerTree V A zero → List A
  unfolding push_tree
  to_array tree = push_tree zero tree []

  unfoldable pub iterate_tree : (depth : ℕ) → FingerTree V A depth → List A
  unfolding iterate_digit
  iterate_tree depth empty = []
  iterate_tree depth (single a) = iterate_element V depth a
  iterate_tree depth (deep v pr mid sf) =
      iterate_digit V depth pr ++ (iterate_tree (suc depth) mid ++ iterate_digit V depth sf)

  unfoldable pub iterate : FingerTree V A zero → List A
  unfolding iterate_tree
  iterate tree = iterate_tree zero tree

  -- The loop of `fromArray` from a tree `t`
  unfoldable pub snoc_all :
      {n : ℕ} → Measured V (Elem V A n) → FingerTree V A n → List (Elem V A n) → FingerTree V A n
  unfolding snoc
  snoc_all m t [] = t
  snoc_all m t (x ∷ xs) = snoc_all m (snoc m t x) xs

  unfoldable pub from_array :
      (n : ℕ) → Measured V (Elem V A n) → List (Elem V A n) → FingerTree V A n
  unfolding snoc_all
  from_array n m xs = snoc_all m empty xs

-- The loop of `foldr`, which runs down the indices
module _ {ℓ} {V A B : Type ℓ} where
  unfoldable foldr : FingerTree V A zero → (A → B → B) → B → B
  unfolding to_array
  foldr tree f z = List.foldr f z (to_array tree)

  unfoldable foldl : FingerTree V A zero → (B → A → B) → B → B
  unfolding to_array
  foldl tree f z = List.foldl f z (to_array tree)
