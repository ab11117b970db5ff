-- ===== src/FingerTree/Ends.antt =====
-- packages/finger-tree/src/tree.ts: what taking an element from an end of a tree does to the sequence
-- of its elements.
use pokapali.Prelude.{ℕ, suc, ◌≡◌, refl, Option, none, some, List, [], ◌++◌, append_laws}
use pokapali.FingerTree.Types.{
  Measured, node2, node3, Digit, one, two, three, four, Elem, FingerTree, empty, single, deep,
  node_measured,
}
use pokapali.FingerTree.Tree.{digit_to_tree, node_to_digit, deep_l, deep_r, viewl, viewr}
use pokapali.FingerTree.Fold.{iterate_element, iterate_digit, iterate_tree}

module _ {ℓ} (V : Type ℓ) {A : Type ℓ} where
  -- The elements of a digit that may be missing.
  abbrev opt_list : (n : ℕ) → Option (Digit (Elem V A n)) → List A
  opt_list n none = []
  opt_list n (some d) = iterate_digit V n d

module _ {ℓ} {V A : Type ℓ} where
  -- The elements that a view from the left shows.
  abbrev pub viewl_list : (n : ℕ) → Option (Elem V A n × FingerTree V A n) → List A
  viewl_list n none = []
  viewl_list n (some (h, t)) = iterate_element V n h ++ iterate_tree n t

  abbrev pub viewr_list : (n : ℕ) → Option (FingerTree V A n × Elem V A n) → List A
  viewr_list n none = []
  viewr_list n (some (i, l)) = iterate_tree n i ++ iterate_element V n l

  iterate_tree-digit_to_tree :
      (n : ℕ) (m : Measured V (Elem V A n)) (d : Digit (Elem V A n))
      → iterate_tree n (digit_to_tree m d) ≡ iterate_digit V n d
  unfolding digit_to_tree iterate_tree
  iterate_tree-digit_to_tree n m (one a) = simp append_laws
  iterate_tree-digit_to_tree n m (two a b) = simp append_laws
  iterate_tree-digit_to_tree n m (three a b c) = simp append_laws
  iterate_tree-digit_to_tree n m (four a b c d) = simp append_laws

  pub iterate_digit-node_to_digit :
      (n : ℕ) (x : Elem V A (suc n))
      → iterate_digit V n (node_to_digit x) ≡ iterate_element V (suc n) x
  unfolding node_to_digit iterate_digit
  iterate_digit-node_to_digit n (node2 v a b) = refl
  iterate_digit-node_to_digit n (node3 v a b c) = refl

  iterate_tree-deep_l :
      (n : ℕ) (m : Measured V (Elem V A n)) (o : Option (Digit (Elem V A n)))
      (mid : FingerTree V A (suc n)) (sf : Digit (Elem V A n))
      (w : Option (Elem V A (suc n) × FingerTree V A (suc n)))
      → viewl_list (suc n) w ≡ iterate_tree (suc n) mid
      → iterate_tree n (deep_l m o mid sf w)
        ≡ opt_list V n o ++ (iterate_tree (suc n) mid ++ iterate_digit V n sf)
  unfolding deep_l iterate_tree
  iterate_tree-deep_l n m (some pr) mid sf w h = refl
  iterate_tree-deep_l n m none mid sf none h = simp (iterate_tree-digit_to_tree n m sf, ← h)
  iterate_tree-deep_l n m none mid sf (some (hd, tl)) h =
      simp (← h, append_laws, iterate_digit-node_to_digit n hd)

  pub viewl_list-viewl :
      (n : ℕ) (m : Measured V (Elem V A n)) (t : FingerTree V A n)
      → viewl_list n (viewl m t) ≡ iterate_tree n t
  unfolding viewl iterate_tree
  viewl_list-viewl n m empty = refl
  viewl_list-viewl n m (single a) = simp append_laws
  viewl_list-viewl n m (deep v (one a) mid sf) = simp (
    iterate_tree-deep_l n m none mid sf (viewl (node_measured m) mid)
        (viewl_list-viewl (suc n) (node_measured m) mid),
    append_laws,
  )
  viewl_list-viewl n m (deep v (two a b) mid sf) = simp append_laws
  viewl_list-viewl n m (deep v (three a b c) mid sf) = simp append_laws
  viewl_list-viewl n m (deep v (four a b c d) mid sf) = simp append_laws

  iterate_tree-deep_r :
      (n : ℕ) (m : Measured V (Elem V A n)) (pr : Digit (Elem V A n)) (mid : FingerTree V A (suc n))
      (o : Option (Digit (Elem V A n))) (w : Option (FingerTree V A (suc n) × Elem V A (suc n)))
      → viewr_list (suc n) w ≡ iterate_tree (suc n) mid
      → iterate_tree n (deep_r m pr mid o w)
        ≡ iterate_digit V n pr ++ (iterate_tree (suc n) mid ++ opt_list V n o)
  unfolding deep_r iterate_tree
  iterate_tree-deep_r n m pr mid (some sf) w h = refl
  iterate_tree-deep_r n m pr mid none none h =
      simp (iterate_tree-digit_to_tree n m pr, ← h, append_laws)
  iterate_tree-deep_r n m pr mid none (some (i, l)) h =
      simp (← h, append_laws, iterate_digit-node_to_digit n l)

  pub viewr_list-viewr :
      (n : ℕ) (m : Measured V (Elem V A n)) (t : FingerTree V A n)
      → viewr_list n (viewr m t) ≡ iterate_tree n t
  unfolding viewr iterate_tree
  viewr_list-viewr n m empty = refl
  viewr_list-viewr n m (single a) = refl
  viewr_list-viewr n m (deep v pr mid (one a)) = simp (
    iterate_tree-deep_r n m pr mid none (viewr (node_measured m) mid)
        (viewr_list-viewr (suc n) (node_measured m) mid),
    append_laws,
  )
  viewr_list-viewr n m (deep v pr mid (two a b)) = simp append_laws
  viewr_list-viewr n m (deep v pr mid (three a b c)) = simp append_laws
  viewr_list-viewr n m (deep v pr mid (four a b c d)) = simp append_laws
