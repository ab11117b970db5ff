-- ===== src/FingerTree/Concat.antt =====
-- packages/finger-tree/src/concat.ts: joining two trees. `none` is a throw.
use pokapali.Prelude.{ℕ, Option, none, some, List, [], ◌∷◌, ◌++◌, ◌>>=◌}
use pokapali.FingerTree.Types.{
  Measured, Node, Elem, FingerTree, empty, single, deep, mk_node2, mk_node3, node_measured,
  digit_to_array,
}
use pokapali.FingerTree.Tree.{cons, snoc, mk_deep}
use pokapali.FingerTree.Fold.{snoc_all}

-- Packs two or more elements into nodes. On fewer the source reads past the array: `none`.
module _ {ℓ} {V A : Type ℓ} where
  unfoldable pub nodes : Measured V A → List A → Option (List (Node V A))
  unfolding mk_node2 mk_node3
  nodes m [] = none
  nodes m (a ∷ []) = none
  nodes m (a ∷ b ∷ []) = some (mk_node2 m a b ∷ [])
  nodes m (a ∷ b ∷ c ∷ []) = some (mk_node3 m a b c ∷ [])
  nodes m (a ∷ b ∷ c ∷ d ∷ []) = some (mk_node2 m a b ∷ mk_node2 m c d ∷ [])
  nodes m (a ∷ b ∷ c ∷ rest) = do ns ← nodes m rest; some (mk_node3 m a b c ∷ ns)

module _ {ℓ} {V A : Type ℓ} where
  -- The loop for an empty left tree: from the last element of `mid` to the first
  unfoldable pub cons_all :
      {n : ℕ} → Measured V (Elem V A n) → List (Elem V A n) → FingerTree V A n → FingerTree V A n
  unfolding cons
  cons_all m [] t = t
  cons_all m (x ∷ xs) t = cons m x (cons_all m xs t)

  -- The two recursive calls that pass `empty()` are written as the loops that they enter.
  unfoldable pub app3 :
      {n : ℕ}
      → Measured V (Elem V A n)
      → FingerTree V A n
      → List (Elem V A n)
      → FingerTree V A n
      → Option (FingerTree V A n)
  unfolding cons_all snoc_all nodes mk_deep
  app3 m empty mid right = some (cons_all m mid right)
  app3 m (single a) mid empty = some (snoc_all m (single a) mid)
  app3 m (single a) mid (single b) = some (cons m a (cons_all m mid (single b)))
  app3 m (single a) mid (deep v pr md sf) = some (cons m a (cons_all m mid (deep v pr md sf)))
  app3 m (deep v pr md sf) mid empty = some (snoc_all m (deep v pr md sf) mid)
  app3 m (deep v pr md sf) mid (single b) = some (snoc m (snoc_all m (deep v pr md sf) mid) b)
  app3 m (deep v₁ pr₁ md₁ sf₁) mid (deep v₂ pr₂ md₂ sf₂) = do
    ns ← nodes m (digit_to_array sf₁ ++ (mid ++ digit_to_array pr₂))
    md ← app3 (node_measured m) md₁ ns md₂
    some (mk_deep m pr₁ md sf₂)

  unfoldable pub concat :
      {n : ℕ}
      → Measured V (Elem V A n)
      → FingerTree V A n
      → FingerTree V A n
      → Option (FingerTree V A n)
  unfolding app3
  concat m left right = app3 m left [] right
