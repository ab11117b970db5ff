-- ===== src/FingerTree/Joins.antt =====
-- packages/finger-tree/src/fold.ts and concat.ts: what building a tree from an array and joining two
-- trees do to the sequence of elements.
use pokapali.Prelude.{
  subst, some_inj, ℕ, suc, ◌≤◌, ◌≡◌, refl, some, List, [], ◌∷◌, ◌++◌, append_laws, flat_map,
  flat_map-append, length, length-append, arith,
}
use pokapali.FingerTree.Types.{
  Measured, Digit, one, two, three, four, Elem, FingerTree, empty, single, deep, mk_node3,
  node_measured, digit_to_array,
}
use pokapali.FingerTree.Tree.{mk_deep, snoc}
use pokapali.FingerTree.Fold.{iterate_element, iterate_tree, snoc_all, from_array}
use pokapali.FingerTree.Concat.{nodes, cons_all, app3}
use pokapali.FingerTree.Measures.{lift, AllValid, TreeValid, cons-TreeValid, snoc-TreeValid}
use pokapali.FingerTree.Contents.{iterate_tree-cons, iterate_tree-snoc}

module _ {ℓ} {A : Type ℓ} where
  pub length-digit_to_array :
      (d : Digit A) → (1 ≤ length (digit_to_array d)) × (length (digit_to_array d) ≤ 4)
  length-digit_to_array (one a) = omega arith
  length-digit_to_array (two a b) = omega arith
  length-digit_to_array (three a b c) = omega arith
  length-digit_to_array (four a b c d) = omega arith

  two_digits :
      (d e : Digit A) (xs : List A) → 2 ≤ length (digit_to_array d ++ (xs ++ digit_to_array e))
  two_digits d e xs =
      rw
        (
          length-append (digit_to_array d) (xs ++ digit_to_array e),
          length-append xs (digit_to_array e),
        )
        (omega (arith, length-digit_to_array d, length-digit_to_array e))

module _ {ℓ} {V A : Type ℓ} where
  iterate_tree-snoc_all :
      (n : ℕ) (m : Measured V (Elem V A n)) (t : FingerTree V A n) (xs : List (Elem V A n))
      → iterate_tree n (snoc_all m t xs) ≡ iterate_tree n t ++ flat_map (iterate_element V n) xs
  unfolding snoc_all
  iterate_tree-snoc_all n m t [] = simp append_laws
  iterate_tree-snoc_all n m t (x ∷ xs) =
      simp (iterate_tree-snoc_all n m (snoc m t x) xs, iterate_tree-snoc n m t x, append_laws)

  pub iterate_tree-from_array :
      (n : ℕ) (m : Measured V (Elem V A n)) (xs : List (Elem V A n))
      → iterate_tree n (from_array n m xs) ≡ flat_map (iterate_element V n) xs
  unfolding from_array iterate_tree
  iterate_tree-from_array n m xs = iterate_tree-snoc_all n m empty xs

  iterate_tree-cons_all :
      (n : ℕ) (m : Measured V (Elem V A n)) (xs : List (Elem V A n)) (t : FingerTree V A n)
      → iterate_tree n (cons_all m xs t) ≡ flat_map (iterate_element V n) xs ++ iterate_tree n t
  unfolding cons_all
  iterate_tree-cons_all n m [] t = refl
  iterate_tree-cons_all n m (x ∷ xs) t =
      simp (iterate_tree-cons n m x (cons_all m xs t), iterate_tree-cons_all n m xs t, append_laws)

  -- Two elements or more are packed into nodes that hold them in order.
  nodes-some :
      (n : ℕ) (m : Measured V (Elem V A n)) (xs : List (Elem V A n))
      → 2 ≤ length xs
      → (ns : List (Elem V A (suc n))) × (nodes m xs ≡ some ns)
        × (flat_map (iterate_element V (suc n)) ns ≡ flat_map (iterate_element V n) xs)
  unfolding nodes iterate_element
  nodes-some n m [] h = absurd (omega arith)
  nodes-some n m (a ∷ []) h = absurd (omega arith)
  nodes-some n m (a ∷ b ∷ []) h = (_, refl, simp append_laws)
  nodes-some n m (a ∷ b ∷ c ∷ []) h = (_, refl, simp append_laws)
  nodes-some n m (a ∷ b ∷ c ∷ d ∷ []) h = (_, refl, simp append_laws)
  nodes-some n m (a ∷ b ∷ c ∷ d ∷ e ∷ rest) h =
      let (ns, eq, flat) = nodes-some n m (d ∷ e ∷ rest) (omega arith) in
      (mk_node3 m a b c ∷ ns, rw eq, simp (flat, append_laws))

  -- Joining never throws, and joins the contents.
  pub app3-some :
      (n : ℕ) (m : Measured V (Elem V A n)) (t : FingerTree V A n) (xs : List (Elem V A n))
      (u : FingerTree V A n)
      → (r : FingerTree V A n) × (app3 m t xs u ≡ some r)
        × (iterate_tree n r
            ≡ iterate_tree n t ++ (flat_map (iterate_element V n) xs ++ iterate_tree n u))
  unfolding app3 iterate_tree
  app3-some n m empty xs u = (_, refl, iterate_tree-cons_all n m xs u)
  app3-some n m (single a) xs empty =
      (_, refl, simp (iterate_tree-snoc_all n m (single a) xs, append_laws))
  app3-some n m (single a) xs (single b) = (
    _,
    refl,
    simp (
      iterate_tree-cons n m a (cons_all m xs (single b)),
      iterate_tree-cons_all n m xs (single b),
    ),
  )
  app3-some n m (single a) xs (deep v pr mid sf) = (
    _,
    refl,
    simp (
      iterate_tree-cons n m a (cons_all m xs (deep v pr mid sf)),
      iterate_tree-cons_all n m xs (deep v pr mid sf),
    ),
  )
  app3-some n m (deep v pr mid sf) xs empty =
      (_, refl, simp (iterate_tree-snoc_all n m (deep v pr mid sf) xs, append_laws))
  app3-some n m (deep v pr mid sf) xs (single b) = (
    _,
    refl,
    simp (
      iterate_tree-snoc n m (snoc_all m (deep v pr mid sf) xs) b,
      iterate_tree-snoc_all n m (deep v pr mid sf) xs,
      append_laws,
    ),
  )
  app3-some n m (deep v₁ pr₁ md₁ sf₁) xs (deep v₂ pr₂ md₂ sf₂) =
      let (ns, eq, flat) =
        nodes-some n m (digit_to_array sf₁ ++ (xs ++ digit_to_array pr₂)) (two_digits sf₁ pr₂ xs) in
      let (md, eq', flat') = app3-some (suc n) (node_measured m) md₁ ns md₂ in
      (mk_deep m pr₁ md sf₂, rw eq (rw eq'), simp (flat', flat, flat_map-append, append_laws))

module _ {ℓ} {V A : Type ℓ} (m : Measured V A) where
  AllValid-++ :
      (n : ℕ) (xs ys : List (Elem V A n))
      → AllValid m n xs
      → AllValid m n ys
      → AllValid m n (xs ++ ys)
  AllValid-++ n [] ys hx hy = hy
  AllValid-++ n (x ∷ xs) ys hx hy = (hx.0, AllValid-++ n xs ys hx.1 hy)

  nodes-AllValid :
      (n : ℕ) (xs : List (Elem V A n)) (ns : List (Elem V A (suc n)))
      → AllValid m n xs
      → nodes (lift m n) xs ≡ some ns
      → AllValid m (suc n) ns
  unfolding nodes
  nodes-AllValid n [] ns h e = cc
  nodes-AllValid n (a ∷ []) ns h e = cc
  nodes-AllValid n (a ∷ b ∷ []) ns h e =
      subst (AllValid m (suc n)) (some_inj e) ((refl, h.0, h.1.0), tt)
  nodes-AllValid n (a ∷ b ∷ c ∷ []) ns h e =
      subst (AllValid m (suc n)) (some_inj e) ((refl, h.0, h.1.0, h.1.1.0), tt)
  nodes-AllValid n (a ∷ b ∷ c ∷ d ∷ []) ns h e =
      subst (AllValid m (suc n)) (some_inj e) ((refl, h.0, h.1.0), ((refl, h.1.1.0, h.1.1.1.0), tt))
  nodes-AllValid n (a ∷ b ∷ c ∷ d ∷ e₁ ∷ rest) ns h e =
      let (ns', eq, flat) = nodes-some n (lift m n) (d ∷ e₁ ∷ rest) (omega arith) in
      let ok = nodes-AllValid n (d ∷ e₁ ∷ rest) ns' h.1.1.1 eq in
      subst (AllValid m (suc n)) (some_inj (rw eq at e)) ((refl, h.0, h.1.0, h.1.1.0), ok)

  cons_all-TreeValid :
      (n : ℕ) (xs : List (Elem V A n)) (t : FingerTree V A n)
      → AllValid m n xs
      → TreeValid m n t
      → TreeValid m n (cons_all (lift m n) xs t)
  unfolding cons_all
  cons_all-TreeValid n [] t hx h = h
  cons_all-TreeValid n (x ∷ xs) t hx h =
      cons-TreeValid m n x (cons_all (lift m n) xs t) hx.0 (cons_all-TreeValid n xs t hx.1 h)

  snoc_all-TreeValid :
      (n : ℕ) (t : FingerTree V A n) (xs : List (Elem V A n))
      → TreeValid m n t
      → AllValid m n xs
      → TreeValid m n (snoc_all (lift m n) t xs)
  unfolding snoc_all
  snoc_all-TreeValid n t [] ht h = ht
  snoc_all-TreeValid n t (x ∷ xs) ht h =
      snoc_all-TreeValid n (snoc (lift m n) t x) xs (snoc-TreeValid m n t x ht h.0) h.1

  pub from_array-TreeValid :
      (n : ℕ) (xs : List (Elem V A n))
      → AllValid m n xs
      → TreeValid m n (from_array n (lift m n) xs)
  unfolding from_array
  from_array-TreeValid n xs h = snoc_all-TreeValid n empty xs tt h

  -- Joining keeps the caches right.
  pub app3-TreeValid :
      (n : ℕ) (t : FingerTree V A n) (xs : List (Elem V A n)) (u r : FingerTree V A n)
      → TreeValid m n t
      → AllValid m n xs
      → TreeValid m n u
      → app3 (lift m n) t xs u ≡ some r
      → TreeValid m n r
  unfolding app3
  app3-TreeValid n empty xs u r ht hx hu e =
      subst (TreeValid m n) (some_inj e) (cons_all-TreeValid n xs u hx hu)
  app3-TreeValid n (single a) xs empty r ht hx hu e =
      subst (TreeValid m n) (some_inj e) (snoc_all-TreeValid n (single a) xs ht hx)
  app3-TreeValid n (single a) xs (single b) r ht hx hu e = subst (TreeValid m n) (some_inj e) (
      cons-TreeValid m n a (cons_all (lift m n) xs (single b)) ht
        (cons_all-TreeValid n xs (single b) hx hu))
  app3-TreeValid n (single a) xs (deep v pr md sf) r ht hx hu e =
      subst (TreeValid m n) (some_inj e) (
        cons-TreeValid m n a (cons_all (lift m n) xs (deep v pr md sf)) ht
          (cons_all-TreeValid n xs (deep v pr md sf) hx hu))
  app3-TreeValid n (deep v pr md sf) xs empty r ht hx hu e =
      subst (TreeValid m n) (some_inj e) (snoc_all-TreeValid n (deep v pr md sf) xs ht hx)
  app3-TreeValid n (deep v pr md sf) xs (single b) r ht hx hu e =
      subst (TreeValid m n) (some_inj e) (
        snoc-TreeValid m n (snoc_all (lift m n) (deep v pr md sf) xs) b
          (snoc_all-TreeValid n (deep v pr md sf) xs ht hx) hu)
  app3-TreeValid n (deep v₁ pr₁ md₁ sf₁) xs (deep v₂ pr₂ md₂ sf₂) r ht hx hu e =
      let xs' = digit_to_array sf₁ ++ (xs ++ digit_to_array pr₂) in
      let (ns, eq, flat) = nodes-some n (lift m n) xs' (two_digits sf₁ pr₂ xs) in
      let (md, eq', flat') = app3-some (suc n) (lift m (suc n)) md₁ ns md₂ in
      let ok = nodes-AllValid n xs' ns (AllValid-++ n _ _ ht.3 (AllValid-++ n xs _ hx hu.1)) eq in
      let md_ok = app3-TreeValid (suc n) md₁ ns md₂ md ht.2 ok hu.2 eq' in
      subst (TreeValid m n) (some_inj (rw eq' at (rw eq at e)))
        (unfold mk_deep in (refl, ht.1, md_ok, hu.3))
