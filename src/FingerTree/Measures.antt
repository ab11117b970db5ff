-- ===== src/FingerTree/Measures.antt =====
-- packages/finger-tree/src/tree.ts: the cached measures, and what the operations do to them.
use pokapali.Prelude.{ℕ, zero, suc, ◌≡◌, refl, sym, Option, none, some, List, [], ◌∷◌, ◌++◌}
use pokapali.FingerTree.Types.{
  IsMonoid, Measured, node2, node3, Digit, one, two, three, four, Elem, FingerTree, empty, single,
  deep, mk_node3, node_v, digit_measure, digit_to_array,
}
use pokapali.FingerTree.Tree.{
  measure_tree, cons, snoc, digit_to_tree, node_to_digit, deep_l, deep_r, viewl, viewr,
}
use pokapali.FingerTree.Fold.{iterate_element, iterate_digit, iterate_tree}

module _ {ℓ} {V A : Type ℓ} (m : Measured V A) where
  abbrev pub elem_measure : (n : ℕ) → Elem V A n → V
  elem_measure zero a = m.measure a
  elem_measure (suc n) x = node_v x

  -- `nodeMeasured`, n times
  abbrev pub lift : (n : ℕ) → Measured V (Elem V A n)
  lift n = record { monoid = m.monoid; measure = elem_measure n }

  -- The measure of a sequence of values, which no cache enters.
  abbrev pub total : List A → V
  total [] = m.monoid.empty
  total (x ∷ xs) = m.monoid.append (m.measure x) (total xs)

  -- Every node below an element caches the measure of its children.
  abbrev pub ElemValid : (n : ℕ) → Elem V A n → Type ℓ
  ElemValid zero a = Unit
  ElemValid (suc n) (node2 v a b) =
      (v ≡ m.monoid.append (elem_measure n a) (elem_measure n b)) × ElemValid n a × ElemValid n b
  ElemValid (suc n) (node3 v a b c) =
      (v
        ≡ m.monoid.append (m.monoid.append (elem_measure n a) (elem_measure n b))
            (elem_measure n c))
      × ElemValid n a
      × ElemValid n b
      × ElemValid n c

  abbrev pub AllValid : (n : ℕ) → List (Elem V A n) → Type ℓ
  AllValid n [] = Unit
  AllValid n (x ∷ xs) = ElemValid n x × AllValid n xs

  abbrev pub TreeValid : (n : ℕ) → FingerTree V A n → Type ℓ
  TreeValid n empty = Unit
  TreeValid n (single a) = ElemValid n a
  TreeValid n (deep v pr mid sf) =
      (v
        ≡ m.monoid.append
            (m.monoid.append (digit_measure (lift n) pr) (measure_tree (lift (suc n)) mid))
            (digit_measure (lift n) sf))
      × AllValid n (digit_to_array pr)
      × TreeValid (suc n) mid
      × AllValid n (digit_to_array sf)

  module _ (laws : IsMonoid m.monoid) where
    pub total-append : (xs ys : List A) → total (xs ++ ys) ≡ m.monoid.append (total xs) (total ys)
    total-append [] ys = sym (laws.empty-append _)
    total-append (x ∷ xs) ys = simp (total-append xs ys, laws.assoc)

    pub elem_measure-eq :
        (n : ℕ) (x : Elem V A n) → ElemValid n x → elem_measure n x ≡ total (iterate_element V n x)
    unfolding iterate_element
    elem_measure-eq zero a h = sym (laws.append-empty _)
    elem_measure-eq (suc n) (node2 v a b) h =
        simp
          (h.0, elem_measure-eq n a h.1, elem_measure-eq n b h.2, total-append, laws.append-empty)
    elem_measure-eq (suc n) (node3 v a b c) h = simp (
      h.0,
      elem_measure-eq n a h.1,
      elem_measure-eq n b h.2,
      elem_measure-eq n c h.3,
      total-append,
      laws.append-empty,
      laws.assoc,
    )

    pub digit_measure-eq :
        (n : ℕ) (d : Digit (Elem V A n))
        → AllValid n (digit_to_array d)
        → digit_measure (lift n) d ≡ total (iterate_digit V n d)
    unfolding iterate_digit
    digit_measure-eq n (one a) h = simp (elem_measure-eq n a h.0, total-append, laws.append-empty)
    digit_measure-eq n (two a b) h =
        simp (elem_measure-eq n a h.0, elem_measure-eq n b h.1.0, total-append, laws.append-empty)
    digit_measure-eq n (three a b c) h = simp (
      elem_measure-eq n a h.0,
      elem_measure-eq n b h.1.0,
      elem_measure-eq n c h.1.1.0,
      total-append,
      laws.append-empty,
      laws.assoc,
    )
    digit_measure-eq n (four a b c d) h = simp (
      elem_measure-eq n a h.0,
      elem_measure-eq n b h.1.0,
      elem_measure-eq n c h.1.1.0,
      elem_measure-eq n d h.1.1.1.0,
      total-append,
      laws.append-empty,
      laws.assoc,
    )

    -- The cached measure of a tree whose caches are right is the measure of its elements.
    pub measure_tree-eq :
        (n : ℕ) (t : FingerTree V A n)
        → TreeValid n t
        → measure_tree (lift n) t ≡ total (iterate_tree n t)
    unfolding measure_tree iterate_tree
    measure_tree-eq n empty h = refl
    measure_tree-eq n (single a) h = elem_measure-eq n a h
    measure_tree-eq n (deep v pr mid sf) h = simp (
      h.0,
      digit_measure-eq n pr h.1,
      measure_tree-eq (suc n) mid h.2,
      digit_measure-eq n sf h.3,
      total-append,
      laws.assoc,
    )

  pub cons-TreeValid :
      (n : ℕ) (a : Elem V A n) (t : FingerTree V A n)
      → ElemValid n a
      → TreeValid n t
      → TreeValid n (cons (lift n) a t)
  unfolding cons
  cons-TreeValid n a empty va h = va
  cons-TreeValid n a (single b) va h = (refl, (va, tt), tt, (h, tt))
  cons-TreeValid n a (deep v (one b) mid sf) va h = (refl, (va, h.1), h.2, h.3)
  cons-TreeValid n a (deep v (two b c) mid sf) va h = (refl, (va, h.1), h.2, h.3)
  cons-TreeValid n a (deep v (three b c d) mid sf) va h = (refl, (va, h.1), h.2, h.3)
  cons-TreeValid n a (deep v (four b c d e) mid sf) va h = (
    refl,
    (va, (h.1.0, tt)),
    cons-TreeValid (suc n) (mk_node3 (lift n) c d e) mid (refl, h.1.1.0, h.1.1.1.0, h.1.1.1.1.0)
        h.2,
    h.3,
  )

  pub snoc-TreeValid :
      (n : ℕ) (t : FingerTree V A n) (a : Elem V A n)
      → TreeValid n t
      → ElemValid n a
      → TreeValid n (snoc (lift n) t a)
  unfolding snoc
  snoc-TreeValid n empty a h va = va
  snoc-TreeValid n (single b) a h va = (refl, (h, tt), tt, (va, tt))
  snoc-TreeValid n (deep v pr mid (one b)) a h va = (refl, h.1, h.2, (h.3.0, (va, tt)))
  snoc-TreeValid n (deep v pr mid (two b c)) a h va = (refl, h.1, h.2, (h.3.0, (h.3.1.0, (va, tt))))
  snoc-TreeValid n (deep v pr mid (three b c d)) a h va =
      (refl, h.1, h.2, (h.3.0, (h.3.1.0, (h.3.1.1.0, (va, tt)))))
  snoc-TreeValid n (deep v pr mid (four b c d e)) a h va = (
    refl,
    h.1,
    snoc-TreeValid (suc n) mid (mk_node3 (lift n) b c d) h.2 (refl, h.3.0, h.3.1.0, h.3.1.1.0),
    (h.3.1.1.1.0, (va, tt)),
  )

  digit_to_tree-TreeValid :
      (n : ℕ) (d : Digit (Elem V A n))
      → AllValid n (digit_to_array d)
      → TreeValid n (digit_to_tree (lift n) d)
  unfolding digit_to_tree
  digit_to_tree-TreeValid n (one a) h = h.0
  digit_to_tree-TreeValid n (two a b) h = (refl, (h.0, tt), tt, h.1)
  digit_to_tree-TreeValid n (three a b c) h = (refl, (h.0, (h.1.0, tt)), tt, h.1.1)
  digit_to_tree-TreeValid n (four a b c d) h = (refl, (h.0, (h.1.0, tt)), tt, h.1.1)

  pub node_to_digit-AllValid :
      (n : ℕ) (x : Elem V A (suc n))
      → ElemValid (suc n) x
      → AllValid n (digit_to_array (node_to_digit x))
  unfolding node_to_digit
  node_to_digit-AllValid n (node2 v a b) h = (h.1, (h.2, tt))
  node_to_digit-AllValid n (node3 v a b c) h = (h.1, (h.2, (h.3, tt)))

  -- What a view shows is an element and a tree whose caches are right.
  abbrev pub ViewlValid : (n : ℕ) → Option (Elem V A n × FingerTree V A n) → Type ℓ
  ViewlValid n none = Unit
  ViewlValid n (some (h, t)) = ElemValid n h × TreeValid n t

  abbrev pub ViewrValid : (n : ℕ) → Option (FingerTree V A n × Elem V A n) → Type ℓ
  ViewrValid n none = Unit
  ViewrValid n (some (i, l)) = TreeValid n i × ElemValid n l

  abbrev OptValid : (n : ℕ) → Option (Digit (Elem V A n)) → Type ℓ
  OptValid n none = Unit
  OptValid n (some d) = AllValid n (digit_to_array d)

  deep_l-TreeValid :
      (n : ℕ) (o : Option (Digit (Elem V A n))) (mid : FingerTree V A (suc n))
      (sf : Digit (Elem V A n)) (w : Option (Elem V A (suc n) × FingerTree V A (suc n)))
      → OptValid n o
      → TreeValid (suc n) mid
      → AllValid n (digit_to_array sf)
      → ViewlValid (suc n) w
      → TreeValid n (deep_l (lift n) o mid sf w)
  unfolding deep_l
  deep_l-TreeValid n (some pr) mid sf w ho hm hs hw = (refl, ho, hm, hs)
  deep_l-TreeValid n none mid sf none ho hm hs hw = digit_to_tree-TreeValid n sf hs
  deep_l-TreeValid n none mid sf (some (h, t)) ho hm hs hw =
      (refl, node_to_digit-AllValid n h hw.0, hw.1, hs)

  pub viewl-ViewlValid :
      (n : ℕ) (t : FingerTree V A n) → TreeValid n t → ViewlValid n (viewl (lift n) t)
  unfolding viewl
  viewl-ViewlValid n empty h = tt
  viewl-ViewlValid n (single a) h = (h, tt)
  viewl-ViewlValid n (deep v (one a) mid sf) h = (
    h.1.0,
    deep_l-TreeValid n none mid sf (viewl (lift (suc n)) mid) tt h.2 h.3
        (viewl-ViewlValid (suc n) mid h.2),
  )
  viewl-ViewlValid n (deep v (two a b) mid sf) h = (h.1.0, (refl, h.1.1, h.2, h.3))
  viewl-ViewlValid n (deep v (three a b c) mid sf) h = (h.1.0, (refl, h.1.1, h.2, h.3))
  viewl-ViewlValid n (deep v (four a b c d) mid sf) h = (h.1.0, (refl, h.1.1, h.2, h.3))

  deep_r-TreeValid :
      (n : ℕ) (pr : Digit (Elem V A n)) (mid : FingerTree V A (suc n))
      (o : Option (Digit (Elem V A n))) (w : Option (FingerTree V A (suc n) × Elem V A (suc n)))
      → AllValid n (digit_to_array pr)
      → TreeValid (suc n) mid
      → OptValid n o
      → ViewrValid (suc n) w
      → TreeValid n (deep_r (lift n) pr mid o w)
  unfolding deep_r
  deep_r-TreeValid n pr mid (some sf) w hp hm ho hw = (refl, hp, hm, ho)
  deep_r-TreeValid n pr mid none none hp hm ho hw = digit_to_tree-TreeValid n pr hp
  deep_r-TreeValid n pr mid none (some (i, l)) hp hm ho hw =
      (refl, hp, hw.0, node_to_digit-AllValid n l hw.1)

  pub viewr-ViewrValid :
      (n : ℕ) (t : FingerTree V A n) → TreeValid n t → ViewrValid n (viewr (lift n) t)
  unfolding viewr
  viewr-ViewrValid n empty h = tt
  viewr-ViewrValid n (single a) h = (tt, h)
  viewr-ViewrValid n (deep v pr mid (one a)) h = (
    deep_r-TreeValid n pr mid none (viewr (lift (suc n)) mid) h.1 h.2 tt
        (viewr-ViewrValid (suc n) mid h.2),
    h.3.0,
  )
  viewr-ViewrValid n (deep v pr mid (two a b)) h = ((refl, h.1, h.2, (h.3.0, tt)), h.3.1.0)
  viewr-ViewrValid n (deep v pr mid (three a b c)) h =
      ((refl, h.1, h.2, (h.3.0, (h.3.1.0, tt))), h.3.1.1.0)
  viewr-ViewrValid n (deep v pr mid (four a b c d)) h =
      ((refl, h.1, h.2, (h.3.0, (h.3.1.0, (h.3.1.1.0, tt)))), h.3.1.1.1.0)
