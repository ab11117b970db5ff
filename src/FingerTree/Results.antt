-- ===== src/FingerTree/Results.antt =====
-- The trees of `packages/finger-tree` as sequences with a measure: what each exported operation does
-- to the array of a tree.
use pokapali.Prelude.{
  zero, ◌≡◌, refl, sym, ap, ◌∙◌, subst, Bool, true, false, Option, none, some, List, [], ◌∷◌, ◌++◌,
  ◌⊎◌, inl, inr, append-nil, flat_map, Bool-cases,
}
use pokapali.FingerTree.Types.{IsMonoid, Measured, FingerTree, empty, single, deep}
use pokapali.FingerTree.Tree.{measure_tree, is_empty, cons, snoc, viewl, viewr}
use pokapali.FingerTree.Fold.{to_array, iterate_tree, iterate_element, from_array}
use pokapali.FingerTree.Concat.{concat}
use pokapali.FingerTree.Split.{Split, undefined, found, returned, split, take_until, drop_until}
use pokapali.FingerTree.Contents.{push_tree-eq, iterate_tree-cons, iterate_tree-snoc}
use pokapali.FingerTree.Ends.{viewl_list, viewr_list, viewl_list-viewl, viewr_list-viewr}
use pokapali.FingerTree.Joins.{iterate_tree-from_array, app3-some, app3-TreeValid}
use pokapali.FingerTree.Measures.{
  total, TreeValid, cons-TreeValid, snoc-TreeValid, viewl-ViewlValid, viewr-ViewrValid, ViewlValid,
  ViewrValid, measure_tree-eq,
}
use pokapali.FingerTree.Splitting.{SplitsAt, split_tree_at}

module _ {ℓ} (V : Type ℓ) {A : Type ℓ} where
  values : (xs : List A) → flat_map (iterate_element V zero) xs ≡ xs
  unfolding iterate_element
  values [] = refl
  values (x ∷ xs) = ap (◌∷◌ x) (values xs)

module _ {ℓ} {V A : Type ℓ} where
  to_array-eq : (t : FingerTree V A zero) → to_array t ≡ iterate_tree zero t
  unfolding to_array
  to_array-eq t = push_tree-eq zero t []

  -- The array of a tree has a new element first after `cons`, and last after `snoc`.
  pub to_array-cons-snoc :
      (m : Measured V A) (t : FingerTree V A zero) (a : A)
      → (to_array (cons m a t) ≡ a ∷ to_array t) × (to_array (snoc m t a) ≡ to_array t ++ a ∷ [])
  to_array-cons-snoc m t a = (
    simp (to_array-eq) (unfold iterate_element in iterate_tree-cons zero m a t),
    simp (to_array-eq) (unfold iterate_element in iterate_tree-snoc zero m t a),
  )

  -- Building a tree from an array and reading it back gives the array.
  pub to_array-from_array : (m : Measured V A) (xs : List A) → to_array (from_array zero m xs) ≡ xs
  to_array-from_array m xs = simp to_array-eq (iterate_tree-from_array zero m xs ∙ values V xs)

  -- `concat` never throws, and its array is the two arrays one after the other.
  pub concat_total :
      (m : Measured V A) (t u : FingerTree V A zero)
      → (r : FingerTree V A zero) × (concat m t u ≡ some r)
        × (to_array r ≡ to_array t ++ to_array u)
  unfolding concat
  concat_total m t u = let (r, eq, c) = app3-some zero m t [] u in (r, eq, simp to_array-eq c)

  abbrev pub FirstOf : Option (A × FingerTree V A zero) → List A → Type ℓ
  FirstOf none xs = xs ≡ []
  FirstOf (some (h, t)) xs = xs ≡ h ∷ to_array t

  abbrev pub LastOf : Option (FingerTree V A zero × A) → List A → Type ℓ
  LastOf none xs = xs ≡ []
  LastOf (some (i, l)) xs = xs ≡ to_array i ++ l ∷ []

  FirstOf-eq :
      (w : Option (A × FingerTree V A zero)) (xs : List A) → viewl_list zero w ≡ xs → FirstOf w xs
  unfolding iterate_element
  FirstOf-eq none xs e = sym e
  FirstOf-eq (some (h, t)) xs e = simp to_array-eq (sym e)

  LastOf-eq :
      (w : Option (FingerTree V A zero × A)) (xs : List A) → viewr_list zero w ≡ xs → LastOf w xs
  unfolding iterate_element
  LastOf-eq none xs e = sym e
  LastOf-eq (some (i, l)) xs e = simp to_array-eq (sym e)

  -- A view from the left is missing only for a tree with no element, and else shows the first
  -- element and a tree of the others; the same holds of a view from the right and the last element.
  pub views_contents :
      (m : Measured V A) (t : FingerTree V A zero)
      → FirstOf (viewl m t) (to_array t) × LastOf (viewr m t) (to_array t)
  views_contents m t = (
    FirstOf-eq (viewl m t) (to_array t) (viewl_list-viewl zero m t ∙ sym (to_array-eq t)),
    LastOf-eq (viewr m t) (to_array t) (viewr_list-viewr zero m t ∙ sym (to_array-eq t)),
  )

-- The trees that a client can hold: what the exported operations return, from the empty tree on.
-- A split is made by a predicate that is false on the empty measure, as the doc comment asks.
module _ {ℓ} {V A : Type ℓ} (m : Measured V A) where
  pub data Built : FingerTree V A zero → Type ℓ where
    by_empty : Built empty
    by_cons : {t : FingerTree V A zero} (a : A) → Built t → Built (cons m a t)
    by_snoc : {t : FingerTree V A zero} (a : A) → Built t → Built (snoc m t a)
    by_concat : {t u r : FingerTree V A zero} → Built t → Built u → concat m t u ≡ some r → Built r
    by_viewl : {t r : FingerTree V A zero} {a : A} → Built t → viewl m t ≡ some (a, r) → Built r
    by_viewr : {t r : FingerTree V A zero} {a : A} → Built t → viewr m t ≡ some (r, a) → Built r
    by_split_left :
        {t : FingerTree V A zero} {s : Split V A zero} (p : V → Bool)
        → Built t
        → p m.monoid.empty ≡ false
        → split m p t ≡ found s
        → Built s.left
    by_split_right :
        {t : FingerTree V A zero} {s : Split V A zero} (p : V → Bool)
        → Built t
        → p m.monoid.empty ≡ false
        → split m p t ≡ found s
        → Built s.right

  module _ (laws : IsMonoid m.monoid) where
    split_found :
        (p : V → Bool) (t : FingerTree V A zero)
        → TreeValid m zero t
        → p m.monoid.empty ≡ false
        → p (measure_tree m t) ≡ true
        → (s : Split V A zero) × (split m p t ≡ found s)
          × SplitsAt m p zero m.monoid.empty (iterate_tree zero t) s
    unfolding split is_empty measure_tree
    split_found p empty h lo hi = cc
    split_found p (single a) h lo hi =
        let (s, eq, at) =
          split_tree_at m p laws zero m.monoid.empty (single a) h lo (rw laws.empty-append hi) in
        (s, rw hi (ap returned eq), at)
    split_found p (deep v pr mid sf) h lo hi =
        let (s, eq, at) =
          split_tree_at m p laws zero m.monoid.empty (deep v pr mid sf) h lo
            (rw laws.empty-append hi) in
        (s, rw hi (ap returned eq), at)

    split_undefined :
        (p : V → Bool) (t : FingerTree V A zero)
        → p (measure_tree m t) ≡ false
        → split m p t ≡ undefined
    unfolding split is_empty measure_tree
    split_undefined p empty h = refl
    split_undefined p (single a) h = rw h
    split_undefined p (deep v pr mid sf) h = rw h

    -- Over a monoid that obeys its laws, on a tree whose caches are right and by a predicate that is
    -- false on the empty measure, `split` never throws. It is undefined only where the predicate is
    -- false on the whole measure; else it keeps the elements in order around a value at which the
    -- predicate turns true.
    pub split_cases :
        (p : V → Bool) (t : FingerTree V A zero)
        → TreeValid m zero t
        → p m.monoid.empty ≡ false
        → ((split m p t ≡ undefined) × (p (total m (to_array t)) ≡ false))
          ⊎ ((s : Split V A zero) × (split m p t ≡ found s)
              × (to_array t ≡ to_array s.left ++ s.value ∷ to_array s.right)
              × (p (total m (to_array s.left)) ≡ false)
              × (p (total m (to_array s.left ++ s.value ∷ [])) ≡ true))
    split_cases p t h lo =
        let e : measure_tree m t ≡ total m (to_array t) =
          measure_tree-eq m laws zero t h ∙ ap (total m) (sym (to_array-eq t)) in
        elim (Bool-cases (p (measure_tree m t))) [
          | inl hi ↦
              let (s, eq, at) = split_found p t h lo hi in
              inr (
                s,
                eq,
                simp to_array-eq (unfold iterate_element in at.contents),
                simp to_array-eq (rw laws.empty-append at at.before),
                simp to_array-eq (unfold iterate_element in rw laws.empty-append at at.after),
              )
          | inr lo' ↦ inl (split_undefined p t lo', rw (← e) lo')
        ]

    -- The predicate is true once the first of `ys` is added to `xs`.
    abbrev pub TurnsTrue : (V → Bool) → List A → List A → Type 0
    TurnsTrue p xs [] = Unit
    TurnsTrue p xs (y ∷ ys) = p (total m (xs ++ y ∷ [])) ≡ true

    -- Over a monoid that obeys its laws, on a tree whose caches are right and by a predicate that is
    -- false on the empty measure, taking and dropping until the predicate never throws and cuts the
    -- array in two parts. The predicate is false on the measure of the first part, and true on that
    -- of the first part and the first element of the second, if the second has one.
    pub take_drop_until :
        (p : V → Bool) (t : FingerTree V A zero)
        → TreeValid m zero t
        → p m.monoid.empty ≡ false
        → (l r : FingerTree V A zero) × (take_until m p t ≡ some l)
          × (drop_until m p t ≡ some r)
          × (to_array t ≡ to_array l ++ to_array r)
          × (p (total m (to_array l)) ≡ false)
          × TurnsTrue p (to_array l) (to_array r)
    unfolding take_until drop_until
    take_drop_until p t h lo = elim (split_cases p t h lo) [
      | inl (eq, lo') ↦ (
        t,
        empty,
        rw (eq, take_until),
        rw (eq, drop_until),
        unfold to_array in sym (append-nil _),
        lo',
        unfold to_array in tt,
      )
      | inr (s, eq, e, before, after) ↦ (
        s.left,
        cons m s.value s.right,
        rw (eq, take_until),
        rw (eq, drop_until),
        rw (to_array-cons-snoc m s.right s.value).0 e,
        before,
        rw (to_array-cons-snoc m s.right s.value).0 after,
      )
    ]

    found_inj : {x y : Split V A zero} → found x ≡ found y → x ≡ y
    found_inj e = cc

    split-TreeValid :
        (p : V → Bool) (t : FingerTree V A zero) (s : Split V A zero)
        → TreeValid m zero t
        → p m.monoid.empty ≡ false
        → split m p t ≡ found s
        → TreeValid m zero s.left × TreeValid m zero s.right
    split-TreeValid p t s h lo e = elim (Bool-cases (p (measure_tree m t))) [
      | inl hi ↦
          let (s', eq, at) = split_found p t h lo hi in
          subst (λ x. TreeValid m zero x.left × TreeValid m zero x.right) (found_inj (sym eq ∙ e))
            (at.left_valid, at.right_valid)
      | inr lo' ↦ cc (split_undefined p t lo')
    ]

    Built-TreeValid : {t : FingerTree V A zero} → Built t → TreeValid m zero t
    Built-TreeValid by_empty = tt
    Built-TreeValid (by_cons {t = t} a b) = cons-TreeValid m zero a t tt (Built-TreeValid b)
    Built-TreeValid (by_snoc {t = t} a b) = snoc-TreeValid m zero t a (Built-TreeValid b) tt
    Built-TreeValid (by_concat {t = t} {u = u} {r = r} b c e) =
        app3-TreeValid m zero t [] u r (Built-TreeValid b) tt (Built-TreeValid c)
          (unfold concat in e)
    Built-TreeValid (by_viewl {t = t} b e) =
        (subst (ViewlValid m zero) e (viewl-ViewlValid m zero t (Built-TreeValid b))).1
    Built-TreeValid (by_viewr {t = t} b e) =
        (subst (ViewrValid m zero) e (viewr-ViewrValid m zero t (Built-TreeValid b))).0
    Built-TreeValid (by_split_left {t = t} {s = s} p b lo e) =
        (split-TreeValid p t s (Built-TreeValid b) lo e).0
    Built-TreeValid (by_split_right {t = t} {s = s} p b lo e) =
        (split-TreeValid p t s (Built-TreeValid b) lo e).1

    -- Over a monoid that obeys its laws, the measure cached in a tree that was made by the exported
    -- operations, its splits by predicates that are false on the empty measure, is the measure of its
    -- elements.
    pub measure_tree-to_array :
        {t : FingerTree V A zero} → Built t → measure_tree m t ≡ total m (to_array t)
    measure_tree-to_array {t} b =
        measure_tree-eq m laws zero t (Built-TreeValid b) ∙ ap (total m) (sym (to_array-eq t))
