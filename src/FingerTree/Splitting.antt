-- ===== src/FingerTree/Splitting.antt =====
-- packages/finger-tree/src/split.ts: where `splitTree` cuts a tree whose measure crosses the predicate.
pub mod Cuts
pub mod Rebuild
use pokapali.Prelude.{
  subst, ℕ, zero, suc, ◌+◌, ◌≤◌, ◌≡◌, refl, sym, ap, ◌∙◌, Bool, true, false, Option, none, some,
  List, [], ◌∷◌, ◌++◌, flat_map, append_laws, append_assoc, append-nil, arith, flat_map-append,
  Bool-cases, inl, inr, length, length-append, if◌then◌else◌, ◌>>=◌,
}
use pokapali.FingerTree.Types.{
  Monoid, IsMonoid, Measured, Node, node2, node3, Digit, one, two, three, four, Elem, FingerTree,
  empty, single, deep, node_v, node_to_array, node_measured, digit_measure, digit_to_array,
}
use pokapali.FingerTree.Tree.{measure_tree, mk_deep, viewl, viewr, node_to_digit, snoc}
use pokapali.FingerTree.Fold.{iterate_element, iterate_digit, iterate_tree, from_array, snoc_all}
use pokapali.FingerTree.Split.{
  DigitSplit, Split, split_scan, split_at_last, split_digit_arr, split_digit, arr_to_digit,
  digit_to_tree, deep_l, deep_r, split_prefix, split_middle, split_suffix, split_tree,
}
use pokapali.FingerTree.Ends.{
  viewl_list, viewr_list, viewl_list-viewl, viewr_list-viewr, iterate_digit-node_to_digit,
}
use pokapali.FingerTree.Joins.{from_array-TreeValid, iterate_tree-from_array, length-digit_to_array}
use pokapali.FingerTree.Measures.{
  elem_measure, lift, total, ElemValid, AllValid, TreeValid, ViewlValid, ViewrValid, total-append,
  elem_measure-eq, digit_measure-eq, measure_tree-eq, snoc-TreeValid, node_to_digit-AllValid,
  viewl-ViewlValid, viewr-ViewrValid,
}
use pokapali.FingerTree.Splitting.Cuts.{run, CutsAt, split_digit_arr_cuts, run-eq, AllValid-append}
use pokapali.FingerTree.Splitting.Rebuild.{deep_l-some, deep_r-some}

module _ {ℓ} {V A : Type ℓ} (m : Measured V A) (p : V → Bool) where
  -- A split of the tree with elements `xs` after the measure `acc`.
  pub record SplitsAt (n : ℕ) (acc : V) (xs : List A) (s : Split V A n) : Type ℓ where
    pub contents :
        xs ≡ iterate_tree n s.left ++ (iterate_element V n s.value ++ iterate_tree n s.right)
    pub before : p (m.monoid.append acc (total m (iterate_tree n s.left))) ≡ false
    pub after :
        p (m.monoid.append acc (total m (iterate_tree n s.left ++ iterate_element V n s.value)))
        ≡ true
    pub left_valid : TreeValid m n s.left
    pub value_valid : ElemValid m n s.value
    pub right_valid : TreeValid m n s.right

  -- A cut of an array of elements, in terms of the values in them.
  record Parts (n : ℕ) (acc : V) (xs : List (Elem V A n)) (d : DigitSplit (Elem V A n))
      : Type ℓ where
    left_short : length d.left ≤ 4
    right_short : length d.right ≤ 4
    left_all : AllValid m n d.left
    value_ok : ElemValid m n d.value
    right_all : AllValid m n d.right
    flat :
        flat_map (iterate_element V n) xs
        ≡ flat_map (iterate_element V n) d.left
          ++ (iterate_element V n d.value ++ flat_map (iterate_element V n) d.right)
    below : p (m.monoid.append acc (total m (flat_map (iterate_element V n) d.left))) ≡ false
    above :
        p (
          m.monoid.append acc
            (total m (flat_map (iterate_element V n) d.left ++ iterate_element V n d.value)))
        ≡ true

  module _ (laws : IsMonoid m.monoid) where
    Parts-of_cut :
        (n : ℕ) (acc : V) (xs : List (Elem V A n)) (d : DigitSplit (Elem V A n))
        → length xs ≤ 4
        → AllValid m n xs
        → CutsAt (lift m n) p acc xs d
        → Parts n acc xs d
    Parts-of_cut n acc xs d len h cut =
        let sizes : length xs ≡ length (d.left ++ d.value ∷ d.right) = ap length cut.parts in
        let (hl, hr) =
          AllValid-append m n d.left (d.value ∷ d.right) (subst (AllValid m n) cut.parts h) in
        record {
          left_short = omega (arith, sizes, length-append d.left (d.value ∷ d.right));
          right_short = omega (arith, sizes, length-append d.left (d.value ∷ d.right));
          left_all = hl;
          value_ok = hr.0;
          right_all = hr.1;
          flat =
              rw (cut.parts)
                (rw (flat_map-append (iterate_element V n) d.left (d.value ∷ d.right)));
          below = rw (← run-eq m laws n acc d.left hl) cut.before;
          above =
              rw
                (
                  total-append m laws,
                  ← laws.assoc,
                  ← run-eq m laws n acc d.left hl,
                  ← elem_measure-eq m laws n d.value hr.0,
                )
                cut.after;
        }

    cut-Parts :
        (n : ℕ) (acc : V) (xs : List (Elem V A n))
        → length xs ≤ 4
        → AllValid m n xs
        → p acc ≡ false
        → p (m.monoid.append acc (total m (flat_map (iterate_element V n) xs))) ≡ true
        → (d : DigitSplit (Elem V A n)) × (split_digit_arr (lift m n) p acc xs ≡ some d)
          × Parts n acc xs d
    cut-Parts n acc xs len h lo hi =
        let (d, eq, cut) =
          split_digit_arr_cuts (lift m n) p acc xs lo (rw (run-eq m laws n acc xs h) hi) in
        (d, eq, Parts-of_cut n acc xs d len h cut)

    -- A measure accumulated in two stages.
    shift :
        (acc acc' : V) (xs ys zs : List A)
        → acc' ≡ m.monoid.append acc (total m xs)
        → zs ≡ xs ++ ys
        → m.monoid.append acc (total m zs) ≡ m.monoid.append acc' (total m ys)
    shift acc acc' xs ys zs e f = simp (e, f, total-append m laws, laws.assoc)

    run_digit :
        (n : ℕ) (acc : V) (d : Digit (Elem V A n))
        → AllValid m n (digit_to_array d)
        → m.monoid.append acc (digit_measure (lift m n) d)
          ≡ m.monoid.append acc (total m (flat_map (iterate_element V n) (digit_to_array d)))
    run_digit n acc d h =
        ap (m.monoid.append acc) (unfold iterate_digit in digit_measure-eq m laws n d h)

    split_prefix_at :
        (n : ℕ) (acc : V) (pr : Digit (Elem V A n)) (mid : FingerTree V A (suc n))
        (sf : Digit (Elem V A n))
        → AllValid m n (digit_to_array pr)
        → TreeValid m (suc n) mid
        → AllValid m n (digit_to_array sf)
        → p acc ≡ false
        → p (m.monoid.append acc (digit_measure (lift m n) pr)) ≡ true
        → (s : Split V A n) × (split_prefix (lift m n) p acc pr mid sf ≡ some s)
          × SplitsAt n acc
              (iterate_digit V n pr ++ (iterate_tree (suc n) mid ++ iterate_digit V n sf))
              s
    unfolding split_prefix split_digit iterate_digit
    split_prefix_at n acc pr mid sf hp hm hs lo hi =
        let (d, eq, c) =
          cut-Parts n acc (digit_to_array pr) (length-digit_to_array pr).1 hp lo
            (rw (← run_digit n acc pr hp) hi) in
        let (r, eq', rest, ok) =
          deep_l-some m laws n d.right mid sf c.right_short c.right_all hm hs in
        let e = iterate_tree-from_array n (lift m n) d.left in
        (
          record { left = from_array n (lift m n) d.left; value = d.value; right = r },
          rw eq (rw eq'),
          record {
            contents = simp (c.flat, rest, e, append_laws);
            before = rw e c.below;
            after = rw e c.above;
            left_valid = from_array-TreeValid m n d.left c.left_all;
            value_valid = c.value_ok;
            right_valid = ok;
          },
        )

    split_suffix_at :
        (n : ℕ) (acc acc_mid : V) (pr : Digit (Elem V A n)) (mid : FingerTree V A (suc n))
        (sf : Digit (Elem V A n))
        → AllValid m n (digit_to_array pr)
        → TreeValid m (suc n) mid
        → AllValid m n (digit_to_array sf)
        → acc_mid ≡ m.monoid.append acc (total m (iterate_digit V n pr ++ iterate_tree (suc n) mid))
        → p acc_mid ≡ false
        → p (m.monoid.append acc_mid (digit_measure (lift m n) sf)) ≡ true
        → (s : Split V A n) × (split_suffix (lift m n) p acc_mid pr mid sf ≡ some s)
          × SplitsAt n acc
              (iterate_digit V n pr ++ (iterate_tree (suc n) mid ++ iterate_digit V n sf))
              s
    unfolding split_suffix split_digit iterate_digit
    split_suffix_at n acc acc_mid pr mid sf hp hm hs e lo hi =
        let (d, eq, c) =
          cut-Parts n acc_mid (digit_to_array sf) (length-digit_to_array sf).1 hs lo
            (rw (← run_digit n acc_mid sf hs) hi) in
        let (l, eq', rest, ok) = deep_r-some m laws n pr mid d.left c.left_short hp hm c.left_all in
        let f = iterate_tree-from_array n (lift m n) d.right in
        (
          record { left = l; value = d.value; right = from_array n (lift m n) d.right },
          rw eq (rw eq'),
          record {
            contents = simp (c.flat, rest, f, append_laws);
            before =
                rw
                  (shift acc acc_mid _ (flat_map (iterate_element V n) d.left) (iterate_tree n l) e
                    (simp (rest, append_laws)))
                  c.below;
            after =
                rw
                  (shift acc acc_mid _
                    (flat_map (iterate_element V n) d.left ++ iterate_element V n d.value)
                    (iterate_tree n l ++ iterate_element V n d.value) e (simp (rest, append_laws)))
                  c.above;
            left_valid = ok;
            value_valid = c.value_ok;
            right_valid = from_array-TreeValid m n d.right c.right_all;
          },
        )

    node_AllValid :
        (n : ℕ) (x : Elem V A (suc n)) → ElemValid m (suc n) x → AllValid m n (node_to_array x)
    node_AllValid n (node2 v a b) h = (h.1, (h.2, tt))
    node_AllValid n (node3 v a b c) h = (h.1, (h.2, (h.3, tt)))

    node_short : (n : ℕ) (x : Elem V A (suc n)) → length (node_to_array x) ≤ 4
    node_short n (node2 v a b) = omega arith
    node_short n (node3 v a b c) = omega arith

    node_flat :
        (n : ℕ) (x : Elem V A (suc n))
        → flat_map (iterate_element V n) (node_to_array x) ≡ iterate_element V (suc n) x
    unfolding iterate_element
    node_flat n x = refl

    split_middle_at :
        (n : ℕ) (acc acc_pr : V) (pr : Digit (Elem V A n)) (mid_list : List A)
        (sf : Digit (Elem V A n)) (ms : Split V A (suc n))
        → AllValid m n (digit_to_array pr)
        → AllValid m n (digit_to_array sf)
        → acc_pr ≡ m.monoid.append acc (total m (iterate_digit V n pr))
        → SplitsAt (suc n) acc_pr mid_list ms
        → (s : Split V A n) × (split_middle (lift m n) p acc_pr pr sf ms ≡ some s)
          × SplitsAt n acc (iterate_digit V n pr ++ (mid_list ++ iterate_digit V n sf)) s
    unfolding split_middle iterate_digit
    split_middle_at n acc acc_pr pr mid_list sf ms hp hs e at =
        let left_m = measure_tree-eq m laws (suc n) ms.left at.left_valid in
        let acc_left = m.monoid.append acc_pr (measure_tree (lift m (suc n)) ms.left) in
        let acc_eq : acc_left
            ≡ m.monoid.append acc (total m (iterate_digit V n pr ++ iterate_tree (suc n) ms.left)) =
          simp (left_m, e, total-append m laws, laws.assoc) in
        let (d, eq, c) =
          cut-Parts n acc_left (node_to_array ms.value) (node_short n ms.value)
            (node_AllValid n ms.value at.value_valid) (rw left_m at.before)
            (rw (left_m, node_flat n ms.value)
              (rw
                (shift acc_pr (m.monoid.append acc_pr (total m (iterate_tree (suc n) ms.left)))
                  (iterate_tree (suc n) ms.left) (iterate_element V (suc n) ms.value) _ refl refl)
                at at.after)) in
        let (l, eq₁, rest₁, ok₁) =
          deep_r-some m laws n pr ms.left d.left c.left_short hp at.left_valid c.left_all in
        let (r, eq₂, rest₂, ok₂) =
          deep_l-some m laws n d.right ms.right sf c.right_short c.right_all at.right_valid hs in
        (
          record { left = l; value = d.value; right = r },
          rw eq (rw eq₁ (rw eq₂)),
          record {
            contents =
                simp (at.contents, rest₁, rest₂, ← node_flat n ms.value, c.flat, append_laws);
            before =
                rw
                  (shift acc acc_left _ (flat_map (iterate_element V n) d.left) (iterate_tree n l)
                    acc_eq (simp (rest₁, append_laws)))
                  c.below;
            after =
                rw
                  (shift acc acc_left _
                    (flat_map (iterate_element V n) d.left ++ iterate_element V n d.value)
                    (iterate_tree n l ++ iterate_element V n d.value) acc_eq
                    (simp (rest₁, append_laws)))
                  c.above;
            left_valid = ok₁;
            value_valid = c.value_ok;
            right_valid = ok₂;
          },
        )

    -- On a tree whose caches are right, with the predicate false before it and true with it,
    -- `splitTree` does not throw, keeps the elements in order and cuts where the predicate turns.
    pub split_tree_at :
        (n : ℕ) (acc : V) (t : FingerTree V A n)
        → TreeValid m n t
        → p acc ≡ false
        → p (m.monoid.append acc (measure_tree (lift m n) t)) ≡ true
        → (s : Split V A n) × (split_tree (lift m n) p acc t ≡ some s)
          × SplitsAt n acc (iterate_tree n t) s
    unfolding split_tree iterate_tree measure_tree
    split_tree_at n acc empty h lo hi = cc (laws.append-empty acc)
    split_tree_at n acc (single a) h lo hi = (
      _,
      refl,
      record {
        contents = rw append-nil;
        before = rw laws.append-empty lo;
        after = rw (← elem_measure-eq m laws n a h) hi;
        left_valid = tt;
        value_valid = h;
        right_valid = tt;
      },
    )
    split_tree_at n acc (deep v pr mid sf) h lo hi =
        let acc_pr = m.monoid.append acc (digit_measure (lift m n) pr) in
        let acc_mid = m.monoid.append acc_pr (measure_tree (lift m (suc n)) mid) in
        let pr_eq = digit_measure-eq m laws n pr h.1 in
        elim (Bool-cases (p acc_pr)) [
          | inl in_prefix ↦ rw in_prefix (split_prefix_at n acc pr mid sf h.1 h.2 h.3 lo in_prefix)
          | inr past ↦ elim (Bool-cases (p acc_mid)) [
            | inl in_middle ↦
                let (ms, eq, at) = split_tree_at (suc n) acc_pr mid h.2 past in_middle in
                rw past (
                  rw in_middle (
                    rw eq (
                      split_middle_at n acc acc_pr pr (iterate_tree (suc n) mid) sf ms h.1 h.3
                        (ap (m.monoid.append acc) pr_eq) at)))
            | inr beyond ↦ rw past (
                rw beyond (
                  split_suffix_at n acc acc_mid pr mid sf h.1 h.2 h.3
                    (simp (
                      pr_eq,
                      measure_tree-eq m laws (suc n) mid h.2,
                      total-append m laws,
                      laws.assoc,
                    ))
                    beyond (rw (h.0, ← laws.assoc, ← laws.assoc) at hi)))
          ]
        ]
