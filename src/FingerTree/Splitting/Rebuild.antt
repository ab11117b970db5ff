-- ===== src/FingerTree/Splitting/Rebuild.antt =====
-- `deepL` and `deepR` of split.ts on the parts of a cut.
use pokapali.Prelude.{
  ℕ, suc, ◌≤◌, ◌≡◌, refl, Option, none, some, List, [], ◌∷◌, ◌++◌, flat_map, append_laws,
  append-nil, arith, length,
}
use pokapali.FingerTree.Types.{IsMonoid, Measured, Digit, Elem, FingerTree, digit_to_array}
use pokapali.FingerTree.Tree.{mk_deep, viewl, viewr, node_to_digit}
use pokapali.FingerTree.Fold.{iterate_element, iterate_digit, iterate_tree, from_array}
use pokapali.FingerTree.Split.{deep_l, deep_r}
use pokapali.FingerTree.Ends.{
  viewl_list, viewr_list, viewl_list-viewl, viewr_list-viewr, iterate_digit-node_to_digit,
}
use pokapali.FingerTree.Joins.{from_array-TreeValid, iterate_tree-from_array}
use pokapali.FingerTree.Measures.{
  lift, AllValid, TreeValid, ViewlValid, ViewrValid, node_to_digit-AllValid, viewl-ViewlValid,
  viewr-ViewrValid,
}

module _ {ℓ} {V A : Type ℓ} (m : Measured V A) (laws : IsMonoid m.monoid) where
  deep_l_of_view :
      (n : ℕ) (mid : FingerTree V A (suc n)) (sf : Digit (Elem V A n))
      (w : Option (Elem V A (suc n) × FingerTree V A (suc n)))
      → viewl (lift m (suc n)) mid ≡ w
      → viewl_list (suc n) w ≡ iterate_tree (suc n) mid
      → ViewlValid m (suc n) w
      → AllValid m n (digit_to_array sf)
      → (t : FingerTree V A n) × (deep_l (lift m n) [] mid sf ≡ some t)
        × (iterate_tree n t ≡ iterate_tree (suc n) mid ++ iterate_digit V n sf)
        × TreeValid m n t
  unfolding deep_l iterate_digit mk_deep
  deep_l_of_view n mid sf none e h hw hs = (
    from_array n (lift m n) (digit_to_array sf),
    rw (e, deep_l),
    simp (← h, iterate_tree-from_array n (lift m n) (digit_to_array sf)),
    from_array-TreeValid m n (digit_to_array sf) hs,
  )
  deep_l_of_view n mid sf (some (hd, tl)) e h hw hs = (
    mk_deep (lift m n) (node_to_digit hd) tl sf,
    rw (e, deep_l),
    unfold iterate_tree in simp (← h, iterate_digit-node_to_digit n hd, append_laws),
    (refl, node_to_digit-AllValid m n hd hw.0, hw.1, hs),
  )

  -- `deepL` of split.ts does not throw on at most four elements.
  pub deep_l-some :
      (n : ℕ) (xs : List (Elem V A n)) (mid : FingerTree V A (suc n)) (sf : Digit (Elem V A n))
      → length xs ≤ 4
      → AllValid m n xs
      → TreeValid m (suc n) mid
      → AllValid m n (digit_to_array sf)
      → (t : FingerTree V A n) × (deep_l (lift m n) xs mid sf ≡ some t)
        × (iterate_tree n t
            ≡ flat_map (iterate_element V n) xs
              ++ (iterate_tree (suc n) mid ++ iterate_digit V n sf))
        × TreeValid m n t
  unfolding deep_l iterate_tree iterate_digit mk_deep
  deep_l-some n [] mid sf len hx hm hs =
      deep_l_of_view n mid sf (viewl (lift m (suc n)) mid) refl
        (viewl_list-viewl (suc n) (lift m (suc n)) mid) (viewl-ViewlValid m (suc n) mid hm) hs
  deep_l-some n (a ∷ []) mid sf len hx hm hs = (_, refl, refl, (refl, hx, hm, hs))
  deep_l-some n (a ∷ b ∷ []) mid sf len hx hm hs = (_, refl, refl, (refl, hx, hm, hs))
  deep_l-some n (a ∷ b ∷ c ∷ []) mid sf len hx hm hs = (_, refl, refl, (refl, hx, hm, hs))
  deep_l-some n (a ∷ b ∷ c ∷ d ∷ []) mid sf len hx hm hs = (_, refl, refl, (refl, hx, hm, hs))
  deep_l-some n (a ∷ b ∷ c ∷ d ∷ e ∷ xs) mid sf len hx hm hs = absurd (omega arith)

  deep_r_of_view :
      (n : ℕ) (pr : Digit (Elem V A n)) (mid : FingerTree V A (suc n))
      (w : Option (FingerTree V A (suc n) × Elem V A (suc n)))
      → viewr (lift m (suc n)) mid ≡ w
      → viewr_list (suc n) w ≡ iterate_tree (suc n) mid
      → ViewrValid m (suc n) w
      → AllValid m n (digit_to_array pr)
      → (t : FingerTree V A n) × (deep_r (lift m n) pr mid [] ≡ some t)
        × (iterate_tree n t ≡ iterate_digit V n pr ++ iterate_tree (suc n) mid)
        × TreeValid m n t
  unfolding deep_r iterate_digit mk_deep
  deep_r_of_view n pr mid none e h hw hs = (
    from_array n (lift m n) (digit_to_array pr),
    rw (e, deep_r),
    simp (← h, iterate_tree-from_array n (lift m n) (digit_to_array pr), append-nil),
    from_array-TreeValid m n (digit_to_array pr) hs,
  )
  deep_r_of_view n pr mid (some (i, l)) e h hw hs = (
    mk_deep (lift m n) pr i (node_to_digit l),
    rw (e, deep_r),
    unfold iterate_tree in simp (← h, iterate_digit-node_to_digit n l),
    (refl, hs, hw.0, node_to_digit-AllValid m n l hw.1),
  )

  pub deep_r-some :
      (n : ℕ) (pr : Digit (Elem V A n)) (mid : FingerTree V A (suc n)) (xs : List (Elem V A n))
      → length xs ≤ 4
      → AllValid m n (digit_to_array pr)
      → TreeValid m (suc n) mid
      → AllValid m n xs
      → (t : FingerTree V A n) × (deep_r (lift m n) pr mid xs ≡ some t)
        × (iterate_tree n t
            ≡ iterate_digit V n pr
              ++ (iterate_tree (suc n) mid ++ flat_map (iterate_element V n) xs))
        × TreeValid m n t
  unfolding deep_r iterate_tree iterate_digit mk_deep
  deep_r-some n pr mid [] len hp hm hx =
      let (t, e, c, v) =
        deep_r_of_view n pr mid (viewr (lift m (suc n)) mid) refl
          (viewr_list-viewr (suc n) (lift m (suc n)) mid) (viewr-ViewrValid m (suc n) mid hm) hp in
      (t, e, rw (append-nil (iterate_tree (suc n) mid)) c, v)
  deep_r-some n pr mid (a ∷ []) len hp hm hx = (_, refl, refl, (refl, hp, hm, hx))
  deep_r-some n pr mid (a ∷ b ∷ []) len hp hm hx = (_, refl, refl, (refl, hp, hm, hx))
  deep_r-some n pr mid (a ∷ b ∷ c ∷ []) len hp hm hx = (_, refl, refl, (refl, hp, hm, hx))
  deep_r-some n pr mid (a ∷ b ∷ c ∷ d ∷ []) len hp hm hx = (_, refl, refl, (refl, hp, hm, hx))
  deep_r-some n pr mid (a ∷ b ∷ c ∷ d ∷ e ∷ xs) len hp hm hx = absurd (omega arith)
