-- ===== src/Facts/Views/Sorting.antt =====
-- packages/core/src/facts.ts: the order and the items of what the version histories sort.
use pokapali.Prelude.{
  ◌⊎◌, ◌↔◌, ℕ, suc, ◌≤◌, ◌≡◌, refl, ap, ◌∙◌, List, [], ◌∷◌, arith, leb, leb→le, length, Bool-cases,
  inl, inr,
}
use pokapali.Facts.Views.{insert_desc, sort_desc}

-- The predicate holds of an item.
abbrev pub Any {ℓ} : {A : Type ℓ} → (A → Type 0) → List A → Type 0
Any P [] = ⊥
Any P (x ∷ xs) = P x ⊎ Any P xs

module _ {ℓ} {A : Type ℓ} (seq : A → ℕ) where
  -- Every number is at most `n`; and each is at least those that follow.
  abbrev pub AllBelow : ℕ → List A → Type 0
  AllBelow n [] = Unit
  AllBelow n (x ∷ xs) = (seq x ≤ n) × AllBelow n xs

  abbrev pub Descending : List A → Type 0
  Descending [] = Unit
  Descending (x ∷ xs) = AllBelow (seq x) xs × Descending xs

  below_weaken : (n k : ℕ) (xs : List A) → n ≤ k → AllBelow n xs → AllBelow k xs
  below_weaken n k [] le h = tt
  below_weaken n k (x ∷ xs) le h = (omega arith, below_weaken n k xs le h.1)

  insert_below :
      (n : ℕ) (a : A) (xs : List A) → seq a ≤ n → AllBelow n xs → AllBelow n (insert_desc seq a xs)
  unfolding insert_desc
  insert_below n a [] ha h = (ha, tt)
  insert_below n a (x ∷ xs) ha h = elim (Bool-cases (leb (seq x) (seq a))) [
    | inl q ↦ rw q (ha, h)
    | inr q ↦ rw q (h.0, insert_below n a xs ha h.1)
  ]

  insert-Descending : (a : A) (xs : List A) → Descending xs → Descending (insert_desc seq a xs)
  unfolding insert_desc
  insert-Descending a [] h = (tt, tt)
  insert-Descending a (x ∷ xs) h = elim (Bool-cases (leb (seq x) (seq a))) [
    | inl q ↦
        let le : seq x ≤ seq a = leb→le _ _ q in
        rw q ((le, below_weaken (seq x) (seq a) xs le h.0), h)
    | inr q ↦ rw q (insert_below (seq x) a xs (ground arith) h.0, insert-Descending a xs h.1)
  ]

  pub sort_desc-Descending : (xs : List A) → Descending (sort_desc seq xs)
  unfolding sort_desc
  sort_desc-Descending [] = tt
  sort_desc-Descending (x ∷ xs) = insert-Descending x (sort_desc seq xs) (sort_desc-Descending xs)

  module _ (P : A → Type 0) where
    pub insert-Any : (x : A) (xs : List A) → Any P (x ∷ xs) ↔ Any P (insert_desc seq x xs)
    unfolding insert_desc
    insert-Any x [] = (λ h. h, λ h. h)
    insert-Any x (y ∷ ys) = elim (Bool-cases (leb (seq y) (seq x))) [
      | inl q ↦ rw q (λ h. h, λ h. h)
      | inr q ↦ let (to, from) = insert-Any x ys in rw q (swap_in to, swap_out from)
    ]
      where
        swap_in : {X Y Z W : Type 0} → (X ⊎ Z → W) → X ⊎ (Y ⊎ Z) → Y ⊎ W
        swap_in f (inl x) = inr (f (inl x))
        swap_in f (inr (inl y)) = inl y
        swap_in f (inr (inr z)) = inr (f (inr z))

        swap_out : {X Y Z W : Type 0} → (W → X ⊎ Z) → Y ⊎ W → X ⊎ (Y ⊎ Z)
        swap_out f (inl y) = inr (inl y)
        swap_out f (inr w) = elim (f w) [ inl x ↦ inl x | inr z ↦ inr (inr z) ]

    -- Sorting neither adds nor drops an item with the property.
    pub sort-Any : (xs : List A) → Any P xs ↔ Any P (sort_desc seq xs)
    unfolding sort_desc
    sort-Any [] = (λ h. h, λ h. h)
    sort-Any (x ∷ xs) =
        let (to, from) = sort-Any xs in
        let (in_to, in_from) = insert-Any x (sort_desc seq xs) in
        (λ h. in_to (right to h), λ h. right from (in_from h))
      where
        right : {X Y Z : Type 0} → (Y → Z) → X ⊎ Y → X ⊎ Z
        right f (inl x) = inl x
        right f (inr y) = inr (f y)

  length-insert_desc : (x : A) (xs : List A) → length (insert_desc seq x xs) ≡ suc (length xs)
  unfolding insert_desc
  length-insert_desc x [] = refl
  length-insert_desc x (y ∷ ys) = elim (Bool-cases (leb (seq y) (seq x))) [
    | inl q ↦ rw q
    | inr q ↦ rw q (ap suc (length-insert_desc x ys))
  ]

  pub length-sort_desc : (xs : List A) → length (sort_desc seq xs) ≡ length xs
  unfolding sort_desc
  length-sort_desc [] = refl
  length-sort_desc (x ∷ xs) = length-insert_desc x (sort_desc seq xs) ∙ ap suc (length-sort_desc xs)
