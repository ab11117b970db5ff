-- ===== src/FingerTree/Split.antt =====
-- packages/finger-tree/src/split.ts. `none` is a throw, or `undefined` where the source says so.
use pokapali.Prelude.{ℕ, suc, Bool, Option, none, some, List, [], ◌∷◌, ◌++◌, ◌>>=◌, if◌then◌else◌}
use pokapali.FingerTree.Types.{
  Measured, Digit, one, two, three, four, Elem, FingerTree, empty, single, deep, node_to_array,
  node_measured, digit_measure, digit_to_array,
}
use pokapali.FingerTree.Tree.{cons, viewl, viewr, mk_deep, measure_tree, is_empty, node_to_digit}
use pokapali.FingerTree.Fold.{from_array}

pub record DigitSplit {ℓ} (A : Type ℓ) : Type ℓ where
  pub left : List A
  pub value : A
  pub right : List A

pub record Split {ℓ} (V A : Type ℓ) (n : ℕ) : Type ℓ where
  pub left : FingerTree V A n
  pub value : Elem V A n
  pub right : FingerTree V A n

module _ {ℓ} {A : Type ℓ} where
  -- What follows the loop; on an empty array the source's value is undefined: `none`.
  unfoldable pub split_at_last : List A → Option (DigitSplit A)
  split_at_last [] = none
  split_at_last (x ∷ []) = some (record { left = []; value = x; right = [] })
  split_at_last (x ∷ y ∷ xs) = do d ← split_at_last (y ∷ xs); some (record d { left = x ∷ d.left })

module _ {ℓ} {V A : Type ℓ} where
  -- The loop of `splitDigitArr`: `before` is `xs.slice(0, i)`.
  unfoldable pub split_scan :
      Measured V A → (V → Bool) → V → List A → List A → Option (DigitSplit A)
  split_scan m p running before [] = none
  split_scan m p running before (x ∷ xs) =
      let next = m.monoid.append running (m.measure x) in
      let later = split_scan m p next (before ++ x ∷ []) xs in
      if p next then some (record { left = before; value = x; right = xs }) else later

  unfoldable pub split_digit_arr : Measured V A → (V → Bool) → V → List A → Option (DigitSplit A)
  unfolding split_scan split_at_last
  split_digit_arr m p acc xs = elim (split_scan m p acc [] xs) [
    | some d ↦ some d
    | none ↦ split_at_last xs
  ]

  unfoldable pub split_digit : Measured V A → (V → Bool) → V → Digit A → Option (DigitSplit A)
  unfolding split_digit_arr
  split_digit m p acc d = split_digit_arr m p acc (digit_to_array d)

module _ {ℓ} {A : Type ℓ} where
  unfoldable pub arr_to_digit : List A → Option (Digit A)
  arr_to_digit (a ∷ []) = some (one a)
  arr_to_digit (a ∷ b ∷ []) = some (two a b)
  arr_to_digit (a ∷ b ∷ c ∷ []) = some (three a b c)
  arr_to_digit (a ∷ b ∷ c ∷ d ∷ []) = some (four a b c d)
  arr_to_digit _ = none

module _ {ℓ} {V A : Type ℓ} where
  unfoldable pub digit_to_tree :
      (n : ℕ) → Measured V (Elem V A n) → Digit (Elem V A n) → FingerTree V A n
  unfolding from_array
  digit_to_tree n m d = from_array n m (digit_to_array d)

  unfoldable pub deep_l :
      {n : ℕ}
      → Measured V (Elem V A n)
      → List (Elem V A n)
      → FingerTree V A (suc n)
      → Digit (Elem V A n)
      → Option (FingerTree V A n)
  unfolding digit_to_tree viewl mk_deep node_to_digit arr_to_digit
  deep_l {n} m [] mid sf = elim (viewl (node_measured m) mid) [
    | none ↦ some (digit_to_tree n m sf)
    | some (h, t) ↦ some (mk_deep m (node_to_digit h) t sf)
  ]
  deep_l m (x ∷ xs) mid sf = do pr ← arr_to_digit (x ∷ xs); some (mk_deep m pr mid sf)

  unfoldable pub deep_r :
      {n : ℕ}
      → Measured V (Elem V A n)
      → Digit (Elem V A n)
      → FingerTree V A (suc n)
      → List (Elem V A n)
      → Option (FingerTree V A n)
  unfolding digit_to_tree viewr mk_deep node_to_digit arr_to_digit
  deep_r {n} m pr mid [] = elim (viewr (node_measured m) mid) [
    | none ↦ some (digit_to_tree n m pr)
    | some (i, l) ↦ some (mk_deep m pr i (node_to_digit l))
  ]
  deep_r m pr mid (x ∷ xs) = do sf ← arr_to_digit (x ∷ xs); some (mk_deep m pr mid sf)

  -- The three branches of `splitTree` on a deep tree; the middle one is given the recursive call.
  unfoldable pub split_prefix :
      {n : ℕ}
      → Measured V (Elem V A n)
      → (V → Bool)
      → V
      → Digit (Elem V A n)
      → FingerTree V A (suc n)
      → Digit (Elem V A n)
      → Option (Split V A n)
  unfolding split_digit deep_l from_array
  split_prefix {n} m p acc pr mid sf = do
    ds ← split_digit m p acc pr
    right ← deep_l m ds.right mid sf
    some (record { left = from_array n m ds.left; value = ds.value; right = right })

  unfoldable pub split_middle :
      {n : ℕ}
      → Measured V (Elem V A n)
      → (V → Bool)
      → V
      → Digit (Elem V A n)
      → Digit (Elem V A n)
      → Split V A (suc n)
      → Option (Split V A n)
  unfolding split_digit_arr deep_l deep_r measure_tree
  split_middle m p acc_pr pr sf ms = do
    ds ←
        split_digit_arr m p (m.monoid.append acc_pr (measure_tree (node_measured m) ms.left))
          (node_to_array ms.value)
    left ← deep_r m pr ms.left ds.left
    right ← deep_l m ds.right ms.right sf
    some (record { left = left; value = ds.value; right = right })

  unfoldable pub split_suffix :
      {n : ℕ}
      → Measured V (Elem V A n)
      → (V → Bool)
      → V
      → Digit (Elem V A n)
      → FingerTree V A (suc n)
      → Digit (Elem V A n)
      → Option (Split V A n)
  unfolding split_digit deep_r from_array
  split_suffix {n} m p acc_mid pr mid sf = do
    ds ← split_digit m p acc_mid sf
    left ← deep_r m pr mid ds.left
    some (record { left = left; value = ds.value; right = from_array n m ds.right })

  unfoldable pub split_tree :
      {n : ℕ} → Measured V (Elem V A n) → (V → Bool) → V → FingerTree V A n → Option (Split V A n)
  unfolding split_prefix split_middle split_suffix
  split_tree m p acc empty = none
  split_tree m p acc (single a) = some (record { left = empty; value = a; right = empty })
  split_tree m p acc (deep v pr mid sf) =
      let acc_pr = m.monoid.append acc (digit_measure m pr) in
      let acc_mid = m.monoid.append acc_pr (measure_tree (node_measured m) mid) in
      let in_middle = split_tree (node_measured m) p acc_pr mid >>= split_middle m p acc_pr pr sf in
      if p acc_pr
      then split_prefix m p acc pr mid sf
      else if p acc_mid
      then in_middle
      else split_suffix m p acc_mid pr mid sf

-- What a call of `split` does: it returns undefined or a split, or it throws.
pub data Outcome {ℓ} (S : Type ℓ) : Type ℓ where
  undefined : Outcome S
  found : S → Outcome S
  thrown : Outcome S

abbrev pub returned {ℓ} : {S : Type ℓ} → Option S → Outcome S
returned none = thrown
returned (some s) = found s

module _ {ℓ} {V A : Type ℓ} where
  unfoldable pub split :
      {n : ℕ} → Measured V (Elem V A n) → (V → Bool) → FingerTree V A n → Outcome (Split V A n)
  unfolding split_tree measure_tree is_empty
  split m p t =
      if is_empty t
      then undefined
      else if p (measure_tree m t)
      then returned (split_tree m p m.monoid.empty t)
      else undefined

  -- Both throw where `split` does: `none`.
  unfoldable pub take_until :
      {n : ℕ} → Measured V (Elem V A n) → (V → Bool) → FingerTree V A n → Option (FingerTree V A n)
  unfolding split
  take_until m p t = elim (split m p t) [
    | undefined ↦ some t
    | found s ↦ some s.left
    | thrown ↦ none
  ]

  unfoldable pub drop_until :
      {n : ℕ} → Measured V (Elem V A n) → (V → Bool) → FingerTree V A n → Option (FingerTree V A n)
  unfolding split cons
  drop_until m p t = elim (split m p t) [
    | undefined ↦ some empty
    | found s ↦ some (cons m s.value s.right)
    | thrown ↦ none
  ]
