-- ===== src/Prelude/Ranges.antt =====
-- The parts of an array, as `slice` and `subarray` give them.
use Prim.Native.Nat.{ℕ, zero, suc, ◌+◌, ◌-◌, ◌≤◌}
use mathlib.Core.Path.{◌≡◌, refl, ap}
use mathlib.Core.List.{List, [], ◌∷◌, ◌++◌}
use native.Mathlib.Omega.{arith}
use pokapali.Prelude.Lists.{length}

module _ {ℓ} {A : Type ℓ} where
  unfoldable pub take : ℕ → List A → List A
  take zero bs = []
  take (suc n) [] = []
  take (suc n) (b ∷ bs) = b ∷ take n bs

  unfoldable pub drop : ℕ → List A → List A
  drop zero bs = bs
  drop (suc n) [] = []
  drop (suc n) (b ∷ bs) = drop n bs

  pub length-drop : (n : ℕ) (bs : List A) → length (drop n bs) ≤ length bs
  unfolding drop
  length-drop zero bs = omega arith
  length-drop (suc n) [] = omega arith
  length-drop (suc n) (b ∷ bs) = let ih = length-drop n bs in omega arith

  pub take-append : (n : ℕ) (xs ys : List A) → n ≤ length xs → take n (xs ++ ys) ≡ take n xs
  unfolding take
  take-append zero xs ys h = refl
  take-append (suc n) [] ys h = absurd (omega arith)
  take-append (suc n) (x ∷ xs) ys h = ap (◌∷◌ x) (take-append n xs ys (omega arith))

  pub drop-append : (n : ℕ) (xs ys : List A) → n ≤ length xs → drop n (xs ++ ys) ≡ drop n xs ++ ys
  unfolding drop
  drop-append zero xs ys h = refl
  drop-append (suc n) [] ys h = absurd (omega arith)
  drop-append (suc n) (x ∷ xs) ys h = drop-append n xs ys (omega arith)

  pub take_all : (xs : List A) → take (length xs) xs ≡ xs
  unfolding take
  take_all [] = refl
  take_all (x ∷ xs) = ap (◌∷◌ x) (take_all xs)

  pub drop_all : (xs : List A) → drop (length xs) xs ≡ []
  unfolding drop
  drop_all [] = refl
  drop_all (x ∷ xs) = drop_all xs

  pub length-take : (n : ℕ) (bs : List A) → n ≤ length bs → length (take n bs) ≡ n
  unfolding take
  length-take zero bs h = refl
  length-take (suc n) [] h = absurd (omega arith)
  length-take (suc n) (b ∷ bs) h = let ih = length-take n bs (omega arith) in omega arith

  pub length-drop_exact : (n : ℕ) (bs : List A) → n ≤ length bs → length (drop n bs) ≡ length bs - n
  unfolding drop
  length-drop_exact zero bs h = omega arith
  length-drop_exact (suc n) [] h = absurd (omega arith)
  length-drop_exact (suc n) (b ∷ bs) h =
      let ih = length-drop_exact n bs (omega arith) in omega arith

  take_nil : (n : ℕ) → take n [] ≡ []
  unfolding take
  take_nil zero = refl
  take_nil (suc n) = refl

  -- Two parts that follow each other.
  pub take_add : (m n : ℕ) (bs : List A) → take (m + n) bs ≡ take m bs ++ take n (drop m bs)
  unfolding take drop
  take_add zero n bs = let same : 0 + n ≡ n = omega arith in ap (λ k. take k bs) same
  take_add (suc m) n [] =
      let next : suc m + n ≡ suc (m + n) = omega arith in rw (next, take_nil n) refl
  take_add (suc m) n (b ∷ bs) =
      let next : suc m + n ≡ suc (m + n) = omega arith in
      rw next (ap (λ l. b ∷ l) (take_add m n bs))
