-- ===== src/FingerTree/Splitting/Cuts.antt =====
-- Where the scan of an array cuts it, in split.ts.
use pokapali.Prelude.{
  ℕ, ◌≡◌, refl, sym, Bool, true, false, some, List, [], ◌∷◌, ◌++◌, flat_map, append_assoc,
  append-nil, Bool-cases, inl, inr,
}
use pokapali.FingerTree.Types.{IsMonoid, Measured, Elem}
use pokapali.FingerTree.Fold.{iterate_element}
use pokapali.FingerTree.Split.{DigitSplit, split_scan, split_digit_arr}
use pokapali.FingerTree.Measures.{
  elem_measure, lift, total, AllValid, total-append, elem_measure-eq,
}

-- The measure accumulated over an array from `acc`, as the loops add it up.
module _ {ℓ} {V A : Type ℓ} (m : Measured V A) where
  abbrev pub run : V → List A → V
  run acc [] = acc
  run acc (x ∷ xs) = run (m.monoid.append acc (m.measure x)) xs

  run-append : (acc : V) (xs ys : List A) → run acc (xs ++ ys) ≡ run (run acc xs) ys
  run-append acc [] ys = refl
  run-append acc (x ∷ xs) ys = run-append (m.monoid.append acc (m.measure x)) xs ys

-- A cut of an array: the predicate is false before the value and true with it.
module _ {ℓ} {V A : Type ℓ} (m : Measured V A) (p : V → Bool) where
  pub record CutsAt (acc : V) (xs : List A) (d : DigitSplit A) : Type ℓ where
    pub parts : xs ≡ d.left ++ d.value ∷ d.right
    pub before : p (run m acc d.left) ≡ false
    pub after : p (m.monoid.append (run m acc d.left) (m.measure d.value)) ≡ true

  split_scan_cuts :
      (acc : V) (before xs : List A)
      → p (run m acc before) ≡ false
      → p (run m acc (before ++ xs)) ≡ true
      → (d : DigitSplit A) × (split_scan m p (run m acc before) before xs ≡ some d)
        × CutsAt acc (before ++ xs) d
  unfolding split_scan
  split_scan_cuts acc before [] h k = cc (append-nil before)
  split_scan_cuts acc before (x ∷ xs) h k =
      elim (Bool-cases (p (m.monoid.append (run m acc before) (m.measure x)))) [
        | inl hit ↦ (
          record { left = before; value = x; right = xs },
          rw hit,
          record { parts = refl; before = h; after = hit },
        )
        | inr miss ↦
            let (d, eq, cut) =
              split_scan_cuts acc (before ++ x ∷ []) xs (rw (run-append m acc before (x ∷ [])) miss)
                (rw (append_assoc before (x ∷ []) xs) k) in
            (
              d,
              rw miss (rw (run-append m acc before (x ∷ [])) at eq),
              rw (append_assoc before (x ∷ []) xs) at cut,
            )
      ]

  pub split_digit_arr_cuts :
      (acc : V) (xs : List A)
      → p acc ≡ false
      → p (run m acc xs) ≡ true
      → (d : DigitSplit A) × (split_digit_arr m p acc xs ≡ some d) × CutsAt acc xs d
  unfolding split_digit_arr
  split_digit_arr_cuts acc xs h k =
      let (d, eq, cut) = split_scan_cuts acc [] xs h k in (d, rw (eq, split_digit_arr), cut)

module _ {ℓ} {V A : Type ℓ} (m : Measured V A) (laws : IsMonoid m.monoid) where
  -- Running over elements whose caches are right adds the measure of their values.
  pub run-eq :
      (n : ℕ) (acc : V) (xs : List (Elem V A n))
      → AllValid m n xs
      → run (lift m n) acc xs ≡ m.monoid.append acc (total m (flat_map (iterate_element V n) xs))
  run-eq n acc [] h = sym (laws.append-empty acc)
  run-eq n acc (x ∷ xs) h =
      rw (run-eq n (m.monoid.append acc (elem_measure m n x)) xs h.1)
        (simp (elem_measure-eq m laws n x h.0, total-append m laws, laws.assoc))

module _ {ℓ} {V A : Type ℓ} (m : Measured V A) where
  pub AllValid-append :
      (n : ℕ) (xs ys : List (Elem V A n))
      → AllValid m n (xs ++ ys)
      → AllValid m n xs × AllValid m n ys
  AllValid-append n [] ys h = (tt, h)
  AllValid-append n (x ∷ xs) ys h = let (a, b) = AllValid-append n xs ys h.1 in ((h.0, a), b)
