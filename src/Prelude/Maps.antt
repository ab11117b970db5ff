-- ===== src/Prelude/Maps.antt =====
-- A JavaScript `Map` as the list of its entries, and a `Set` as the list of its elements, both in
-- the order of insertion: setting a key that is there keeps its place.
use mathlib.Core.Path.{◌≡◌, refl, sym, ◌∙◌, subst}
use mathlib.Core.Bool.{Bool, true, false, false≢true}
use mathlib.Core.Option.{Option, none, some}
use mathlib.Core.List.{List, [], ◌∷◌}
use mathlib.Core.Logic.{◌≢◌}
use pokapali.Prelude.Tests.{if◌then◌else◌, Bool-cases}
use pokapali.Prelude.Equality.{Eq, ◌===◌, ===-refl}
use mathlib.Core.Logic.{inl, inr}
use pokapali.Prelude.Options.{some_inj}

abbrev pub Map {ℓ κ} : Type ℓ → Type κ → Type (ℓ ⊔ κ)
Map K V = List (K × V)

module _ {ℓ κ} {K : Type ℓ} {V : Type κ} ⦃e : Eq K⦄ where
  unfoldable pub map_get : K → Map K V → Option V
  map_get k [] = none
  map_get k ((j, v) ∷ m) = if j === k then some v else map_get k m

  unfoldable pub map_set : K → V → Map K V → Map K V
  map_set k v [] = (k, v) ∷ []
  map_set k v ((j, w) ∷ m) = if j === k then (j, v) ∷ m else (j, w) ∷ map_set k v m

  unfoldable pub map_delete : K → Map K V → Map K V
  map_delete k [] = []
  map_delete k ((j, w) ∷ m) = let rest = map_delete k m in if j === k then rest else (j, w) ∷ rest

  abbrev pub AllEntries {ι} : (K → V → Type ι) → Map K V → Type ι
  AllEntries P [] = Unit
  AllEntries P ((k, v) ∷ m) = P k v × AllEntries P m

  pub map_get-map_set_self : (k : K) (v : V) (m : Map K V) → map_get k (map_set k v m) ≡ some v
  unfolding map_get map_set
  map_get-map_set_self k v [] = rw (===-refl k)
  map_get-map_set_self k v ((j, w) ∷ m) = elim (Bool-cases (j === k)) [
    | inl h ↦ rw h (rw h)
    | inr h ↦ rw h (rw h (map_get-map_set_self k v m))
  ]

  pub map_get-map_set_ne :
      (k j : K) (v : V) (m : Map K V) → k ≢ j → map_get j (map_set k v m) ≡ map_get j m
  unfolding map_get map_set
  map_get-map_set_ne k j v [] ne = elim (Bool-cases (k === j)) [
    | inl h ↦ absurd (ne ((e.beq_iff k j).0 h))
    | inr h ↦ rw h
  ]
  map_get-map_set_ne k j v ((i, w) ∷ m) ne = elim (Bool-cases (i === k)) [
    | inl h ↦ elim (Bool-cases (i === j)) [
      | inl h' ↦ absurd (ne (sym ((e.beq_iff i k).0 h) ∙ (e.beq_iff i j).0 h'))
      | inr h' ↦ rw h (rw h')
    ]
    | inr h ↦ elim (Bool-cases (i === j)) [
      | inl h' ↦ rw h (rw h')
      | inr h' ↦ rw h (rw h' (map_get-map_set_ne k j v m ne))
    ]
  ]

  pub map_get-map_set :
      (k j : K) (v : V) (m : Map K V)
      → map_get j (map_set k v m) ≡ (if k === j then some v else map_get j m)
  map_get-map_set k j v m = elim (Bool-cases (k === j)) [
    | inl h ↦ rw h (
        subst (λ x. map_get x (map_set k v m) ≡ some v) ((e.beq_iff k j).0 h)
          (map_get-map_set_self k v m))
    | inr h ↦ rw h (map_get-map_set_ne k j v m (λ q. false≢true (sym h ∙ (e.beq_iff k j).1 q)))
  ]

  -- What holds of every entry holds of the one that is found.
  pub AllEntries-map_get {ι} :
      (P : K → V → Type ι) (k : K) (v : V) (m : Map K V)
      → AllEntries P m
      → map_get k m ≡ some v
      → P k v
  unfolding map_get
  AllEntries-map_get P k v [] h g = cc
  AllEntries-map_get P k v ((j, w) ∷ m) h g = elim (Bool-cases (j === k)) [
    | inl q ↦ subst (λ x. P x v) ((e.beq_iff j k).0 q) (subst (P j) (some_inj (rw q at g)) h.0)
    | inr q ↦ AllEntries-map_get P k v m h.1 (rw q at g)
  ]

  pub AllEntries-map_set {ι} :
      (P : K → V → Type ι) (k : K) (v : V) (m : Map K V)
      → AllEntries P m
      → P k v
      → AllEntries P (map_set k v m)
  unfolding map_set
  AllEntries-map_set P k v [] h p = (p, tt)
  AllEntries-map_set P k v ((j, w) ∷ m) h p = elim (Bool-cases (j === k)) [
    | inl q ↦ rw q (subst (λ x. P x v) (sym ((e.beq_iff j k).0 q)) p, h.1)
    | inr q ↦ rw q (h.0, AllEntries-map_set P k v m h.1 p)
  ]

module _ {ℓ} {A : Type ℓ} ⦃e : Eq A⦄ where
  unfoldable pub set_has : A → List A → Bool
  set_has a [] = false
  set_has a (x ∷ xs) = if x === a then true else set_has a xs

  -- `new Set([...xs, a])`
  unfoldable pub set_add : A → List A → List A
  set_add a [] = a ∷ []
  set_add a (x ∷ xs) = if x === a then x ∷ xs else x ∷ set_add a xs

  unfoldable pub set_delete : A → List A → List A
  set_delete a [] = []
  set_delete a (x ∷ xs) = let rest = set_delete a xs in if x === a then rest else x ∷ rest

  -- What equals `x` does not equal what differs from `x`.
  apart : (a b x : A) → (x === a) ≡ false → (x === b) ≡ true → (a === b) ≡ false
  apart a b x h q = elim (Bool-cases (a === b)) [
    | inr r ↦ r
    | inl r ↦
        absurd
          (false≢true (sym h ∙ (e.beq_iff x a).1 ((e.beq_iff x b).0 q ∙ sym ((e.beq_iff a b).0 r))))
  ]

  pub set_has-set_add :
      (a b : A) (xs : List A) → set_has b (set_add a xs) ≡ (if a === b then true else set_has b xs)
  unfolding set_has set_add
  set_has-set_add a b [] = refl
  set_has-set_add a b (x ∷ xs) = elim (Bool-cases (x === a)) [
    | inl h ↦
        rw (h, ← (e.beq_iff x a).0 h) (elim (Bool-cases (x === b)) [ inl q ↦ rw q | inr q ↦ rw q ])
    | inr h ↦ rw h (elim (Bool-cases (x === b)) [
      | inl q ↦ rw q (elim (Bool-cases (a === b)) [ inl r ↦ rw r | inr r ↦ rw r ])
      | inr q ↦ rw q (set_has-set_add a b xs)
    ])
  ]

  pub set_has-set_delete :
      (a b : A) (xs : List A)
      → set_has b (set_delete a xs) ≡ (if a === b then false else set_has b xs)
  unfolding set_has set_delete
  set_has-set_delete a b [] = elim (Bool-cases (a === b)) [ inl r ↦ rw r | inr r ↦ rw r ]
  set_has-set_delete a b (x ∷ xs) =
      let ih = set_has-set_delete a b xs in
      elim (Bool-cases (x === a)) [
        | inl h ↦ elim (Bool-cases (a === b)) [
          | inl r ↦ rw (h, r) (rw r at ih)
          | inr r ↦
              rw (h, r, subst (λ y. (y === b) ≡ false) (sym ((e.beq_iff x a).0 h)) r) (rw r at ih)
        ]
        | inr h ↦ elim (Bool-cases (x === b)) [
          | inl q ↦ rw (h, q, apart a b x h q)
          | inr q ↦ rw (h, q) ih
        ]
      ]

module _ {ℓ κ} {K : Type ℓ} {V : Type κ} ⦃e : Eq K⦄ where
  pub map_get-map_delete :
      (k j : K) (m : Map K V) → map_get j (map_delete k m) ≡ (if k === j then none else map_get j m)
  unfolding map_get map_delete
  map_get-map_delete k j [] = elim (Bool-cases (k === j)) [ inl r ↦ rw r | inr r ↦ rw r ]
  map_get-map_delete k j ((i, w) ∷ m) =
      let ih = map_get-map_delete k j m in
      elim (Bool-cases (i === k)) [
        | inl h ↦ elim (Bool-cases (k === j)) [
          | inl r ↦ rw (h, r) (rw r at ih)
          | inr r ↦
              rw (h, r, subst (λ y. (y === j) ≡ false) (sym ((e.beq_iff i k).0 h)) r) (rw r at ih)
        ]
        | inr h ↦ elim (Bool-cases (i === j)) [
          | inl q ↦ rw (h, q, apart k j i h q)
          | inr q ↦ rw (h, q) ih
        ]
      ]
