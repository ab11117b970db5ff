-- ===== src/FingerTree/Types.antt =====
-- packages/finger-tree/src/monoid.ts, types.ts, node.ts and digit.ts.
use pokapali.Prelude.{ℕ, zero, suc, Option, none, some, List, [], ◌∷◌, ◌≡◌}

-- `Monoid<V>`
pub record Monoid {ℓ} (V : Type ℓ) : Type ℓ where
  pub empty : V
  pub append : V → V → V

-- What the doc comment of `Monoid` asks of an instance.
pub record IsMonoid {ℓ} {V : Type ℓ} (M : Monoid V) : Type ℓ where
  pub empty-append : (a : V) → M.append M.empty a ≡ a
  pub append-empty : (a : V) → M.append a M.empty ≡ a
  pub assoc : (a b c : V) → M.append (M.append a b) c ≡ M.append a (M.append b c)

-- `Measured<V, A>`
pub record Measured {ℓ} (V A : Type ℓ) : Type ℓ where
  pub monoid : Monoid V
  pub measure : A → V

pub data Node {ℓ} (V A : Type ℓ) : Type ℓ where
  node2 : V → A → A → Node V A
  node3 : V → A → A → A → Node V A

pub data Digit {ℓ} (A : Type ℓ) : Type ℓ where
  one : A → Digit A
  two : A → A → Digit A
  three : A → A → A → Digit A
  four : A → A → A → A → Digit A

-- An element at nesting depth n: a value at depth 0, a node of elements of depth n at depth n + 1.
abbrev pub Elem {ℓ} : Type ℓ → Type ℓ → ℕ → Type ℓ
Elem V A zero = A
Elem V A (suc n) = Node V (Elem V A n)

-- A tree whose elements stand at depth n; a `FingerTree<V, A>` of the source has depth 0.
pub data FingerTree {ℓ} (V A : Type ℓ) : ℕ → Type ℓ where
  empty : {n : ℕ} → FingerTree V A n
  single : {n : ℕ} → Elem V A n → FingerTree V A n
  deep :
      {n : ℕ}
      → V
      → Digit (Elem V A n)
      → FingerTree V A (suc n)
      → Digit (Elem V A n)
      → FingerTree V A n

module _ {ℓ} {V A : Type ℓ} where
  -- `node2` and `node3` of node.ts, which compute the cached measure
  unfoldable pub mk_node2 : Measured V A → A → A → Node V A
  mk_node2 m a b = node2 (m.monoid.append (m.measure a) (m.measure b)) a b

  unfoldable pub mk_node3 : Measured V A → A → A → A → Node V A
  mk_node3 m a b c =
      node3 (m.monoid.append (m.monoid.append (m.measure a) (m.measure b)) (m.measure c)) a b c

  abbrev pub node_to_array : Node V A → List A
  node_to_array (node2 v a b) = a ∷ b ∷ []
  node_to_array (node3 v a b c) = a ∷ b ∷ c ∷ []

  abbrev pub node_v : Node V A → V
  node_v (node2 v a b) = v
  node_v (node3 v a b c) = v

  abbrev pub node_measured : Measured V A → Measured V (Node V A)
  node_measured m = record { monoid = m.monoid; measure = node_v }

  abbrev pub digit_measure : Measured V A → Digit A → V
  digit_measure m (one a) = m.measure a
  digit_measure m (two a b) = m.monoid.append (m.measure a) (m.measure b)
  digit_measure m (three a b c) =
      m.monoid.append (m.monoid.append (m.measure a) (m.measure b)) (m.measure c)
  digit_measure m (four a b c d) =
      m.monoid.append (m.monoid.append (m.monoid.append (m.measure a) (m.measure b)) (m.measure c))
        (m.measure d)

module _ {ℓ} {A : Type ℓ} where
  abbrev pub digit_to_array : Digit A → List A
  digit_to_array (one a) = a ∷ []
  digit_to_array (two a b) = a ∷ b ∷ []
  digit_to_array (three a b c) = a ∷ b ∷ c ∷ []
  digit_to_array (four a b c d) = a ∷ b ∷ c ∷ d ∷ []

  -- `none` is a throw.
  unfoldable cons_digit : A → Digit A → Option (Digit A)
  cons_digit x (one a) = some (two x a)
  cons_digit x (two a b) = some (three x a b)
  cons_digit x (three a b c) = some (four x a b c)
  cons_digit x (four a b c d) = none

  unfoldable snoc_digit : Digit A → A → Option (Digit A)
  snoc_digit (one a) x = some (two a x)
  snoc_digit (two a b) x = some (three a b x)
  snoc_digit (three a b c) x = some (four a b c x)
  snoc_digit (four a b c d) x = none

  abbrev pub digit_head : Digit A → A
  digit_head (one a) = a
  digit_head (two a b) = a
  digit_head (three a b c) = a
  digit_head (four a b c d) = a

  abbrev pub digit_tail : Digit A → Option (Digit A)
  digit_tail (one a) = none
  digit_tail (two a b) = some (one b)
  digit_tail (three a b c) = some (two b c)
  digit_tail (four a b c d) = some (three b c d)

  abbrev pub digit_last : Digit A → A
  digit_last (one a) = a
  digit_last (two a b) = b
  digit_last (three a b c) = c
  digit_last (four a b c d) = d

  abbrev pub digit_init : Digit A → Option (Digit A)
  digit_init (one a) = none
  digit_init (two a b) = some (one a)
  digit_init (three a b c) = some (two a b)
  digit_init (four a b c d) = some (three a b c)
