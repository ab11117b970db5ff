-- ===== src/Sync/Session/Prefixes.antt =====
-- packages/sync/src/reconciliation/session.ts: a bit of a byte that is set or cleared.
pub mod Halves
use Prim.Native.Nat.{bit_and, bit_or}
use pokapali.Prelude.{
  ℕ, zero, suc, ◌-◌, ◌/◌, ◌%◌, ◌^◌, ◌<◌, ◌≡◌, refl, sym, subst, inl, inr, Bool, true, false, leb,
  leb→le, ltb, ltb→lt, ◌==◌, ==_iff, if◌then◌else◌, Bool-cases, arith,
}

-- Does the test hold of all numbers below the bound?
unfoldable all_below : ℕ → (ℕ → Bool) → Bool
all_below zero f = true
all_below (suc n) f = let rest = all_below n f in if f n then rest else false

abbrev pub bit_at : ℕ → ℕ → Bool
bit_at v j = v / 2 ^ j % 2 == 1

abbrev same : Bool → Bool → Bool
same true b = b
same false true = false
same false false = true

table_or :
    all_below 8 (λ k. all_below 8 (λ j.
      all_below 256
        (λ v. same (bit_at (bit_or v (2 ^ k)) j) (if j == k then true else bit_at v j))))
    ≡ true
unfolding all_below
table_or = refl

table_and :
    all_below 8 (λ k. all_below 8 (λ j.
      all_below 256
        (λ v. same (bit_at (bit_and v (255 - 2 ^ k)) j) (if j == k then false else bit_at v j))))
    ≡ true
unfolding all_below
table_and = refl

-- A byte that is set stays a byte.
table_size : all_below 8 (λ k. all_below 256 (λ v. ltb (bit_or v (2 ^ k)) 256)) ≡ true
unfolding all_below
table_size = refl

table_size_and : all_below 8 (λ k. all_below 256 (λ v. ltb (bit_and v (255 - 2 ^ k)) 256)) ≡ true
unfolding all_below
table_size_and = refl

all_below-at : (n : ℕ) (f : ℕ → Bool) (v : ℕ) → all_below n f ≡ true → v < n → f v ≡ true
unfolding all_below
all_below-at zero f v h k = absurd (omega arith)
all_below-at (suc n) f v h k = elim (Bool-cases (f n)) [
  | inr e ↦ let bad = rw e at h in cc
  | inl e ↦ elim (Bool-cases (v == n)) [
    | inl q ↦ subst (λ x. f x ≡ true) (sym ((==_iff v n).0 q)) e
    | inr q ↦ all_below-at n f v (rw e at h) (ground arith)
  ]
]

same→eq : (a b : Bool) → same a b ≡ true → a ≡ b
same→eq true true h = refl
same→eq true false h = sym h
same→eq false true h = h
same→eq false false h = refl

-- The byte with bit `k` set or cleared, as `childPrefix` writes it.
abbrev pub written : ℕ → ℕ → Bool → ℕ
written v k true = bit_or v (2 ^ k)
written v k false = bit_and v (255 - 2 ^ k)

pub written-bit :
    (v k j : ℕ) (b : Bool)
    → v < 256
    → k < 8
    → j < 8
    → bit_at (written v k b) j ≡ (if j == k then b else bit_at v j)
written-bit v k j true p q r =
    same→eq _ _ (all_below-at 256 _ v (all_below-at 8 _ j (all_below-at 8 _ k table_or q) r) p)
written-bit v k j false p q r =
    same→eq _ _ (all_below-at 256 _ v (all_below-at 8 _ j (all_below-at 8 _ k table_and q) r) p)

pub written-size : (v k : ℕ) (b : Bool) → v < 256 → k < 8 → written v k b < 256
written-size v k true p q = ltb→lt _ 256 (all_below-at 256 _ v (all_below-at 8 _ k table_size q) p)
written-size v k false p q =
    ltb→lt _ 256 (all_below-at 256 _ v (all_below-at 8 _ k table_size_and q) p)
