-- ===== src/Limiters/Windows.antt =====
-- packages/node/src/rate-limiter.ts and new-name-limiter.ts: the times in a window.
use pokapali.Prelude.{
  ℕ, ◌+◌, ◌≤◌, ◌<◌, ◌≡◌, refl, true, false, List, [], ◌∷◌, ◌++◌, ltb, leb, Bool-cases, inl, inr,
  arith,
}
use pokapali.Limiters.{hour_ms, recent, shift_old}

module _ (window : ℕ) where
  -- What an earlier pruning drops, a later one drops.
  pub recent-recent :
      (past now : ℕ) (ts : List ℕ)
      → past ≤ now
      → recent window now (recent window past ts) ≡ recent window now ts
  unfolding recent
  recent-recent past now [] le = refl
  recent-recent past now (t ∷ ts) le =
      let ih = recent-recent past now ts le in
      elim (Bool-cases (ltb past (t + window))) [
        | inl h ↦ rw (h, recent, ih)
        | inr h ↦ let old : ltb now (t + window) ≡ false = ground arith in rw (h, old) ih
      ]

  pub recent-append :
      (now : ℕ) (xs ys : List ℕ)
      → recent window now (xs ++ ys) ≡ recent window now xs ++ recent window now ys
  unfolding recent
  recent-append now [] ys = refl
  recent-append now (t ∷ xs) ys =
      let ih = recent-append now xs ys in
      elim (Bool-cases (ltb now (t + window))) [ inl h ↦ rw (h, ih) | inr h ↦ rw (h, ih) ]

-- Every time is at most `n`; the times never fall.
abbrev pub AllUpTo : ℕ → List ℕ → Type 0
AllUpTo n [] = Unit
AllUpTo n (t ∷ ts) = (t ≤ n) × AllUpTo n ts

abbrev pub AllFrom : ℕ → List ℕ → Type 0
AllFrom n [] = Unit
AllFrom n (t ∷ ts) = (n ≤ t) × AllFrom n ts

abbrev pub Ascending : List ℕ → Type 0
Ascending [] = Unit
Ascending (t ∷ ts) = AllFrom t ts × Ascending ts

all_recent :
    (now t : ℕ) (ts : List ℕ) → AllFrom t ts → now < t + hour_ms → recent hour_ms now ts ≡ ts
unfolding recent
all_recent now t [] h r = refl
all_recent now t (x ∷ ts) h r =
    let fresh : ltb now (x + hour_ms) ≡ true = ground arith in rw (fresh, all_recent now t ts h.1 r)

-- On times that never fall, shifting the old ones off the front is dropping all that are old.
pub shift_old-eq-recent :
    (now : ℕ) (ts : List ℕ) → Ascending ts → shift_old now ts ≡ recent hour_ms now ts
unfolding shift_old recent
shift_old-eq-recent now [] h = refl
shift_old-eq-recent now (t ∷ ts) h = elim (Bool-cases (leb (t + hour_ms) now)) [
  | inl old ↦
      let stale : ltb now (t + hour_ms) ≡ false = ground arith in
      rw (old, stale) (shift_old-eq-recent now ts h.1)
  | inr new ↦
      let fresh : ltb now (t + hour_ms) ≡ true = ground arith in
      rw (new, fresh, all_recent now t ts h.0 (ground arith))
]
