-- ===== src/Reducers/Chain/Newest.antt =====
-- packages/core/src/reducers.ts: the scan of `withNewestFetched`, and updates of entries.
use pokapali.Prelude.{
  ℕ, ◌≤◌, ◌≡◌, sym, ap, ◌∙◌, String, true, false, Option, none, some, [], ◌∷◌, Map, map_get,
  map_set, string_eq, AllEntries, Bool-cases, Option-cases, inl, inr, ◌⊎◌, arith, ◌===◌, some_inj,
}
use native.Mathlib.Nat.{le_trans}
use pokapali.Facts.Types.{Cid, ChainEntry}
use pokapali.Reducers.Chain.{or_zero, is_fetched, improve, newest_from, cid_of}

-- What the scan reads of an entry.
pub record SameScan (old new : ChainEntry) : Type 0 where
  pub cid : new.cid ≡ old.cid
  pub seq : new.seq ≡ old.seq
  pub fetched : is_fetched new.block_status ≡ is_fetched old.block_status

improve-SameScan :
    (best : Option (Cid × ℕ)) (old new : ChainEntry)
    → SameScan old new
    → improve best new ≡ improve best old
unfolding improve
improve-SameScan none old new h = rw (h.cid, h.seq, h.fetched)
improve-SameScan (some (c, n)) old new h = rw (h.cid, h.seq, h.fetched)

pub newest_from-map_set :
    (best : Option (Cid × ℕ)) (k : String) (old new : ChainEntry) (m : Map String ChainEntry)
    → map_get k m ≡ some old
    → SameScan old new
    → newest_from best (map_set k new m) ≡ newest_from best m
unfolding newest_from map_get map_set
newest_from-map_set best k old new [] g h = cc
newest_from-map_set best k old new ((j, e) ∷ m) g h = elim (Bool-cases (j === k)) [
  | inl q ↦
      let e_old : e ≡ old = some_inj (rw q at g) in
      rw q (
        ap (λ b. newest_from b m) (improve-SameScan best old new h ∙ ap (improve best) (sym e_old)))
  | inr q ↦ rw q (newest_from-map_set (improve best e) k old new m (rw q at g) h)
]

-- Some entry of the map satisfies `P`.
abbrev pub SomeEntry : (ChainEntry → Type 0) → Map String ChainEntry → Type 0
SomeEntry P [] = ⊥
SomeEntry P ((k, e) ∷ m) = P e ⊎ SomeEntry P m

-- An entry that was fetched, with the CID and the sequence number (0 if it has none).
abbrev FetchedAt : Cid → ℕ → ChainEntry → Type 0
FetchedAt c n e = (e.cid ≡ c) × (is_fetched e.block_status ≡ true) × (or_zero e.seq ≡ n)

abbrev AtMost : ℕ → String → ChainEntry → Type 0
AtMost n k e = is_fetched e.block_status ≡ true → or_zero e.seq ≤ n

abbrev best_seq : Option (Cid × ℕ) → ℕ
best_seq none = 0
best_seq (some (c, n)) = n

improve_grows :
    (best : Option (Cid × ℕ)) (e : ChainEntry)
    → (best_seq best ≤ best_seq (improve best e))
      × (is_fetched e.block_status ≡ true → or_zero e.seq ≤ best_seq (improve best e))
unfolding improve
improve_grows none e = (omega arith, λ h. rw h (omega arith))
improve_grows (some (c, n)) e = (ground arith, λ h. ground arith)

scan_bounds :
    (best : Option (Cid × ℕ)) (m : Map String ChainEntry)
    → (best_seq best ≤ best_seq (newest_from best m))
      × AllEntries (AtMost (best_seq (newest_from best m))) m
unfolding newest_from
scan_bounds best [] = (omega arith, tt)
scan_bounds best ((k, e) ∷ m) =
    let (grows, rest) = scan_bounds (improve best e) m in
    let (grows', now) = improve_grows best e in (omega arith, (λ h. le_trans (now h) grows, rest))

improve_from :
    (best : Option (Cid × ℕ)) (e : ChainEntry) (c : Cid) (n : ℕ)
    → improve best e ≡ some (c, n)
    → (best ≡ some (c, n)) ⊎ FetchedAt c n e
unfolding improve
improve_from none e c n h = ground arith
improve_from (some (c', n')) e c n h = ground arith

scan_found :
    (best : Option (Cid × ℕ)) (m : Map String ChainEntry) (c : Cid) (n : ℕ)
    → newest_from best m ≡ some (c, n)
    → (best ≡ some (c, n)) ⊎ SomeEntry (FetchedAt c n) m
unfolding newest_from
scan_found best [] c n h = inl h
scan_found best ((k, e) ∷ m) c n h = elim (scan_found (improve best e) m c n h) [
  | inl q ↦ elim (improve_from best e c n q) [ inl b ↦ inl b | inr f ↦ inr (inl f) ]
  | inr q ↦ inr (inr q)
]

abbrev Unfetched : String → ChainEntry → Type 0
Unfetched k e = is_fetched e.block_status ≡ false

improve-none :
    (best : Option (Cid × ℕ)) (e : ChainEntry)
    → improve best e ≡ none
    → (best ≡ none) × (is_fetched e.block_status ≡ false)
unfolding improve
improve-none none e h = ground arith
improve-none (some (c, n)) e h = ground arith

scan_none :
    (best : Option (Cid × ℕ)) (m : Map String ChainEntry)
    → newest_from best m ≡ none
    → (best ≡ none) × AllEntries Unfetched m
unfolding newest_from
scan_none best [] h = (h, tt)
scan_none best ((k, e) ∷ m) h =
    let (q, rest) = scan_none (improve best e) m h in
    let (b, u) = improve-none best e q in (b, (u, rest))

-- What the pointer to the newest fetched block should say of the entries.
abbrev pub IsNewest : Option Cid → Map String ChainEntry → Type 0
IsNewest none m = AllEntries Unfetched m
IsNewest (some c) m = (n : ℕ) × SomeEntry (FetchedAt c n) m × AllEntries (AtMost n) m

pub scan-IsNewest : (m : Map String ChainEntry) → IsNewest (cid_of (newest_from none m)) m
scan-IsNewest m = elim (Option-cases (newest_from none m)) [
  | inl h ↦ rw h ((scan_none none m h).1)
  | inr ((c, n), h) ↦
      rw h (
        n,
        elim (scan_found none m c n h) [ inl q ↦ cc | inr q ↦ q ],
        rw h at (scan_bounds none m).1,
      )
]
