-- ===== src/Reducers/Chain/Fitting.antt =====
-- packages/core/src/reducers.ts: the invariant of the chain state, and its helper lemmas.
use pokapali.Prelude.{
  ℕ, ◌≤◌, ◌≡◌, refl, String, Bool, true, false, Option, none, some, [], ◌∷◌, Map, map_get, map_set,
  string_eq, AllEntries, AllEntries-map_set, if◌then◌else◌, arith,
}
use pokapali.Facts.Types.{Cid, cid_source_eq, BlockStatus, ChainEntry, ChainState}
use pokapali.Reducers.Chain.{
  or_zero, max_with, is_fetched, is_failed, newest_from, cid_of, update_entry, with_newest_fetched,
  start_fetch,
}
use pokapali.Reducers.Chain.Newest.{SameScan}

-- An entry stands under its own CID, and its sequence number is at most `n`.
abbrev pub Fits : ℕ → String → ChainEntry → Type 0
Fits n k e = (e.cid ≡ k) × (or_zero e.seq ≤ n)

pub record EntriesFit (s : ChainState) : Type 0 where
  pub all : AllEntries (Fits s.max_seq) s.entries

pub record IsChain (s : ChainState) : Type 0 where
  pub entries_fit : EntriesFit s
  pub newest : s.newest_fetched ≡ cid_of (newest_from none s.entries)

pub Fits-mono :
    (n k : ℕ) (m : Map String ChainEntry) → n ≤ k → AllEntries (Fits n) m → AllEntries (Fits k) m
Fits-mono n k [] le h = tt
Fits-mono n k ((j, e) ∷ m) le h = ((h.0.0, omega arith), Fits-mono n k m le h.1)

pub le_max_with : (n : ℕ) (o : Option ℕ) → n ≤ max_with n o
le_max_with n none = omega arith
le_max_with n (some k) = omega arith

pub or_zero-le : (n : ℕ) (o : Option ℕ) → or_zero o ≤ max_with n o
or_zero-le n none = omega arith
or_zero-le n (some k) = omega arith

pub if_keeps : (b : Bool) {s t : ChainState} → IsChain s → IsChain t → IsChain (if b then s else t)
if_keeps true h k = h
if_keeps false h k = k

pub with_newest_fetched-IsChain : (s : ChainState) → EntriesFit s → IsChain (with_newest_fetched s)
unfolding with_newest_fetched
with_newest_fetched-IsChain s h = record { entries_fit = record { all = h.all }; newest = refl }

-- A state that was just scanned again.
pub rescanned :
    {n : ℕ} {m : Map String ChainEntry} {tip applying : Option Cid}
    → AllEntries (Fits n) m
    → IsChain (record {
      entries = m;
      tip = tip;
      applying = applying;
      newest_fetched = cid_of (newest_from none m);
      max_seq = n;
    })
rescanned h = record { entries_fit = record { all = h }; newest = refl }

-- Setting an entry, with a bound that may have grown.
pub set-Fits :
    (n k : ℕ) (cid : Cid) (e : ChainEntry) (m : Map String ChainEntry)
    → n ≤ k
    → AllEntries (Fits n) m
    → Fits k cid e
    → AllEntries (Fits k) (map_set cid e m)
set-Fits n k cid e m le h fe = AllEntries-map_set (Fits k) cid e m (Fits-mono n k m le h) fe

pub failed_not_fetched : (b : BlockStatus) → is_failed b ≡ true → is_fetched b ≡ false
failed_not_fetched BlockStatus.failed h = refl
failed_not_fetched BlockStatus.fetched h = cc
failed_not_fetched _ h = refl

pub start_fetch-SameScan : (ts : ℕ) (e : ChainEntry) → SameScan e (start_fetch ts e)
unfolding start_fetch
start_fetch-SameScan ts e = record {
  cid = ground arith;
  seq = ground arith;
  fetched = ground arith;
}

module _ (s : ChainState) where
  pub update_entry-none :
      (cid : Cid) (f : ChainEntry → ChainEntry)
      → map_get cid s.entries ≡ none
      → update_entry s cid f ≡ s
  unfolding update_entry
  update_entry-none cid f g = rw (g, update_entry)

  pub update_entry-some :
      (cid : Cid) (f : ChainEntry → ChainEntry) (e : ChainEntry)
      → map_get cid s.entries ≡ some e
      → update_entry s cid f ≡ record s { entries = map_set cid (f e) s.entries }
  unfolding update_entry
  update_entry-some cid f e g = rw (g, update_entry)
