-- ===== src/Facts/Views/Derived.antt =====
-- packages/core/src/facts.ts: what `deriveVersionHistory` lists of the two chains.
use mathlib.Core.Bool.{false≢true}
use pokapali.Prelude.{
  Bool-cases, leb, ◌===◌, List, ◌∷◌, ◌⊎◌, ◌↔◌, some_inj, ◌≡◌, refl, sym, ap, ◌∙◌, String, false,
  Option, none, some, [], Map, map_get, string_eq, inl, inr, subst,
}
use pokapali.Facts.Types.{Cid, BlockStatus, ChainEntry, ChainState}
use pokapali.Facts.Views.{
  insert_desc, sort_desc, or_zero, VersionEntryStatus, VersionHistoryEntry, Seen, entry_status,
  see_chain, see_local, derive_version_history, map_values, entries_of, entry_seq_of,
}
use pokapali.Facts.Views.Sorting.{insert-Any, Any, Descending, sort_desc-Descending, sort-Any}
use pokapali.Facts.Views.Versions.{TimeOf, TimeOf-or_zero, or_zero-TimeOf, IsHeld}
use pokapali.Facts.Views.Seen.{
  Numbered, or_next, last_numbered, first_numbered, shown, seen_first, shown-or_next,
  seen_first-none, see_chain-last, see_local-first, WellKeyed, see_chain-WellKeyed,
  see_local-WellKeyed, get-Any, Any-get, HasCid, or_next-HasCid, last_numbered-HasCid,
  first_numbered-HasCid,
}

-- The entry that stands for a CID: of the interpreter's chain where that has one with a number, and
-- otherwise of the local one.
abbrev pub chosen : Map String ChainEntry → Map String ChainEntry → Cid → Numbered
chosen entries local c = or_next (last_numbered entries c) (first_numbered local c)

abbrev StatusOf : BlockStatus → VersionEntryStatus → Type 0
StatusOf b VersionEntryStatus.available = IsHeld b
StatusOf b VersionEntryStatus.failed = b ≡ BlockStatus.failed
StatusOf b VersionEntryStatus.loading = (b ≡ BlockStatus.unknown) ⊎ (b ≡ BlockStatus.fetching)

-- An item of the history is that of the entry: its number, its time, and the status of its block.
abbrev pub Shows : VersionHistoryEntry → Numbered → Type 0
Shows v none = ⊥
Shows v (some (e, n)) = (v.seq ≡ n) × TimeOf e.ts v.ts × StatusOf e.block_status v.status

StatusOf-entry_status : (b : BlockStatus) → StatusOf b (entry_status b)
StatusOf-entry_status BlockStatus.fetched = inl refl
StatusOf-entry_status BlockStatus.applied = inr refl
StatusOf-entry_status BlockStatus.failed = refl
StatusOf-entry_status BlockStatus.unknown = inl refl
StatusOf-entry_status BlockStatus.fetching = inr refl

entry_status-StatusOf :
    (b : BlockStatus) (s : VersionEntryStatus) → StatusOf b s → entry_status b ≡ s
entry_status-StatusOf b VersionEntryStatus.available (inl e) = ap entry_status e
entry_status-StatusOf b VersionEntryStatus.available (inr e) = ap entry_status e
entry_status-StatusOf b VersionEntryStatus.failed e = ap entry_status e
entry_status-StatusOf b VersionEntryStatus.loading (inl e) = ap entry_status e
entry_status-StatusOf b VersionEntryStatus.loading (inr e) = ap entry_status e

shown-Shows : (v : VersionHistoryEntry) (p : Numbered) → shown p ≡ some v → Shows v p
shown-Shows v none h = cc
shown-Shows v (some (e, n)) h =
    subst (λ x. Shows x (some (e, n))) (some_inj h)
      (refl, TimeOf-or_zero e.ts, StatusOf-entry_status e.block_status)

Shows-shown :
    (v : VersionHistoryEntry) (p : Numbered) → HasCid v.cid p → Shows v p → shown p ≡ some v
Shows-shown v none c h = absurd h
Shows-shown v (some (e, n)) c (number, ts, held) =
    let time : or_zero e.ts ≡ v.ts = or_zero-TimeOf e.ts v.ts ts in
    let status : entry_status e.block_status ≡ v.status =
      entry_status-StatusOf e.block_status v.status held in
    λ i. some (record { cid = c i; seq = sym number i; ts = time i; status = status i })

-- What was seen of two chains, by the CID.
seen_of : Option ChainState → Option ChainState → Seen
seen_of chain local_chain =
    (see_local (see_chain ([], false) (entries_of chain)) (entries_of local_chain)).0

seen_of-chosen :
    (chain local_chain : Option ChainState) (c : Cid)
    → map_get c (seen_of chain local_chain)
      ≡ shown (chosen (entries_of chain) (entries_of local_chain) c)
unfolding seen_of map_get
seen_of-chosen chain local_chain c =
    let last = last_numbered (entries_of chain) c in
    let first = first_numbered (entries_of local_chain) c in
    see_local-first (see_chain ([], false) (entries_of chain)) (entries_of local_chain) c
    ∙ ap (λ x. seen_first x (shown first))
        (see_chain-last ([], false) (entries_of chain) c ∙ sym (seen_first-none (shown last)))
    ∙ sym (shown-or_next last first)

seen_of-WellKeyed : (chain local_chain : Option ChainState) → WellKeyed (seen_of chain local_chain)
unfolding seen_of
seen_of-WellKeyed chain local_chain =
    see_local-WellKeyed (see_chain ([], false) (entries_of chain)) (entries_of local_chain)
      (see_chain-WellKeyed ([], false) (entries_of chain) tt)

-- No two items have the same CID.
abbrev pub OncePerCid : List VersionHistoryEntry → Type 0
OncePerCid [] = Unit
OncePerCid (x ∷ xs) = (Any (λ y. y.cid ≡ x.cid) xs → ⊥) × OncePerCid xs

insert-OncePerCid :
    (x : VersionHistoryEntry) (xs : List VersionHistoryEntry)
    → OncePerCid (x ∷ xs)
    → OncePerCid (insert_desc entry_seq_of x xs)
unfolding insert_desc
insert-OncePerCid x [] h = h
insert-OncePerCid x (y ∷ ys) (new, (later, rest)) =
    elim (Bool-cases (leb (entry_seq_of y) (entry_seq_of x))) [
      | inl q ↦ rw q (new, (later, rest))
      | inr q ↦ rw q (
        λ again. elim ((insert-Any entry_seq_of (λ z. z.cid ≡ y.cid) x ys).1 again) [
          | inl same ↦ new (inl (sym same))
          | inr there ↦ later there
        ],
        insert-OncePerCid x ys (λ there. new (inr there), rest),
      )
    ]

sort-OncePerCid :
    (xs : List VersionHistoryEntry) → OncePerCid xs → OncePerCid (sort_desc entry_seq_of xs)
unfolding sort_desc
sort-OncePerCid [] h = tt
sort-OncePerCid (x ∷ xs) h =
    insert-OncePerCid x (sort_desc entry_seq_of xs) (
      λ again. h.0 ((sort-Any entry_seq_of (λ y. y.cid ≡ x.cid) xs).1 again),
      sort-OncePerCid xs h.1,
    )

not-Any :
    (k c : Cid) (m : Seen)
    → WellKeyed m
    → c ≡ k
    → map_get k m ≡ none
    → Any (λ y. y.cid ≡ c) (map_values m)
    → ⊥
unfolding map_values map_get
not-Any k c [] h e absent again = again
not-Any k c ((j, v) ∷ m) h e absent again = elim (Bool-cases (j === k)) [
  | inl q ↦ cc (rw q at absent)
  | inr q ↦ elim again [
    | inl same ↦
        let here : j ≡ k = sym h.0 ∙ same ∙ e in
        absurd (false≢true (sym q ∙ (string_eq.beq_iff j k).1 here))
    | inr later ↦ not-Any k c m h.2 e (rw q at absent) later
  ]
]

map_values-OncePerCid : (m : Seen) → WellKeyed m → OncePerCid (map_values m)
unfolding map_values
map_values-OncePerCid [] h = tt
map_values-OncePerCid ((k, v) ∷ m) h =
    (λ again. not-Any k v.cid m h.2 h.0 h.1 again, map_values-OncePerCid m h.2)

-- The derived history is sorted from the newest number down, with no CID twice. An item is listed exactly if it is that of
-- the entry that stands for its CID, with the entry's number, its time, or 0 where it has none, and
-- the status of its block: available if it is fetched or applied, failed if the fetch failed, and
-- otherwise loading. The entry that stands for a CID is the last one of the interpreter's chain with
-- the CID that has a number, and where there is none the first one of the local chain.
pub derive_version_history_lem :
    (chain local_chain : Option ChainState) (v : VersionHistoryEntry)
    → Descending entry_seq_of (derive_version_history chain local_chain).entries
      × OncePerCid (derive_version_history chain local_chain).entries
      × (Any (λ x. x ≡ v) (derive_version_history chain local_chain).entries
          ↔ Shows v (chosen (entries_of chain) (entries_of local_chain) v.cid))
unfolding derive_version_history seen_of
derive_version_history_lem chain local_chain v =
    let seen = seen_of chain local_chain in
    let found = seen_of-chosen chain local_chain v.cid in
    let pick = chosen (entries_of chain) (entries_of local_chain) v.cid in
    let pick-HasCid =
      or_next-HasCid v.cid _ _ (last_numbered-HasCid (entries_of chain) v.cid)
        (first_numbered-HasCid (entries_of local_chain) v.cid) in
    let (to, from) = sort-Any entry_seq_of (λ x. x ≡ v) (map_values seen) in
    (
      sort_desc-Descending entry_seq_of (map_values seen),
      sort-OncePerCid (map_values seen)
          (map_values-OncePerCid seen (seen_of-WellKeyed chain local_chain)),
      (
        λ h.
            shown-Shows v pick
              (sym found ∙ Any-get v seen (seen_of-WellKeyed chain local_chain) (from h)),
        λ h. to (get-Any v.cid v seen (found ∙ Shows-shown v pick pick-HasCid h)),
      ),
    )
