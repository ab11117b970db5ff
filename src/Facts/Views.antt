-- ===== src/Facts/Views.antt =====
-- packages/core/src/facts.ts: the read-only projections of a document's state.
pub mod Sorting
pub mod Versions
pub mod Seen
pub mod Derived
pub mod Guarantees
use pokapali.Prelude.{
  ℕ, ◌+◌, ◌≤◌, max, String, Bool, true, false, ◌||◌, not, Option, none, some, List, [], ◌∷◌, Map,
  map_get, map_set, string_eq, ltb, leb, ◌==◌, if◌then◌else◌,
}
use pokapali.Facts.Types.{
  Cid, BlockStatus, Guarantee, ChainEntry, ChainState, SnapshotRecord, SnapshotHistory,
}

pub record VersionSummary : Type 0 where
  pub cid : Cid
  pub seq : ℕ
  pub ts : ℕ
  pub available : Bool

-- `e.ts ?? 0`
abbrev pub or_zero : Option ℕ → ℕ
or_zero none = 0
or_zero (some n) = n

abbrev pub is_available : BlockStatus → Bool
is_available BlockStatus.fetched = true
is_available BlockStatus.applied = true
is_available _ = false

-- The entries that have a sequence number
unfoldable pub with_seq : Map String ChainEntry → List (ChainEntry × ℕ)
with_seq [] = []
with_seq ((k, e) ∷ m) = let rest = with_seq m in elim e.seq [ none ↦ rest | some n ↦ (e, n) ∷ rest ]

-- `sort((a, b) => b.seq - a.seq)`, which is stable: an item goes before those with a smaller number.
module _ {ℓ} {A : Type ℓ} (seq : A → ℕ) where
  unfoldable pub insert_desc : A → List A → List A
  insert_desc a [] = a ∷ []
  insert_desc a (x ∷ xs) = if leb (seq x) (seq a) then a ∷ x ∷ xs else x ∷ insert_desc a xs

  unfoldable pub sort_desc : List A → List A
  unfolding insert_desc
  sort_desc [] = []
  sort_desc (x ∷ xs) = insert_desc x (sort_desc xs)

abbrev pub pair_seq : ChainEntry × ℕ → ℕ
pair_seq p = p.1

unfoldable pub summary : ChainEntry × ℕ → VersionSummary
summary (e, n) = record {
  cid = e.cid;
  seq = n;
  ts = or_zero e.ts;
  available = is_available e.block_status;
}

unfoldable pub summaries : List (ChainEntry × ℕ) → List VersionSummary
unfolding summary
summaries [] = []
summaries (p ∷ ps) = summary p ∷ summaries ps

unfoldable pub version_history : ChainState → List VersionSummary
unfolding with_seq sort_desc summaries
version_history chain = summaries (sort_desc pair_seq (with_seq chain.entries))

pub data VersionEntryStatus : Type 0 where
  available loading failed : VersionEntryStatus

pub record VersionHistoryEntry : Type 0 where
  pub cid : Cid
  pub seq : ℕ
  pub ts : ℕ
  pub status : VersionEntryStatus

pub record VersionHistory : Type 0 where
  pub entries : List VersionHistoryEntry
  pub walking : Bool

abbrev pub entry_status : BlockStatus → VersionEntryStatus
entry_status BlockStatus.fetched = VersionEntryStatus.available
entry_status BlockStatus.applied = VersionEntryStatus.available
entry_status BlockStatus.failed = VersionEntryStatus.failed
entry_status BlockStatus.unknown = VersionEntryStatus.loading
entry_status BlockStatus.fetching = VersionEntryStatus.loading

abbrev is_loading : VersionEntryStatus → Bool
is_loading VersionEntryStatus.loading = true
is_loading _ = false

abbrev pub history_entry : ChainEntry → ℕ → VersionHistoryEntry
history_entry e n = record {
  cid = e.cid;
  seq = n;
  ts = or_zero e.ts;
  status = entry_status e.block_status;
}

abbrev pub Seen : Type 0
Seen = Map String VersionHistoryEntry

-- One round of the loop over the interpreter's chain
unfoldable pub chain_round : Seen × Bool → ChainEntry → Seen × Bool
chain_round (seen, walking) e = elim e.seq [
  | none ↦ (seen, walking)
  | some n ↦
      (map_set e.cid (history_entry e n) seen, is_loading (entry_status e.block_status) || walking)
]

unfoldable pub see_chain : Seen × Bool → Map String ChainEntry → Seen × Bool
unfolding chain_round
see_chain acc [] = acc
see_chain acc ((k, e) ∷ m) = see_chain (chain_round acc e) m

abbrev has {ℓ} : {A : Type ℓ} → Option A → Bool
has none = false
has (some a) = true

-- One round of the loop over the local chain, which leaves what was seen alone
unfoldable pub local_round : Seen × Bool → ChainEntry → Seen × Bool
local_round (seen, walking) e = elim e.seq [
  | none ↦ (seen, walking)
  | some n ↦ if has (map_get e.cid seen) then (seen, walking) else (
    map_set e.cid (history_entry e n) seen,
    is_loading (entry_status e.block_status) || walking,
  )
]

unfoldable pub see_local : Seen × Bool → Map String ChainEntry → Seen × Bool
unfolding local_round
see_local acc [] = acc
see_local acc ((k, e) ∷ m) = see_local (local_round acc e) m

unfoldable pub map_values : Seen → List VersionHistoryEntry
map_values [] = []
map_values ((k, v) ∷ m) = v ∷ map_values m

abbrev pub entries_of : Option ChainState → Map String ChainEntry
entries_of none = []
entries_of (some c) = c.entries

abbrev pub entry_seq_of : VersionHistoryEntry → ℕ
entry_seq_of e = e.seq

unfoldable pub derive_version_history : Option ChainState → Option ChainState → VersionHistory
unfolding see_chain see_local map_values sort_desc
derive_version_history chain local_chain =
    let (seen, walking) =
      see_local (see_chain ([], false) (entries_of chain)) (entries_of local_chain) in
    record { entries = sort_desc entry_seq_of (map_values seen); walking = walking }

unfoldable snapshot_entries : List SnapshotRecord → List VersionHistoryEntry
snapshot_entries [] = []
snapshot_entries (r ∷ rs) =
    (record { cid = r.cid; seq = r.seq; ts = r.ts; status = VersionEntryStatus.available })
    ∷ snapshot_entries rs

unfoldable derive_version_history_from_snapshots : SnapshotHistory → VersionHistory
unfolding snapshot_entries
derive_version_history_from_snapshots history = record {
  entries = snapshot_entries history.records;
  walking = false;
}

-- The two loops of `bestGuarantee`
unfoldable pub best_of : Guarantee → Map String Guarantee → Guarantee
best_of g [] = g
best_of g ((peer, x) ∷ m) =
    best_of
      (record {
        guarantee_until = max g.guarantee_until x.guarantee_until;
        retain_until = max g.retain_until x.retain_until;
      })
      m

unfoldable pub best_from : Guarantee → Map String ChainEntry → Guarantee
unfolding best_of
best_from g [] = g
best_from g ((k, e) ∷ m) = best_from (best_of g e.guarantees) m

unfoldable pub best_guarantee : ChainState → Guarantee
unfolding best_from
best_guarantee chain = best_from (record { guarantee_until = 0; retain_until = 0 }) chain.entries

abbrev clock_skew_tolerance_ms : ℕ
clock_skew_tolerance_ms = 300000

-- `now` is the argument, or the clock where it is left out.
unfoldable pub is_guarantee_active : ℕ → ℕ → Bool
is_guarantee_active guarantee_until now =
    if guarantee_until == 0 then false else ltb now (guarantee_until + clock_skew_tolerance_ms)
