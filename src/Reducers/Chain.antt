-- ===== src/Reducers/Chain.antt =====
-- packages/core/src/reducers.ts: `reduceChain` and its helpers.
pub mod Newest
pub mod Fitting
pub mod Invariant
pub mod Moves
pub mod Statuses
pub mod Reached
use pokapali.Prelude.{
  ℕ, ◌-◌, ◌<◌, max, String, Bool, true, false, not, ◌||◌, ◌&&◌, Option, none, some, List, [], ◌∷◌,
  Map, map_get, map_set, set_has, set_add, string_eq, ltb, if◌then◌else◌,
}
use pokapali.Facts.Types.{
  Cid, Bytes, CidSource, cid_source_eq, BlockStatus, Guarantee, ChainEntry, ChainState, Fact,
  Payload, cid_discovered, block_fetch_started, block_fetched, block_fetch_failed, tip_advanced,
  ack_received, guarantee_received, block_retry_reset,
}

-- `a ?? b`, where both may be missing
abbrev pub or_else {ℓ} : {A : Type ℓ} → Option A → Option A → Option A
or_else none b = b
or_else (some a) b = some a

-- `seq ?? 0`
abbrev pub or_zero : Option ℕ → ℕ
or_zero none = 0
or_zero (some n) = n

-- `seq != null ? Math.max(maxSeq, seq) : maxSeq`
abbrev pub max_with : ℕ → Option ℕ → ℕ
max_with n none = n
max_with n (some k) = max n k

abbrev pub is_some {ℓ} : {A : Type ℓ} → Option A → Bool
is_some none = false
is_some (some a) = true

abbrev pub is_fetched : BlockStatus → Bool
is_fetched BlockStatus.fetched = true
is_fetched _ = false

abbrev pub is_failed : BlockStatus → Bool
is_failed BlockStatus.failed = true
is_failed _ = false

abbrev is_applied : BlockStatus → Bool
is_applied BlockStatus.applied = true
is_applied _ = false

unfoldable pub update_entry : ChainState → Cid → (ChainEntry → ChainEntry) → ChainState
update_entry s key f = elim (map_get key s.entries) [
  | none ↦ s
  | some existing ↦ record s { entries = map_set key (f existing) s.entries }
]

-- One round of the loop of `withNewestFetched`.
unfoldable pub improve : Option (Cid × ℕ) → ChainEntry → Option (Cid × ℕ)
improve none e = if is_fetched e.block_status then some (e.cid, or_zero e.seq) else none
improve (some (c, n)) e =
    if is_fetched e.block_status && ltb n (or_zero e.seq)
    then some (e.cid, or_zero e.seq)
    else some (c, n)

unfoldable pub newest_from : Option (Cid × ℕ) → Map String ChainEntry → Option (Cid × ℕ)
unfolding improve
newest_from best [] = best
newest_from best ((k, e) ∷ m) = newest_from (improve best e) m

abbrev pub cid_of : Option (Cid × ℕ) → Option Cid
cid_of none = none
cid_of (some (c, n)) = some c

unfoldable pub with_newest_fetched : ChainState → ChainState
unfolding newest_from
with_newest_fetched s = record s { newest_fetched = cid_of (newest_from none s.entries) }

-- The status after a rediscovery: `fact.block ? "fetched" : existing.blockStatus`
abbrev pub status_with : Option Bytes → BlockStatus → BlockStatus
status_with none s = s
status_with (some b) s = BlockStatus.fetched

-- `newBlockStatus !== existing.blockStatus`
abbrev status_changes : Option Bytes → BlockStatus → Bool
status_changes none s = false
status_changes (some b) s = not (is_fetched s)

abbrev add_source : CidSource → List CidSource → List CidSource
add_source source via = if set_has source via then via else set_add source via

-- The test `changed` of a rediscovery
unfoldable pub changed : CidSource → Option Bytes → Option ℕ → Option ℕ → ChainEntry → Bool
changed source block seq snapshot_ts existing =
    status_changes block existing.block_status
    || (not (set_has source existing.discovered_via)
        || ((is_some seq && not (is_some existing.seq))
            || (is_some snapshot_ts && not (is_some existing.ts))))

-- `cid-discovered` for a CID that has an entry
unfoldable pub discover_known :
    ChainState → Cid → CidSource → Option Bytes → Option ℕ → Option ℕ → ChainEntry → ChainState
unfolding with_newest_fetched changed
discover_known s cid source block seq snapshot_ts existing =
    if is_failed existing.block_status
    then with_newest_fetched (record s {
      entries =
          map_set cid
            (record existing {
              block_status = BlockStatus.unknown;
              fetch_attempt = 0;
              last_error = none;
              discovered_via = set_add source existing.discovered_via;
            })
            s.entries;
    })
    else if changed source block seq snapshot_ts existing
    then with_newest_fetched (record s {
      max_seq = max_with s.max_seq (or_else existing.seq seq);
      entries =
          map_set cid
            (record existing {
              discovered_via = add_source source existing.discovered_via;
              seq = or_else existing.seq seq;
              ts = or_else existing.ts snapshot_ts;
              block_status = status_with block existing.block_status;
            })
            s.entries;
    })
    else s

abbrev new_entry : Cid → CidSource → Option ℕ → Option ℕ → BlockStatus → ChainEntry
new_entry cid source seq ts status = record {
  cid = cid;
  seq = seq;
  ts = ts;
  discovered_via = source ∷ [];
  block_status = status;
  fetch_attempt = 0;
  fetch_started_at = none;
  last_error = none;
  prev = none;
  guarantees = [];
  acked_by = [];
}

-- `cid-discovered` for a CID that is new
unfoldable pub discover_new :
    ChainState → Cid → CidSource → Option Bytes → Option ℕ → Option ℕ → ChainState
unfolding with_newest_fetched
discover_new s cid source block seq snapshot_ts = with_newest_fetched (record s {
  max_seq = max_with s.max_seq seq;
  entries =
      map_set cid (new_entry cid source seq snapshot_ts (status_with block BlockStatus.unknown))
        s.entries;
})

unfoldable pub discover :
    ChainState → Cid → CidSource → Option Bytes → Option ℕ → Option ℕ → ChainState
unfolding discover_known discover_new
discover s cid source block seq snapshot_ts = elim (map_get cid s.entries) [
  | some existing ↦ discover_known s cid source block seq snapshot_ts existing
  | none ↦ discover_new s cid source block seq snapshot_ts
]

-- `block-fetch-started`
unfoldable pub start_fetch : ℕ → ChainEntry → ChainEntry
start_fetch ts e =
    if is_fetched e.block_status || is_applied e.block_status
    then e
    else record e { block_status = BlockStatus.fetching; fetch_started_at = some ts }

-- `parentSeq != null && parentSeq > 0 ? parentSeq - 1 : undefined`
abbrev pub inferred_seq : Option ℕ → Option ℕ
inferred_seq none = none
inferred_seq (some n) = if ltb 0 n then some (n - 1) else none

-- The discovery of `fact.prev` from a fetched block
unfoldable pub walk_to : ChainState → Option Cid → Option ℕ → ChainState
walk_to next none parent_seq = next
walk_to next (some prev) parent_seq = elim (map_get prev next.entries) [
  | some _ ↦ next
  | none ↦ record next {
    max_seq = max_with next.max_seq (inferred_seq parent_seq);
    entries =
        map_set prev
          (new_entry prev CidSource.chain_walk (inferred_seq parent_seq) none BlockStatus.unknown)
          next.entries;
  }
]

-- `block-fetched`
unfoldable pub store_block :
    ChainState → Cid → Option Cid → Option ℕ → Option ℕ → ChainEntry → ChainState
store_block s cid prev seq snapshot_ts existing = record s {
  max_seq = max_with s.max_seq (or_else existing.seq seq);
  entries =
      map_set cid
        (record existing {
          block_status = BlockStatus.fetched;
          prev = prev;
          seq = or_else existing.seq seq;
          ts = or_else existing.ts snapshot_ts;
        })
        s.entries;
}

unfoldable pub fetch_block : ChainState → Cid → Option Cid → Option ℕ → Option ℕ → ChainState
unfolding store_block walk_to with_newest_fetched
fetch_block s cid prev seq snapshot_ts = elim (map_get cid s.entries) [
  | none ↦ s
  | some existing ↦
      with_newest_fetched
        (walk_to (store_block s cid prev seq snapshot_ts existing) prev (or_else existing.seq seq))
]

-- `block-retry-reset`
unfoldable pub reset_retry : ChainState → Cid → ChainState
unfolding update_entry
reset_retry s cid = elim (map_get cid s.entries) [
  | none ↦ s
  | some e ↦
      if is_failed e.block_status
      then update_entry s cid (λ e. record e { block_status = BlockStatus.unknown })
      else s
]

-- `tipEntry?.seq ?? fact.seq`
abbrev entry_seq : Option ChainEntry → ℕ → ℕ
entry_seq none n = n
entry_seq (some e) n = or_zero (or_else e.seq (some n))

-- `tip-advanced`
unfoldable pub advance_tip : ChainState → Cid → ℕ → ChainState
unfolding update_entry with_newest_fetched
advance_tip s cid seq =
    with_newest_fetched
      (record (update_entry s cid
        (λ e. record e { block_status = BlockStatus.applied; seq = or_else e.seq (some seq) })) {
          tip = some cid;
          applying = none;
          max_seq = max s.max_seq (entry_seq (map_get cid s.entries) seq);
        })

-- `ack-received`
unfoldable pub acknowledge : ChainState → Cid → String → ChainState
unfolding update_entry
acknowledge s cid peer_id = elim (map_get cid s.entries) [
  | none ↦ s
  | some existing ↦
      if set_has peer_id existing.acked_by
      then s
      else update_entry s cid (λ e. record e { acked_by = set_add peer_id e.acked_by })
]

unfoldable pub chain_step : ℕ → Payload → ChainState → ChainState
unfolding discover update_entry start_fetch fetch_block with_newest_fetched reset_retry advance_tip
    acknowledge
chain_step ts (cid_discovered cid source block seq snapshot_ts) s =
    discover s cid source block seq snapshot_ts
chain_step ts (block_fetch_started cid) s = update_entry s cid (start_fetch ts)
chain_step ts (block_fetched cid block prev seq snapshot_ts) s =
    fetch_block s cid prev seq snapshot_ts
chain_step ts (block_fetch_failed cid attempt error) s = with_newest_fetched (
    update_entry s cid (λ e. record e {
      block_status = BlockStatus.failed;
      fetch_attempt = attempt;
      last_error = some error;
    }))
chain_step ts (block_retry_reset cid) s = reset_retry s cid
chain_step ts (tip_advanced cid seq) s = advance_tip s cid seq
chain_step ts (ack_received cid peer_id) s = acknowledge s cid peer_id
chain_step ts (guarantee_received peer_id cid guarantee_until retain_until) s =
    update_entry s cid (λ e. record e {
      guarantees =
          map_set peer_id
            (record { guarantee_until = guarantee_until; retain_until = retain_until })
            e.guarantees;
    })
chain_step ts _ s = s

unfoldable pub reduce_chain : ChainState → Fact → ChainState
unfolding chain_step
reduce_chain s fact = chain_step fact.ts fact.payload s
