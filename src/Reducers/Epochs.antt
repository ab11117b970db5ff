-- ===== src/Reducers/Epochs.antt =====
-- packages/core/src/reducers.ts: the epochs of the channels and the history of snapshots.
pub mod Laws
use Prim.Native.String.{◌++◌}
use pokapali.Prelude.{
  ℕ, ◌+◌, String, Bool, true, false, Option, none, some, List, [], ◌∷◌, Map, map_set, map_get,
  set_has, set_delete, string_eq, decimal, if◌then◌else◌,
}
use pokapali.Facts.Types.{
  OpenCount, counted, undefined, nan, ChannelEpochState, EpochState, SnapshotRecord,
  SnapshotHistory, Fact, Payload, epoch_closed, convergence_detected, snapshot_materialized,
  edit_received, view_cache_loaded, view_cache_written,
}

abbrev initial_channel_epoch : ChannelEpochState
initial_channel_epoch = record {
  open_epoch_count = counted 0;
  last_convergence_hash = some none;
  dirty = false;
}

-- `state.channels` is a plain object: these names find a member of Object.prototype where the object
-- has none of its own.
abbrev inherited_names : List String
inherited_names =
    "constructor" ∷ "toString" ∷ "toLocaleString" ∷ "valueOf" ∷ "hasOwnProperty" ∷ "isPrototypeOf"
    ∷ "propertyIsEnumerable" ∷ "__proto__" ∷ "__defineGetter__" ∷ "__defineSetter__"
    ∷ "__lookupGetter__" ∷ "__lookupSetter__" ∷ []

unfoldable pub is_inherited : String → Bool
unfolding set_has
is_inherited name = set_has name inherited_names

-- What the reducer reads of such a member and copies from it: no field is defined. Its `dirty`, which
-- is never stored, is false as a condition.
abbrev inherited_member : ChannelEpochState
inherited_member = record {
  open_epoch_count = undefined;
  last_convergence_hash = none;
  dirty = false;
}

-- `count + 1`
abbrev pub plus_one : OpenCount → OpenCount
plus_one (counted n) = counted (n + 1)
plus_one undefined = nan
plus_one nan = nan

unfoldable pub ensure_channel : EpochState → String → ChannelEpochState
unfolding is_inherited
ensure_channel s channel = elim (map_get channel s.channels) [
  | none ↦ if is_inherited channel then inherited_member else initial_channel_epoch
  | some ch ↦ ch
]

unfoldable pub with_channel : EpochState → String → ChannelEpochState → EpochState
with_channel s channel ch = record s { channels = map_set channel ch s.channels }

unfoldable pub snapshot_key : String → ℕ → String
snapshot_key channel epoch_index = channel ++ (":" ++ decimal epoch_index)

unfoldable pub epochs_step : Payload → EpochState → EpochState
unfolding ensure_channel with_channel
epochs_step (epoch_closed channel epoch_index) s =
    let ch = ensure_channel s channel in
    with_channel s channel
      (record ch { open_epoch_count = plus_one ch.open_epoch_count; dirty = true })
epochs_step (convergence_detected channel hash) s =
    let ch = ensure_channel s channel in
    with_channel s channel (record ch { last_convergence_hash = some (some hash); dirty = false })
epochs_step (snapshot_materialized channel epoch_index cid seq) s = record s {
  pending_snapshots = set_delete (snapshot_key channel epoch_index) s.pending_snapshots;
}
epochs_step (edit_received channel edit_hash origin) s =
    let ch = ensure_channel s channel in
    if ch.dirty then s else with_channel s channel (record ch { dirty = true })
epochs_step (view_cache_loaded view_name entries) s = record s {
  view_cache_stale = set_delete view_name s.view_cache_stale;
}
epochs_step (view_cache_written view_name entries) s = record s {
  view_cache_stale = set_delete view_name s.view_cache_stale;
}
epochs_step _ s = s

unfoldable pub reduce_epochs : EpochState → Fact → EpochState
unfolding epochs_step
reduce_epochs s fact = epochs_step fact.payload s

unfoldable snapshot_step : ℕ → Payload → SnapshotHistory → SnapshotHistory
snapshot_step ts (snapshot_materialized channel epoch_index cid seq) s = record {
  records =
      (record { cid = cid; seq = seq; ts = ts; channel = channel; epoch_index = epoch_index })
      ∷ s.records;
}
snapshot_step ts _ s = s

unfoldable pub reduce_snapshot_history : SnapshotHistory → Fact → SnapshotHistory
unfolding snapshot_step
reduce_snapshot_history s fact = snapshot_step fact.ts fact.payload s
