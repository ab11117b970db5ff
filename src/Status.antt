-- ===== src/Status.antt =====
-- packages/core/src/doc-status.ts: the derived status values. The clock is an argument.
pub mod Agreement
pub mod Entries
pub mod Loading
use pokapali.Prelude.{
  ℕ, ◌+◌, ◌-◌, ◌*◌, ◌/◌, ◌^◌, String, Bool, true, false, not, ◌&&◌, Option, none, some, List, [],
  ◌∷◌, Map, str_eq, ltb, ◌==◌, if◌then◌else◌,
}
use pokapali.Facts.Types.{
  DocStatus, SaveState, SyncStatus, GossipActivity, LoadingState, BlockStatus, ChainEntry,
  Connectivity, ContentState, ChainState, DocState, IpnsResolutionStatus,
}

abbrev mesh_grace_ms : ℕ
mesh_grace_ms = 5000

-- interpreter.ts
abbrev pub max_interpreter_retries : ℕ
max_interpreter_retries = 3

abbrev retry_base_ms : ℕ
retry_base_ms = 2000

-- `createdAt !== undefined && Date.now() - createdAt < MESH_GRACE_MS`
abbrev in_mesh_grace : ℕ → Option ℕ → Bool
in_mesh_grace now none = false
in_mesh_grace now (some created) = ltb now (created + mesh_grace_ms)

abbrev is_connected : SyncStatus → Bool
is_connected SyncStatus.connected = true
is_connected _ = false

abbrev is_connecting : SyncStatus → Bool
is_connecting SyncStatus.connecting = true
is_connecting _ = false

abbrev pub is_receiving : GossipActivity → Bool
is_receiving GossipActivity.receiving = true
is_receiving _ = false

abbrev is_subscribed : GossipActivity → Bool
is_subscribed GossipActivity.subscribed = true
is_subscribed _ = false

unfoldable pub derive_status : ℕ → Connectivity → DocStatus
derive_status now c =
    if is_connected c.sync_status
    then DocStatus.synced
    else if is_connecting c.sync_status
    then DocStatus.connecting
    else if is_receiving c.gossip.activity
    then DocStatus.receiving
    else if c.awareness_connected
    then DocStatus.connecting
    else if is_subscribed c.gossip.activity
    then DocStatus.connecting
    else if in_mesh_grace now c.created_at
    then DocStatus.connecting
    else DocStatus.offline

-- A string or null as a condition: null and the empty string are false.
abbrev pub truthy : Option String → Bool
truthy none = false
truthy (some s) = not (str_eq s "")

unfoldable compute_status : ℕ → SyncStatus → Bool → GossipActivity → Option ℕ → DocStatus
unfolding derive_status
compute_status now sync awareness activity created = derive_status now (record {
  sync_status = sync;
  awareness_connected = awareness;
  gossip = record {
    activity = activity;
    subscribed = elim activity [ GossipActivity.inactive ↦ false | _ ↦ true ];
    last_message_at = 0;
  };
  relay_peers = [];
  known_pinner_pids = [];
  created_at = created;
})

unfoldable pub compute_save_state : Bool → Bool → Option String → SaveState
compute_save_state is_dirty is_saving last_save_error =
    if is_saving
    then SaveState.saving
    else if truthy last_save_error
    then SaveState.save_error
    else if is_dirty
    then SaveState.dirty
    else SaveState.saved

-- The three loops of `deriveLoadingState`; `none` where the loop returns nothing.
-- `entry.fetchStartedAt` is false as a condition when it is undefined or 0.
abbrev pub started : Option ℕ → Option ℕ
started none = none
started (some t) = if t == 0 then none else some t

abbrev pub or_unknown : Option String → String
or_unknown none = "unknown"
or_unknown (some e) = e

unfoldable pub fetching_entry : ChainEntry → Option LoadingState
fetching_entry e = elim e.block_status [
  | BlockStatus.fetching ↦ elim (started e.fetch_started_at) [
    | none ↦ none
    | some t ↦ some (LoadingState.fetching e.cid t)
  ]
  | _ ↦ none
]

-- 4 ** (attempt - 1) is a quarter at attempt 0: 2000 / 4.
unfoldable pub retry_delay : ℕ → ℕ
retry_delay attempt = retry_base_ms * 4 ^ attempt / 4

unfoldable pub failed_entry : ℕ → ChainEntry → Option LoadingState
unfolding retry_delay
failed_entry now e = elim e.block_status [
  | BlockStatus.failed ↦ some (
      if ltb e.fetch_attempt max_interpreter_retries
      then LoadingState.retrying e.cid e.fetch_attempt (now + retry_delay e.fetch_attempt)
      else LoadingState.failed e.cid (or_unknown e.last_error))
  | _ ↦ none
]

unfoldable pub unknown_entry : ℕ → ChainEntry → Option LoadingState
unknown_entry at e = elim e.block_status [
  | BlockStatus.unknown ↦ some (LoadingState.resolving at)
  | _ ↦ none
]

unfoldable pub first_entry :
    (ChainEntry → Option LoadingState) → Map String ChainEntry → Option LoadingState
first_entry f [] = none
first_entry f ((k, e) ∷ m) =
    let rest = first_entry f m in elim (f e) [ some l ↦ some l | none ↦ rest ]

unfoldable pub loading_of_ipns : IpnsResolutionStatus → Map String ChainEntry → LoadingState
unfolding first_entry unknown_entry
loading_of_ipns (IpnsResolutionStatus.resolved cid at) entries =
    elim (first_entry (unknown_entry at) entries) [ some l ↦ l | none ↦ LoadingState.idle ]
loading_of_ipns _ entries = LoadingState.idle

unfoldable pub loading_of_chain : ℕ → IpnsResolutionStatus → Map String ChainEntry → LoadingState
unfolding first_entry fetching_entry failed_entry loading_of_ipns
loading_of_chain now (IpnsResolutionStatus.resolving t) entries = LoadingState.resolving t
loading_of_chain now status entries = elim (first_entry fetching_entry entries) [
  | some l ↦ l
  | none ↦ elim (first_entry (failed_entry now) entries) [
    | some l ↦ l
    | none ↦ loading_of_ipns status entries
  ]
]

unfoldable pub derive_loading_state : ℕ → DocState → LoadingState
unfolding loading_of_chain
derive_loading_state now s = loading_of_chain now s.ipns_status s.chain.entries

unfoldable status_label : DocStatus → String
status_label DocStatus.synced = "Live"
status_label DocStatus.receiving = "Subscribed"
status_label DocStatus.connecting = "Connecting"
status_label DocStatus.offline = "Offline"

unfoldable save_label : SaveState → String
save_label SaveState.saved = "Published"
save_label SaveState.unpublished = "Publish now"
save_label SaveState.saving = "Saving…"
save_label SaveState.dirty = "Publish changes"
save_label SaveState.save_error = "Save failed"

-- The `status` of a loading state
abbrev pub loading_status : LoadingState → String
loading_status LoadingState.idle = "idle"
loading_status (LoadingState.resolving t) = "resolving"
loading_status (LoadingState.fetching c t) = "fetching"
loading_status (LoadingState.retrying c a t) = "retrying"
loading_status (LoadingState.failed c e) = "failed"

-- The `cid` of a loading state that has one
abbrev pub loading_cid : LoadingState → Option String
loading_cid (LoadingState.fetching c t) = some c
loading_cid (LoadingState.retrying c a t) = some c
loading_cid (LoadingState.failed c e) = some c
loading_cid _ = none

abbrev pub loading_attempt : LoadingState → Option ℕ
loading_attempt (LoadingState.retrying c a t) = some a
loading_attempt _ = none

abbrev differ_where_both {ℓ} : {A : Type ℓ} → (A → A → Bool) → Option A → Option A → Bool
differ_where_both eq (some a) (some b) = not (eq a b)
differ_where_both eq _ _ = false

unfoldable pub loading_state_changed : LoadingState → LoadingState → Bool
loading_state_changed a b =
    if not (str_eq (loading_status a) (loading_status b))
    then true
    else if differ_where_both str_eq (loading_cid a) (loading_cid b)
    then true
    else differ_where_both ◌==◌ (loading_attempt a) (loading_attempt b)
