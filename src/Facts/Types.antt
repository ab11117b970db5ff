-- ===== src/Facts/Types.antt =====
-- packages/core/src/facts.ts: the facts and the state of a document. A CID stands for its text
-- (`cid.toString()`), by which alone the modelled code tells CIDs apart; a time is in milliseconds.
use pokapali.Prelude.{ℕ, String, Bool, false, Option, none, List, [], Map, Eq, discrete_eq}

abbrev pub Cid : Type 0
Cid = String

abbrev pub Bytes : Type 0
Bytes = List ℕ

pub data CidSource : Type 0 where
  gossipsub ipns http_tip reannounce chain_walk pinner_index cache catalog : CidSource

unfoldable pub CidSource-discrete : Discrete CidSource
CidSource-discrete = hlevel

instance abbrev pub cid_source_eq : Eq CidSource
cid_source_eq = discrete_eq CidSource-discrete

pub data DocStatus : Type 0 where
  connecting synced receiving offline : DocStatus

pub data SaveState : Type 0 where
  saved unpublished saving dirty save_error : SaveState

pub data DocRole : Type 0 where
  admin writer reader : DocRole

pub data SyncStatus : Type 0 where
  connecting connected disconnected : SyncStatus

pub data GossipActivity : Type 0 where
  inactive subscribed receiving : GossipActivity

pub data LoadingState : Type 0 where
  idle : LoadingState
  resolving : (started_at : ℕ) → LoadingState
  fetching : (cid : String) (started_at : ℕ) → LoadingState
  retrying : (cid : String) (attempt next_retry_at : ℕ) → LoadingState
  failed : (cid : String) (error : String) → LoadingState

pub data BlockStatus : Type 0 where
  unknown fetching fetched applied failed : BlockStatus

pub record Guarantee : Type 0 where
  pub guarantee_until : ℕ
  pub retain_until : ℕ

pub record ChainEntry : Type 0 where
  pub cid : Cid
  pub seq : Option ℕ
  pub ts : Option ℕ
  pub discovered_via : List CidSource
  pub block_status : BlockStatus
  pub fetch_attempt : ℕ
  pub fetch_started_at : Option ℕ
  pub last_error : Option String
  pub prev : Option Cid
  pub guarantees : Map String Guarantee
  pub acked_by : List String

pub record ChainState : Type 0 where
  pub entries : Map String ChainEntry
  pub tip : Option Cid
  pub applying : Option Cid
  pub newest_fetched : Option Cid
  pub max_seq : ℕ

pub record GossipState : Type 0 where
  pub activity : GossipActivity
  pub subscribed : Bool
  pub last_message_at : ℕ

pub record Connectivity : Type 0 where
  pub sync_status : SyncStatus
  pub awareness_connected : Bool
  pub gossip : GossipState
  pub relay_peers : List String
  pub known_pinner_pids : List String
  pub created_at : Option ℕ

pub record ContentState : Type 0 where
  pub clock_sum : ℕ
  pub is_dirty : Bool
  pub is_saving : Bool
  pub ipns_seq : Option ℕ
  pub last_save_error : Option String

pub record AnnounceState : Type 0 where
  pub last_announced_cid : Option Cid
  pub last_announce_at : ℕ
  pub last_guarantee_query_at : ℕ

pub data IpnsResolutionStatus : Type 0 where
  idle : IpnsResolutionStatus
  resolving : (started_at : ℕ) → IpnsResolutionStatus
  resolved : (cid : Cid) (at : ℕ) → IpnsResolutionStatus

pub record SnapshotRecord : Type 0 where
  pub cid : Cid
  pub seq : ℕ
  pub ts : ℕ
  pub channel : String
  pub epoch_index : ℕ

pub record SnapshotHistory : Type 0 where
  pub records : List SnapshotRecord

-- A count of `openEpochCount`: a number, or what is there where the channel's record was begun on an
-- inherited member of the object.
pub data OpenCount : Type 0 where
  counted : ℕ → OpenCount
  undefined nan : OpenCount

-- The hash is `none` where it is undefined, and `some none` where it is null.
pub record ChannelEpochState : Type 0 where
  pub open_epoch_count : OpenCount
  pub last_convergence_hash : Option (Option Bytes)
  pub dirty : Bool

pub record EpochState : Type 0 where
  pub channels : Map String ChannelEpochState
  pub view_cache_stale : List String
  pub pending_snapshots : List String

pub record Identity : Type 0 where
  pub ipns_name : String
  pub role : DocRole
  pub channels : List String
  pub app_id : String

pub record DocState : Type 0 where
  pub identity : Identity
  pub chain : ChainState
  pub connectivity : Connectivity
  pub content : ContentState
  pub announce : AnnounceState
  pub epochs : EpochState
  pub pending_queries : Map String ℕ
  pub ipns_status : IpnsResolutionStatus
  pub snapshot_history : SnapshotHistory
  pub status : DocStatus
  pub save_state : SaveState

pub data EditOrigin : Type 0 where
  local remote : EditOrigin

-- The `type` of a fact with its own fields; what all facts have, `ts`, is in `Fact`.
pub data Payload : Type 0 where
  cid_discovered :
      (cid : Cid) (source : CidSource) (block : Option Bytes) (seq snapshot_ts : Option ℕ) → Payload
  block_fetch_started : (cid : Cid) → Payload
  block_fetched :
      (cid : Cid) (block : Bytes) (prev : Option Cid) (seq snapshot_ts : Option ℕ) → Payload
  block_fetch_failed : (cid : Cid) (attempt : ℕ) (error : String) → Payload
  tip_advanced : (cid : Cid) (seq : ℕ) → Payload
  announced : (cid : Cid) (seq : ℕ) → Payload
  ack_received : (cid : Cid) (peer_id : String) → Payload
  guarantee_received : (peer_id : String) (cid : Cid) (guarantee_until retain_until : ℕ) → Payload
  gossip_message : Payload
  gossip_subscribed : Payload
  node_change : (peer_id : String) → Payload
  sync_status_changed : (status : SyncStatus) → Payload
  awareness_status_changed : (connected : Bool) → Payload
  relay_connected : (peer_id : String) → Payload
  relay_disconnected : (peer_id : String) → Payload
  content_dirty : (clock_sum : ℕ) → Payload
  publish_started : Payload
  publish_succeeded : (cid : Cid) (seq : ℕ) → Payload
  publish_failed : (error : String) → Payload
  epoch_closed : (channel : String) (epoch_index : ℕ) → Payload
  convergence_detected : (channel : String) (hash : Bytes) → Payload
  snapshot_materialized : (channel : String) (epoch_index : ℕ) (cid : Cid) (seq : ℕ) → Payload
  edit_received : (channel : String) (edit_hash : Bytes) (origin : EditOrigin) → Payload
  edit_verified : (channel : String) (edit_hash author : Bytes) → Payload
  view_cache_loaded : (view_name : String) (entries : ℕ) → Payload
  view_cache_written : (view_name : String) (entries : ℕ) → Payload
  pinner_discovered : (peer_id : String) → Payload
  guarantee_query_sent : (peer_id : String) → Payload
  guarantee_query_responded : (peer_id : String) → Payload
  ipns_resolve_started : Payload
  ipns_resolve_completed : (cid : Option Cid) → Payload
  block_retry_reset : (cid : Cid) → Payload
  reannounce_tick : Payload
  tick : Payload

pub record Fact : Type 0 where
  pub ts : ℕ
  pub payload : Payload

-- The initial states
abbrev pub initial_gossip : GossipState
initial_gossip = record {
  activity = GossipActivity.inactive;
  subscribed = false;
  last_message_at = 0;
}

abbrev pub initial_connectivity : Connectivity
initial_connectivity = record {
  sync_status = SyncStatus.disconnected;
  awareness_connected = false;
  gossip = initial_gossip;
  relay_peers = [];
  known_pinner_pids = [];
  created_at = none;
}

abbrev pub initial_content : ContentState
initial_content = record {
  clock_sum = 0;
  is_dirty = false;
  is_saving = false;
  ipns_seq = none;
  last_save_error = none;
}

abbrev pub initial_chain : ChainState
initial_chain = record {
  entries = [];
  tip = none;
  applying = none;
  newest_fetched = none;
  max_seq = 0;
}

abbrev pub initial_epochs : EpochState
initial_epochs = record { channels = []; view_cache_stale = []; pending_snapshots = [] }

abbrev initial_snapshot_history : SnapshotHistory
initial_snapshot_history = record { records = [] }

abbrev pub initial_doc_state : Identity → DocState
initial_doc_state identity = record {
  identity = identity;
  chain = initial_chain;
  connectivity = initial_connectivity;
  content = initial_content;
  announce = record {
    last_announced_cid = none;
    last_announce_at = 0;
    last_guarantee_query_at = 0;
  };
  epochs = initial_epochs;
  pending_queries = [];
  ipns_status = IpnsResolutionStatus.idle;
  snapshot_history = initial_snapshot_history;
  status = DocStatus.offline;
  save_state = SaveState.unpublished;
}
