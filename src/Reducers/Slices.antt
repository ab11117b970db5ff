-- ===== src/Reducers/Slices.antt =====
-- packages/core/src/reducers.ts: connectivity, content, announcements, pending queries, the IPNS
-- resolution and the save state.
pub mod Laws
use pokapali.Prelude.{
  ℕ, ◌+◌, String, Bool, true, false, Option, none, some, List, Map, map_set, map_delete, map_get,
  set_has, set_add, set_delete, string_eq, ltb, if◌then◌else◌,
}
use pokapali.Facts.Types.{
  GossipActivity, GossipState, Connectivity, ContentState, AnnounceState, ChainState, SaveState,
  IpnsResolutionStatus, Fact, Payload, gossip_subscribed, gossip_message, tick, sync_status_changed,
  awareness_status_changed, relay_connected, relay_disconnected, pinner_discovered, content_dirty,
  publish_started, publish_succeeded, publish_failed, announced, guarantee_query_sent,
  guarantee_query_responded, ipns_resolve_started, ipns_resolve_completed,
}
use pokapali.Status.{truthy, is_receiving}
use pokapali.Reducers.Chain.{is_some}

abbrev pub gossip_decay_ms : ℕ
gossip_decay_ms = 60000

-- What is left of `reduceGossip` for a fact that is not about gossip.
unfoldable decay : ℕ → GossipState → GossipState
decay ts s =
    if is_receiving s.activity
    then if ltb (s.last_message_at + gossip_decay_ms) ts
      then record s {
        activity = if s.subscribed then GossipActivity.subscribed else GossipActivity.inactive;
      }
      else s
    else s

unfoldable pub gossip_step : ℕ → Payload → GossipState → GossipState
unfolding decay
gossip_step ts gossip_subscribed s = record s {
  subscribed = true;
  activity = elim s.activity [
    | GossipActivity.inactive ↦ GossipActivity.subscribed
    | other ↦ other
  ];
}
gossip_step ts gossip_message s = record s {
  last_message_at = ts;
  activity = GossipActivity.receiving;
}
gossip_step ts _ s = decay ts s

unfoldable pub reduce_gossip : GossipState → Fact → GossipState
unfolding gossip_step
reduce_gossip s fact = gossip_step fact.ts fact.payload s

unfoldable pub connectivity_step : Fact → Payload → Connectivity → Connectivity
unfolding reduce_gossip
connectivity_step fact (sync_status_changed status) s = record s { sync_status = status }
connectivity_step fact (awareness_status_changed connected) s = record s {
  awareness_connected = connected;
}
connectivity_step fact gossip_message s = record s { gossip = reduce_gossip s.gossip fact }
connectivity_step fact gossip_subscribed s = record s { gossip = reduce_gossip s.gossip fact }
connectivity_step fact tick s = record s { gossip = reduce_gossip s.gossip fact }
connectivity_step fact (relay_connected peer_id) s =
    if set_has peer_id s.relay_peers
    then s
    else record s { relay_peers = set_add peer_id s.relay_peers }
connectivity_step fact (relay_disconnected peer_id) s =
    if set_has peer_id s.relay_peers
    then record s { relay_peers = set_delete peer_id s.relay_peers }
    else s
connectivity_step fact (pinner_discovered peer_id) s =
    if set_has peer_id s.known_pinner_pids
    then s
    else record s { known_pinner_pids = set_add peer_id s.known_pinner_pids }
connectivity_step fact _ s = s

unfoldable pub reduce_connectivity : Connectivity → Fact → Connectivity
unfolding connectivity_step
reduce_connectivity s fact = connectivity_step fact fact.payload s

unfoldable content_step : Payload → ContentState → ContentState
content_step (content_dirty clock_sum) s = record s {
  clock_sum = clock_sum;
  is_dirty = true;
  last_save_error = none;
}
content_step publish_started s = record s { is_saving = true }
content_step (publish_succeeded cid seq) s = record s {
  is_saving = false;
  is_dirty = false;
  ipns_seq = some seq;
  last_save_error = none;
}
content_step (publish_failed error) s = record s { is_saving = false; last_save_error = some error }
content_step _ s = s

unfoldable pub reduce_content : ContentState → Fact → ContentState
unfolding content_step
reduce_content s fact = content_step fact.payload s

unfoldable announce_step : ℕ → Payload → AnnounceState → AnnounceState
announce_step ts (announced cid seq) s = record s {
  last_announced_cid = some cid;
  last_announce_at = ts;
}
announce_step ts (relay_connected peer_id) s = record s { last_announce_at = 0 }
announce_step ts (guarantee_query_sent peer_id) s = record s { last_guarantee_query_at = ts }
announce_step ts _ s = s

unfoldable pub reduce_announce : AnnounceState → Fact → AnnounceState
unfolding announce_step
reduce_announce s fact = announce_step fact.ts fact.payload s

-- The value of a peer is the `sentAt` of its query.
unfoldable pending_step : ℕ → Payload → Map String ℕ → Map String ℕ
pending_step ts (guarantee_query_sent peer_id) s = map_set peer_id ts s
pending_step ts (guarantee_query_responded peer_id) s =
    if is_some (map_get peer_id s) then map_delete peer_id s else s
pending_step ts _ s = s

unfoldable pub reduce_pending_queries : Map String ℕ → Fact → Map String ℕ
unfolding pending_step
reduce_pending_queries s fact = pending_step fact.ts fact.payload s

unfoldable ipns_step : ℕ → Payload → IpnsResolutionStatus → IpnsResolutionStatus
ipns_step ts ipns_resolve_started s = IpnsResolutionStatus.resolving ts
ipns_step ts (ipns_resolve_completed (some cid)) s = IpnsResolutionStatus.resolved cid ts
ipns_step ts (ipns_resolve_completed none) s = IpnsResolutionStatus.idle
ipns_step ts _ s = s

unfoldable pub reduce_ipns_status : IpnsResolutionStatus → Fact → IpnsResolutionStatus
unfolding ipns_step
reduce_ipns_status s fact = ipns_step fact.ts fact.payload s

unfoldable pub derive_save_state : ContentState → ChainState → SaveState
derive_save_state content chain =
    if content.is_saving
    then SaveState.saving
    else if truthy content.last_save_error
    then SaveState.save_error
    else if content.is_dirty
    then SaveState.dirty
    else if is_some chain.tip
    then SaveState.saved
    else SaveState.unpublished
