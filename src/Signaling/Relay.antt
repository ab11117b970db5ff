-- ===== src/Signaling/Relay.antt =====
-- packages/node/src/signaling/handler.ts: what the relay does with each message, and at the end of
-- a stream.
pub mod Introductions
pub mod Outbox
use pokapali.Prelude.{ℕ, String, Bool, true, false, Option, none, some, List, [], ◌∷◌, ◌++◌, map}
use pokapali.Facts.Types.{Bytes}
use pokapali.Wire.{Lib0}
use pokapali.Signaling.Protocol.{
  SignalMessage, join_room, leave_room, signal, peer_joined, peer_left, encode_signal,
  decode_signal,
}
use pokapali.Signaling.Frames.{frame_length_prefix}
use pokapali.Signaling.Registry.{
  Stream, PeerEntry, Rooms, join, leave, leave_all, members, find_peer,
}

-- What the handlers do outside the registry, in order: a message is put on the queue of a stream,
-- or the forwarder is told of a peer that came or left.
pub data Effect : Type 0 where
  sent : (stream : Stream) (msg : SignalMessage) → Effect
  local_join : (room : String) (peer_id : String) → Effect
  local_leave : (room : String) (peer_id : String) → Effect

abbrev pub Relayed : Type 0
Relayed = Rooms × List Effect

-- `member.send(encodeSignal(msg))` for each member.
unfoldable pub tell : SignalMessage → List PeerEntry → List Effect
tell msg existing = map (λ member. sent member.send msg) existing

-- `sendToSelf` of each member that is there.
unfoldable pub tell_self : Stream → String → List PeerEntry → List Effect
tell_self stream room existing =
    map (λ member. sent stream (peer_joined room member.peer_id)) existing

-- `forwarder?.…`
abbrev pub forwarded : Bool → Effect → List Effect
forwarded true effect = effect ∷ []
forwarded false effect = []

unfoldable pub send_to : String → String → SignalMessage → Rooms → List Effect
send_to target_peer_id room msg rooms = elim (find_peer room target_peer_id rooms) [
  | none ↦ []
  | some target ↦ sent target.send msg ∷ []
]

module _ (forwarder : Bool) where
  unfoldable pub process_message : SignalMessage → PeerEntry → Rooms → Relayed
  unfolding tell tell_self send_to
  process_message (join_room room) sender rooms =
      let existing = members room rooms in
      (
        join room sender rooms,
        tell (peer_joined room sender.peer_id) existing
            ++ (tell_self sender.send room existing
                ++ forwarded forwarder (local_join room sender.peer_id)),
      )
  process_message (leave_room room) sender rooms =
      let rest = leave room sender.peer_id rooms in
      (
        rest,
        forwarded forwarder (local_leave room sender.peer_id)
            ++ tell (peer_left room sender.peer_id) (members room rest),
      )
  process_message (signal room target_peer_id payload) sender rooms =
      (rooms, send_to target_peer_id room (signal room sender.peer_id payload) rooms)
  process_message (peer_joined room peer_id) sender rooms = (rooms, [])
  process_message (peer_left room peer_id) sender rooms = (rooms, [])

  -- The loop of `cleanup` over the rooms that the peer left.
  unfoldable pub announce_left : String → Rooms → List String → List Effect
  unfolding tell
  announce_left peer_id rooms [] = []
  announce_left peer_id rooms (room ∷ left) =
      forwarded forwarder (local_leave room peer_id)
      ++ (tell (peer_left room peer_id) (members room rooms) ++ announce_left peer_id rooms left)

  unfoldable pub cleanup : PeerEntry → Rooms → Relayed
  unfolding announce_left
  cleanup sender rooms =
      let (left, rest) = leave_all sender.peer_id (some sender.send) rooms in
      (rest, announce_left sender.peer_id rest left)

-- A frame that a stream delivers, or its end.
pub data Event : Type 0 where
  frame : (sender : PeerEntry) (bytes : Bytes) → Event
  ended : (sender : PeerEntry) → Event

module _ (w : Lib0) (forwarder : Bool) where
  -- A frame that does not decode ends the stream.
  unfoldable pub on_event : Event → Rooms → Relayed
  unfolding process_message cleanup
  on_event (frame sender bytes) rooms = elim (decode_signal w bytes) [
    | none ↦ cleanup forwarder sender rooms
    | some msg ↦ process_message forwarder msg sender rooms
  ]
  on_event (ended sender) rooms = cleanup forwarder sender rooms

  -- The relay's history: the registry and all effects, the later ones last.
  unfoldable pub run : Relayed → List Event → Relayed
  unfolding on_event
  run (rooms, effects) [] = (rooms, effects)
  run (rooms, effects) (event ∷ events) =
      let (next, more) = on_event event rooms in run (next, effects ++ more) events

-- `enqueue(encodeSignal(msg))`
unfoldable pub enqueued : Lib0 → SignalMessage → Bytes
enqueued w msg = frame_length_prefix (encode_signal w msg)
