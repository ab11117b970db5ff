-- ===== src/Scenarios/Relaying.antt =====
-- Concrete rooms, streams and messages of a signalling relay.
use pokapali.Prelude.{◌≡◌, refl, true, some, List, [], ◌∷◌, map, string_eq, arith}
use pokapali.Facts.Types.{Bytes}
use pokapali.Wire.Sample.{sample}
use pokapali.Signaling.Protocol.{join_room, peer_joined, encode_signal}
use pokapali.Signaling.Frames.{next_frame, read_frames, joined, framed, frame_length_prefix, uint32}
use pokapali.Signaling.Frames.Chunks.{read_frames-framed}
use pokapali.Signaling.Registry.{PeerEntry}
use pokapali.Signaling.Relay.{Effect, sent, local_join, Event, frame, run}
use pokapali.Signaling.Relay.Introductions.{IsRelay, run-introduces}
use pokapali.Signaling.Relay.Outbox.{messages_to, outbound, decode_all, decode_all-outbound}

abbrev two_messages : List Bytes
two_messages = (1 ∷ 2 ∷ []) ∷ (3 ∷ []) ∷ []

-- The frames of the messages and a byte more, cut into pieces.
abbrev pieces : List Bytes
pieces = (0 ∷ 0 ∷ []) ∷ (0 ∷ 2 ∷ 1 ∷ []) ∷ (2 ∷ 0 ∷ 0 ∷ 0 ∷ 1 ∷ 3 ∷ []) ∷ (7 ∷ []) ∷ []

read_frames-framed_example : read_frames [] pieces ≡ (two_messages, 7 ∷ [])
unfolding next_frame joined framed frame_length_prefix uint32
read_frames-framed_example =
    read_frames-framed two_messages (7 ∷ []) pieces (omega arith, (omega arith, tt)) refl refl

abbrev alice : PeerEntry
alice = record { peer_id = "alice"; send = 1 }

abbrev bob : PeerEntry
bob = record { peer_id = "bob"; send = 2 }

abbrev both_join : List Event
unfolding encode_signal
both_join =
    frame alice (encode_signal sample (join_room "room"))
    ∷ frame bob (encode_signal sample (join_room "room"))
    ∷ []

run-introduces_example : IsRelay (run sample true ([], []) both_join)
run-introduces_example = run-introduces sample true both_join

abbrev notices : List Effect
notices =
    sent 1 (peer_joined "room" "bob")
    ∷ local_join "room" "bob"
    ∷ sent 2 (peer_joined "room" "alice")
    ∷ []

decode_all-outbound_example :
    decode_all sample (read_frames [] (outbound sample (messages_to 1 notices) ∷ [])).0
    ≡ map (λ m. some m) (messages_to 1 notices)
unfolding messages_to joined outbound encode_signal sample frame_length_prefix
decode_all-outbound_example =
    decode_all-outbound sample 1 notices (outbound sample (messages_to 1 notices) ∷ [])
      (tt, omega arith, tt) refl
