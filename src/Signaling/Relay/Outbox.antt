-- ===== src/Signaling/Relay/Outbox.antt =====
-- packages/node/src/signaling: what a peer at the other end of a stream decodes.
use pokapali.Prelude.{
  ◌<◌, ◌≡◌, refl, ap, ap₂, ◌∙◌, sym, Option, some, List, [], ◌∷◌, ◌++◌, append-nil, length, ◌==◌,
  if◌then◌else◌, map,
}
use pokapali.Facts.Types.{Bytes}
use pokapali.Wire.{Lib0}
use pokapali.Signaling.Protocol.{
  SignalMessage, IsSignal, encode_signal, decode_signal, decode_signal-encode_signal,
}
use pokapali.Signaling.Frames.{next_frame, read_frames, joined, framed}
use pokapali.Signaling.Frames.Chunks.{AllFit, read_frames-framed}
use pokapali.Signaling.Registry.{Stream}
use pokapali.Signaling.Relay.{Effect, sent, local_join, local_leave, enqueued}

-- The messages that go to a stream, in order.
unfoldable pub messages_to : Stream → List Effect → List SignalMessage
messages_to stream [] = []
messages_to stream (sent to msg ∷ effects) =
    let rest = messages_to stream effects in if to == stream then msg ∷ rest else rest
messages_to stream (local_join room peer_id ∷ effects) = messages_to stream effects
messages_to stream (local_leave room peer_id ∷ effects) = messages_to stream effects

-- The bytes of a stream's queue, which `outbound` yields in order.
unfoldable pub outbound : Lib0 → List SignalMessage → Bytes
unfolding enqueued
outbound w [] = []
outbound w (msg ∷ msgs) = enqueued w msg ++ outbound w msgs

-- The other end: the frames are read, and each is decoded.
unfoldable pub decode_all : Lib0 → List Bytes → List (Option SignalMessage)
decode_all w frames = map (λ frame. decode_signal w frame) frames

-- The payload of a message is bytes, and its encoding is shorter than 2^32.
abbrev pub AllSendable : Lib0 → List SignalMessage → Type 0
AllSendable w [] = Unit
AllSendable w (msg ∷ msgs) =
    IsSignal msg × (length (encode_signal w msg) < 4294967296) × AllSendable w msgs

outbound-framed :
    (w : Lib0) (msgs : List SignalMessage)
    → outbound w msgs ≡ framed (map (λ m. encode_signal w m) msgs)
unfolding outbound framed enqueued map
outbound-framed w [] = refl
outbound-framed w (msg ∷ msgs) = ap (◌++◌ (enqueued w msg)) (outbound-framed w msgs)

AllSendable-AllFit :
    (w : Lib0) (msgs : List SignalMessage)
    → AllSendable w msgs
    → AllFit (map (λ m. encode_signal w m) msgs)
unfolding map
AllSendable-AllFit w [] h = tt
AllSendable-AllFit w (msg ∷ msgs) h = (h.1, AllSendable-AllFit w msgs h.2)

decoded :
    (w : Lib0) (msgs : List SignalMessage)
    → AllSendable w msgs
    → decode_all w (map (λ m. encode_signal w m) msgs) ≡ map (λ m. some m) msgs
unfolding decode_all map
decoded w [] h = refl
decoded w (msg ∷ msgs) h = ap₂ ◌∷◌ (whole w msg h.0) (decoded w msgs h.2)
  where
    whole :
        (w : Lib0) (msg : SignalMessage)
        → IsSignal msg
        → decode_signal w (encode_signal w msg) ≡ some msg
    whole w msg h = rw append-nil at (decode_signal-encode_signal w msg [] h)

-- However the transport cuts the bytes of a stream's queue, the other end decodes exactly the
-- messages that the relay sent to that stream, in their order, when their payloads are bytes and
-- their encodings are shorter than 2^32 bytes.
pub decode_all-outbound :
    (w : Lib0) (stream : Stream) (effects : List Effect) (chunks : List Bytes)
    → AllSendable w (messages_to stream effects)
    → joined chunks ≡ outbound w (messages_to stream effects)
    → decode_all w (read_frames [] chunks).0 ≡ map (λ m. some m) (messages_to stream effects)
unfolding next_frame
decode_all-outbound w stream effects chunks h same =
    let msgs = messages_to stream effects in
    let whole = same ∙ outbound-framed w msgs ∙ sym (append-nil _) in
    ap (λ l. decode_all w l.0)
      (read_frames-framed (map (λ m. encode_signal w m) msgs) [] chunks
        (AllSendable-AllFit w msgs h) refl whole)
    ∙ decoded w msgs h
