-- ===== src/Signaling/Protocol.antt =====
-- packages/node/src/signaling/protocol.ts: the messages and their wire format. The file
-- packages/sync/src/signaling/protocol.ts is a copy of it for the browser.
use pokapali.Prelude.{
  ℕ, ◌<◌, ◌≡◌, refl, String, Option, none, some, ◌++◌, ◌==◌, if◌then◌else◌, length, arith,
}
use pokapali.Facts.Types.{Bytes}
use pokapali.Wire.{Lib0, Parser, ◌>>=◌, give, throw, Reads, Reads-bind, Reads-last, IsUint, IsBytes}

pub data SignalMessage : Type 0 where
  join_room : (room : String) → SignalMessage
  leave_room : (room : String) → SignalMessage
  signal : (room : String) (target_peer_id : String) (payload : Bytes) → SignalMessage
  peer_joined : (room : String) (peer_id : String) → SignalMessage
  peer_left : (room : String) (peer_id : String) → SignalMessage

-- `SignalType`
abbrev pub signal_type : SignalMessage → ℕ
signal_type (join_room room) = 0
signal_type (leave_room room) = 1
signal_type (signal room target_peer_id payload) = 2
signal_type (peer_joined room peer_id) = 3
signal_type (peer_left room peer_id) = 4

-- A payload holds bytes, and its length is a safe integer.
abbrev pub IsSignal : SignalMessage → Type 0
IsSignal (signal room target_peer_id payload) = IsBytes payload × IsUint (length payload)
IsSignal (join_room room) = Unit
IsSignal (leave_room room) = Unit
IsSignal (peer_joined room peer_id) = Unit
IsSignal (peer_left room peer_id) = Unit

module _ (w : Lib0) where
  open w use {write_uint, read_uint, write_string, read_string, write_bytes, read_bytes}

  -- What `encodeSignal` writes after the type.
  unfoldable write_fields : SignalMessage → Bytes
  write_fields (join_room room) = write_string room
  write_fields (leave_room room) = write_string room
  write_fields (signal room target_peer_id payload) =
      write_string room ++ (write_string target_peer_id ++ write_bytes payload)
  write_fields (peer_joined room peer_id) = write_string room ++ write_string peer_id
  write_fields (peer_left room peer_id) = write_string room ++ write_string peer_id

  unfoldable pub encode_signal : SignalMessage → Bytes
  unfolding write_fields
  encode_signal msg = write_uint (signal_type msg) ++ write_fields msg

  unfoldable read_signal : Parser SignalMessage
  read_signal = do
    room ← read_string
    target_peer_id ← read_string
    payload ← read_bytes
    give (signal room target_peer_id payload)

  unfoldable read_room : (String → SignalMessage) → Parser SignalMessage
  read_room message = do room ← read_string; give (message room)

  unfoldable read_peer : (String → String → SignalMessage) → Parser SignalMessage
  read_peer message = do room ← read_string; peer_id ← read_string; give (message room peer_id)

  unfoldable read_fields : ℕ → Parser SignalMessage
  unfolding read_signal read_room read_peer
  read_fields type =
      if type == 0
      then read_room join_room
      else if type == 1
      then read_room leave_room
      else if type == 2
      then read_signal
      else if type == 3
      then read_peer peer_joined
      else if type == 4
      then read_peer peer_left
      else throw

  -- `none` is a throw, as of an unknown type. What follows the message is ignored.
  unfoldable pub decode_signal : Bytes → Option SignalMessage
  unfolding read_fields
  decode_signal bytes = elim ((read_uint >>= read_fields) bytes) [
    | none ↦ none
    | some (msg, rest) ↦ some msg
  ]

  fields :
      (msg : SignalMessage)
      → IsSignal msg
      → Reads (read_fields (signal_type msg)) (write_fields msg) msg
  unfolding read_fields write_fields read_room read_peer read_signal
  fields (join_room room) h = Reads-last _ (w.string room)
  fields (leave_room room) h = Reads-last _ (w.string room)
  fields (signal room target_peer_id payload) h =
      Reads-bind _ (w.string room)
        (Reads-bind _ (w.string target_peer_id) (Reads-last _ (w.bytes payload h.0 h.1)))
  fields (peer_joined room peer_id) h =
      Reads-bind _ (w.string room) (Reads-last _ (w.string peer_id))
  fields (peer_left room peer_id) h = Reads-bind _ (w.string room) (Reads-last _ (w.string peer_id))

  signal_type-IsUint : (msg : SignalMessage) → IsUint (signal_type msg)
  signal_type-IsUint (join_room room) = omega arith
  signal_type-IsUint (leave_room room) = omega arith
  signal_type-IsUint (signal room target_peer_id payload) = omega arith
  signal_type-IsUint (peer_joined room peer_id) = omega arith
  signal_type-IsUint (peer_left room peer_id) = omega arith

  -- A signalling message whose payload holds bytes, and is of a safe length, is decoded from its
  -- encoding as it was, whatever bytes follow it.
  pub decode_signal-encode_signal :
      (msg : SignalMessage) (rest : Bytes)
      → IsSignal msg
      → decode_signal (encode_signal msg ++ rest) ≡ some msg
  unfolding decode_signal encode_signal
  decode_signal-encode_signal msg rest h =
      let written =
        Reads-bind read_fields (w.uint (signal_type msg) (signal_type-IsUint msg)) (fields msg h) in
      rw (decode_signal, written.reads rest) refl

  read_fields-unknown : (type : ℕ) → 4 < type → read_fields type ≡ throw
  unfolding read_fields
  read_fields-unknown type h = ground arith

  -- A message whose type is a safe integer but none of the five is refused.
  pub decode_signal-unknown :
      (type : ℕ) (rest : Bytes)
      → IsUint type
      → 4 < type
      → decode_signal (write_uint type ++ rest) ≡ none
  unfolding decode_signal read_fields
  decode_signal-unknown type rest h k =
      rw (decode_signal, ◌>>=◌, (w.uint type h).reads rest, read_fields-unknown type k) refl
