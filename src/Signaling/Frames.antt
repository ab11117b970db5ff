-- ===== src/Signaling/Frames.antt =====
-- packages/node/src/signaling/handler.ts: `frameLengthPrefix` and `createFrameReader`, which carry
-- messages over a stream that cuts its bytes into chunks anywhere.
pub mod Chunks
use pokapali.Prelude.{
  take, drop, ℕ, zero, suc, ◌+◌, ◌*◌, ◌/◌, ◌%◌, ◌<◌, ◌≤◌, ◌≡◌, refl, sym, ap, ◌∙◌, Bool-cases, inl,
  inr, true, false, Option, none, some, List, [], ◌∷◌, ◌++◌, append-nil, append_assoc, length,
  length-append, leb, leb→le, le→leb, subst, some_inj, Option-cases, if◌then◌else◌, arith,
}
use pokapali.Facts.Types.{Bytes}

-- `DataView.setUint32(0, n)`, which keeps the low 32 bits, and `getUint32`, both big-endian.
unfoldable pub uint32 : ℕ → Bytes
uint32 n = n / 16777216 % 256 ∷ n / 65536 % 256 ∷ n / 256 % 256 ∷ n % 256 ∷ []

unfoldable pub from_uint32 : (a b c d : ℕ) → ℕ
from_uint32 a b c d = a * 16777216 + b * 65536 + c * 256 + d

unfoldable pub frame_length_prefix : Bytes → Bytes
unfolding uint32
frame_length_prefix payload = uint32 (length payload) ++ payload

-- One turn of the reader's inner loop: the frame at the front of the buffer, when all of it is
-- there, and the buffer after it.
unfoldable pub next_frame : Bytes → Option (Bytes × Bytes)
unfolding take drop from_uint32
next_frame (a ∷ b ∷ c ∷ d ∷ rest) =
    let len = from_uint32 a b c d in
    if leb len (length rest) then some (take len rest, drop len rest) else none
next_frame [] = none
next_frame (a ∷ []) = none
next_frame (a ∷ b ∷ []) = none
next_frame (a ∷ b ∷ c ∷ []) = none

abbrev pub Frames : Type 0
Frames = List Bytes × Bytes

-- The inner loop, on fuel: the frames it yields, and the buffer it leaves.
unfoldable pub loop : ℕ → Bytes → Frames
unfolding next_frame
loop zero buffer = ([], buffer)
loop (suc fuel) buffer = elim (next_frame buffer) [
  | none ↦ ([], buffer)
  | some (frame, rest) ↦ (frame ∷ (loop fuel rest).0, (loop fuel rest).1)
]

-- The fuel is the length of the buffer, of which each turn takes at least four bytes.
unfoldable pub take_frames : Bytes → Frames
unfolding loop
take_frames buffer = loop (length buffer) buffer

-- The reader from the state `buffer`, over the chunks that the stream gives.
unfoldable pub read_frames : Bytes → List Bytes → Frames
unfolding take_frames
read_frames buffer [] = ([], buffer)
read_frames buffer (chunk ∷ chunks) =
    let (frames, rest) = take_frames (buffer ++ chunk) in
    let (more, left) = read_frames rest chunks in (frames ++ more, left)

unfoldable pub joined : List Bytes → Bytes
joined [] = []
joined (b ∷ bs) = b ++ joined bs

-- The stream that carries the messages.
unfoldable pub framed : List Bytes → Bytes
unfolding frame_length_prefix
framed [] = []
framed (m ∷ ms) = frame_length_prefix m ++ framed ms
