-- ===== src/Signaling/Registry.antt =====
-- packages/node/src/signaling/registry.ts: which peers are in which rooms, and the stream of each.
pub mod Laws
pub mod Rooms
use pokapali.Prelude.{
  ℕ, ◌≡◌, ◌≢◌, refl, sym, String, Bool, true, false, not, ◌&&◌, Option, none, some, List, [], ◌∷◌,
  ◌==◌, if◌then◌else◌, Map, map_get, map_set, map_delete, string_eq,
}

-- A `send` function is named by the stream that it writes to.
abbrev pub Stream : Type 0
Stream = ℕ

pub record PeerEntry : Type 0 where
  pub peer_id : String
  pub send : Stream

abbrev pub Members : Type 0
Members = Map String PeerEntry

abbrev pub Rooms : Type 0
Rooms = Map String Members

-- The members that are found, `[]` when the room is not there.
abbrev pub or_empty : Option Members → Members
or_empty none = []
or_empty (some ms) = ms

unfoldable pub join : String → PeerEntry → Rooms → Rooms
join room entry rooms =
    map_set room (map_set entry.peer_id entry (or_empty (map_get room rooms))) rooms

-- `if (r.size === 0) rooms.delete(room)`, the members being those of the room by now.
unfoldable pub shrink : String → Members → Rooms → Rooms
shrink room [] rooms = map_delete room rooms
shrink room (m ∷ ms) rooms = map_set room (m ∷ ms) rooms

unfoldable pub leave : String → String → Rooms → Rooms
unfolding shrink
leave room peer_id rooms = elim (map_get room rooms) [
  | none ↦ rooms
  | some ms ↦ shrink room (map_delete peer_id ms) rooms
]

-- `send && entry.send !== send`
abbrev pub is_other : Option Stream → PeerEntry → Bool
is_other none entry = false
is_other (some send) entry = not (entry.send == send)

-- A room in the loop of `leaveAll`: its members after it, and whether the peer left it.
unfoldable pub leave_one : String → Option Stream → Members → Members × Bool
leave_one peer_id send ms = elim (map_get peer_id ms) [
  | none ↦ (ms, false)
  | some entry ↦ if is_other send entry then (ms, false) else (map_delete peer_id ms, true)
]

-- The room is put before the others, unless the peer left it and it is empty.
abbrev pub keep : String → Members × Bool → Rooms → Rooms
keep room (ms, false) rooms = (room, ms) ∷ rooms
keep room ([], true) rooms = rooms
keep room (m ∷ ms, true) rooms = (room, m ∷ ms) ∷ rooms

abbrev pub note : String → Bool → List String → List String
note room true left = room ∷ left
note room false left = left

unfoldable pub leave_all : String → Option Stream → Rooms → List String × Rooms
unfolding leave_one
leave_all peer_id send [] = ([], [])
leave_all peer_id send ((room, ms) ∷ rooms) =
    let (left, rest) = leave_all peer_id send rooms in
    let now = leave_one peer_id send ms in (note room now.1 left, keep room now rest)

unfoldable pub room_entries : Members → List PeerEntry
room_entries [] = []
room_entries ((peer_id, entry) ∷ ms) = entry ∷ room_entries ms

unfoldable pub members : String → Rooms → List PeerEntry
unfolding room_entries
members room rooms = room_entries (or_empty (map_get room rooms))

unfoldable pub find_peer : String → String → Rooms → Option PeerEntry
find_peer room peer_id rooms = elim (map_get room rooms) [
  | none ↦ none
  | some ms ↦ map_get peer_id ms
]
