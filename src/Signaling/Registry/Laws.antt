-- ===== src/Signaling/Registry/Laws.antt =====
-- packages/node/src/signaling/registry.ts: who is found after each operation.
use pokapali.Prelude.{
  ◌≡◌, refl, ◌∙◌, subst, inl, inr, String, Bool, true, false, not, ◌&&◌, Option, none, some, [],
  ◌∷◌, if◌then◌else◌, if_float, if_same, sym, Bool-cases, Option-cases, ◌===◌, map_get, map_set,
  map_get-map_set, map_get-map_delete, string_eq,
}
use pokapali.Signaling.Registry.{
  Stream, PeerEntry, Members, Rooms, or_empty, join, shrink, leave, is_other, leave_one, keep,
  leave_all, find_peer,
}

-- What `find_peer` finds among the members of a room, if it is there.
entry_of : String → Option Members → Option PeerEntry
entry_of peer_id none = none
entry_of peer_id (some ms) = map_get peer_id ms

find_peer-entry_of :
    (r p : String) (rooms : Rooms) → find_peer r p rooms ≡ entry_of p (map_get r rooms)
unfolding find_peer entry_of
find_peer-entry_of r p rooms = elim (Option-cases (map_get r rooms)) [
  | inl q ↦ rw (find_peer, q) refl
  | inr (ms, q) ↦ rw (find_peer, q) refl
]

entry_of-or_empty : (p : String) (o : Option Members) → map_get p (or_empty o) ≡ entry_of p o
unfolding entry_of map_get
entry_of-or_empty p none = refl
entry_of-or_empty p (some ms) = refl

-- A room put back after a change.
entry_of-put :
    (room r p : String) (ms : Members) (rooms : Rooms)
    → entry_of p (map_get r (map_set room ms rooms))
      ≡ (if room === r then map_get p ms else entry_of p (map_get r rooms))
unfolding entry_of
entry_of-put room r p ms rooms =
    rw map_get-map_set (if_float (entry_of p) (room === r) (some ms) (map_get r rooms))

entry_of-shrink :
    (room r p : String) (ms : Members) (rooms : Rooms)
    → entry_of p (map_get r (shrink room ms rooms))
      ≡ (if room === r then map_get p ms else entry_of p (map_get r rooms))
unfolding shrink entry_of map_get
entry_of-shrink room r p (m ∷ ms) rooms = entry_of-put room r p (m ∷ ms) rooms
entry_of-shrink room r p [] rooms =
    rw map_get-map_delete (if_float (entry_of p) (room === r) none (map_get r rooms))

-- After a join the peer is found in the room with its new entry, and all else as before.
pub find_peer-join :
    (room : String) (entry : PeerEntry) (rooms : Rooms) (r p : String)
    → find_peer r p (join room entry rooms)
      ≡ (if (room === r) && (entry.peer_id === p) then some entry else find_peer r p rooms)
unfolding join
find_peer-join room entry rooms r p =
    rw
      (
        find_peer-entry_of r p (join room entry rooms),
        find_peer-entry_of r p rooms,
        join,
        entry_of-put,
        map_get-map_set,
        entry_of-or_empty,
      )
      (elim (Bool-cases (room === r)) [
        | inl h ↦ rw (h, (string_eq.beq_iff room r).0 h) refl
        | inr h ↦ rw h refl
      ])

same_room :
    (room r : String) (rooms : Rooms) {o : Option Members}
    → (room === r) ≡ true
    → map_get room rooms ≡ o
    → map_get r rooms ≡ o
same_room room r rooms {o = o} h g =
    subst (λ x. map_get x rooms ≡ o) ((string_eq.beq_iff room r).0 h) g

-- After a leave the peer is not found in the room, and all else is found as before.
pub find_peer-leave :
    (room q : String) (rooms : Rooms) (r p : String)
    → find_peer r p (leave room q rooms)
      ≡ (if (room === r) && (q === p) then none else find_peer r p rooms)
unfolding leave entry_of
find_peer-leave room q rooms r p =
    rw (find_peer-entry_of r p (leave room q rooms), find_peer-entry_of r p rooms)
      (elim (Option-cases (map_get room rooms)) [
        | inl g ↦
            rw (leave, g)
              (elim (Bool-cases (room === r)) [
                | inl h ↦ rw (h, same_room room r rooms h g) (sym (if_same (q === p) none))
                | inr h ↦ rw h refl
              ])
        | inr (ms, g) ↦
            rw (leave, g, entry_of-shrink, map_get-map_delete)
              (elim (Bool-cases (room === r)) [
                | inl h ↦ rw (h, same_room room r rooms h g) refl
                | inr h ↦ rw h refl
              ])
      ])

-- No room is there twice.
abbrev pub Distinct : Rooms → Type 0
Distinct [] = Unit
Distinct ((room, ms) ∷ rooms) = (map_get room rooms ≡ none) × Distinct rooms

-- The entry that `leaveAll` removes: the peer's own, when it is that of the stream given, if any is.
abbrev pub is_ours : Option Stream → Option PeerEntry → Bool
is_ours send none = false
is_ours send (some entry) = not (is_other send entry)

leave_one-entry_of :
    (q p : String) (send : Option Stream) (ms : Members)
    → map_get p (leave_one q send ms).0
      ≡ (if (q === p) && is_ours send (map_get p ms) then none else map_get p ms)
unfolding leave_one
leave_one-entry_of q p send ms = elim (Option-cases (map_get q ms)) [
  | inl g ↦
      rw (leave_one, g)
        (elim (Bool-cases (q === p)) [
          | inl h ↦ rw (h, subst (λ x. map_get x ms ≡ none) ((string_eq.beq_iff q p).0 h) g) refl
          | inr h ↦ rw h refl
        ])
  | inr (entry, g) ↦ elim (Bool-cases (is_other send entry)) [
    | inl o ↦
        rw (leave_one, g, o)
          (elim (Bool-cases (q === p)) [
            | inl h ↦
                rw (h, subst (λ x. map_get x ms ≡ some entry) ((string_eq.beq_iff q p).0 h) g, o)
                  refl
            | inr h ↦ rw h refl
          ])
    | inr o ↦
        rw (leave_one, g, o, map_get-map_delete)
          (elim (Bool-cases (q === p)) [
            | inl h ↦
                rw (h, subst (λ x. map_get x ms ≡ some entry) ((string_eq.beq_iff q p).0 h) g, o)
                  refl
            | inr h ↦ rw h refl
          ])
  ]
]

map_get-keep :
    (room r : String) (now : Members × Bool) (rooms : Rooms)
    → (room === r) ≡ false
    → map_get r (keep room now rooms) ≡ map_get r rooms
unfolding map_get
map_get-keep room r (ms, false) rooms h = rw h refl
map_get-keep room r ([], true) rooms h = refl
map_get-keep room r (m ∷ ms, true) rooms h = rw h refl

pub leave_all-absent :
    (q : String) (send : Option Stream) (r : String) (rooms : Rooms)
    → map_get r rooms ≡ none
    → map_get r (leave_all q send rooms).1 ≡ none
unfolding leave_all map_get
leave_all-absent q send r [] h = h
leave_all-absent q send r ((room, ms) ∷ rooms) h = elim (Bool-cases (room === r)) [
  | inl g ↦ let e = rw g at h in cc
  | inr g ↦
      map_get-keep room r (leave_one q send ms) (leave_all q send rooms).1 g
      ∙ leave_all-absent q send r rooms (rw g at h)
]

entry_of-keep :
    (room r p : String) (now : Members × Bool) (rooms : Rooms)
    → map_get room rooms ≡ none
    → entry_of p (map_get r (keep room now rooms))
      ≡ (if room === r then map_get p now.0 else entry_of p (map_get r rooms))
unfolding entry_of map_get
entry_of-keep room r p (ms, false) rooms h =
    if_float (entry_of p) (room === r) (some ms) (map_get r rooms)
entry_of-keep room r p (m ∷ ms, true) rooms h =
    if_float (entry_of p) (room === r) (some (m ∷ ms)) (map_get r rooms)
entry_of-keep room r p ([], true) rooms h = elim (Bool-cases (room === r)) [
  | inl g ↦ rw (g, same_room room r rooms g h) refl
  | inr g ↦ rw g refl
]

entry_of-leave_all :
    (q : String) (send : Option Stream) (rooms : Rooms) (r p : String)
    → Distinct rooms
    → entry_of p (map_get r (leave_all q send rooms).1) ≡ (
        if (q === p) && is_ours send (entry_of p (map_get r rooms))
        then none
        else entry_of p (map_get r rooms))
unfolding leave_all entry_of map_get
entry_of-leave_all q send [] r p h = sym (if_same ((q === p) && is_ours send none) none)
entry_of-leave_all q send ((room, ms) ∷ rooms) r p h =
    rw
      (entry_of-keep room r p (leave_one q send ms) (leave_all q send rooms).1
        (leave_all-absent q send room rooms h.0))
      (elim (Bool-cases (room === r)) [
        | inl g ↦ rw g (leave_one-entry_of q p send ms)
        | inr g ↦ rw g (entry_of-leave_all q send rooms r p h.1)
      ])

-- In rooms none of which is there twice, `leaveAll` removes the peer from every room where its
-- entry is that of the stream given, if one is given, and all else is found as before.
pub find_peer-leave_all :
    (q : String) (send : Option Stream) (rooms : Rooms) (r p : String)
    → Distinct rooms
    → find_peer r p (leave_all q send rooms).1
      ≡ (if (q === p) && is_ours send (find_peer r p rooms) then none else find_peer r p rooms)
find_peer-leave_all q send rooms r p h =
    rw (find_peer-entry_of r p (leave_all q send rooms).1, find_peer-entry_of r p rooms)
      (entry_of-leave_all q send rooms r p h)
