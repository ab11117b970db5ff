-- ===== src/Signaling/Registry/Rooms.antt =====
-- packages/node/src/signaling/registry.ts: each operation keeps the rooms apart.
use mathlib.Core.Bool.{false≢true}
use pokapali.Prelude.{
  ◌≡◌, refl, sym, ◌∙◌, inl, inr, String, Bool, true, false, Option, none, [], ◌∷◌, Bool-cases,
  Option-cases, ◌===◌, map_get, map_set, map_delete, map_get-map_set, map_get-map_delete, string_eq,
}
use pokapali.Signaling.Registry.{
  Stream, PeerEntry, Members, Rooms, join, shrink, leave, leave_one, keep, leave_all,
}
use pokapali.Signaling.Registry.Laws.{Distinct, leave_all-absent}

===-flip : (r room : String) → (r === room) ≡ false → (room === r) ≡ false
===-flip r room h = elim (Bool-cases (room === r)) [
  | inr g ↦ g
  | inl g ↦
      let e = sym h ∙ (string_eq.beq_iff r room).1 (sym ((string_eq.beq_iff room r).0 g)) in
      absurd (false≢true e)
]

Distinct-map_set :
    (room : String) (ms : Members) (rooms : Rooms)
    → Distinct rooms
    → Distinct (map_set room ms rooms)
unfolding map_set map_get
Distinct-map_set room ms [] h = (refl, tt)
Distinct-map_set room ms ((r, old) ∷ rooms) h = elim (Bool-cases (r === room)) [
  | inl g ↦ rw g h
  | inr g ↦ rw g (
    rw (map_get-map_set room r ms rooms, ===-flip r room g) h.0,
    Distinct-map_set room ms rooms h.1,
  )
]

absent_still :
    (room r : String) (rooms : Rooms)
    → (r === room) ≡ false
    → map_get r rooms ≡ none
    → map_get r (map_delete room rooms) ≡ none
absent_still room r rooms g h = rw (map_get-map_delete room r rooms, ===-flip r room g) h

Distinct-map_delete :
    (room : String) (rooms : Rooms) → Distinct rooms → Distinct (map_delete room rooms)
unfolding map_delete
Distinct-map_delete room [] h = tt
Distinct-map_delete room ((r, old) ∷ rooms) h = elim (Bool-cases (r === room)) [
  | inl g ↦ rw g (Distinct-map_delete room rooms h.1)
  | inr g ↦ rw g (absent_still room r rooms g h.0, Distinct-map_delete room rooms h.1)
]

pub join-Distinct :
    (room : String) (entry : PeerEntry) (rooms : Rooms)
    → Distinct rooms
    → Distinct (join room entry rooms)
unfolding join
join-Distinct room entry rooms h = Distinct-map_set room _ rooms h

shrink-Distinct :
    (room : String) (ms : Members) (rooms : Rooms)
    → Distinct rooms
    → Distinct (shrink room ms rooms)
unfolding shrink
shrink-Distinct room [] rooms h = Distinct-map_delete room rooms h
shrink-Distinct room (m ∷ ms) rooms h = Distinct-map_set room (m ∷ ms) rooms h

pub leave-Distinct :
    (room q : String) (rooms : Rooms) → Distinct rooms → Distinct (leave room q rooms)
unfolding leave shrink
leave-Distinct room q rooms h = elim (Option-cases (map_get room rooms)) [
  | inl g ↦ rw (leave, g) h
  | inr (ms, g) ↦ rw (leave, g) (shrink-Distinct room (map_delete q ms) rooms h)
]

keep-Distinct :
    (room : String) (now : Members × Bool) (rooms : Rooms)
    → map_get room rooms ≡ none
    → Distinct rooms
    → Distinct (keep room now rooms)
keep-Distinct room (ms, false) rooms h d = (h, d)
keep-Distinct room ([], true) rooms h d = d
keep-Distinct room (m ∷ ms, true) rooms h d = (h, d)

pub leave_all-Distinct :
    (q : String) (send : Option Stream) (rooms : Rooms)
    → Distinct rooms
    → Distinct (leave_all q send rooms).1
unfolding leave_all
leave_all-Distinct q send [] h = tt
leave_all-Distinct q send ((room, ms) ∷ rooms) h =
    keep-Distinct room (leave_one q send ms) (leave_all q send rooms).1
      (leave_all-absent q send room rooms h.0) (leave_all-Distinct q send rooms h.1)
