-- ===== src/Signaling/Relay/Introductions.antt =====
-- packages/node/src/signaling/handler.ts: which peers have been told of each other.
use mathlib.Core.List.{
  Mem, mem-cons_self, mem-cons_of_mem, mem-append_left, mem-append_right, mem-map_of_mem,
}
use pokapali.Prelude.{
  ◌≡◌, ◌≢◌, sym, ap, ◌∙◌, subst, inl, inr, ◌⊎◌, String, Bool, true, false, Option, none, some, List,
  [], ◌∷◌, ◌++◌, Bool-cases, Option-cases, some_inj, if◌then◌else◌, ◌===◌, map_get, string_eq,
}
use pokapali.Wire.{Lib0}
use pokapali.Signaling.Protocol.{
  SignalMessage, join_room, leave_room, signal, peer_joined, peer_left, decode_signal,
}
use pokapali.Signaling.Registry.{
  PeerEntry, Members, Rooms, join, leave, leave_all, room_entries, members, find_peer,
}
use pokapali.Signaling.Registry.Laws.{
  Distinct, find_peer-join, find_peer-leave, find_peer-leave_all,
}
use pokapali.Signaling.Registry.Rooms.{join-Distinct, leave-Distinct, leave_all-Distinct}
use pokapali.Signaling.Relay.{
  Effect, sent, local_join, Relayed, tell, tell_self, forwarded, process_message, cleanup, Event,
  frame, ended, on_event, run,
}

-- An entry is found under the peer that it names.
abbrev pub Keyed : Rooms → Type 0
Keyed rooms = (r p : String) (e : PeerEntry) → find_peer r p rooms ≡ some e → e.peer_id ≡ p

-- The stream of each peer of a room was sent that every other peer of it had joined.
abbrev pub Introduced : Relayed → Type 0
Introduced (rooms, effects) =
    (r a b : String) (e f : PeerEntry)
    → a ≢ b
    → find_peer r a rooms ≡ some e
    → find_peer r b rooms ≡ some f
    → Mem (sent e.send (peer_joined r b)) effects

abbrev pub IsRelay : Relayed → Type 0
IsRelay (rooms, effects) = Distinct rooms × Keyed rooms × Introduced (rooms, effects)

room_entries-Mem :
    (p : String) (e : PeerEntry) (ms : Members) → map_get p ms ≡ some e → Mem e (room_entries ms)
unfolding map_get room_entries
room_entries-Mem p e [] h = let impossible = h in cc
room_entries-Mem p e ((q, f) ∷ ms) h = elim (Bool-cases (q === p)) [
  | inl g ↦ subst (λ x. Mem x (f ∷ room_entries ms)) (some_inj (rw g at h)) mem-cons_self
  | inr g ↦ mem-cons_of_mem f (room_entries-Mem p e ms (rw g at h))
]

members-Mem :
    (r p : String) (e : PeerEntry) (rooms : Rooms)
    → find_peer r p rooms ≡ some e
    → Mem e (members r rooms)
unfolding members find_peer
members-Mem r p e rooms h = elim (Option-cases (map_get r rooms)) [
  | inl g ↦ let impossible = rw (find_peer, g) at h in cc
  | inr (ms, g) ↦ rw (members, g) (room_entries-Mem p e ms (rw (find_peer, g) at h))
]

-- Rooms in which all who are found were found before, and as they were.
abbrev Fewer : Rooms → Rooms → Type 0
Fewer less rooms =
    (r p : String) (e : PeerEntry) → find_peer r p less ≡ some e → find_peer r p rooms ≡ some e

Fewer-IsRelay :
    (less rooms : Rooms) (effects more : List Effect)
    → Distinct less
    → Fewer less rooms
    → IsRelay (rooms, effects)
    → IsRelay (less, effects ++ more)
Fewer-IsRelay less rooms effects more d fewer h = (
  d,
  λ r p e g. h.1 r p e (fewer r p e g),
  λ r a b e f ne g k. mem-append_left more (h.2 r a b e f ne (fewer r a e g) (fewer r b f k)),
)

-- What an operation that takes entries away leaves.
Fewer-if :
    (b : Bool) (o : Option PeerEntry) (e : PeerEntry)
    → (if b then none else o) ≡ some e
    → o ≡ some e
Fewer-if true o e h = cc
Fewer-if false o e h = h

leave-IsRelay :
    (room q : String) (rooms : Rooms) (effects more : List Effect)
    → IsRelay (rooms, effects)
    → IsRelay (leave room q rooms, effects ++ more)
leave-IsRelay room q rooms effects more h =
    Fewer-IsRelay (leave room q rooms) rooms effects more (leave-Distinct room q rooms h.0)
      (λ r p e g. Fewer-if _ _ e (sym (find_peer-leave room q rooms r p) ∙ g)) h

cleanup-IsRelay :
    (fw : Bool) (sender : PeerEntry) (rooms : Rooms) (effects : List Effect)
    → IsRelay (rooms, effects)
    → IsRelay ((cleanup fw sender rooms).0, effects ++ (cleanup fw sender rooms).1)
unfolding cleanup
cleanup-IsRelay fw sender rooms effects h =
    let q = sender.peer_id in
    let s = some sender.send in
    Fewer-IsRelay (leave_all q s rooms).1 rooms effects (cleanup fw sender rooms).1
      (leave_all-Distinct q s rooms h.0)
      (λ r p e g. Fewer-if _ _ e (sym (find_peer-leave_all q s rooms r p h.0) ∙ g)) h

-- Whoever is found after a join joined, or was found before.
join-cases :
    (room : String) (sender : PeerEntry) (rooms : Rooms) (r p : String) (e : PeerEntry)
    → find_peer r p (join room sender rooms) ≡ some e
    → ((r ≡ room) × (p ≡ sender.peer_id) × (e ≡ sender)) ⊎ (find_peer r p rooms ≡ some e)
join-cases room sender rooms r p e h =
    let g = sym (find_peer-join room sender rooms r p) ∙ h in
    elim (Bool-cases (room === r)) [
      | inr k ↦ inr (rw k at g)
      | inl k ↦ elim (Bool-cases (sender.peer_id === p)) [
        | inr l ↦ inr (rw (k, l) at g)
        | inl l ↦ inl (
          sym ((string_eq.beq_iff room r).0 k),
          sym ((string_eq.beq_iff sender.peer_id p).0 l),
          sym (some_inj (rw (k, l) at g)),
        )
      ]
    ]

join-Keyed :
    (room : String) (sender : PeerEntry) (rooms : Rooms)
    → Keyed rooms
    → Keyed (join room sender rooms)
join-Keyed room sender rooms h r p e g = elim (join-cases room sender rooms r p e g) [
  | inl (same_room, same_peer, same) ↦ ap (λ x. x.peer_id) same ∙ sym same_peer
  | inr old ↦ h r p e old
]

-- The notices of a join, to a member that is there and to the peer that joins.
told :
    (room : String) (sender : PeerEntry) (rooms : Rooms) (r a : String) (e : PeerEntry)
    (rest : List Effect)
    → r ≡ room
    → find_peer r a rooms ≡ some e
    → Mem
        (sent e.send (peer_joined r sender.peer_id))
        (tell (peer_joined room sender.peer_id) (members room rooms) ++ rest)
unfolding tell
told room sender rooms r a e rest q h =
    let seen = subst (λ x. find_peer x a rooms ≡ some e) q h in
    subst
      (λ x.
        Mem (sent e.send (peer_joined x sender.peer_id))
          (tell (peer_joined room sender.peer_id) (members room rooms) ++ rest))
      (sym q)
      (mem-append_left rest (
        mem-map_of_mem (λ m. sent m.send (peer_joined room sender.peer_id))
          (members-Mem room a e rooms seen)))

told_self :
    (room : String) (sender : PeerEntry) (rooms : Rooms) (r b : String) (f : PeerEntry)
    (before rest : List Effect)
    → Keyed rooms
    → r ≡ room
    → find_peer r b rooms ≡ some f
    → Mem
        (sent sender.send (peer_joined r b))
        (before ++ (tell_self sender.send room (members room rooms) ++ rest))
unfolding tell_self
told_self room sender rooms r b f before rest key q h =
    let seen = subst (λ x. find_peer x b rooms ≡ some f) q h in
    let notices = before ++ (tell_self sender.send room (members room rooms) ++ rest) in
    subst (λ x. Mem (sent sender.send (peer_joined x b)) notices) (sym q)
      (subst (λ x. Mem (sent sender.send (peer_joined room x)) notices) (key r b f h)
        (mem-append_right before (
          mem-append_left rest (
            mem-map_of_mem (λ m. sent sender.send (peer_joined room m.peer_id))
              (members-Mem room b f rooms seen)))))

join-IsRelay :
    (fw : Bool) (room : String) (sender : PeerEntry) (rooms : Rooms) (effects : List Effect)
    → IsRelay (rooms, effects)
    → IsRelay (
      (process_message fw (join_room room) sender rooms).0,
      effects ++ (process_message fw (join_room room) sender rooms).1,
    )
unfolding process_message
join-IsRelay fw room sender rooms effects h =
    let p = sender.peer_id in
    let notices = (process_message fw (join_room room) sender rooms).1 in
    let to_self = tell_self sender.send room (members room rooms) in
    let last = forwarded fw (local_join room p) in
    (
      join-Distinct room sender rooms h.0,
      join-Keyed room sender rooms h.1,
      λ r a b e f ne g k. elim (join-cases room sender rooms r a e g) [
        | inl (qr, qa, qe) ↦ elim (join-cases room sender rooms r b f k) [
          | inl (qr', qb, qf) ↦ absurd (ne (qa ∙ sym qb))
          | inr old ↦
              subst (λ x. Mem (sent x.send (peer_joined r b)) (effects ++ notices)) (sym qe)
                (mem-append_right effects (
                  told_self room sender rooms r b f (tell (peer_joined room p) (members room rooms))
                    last h.1 qr old))
        ]
        | inr was ↦ elim (join-cases room sender rooms r b f k) [
          | inl (qr, qb, qf) ↦
              subst (λ x. Mem (sent e.send (peer_joined r x)) (effects ++ notices)) (sym qb)
                (mem-append_right effects (told room sender rooms r a e (to_self ++ last) qr was))
          | inr old ↦ mem-append_left notices (h.2 r a b e f ne was old)
        ]
      ],
    )

process_message-IsRelay :
    (fw : Bool) (msg : SignalMessage) (sender : PeerEntry) (rooms : Rooms) (effects : List Effect)
    → IsRelay (rooms, effects)
    → IsRelay (
      (process_message fw msg sender rooms).0,
      effects ++ (process_message fw msg sender rooms).1,
    )
unfolding process_message
process_message-IsRelay fw (join_room room) sender rooms effects h =
    join-IsRelay fw room sender rooms effects h
process_message-IsRelay fw (leave_room room) sender rooms effects h =
    leave-IsRelay room sender.peer_id rooms effects _ h
process_message-IsRelay fw (signal room target payload) sender rooms effects h =
    Fewer-IsRelay rooms rooms effects _ h.0 (λ r p e g. g) h
process_message-IsRelay fw (peer_joined room peer_id) sender rooms effects h =
    Fewer-IsRelay rooms rooms effects [] h.0 (λ r p e g. g) h
process_message-IsRelay fw (peer_left room peer_id) sender rooms effects h =
    Fewer-IsRelay rooms rooms effects [] h.0 (λ r p e g. g) h

nobody : (r p : String) (e : PeerEntry) → find_peer r p [] ≡ some e → ⊥
unfolding find_peer map_get
nobody r p e h = cc

-- What the relay does with any event keeps the registry sound, and the introductions made.
on_event-IsRelay :
    (w : Lib0) (fw : Bool) (event : Event) (rooms : Rooms) (effects : List Effect)
    → IsRelay (rooms, effects)
    → IsRelay ((on_event w fw event rooms).0, effects ++ (on_event w fw event rooms).1)
unfolding on_event
on_event-IsRelay w fw (ended sender) rooms effects h = cleanup-IsRelay fw sender rooms effects h
on_event-IsRelay w fw (frame sender bytes) rooms effects h =
    elim (Option-cases (decode_signal w bytes)) [
      | inl q ↦ rw (on_event, q) (cleanup-IsRelay fw sender rooms effects h)
      | inr (msg, q) ↦ rw (on_event, q) (process_message-IsRelay fw msg sender rooms effects h)
    ]

run-IsRelay :
    (w : Lib0) (fw : Bool) (events : List Event) (state : Relayed)
    → IsRelay state
    → IsRelay (run w fw state events)
unfolding run
run-IsRelay w fw [] (rooms, effects) h = h
run-IsRelay w fw (event ∷ events) (rooms, effects) h =
    run-IsRelay w fw events _ (on_event-IsRelay w fw event rooms effects h)

-- After any history of frames and ends of streams, from an empty registry: no room is there twice,
-- each entry is found under the peer that it names, and of any two different peers of a room the
-- stream of each was sent that the other had joined.
pub run-introduces :
    (w : Lib0) (forwarder : Bool) (events : List Event) → IsRelay (run w forwarder ([], []) events)
run-introduces w forwarder events =
    run-IsRelay w forwarder events ([], [])
      (tt, λ r p e h. absurd (nobody r p e h), λ r a b e f ne h. absurd (nobody r a e h))
