-- ===== src/Facts/Views/Seen.antt =====
-- packages/core/src/facts.ts: what the loops of `deriveVersionHistory` have seen of a chain, by the CID.
use mathlib.Core.Bool.{false≢true}
use pokapali.Prelude.{
  ◌===◌, some_inj, ℕ, ◌≡◌, refl, sym, ap, ◌∙◌, String, Bool, Option, none, some, [], ◌∷◌, Map,
  map_get, map_set, map_get-map_set, string_eq, Bool-cases, Option-cases, inl, inr, subst,
  if◌then◌else◌,
}
use pokapali.Facts.Types.{Cid, ChainEntry}
use pokapali.Facts.Views.{
  VersionHistoryEntry, Seen, history_entry, chain_round, see_chain, local_round, see_local,
  map_values,
}
use pokapali.Facts.Views.Sorting.{Any}

abbrev pub Numbered : Type 0
Numbered = Option (ChainEntry × ℕ)

abbrev pub or_next : Numbered → Numbered → Numbered
or_next none other = other
or_next (some p) other = some p

-- The entry, if it has the CID and a number.
abbrev pub here : ChainEntry → Cid → Numbered
here e c = elim e.seq [ none ↦ none | some n ↦ if e.cid === c then some (e, n) else none ]

-- The last of the entries with the CID that have a number, and the first.
abbrev pub last_numbered : Map String ChainEntry → Cid → Numbered
last_numbered [] c = none
last_numbered ((k, e) ∷ m) c = or_next (last_numbered m c) (here e c)

abbrev pub first_numbered : Map String ChainEntry → Cid → Numbered
first_numbered [] c = none
first_numbered ((k, e) ∷ m) c = or_next (here e c) (first_numbered m c)

-- What the map holds for an entry that was found.
abbrev pub shown : Numbered → Option VersionHistoryEntry
shown none = none
shown (some (e, n)) = some (history_entry e n)

abbrev pub seen_first :
    Option VersionHistoryEntry → Option VersionHistoryEntry → Option VersionHistoryEntry
seen_first none other = other
seen_first (some v) other = some v

pub shown-or_next : (a b : Numbered) → shown (or_next a b) ≡ seen_first (shown a) (shown b)
shown-or_next none b = refl
shown-or_next (some (e, n)) b = refl

pub seen_first-none : (a : Option VersionHistoryEntry) → a ≡ seen_first a none
seen_first-none none = refl
seen_first-none (some v) = refl

seen_first_assoc :
    (a b c : Option VersionHistoryEntry)
    → seen_first a (seen_first b c) ≡ seen_first (seen_first a b) c
seen_first_assoc none b c = refl
seen_first_assoc (some v) b c = refl

chain_round-here :
    (acc : Seen × Bool) (e : ChainEntry) (c : Cid)
    → map_get c (chain_round acc e).0 ≡ seen_first (shown (here e c)) (map_get c acc.0)
unfolding chain_round
chain_round-here (seen, walking) e c = elim (Option-cases e.seq) [
  | inl q ↦ rw (q, chain_round)
  | inr (n, q) ↦
      rw (q, chain_round)
        (map_get-map_set e.cid c (history_entry e n) seen
          ∙ elim (Bool-cases (e.cid === c)) [ inl r ↦ rw r | inr r ↦ rw r ])
]

pub see_chain-last :
    (acc : Seen × Bool) (m : Map String ChainEntry) (c : Cid)
    → map_get c (see_chain acc m).0 ≡ seen_first (shown (last_numbered m c)) (map_get c acc.0)
unfolding see_chain
see_chain-last acc [] c = refl
see_chain-last acc ((k, e) ∷ m) c =
    see_chain-last (chain_round acc e) m c
    ∙ ap (seen_first (shown (last_numbered m c))) (chain_round-here acc e c)
    ∙ seen_first_assoc (shown (last_numbered m c)) (shown (here e c)) (map_get c acc.0)
    ∙ ap (λ x. seen_first x (map_get c acc.0)) (sym (shown-or_next (last_numbered m c) (here e c)))

local_round-here :
    (acc : Seen × Bool) (e : ChainEntry) (c : Cid)
    → map_get c (local_round acc e).0 ≡ seen_first (map_get c acc.0) (shown (here e c))
unfolding local_round
local_round-here (seen, walking) e c = elim (Option-cases e.seq) [
  | inl q ↦ rw (q, local_round) (seen_first-none (map_get c seen))
  | inr (n, q) ↦ elim (Option-cases (map_get e.cid seen)) [
    | inr (old, g) ↦ elim (Bool-cases (e.cid === c)) [
      | inl r ↦
          let at_c : map_get c seen ≡ some old =
            subst (λ x. map_get x seen ≡ some old) ((string_eq.beq_iff e.cid c).0 r) g in
          rw (q, local_round, g, at_c)
      | inr r ↦ rw (q, local_round, g, r) (seen_first-none (map_get c seen))
    ]
    | inl g ↦ elim (Bool-cases (e.cid === c)) [
      | inl r ↦
          let at_c : map_get c seen ≡ none =
            subst (λ x. map_get x seen ≡ none) ((string_eq.beq_iff e.cid c).0 r) g in
          rw (q, local_round, g)
            (map_get-map_set e.cid c (history_entry e n) seen ∙ rw (r, at_c) refl)
      | inr r ↦
          rw (q, local_round, g)
            (map_get-map_set e.cid c (history_entry e n) seen
              ∙ rw r (seen_first-none (map_get c seen)))
    ]
  ]
]

pub see_local-first :
    (acc : Seen × Bool) (m : Map String ChainEntry) (c : Cid)
    → map_get c (see_local acc m).0 ≡ seen_first (map_get c acc.0) (shown (first_numbered m c))
unfolding see_local
see_local-first acc [] c = seen_first-none (map_get c acc.0)
see_local-first acc ((k, e) ∷ m) c =
    see_local-first (local_round acc e) m c
    ∙ ap (λ x. seen_first x (shown (first_numbered m c))) (local_round-here acc e c)
    ∙ sym (seen_first_assoc (map_get c acc.0) (shown (here e c)) (shown (first_numbered m c)))
    ∙ ap (seen_first (map_get c acc.0)) (sym (shown-or_next (here e c) (first_numbered m c)))

-- Every item stands under its own CID, and every CID once.
abbrev pub WellKeyed : Seen → Type 0
WellKeyed [] = Unit
WellKeyed ((k, v) ∷ m) = (v.cid ≡ k) × (map_get k m ≡ none) × WellKeyed m

map_set-WellKeyed :
    (c : Cid) (v : VersionHistoryEntry) (m : Seen)
    → v.cid ≡ c
    → WellKeyed m
    → WellKeyed (map_set c v m)
unfolding map_set map_get
map_set-WellKeyed c v [] e h = (e, refl, tt)
map_set-WellKeyed c v ((k, w) ∷ m) e h = elim (Bool-cases (k === c)) [
  | inl q ↦ rw q (e ∙ sym ((string_eq.beq_iff k c).0 q), h.1, h.2)
  | inr q ↦ rw q (
    h.0,
    map_get-map_set c k v m ∙ elim (Bool-cases (c === k)) [
      | inl r ↦
          absurd
            (false≢true (sym q ∙ (string_eq.beq_iff k c).1 (sym ((string_eq.beq_iff c k).0 r))))
      | inr r ↦ rw r h.1
    ],
    map_set-WellKeyed c v m e h.2,
  )
]

chain_round-WellKeyed :
    (acc : Seen × Bool) (e : ChainEntry) → WellKeyed acc.0 → WellKeyed (chain_round acc e).0
unfolding chain_round
chain_round-WellKeyed (seen, walking) e h = elim (Option-cases e.seq) [
  | inl q ↦ rw (q, chain_round) h
  | inr (n, q) ↦ rw (q, chain_round) (map_set-WellKeyed e.cid (history_entry e n) seen refl h)
]

pub see_chain-WellKeyed :
    (acc : Seen × Bool) (m : Map String ChainEntry)
    → WellKeyed acc.0
    → WellKeyed (see_chain acc m).0
unfolding see_chain
see_chain-WellKeyed acc [] h = h
see_chain-WellKeyed acc ((k, e) ∷ m) h =
    see_chain-WellKeyed (chain_round acc e) m (chain_round-WellKeyed acc e h)

local_round-WellKeyed :
    (acc : Seen × Bool) (e : ChainEntry) → WellKeyed acc.0 → WellKeyed (local_round acc e).0
unfolding local_round
local_round-WellKeyed (seen, walking) e h = elim (Option-cases e.seq) [
  | inl q ↦ rw (q, local_round) h
  | inr (n, q) ↦ elim (Option-cases (map_get e.cid seen)) [
    | inr (old, g) ↦ rw (q, local_round, g) h
    | inl g ↦ rw (q, local_round, g) (map_set-WellKeyed e.cid (history_entry e n) seen refl h)
  ]
]

pub see_local-WellKeyed :
    (acc : Seen × Bool) (m : Map String ChainEntry)
    → WellKeyed acc.0
    → WellKeyed (see_local acc m).0
unfolding see_local
see_local-WellKeyed acc [] h = h
see_local-WellKeyed acc ((k, e) ∷ m) h =
    see_local-WellKeyed (local_round acc e) m (local_round-WellKeyed acc e h)

pub get-Any :
    (k : Cid) (v : VersionHistoryEntry) (m : Seen)
    → map_get k m ≡ some v
    → Any (λ x. x ≡ v) (map_values m)
unfolding map_values map_get
get-Any k v [] h = cc
get-Any k v ((j, w) ∷ m) h = elim (Bool-cases (j === k)) [
  | inl q ↦ inl (some_inj (rw q at h))
  | inr q ↦ inr (get-Any k v m (rw q at h))
]

pub Any-get :
    (v : VersionHistoryEntry) (m : Seen)
    → WellKeyed m
    → Any (λ x. x ≡ v) (map_values m)
    → map_get v.cid m ≡ some v
unfolding map_values map_get
Any-get v [] h g = absurd g
Any-get v ((k, w) ∷ m) h (inl e) =
    let same : k ≡ v.cid = sym h.0 ∙ ap (λ (x : VersionHistoryEntry). x.cid) e in
    rw ((string_eq.beq_iff k v.cid).1 same) (ap some e)
Any-get v ((k, w) ∷ m) h (inr g) =
    let later = Any-get v m h.2 g in
    elim (Bool-cases (k === v.cid)) [
      | inr q ↦ rw q later
      | inl q ↦
          let absent : map_get v.cid m ≡ none =
            subst (λ x. map_get x m ≡ none) ((string_eq.beq_iff k v.cid).0 q) h.1 in
          cc
    ]

abbrev pub HasCid : Cid → Numbered → Type 0
HasCid c none = Unit
HasCid c (some (e, n)) = e.cid ≡ c

here-HasCid : (e : ChainEntry) (c : Cid) → HasCid c (here e c)
here-HasCid e c = by_number e.seq
  where
    by_number :
        (o : Option ℕ)
        → HasCid c (elim o [ none ↦ none | some n ↦ if e.cid === c then some (e, n) else none ])
    by_number none = tt
    by_number (some n) = elim (Bool-cases (e.cid === c)) [
      | inl q ↦ rw q ((string_eq.beq_iff e.cid c).0 q)
      | inr q ↦ rw q tt
    ]

pub or_next-HasCid : (c : Cid) (a b : Numbered) → HasCid c a → HasCid c b → HasCid c (or_next a b)
or_next-HasCid c none b h k = k
or_next-HasCid c (some (e, n)) b h k = h

pub last_numbered-HasCid : (m : Map String ChainEntry) (c : Cid) → HasCid c (last_numbered m c)
last_numbered-HasCid [] c = tt
last_numbered-HasCid ((k, e) ∷ m) c =
    or_next-HasCid c (last_numbered m c) (here e c) (last_numbered-HasCid m c) (here-HasCid e c)

pub first_numbered-HasCid : (m : Map String ChainEntry) (c : Cid) → HasCid c (first_numbered m c)
first_numbered-HasCid [] c = tt
first_numbered-HasCid ((k, e) ∷ m) c =
    or_next-HasCid c (here e c) (first_numbered m c) (here-HasCid e c) (first_numbered-HasCid m c)
