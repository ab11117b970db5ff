-- ===== src/Reducers/Chain/Moves.antt =====
-- packages/core/src/reducers.ts: the moves of a block's status, and their effect on the entries of a map.
use pokapali.Prelude.{
  ℕ, ◌≡◌, refl, subst, String, Bool, true, false, Option, none, some, Map, map_get, map_set,
  map_get-map_set, string_eq, ◌===◌, Bool-cases, inl, inr, if◌then◌else◌, arith,
}
use pokapali.Facts.Types.{Bytes, cid_source_eq, BlockStatus, ChainEntry}
use pokapali.Reducers.Chain.{is_failed, start_fetch, status_with}

-- The moves of a block's status, `none` standing for a block that has no entry: an entry never goes
-- away; a new one is `unknown` or `fetched`; `unknown` is entered only from `failed`; a fetch starts only
-- where no block is there; and a block may be stored, fail or be applied at any time.
abbrev pub may_move : Option BlockStatus → Option BlockStatus → Bool
may_move none none = true
may_move none (some BlockStatus.unknown) = true
may_move none (some BlockStatus.fetched) = true
may_move none _ = false
may_move (some a) none = false
may_move (some a) (some BlockStatus.fetched) = true
may_move (some a) (some BlockStatus.failed) = true
may_move (some a) (some BlockStatus.applied) = true
may_move (some BlockStatus.unknown) (some b) = true
may_move (some BlockStatus.failed) (some b) = true
may_move (some BlockStatus.fetching) (some BlockStatus.fetching) = true
may_move (some a) (some b) = false

unfoldable pub status_in : Map String ChainEntry → String → Option BlockStatus
status_in m k = elim (map_get k m) [ none ↦ none | some e ↦ some e.block_status ]

pub may_stay : (o : Option BlockStatus) → may_move o o ≡ true
may_stay none = refl
may_stay (some BlockStatus.unknown) = refl
may_stay (some _) = refl

pub from_failed :
    (b : BlockStatus) → is_failed b ≡ true → may_move (some b) (some BlockStatus.unknown) ≡ true
from_failed BlockStatus.failed h = refl
from_failed BlockStatus.unknown h = refl
from_failed _ h = cc

pub to_fetched : (b : BlockStatus) → may_move (some b) (some BlockStatus.fetched) ≡ true
to_fetched BlockStatus.unknown = refl
to_fetched _ = refl

pub to_failed : (b : BlockStatus) → may_move (some b) (some BlockStatus.failed) ≡ true
to_failed BlockStatus.unknown = refl
to_failed _ = refl

pub to_applied : (b : BlockStatus) → may_move (some b) (some BlockStatus.applied) ≡ true
to_applied BlockStatus.unknown = refl
to_applied _ = refl

pub rediscovered :
    (b : BlockStatus) (block : Option Bytes) → may_move (some b) (some (status_with block b)) ≡ true
rediscovered b none = may_stay (some b)
rediscovered b (some bytes) = to_fetched b

pub may_start :
    (ts : ℕ) (e : ChainEntry)
    → may_move (some e.block_status) (some (start_fetch ts e).block_status) ≡ true
unfolding start_fetch
may_start ts e = ground arith

pub walked :
    (o : Option BlockStatus) → may_move o none ≡ true → may_move o (some BlockStatus.unknown) ≡ true
walked none h = refl
walked (some b) h = cc

abbrev pub Moves : Map String ChainEntry → Map String ChainEntry → String → Type 0
Moves m m' k = may_move (status_in m k) (status_in m' k) ≡ true

pub status_in-some :
    (m : Map String ChainEntry) (k : String) (e : ChainEntry)
    → map_get k m ≡ some e
    → status_in m k ≡ some e.block_status
unfolding status_in
status_in-some m k e g = rw (g, status_in)

pub status_in-none :
    (m : Map String ChainEntry) (k : String) → map_get k m ≡ none → status_in m k ≡ none
unfolding status_in
status_in-none m k g = rw (g, status_in)

pub status_in-map_set :
    (m : Map String ChainEntry) (cid k : String) (e : ChainEntry)
    → status_in (map_set cid e m) k ≡ (if cid === k then some e.block_status else status_in m k)
unfolding status_in
status_in-map_set m cid k e = elim (Bool-cases (cid === k)) [
  | inl q ↦ rw (map_get-map_set cid k e m, q, status_in)
  | inr q ↦ rw (map_get-map_set cid k e m, q, status_in)
]

pub set_moves :
    (m : Map String ChainEntry) (cid k : String) (e : ChainEntry)
    → may_move (status_in m cid) (some e.block_status) ≡ true
    → Moves m (map_set cid e m) k
set_moves m cid k e h = elim (Bool-cases (cid === k)) [
  | inl q ↦
      rw (status_in-map_set m cid k e, q)
        (subst (λ x. may_move (status_in m x) (some e.block_status) ≡ true)
          ((string_eq.beq_iff cid k).0 q) h)
  | inr q ↦ rw (status_in-map_set m cid k e, q) (may_stay (status_in m k))
]

pub replace_moves :
    (m : Map String ChainEntry) (cid k : String) (old e : ChainEntry)
    → map_get cid m ≡ some old
    → may_move (some old.block_status) (some e.block_status) ≡ true
    → Moves m (map_set cid e m) k
replace_moves m cid k old e g h = set_moves m cid k e (rw (status_in-some m cid old g) h)
