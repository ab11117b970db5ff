-- ===== src/Reducers/Chain/Statuses.antt =====
-- packages/core/src/reducers.ts: how `reduceChain` moves the status of one block.
use pokapali.Prelude.{
  ℕ, ◌≡◌, refl, sym, ◌∙◌, subst, String, Bool, true, false, Option, none, some, Map, map_get,
  set_has, string_eq, ◌===◌, Bool-cases, Option-cases, inl, inr, if◌then◌else◌, some_inj,
}
use pokapali.Facts.Types.{
  Cid, Bytes, CidSource, cid_source_eq, BlockStatus, ChainEntry, ChainState, Fact, Payload,
  cid_discovered, block_fetch_started, block_fetched, block_fetch_failed, tip_advanced,
  ack_received, guarantee_received, block_retry_reset,
}
use pokapali.Reducers.Chain.{
  or_else, is_failed, update_entry, with_newest_fetched, discover_known, changed, discover_new,
  discover, start_fetch, walk_to, store_block, fetch_block, reset_retry, advance_tip, acknowledge,
  chain_step, reduce_chain, status_with,
}
use pokapali.Reducers.Chain.Fitting.{update_entry-none, update_entry-some}
use pokapali.Reducers.Chain.Moves.{
  may_move, status_in, may_stay, from_failed, to_fetched, to_failed, to_applied, rediscovered,
  may_start, walked, Moves, status_in-some, status_in-none, status_in-map_set, set_moves,
  replace_moves,
}

record MovesTo (m : Map String ChainEntry) (k : String) (s : ChainState) : Type 0 where
  at : Moves m s.entries k

stays : (s : ChainState) (k : String) → MovesTo s.entries k s
stays s k = record { at = may_stay (status_in s.entries k) }

-- An update of one entry whose status moves as it may.
update_moves :
    (s : ChainState) (cid k : String) (f : ChainEntry → ChainEntry)
    → ((e : ChainEntry)
        → map_get cid s.entries ≡ some e
        → may_move (some e.block_status) (some (f e).block_status) ≡ true)
    → MovesTo s.entries k (update_entry s cid f)
update_moves s cid k f h = elim (Option-cases (map_get cid s.entries)) [
  | inl g ↦ rw (update_entry-none s cid f g) (stays s k)
  | inr (e, g) ↦ rw (update_entry-some s cid f e g) (record {
    at = set_moves s.entries cid k (f e) (rw (status_in-some s.entries cid e g) (h e g));
  })
]

module _ (m : Map String ChainEntry) (k : String) where
  if_moves :
      (b : Bool) {s t : ChainState}
      → (b ≡ true → MovesTo m k s)
      → (b ≡ false → MovesTo m k t)
      → MovesTo m k (if b then s else t)
  if_moves true h h' = h refl
  if_moves false h h' = h' refl

discovered :
    (block : Option Bytes) → may_move none (some (status_with block BlockStatus.unknown)) ≡ true
discovered none = refl
discovered (some b) = refl

module _ (s : ChainState) (k : String) where
  discover_known_moves :
      (cid : Cid) (source : CidSource) (block : Option Bytes) (seq snapshot_ts : Option ℕ)
      (e : ChainEntry)
      → map_get cid s.entries ≡ some e
      → MovesTo s.entries k (discover_known s cid source block seq snapshot_ts e)
  unfolding discover_known
  discover_known_moves cid source block seq snapshot_ts e g =
      if_moves s.entries k (is_failed e.block_status)
        (λ failed. record {
          at = replace_moves s.entries cid k e _ g (from_failed e.block_status failed);
        })
        (λ _.
          if_moves s.entries k (changed source block seq snapshot_ts e)
            (λ _. record {
              at = replace_moves s.entries cid k e _ g (rediscovered e.block_status block);
            })
            (λ _. stays s k))

  discover_moves :
      (cid : Cid) (source : CidSource) (block : Option Bytes) (seq snapshot_ts : Option ℕ)
      → MovesTo s.entries k (discover s cid source block seq snapshot_ts)
  unfolding discover discover_new with_newest_fetched
  discover_moves cid source block seq snapshot_ts = elim (Option-cases (map_get cid s.entries)) [
    | inl g ↦
        rw (g, discover)
          (record {
            at =
                set_moves s.entries cid k _
                  (rw (status_in-none s.entries cid g) (discovered block));
          })
    | inr (e, g) ↦ rw (g, discover) (discover_known_moves cid source block seq snapshot_ts e g)
  ]

  reset_retry_moves : (cid : Cid) → MovesTo s.entries k (reset_retry s cid)
  unfolding reset_retry
  reset_retry_moves cid = elim (Option-cases (map_get cid s.entries)) [
    | inl g ↦ rw (g, reset_retry) (stays s k)
    | inr (e, g) ↦
        rw (g, reset_retry)
          (if_moves s.entries k (is_failed e.block_status)
            (λ failed. update_moves s cid k _ (λ e' g'. from_failed e'.block_status (
              subst (λ (x : ChainEntry). is_failed x.block_status ≡ true) (some_inj (sym g ∙ g'))
                failed)))
            (λ _. stays s k))
  ]

  acknowledge_moves :
      (cid : Cid) (peer_id : String) → MovesTo s.entries k (acknowledge s cid peer_id)
  unfolding acknowledge
  acknowledge_moves cid peer_id = elim (Option-cases (map_get cid s.entries)) [
    | inl g ↦ rw (g, acknowledge) (stays s k)
    | inr (e, g) ↦
        rw (g, acknowledge)
          (if_moves s.entries k (set_has peer_id e.acked_by) (λ _. stays s k)
            (λ _. update_moves s cid k _ (λ e' g'. may_stay (some e'.block_status))))
  ]

  -- The walk adds an entry where there was none, and touches no other.
  walk_moves :
      (m : Map String ChainEntry) (prev : Option Cid) (parent_seq : Option ℕ)
      → MovesTo m k s
      → MovesTo m k (walk_to s prev parent_seq)
  unfolding walk_to
  walk_moves m none parent_seq h = h
  walk_moves m (some prev) parent_seq h = elim (Option-cases (map_get prev s.entries)) [
    | inl g ↦
        rw (g, walk_to)
          (elim (Bool-cases (prev === k)) [
            | inl q ↦
                let gone : status_in s.entries k ≡ none =
                  status_in-none s.entries k
                    (subst (λ x. map_get x s.entries ≡ none) ((string_eq.beq_iff prev k).0 q) g) in
                record {
                  at =
                      rw (status_in-map_set s.entries prev k _, q)
                        (walked (status_in m k) (rw gone at h.at));
                }
            | inr q ↦ record { at = rw (status_in-map_set s.entries prev k _, q) h.at }
          ])
    | inr (e, g) ↦ rw (g, walk_to) h
  ]

  walk_then_scan :
      (m : Map String ChainEntry) (prev : Option Cid) (parent_seq : Option ℕ)
      → MovesTo m k s
      → MovesTo m k (with_newest_fetched (walk_to s prev parent_seq))
  unfolding with_newest_fetched
  walk_then_scan m prev parent_seq h = record { at = (walk_moves m prev parent_seq h).at }

module _ (s : ChainState) (k : String) where
  fetch_block_moves :
      (cid : Cid) (prev : Option Cid) (seq snapshot_ts : Option ℕ)
      → MovesTo s.entries k (fetch_block s cid prev seq snapshot_ts)
  unfolding fetch_block with_newest_fetched
  fetch_block_moves cid prev seq snapshot_ts = elim (Option-cases (map_get cid s.entries)) [
    | inl g ↦ rw (g, fetch_block) (stays s k)
    | inr (e, g) ↦
        rw (g, fetch_block)
          (walk_then_scan (store_block s cid prev seq snapshot_ts e) k s.entries prev
            (or_else e.seq seq)
            (record {
              at =
                  unfold store_block in
                  set_moves s.entries cid k _
                    (rw (status_in-some s.entries cid e g) (to_fetched e.block_status));
            }))
  ]

  advance_tip_moves : (cid : Cid) (seq : ℕ) → MovesTo s.entries k (advance_tip s cid seq)
  unfolding advance_tip with_newest_fetched
  advance_tip_moves cid seq = record {
    at = (update_moves s cid k _ (λ e g. to_applied e.block_status)).at;
  }

  chain_step_moves : (ts : ℕ) (p : Payload) → MovesTo s.entries k (chain_step ts p s)
  unfolding chain_step with_newest_fetched
  chain_step_moves ts (cid_discovered cid source block seq snapshot_ts) =
      discover_moves s k cid source block seq snapshot_ts
  chain_step_moves ts (block_fetch_started cid) =
      update_moves s cid k (start_fetch ts) (λ e g. may_start ts e)
  chain_step_moves ts (block_fetched cid block prev seq snapshot_ts) =
      fetch_block_moves cid prev seq snapshot_ts
  chain_step_moves ts (block_fetch_failed cid attempt error) = record {
    at = (update_moves s cid k _ (λ e g. to_failed e.block_status)).at;
  }
  chain_step_moves ts (block_retry_reset cid) = reset_retry_moves s k cid
  chain_step_moves ts (tip_advanced cid seq) = advance_tip_moves cid seq
  chain_step_moves ts (ack_received cid peer_id) = acknowledge_moves s k cid peer_id
  chain_step_moves ts (guarantee_received peer_id cid guarantee_until retain_until) =
      update_moves s cid k _ (λ e g. may_stay (some e.block_status))
  chain_step_moves ts _ = stays s k

-- Whatever the fact, the status of every block moves as `may_move` allows: no entry goes away, a new
-- entry is `unknown` or `fetched`, an old one becomes `unknown` only from `failed`, and `fetching` is
-- entered only from `unknown` or `failed`.
pub reduce_chain_moves :
    (s : ChainState) (fact : Fact) (k : String)
    → may_move (status_in s.entries k) (status_in (reduce_chain s fact).entries k) ≡ true
unfolding reduce_chain
reduce_chain_moves s fact k = (chain_step_moves s k fact.ts fact.payload).at
