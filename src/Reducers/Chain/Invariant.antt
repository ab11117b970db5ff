-- ===== src/Reducers/Chain/Invariant.antt =====
-- packages/core/src/reducers.ts: `reduceChain` and the invariant of the chain state.
use pokapali.Prelude.{
  ℕ, ◌≡◌, refl, sym, ap, ◌∙◌, subst, String, true, Option, none, some, List, [], ◌∷◌, map_get,
  set_has, string_eq, AllEntries-map_get, Bool-cases, Option-cases, inl, inr, arith, max, some_inj,
}
use pokapali.Facts.Types.{
  Cid, Bytes, CidSource, cid_source_eq, ChainEntry, ChainState, Fact, Payload, cid_discovered,
  block_fetch_started, block_fetched, block_fetch_failed, tip_advanced, ack_received,
  guarantee_received, block_retry_reset, initial_chain,
}
use pokapali.Reducers.Chain.{
  or_zero, or_else, max_with, is_failed, newest_from, cid_of, update_entry, discover_known, changed,
  discover_new, discover, start_fetch, inferred_seq, walk_to, store_block, fetch_block, reset_retry,
  advance_tip, acknowledge, chain_step, reduce_chain,
}
use pokapali.Reducers.Chain.Newest.{SameScan, newest_from-map_set}
use pokapali.Reducers.Chain.Fitting.{
  Fits, EntriesFit, IsChain, Fits-mono, le_max_with, or_zero-le, if_keeps,
  with_newest_fetched-IsChain, rescanned, set-Fits, failed_not_fetched, start_fetch-SameScan,
  update_entry-none, update_entry-some,
}

module _ (s : ChainState) (h : IsChain s) where
  entry-Fits : (cid : Cid) (e : ChainEntry) → map_get cid s.entries ≡ some e → Fits s.max_seq cid e
  entry-Fits cid e g = AllEntries-map_get (Fits s.max_seq) cid e s.entries h.entries_fit.all g

  -- An update that the scan does not see.
  update_entry-IsChain :
      (cid : Cid) (f : ChainEntry → ChainEntry)
      → ((e : ChainEntry) → map_get cid s.entries ≡ some e → SameScan e (f e))
      → IsChain (update_entry s cid f)
  unfolding update_entry
  update_entry-IsChain cid f same = elim (Option-cases (map_get cid s.entries)) [
    | inl g ↦ rw (update_entry-none s cid f g) h
    | inr (e, g) ↦
        let q = same e g in
        rw (update_entry-some s cid f e g) (record {
          entries_fit = record {
            all =
                set-Fits s.max_seq s.max_seq cid (f e) s.entries (omega arith) h.entries_fit.all
                  (q.cid ∙ (entry-Fits cid e g).0, rw q.seq (entry-Fits cid e g).1);
          };
          newest = h.newest ∙ ap cid_of (sym (newest_from-map_set none cid e (f e) s.entries g q));
        })
  ]

  -- An update that keeps the CID and the sequence number of the entry.
  update_entry-fits :
      (cid : Cid) (f : ChainEntry → ChainEntry)
      → ((e : ChainEntry) → (f e).cid ≡ e.cid)
      → ((e : ChainEntry) → (f e).seq ≡ e.seq)
      → EntriesFit (update_entry s cid f)
  unfolding update_entry
  update_entry-fits cid f same_cid same_seq = elim (Option-cases (map_get cid s.entries)) [
    | inl g ↦ rw (update_entry-none s cid f g) h.entries_fit
    | inr (e, g) ↦ rw (update_entry-some s cid f e g) (record {
      all =
          set-Fits s.max_seq s.max_seq cid (f e) s.entries (omega arith) h.entries_fit.all
            (same_cid e ∙ (entry-Fits cid e g).0, rw (same_seq e) (entry-Fits cid e g).1);
    })
  ]

  discover_known-IsChain :
      (cid : Cid) (source : CidSource) (block : Option Bytes) (seq snapshot_ts : Option ℕ)
      (e : ChainEntry)
      → map_get cid s.entries ≡ some e
      → IsChain (discover_known s cid source block seq snapshot_ts e)
  unfolding discover_known
  discover_known-IsChain cid source block seq snapshot_ts e g =
      let ok = entry-Fits cid e g in
      if_keeps (is_failed e.block_status)
        (rescanned
          (set-Fits s.max_seq s.max_seq cid _ s.entries (omega arith) h.entries_fit.all ok))
        (if_keeps (changed source block seq snapshot_ts e)
          (rescanned (
            set-Fits s.max_seq (max_with s.max_seq (or_else e.seq seq)) cid _ s.entries
              (le_max_with s.max_seq (or_else e.seq seq)) h.entries_fit.all
              (ok.0, or_zero-le s.max_seq (or_else e.seq seq))))
          h)

  discover-IsChain :
      (cid : Cid) (source : CidSource) (block : Option Bytes) (seq snapshot_ts : Option ℕ)
      → IsChain (discover s cid source block seq snapshot_ts)
  unfolding discover discover_new
  discover-IsChain cid source block seq snapshot_ts = elim (Option-cases (map_get cid s.entries)) [
    | inl g ↦
        rw (g, discover)
          (rescanned (
            set-Fits s.max_seq (max_with s.max_seq seq) cid _ s.entries (le_max_with s.max_seq seq)
              h.entries_fit.all (refl, or_zero-le s.max_seq seq)))
    | inr (e, g) ↦ rw (g, discover) (discover_known-IsChain cid source block seq snapshot_ts e g)
  ]

  store_block-fits :
      (cid : Cid) (prev : Option Cid) (seq snapshot_ts : Option ℕ) (e : ChainEntry)
      → map_get cid s.entries ≡ some e
      → EntriesFit (store_block s cid prev seq snapshot_ts e)
  unfolding store_block
  store_block-fits cid prev seq snapshot_ts e g = record {
    all =
        set-Fits s.max_seq (max_with s.max_seq (or_else e.seq seq)) cid _ s.entries
          (le_max_with s.max_seq (or_else e.seq seq)) h.entries_fit.all
          ((entry-Fits cid e g).0, or_zero-le s.max_seq (or_else e.seq seq));
  }

walk_to-fits :
    (s : ChainState) (prev : Option Cid) (parent_seq : Option ℕ)
    → EntriesFit s
    → EntriesFit (walk_to s prev parent_seq)
unfolding walk_to
walk_to-fits s none parent_seq h = h
walk_to-fits s (some prev) parent_seq h = elim (Option-cases (map_get prev s.entries)) [
  | inl g ↦
      rw (g, walk_to)
        (record {
          all =
              set-Fits s.max_seq (max_with s.max_seq (inferred_seq parent_seq)) prev _ s.entries
                (le_max_with s.max_seq (inferred_seq parent_seq)) h.all
                (refl, or_zero-le s.max_seq (inferred_seq parent_seq));
        })
  | inr (e, g) ↦ rw (g, walk_to) h
]

module _ (s : ChainState) (h : IsChain s) where
  fetch_block-IsChain :
      (cid : Cid) (prev : Option Cid) (seq snapshot_ts : Option ℕ)
      → IsChain (fetch_block s cid prev seq snapshot_ts)
  unfolding fetch_block
  fetch_block-IsChain cid prev seq snapshot_ts = elim (Option-cases (map_get cid s.entries)) [
    | inl g ↦ rw (g, fetch_block) h
    | inr (e, g) ↦
        rw (g, fetch_block)
          (with_newest_fetched-IsChain
            (walk_to (store_block s cid prev seq snapshot_ts e) prev (or_else e.seq seq))
            (walk_to-fits (store_block s cid prev seq snapshot_ts e) prev (or_else e.seq seq)
              (store_block-fits s h cid prev seq snapshot_ts e g)))
  ]

  reset_retry-IsChain : (cid : Cid) → IsChain (reset_retry s cid)
  unfolding reset_retry
  reset_retry-IsChain cid = elim (Option-cases (map_get cid s.entries)) [
    | inl g ↦ rw (g, reset_retry) h
    | inr (e, g) ↦ elim (Bool-cases (is_failed e.block_status)) [
      | inl failed ↦
          rw (g, reset_retry, failed)
            (update_entry-IsChain s h cid _ (λ e' g'. record {
              cid = refl;
              seq = refl;
              fetched = sym (
                  failed_not_fetched e'.block_status (
                    subst (λ (x : ChainEntry). is_failed x.block_status ≡ true)
                      (some_inj (sym g ∙ g')) failed));
            }))
      | inr other ↦ rw (g, reset_retry, other) h
    ]
  ]

  acknowledge-IsChain : (cid : Cid) (peer_id : String) → IsChain (acknowledge s cid peer_id)
  unfolding acknowledge
  acknowledge-IsChain cid peer_id = elim (Option-cases (map_get cid s.entries)) [
    | inl g ↦ rw (g, acknowledge) h
    | inr (e, g) ↦
        rw (g, acknowledge)
          (if_keeps (set_has peer_id e.acked_by) h (
            update_entry-IsChain s h cid _
              (λ e' g'. record { cid = refl; seq = refl; fetched = refl })))
  ]

  advance_tip-IsChain : (cid : Cid) (seq : ℕ) → IsChain (advance_tip s cid seq)
  unfolding advance_tip update_entry
  advance_tip-IsChain cid seq = elim (Option-cases (map_get cid s.entries)) [
    | inl g ↦
        rw (g, advance_tip, update_entry)
          (rescanned
            (Fits-mono s.max_seq (max s.max_seq seq) s.entries (omega arith) h.entries_fit.all))
    | inr (e, g) ↦
        rw (g, advance_tip, update_entry)
          (rescanned (
            set-Fits s.max_seq (max s.max_seq (or_zero (or_else e.seq (some seq)))) cid _ s.entries
              (omega arith) h.entries_fit.all ((entry-Fits s h cid e g).0, omega arith)))
  ]

  chain_step-IsChain : (ts : ℕ) (p : Payload) → IsChain (chain_step ts p s)
  unfolding chain_step
  chain_step-IsChain ts (cid_discovered cid source block seq snapshot_ts) =
      discover-IsChain s h cid source block seq snapshot_ts
  chain_step-IsChain ts (block_fetch_started cid) =
      update_entry-IsChain s h cid (start_fetch ts) (λ e g. start_fetch-SameScan ts e)
  chain_step-IsChain ts (block_fetched cid block prev seq snapshot_ts) =
      fetch_block-IsChain cid prev seq snapshot_ts
  chain_step-IsChain ts (block_fetch_failed cid attempt error) =
      with_newest_fetched-IsChain _ (update_entry-fits s h cid _ (λ e. refl) (λ e. refl))
  chain_step-IsChain ts (block_retry_reset cid) = reset_retry-IsChain cid
  chain_step-IsChain ts (tip_advanced cid seq) = advance_tip-IsChain cid seq
  chain_step-IsChain ts (ack_received cid peer_id) = acknowledge-IsChain cid peer_id
  chain_step-IsChain ts (guarantee_received peer_id cid guarantee_until retain_until) =
      update_entry-IsChain s h cid _ (λ e g. record { cid = refl; seq = refl; fetched = refl })
  chain_step-IsChain ts _ = h

-- Every fact keeps the invariant of the chain: every entry stands under its own CID, no sequence number
-- is above `maxSeq`, and the pointer to the newest fetched block is the one that a scan finds.
pub reduce_chain-IsChain :
    (s : ChainState) (fact : Fact) → IsChain s → IsChain (reduce_chain s fact)
unfolding reduce_chain
reduce_chain-IsChain s fact h = chain_step-IsChain s h fact.ts fact.payload

-- The chain state after a list of facts.
abbrev pub after : ChainState → List Fact → ChainState
after s [] = s
after s (f ∷ fs) = after (reduce_chain s f) fs

pub after-IsChain : (s : ChainState) (facts : List Fact) → IsChain s → IsChain (after s facts)
after-IsChain s [] h = h
after-IsChain s (f ∷ fs) h = after-IsChain (reduce_chain s f) fs (reduce_chain-IsChain s f h)

pub initial_chain-IsChain : IsChain initial_chain
unfolding newest_from
initial_chain-IsChain = record { entries_fit = record { all = tt }; newest = refl }
