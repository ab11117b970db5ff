-- ===== src/Reducers/Chain/Reached.antt =====
-- packages/core/src/reducers.ts: the chain states that facts lead to.
use pokapali.Prelude.{List, AllEntries, string_eq, subst, sym}
use pokapali.Facts.Types.{Fact, initial_chain}
use pokapali.Reducers.Chain.Newest.{IsNewest, scan-IsNewest}
use pokapali.Reducers.Chain.Fitting.{Fits}
use pokapali.Reducers.Chain.Invariant.{after, after-IsChain, initial_chain-IsChain}

-- After any facts, from the initial state on: the pointer to the newest fetched block is missing only
-- if no entry is fetched, and else it is the CID of a fetched entry whose sequence number is the
-- largest of the fetched entries; every entry stands under its own CID, and no sequence number is
-- above `maxSeq`.
pub after-IsNewest :
    (facts : List Fact)
    → IsNewest (after initial_chain facts).newest_fetched (after initial_chain facts).entries
      × AllEntries (Fits (after initial_chain facts).max_seq) (after initial_chain facts).entries
after-IsNewest facts =
    let s = after initial_chain facts in
    let h = after-IsChain initial_chain facts initial_chain-IsChain in
    (subst (λ o. IsNewest o s.entries) (sym h.newest) (scan-IsNewest s.entries), h.entries_fit.all)
