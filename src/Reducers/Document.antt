-- ===== src/Reducers/Document.antt =====
-- packages/core/src/reducers.ts: `reduce`, the reducer of a document's state.
pub mod Consistency
use pokapali.Prelude.{Option, ℕ, ◌≡◌, String, Bool, true, ◌&&◌, List, [], ◌∷◌, Map, if◌then◌else◌}
use pokapali.Facts.Types.{
  Identity, initial_connectivity, initial_doc_state, ChainState, Connectivity, ContentState,
  AnnounceState, EpochState, SnapshotHistory, IpnsResolutionStatus, DocState, Fact,
}
use pokapali.Status.{derive_status}
use pokapali.Reducers.Chain.{reduce_chain}
use pokapali.Reducers.Slices.{
  reduce_connectivity, reduce_content, reduce_announce, reduce_pending_queries, reduce_ipns_status,
  derive_save_state,
}
use pokapali.Reducers.Epochs.{reduce_epochs, reduce_snapshot_history}

-- `===` on two objects: it may tell equal objects apart, and never takes different ones for the same.
pub record SameObject : Type 1 where
  pub same : (A : Type 0) → A → A → Bool
  pub same_eq : (A : Type 0) (a b : A) → same A a b ≡ true → a ≡ b

-- The state from the slices that the reducers return
abbrev pub with_slices : ℕ → DocState → Fact → DocState
with_slices now s fact =
    let chain = reduce_chain s.chain fact in
    let connectivity = reduce_connectivity s.connectivity fact in
    let content = reduce_content s.content fact in
    record s {
      chain = chain;
      connectivity = connectivity;
      content = content;
      announce = reduce_announce s.announce fact;
      epochs = reduce_epochs s.epochs fact;
      pending_queries = reduce_pending_queries s.pending_queries fact;
      ipns_status = reduce_ipns_status s.ipns_status fact;
      snapshot_history = reduce_snapshot_history s.snapshot_history fact;
      status = derive_status now connectivity;
      save_state = derive_save_state content chain;
    }

module _ (js : SameObject) where
  -- The test of the early return
  unfoldable pub unchanged : DocState → Fact → Bool
  unchanged s fact =
      js.same ChainState (reduce_chain s.chain fact) s.chain
      && (js.same Connectivity (reduce_connectivity s.connectivity fact) s.connectivity
          && (js.same ContentState (reduce_content s.content fact) s.content
              && (js.same AnnounceState (reduce_announce s.announce fact) s.announce
                  && (js.same EpochState (reduce_epochs s.epochs fact) s.epochs
                      && (js.same SnapshotHistory (reduce_snapshot_history s.snapshot_history fact)
                            s.snapshot_history
                          && (js.same (Map String ℕ) (reduce_pending_queries s.pending_queries fact)
                                s.pending_queries
                              && js.same IpnsResolutionStatus
                                  (reduce_ipns_status s.ipns_status fact) s.ipns_status))))))

  -- `now` is the clock that `deriveStatus` reads.
  unfoldable pub reduce : ℕ → DocState → Fact → DocState
  unfolding unchanged
  reduce now s fact = if unchanged s fact then s else with_slices now s fact

-- packages/core/src/doc-runtime.ts: the state with which the interpreter of a document starts. `now` is
-- the clock, and `created` the time at which the document was made.
abbrev pub runtime_doc_state : ℕ → Option ℕ → Identity → DocState
runtime_doc_state now created identity =
    let connectivity = record initial_connectivity { created_at = created } in
    record (initial_doc_state identity) {
      connectivity = connectivity;
      status = derive_status now connectivity;
    }
