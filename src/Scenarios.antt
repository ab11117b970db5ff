-- ===== src/Scenarios.antt =====
-- Concrete trees, facts and document states, and what the theorems say of them.
mod Syncing
mod Relaying
use pokapali.Limiters.{
  try_admit, hour_ms, ip_window_ms, recent, default_rate_limits, allowed, new_limiter, check_rate,
  check_ip, record_ip,
}
use pokapali.Limiters.Names.{admit_all, last_of, admit_all-recent}
use pokapali.Limiters.Rates.{
  Tracks, Call, records, checks, times_of, run_calls, log_calls, check_rate-allowed,
  check_ip-Tracks,
}
use mathlib.Core.List.{Perm}
use pokapali.Prelude.{
  length, ◌<◌, ℕ, zero, ◌+◌, ◌≤◌, ◌≡◌, ◌≢◌, ◌↔◌, ◌⊎◌, refl, String, true, false, none, some, List,
  [], ◌∷◌, ◌++◌, AllEntries, map_get, set_has, string_eq, arith, ltb, if◌then◌else◌,
}
use pokapali.FingerTree.Types.{IsMonoid, Measured, FingerTree, empty}
use pokapali.FingerTree.Tree.{cons, snoc, measure_tree, viewl, viewr}
use pokapali.FingerTree.Fold.{to_array, iterate, from_array}
use pokapali.FingerTree.Concat.{concat}
use pokapali.FingerTree.Split.{Split, undefined, found, split, take_until, drop_until}
use pokapali.FingerTree.Contents.{to_array-eq-iterate}
use pokapali.FingerTree.Joins.{from_array-TreeValid}
use pokapali.FingerTree.Measures.{total, TreeValid}
use pokapali.FingerTree.Results.{
  TurnsTrue, to_array-cons-snoc, to_array-from_array, concat_total, FirstOf, LastOf, views_contents,
  by_empty, by_snoc, by_cons, split_cases, take_drop_until, measure_tree-to_array,
}
use pokapali.Facts.Types.{
  CidSource, ChainState, GossipActivity, SaveState, DocRole, DocState, Identity, LoadingState, Fact,
  Payload, cid_discovered, block_fetch_started, block_fetched, block_fetch_failed, tip_advanced,
  guarantee_received, gossip_message, gossip_subscribed, relay_connected, relay_disconnected,
  epoch_closed, convergence_detected, content_dirty, publish_failed, initial_gossip,
  initial_connectivity, initial_content, initial_chain, initial_epochs, initial_doc_state,
}
use pokapali.Facts.Views
use pokapali.Facts.Views.Sorting.{Any, Descending}
use pokapali.Facts.Views.Versions.{Summarises, numbered, version_history_lem}
use pokapali.Facts.Views.Derived.{OncePerCid, Shows, chosen, derive_version_history_lem}
use pokapali.Reducers.Chain.Newest.{SomeEntry}
use pokapali.Prelude.{◌↔◌}
use pokapali.Facts.Views.Guarantees.{any_entry_active, best_guarantee-is_guarantee_active}
use pokapali.Status.{
  derive_status, compute_save_state, loading_state_changed, loading_status, loading_cid,
  loading_attempt,
}
use pokapali.Status.Agreement.{derive_save_state-compute_save_state, loading_state_changed_lem}
use pokapali.Reducers.Chain.{reduce_chain, is_some}
use pokapali.Reducers.Chain.Newest.{IsNewest}
use pokapali.Reducers.Chain.Fitting.{Fits, IsChain}
use pokapali.Reducers.Chain.Invariant.{after, initial_chain-IsChain}
use pokapali.Reducers.Chain.Reached.{after-IsNewest}
use pokapali.Reducers.Chain.Moves.{may_move, status_in}
use pokapali.Reducers.Chain.Statuses.{reduce_chain_moves}
use pokapali.Reducers.Slices.{gossip_decay_ms, reduce_gossip, reduce_content, derive_save_state}
use pokapali.Reducers.Slices.Laws.{
  IsGossip, initial_gossip-IsGossip, reduce_gossip-IsGossip, connectivity_after, last_relay_news,
  relay_peers-connectivity_after, publish_failed-derive_save_state,
}
use pokapali.Reducers.Epochs.{ensure_channel}
use pokapali.Reducers.Epochs.Laws.{
  epochs_after, closed_count, fresh_count, grown, last_dirty, channels-epochs_after, NothingPending,
  epochs_after-NothingPending,
}
use pokapali.Reducers.Document.{runtime_doc_state, SameObject, reduce, with_slices}
use pokapali.Reducers.Document.Consistency.{
  IsConsistent, Step, reduce_all, facts_of, Among, clocks_of, reduce-eq-with_slices, derived_fields,
  slices-reduce_all,
}

-- Numbers measured by their sum.
abbrev sums : Measured ℕ ℕ
sums = record { monoid = record { empty = 0; append = λ a b. a + b }; measure = λ a. a }

sums-IsMonoid : IsMonoid sums.monoid
sums-IsMonoid = record {
  empty-append = λ a. omega arith;
  append-empty = λ a. omega arith;
  assoc = λ a b c. omega arith;
}

abbrev nums : List ℕ
nums = 3 ∷ 1 ∷ 4 ∷ 1 ∷ 5 ∷ 9 ∷ 2 ∷ 6 ∷ 5 ∷ []

abbrev numbers : FingerTree ℕ ℕ zero
numbers = from_array zero sums nums

numbers-TreeValid : TreeValid sums zero numbers
numbers-TreeValid =
    from_array-TreeValid sums zero nums (tt, (tt, (tt, (tt, (tt, (tt, (tt, (tt, (tt, tt)))))))))

split_cases_example :
    ((split sums (ltb 10) numbers ≡ undefined) × (ltb 10 (total sums (to_array numbers)) ≡ false))
    ⊎ ((s : Split ℕ ℕ zero) × (split sums (ltb 10) numbers ≡ found s)
        × (to_array numbers ≡ to_array s.left ++ s.value ∷ to_array s.right)
        × (ltb 10 (total sums (to_array s.left)) ≡ false)
        × (ltb 10 (total sums (to_array s.left ++ s.value ∷ [])) ≡ true))
split_cases_example = split_cases sums sums-IsMonoid (ltb 10) numbers numbers-TreeValid refl

concat_total_example :
    (r : FingerTree ℕ ℕ zero) × (concat sums numbers numbers ≡ some r)
    × (to_array r ≡ to_array numbers ++ to_array numbers)
concat_total_example = concat_total sums numbers numbers

abbrev built : FingerTree ℕ ℕ zero
built = cons sums 7 (snoc sums empty 2)

measure_tree-to_array_example : measure_tree sums built ≡ total sums (to_array built)
measure_tree-to_array_example =
    measure_tree-to_array sums sums-IsMonoid (by_cons 7 (by_snoc 2 by_empty))

views_contents_example :
    FirstOf (viewl sums numbers) (to_array numbers) × LastOf (viewr sums numbers) (to_array numbers)
views_contents_example = views_contents sums numbers

to_array-cons-snoc_example :
    (to_array (cons sums 8 numbers) ≡ 8 ∷ to_array numbers)
    × (to_array (snoc sums numbers 8) ≡ to_array numbers ++ 8 ∷ [])
to_array-cons-snoc_example = to_array-cons-snoc sums numbers 8

to_array-from_array_example : to_array numbers ≡ nums
to_array-from_array_example = to_array-from_array sums nums

take_drop_until_example :
    (l r : FingerTree ℕ ℕ zero) × (take_until sums (ltb 10) numbers ≡ some l)
    × (drop_until sums (ltb 10) numbers ≡ some r)
    × (to_array numbers ≡ to_array l ++ to_array r)
    × (ltb 10 (total sums (to_array l)) ≡ false)
    × TurnsTrue sums sums-IsMonoid (ltb 10) (to_array l) (to_array r)
take_drop_until_example = take_drop_until sums sums-IsMonoid (ltb 10) numbers numbers-TreeValid refl

to_array-eq-iterate_example : to_array numbers ≡ iterate numbers
to_array-eq-iterate_example = to_array-eq-iterate numbers

-- Facts about two blocks: the second is fetched, and leads to the first.
abbrev at : ℕ → Payload → Fact
at ts p = record { ts = ts; payload = p }

abbrev chain_facts : List Fact
chain_facts =
    at 1 (cid_discovered "b" CidSource.gossipsub none (some 2) none)
    ∷ at 2 (block_fetch_started "b")
    ∷ at 3 (block_fetched "b" (1 ∷ 2 ∷ []) (some "a") none (some 10))
    ∷ at 4 (block_fetch_failed "a" 1 "timeout")
    ∷ at 5 (guarantee_received "p" "b" 900 950)
    ∷ []

abbrev two_blocks : ChainState
two_blocks = after initial_chain chain_facts

after-IsNewest_example :
    IsNewest
      (after initial_chain chain_facts).newest_fetched
      (after initial_chain chain_facts).entries
    × AllEntries
        (Fits (after initial_chain chain_facts).max_seq)
        (after initial_chain chain_facts).entries
after-IsNewest_example = after-IsNewest chain_facts

reduce_chain_moves_example :
    may_move
      (status_in two_blocks.entries "b")
      (status_in (reduce_chain two_blocks (at 6 (tip_advanced "b" 2))).entries "b")
    ≡ true
reduce_chain_moves_example = reduce_chain_moves two_blocks (at 6 (tip_advanced "b" 2)) "b"

-- Two objects are never the same one: the early return is never taken.
abbrev never_same : SameObject
never_same = record { same = λ A a b. false; same_eq = λ A a b h. cc }

abbrev identity : Identity
identity = record {
  ipns_name = "k51";
  role = DocRole.writer;
  channels = "content" ∷ [];
  app_id = "app";
}

abbrev doc_facts : List Step
doc_facts =
    (never_same, 9, at 8 (relay_connected "r")) ∷ (never_same, 9, at 9 (content_dirty 4)) ∷ []

initial-IsConsistent : IsConsistent 3 (initial_doc_state identity)
unfolding derive_status derive_save_state
initial-IsConsistent = record { status = refl; save_state = refl }

derived_fields_example :
    let s = reduce_all (runtime_doc_state 7 (some 6) identity) doc_facts in
    ((t : ℕ) × Among t (7 ∷ clocks_of doc_facts) × (s.status ≡ derive_status t s.connectivity))
    × (s.save_state ≡ derive_save_state s.content s.chain)
derived_fields_example = derived_fields 7 (some 6) identity doc_facts

reduce-eq-with_slices_example :
    (u : ℕ) × ((u ≡ 3) ⊎ (u ≡ 5))
    × (reduce never_same 5 (initial_doc_state identity) (at 5 gossip_message)
        ≡ with_slices u (initial_doc_state identity) (at 5 gossip_message))
reduce-eq-with_slices_example =
    reduce-eq-with_slices never_same 3 5 (initial_doc_state identity) (at 5 gossip_message)
      initial-IsConsistent

slices-reduce_all_example :
    let r = reduce_all (initial_doc_state identity) doc_facts in
    (r.chain ≡ after (initial_doc_state identity).chain (facts_of doc_facts))
    × (r.connectivity
        ≡ connectivity_after (initial_doc_state identity).connectivity (facts_of doc_facts))
    × (r.epochs ≡ epochs_after (initial_doc_state identity).epochs (facts_of doc_facts))
    × (r.identity ≡ (initial_doc_state identity).identity)
slices-reduce_all_example = slices-reduce_all (initial_doc_state identity) doc_facts

abbrev a_document : DocState
a_document = record (initial_doc_state identity) { chain = two_blocks }

best_guarantee-is_guarantee_active_example :
    Views.is_guarantee_active (Views.best_guarantee two_blocks).guarantee_until 1000
    ≡ any_entry_active 1000 two_blocks.entries
best_guarantee-is_guarantee_active_example = best_guarantee-is_guarantee_active two_blocks 1000

abbrev block_b : Views.VersionSummary
block_b = record { cid = "b"; seq = 2; ts = 0; available = false }

version_history_lem_example :
    Descending (λ (x : Views.VersionSummary). x.seq) (Views.version_history two_blocks)
    × (Any (λ x. x ≡ block_b) (Views.version_history two_blocks)
        ↔ SomeEntry (Summarises block_b) two_blocks.entries)
    × (length (Views.version_history two_blocks) ≡ numbered two_blocks.entries)
version_history_lem_example = version_history_lem two_blocks block_b

abbrev relay_facts : List Fact
relay_facts =
    at 1 (relay_connected "r") ∷ at 2 (relay_connected "q") ∷ at 3 (relay_disconnected "r") ∷ []

relay_peers-connectivity_after_example :
    set_has "q" (connectivity_after initial_connectivity relay_facts).relay_peers
    ≡ last_relay_news (set_has "q" initial_connectivity.relay_peers) relay_facts "q"
relay_peers-connectivity_after_example =
    relay_peers-connectivity_after relay_facts initial_connectivity "q"

reduce_gossip-IsGossip_example :
    IsGossip (reduce_gossip initial_gossip (at 70000 gossip_message))
    × ((at 70000 gossip_message).payload ≢ gossip_subscribed
        → (reduce_gossip initial_gossip (at 70000 gossip_message)).activity
          ≡ GossipActivity.receiving
        → (at 70000 gossip_message).ts
          ≤ (reduce_gossip initial_gossip (at 70000 gossip_message)).last_message_at
            + gossip_decay_ms)
reduce_gossip-IsGossip_example =
    reduce_gossip-IsGossip initial_gossip (at 70000 gossip_message) initial_gossip-IsGossip

abbrev epoch_facts : List Fact
epoch_facts =
    at 1 (epoch_closed "content" 0)
    ∷ at 2 (convergence_detected "content" (7 ∷ []))
    ∷ at 3 (epoch_closed "comments" 0)
    ∷ []

channels-epochs_after_example :
    ((ensure_channel (epochs_after initial_epochs epoch_facts) "content").open_epoch_count
      ≡ fresh_count "content" (closed_count epoch_facts "content"))
    × ((ensure_channel (epochs_after initial_epochs epoch_facts) "content").open_epoch_count
        ≡ grown
            (ensure_channel initial_epochs "content").open_epoch_count
            (closed_count epoch_facts "content"))
    × ((ensure_channel (epochs_after initial_epochs epoch_facts) "content").dirty
        ≡ last_dirty (ensure_channel initial_epochs "content").dirty epoch_facts "content")
channels-epochs_after_example = channels-epochs_after epoch_facts initial_epochs "content"

epochs_after-NothingPending_example : NothingPending (epochs_after initial_epochs epoch_facts)
epochs_after-NothingPending_example =
    epochs_after-NothingPending epoch_facts initial_epochs
      (record { no_snapshots = refl; no_stale = refl })

abbrev error : String
error = "no peers"

publish_failed-derive_save_state_example :
    (derive_save_state (reduce_content initial_content (at 4 (publish_failed error))) initial_chain
      ≡ SaveState.save_error)
    ↔ (error ≢ "")
publish_failed-derive_save_state_example =
    publish_failed-derive_save_state 4 error initial_content initial_chain

derive_save_state-compute_save_state_example :
    derive_save_state initial_content two_blocks ≡ elim (compute_save_state false false none) [
      | SaveState.saved ↦ if is_some two_blocks.tip then SaveState.saved else SaveState.unpublished
      | other ↦ other
    ]
derive_save_state-compute_save_state_example =
    derive_save_state-compute_save_state initial_content two_blocks

loading_state_changed_lem_example :
    (loading_state_changed (LoadingState.retrying "a" 1 50) (LoadingState.retrying "a" 1 60)
      ≡ false)
    ↔ ((loading_status (LoadingState.retrying "a" 1 50)
          ≡ loading_status (LoadingState.retrying "a" 1 60))
        × (loading_cid (LoadingState.retrying "a" 1 50)
            ≡ loading_cid (LoadingState.retrying "a" 1 60))
        × (loading_attempt (LoadingState.retrying "a" 1 50)
            ≡ loading_attempt (LoadingState.retrying "a" 1 60)))
loading_state_changed_lem_example =
    loading_state_changed_lem (LoadingState.retrying "a" 1 50) (LoadingState.retrying "a" 1 60)

abbrev entry_b : Views.VersionHistoryEntry
entry_b = record { cid = "b"; seq = 2; ts = 0; status = Views.VersionEntryStatus.loading }

derive_version_history_lem_example :
    Descending Views.entry_seq_of (Views.derive_version_history none (some two_blocks)).entries
    × OncePerCid (Views.derive_version_history none (some two_blocks)).entries
    × (Any (λ x. x ≡ entry_b) (Views.derive_version_history none (some two_blocks)).entries
        ↔ Shows entry_b (chosen [] two_blocks.entries "b"))
derive_version_history_lem_example = derive_version_history_lem none (some two_blocks) entry_b

admit_all-recent_example :
    let (s, log) = admit_all 2 new_limiter [] (5 ∷ 6 ∷ 7 ∷ 3600006 ∷ []) in
    (length (recent hour_ms (last_of 0 (5 ∷ 6 ∷ 7 ∷ 3600006 ∷ [])) log) ≤ 2)
    × (s.admitted ≡ length log)
    × ((try_admit 2 3600009 s).0 ≡ ltb (length (recent hour_ms 3600009 log)) 2)
admit_all-recent_example =
    admit_all-recent 2 (5 ∷ 6 ∷ 7 ∷ 3600006 ∷ []) 3600009 (ground arith) (omega arith)

-- Two records of a name, and a check between them.
abbrev calls : List Call
calls = records "k51" 10 ∷ checks "k51" 400 20 ∷ records "k51" 30 ∷ []

check_rate-allowed_example :
    ((check_rate default_rate_limits "k51" 400 40 (run_calls default_rate_limits [] calls)).0
      ≡ allowed)
    ↔ ((400 ≤ default_rate_limits.max_block_size_bytes)
        × (length (recent hour_ms 40 (times_of "k51" (log_calls [] calls)))
            < default_rate_limits.max_snapshots_per_hour))
check_rate-allowed_example =
    check_rate-allowed default_rate_limits calls "k51" 400 40 (ground arith)

no_requests-Tracks : Tracks ip_window_ms 0 [] []
unfolding map_get
no_requests-Tracks = record { later = λ q u le. refl }

check_ip-Tracks_example :
    ((check_ip 100 "10.0.0.1" 50 []).0
      ≡ ltb (length (recent ip_window_ms 50 (times_of "10.0.0.1" []))) 100)
    × Tracks ip_window_ms 50 (check_ip 100 "10.0.0.1" 50 []).1 []
    × Tracks ip_window_ms 50 (record_ip "10.0.0.1" 50 []) ([] ++ ("10.0.0.1", 50) ∷ [])
check_ip-Tracks_example = check_ip-Tracks 100 0 50 "10.0.0.1" [] [] no_requests-Tracks (omega arith)
