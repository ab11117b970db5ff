-- ===== src/Sync/Session/Progress.antt =====
-- packages/sync/src/reconciliation/session.ts: what is left of a search.
pub mod Rounds
use pokapali.Prelude.{
  ℕ, zero, suc, ◌+◌, ◌-◌, ◌*◌, ◌<◌, ◌≤◌, ◌≡◌, refl, sym, ap, ◌∙◌, subst, inl, inr, Bool, true,
  false, ◌&&◌, Option, none, some, ◌>>=◌, List, [], ◌∷◌, ◌++◌, ◌==◌, ltb, ltb→lt, if◌then◌else◌,
  Bool-cases, arith,
}
use pokapali.Facts.Types.{Bytes}
use pokapali.Wire.{All}
use pokapali.Sync.Messages.{
  Edit, Message, reconcile_start, trie_query, trie_response, edit_set, edit_batch, full_state,
  snapshot_catalog, snapshot_request, snapshot_block,
}
use pokapali.Sync.Trie.{Trie, build_trie, query_prefix, bytes_equal, collect_hashes}
use pokapali.Sync.Trie.Bits.{IsHash}
use pokapali.Sync.Session.{
  max_depth, edit_set_threshold, Query, Session, half, Reply, message, edits, nothing, query,
  with_queue, with_edits, Result, drain, drain_queue, handle_trie_query, go_deeper, handle_mismatch,
  handle_trie_response, handle_edit_set, edits_to_send, buffered, handle_edit_batch, receive,
}
use pokapali.Sync.Session.Depths.{
  IsSession, IsShallow, IsAnswer, Answers, root_of, handle_mismatch-IsSafe,
}

-- The messages that a search of a subtree can take when `n` levels are left below it, and one more.
abbrev pub weight : ℕ → ℕ
weight zero = 2
weight (suc n) = 2 * weight n + 2

abbrev pub left_at : ℕ → ℕ
left_at depth = weight (max_depth - depth)

abbrev pub queue_weight : List Query → ℕ
queue_weight [] = 0
queue_weight (q ∷ qs) = left_at q.depth + queue_weight qs

module _ (Float : Type 0) where
  abbrev pub message_weight : Message Float → ℕ
  message_weight (trie_query channel prefix depth fp n) = left_at depth
  message_weight (trie_response channel prefix depth fp matches) = left_at depth
  message_weight (edit_set channel prefix depth hashes) = 1
  message_weight (edit_batch channel es) = 1
  message_weight (reconcile_start channel fp n) = 0
  message_weight (full_state channel snapshot) = 0
  message_weight (snapshot_catalog entries tip) = 0
  message_weight (snapshot_request cids) = 0
  message_weight (snapshot_block cid block offset total is_last) = 0

  -- The messages of a search: the searcher's, and the answers to them.
  abbrev pub IsSearch : Message Float → Type 0
  IsSearch (trie_query channel prefix depth fp n) = depth ≤ max_depth
  IsSearch (edit_set channel prefix depth hashes) = depth ≤ max_depth
  IsSearch (trie_response channel prefix depth fp matches) = ⊥
  IsSearch (edit_batch channel es) = ⊥
  IsSearch (reconcile_start channel fp n) = ⊥
  IsSearch (full_state channel snapshot) = ⊥
  IsSearch (snapshot_catalog entries tip) = ⊥
  IsSearch (snapshot_request cids) = ⊥
  IsSearch (snapshot_block cid block offset total is_last) = ⊥

  -- What a searcher of less than `bound` returns: the end of the search, or a message of it.
  abbrev pub IsNext : ℕ → Session → Reply Float → Type 0
  IsNext bound s (message msg) =
      IsSearch msg × (message_weight msg + queue_weight s.query_queue < bound)
  IsNext bound s (edits es) = Unit
  IsNext bound s nothing = Unit

  abbrev pub Steps : ℕ → Result Float → Type 0
  Steps bound result =
      (s : Session) × (r : Reply Float) × (result ≡ some (s, r)) × IsSession s × IsNext bound s r

  weight_positive : (n : ℕ) → 2 ≤ weight n
  weight_positive zero = omega arith
  weight_positive (suc n) = omega arith

  drain-Steps :
      (s : Session) (otherwise : Reply Float) (queue : List Query) (bound : ℕ)
      → All IsHash s.local_hashes
      → All (λ q. q.depth ≤ max_depth) queue
      → IsSession s
      → IsNext bound s otherwise
      → queue_weight queue < bound
      → Steps bound (drain Float s otherwise queue)
  unfolding drain query
  drain-Steps s otherwise [] bound hashes shallow h k lt = (s, otherwise, refl, h, k)
  drain-Steps s otherwise (next ∷ queue) bound hashes shallow h k lt =
      let (root, e) = root_of Float s h in
      (
        with_queue s queue,
        message (query Float s root next),
        rw (e, ◌>>=◌) refl,
        (hashes, shallow.1),
        (shallow.0, lt),
      )

  drain_queue-Steps :
      (s : Session) (otherwise : Reply Float) (bound : ℕ)
      → IsSession s
      → IsNext bound s otherwise
      → queue_weight s.query_queue < bound
      → Steps bound (drain_queue Float s otherwise)
  unfolding drain_queue
  drain_queue-Steps s otherwise bound h k lt =
      drain-Steps s otherwise s.query_queue bound h.0 h.1 h k lt

  queue_weight-append :
      (qs : List Query) (q : Query)
      → queue_weight (qs ++ (q ∷ [])) ≡ queue_weight qs + left_at q.depth
  queue_weight-append [] q = omega arith
  queue_weight-append (x ∷ qs) q = let ih = queue_weight-append qs q in omega arith

  left_at-suc : (d : ℕ) → d < max_depth → left_at d ≡ 2 * left_at (suc d) + 2
  left_at-suc d h = let one : max_depth - d ≡ suc (max_depth - suc d) = omega arith in ap weight one

  -- The search goes down: what is left after a mismatch is less.
  handle_mismatch-IsNext :
      (s : Session) (root : Trie) (q : Query)
      → q.depth ≤ max_depth
      → IsNext
          (left_at q.depth + queue_weight s.query_queue)
          (handle_mismatch Float s root q).0
          (handle_mismatch Float s root q).1
  unfolding handle_mismatch go_deeper half query
  handle_mismatch-IsNext s root q k =
      let least = weight_positive (max_depth - q.depth) in
      elim (Bool-cases (ltb q.depth max_depth)) [
        | inr e ↦ rw (handle_mismatch, e) (k, omega arith)
        | inl e ↦
            elim (Bool-cases (ltb edit_set_threshold (query_prefix root q.prefix q.depth).1)) [
              | inr g ↦ rw (handle_mismatch, e, g) (k, omega arith)
              | inl g ↦
                  let down = ltb→lt q.depth max_depth e in
                  let less = left_at-suc q.depth down in
                  let more = queue_weight-append s.query_queue (half q true) in
                  rw (handle_mismatch, e, g) (omega arith, omega arith)
            ]
      ]

  pub handle_trie_response-Steps :
      (s : Session) (q : Query) (matches : Bool)
      → IsSession s
      → q.depth ≤ max_depth
      → Steps
          (left_at q.depth + queue_weight s.query_queue)
          (handle_trie_response Float s q matches)
  unfolding handle_trie_response
  handle_trie_response-Steps s q true h k =
      let least = weight_positive (max_depth - q.depth) in
      drain_queue-Steps s nothing _ h tt (omega arith)
  handle_trie_response-Steps s q false h k =
      let (root, e) = root_of Float s h in
      let result = handle_mismatch Float s root q in
      (
        result.0,
        result.1,
        rw (e, ◌>>=◌) refl,
        (handle_mismatch-IsSafe Float s root q h k).0,
        handle_mismatch-IsNext s root q k,
      )

  buffered-IsNext : (bound : ℕ) (s : Session) (es : List Edit) → IsNext bound s (buffered Float es)
  buffered-IsNext bound s [] = tt
  buffered-IsNext bound s (e ∷ es) = tt

  pub handle_edit_batch-Steps :
      (s : Session) (es : List Edit)
      → IsSession s
      → Steps (1 + queue_weight s.query_queue) (handle_edit_batch Float s es)
  unfolding handle_edit_batch
  handle_edit_batch-Steps s es h =
      drain_queue-Steps (with_edits s es) _ _ h
        (buffered-IsNext _ (with_edits s es) (s.received_edits ++ es)) (omega arith)
