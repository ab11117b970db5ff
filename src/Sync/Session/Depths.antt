-- ===== src/Sync/Session/Depths.antt =====
-- packages/sync/src/reconciliation/session.ts: how deep the search goes.
use pokapali.Prelude.{
  ℕ, ◌<◌, ◌≤◌, ◌≡◌, refl, inl, inr, Bool, true, false, ◌&&◌, Option, none, some, ◌>>=◌, List, [],
  ◌∷◌, ◌++◌, length, ◌==◌, ltb, ltb→lt, Bool-cases, arith,
}
use pokapali.Facts.Types.{Bytes}
use pokapali.Wire.{All}
use pokapali.Sync.Messages.{
  Edit, Message, reconcile_start, trie_query, trie_response, edit_set, edit_batch, full_state,
  snapshot_catalog, snapshot_request, snapshot_block,
}
use pokapali.Sync.Trie.{
  Trie, build_trie, query_prefix, bytes_equal, collect_hashes, zero_32, fingerprint, edit_count,
}
use pokapali.Sync.Trie.Bits.{IsHash}
use pokapali.Sync.Trie.Building.Inserting.{build_trie-builds}
use pokapali.Sync.Session.{
  max_depth, edit_set_threshold, Query, Session, half, late_joiner, drain, edits_to_send, as_edit,
  Reply, message, edits, nothing, query, with_queue, with_edits, Result, drain_queue, start_search,
  handle_reconcile_start, handle_trie_query, go_deeper, handle_mismatch, handle_trie_response,
  handle_edit_set, buffered, handle_edit_batch, receive,
}

-- The local hashes are SHA-256 digests, and no query that waits is deeper than MAX_DEPTH.
abbrev pub IsSession : Session → Type 0
IsSession s = All IsHash s.local_hashes × All (λ q. q.depth ≤ max_depth) s.query_queue

module _ (Float : Type 0) where
  -- A message of the search that is not deeper than MAX_DEPTH, or one of the others.
  abbrev pub IsShallow : Message Float → Type 0
  IsShallow (reconcile_start channel fp n) = Unit
  IsShallow (trie_query channel prefix depth fp n) = depth ≤ max_depth
  IsShallow (trie_response channel prefix depth fp matches) = depth ≤ max_depth
  IsShallow (edit_set channel prefix depth hashes) = depth ≤ max_depth
  IsShallow (edit_batch channel es) = Unit
  IsShallow (full_state channel snapshot) = Unit
  IsShallow (snapshot_catalog entries tip) = ⊥
  IsShallow (snapshot_request cids) = ⊥
  IsShallow (snapshot_block cid block offset total is_last) = ⊥

  abbrev pub IsAnswer : Reply Float → Type 0
  IsAnswer (message msg) = IsShallow msg
  IsAnswer (edits es) = Unit
  IsAnswer nothing = Unit

  -- There is a result: a sound session, and an answer that is not too deep.
  abbrev pub Answers : Result Float → Type 0
  Answers result =
      (s : Session) × (r : Reply Float) × (result ≡ some (s, r)) × IsSession s × IsAnswer r

  pub root_of : (s : Session) → IsSession s → (t : Trie) × (build_trie s.local_hashes ≡ some t)
  root_of s h = let (t, e, trie, law) = build_trie-builds s.local_hashes h.0 in (t, e)

  drain-Answers :
      (s : Session) (otherwise : Reply Float) (queue : List Query)
      → All IsHash s.local_hashes
      → All (λ q. q.depth ≤ max_depth) queue
      → IsSession s
      → IsAnswer otherwise
      → Answers (drain Float s otherwise queue)
  unfolding drain query
  drain-Answers s otherwise [] hashes shallow h k = (s, otherwise, refl, h, k)
  drain-Answers s otherwise (next ∷ queue) hashes shallow h k =
      let (root, e) = root_of s h in
      (
        with_queue s queue,
        message (query Float s root next),
        rw (e, ◌>>=◌) refl,
        (hashes, shallow.1),
        shallow.0,
      )

  drain_queue-Answers :
      (s : Session) (otherwise : Reply Float)
      → IsSession s
      → IsAnswer otherwise
      → Answers (drain_queue Float s otherwise)
  unfolding drain_queue
  drain_queue-Answers s otherwise h k = drain-Answers s otherwise s.query_queue h.0 h.1 h k

  -- What is queued, or waits after it, is not too deep.
  All-last :
      (qs : List Query) (q : Query)
      → All (λ q. q.depth ≤ max_depth) qs
      → q.depth ≤ max_depth
      → All (λ q. q.depth ≤ max_depth) (qs ++ (q ∷ []))
  All-last [] q h k = (k, tt)
  All-last (x ∷ qs) q h k = (h.0, All-last qs q h.1 k)

  abbrev pub IsSafe : Session × Reply Float → Type 0
  IsSafe (s, r) = IsSession s × IsAnswer r

  go_deeper-IsSafe :
      (s : Session) (root : Trie) (q : Query)
      → IsSession s
      → q.depth < max_depth
      → IsSafe (go_deeper Float s root q)
  unfolding go_deeper half query
  go_deeper-IsSafe s root q h k =
      ((h.0, All-last s.query_queue (half q true) h.1 (omega arith)), omega arith)

  pub handle_mismatch-IsSafe :
      (s : Session) (root : Trie) (q : Query)
      → IsSession s
      → q.depth ≤ max_depth
      → IsSafe (handle_mismatch Float s root q)
  unfolding handle_mismatch
  handle_mismatch-IsSafe s root q h k = elim (Bool-cases (ltb q.depth max_depth)) [
    | inr e ↦ rw (handle_mismatch, e) (h, k)
    | inl e ↦ elim (Bool-cases (ltb edit_set_threshold (query_prefix root q.prefix q.depth).1)) [
      | inr g ↦ rw (handle_mismatch, e, g) (h, k)
      | inl g ↦
          rw (handle_mismatch, e, g) (go_deeper-IsSafe s root q h (ltb→lt q.depth max_depth e))
    ]
  ]

  handle_trie_response-Answers :
      (s : Session) (q : Query) (matches : Bool)
      → IsSession s
      → q.depth ≤ max_depth
      → Answers (handle_trie_response Float s q matches)
  unfolding handle_trie_response
  handle_trie_response-Answers s q true h k = drain_queue-Answers s nothing h tt
  handle_trie_response-Answers s q false h k =
      let (root, e) = root_of s h in
      let safe = handle_mismatch-IsSafe s root q h k in
      let result = handle_mismatch Float s root q in
      (result.0, result.1, rw (handle_trie_response, e, ◌>>=◌) refl, safe.0, safe.1)

  start_search-Answers : (s : Session) → IsSession s → Answers (start_search Float s)
  unfolding start_search
  start_search-Answers s h =
      let (root, e) = root_of s h in
      (
        s,
        message (trie_query s.channel zero_32 0 (fingerprint root) (edit_count root)),
        rw (start_search, e, ◌>>=◌) refl,
        h,
        omega arith,
      )

  late_joiner-Answers :
      (s : Session) (snapshot : Option Bytes) → IsSession s → Answers (late_joiner Float s snapshot)
  unfolding late_joiner
  late_joiner-Answers s none h = start_search-Answers s h
  late_joiner-Answers s (some snapshot) h =
      (s, message (full_state s.channel snapshot), refl, h, tt)

  handle_reconcile_start-Answers :
      (s : Session) (fp : Bytes) (n : ℕ)
      → IsSession s
      → Answers (handle_reconcile_start Float s fp n)
  unfolding handle_reconcile_start
  handle_reconcile_start-Answers s fp n h =
      elim (Bool-cases (bytes_equal fp s.local_fingerprint && (n == length s.local_hashes))) [
        | inl e ↦ (s, nothing, rw (handle_reconcile_start, e) refl, h, tt)
        | inr e ↦ elim (Bool-cases (n == 0)) [
          | inr g ↦ rw (handle_reconcile_start, e, g) (start_search-Answers s h)
          | inl g ↦ rw (handle_reconcile_start, e, g) (late_joiner-Answers s s.local_snapshot h)
        ]
      ]

  buffered-IsAnswer : (es : List Edit) → IsAnswer (buffered Float es)
  buffered-IsAnswer [] = tt
  buffered-IsAnswer (e ∷ es) = tt

  -- A session whose local hashes are SHA-256 digests, and whose waiting queries are not deeper than
  -- MAX_DEPTH, does not throw on a message of the reconciliation that is not deeper either: it stays
  -- such a session, and what it answers is a message that is not deeper, edits or null.
  pub receive-Answers :
      (s : Session) (msg : Message Float)
      → IsSession s
      → IsShallow msg
      → Answers (receive Float s msg)
  unfolding receive handle_trie_query handle_edit_set handle_edit_batch
  receive-Answers s (reconcile_start channel fp n) h k = handle_reconcile_start-Answers s fp n h
  receive-Answers s (trie_query channel prefix depth fp n) h k =
      let (root, e) = root_of s h in
      let (local_fp, local_n) = query_prefix root prefix depth in
      (
        s,
        message (
            trie_response s.channel prefix depth local_fp
              (bytes_equal local_fp fp && (local_n == n))),
        rw (e, ◌>>=◌) refl,
        h,
        k,
      )
  receive-Answers s (trie_response channel prefix depth fp matches) h k =
      handle_trie_response-Answers s (record { prefix = prefix; depth = depth }) matches h k
  receive-Answers s (edit_set channel prefix depth hashes) h k =
      let (root, e) = root_of s h in
      (
        s,
        message (edit_batch s.channel (edits_to_send hashes (collect_hashes root prefix depth))),
        rw (e, ◌>>=◌) refl,
        h,
        tt,
      )
  receive-Answers s (edit_batch channel es) h k =
      drain_queue-Answers (with_edits s es) _ h (buffered-IsAnswer (s.received_edits ++ es))
  receive-Answers s (full_state channel snapshot) h k =
      (s, edits (as_edit snapshot ∷ []), refl, h, tt)
  receive-Answers s (snapshot_catalog entries tip) h k = absurd k
  receive-Answers s (snapshot_request cids) h k = absurd k
  receive-Answers s (snapshot_block cid block offset total is_last) h k = absurd k
