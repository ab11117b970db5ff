-- ===== src/Sync/Session/Batches.antt =====
-- packages/sync/src/reconciliation/session.ts: the edits that a session buffers over a history, and when it
-- returns them.
use pokapali.Prelude.{
  ℕ, ◌≡◌, refl, subst, inl, inr, Bool, true, false, ◌&&◌, String, Option, none, some, ◌>>=◌, List,
  [], ◌∷◌, ◌++◌, ◌==◌, length, ltb, Option-cases, Bool-cases,
}
use pokapali.Facts.Types.{Bytes}
use pokapali.Wire.{All}
use pokapali.Sync.Messages.{
  Edit, Message, reconcile_start, trie_query, trie_response, edit_set, edit_batch, full_state,
  snapshot_catalog, snapshot_request, snapshot_block,
}
use pokapali.Sync.Trie.{Trie, build_trie, query_prefix, bytes_equal}
use pokapali.Sync.Trie.Bits.{IsHash}
use pokapali.Sync.Session.{
  max_depth, edit_set_threshold, Query, Session, create_session, Reply, message, edits, nothing,
  query, with_edits, Result, drain, drain_queue, start_search, late_joiner, handle_reconcile_start,
  handle_trie_query, go_deeper, handle_mismatch, handle_trie_response, handle_edit_set, as_edit,
  buffered, handle_edit_batch, receive,
}
use pokapali.Sync.Session.Depths.{IsSession, IsShallow, receive-Answers}

module _ (Float : Type 0) where
  -- The edits of the batches of a history, after those that came before.
  abbrev pub with_batch : List Edit → Message Float → List Edit
  with_batch so_far (edit_batch channel es) = so_far ++ es
  with_batch so_far _ = so_far

  abbrev pub batches : List Edit → List (Message Float) → List Edit
  batches so_far [] = so_far
  batches so_far (msg ∷ msgs) = batches (with_batch so_far msg) msgs

  abbrev pub NoEdits : Reply Float → Type 0
  NoEdits (message msg) = Unit
  NoEdits (edits es) = ⊥
  NoEdits nothing = Unit

  -- Edits are returned all or not at all, and null only where there are none.
  abbrev pub ReturnsAll : List Edit → Reply Float → Type 0
  ReturnsAll all (message msg) = Unit
  ReturnsAll all (edits es) = es ≡ all
  ReturnsAll all nothing = all ≡ []

  -- What a message may be answered where the batches have brought these edits, its own included.
  abbrev pub Returns : List Edit → Message Float → Reply Float → Type 0
  Returns all (edit_batch channel es) reply = ReturnsAll all reply
  Returns all (full_state channel snapshot) reply = reply ≡ edits (as_edit snapshot ∷ [])
  Returns all _ reply = NoEdits reply

  abbrev pub ReturnsEach : List Edit → List (Message Float) → List (Reply Float) → Type 0
  ReturnsEach so_far [] [] = Unit
  ReturnsEach so_far (msg ∷ msgs) (reply ∷ replies) =
      Returns (with_batch so_far msg) msg reply × ReturnsEach (with_batch so_far msg) msgs replies
  ReturnsEach so_far _ _ = ⊥

  -- The messages of a history, one after the other, and what is returned for each.
  abbrev pub receive_all : Session → List (Message Float) → Option (Session × List (Reply Float))
  receive_all s [] = some (s, [])
  receive_all s (msg ∷ msgs) = do
    step ← receive Float s msg
    rest ← receive_all step.0 msgs
    some (rest.0, step.1 ∷ rest.1)

  -- Of a result, if there is one.
  abbrev Then : List Edit → (Reply Float → Type 0) → Result Float → Type 0
  Then all P none = Unit
  Then all P (some (s, reply)) = (s.received_edits ≡ all) × P reply

  drain-Then :
      (P : Reply Float → Type 0) (s : Session) (otherwise : Reply Float) (queue : List Query)
      → P otherwise
      → ((msg : Message Float) → P (message msg))
      → Then s.received_edits P (drain Float s otherwise queue)
  unfolding drain
  drain-Then P s otherwise [] h k = (refl, h)
  drain-Then P s otherwise (q ∷ queue) h k = elim (Option-cases (build_trie s.local_hashes)) [
    | inl e ↦ rw (drain, e, ◌>>=◌) tt
    | inr (root, e) ↦ rw (drain, e, ◌>>=◌) (refl, k (query Float s root q))
  ]

  start_search-Then : (s : Session) → Then s.received_edits NoEdits (start_search Float s)
  unfolding start_search
  start_search-Then s = elim (Option-cases (build_trie s.local_hashes)) [
    | inl e ↦ rw (start_search, e, ◌>>=◌) tt
    | inr (root, e) ↦ rw (start_search, e, ◌>>=◌) (refl, tt)
  ]

  late_joiner-Then :
      (s : Session) (snapshot : Option Bytes)
      → Then s.received_edits NoEdits (late_joiner Float s snapshot)
  unfolding late_joiner
  late_joiner-Then s none = start_search-Then s
  late_joiner-Then s (some snapshot) = (refl, tt)

  handle_reconcile_start-Then :
      (s : Session) (fp : Bytes) (n : ℕ)
      → Then s.received_edits NoEdits (handle_reconcile_start Float s fp n)
  unfolding handle_reconcile_start
  handle_reconcile_start-Then s fp n =
      elim (Bool-cases (bytes_equal fp s.local_fingerprint && (n == length s.local_hashes))) [
        | inl e ↦ rw (handle_reconcile_start, e) (refl, tt)
        | inr e ↦ elim (Bool-cases (n == 0)) [
          | inr g ↦ rw (handle_reconcile_start, e, g) (start_search-Then s)
          | inl g ↦ rw (handle_reconcile_start, e, g) (late_joiner-Then s s.local_snapshot)
        ]
      ]

  handle_mismatch-Then :
      (s : Session) (root : Trie) (q : Query)
      → Then s.received_edits NoEdits (some (handle_mismatch Float s root q))
  unfolding handle_mismatch go_deeper
  handle_mismatch-Then s root q =
      elim (Bool-cases
        (ltb q.depth max_depth && ltb edit_set_threshold (query_prefix root q.prefix q.depth).1)) [
          | inl e ↦ rw (handle_mismatch, e) (refl, tt)
          | inr e ↦ rw (handle_mismatch, e) (refl, tt)
        ]

  handle_trie_response-Then :
      (s : Session) (q : Query) (matches : Bool)
      → Then s.received_edits NoEdits (handle_trie_response Float s q matches)
  unfolding handle_trie_response drain_queue
  handle_trie_response-Then s q true = drain-Then NoEdits s nothing s.query_queue tt (λ msg. tt)
  handle_trie_response-Then s q false = elim (Option-cases (build_trie s.local_hashes)) [
    | inl e ↦ rw (handle_trie_response, e, ◌>>=◌) tt
    | inr (root, e) ↦ rw (handle_trie_response, e, ◌>>=◌) (handle_mismatch-Then s root q)
  ]

  buffered-ReturnsAll : (es : List Edit) → ReturnsAll es (buffered Float es)
  buffered-ReturnsAll [] = refl
  buffered-ReturnsAll (e ∷ es) = refl

  receive-Then :
      (s : Session) (msg : Message Float)
      → let all = with_batch s.received_edits msg in
        Then all (Returns all msg) (receive Float s msg)
  unfolding receive handle_trie_query handle_edit_set handle_edit_batch drain_queue
  receive-Then s (reconcile_start channel fp n) = handle_reconcile_start-Then s fp n
  receive-Then s (trie_query channel prefix depth fp n) =
      elim (Option-cases (build_trie s.local_hashes)) [
        | inl e ↦ rw (receive, handle_trie_query, e, ◌>>=◌) tt
        | inr (root, e) ↦ rw (receive, handle_trie_query, e, ◌>>=◌) (refl, tt)
      ]
  receive-Then s (trie_response channel prefix depth fp matches) =
      handle_trie_response-Then s (record { prefix = prefix; depth = depth }) matches
  receive-Then s (edit_set channel prefix depth hashes) =
      elim (Option-cases (build_trie s.local_hashes)) [
        | inl e ↦ rw (receive, handle_edit_set, e, ◌>>=◌) tt
        | inr (root, e) ↦ rw (receive, handle_edit_set, e, ◌>>=◌) (refl, tt)
      ]
  receive-Then s (edit_batch channel es) =
      let all = s.received_edits ++ es in
      drain-Then (ReturnsAll all) (with_edits s es) (buffered Float all) s.query_queue
        (buffered-ReturnsAll all) (λ msg. tt)
  receive-Then s (full_state channel snapshot) = (refl, refl)
  receive-Then s (snapshot_catalog entries tip) = tt
  receive-Then s (snapshot_request cids) = tt
  receive-Then s (snapshot_block cid block offset total is_last) = tt

  -- A history has a result: the session's buffer, and the answers.
  abbrev pub Buffers : List Edit → Session → List (Message Float) → Type 0
  Buffers so_far s msgs =
      (end : Session) × (replies : List (Reply Float)) × (receive_all s msgs ≡ some (end, replies))
      × (end.received_edits ≡ batches so_far msgs)
      × ReturnsEach so_far msgs replies

  buffers :
      (so_far : List Edit) (s : Session) (msgs : List (Message Float))
      → IsSession s
      → s.received_edits ≡ so_far
      → All (IsShallow Float) msgs
      → Buffers so_far s msgs
  buffers so_far s [] h own k = (s, [], refl, own, tt)
  buffers so_far s (msg ∷ msgs) h own k =
      let (s', reply, e, h', answer) = receive-Answers Float s msg h k.0 in
      let (now, returns) =
        subst (λ x. Then (with_batch x msg) (Returns (with_batch x msg) msg) (some (s', reply))) own
          (subst
            (Then (with_batch s.received_edits msg) (Returns (with_batch s.received_edits msg) msg))
            e (receive-Then s msg)) in
      let (end, replies, e', last, each) = buffers (with_batch so_far msg) s' msgs h' now k.1 in
      (end, reply ∷ replies, rw (e, e', ◌>>=◌) refl, last, (returns, each))

  -- A new session of SHA-256 digests, and any messages of the reconciliation, none deeper than
  -- MAX_DEPTH: none throws; at the end the session has buffered the edits of all batches of the
  -- history, in order. A batch is answered by a message, by all the edits of the batches so far, its
  -- own included, or, where those are none, by null; a full state by itself as an edit; and every
  -- other message, a TRIE_RESPONSE too, by a message or null: it never returns the edits, whatever the
  -- session has buffered.
  pub create_session-Buffers :
      (hashes : List Bytes) (fingerprint : Bytes) (channel : String) (snapshot : Option Bytes)
      (msgs : List (Message Float))
      → All IsHash hashes
      → All (IsShallow Float) msgs
      → Buffers [] (create_session hashes fingerprint channel snapshot) msgs
  unfolding create_session
  create_session-Buffers hashes fingerprint channel snapshot msgs h =
      buffers [] (create_session hashes fingerprint channel snapshot) msgs (h, tt) refl
