-- ===== src/Sync/Session/Coverage/Settled.antt =====
-- packages/sync/src/reconciliation/session.ts: the questions and answers of a search.
use pokapali.Prelude.{
  ap₂, and_true, ℕ, zero, suc, ◌+◌, ◌<◌, ◌≡◌, refl, sym, ◌∙◌, subst, inl, inr, ◌⊎◌, Bool, true,
  false, ◌&&◌, none, some, some_inj, ◌>>=◌, List, [], ◌∷◌, ◌++◌, ◌==◌, Bool-cases, if◌then◌else◌,
  set_has, arith,
}
use pokapali.Facts.Types.{Bytes}
use pokapali.Sync.Messages.{
  Message, reconcile_start, trie_query, trie_response, edit_set, edit_batch, full_state,
  snapshot_catalog, snapshot_request, snapshot_block,
}
use pokapali.Sync.Trie.{Trie, build_trie, query_prefix, bytes_equal, collect_hashes, same_bits}
use pokapali.Sync.Trie.Bits.{bytes_eq, bytes_equal_iff, IsHash}
use pokapali.Sync.Session.{
  Query, Session, Reply, message, edits, nothing, with_edits, drain_queue, handle_trie_query,
  handle_mismatch, handle_trie_response, handle_edit_set, edits_to_send, buffered,
  handle_edit_batch, receive,
}
use pokapali.Sync.Trie.Building.Inserting.{build_trie-builds}
use pokapali.Sync.Session.Depths.{IsSession, root_of}
use pokapali.Sync.Session.Progress.{
  left_at, queue_weight, message_weight, IsSearch, IsNext, handle_trie_response-Steps,
  handle_edit_batch-Steps,
}
use pokapali.Sync.Session.Progress.Rounds.{turn}
use pokapali.Sync.Session.Coverage.{
  Holds, Covers, Waits, AllPrefixes, Open, drain-Open, handle_mismatch-Open,
}

module _ (Float : Type 0) where
  -- A message of the searcher, and what the other returns.
  abbrev pub Turn : Type 0
  Turn = Message Float × Reply Float

  abbrev pub Agreement : Message Float → Type 0
  Agreement (trie_response channel prefix depth fp matches) = matches ≡ true
  Agreement (trie_query channel prefix depth fp n) = ⊥
  Agreement (edit_set channel prefix depth hashes) = ⊥
  Agreement (edit_batch channel es) = ⊥
  Agreement (reconcile_start channel fp n) = ⊥
  Agreement (full_state channel snapshot) = ⊥
  Agreement (snapshot_catalog entries tip) = ⊥
  Agreement (snapshot_request cids) = ⊥
  Agreement (snapshot_block cid block offset total is_last) = ⊥

  abbrev pub Agreed : Reply Float → Type 0
  Agreed (message msg) = Agreement msg
  Agreed (edits es) = ⊥
  Agreed nothing = ⊥

  -- The hash is in the range of a prefix that the other says agrees, and where both hold the same, or of
  -- one all of whose local hashes it was sent.
  abbrev pub Settles : List Bytes → List Bytes → Bytes → Turn → Type 0
  Settles local remote x (trie_query channel prefix depth fp n, reply) =
      (same_bits depth 0 x prefix ≡ true)
      × Agreed reply
      × Holds local prefix depth fp n
      × Holds remote prefix depth fp n
  Settles local remote x (edit_set channel prefix depth hashes, reply) =
      (same_bits depth 0 x prefix ≡ true)
      × ((y : Bytes)
          → set_has y hashes ≡ (if same_bits depth 0 y prefix then set_has y local else false))
  Settles local remote x (trie_response channel prefix depth fp matches, reply) = ⊥
  Settles local remote x (edit_batch channel es, reply) = ⊥
  Settles local remote x (reconcile_start channel fp n, reply) = ⊥
  Settles local remote x (full_state channel snapshot, reply) = ⊥
  Settles local remote x (snapshot_catalog entries tip, reply) = ⊥
  Settles local remote x (snapshot_request cids, reply) = ⊥
  Settles local remote x (snapshot_block cid block offset total is_last, reply) = ⊥

  abbrev pub Settled : List Bytes → List Bytes → Bytes → List Turn → Type 0
  Settled local remote x [] = ⊥
  Settled local remote x (t ∷ ts) = Settles local remote x t ⊎ Settled local remote x ts

  abbrev pub continue :
      (Session → Session → Message Float → List Turn) → Session → Session → Reply Float → List Turn
  continue go s r (message msg) = go s r msg
  continue go s r (edits es) = []
  continue go s r nothing = []

  -- The messages of an exchange, on the fuel of its rounds.
  unfoldable pub trace : ℕ → Session → Session → Message Float → List Turn
  trace zero s r msg = []
  trace (suc fuel) s r msg = elim (receive Float r msg) [
    | none ↦ []
    | some (r', reply) ↦ (msg, reply) ∷ elim (turn Float s r' reply) [
      | none ↦ []
      | some (s', r'', next) ↦ continue (trace fuel) s' r'' next
    ]
  ]

  trace-next :
      (fuel : ℕ) (s r : Session) (msg answer : Message Float) (s' : Session) (reply : Reply Float)
      → receive Float r msg ≡ some (r, message answer)
      → receive Float s answer ≡ some (s', reply)
      → trace (suc fuel) s r msg ≡ (msg, message answer) ∷ continue (trace fuel) s' r reply
  unfolding trace turn
  trace-next fuel s r msg answer s' reply e e' = rw (trace, e, turn, e', ◌>>=◌) refl

  continue-Settled :
      (fuel bound : ℕ) (local remote : List Bytes) (x : Bytes) (s r : Session) (reply : Reply Float)
      → Open Float local x (s, reply)
      → IsNext Float bound s reply
      → ((m : Message Float)
          → Open Float local x (s, message m)
          → IsNext Float bound s (message m)
          → Settled local remote x (trace fuel s r m))
      → Settled local remote x (continue (trace fuel) s r reply)
  continue-Settled fuel bound local remote x s r (message m) still next go = go m still next
  continue-Settled fuel bound local remote x s r (edits es) still next go = absurd still
  continue-Settled fuel bound local remote x s r nothing still next go = absurd still

  handle_trie_response-Open :
      (x : Bytes) (s : Session) (q : Query) (z : Session × Reply Float) (matches : Bool)
      → IsSession s
      → AllPrefixes s.query_queue
      → IsHash q.prefix
      → (Covers x q × (matches ≡ false)) ⊎ Waits x s.query_queue
      → handle_trie_response Float s q matches ≡ some z
      → Open Float s.local_hashes x z
  unfolding handle_trie_response drain_queue
  handle_trie_response-Open x s q z true h hashes k (inl (covers, bad)) e = cc
  handle_trie_response-Open x s q z true h hashes k (inr waits) e =
      drain-Open Float x s nothing s.query_queue z h hashes waits e
  handle_trie_response-Open x s q z false h hashes k still e =
      let (root, e', trie, law) = build_trie-builds s.local_hashes h.0 in
      let explicit : handle_trie_response Float s q false ≡ some (handle_mismatch Float s root q) =
        rw (e', ◌>>=◌) refl in
      subst (Open Float s.local_hashes x) (some_inj (sym explicit ∙ e))
        (handle_mismatch-Open Float x s root q e' trie law hashes k (drop_reason still))
    where
      drop_reason : {A B C : Type 0} → (A × B) ⊎ C → A ⊎ C
      drop_reason (inl (a, b)) = inl a
      drop_reason (inr c) = inr c

  agrees :
      (root : Trie) (fp : Bytes) (n : ℕ) (prefix : Bytes) (depth : ℕ) (hashes : List Bytes)
      → build_trie hashes ≡ some root
      → let (local_fp, local_n) = query_prefix root prefix depth in
        (bytes_equal local_fp fp && (local_n == n)) ≡ true → Holds hashes prefix depth fp n
  agrees root fp n prefix depth hashes e h =
      let (local_fp, local_n) = query_prefix root prefix depth in
      let (same_fp, same_n) = and_true (bytes_equal local_fp fp) (local_n == n) h in
      (root, e, ap₂ (λ a b. (a, b)) ((bytes_equal_iff local_fp fp).0 same_fp) (ground arith))

  trace_all :
      (fuel : ℕ) (s r : Session) (msg : Message Float) (local : List Bytes) (x : Bytes)
      → IsSession s
      → IsSession r
      → IsSearch Float msg
      → Open Float local x (s, message msg)
      → message_weight Float msg + queue_weight s.query_queue < fuel
      → Settled local r.local_hashes x (trace fuel s r msg)
  unfolding receive handle_trie_query handle_edit_set handle_edit_batch drain_queue
  trace_all zero s r msg local x h k search still lt = absurd (omega arith)
  trace_all (suc fuel) s r (trie_query channel prefix depth fp n) local x h k search still lt =
      let (prefixes, has_prefix, where_open, sends, own) = still in
      let q : Query = record { prefix = prefix; depth = depth } in
      let (root, e) = root_of Float r k in
      let (local_fp, local_n) = query_prefix root prefix depth in
      let matches = bytes_equal local_fp fp && (local_n == n) in
      let (s', reply, e', h', next) = handle_trie_response-Steps Float s q matches h search in
      let answer : Message Float = trie_response r.channel prefix depth local_fp matches in
      let bound = left_at depth + queue_weight s.query_queue in
      let go : (m : Message Float)
          → Open Float local x (s', message m)
          → IsNext Float bound s' (message m)
          → Settled local r.local_hashes x (trace fuel s' r m) =
        λ m still' next'.
          trace_all fuel s' r m local x h' k next'.0 still' (omega (arith, next'.1)) in
      let rest : (Covers x q × (matches ≡ false)) ⊎ Waits x s.query_queue
          → Settled local r.local_hashes x (continue (trace fuel) s' r reply) =
        λ why.
          continue-Settled fuel bound local r.local_hashes x s' r reply
            (subst (λ l. Open Float l x (s', reply)) own
              (handle_trie_response-Open x s q (s', reply) matches h prefixes has_prefix why e'))
            next go in
      subst (Settled local r.local_hashes x)
        (sym (
          trace-next fuel s r (trie_query channel prefix depth fp n) answer s' reply
            (rw (e, ◌>>=◌) refl) e'))
        (elim where_open [
          | inr waits ↦ inr (rest (inr waits))
          | inl covers ↦ elim (Bool-cases matches) [
            | inl agreed ↦
                inl (covers, agreed, sends, agrees root fp n prefix depth r.local_hashes e agreed)
            | inr differs ↦ inr (rest (inl (covers, differs)))
          ]
        ])
  trace_all (suc fuel) s r (edit_set channel prefix depth hashes) local x h k search still lt =
      let (prefixes, has_prefix, where_open, sends, own) = still in
      let (root, e) = root_of Float r k in
      let es = edits_to_send hashes (collect_hashes root prefix depth) in
      let (s', reply, e', h', next) = handle_edit_batch-Steps Float s es h in
      let answer : Message Float = edit_batch r.channel es in
      let bound = 1 + queue_weight s.query_queue in
      let go : (m : Message Float)
          → Open Float local x (s', message m)
          → IsNext Float bound s' (message m)
          → Settled local r.local_hashes x (trace fuel s' r m) =
        λ m still' next'.
          trace_all fuel s' r m local x h' k next'.0 still' (omega (arith, next'.1)) in
      subst (Settled local r.local_hashes x)
        (sym (
          trace-next fuel s r (edit_set channel prefix depth hashes) answer s' reply
            (rw (e, ◌>>=◌) refl) e'))
        (elim where_open [
          | inl covers ↦ inl (covers, sends)
          | inr waits ↦ inr (
              continue-Settled fuel bound local r.local_hashes x s' r reply
                (subst (λ l. Open Float l x (s', reply)) own
                  (drain-Open Float x (with_edits s es) (buffered Float (s.received_edits ++ es))
                    s.query_queue (s', reply) h prefixes waits e'))
                next go)
        ])
  trace_all (suc fuel) s r (trie_response channel prefix depth fp matches) local x h k search still
        lt =
      absurd search
  trace_all (suc fuel) s r (edit_batch channel es) local x h k search still lt = absurd search
  trace_all (suc fuel) s r (reconcile_start channel fp n) local x h k search still lt =
      absurd search
  trace_all (suc fuel) s r (full_state channel snapshot) local x h k search still lt = absurd search
  trace_all (suc fuel) s r (snapshot_catalog entries tip) local x h k search still lt =
      absurd search
  trace_all (suc fuel) s r (snapshot_request cids) local x h k search still lt = absurd search
  trace_all (suc fuel) s r (snapshot_block cid block offset total is_last) local x h k search still
        lt =
      absurd search

  -- Two sessions whose local hashes are SHA-256 digests, no query or message deeper than MAX_DEPTH,
  -- the prefixes of 32 bytes, a message that is the set of all the searcher's hashes with its prefix or
  -- a question that says their fingerprint and count, and more rounds than the weight of the message
  -- and of the searcher's queue: every hash in the range of the message, or of a query in that queue,
  -- is settled by a turn of the exchange. Either the other says that a prefix of the hash agrees, and
  -- both have the same fingerprint and count there, or it is sent a set, for such a prefix, of exactly
  -- the searcher's local hashes that start with the prefix.
  pub trace-Settled :
      (fuel : ℕ) (s r : Session) (msg : Message Float) (x : Bytes)
      → IsSession s
      → IsSession r
      → IsSearch Float msg
      → Open Float s.local_hashes x (s, message msg)
      → message_weight Float msg + queue_weight s.query_queue < fuel
      → Settled s.local_hashes r.local_hashes x (trace fuel s r msg)
  trace-Settled fuel s r msg x = trace_all fuel s r msg s.local_hashes x
