-- ===== src/Sync/Session/Progress/Rounds.antt =====
-- packages/sync/src/reconciliation/session.ts: two sessions that pass messages back and forth.
use pokapali.Prelude.{
  ℕ, zero, suc, ◌+◌, ◌<◌, ◌≡◌, refl, subst, ◌&&◌, Option, none, some, ◌>>=◌, ◌==◌, arith,
}
use pokapali.Sync.Messages.{
  Message, reconcile_start, trie_query, trie_response, edit_set, edit_batch, full_state,
  snapshot_catalog, snapshot_request, snapshot_block,
}
use pokapali.Sync.Trie.{query_prefix, bytes_equal, collect_hashes}
use pokapali.Sync.Session.{
  Session, Reply, message, edits, nothing, handle_trie_query, handle_edit_set, edits_to_send,
  receive,
}
use pokapali.Sync.Session.Depths.{IsSession, root_of}
use pokapali.Sync.Session.Progress.{
  queue_weight, message_weight, IsSearch, IsNext, Steps, handle_trie_response-Steps,
  handle_edit_batch-Steps,
}

module _ (Float : Type 0) where
  abbrev pub Both : Type 0
  Both = Option (Session × Session × Reply Float)

  -- The searcher's turn with the other's answer.
  unfoldable pub turn : Session → Session → Reply Float → Both
  unfolding receive
  turn s r (message answer) = do step ← receive Float s answer; some (step.0, r, step.1)
  turn s r (edits es) = some (s, r, nothing)
  turn s r nothing = some (s, r, nothing)

  -- A message of the searcher `s`, the answer of `r`, and what the searcher returns.
  unfoldable pub round : Session → Session → Message Float → Both
  unfolding receive turn
  round s r msg = do step ← receive Float r msg; turn s step.0 step.1

  -- Rounds, until the searcher returns no message.
  unfoldable pub exchange : ℕ → Session → Session → Message Float → Both
  unfolding round
  exchange zero s r msg = none
  exchange (suc fuel) s r msg = elim (round s r msg) [
    | none ↦ none
    | some (s', r', reply) ↦ elim reply [
      | message next ↦ exchange fuel s' r' next
      | edits es ↦ some (s', r', edits es)
      | nothing ↦ some (s', r', nothing)
    ]
  ]

  abbrev RoundSteps : ℕ → Both → Type 0
  RoundSteps bound result =
      (s : Session) × (r : Session) × (reply : Reply Float) × (result ≡ some (s, r, reply))
      × IsSession s
      × IsSession r
      × IsNext Float bound s reply

  after_answer :
      (bound : ℕ) (s r : Session) (answer : Message Float)
      → IsSession r
      → Steps Float bound (receive Float s answer)
      → RoundSteps bound (turn s r (message answer))
  unfolding turn
  after_answer bound s r answer k steps =
      let (s', reply, e, h, next) = steps in (s', r, reply, rw (turn, e, ◌>>=◌) refl, h, k, next)

  round-RoundSteps :
      (s r : Session) (msg : Message Float)
      → IsSession s
      → IsSession r
      → IsSearch Float msg
      → RoundSteps (message_weight Float msg + queue_weight s.query_queue) (round s r msg)
  unfolding round receive handle_trie_query handle_edit_set turn
  round-RoundSteps s r (trie_query channel prefix depth fp n) h k search =
      let (root, e) = root_of Float r k in
      let (local_fp, local_n) = query_prefix root prefix depth in
      let matches = bytes_equal local_fp fp && (local_n == n) in
      rw (e, ◌>>=◌)
        (after_answer _ s r (trie_response r.channel prefix depth local_fp matches) k (
          handle_trie_response-Steps Float s (record { prefix = prefix; depth = depth }) matches h
            search))
  round-RoundSteps s r (edit_set channel prefix depth hashes) h k search =
      let (root, e) = root_of Float r k in
      let es = edits_to_send hashes (collect_hashes root prefix depth) in
      rw (e, ◌>>=◌)
        (after_answer _ s r (edit_batch r.channel es) k (handle_edit_batch-Steps Float s es h))
  round-RoundSteps s r (trie_response channel prefix depth fp matches) h k search = absurd search
  round-RoundSteps s r (edit_batch channel es) h k search = absurd search
  round-RoundSteps s r (reconcile_start channel fp n) h k search = absurd search
  round-RoundSteps s r (full_state channel snapshot) h k search = absurd search
  round-RoundSteps s r (snapshot_catalog entries tip) h k search = absurd search
  round-RoundSteps s r (snapshot_request cids) h k search = absurd search
  round-RoundSteps s r (snapshot_block cid block offset total is_last) h k search = absurd search

  -- The end of a search: edits or null.
  abbrev pub IsEnd : Reply Float → Type 0
  IsEnd (message msg) = ⊥
  IsEnd (edits es) = Unit
  IsEnd nothing = Unit

  abbrev pub Ends : Both → Type 0
  Ends result =
      (s : Session) × (r : Session) × (reply : Reply Float) × (result ≡ some (s, r, reply))
      × IsEnd reply

  finish :
      (fuel bound : ℕ) (s r : Session) (msg : Message Float) (s' r' : Session) (reply : Reply Float)
      → round s r msg ≡ some (s', r', reply)
      → IsNext Float bound s' reply
      → ((next : Message Float) → reply ≡ message next → Ends (exchange fuel s' r' next))
      → Ends (exchange (suc fuel) s r msg)
  unfolding exchange
  finish fuel bound s r msg s' r' (message next) e k rest = rw (exchange, e) (rest next refl)
  finish fuel bound s r msg s' r' (edits es) e k rest =
      rw (exchange, e) (s', r', edits es, refl, tt)
  finish fuel bound s r msg s' r' nothing e k rest = rw (exchange, e) (s', r', nothing, refl, tt)

  -- Two sessions whose local hashes are SHA-256 digests, and whose waiting queries are not deeper
  -- than MAX_DEPTH, pass a message of the search, not deeper either, and its answers back and forth:
  -- with more rounds than the weight of the message and of the searcher's queue, the exchange ends,
  -- the searcher returns edits or null, and neither throws.
  pub exchange-Ends :
      (fuel : ℕ) (s r : Session) (msg : Message Float)
      → IsSession s
      → IsSession r
      → IsSearch Float msg
      → message_weight Float msg + queue_weight s.query_queue < fuel
      → Ends (exchange fuel s r msg)
  exchange-Ends zero s r msg h k search lt = absurd (omega arith)
  exchange-Ends (suc fuel) s r msg h k search lt =
      let (s', r', reply, e, h', k', next) = round-RoundSteps s r msg h k search in
      finish fuel _ s r msg s' r' reply e next (λ m same.
        let (search', less) =
          subst (IsNext Float (message_weight Float msg + queue_weight s.query_queue) s') same
            next in
        exchange-Ends fuel s' r' m h' k' search' (omega arith))
