-- ===== src/Sync/Session/Coverage.antt =====
-- packages/sync/src/reconciliation/session.ts: which subtrees a search of two sessions settles.
pub mod Settled
use pokapali.Prelude.{
  ℕ, zero, suc, ◌+◌, ◌<◌, ◌≤◌, ◌≡◌, refl, sym, ap, ◌∙◌, subst, inl, inr, ◌⊎◌, Bool, true, false,
  ◌&&◌, Option, none, some, some_inj, ◌>>=◌, List, [], ◌∷◌, ◌++◌, ◌==◌, ltb, ltb→lt, if◌then◌else◌,
  Bool-cases, set_has, arith,
}
use pokapali.Facts.Types.{Bytes}
use pokapali.Wire.{All}
use pokapali.Sync.Messages.{
  Edit, Message, reconcile_start, trie_query, trie_response, edit_set, edit_batch, full_state,
  snapshot_catalog, snapshot_request, snapshot_block,
}
use pokapali.Sync.Trie.{
  Trie, build_trie, query_prefix, gather, bytes_equal, collect_hashes, get_bit, same_bits,
}
use pokapali.Sync.Trie.Bits.{bytes_eq, IsHash}
use pokapali.Sync.Session.{
  max_depth, edit_set_threshold, Query, Session, half, Reply, message, edits, nothing, query,
  with_queue, with_edits, Result, drain, drain_queue, handle_trie_query, go_deeper, handle_mismatch,
  handle_trie_response, handle_edit_set, edits_to_send, buffered, handle_edit_batch, receive,
}
use pokapali.Sync.Trie.Building.{IsTrie}
use pokapali.Sync.Session.EditSets.{range}
use pokapali.Sync.Session.Depths.{IsSession, root_of}
use pokapali.Sync.Session.Prefixes.Halves.{child_prefix-IsHash, same_bits-half}
use pokapali.Sync.Session.Progress.{
  queue_weight, message_weight, IsSearch, IsNext, Steps, handle_trie_response-Steps,
  handle_edit_batch-Steps,
}

-- The fingerprint and the count are those of the hashes' trie at the prefix.
abbrev pub Holds : List Bytes → Bytes → ℕ → Bytes → ℕ → Type 0
Holds hashes prefix depth fp n =
    (root : Trie) × (build_trie hashes ≡ some root) × (query_prefix root prefix depth ≡ (fp, n))

-- A hash is in the range of a query; of one of those that wait.
abbrev pub Covers : Bytes → Query → Type 0
Covers x q = same_bits q.depth 0 x q.prefix ≡ true

abbrev pub Waits : Bytes → List Query → Type 0
Waits x [] = ⊥
Waits x (q ∷ qs) = Covers x q ⊎ Waits x qs

abbrev pub AllPrefixes : List Query → Type 0
AllPrefixes qs = All (λ q. IsHash q.prefix) qs

module _ (Float : Type 0) where
  -- A hash is in the range of a message of the search, and the message's prefix has 32 bytes.
  abbrev pub Asks : Bytes → Message Float → Type 0
  Asks x (trie_query channel prefix depth fp n) = same_bits depth 0 x prefix ≡ true
  Asks x (edit_set channel prefix depth hashes) = same_bits depth 0 x prefix ≡ true
  Asks x (trie_response channel prefix depth fp matches) = ⊥
  Asks x (edit_batch channel es) = ⊥
  Asks x (reconcile_start channel fp n) = ⊥
  Asks x (full_state channel snapshot) = ⊥
  Asks x (snapshot_catalog entries tip) = ⊥
  Asks x (snapshot_request cids) = ⊥
  Asks x (snapshot_block cid block offset total is_last) = ⊥

  -- A question says what the local hashes have at its prefix, and a set of hashes is all the local
  -- ones with its prefix.
  abbrev pub Sends : List Bytes → Message Float → Type 0
  Sends local (edit_set channel prefix depth hashes) =
      (y : Bytes)
      → set_has y hashes ≡ (if same_bits depth 0 y prefix then set_has y local else false)
  Sends local (trie_query channel prefix depth fp n) = Holds local prefix depth fp n
  Sends local (trie_response channel prefix depth fp matches) = Unit
  Sends local (edit_batch channel es) = Unit
  Sends local (reconcile_start channel fp n) = Unit
  Sends local (full_state channel snapshot) = Unit
  Sends local (snapshot_catalog entries tip) = Unit
  Sends local (snapshot_request cids) = Unit
  Sends local (snapshot_block cid block offset total is_last) = Unit

  abbrev pub HasPrefix : Message Float → Type 0
  HasPrefix (trie_query channel prefix depth fp n) = IsHash prefix
  HasPrefix (edit_set channel prefix depth hashes) = IsHash prefix
  HasPrefix (trie_response channel prefix depth fp matches) = Unit
  HasPrefix (edit_batch channel es) = Unit
  HasPrefix (reconcile_start channel fp n) = Unit
  HasPrefix (full_state channel snapshot) = Unit
  HasPrefix (snapshot_catalog entries tip) = Unit
  HasPrefix (snapshot_request cids) = Unit
  HasPrefix (snapshot_block cid block offset total is_last) = Unit

  -- A hash is still to be settled, in a session with the local hashes: it is in the range of what is
  -- sent, or waits.
  abbrev pub Open : List Bytes → Bytes → Session × Reply Float → Type 0
  Open local x (s, message msg) =
      AllPrefixes s.query_queue
      × HasPrefix msg
      × (Asks x msg ⊎ Waits x s.query_queue)
      × Sends local msg
      × (s.local_hashes ≡ local)
  Open local x (s, edits es) = ⊥
  Open local x (s, nothing) = ⊥

  pub drain-Open :
      (x : Bytes) (s : Session) (otherwise : Reply Float) (queue : List Query)
      (z : Session × Reply Float)
      → IsSession s
      → AllPrefixes queue
      → Waits x queue
      → drain Float s otherwise queue ≡ some z
      → Open s.local_hashes x z
  unfolding drain query
  drain-Open x s otherwise [] z h hashes waits e = absurd waits
  drain-Open x s otherwise (q ∷ qs) z h hashes waits e =
      let (root, e') = root_of Float s h in
      let explicit : drain Float s otherwise (q ∷ qs)
          ≡ some (with_queue s qs, message (query Float s root q)) =
        rw (drain, e', ◌>>=◌) refl in
      subst (Open s.local_hashes x) (some_inj (sym explicit ∙ e))
        (hashes.1, hashes.0, waits, (root, e', refl), refl)

  Waits-append :
      (x : Bytes) (qs : List Query) (q : Query) → Waits x qs ⊎ Covers x q → Waits x (qs ++ (q ∷ []))
  Waits-append x [] q (inl h) = absurd h
  Waits-append x [] q (inr h) = inl h
  Waits-append x (p ∷ qs) q (inl (inl h)) = inl h
  Waits-append x (p ∷ qs) q (inl (inr h)) = inr (Waits-append x qs q (inl h))
  Waits-append x (p ∷ qs) q (inr h) = inr (Waits-append x qs q (inr h))

  AllPrefixes-append :
      (qs : List Query) (q : Query)
      → AllPrefixes qs
      → IsHash q.prefix
      → AllPrefixes (qs ++ (q ∷ []))
  AllPrefixes-append [] q h k = (k, tt)
  AllPrefixes-append (p ∷ qs) q h k = (h.0, AllPrefixes-append qs q h.1 k)

  -- The half of the prefix that has the hash, by its bit.
  halves :
      (x : Bytes) (q : Query) (b : Bool) (qs : List Query)
      → (same_bits (suc q.depth) 0 x (half q b).prefix ≡ true)
      → (same_bits (suc q.depth) 0 x (half q false).prefix ≡ true)
        ⊎ Waits x (qs ++ (half q true ∷ []))
  unfolding half
  halves x q false qs h = inl h
  halves x q true qs h = inr (Waits-append x qs (half q true) (inr h))

  go_deeper-Open :
      (x : Bytes) (s : Session) (root : Trie) (q : Query)
      → build_trie s.local_hashes ≡ some root
      → AllPrefixes s.query_queue
      → IsHash q.prefix
      → q.depth < max_depth
      → Covers x q ⊎ Waits x s.query_queue
      → Open s.local_hashes x (go_deeper Float s root q)
  unfolding go_deeper query half
  go_deeper-Open x s root q build hashes h k (inl covers) = (
    AllPrefixes-append s.query_queue (half q true) hashes
        (child_prefix-IsHash q.prefix q.depth true h),
    child_prefix-IsHash q.prefix q.depth false h,
    halves x q (get_bit x q.depth) s.query_queue (same_bits-half x q h (omega arith) covers),
    (root, build, refl),
    refl,
  )
  go_deeper-Open x s root q build hashes h k (inr waits) = (
    AllPrefixes-append s.query_queue (half q true) hashes
        (child_prefix-IsHash q.prefix q.depth true h),
    child_prefix-IsHash q.prefix q.depth false h,
    inr (Waits-append x s.query_queue (half q true) (inl waits)),
    (root, build, refl),
    refl,
  )

  pub handle_mismatch-Open :
      (x : Bytes) (s : Session) (root : Trie) (q : Query)
      → build_trie s.local_hashes ≡ some root
      → IsTrie 0 root
      → ((y : Bytes) → set_has y (gather root) ≡ set_has y s.local_hashes)
      → AllPrefixes s.query_queue
      → IsHash q.prefix
      → Covers x q ⊎ Waits x s.query_queue
      → Open s.local_hashes x (handle_mismatch Float s root q)
  unfolding handle_mismatch
  handle_mismatch-Open x s root q build trie law hashes h still =
      let all : (y : Bytes)
          → set_has y (collect_hashes root q.prefix q.depth)
            ≡ (if same_bits q.depth 0 y q.prefix then set_has y s.local_hashes else false) =
        λ y.
          range root q y trie
          ∙ ap (λ c. if same_bits q.depth 0 y q.prefix then c else false) (law y) in
      elim (Bool-cases (ltb q.depth max_depth)) [
        | inr e ↦ rw (handle_mismatch, e) (hashes, h, still, all, refl)
        | inl e ↦
            elim (Bool-cases (ltb edit_set_threshold (query_prefix root q.prefix q.depth).1)) [
              | inr g ↦ rw (handle_mismatch, e, g) (hashes, h, still, all, refl)
              | inl g ↦
                  rw (handle_mismatch, e, g)
                    (go_deeper-Open x s root q build hashes h (ltb→lt q.depth max_depth e) still)
            ]
      ]
