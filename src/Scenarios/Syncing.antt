-- ===== src/Scenarios/Syncing.antt =====
-- Concrete hashes, sessions and messages of a reconciliation.
use pokapali.Prelude.{
  ℕ, zero, suc, inl, ◌≡◌, refl, true, false, not, none, some, List, [], ◌∷◌, ◌++◌, if◌then◌else◌,
  set_has, map_get, arith,
}
use pokapali.Facts.Types.{Bytes}
use pokapali.Wire.{IsBytes, All}
use pokapali.Wire.Sample.{sample}
use pokapali.Sync.Messages.{
  Edit, Message, trie_query, trie_response, edit_batch, encode_message, decode_message,
}
use pokapali.Sync.Messages.RoundTrip.{decode_message-encode_message}
use pokapali.Sync.Trie.{
  Trie, query_prefix, leaf, zeros, zero_32, build_internal, build_trie, gather, collect_hashes,
  same_bits, get_bit,
}
use pokapali.Sync.Trie.Bits.{bytes_eq, IsHash}
use pokapali.Sync.Trie.Building.{IsTrie, one_bit, build_internal-IsTrie}
use pokapali.Sync.Trie.Building.Inserting.{build_trie-builds}
use pokapali.Sync.Trie.Ranges.{in_range, collect_hashes-in_range}
use pokapali.Sync.Session.{Query, Session, create_session, message, handle_edit_set, receive}
use pokapali.Sync.Snapshots.{Exchange, serve, receive_blocks}
use pokapali.Sync.Snapshots.Reassembly.Serving.{Whole, receive_blocks-serve}
use pokapali.Sync.Session.Batches.{Buffers, create_session-Buffers}
use pokapali.Sync.Session.Coverage.Settled.{Settled, trace, trace-Settled}
use pokapali.Sync.Session.EditSets.{payloads, handle_edit_set-sends}
use pokapali.Sync.Session.Depths.{Answers, receive-Answers}
use pokapali.Sync.Session.Progress.Rounds.{Ends, exchange, exchange-Ends}

abbrev some_query : Message sample.Float
unfolding sample
some_query = trie_query "content" (1 ∷ 2 ∷ []) 9 (3 ∷ []) 4

decode_message-encode_message_example :
    decode_message sample (encode_message sample some_query ++ (9 ∷ [])) ≡ some some_query
unfolding sample some_query
decode_message-encode_message_example = decode_message-encode_message sample some_query (9 ∷ []) (
  ((omega arith, (omega arith, tt)), omega arith),
  omega arith,
  ((omega arith, tt), omega arith),
  omega arith,
)

zeros-IsBytes : (n : ℕ) → IsBytes (zeros n)
unfolding zeros
zeros-IsBytes zero = tt
zeros-IsBytes (suc n) = (omega arith, zeros-IsBytes n)

-- A hash whose first bit is 1, the others being 0.
abbrev high : Bytes
unfolding zeros
high = 128 ∷ zeros 31

zero_32-IsHash : IsHash zero_32
unfolding zeros
zero_32-IsHash = (refl, zeros-IsBytes 32)

high-IsHash : IsHash high
unfolding zeros high
high-IsHash = (refl, (omega arith, zeros-IsBytes 31))

abbrev two_hashes : List Bytes
two_hashes = zero_32 ∷ high ∷ []

two_hashes-AllHash : All IsHash two_hashes
two_hashes-AllHash = (zero_32-IsHash, (high-IsHash, tt))

build_trie-builds_example :
    (t : Trie) × (build_trie two_hashes ≡ some t)
    × IsTrie 0 t
    × ((x : Bytes) → set_has x (gather t) ≡ set_has x two_hashes)
build_trie-builds_example = build_trie-builds two_hashes two_hashes-AllHash

abbrev fork : Trie
unfolding build_internal
fork = build_internal (leaf zero_32) (leaf high)

fork-IsTrie : IsTrie 0 fork
unfolding get_bit zeros gather fork build_internal high
fork-IsTrie =
    build_internal-IsTrie 0 (leaf zero_32) (leaf high) (one_bit zero_32 0 false refl)
      (one_bit high 0 true refl) zero_32-IsHash high-IsHash

collect_hashes-in_range_example : collect_hashes fork high 1 ≡ in_range high 1 (gather fork)
collect_hashes-in_range_example = collect_hashes-in_range fork high 1 fork-IsTrie

abbrev peer : Session
unfolding create_session
peer = create_session two_hashes high "content" none

abbrev other_peer : Session
unfolding create_session
other_peer = create_session (high ∷ []) high "content" none

abbrev whole : Query
whole = record { prefix = zero_32; depth = 0 }

handle_edit_set-sends_example :
    (es : List Edit) × (handle_edit_set ℕ peer whole (high ∷ [])
      ≡ some (peer, message (edit_batch "content" es)))
    × ((x : Bytes)
        → set_has x (payloads es) ≡ (
            if not (set_has x (high ∷ []))
            then (if same_bits 0 0 x zero_32 then set_has x two_hashes else false)
            else false))
unfolding create_session peer other_peer
handle_edit_set-sends_example = handle_edit_set-sends ℕ peer whole (high ∷ []) two_hashes-AllHash

receive-Answers_example : Answers ℕ (receive ℕ peer (trie_response "content" zero_32 3 high false))
unfolding create_session peer other_peer
receive-Answers_example =
    receive-Answers ℕ peer (trie_response "content" zero_32 3 high false) (two_hashes-AllHash, tt)
      (omega arith)

exchange-Ends_example :
    Ends ℕ (exchange ℕ 7 peer other_peer (trie_query "content" zero_32 15 high 2))
unfolding create_session peer other_peer
exchange-Ends_example =
    exchange-Ends ℕ 7 peer other_peer (trie_query "content" zero_32 15 high 2)
      (two_hashes-AllHash, tt) ((high-IsHash, tt), tt) (omega arith) (omega arith)

-- The trie of the two hashes, and the question at a prefix of 15 bits that it gives.
abbrev two_trie : Trie
two_trie = (build_trie-builds two_hashes two_hashes-AllHash).0

abbrev question : Message ℕ
question = let (fp, n) = query_prefix two_trie zero_32 15 in trie_query "content" zero_32 15 fp n

trace-Settled_example :
    Settled ℕ peer.local_hashes other_peer.local_hashes zero_32 (trace ℕ 7 peer other_peer question)
unfolding create_session peer other_peer same_bits get_bit zeros
trace-Settled_example =
    let built = (build_trie-builds two_hashes two_hashes-AllHash).1 in
    trace-Settled ℕ 7 peer other_peer question zero_32 (two_hashes-AllHash, tt)
      ((high-IsHash, tt), tt) (omega arith)
      (tt, zero_32-IsHash, inl refl, (two_trie, built, refl), refl) (omega arith)

abbrev idle : Exchange
idle = record { pending = []; requested = []; destroyed = false }

receive_blocks-serve_example :
    Whole (1 ∷ []) (7 ∷ 8 ∷ 9 ∷ []) (receive_blocks idle (serve 2 (1 ∷ []) (some (7 ∷ 8 ∷ 9 ∷ []))))
unfolding map_get
receive_blocks-serve_example =
    receive_blocks-serve idle (1 ∷ []) 2 7 (8 ∷ 9 ∷ []) refl (omega arith) refl

abbrev one_edit : List Edit
one_edit = record { payload = 5 ∷ []; signature = 6 ∷ [] } ∷ []

-- A mismatch at the root, a batch of edits, and an answer that a half agrees.
abbrev history : List (Message ℕ)
history =
    trie_response "content" zero_32 0 high false
    ∷ edit_batch "content" one_edit
    ∷ trie_response "content" high 1 high true
    ∷ []

create_session-Buffers_example :
    Buffers ℕ [] (create_session two_hashes high "content" none) history
create_session-Buffers_example =
    create_session-Buffers ℕ two_hashes high "content" none history two_hashes-AllHash
      (omega arith, (tt, (omega arith, tt)))
