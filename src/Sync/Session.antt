-- ===== src/Sync/Session.antt =====
-- packages/sync/src/reconciliation/session.ts: one peer's side of a reconciliation.
pub mod Batches
pub mod Coverage
pub mod Prefixes
pub mod Depths
pub mod EditSets
pub mod Progress
use Prim.Native.Nat.{bit_and, bit_or}
use pokapali.Prelude.{
  ℕ, zero, suc, ◌+◌, ◌-◌, ◌/◌, ◌%◌, ◌^◌, String, Bool, true, false, not, ◌&&◌, Option, none, some,
  ◌>>=◌, List, [], ◌∷◌, ◌++◌, map, length, leb, ltb, ◌==◌, if◌then◌else◌, set_has,
}
use pokapali.Facts.Types.{Bytes}
use pokapali.Sync.Messages.{
  Edit, Message, reconcile_start, trie_query, trie_response, edit_set, edit_batch, full_state,
  snapshot_catalog, snapshot_request, snapshot_block,
}
use pokapali.Sync.Trie.{
  Trie, zeros, zero_32, fingerprint, edit_count, bytes_equal, byte_at, build_trie, collect_hashes,
  query_prefix, select,
}
use pokapali.Sync.Trie.Bits.{bytes_eq}

abbrev pub max_depth : ℕ
max_depth = 16

abbrev pub edit_set_threshold : ℕ
edit_set_threshold = 10

pub record Query : Type 0 where
  pub prefix : Bytes
  pub depth : ℕ

-- The variables that `createSession` closes over, less the random id and the trie, which is built
-- from the local hashes once and then kept: they do not change.
pub record Session : Type 0 where
  pub local_hashes : List Bytes
  pub local_fingerprint : Bytes
  pub channel : String
  pub local_snapshot : Option Bytes
  pub query_queue : List Query
  pub received_edits : List Edit

unfoldable pub create_session : List Bytes → Bytes → String → Option Bytes → Session
create_session local_hashes local_fingerprint channel local_snapshot = record {
  local_hashes = local_hashes;
  local_fingerprint = local_fingerprint;
  channel = channel;
  local_snapshot = local_snapshot;
  query_queue = [];
  received_edits = [];
}

-- `out[i] = …`, which a typed array ignores past its end.
unfoldable pub set_byte : Bytes → ℕ → ℕ → Bytes
set_byte [] i value = []
set_byte (b ∷ bs) zero value = value ∷ bs
set_byte (b ∷ bs) (suc i) value = b ∷ set_byte bs i value

-- `childPrefix`: the bit at `depth` is set, or cleared.
unfoldable pub child_prefix : Bytes → ℕ → Bool → Bytes
unfolding byte_at set_byte
child_prefix prefix depth true =
    set_byte prefix (depth / 8) (bit_or (byte_at prefix (depth / 8)) (2 ^ (7 - depth % 8)))
child_prefix prefix depth false =
    set_byte prefix (depth / 8) (bit_and (byte_at prefix (depth / 8)) (255 - 2 ^ (7 - depth % 8)))

unfoldable pub half : Query → Bool → Query
unfolding child_prefix
half q bit = record { prefix = child_prefix q.prefix q.depth bit; depth = suc q.depth }

-- `hexHash`: a string of hexadecimal digits, as the list of them.
unfoldable pub hex_hash : Bytes → List ℕ
hex_hash [] = []
hex_hash (b ∷ bs) = b / 16 ∷ b % 16 ∷ hex_hash bs

abbrev pub as_edit : Bytes → Edit
as_edit hash = record { payload = hash; signature = [] }

-- The loop of `handleEditSet`: the hashes in range that the remote's set does not have.
unfoldable pub edits_to_send : List Bytes → List Bytes → List Edit
unfolding hex_hash select set_has map
edits_to_send remote in_range =
    let remote_set = map hex_hash remote in
    map as_edit (select (λ h. not (set_has (hex_hash h) remote_set)) in_range)

abbrev pub with_queue : Session → List Query → Session
with_queue s queue = record s { query_queue = queue }

abbrev pub with_edits : Session → List Edit → Session
with_edits s es = record s { received_edits = s.received_edits ++ es }

-- What `receive` returns: a message, edits, or null.
pub data Reply (Float : Type 0) : Type 0 where
  message : (msg : Message Float) → Reply Float
  edits : (es : List Edit) → Reply Float
  nothing : Reply Float

module _ (Float : Type 0) where
  unfoldable pub initiate : Session → Message Float
  initiate s = reconcile_start s.channel s.local_fingerprint (length s.local_hashes)

  -- The query of a prefix, with what the trie has there.
  unfoldable pub query : Session → Trie → Query → Message Float
  unfolding query_prefix
  query s root q =
      let (fp, n) = query_prefix root q.prefix q.depth in trie_query s.channel q.prefix q.depth fp n

  -- The `none` of `receive` and of its parts is a throw.
  abbrev pub Result : Type 0
  Result = Option (Session × Reply Float)

  -- `drainQueue`, and what is returned when the queue is empty.
  unfoldable pub drain : Session → Reply Float → List Query → Result
  unfolding query build_trie
  drain s otherwise [] = some (s, otherwise)
  drain s otherwise (next ∷ queue) = do
    root ← build_trie s.local_hashes
    some (with_queue s queue, message (query s root next))

  unfoldable pub drain_queue : Session → Reply Float → Result
  unfolding drain
  drain_queue s otherwise = drain s otherwise s.query_queue

  -- The start of the search at the root.
  unfoldable pub start_search : Session → Result
  unfolding build_trie fingerprint edit_count zeros
  start_search s = do
    root ← build_trie s.local_hashes
    some (s, message (trie_query s.channel zero_32 0 (fingerprint root) (edit_count root)))

  -- A late joiner is sent the full state, if there is a snapshot.
  unfoldable pub late_joiner : Session → Option Bytes → Result
  unfolding start_search
  late_joiner s none = start_search s
  late_joiner s (some snapshot) = some (s, message (full_state s.channel snapshot))

  unfoldable pub handle_reconcile_start : Session → Bytes → ℕ → Result
  unfolding late_joiner start_search bytes_equal
  handle_reconcile_start s fp n =
      if bytes_equal fp s.local_fingerprint && (n == length s.local_hashes)
      then some (s, nothing)
      else if n == 0
      then late_joiner s s.local_snapshot
      else start_search s

  unfoldable pub handle_trie_query : Session → Query → Bytes → ℕ → Result
  unfolding build_trie query_prefix bytes_equal
  handle_trie_query s q fp n = do
    root ← build_trie s.local_hashes
    let (local_fp, local_n) = query_prefix root q.prefix q.depth in
        some (
          s,
          message (
              trie_response s.channel q.prefix q.depth local_fp
                (bytes_equal local_fp fp && (local_n == n))),
        )

  -- A mismatch in a large subtree: the right half is queued, and the left is queried.
  unfoldable pub go_deeper : Session → Trie → Query → Session × Reply Float
  unfolding query half
  go_deeper s root q =
      (with_queue s (s.query_queue ++ (half q true ∷ [])), message (query s root (half q false)))

  unfoldable pub handle_mismatch : Session → Trie → Query → Session × Reply Float
  unfolding go_deeper collect_hashes query_prefix
  handle_mismatch s root q =
      if ltb q.depth max_depth && ltb edit_set_threshold (query_prefix root q.prefix q.depth).1
      then go_deeper s root q
      else (s, message (edit_set s.channel q.prefix q.depth (collect_hashes root q.prefix q.depth)))

  unfoldable pub handle_trie_response : Session → Query → Bool → Result
  unfolding drain_queue handle_mismatch build_trie
  handle_trie_response s q true = drain_queue s nothing
  handle_trie_response s q false = do
    root ← build_trie s.local_hashes
    some (handle_mismatch s root q)

  unfoldable pub handle_edit_set : Session → Query → List Bytes → Result
  unfolding build_trie collect_hashes edits_to_send
  handle_edit_set s q hashes = do
    root ← build_trie s.local_hashes
    some (
      s,
      message (edit_batch s.channel (edits_to_send hashes (collect_hashes root q.prefix q.depth))),
    )

  -- `receivedEdits.length > 0 ? [...receivedEdits] : null`
  abbrev pub buffered : List Edit → Reply Float
  buffered [] = nothing
  buffered (e ∷ es) = edits (e ∷ es)

  unfoldable pub handle_edit_batch : Session → List Edit → Result
  unfolding drain_queue
  handle_edit_batch s es =
      let next = with_edits s es in drain_queue next (buffered next.received_edits)

  unfoldable pub receive : Session → Message Float → Result
  unfolding handle_reconcile_start handle_trie_query handle_trie_response handle_edit_set
      handle_edit_batch
  receive s (reconcile_start channel fp n) = handle_reconcile_start s fp n
  receive s (trie_query channel prefix depth fp n) =
      handle_trie_query s (record { prefix = prefix; depth = depth }) fp n
  receive s (trie_response channel prefix depth fp matches) =
      handle_trie_response s (record { prefix = prefix; depth = depth }) matches
  receive s (edit_set channel prefix depth hashes) =
      handle_edit_set s (record { prefix = prefix; depth = depth }) hashes
  receive s (edit_batch channel es) = handle_edit_batch s es
  receive s (full_state channel snapshot) = some (s, edits (as_edit snapshot ∷ []))
  receive s (snapshot_catalog entries tip) = none
  receive s (snapshot_request cids) = none
  receive s (snapshot_block cid block offset total is_last) = none
