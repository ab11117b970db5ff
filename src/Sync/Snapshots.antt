-- ===== src/Sync/Snapshots.antt =====
-- packages/sync/src/reconciliation/snapshot-exchange.ts: how peers exchange the blocks of snapshots.
-- The signature check of a block is a parameter: its answer comes later, as a step of its own.
pub mod Reassembly
use pokapali.Prelude.{
  ℕ, zero, suc, ◌+◌, ◌-◌, min, String, Bool, true, false, Option, none, some, List, [], ◌∷◌, ◌++◌,
  length, take, drop, ltb, leb, ◌==◌, if◌then◌else◌, Map, map_get, map_set, map_delete, set_has,
  set_add, set_delete,
}
use pokapali.Facts.Types.{Bytes}
use pokapali.Sync.Messages.{
  Message, CatalogEntry, reconcile_start, trie_query, trie_response, edit_set, edit_batch,
  full_state, snapshot_catalog, snapshot_request, snapshot_block,
}
use pokapali.Sync.Trie.{zeros, bytes_equal}
use pokapali.Sync.Trie.Bits.{bytes_eq}
use pokapali.Sync.Session.{hex_hash}

abbrev pub Chunk : Type 0
Chunk = ℕ × Bytes

-- `PendingReassembly`
pub record Pending : Type 0 where
  pub cid : Bytes
  pub total : ℕ
  pub chunks : List Chunk
  pub bytes_received : ℕ

-- The variables that `createSnapshotExchange` closes over; the keys are CIDs in hexadecimal.
pub record Exchange : Type 0 where
  pub pending : Map (List ℕ) Pending
  pub requested : List (List ℕ)
  pub destroyed : Bool

-- What `getBlock` finds.
abbrev pub Blocks : Type 0
Blocks = Bytes → Option Bytes

abbrev pub is_missing : Option Bytes → Bool
is_missing none = true
is_missing (some block) = false

abbrev pub is_tip : Option Bytes → Bytes → Bool
is_tip none cid = false
is_tip (some tip) cid = bytes_equal cid tip

abbrev pub tip_first : Blocks → Option Bytes → List Bytes
tip_first get_block none = []
tip_first get_block (some tip) = if is_missing (get_block tip) then tip ∷ [] else []

-- Less the CIDs that were requested before, which are noted.
unfoldable pub dedupe : List Bytes → List (List ℕ) → List Bytes × List (List ℕ)
dedupe [] requested = ([], requested)
dedupe (cid ∷ cids) requested =
    let again = dedupe cids requested in
    let (fresh, noted) = dedupe cids (set_add (hex_hash cid) requested) in
    if set_has (hex_hash cid) requested then again else (cid ∷ fresh, noted)

-- A stable sort by descending sequence number.
module _ {Float : Type 0} where
  unfoldable pub insert_newest :
      CatalogEntry Float → List (CatalogEntry Float) → List (CatalogEntry Float)
  insert_newest e [] = e ∷ []
  insert_newest e (f ∷ fs) =
      let rest = insert_newest e fs in if ltb e.seq f.seq then f ∷ rest else e ∷ f ∷ fs

  unfoldable pub newest_first : List (CatalogEntry Float) → List (CatalogEntry Float)
  unfolding insert_newest
  newest_first [] = []
  newest_first (e ∷ es) = insert_newest e (newest_first es)

  unfoldable pub missing : Blocks → List (CatalogEntry Float) → List (CatalogEntry Float)
  missing get_block [] = []
  missing get_block (e ∷ es) =
      let rest = missing get_block es in if is_missing (get_block e.cid) then e ∷ rest else rest

  -- The loop over the missing entries, from the list that is selected so far.
  unfoldable pub select_more :
      Option Bytes → ℕ → List Bytes → List (CatalogEntry Float) → List Bytes
  select_more tip budget out [] = out
  select_more tip budget out (e ∷ es) =
      let skipped = select_more tip budget out es in
      let taken = select_more tip budget (out ++ (e.cid ∷ [])) es in
      if leb budget (length out) then out else if is_tip tip e.cid then skipped else taken

  unfoldable pub select_cids_to_request :
      List (CatalogEntry Float) → Option Bytes → Blocks → ℕ → List Bytes
  unfolding select_more newest_first missing
  select_cids_to_request entries tip get_block budget =
      select_more tip budget (tip_first get_block tip) (newest_first (missing get_block entries))

  -- `if (fresh.length === 0) return`, and else the request.
  abbrev pub request : List Bytes → List (Message Float)
  request [] = []
  request (cid ∷ cids) = snapshot_request (cid ∷ cids) ∷ []

  unfoldable pub handle_catalog :
      Blocks
      → ℕ
      → Exchange
      → List (CatalogEntry Float)
      → Option Bytes
      → Exchange × List (Message Float)
  unfolding select_cids_to_request dedupe
  handle_catalog get_block budget s entries tip =
      let (fresh, noted) =
        dedupe (select_cids_to_request entries tip get_block budget) s.requested in
      (record s { requested = noted }, request fresh)

-- A `SNAPSHOT_BLOCK` without its `last` flag, which the receiver does not read.
pub record Block : Type 0 where
  pub cid : Bytes
  pub block : Bytes
  pub offset : ℕ
  pub total : ℕ

abbrev pub nak : Bytes → Block
nak cid = record { cid = cid; block = []; offset = 0; total = 0 }

-- `block.subarray(offset, end)` with its place.
unfoldable pub chunk_at : Bytes → Bytes → (size offset : ℕ) → Block
unfolding take drop
chunk_at cid block size offset = record {
  cid = cid;
  block = take (min (offset + size) (length block) - offset) (drop offset block);
  offset = offset;
  total = length block;
}

-- The loop over the offsets of a block, on fuel: `size` is `chunkSize`.
unfoldable pub chunks_from : ℕ → Bytes → Bytes → (size offset : ℕ) → List Block
unfolding chunk_at
chunks_from zero cid block size offset = []
chunks_from (suc fuel) cid block size offset =
    let rest = chunks_from fuel cid block size (offset + size) in
    if ltb offset (length block) then chunk_at cid block size offset ∷ rest else []

-- The fuel is the length of the block: each turn takes at least a byte.
unfoldable pub serve : ℕ → Bytes → Option Bytes → List Block
unfolding chunks_from
serve size cid none = nak cid ∷ []
serve size cid (some []) = nak cid ∷ []
serve size cid (some (b ∷ bs)) = chunks_from (length (b ∷ bs)) cid (b ∷ bs) size 0

unfoldable pub serve_all : Blocks → ℕ → List Bytes → List Block
unfolding serve
serve_all get_block size [] = []
serve_all get_block size (cid ∷ cids) =
    serve size cid (get_block cid) ++ serve_all get_block size cids

-- The messages, of which the final one is marked as the last.
unfoldable pub mark_last : {Float : Type 0} → List Block → List (Message Float)
mark_last [] = []
mark_last (b ∷ []) = snapshot_block b.cid b.block b.offset b.total true ∷ []
mark_last (b ∷ c ∷ bs) = snapshot_block b.cid b.block b.offset b.total false ∷ mark_last (c ∷ bs)

unfoldable pub handle_request : {Float : Type 0} → Blocks → ℕ → List Bytes → List (Message Float)
unfolding mark_last serve_all
handle_request get_block size cids = mark_last (serve_all get_block size cids)

-- `full.set(data, offset)`, of data that fit.
unfoldable pub blit : Bytes → ℕ → Bytes → Bytes
blit [] offset bytes = []
blit (b ∷ bs) (suc offset) bytes = b ∷ blit bs offset bytes
blit (b ∷ bs) zero [] = b ∷ bs
blit (b ∷ bs) zero (d ∷ ds) = d ∷ blit bs zero ds

-- A stable sort by offset.
unfoldable pub insert_chunk : Chunk → List Chunk → List Chunk
insert_chunk c [] = c ∷ []
insert_chunk c (d ∷ ds) =
    let rest = insert_chunk c ds in if leb c.0 d.0 then c ∷ d ∷ ds else d ∷ rest

unfoldable pub by_offset : List Chunk → List Chunk
unfolding insert_chunk
by_offset [] = []
by_offset (c ∷ cs) = insert_chunk c (by_offset cs)

unfoldable pub fill : Bytes → List Chunk → Bytes
unfolding blit
fill full [] = full
fill full ((offset, bytes) ∷ chunks) = fill (blit full offset bytes) chunks

unfoldable pub assemble : ℕ → List Chunk → Bytes
unfolding fill by_offset zeros
assemble total chunks = fill (zeros total) (by_offset chunks)

-- The state of a CID, a new one if there is none.
abbrev pub or_new : Bytes → ℕ → Option Pending → Pending
or_new cid total none = record { cid = cid; total = total; chunks = []; bytes_received = 0 }
or_new cid total (some p) = p

abbrev pub with_chunk : Pending → Block → Pending
with_chunk p b = record p {
  chunks = p.chunks ++ ((b.offset, b.block) ∷ []);
  bytes_received = p.bytes_received + length b.block;
}

-- A block that waits for its verification.
abbrev pub Job : Type 0
Job = Bytes × Bytes

-- `handleBlock` up to the verification.
unfoldable pub handle_block : Exchange → Block → Exchange × List Job
unfolding assemble
handle_block s b =
    let h = hex_hash b.cid in
    let dropped = map_delete h s.pending in
    let again = set_delete h s.requested in
    let p = or_new b.cid b.total (map_get h s.pending) in
    let q = with_chunk p b in
    if b.total == 0
    then (record s { pending = dropped; requested = again }, [])
    else if ltb b.total (b.offset + length b.block)
    then (record s { pending = dropped }, [])
    else if p.total == b.total
    then if ltb q.bytes_received q.total
      then (record s { pending = map_set h q s.pending }, [])
      else (
        record s { pending = map_delete h (map_set h q s.pending) },
        (b.cid, assemble q.total q.chunks) ∷ [],
      )
    else (record s { pending = dropped; requested = again }, [])

-- `handleBlock` from the answer of the verification: the blocks that are handed to the caller.
unfoldable pub verified : Exchange → Job → Bool → Exchange × List Job
verified s (cid, full) ok =
    if s.destroyed
    then (s, [])
    else if ok
    then (s, (cid, full) ∷ [])
    else (record s { requested = set_delete (hex_hash cid) s.requested }, [])

unfoldable pub destroy : Exchange → Exchange
destroy s = record { pending = []; requested = []; destroyed = true }

-- `receive` of blocks, one after the other.
unfoldable pub receive_blocks : Exchange → List Block → Exchange × List Job
receive_blocks s [] = (s, [])
receive_blocks s (b ∷ bs) =
    let (next, jobs) = handle_block s b in
    let (final, more) = receive_blocks next bs in
    if s.destroyed then (s, []) else (final, jobs ++ more)

module _ {Float : Type 0} where
  unfoldable pub advertise :
      Exchange → List (CatalogEntry Float) → Option Bytes → List (Message Float)
  advertise s entries tip = if s.destroyed then [] else snapshot_catalog entries tip ∷ []

  abbrev of_living :
      Bool
      → Exchange
      → Exchange × List (Message Float) × List Job
      → Exchange × List (Message Float) × List Job
  of_living true s answer = (s, [], [])
  of_living false s answer = answer

  -- The exchange, the messages that are sent and the blocks to verify.
  unfoldable pub receive_snapshot :
      Blocks
      → (budget size : ℕ) → Exchange
      → Message Float
      → Exchange × List (Message Float) × List Job
  unfolding handle_catalog handle_request handle_block
  receive_snapshot get_block budget size s (snapshot_catalog entries tip) =
      let (next, sent) = handle_catalog get_block budget s entries tip in
      of_living s.destroyed s (next, sent, [])
  receive_snapshot get_block budget size s (snapshot_request cids) =
      of_living s.destroyed s (s, handle_request get_block size cids, [])
  receive_snapshot get_block budget size s (snapshot_block cid block offset total is_last) =
      let (next, jobs) =
        handle_block s (record { cid = cid; block = block; offset = offset; total = total }) in
      of_living s.destroyed s (next, [], jobs)
  -- The other messages do not come here: they are no `SnapshotMessage`.
  receive_snapshot get_block budget size s (reconcile_start channel fp n) = (s, [], [])
  receive_snapshot get_block budget size s (trie_query channel prefix depth fp n) = (s, [], [])
  receive_snapshot get_block budget size s (trie_response channel prefix depth fp matches) =
      (s, [], [])
  receive_snapshot get_block budget size s (edit_set channel prefix depth hashes) = (s, [], [])
  receive_snapshot get_block budget size s (edit_batch channel es) = (s, [], [])
  receive_snapshot get_block budget size s (full_state channel snapshot) = (s, [], [])
