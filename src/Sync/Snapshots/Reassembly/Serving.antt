-- ===== src/Sync/Snapshots/Reassembly/Serving.antt =====
-- packages/sync/src/reconciliation/snapshot-exchange.ts: all chunks of a block, one after the other.
use pokapali.Prelude.{
  ℕ, zero, suc, ◌+◌, ◌-◌, ◌<◌, ◌≤◌, ◌≡◌, refl, sym, ap, ◌∙◌, subst, inl, inr, false, none, some,
  List, [], ◌∷◌, ◌++◌, length, take, ltb, ltb→lt, lt→ltb, ◌==◌, ==_iff, Bool-cases, map_get,
  map_set, map_delete, map_get-map_set_self, map_get-map_delete, ===-refl, arith,
}
use pokapali.Facts.Types.{Bytes}
use pokapali.Sync.Trie.{zeros}
use pokapali.Sync.Trie.Bits.{bytes_eq}
use pokapali.Sync.Session.{hex_hash}
use pokapali.Sync.Snapshots.{
  Pending, Exchange, Block, chunk_at, chunks_from, serve, fill, assemble, or_new, with_chunk, Job,
  handle_block, receive_blocks,
}
use pokapali.Sync.Snapshots.Reassembly.{
  Partial, taken, length-chunk_at, Partial-step, Partial-assemble,
}

-- The state of a block's CID.
abbrev current : Exchange → Block → Pending
current s b = or_new b.cid b.total (map_get (hex_hash b.cid) s.pending)

ltb-false : (a b : ℕ) → b ≤ a → ltb a b ≡ false
ltb-false a b h = ground arith

==-false : (a : ℕ) → 0 < a → (a == 0) ≡ false
==-false a h = ground arith

-- A chunk that fits, of a block of the same length as before.
module _ (s : Exchange) (b : Block) where
  abbrev Fits : Type 0
  Fits = (0 < b.total) × (b.offset + length b.block ≤ b.total) × ((current s b).total ≡ b.total)

  handle_block-more :
      Fits
      → (with_chunk (current s b) b).bytes_received < (current s b).total
      → handle_block s b ≡ (
        record s { pending = map_set (hex_hash b.cid) (with_chunk (current s b) b) s.pending },
        [],
      )
  unfolding handle_block
  handle_block-more h lt =
      rw
        (
          handle_block,
          ==-false b.total h.0,
          ltb-false b.total (b.offset + length b.block) h.1,
          (==_iff (current s b).total b.total).1 h.2,
          lt→ltb (with_chunk (current s b) b).bytes_received (current s b).total lt,
        )
        refl

  handle_block-full :
      Fits
      → (current s b).total ≤ (with_chunk (current s b) b).bytes_received
      → handle_block s b ≡ (
        record s {
          pending =
              map_delete
                (hex_hash b.cid)
                (map_set (hex_hash b.cid) (with_chunk (current s b) b) s.pending);
        },
        (b.cid, assemble (current s b).total (with_chunk (current s b) b).chunks) ∷ [],
      )
  unfolding handle_block
  handle_block-full h le =
      rw
        (
          handle_block,
          ==-false b.total h.0,
          ltb-false b.total (b.offset + length b.block) h.1,
          (==_iff (current s b).total b.total).1 h.2,
          ltb-false (with_chunk (current s b) b).bytes_received (current s b).total le,
        )
        refl

-- The exchange ends up without a state for the CID, and the block waits for its verification.
abbrev pub Whole : Bytes → Bytes → Exchange × List Job → Type 0
Whole cid block result =
    (final : Exchange) × (result ≡ (final, (cid, block) ∷ []))
    × (map_get (hex_hash cid) final.pending ≡ none)

chunks_from-end :
    (fuel : ℕ) (cid block : Bytes) (size offset : ℕ)
    → length block ≤ offset
    → chunks_from fuel cid block size offset ≡ []
unfolding chunks_from
chunks_from-end zero cid block size offset h = refl
chunks_from-end (suc fuel) cid block size offset h =
    rw (chunks_from, ltb-false offset (length block) h) refl

chunks_from-next :
    (fuel : ℕ) (cid block : Bytes) (size offset : ℕ)
    → offset < length block
    → chunks_from (suc fuel) cid block size offset
      ≡ chunk_at cid block size offset ∷ chunks_from fuel cid block size (offset + size)
unfolding chunks_from
chunks_from-next fuel cid block size offset h =
    rw (chunks_from, lt→ltb offset (length block) h) refl

receive_blocks-next :
    (s next : Exchange) (b : Block) (bs : List Block) (jobs : List Job)
    → s.destroyed ≡ false
    → handle_block s b ≡ (next, jobs)
    → receive_blocks s (b ∷ bs) ≡ ((receive_blocks next bs).0, jobs ++ (receive_blocks next bs).1)
unfolding receive_blocks
receive_blocks-next s next b bs jobs alive e = rw (receive_blocks, e, alive) refl

-- The chunks from an offset on, after those before it.
receive_blocks-chunks_from :
    (fuel : ℕ) (s : Exchange) (cid block : Bytes) (size offset : ℕ)
    → s.destroyed ≡ false
    → 0 < size
    → offset < length block
    → length block ≤ offset + fuel
    → Partial block offset (or_new cid (length block) (map_get (hex_hash cid) s.pending))
    → Whole cid block (receive_blocks s (chunks_from fuel cid block size offset))
unfolding chunk_at receive_blocks
receive_blocks-chunks_from zero s cid block size offset alive pos h enough partial =
    absurd (omega arith)
receive_blocks-chunks_from (suc fuel) s cid block size offset alive pos h enough partial =
    let b = chunk_at cid block size offset in
    let count = length-chunk_at cid block size offset h in
    let step = Partial-step cid block size offset (current s b) pos h partial in
    let total = length block in
    let q = with_chunk (current s b) b in
    let fits : Fits s b = (omega arith, omega arith, partial.whole) in
    rw (chunks_from-next fuel cid block size offset h)
      (elim (Bool-cases (ltb (offset + size) total)) [
        | inl more ↦
            let below = ltb→lt (offset + size) total more in
            let next : Exchange = record s { pending = map_set (hex_hash cid) q s.pending } in
            let here : offset + taken block size offset ≡ offset + size = omega arith in
            let new = map_get-map_set_self (hex_hash cid) q s.pending in
            let moved = subst (λ o. Partial block o q) here step in
            let partial' =
              subst (λ o. Partial block (offset + size) (or_new cid total o)) (sym new) moved in
            let (final, e, gone) =
              receive_blocks-chunks_from fuel next cid block size (offset + size) alive pos below
                (omega arith) partial' in
            let less : q.bytes_received < (current s b).total =
              omega (arith, step.received, partial.whole) in
            (
              final,
              receive_blocks-next s next b (chunks_from fuel cid block size (offset + size)) []
                    alive (handle_block-more s b fits less)
                  ∙ e,
              gone,
            )
        | inr last ↦
            let over : total ≤ offset + size = ground arith in
            let all : offset + taken block size offset ≡ total = omega arith in
            let full : (current s b).total ≤ q.bytes_received =
              omega (arith, step.received, partial.whole) in
            let next : Exchange = record s {
              pending = map_delete (hex_hash cid) (map_set (hex_hash cid) q s.pending);
            } in
            (
              next,
              rw (chunks_from-end fuel cid block size (offset + size) over) (
                  receive_blocks-next s next b [] _ alive (handle_block-full s b fits full)
                  ∙ ap (λ bytes. (next, (cid, bytes) ∷ [])) (Partial-assemble block _ q step all)),
              rw
                  (
                    map_get-map_delete (hex_hash cid) (hex_hash cid)
                        (map_set (hex_hash cid) q s.pending),
                    ===-refl (hex_hash cid),
                  )
                  refl,
            )
      ])

-- A block that is not empty and that a peer serves in chunks of at least a byte, to an exchange that
-- lives and has no chunks of it: after all its chunks exactly that block waits for its
-- verification, and the exchange has no chunks of it any more.
pub receive_blocks-serve :
    (s : Exchange) (cid : Bytes) (size : ℕ) (b : ℕ) (bs : Bytes)
    → s.destroyed ≡ false
    → 0 < size
    → map_get (hex_hash cid) s.pending ≡ none
    → Whole cid (b ∷ bs) (receive_blocks s (serve size cid (some (b ∷ bs))))
unfolding serve fill take zeros
receive_blocks-serve s cid size b bs alive pos new =
    receive_blocks-chunks_from (length (b ∷ bs)) s cid (b ∷ bs) size 0 alive pos (omega arith)
      (omega arith)
      (subst (λ o. Partial (b ∷ bs) 0 (or_new cid (length (b ∷ bs)) o)) (sym new)
        record {
          whole = refl;
          received = refl;
          ascending = tt;
          below = tt;
          filled = let same : length (b ∷ bs) ≡ length (b ∷ bs) - 0 = omega arith in ap zeros same;
        })
