-- ===== src/Sync/Snapshots/Reassembly.antt =====
-- packages/sync/src/reconciliation/snapshot-exchange.ts: a block that is served in chunks and put together again.
pub mod Serving
use pokapali.Prelude.{
  ℕ, zero, suc, ◌+◌, ◌-◌, ◌<◌, ◌≤◌, min, ◌≡◌, refl, sym, ap, ap₂, ◌∙◌, subst, inl, inr, Bool, true,
  false, Option, none, some, List, [], ◌∷◌, ◌++◌, append-nil, append_assoc, length, length-append,
  take, drop, take_all, drop_all, length-take, length-drop_exact, take_add, ltb, ltb→lt, lt→ltb,
  leb, le→leb, ◌==◌, ==_iff, if◌then◌else◌, Bool-cases, Map, map_get, map_set, map_delete,
  map_get-map_set_self, map_get-map_delete, ◌===◌, ===-refl, arith,
}
use pokapali.Facts.Types.{Bytes}
use pokapali.Sync.Trie.{zeros}
use pokapali.Sync.Trie.Bits.{bytes_eq}
use pokapali.Sync.Session.{hex_hash}
use pokapali.Sync.Snapshots.{
  Chunk, Pending, Exchange, Block, chunk_at, chunks_from, serve, blit, insert_chunk, by_offset,
  fill, assemble, or_new, with_chunk, Job, handle_block, receive_blocks,
}

length-zeros : (n : ℕ) → length (zeros n) ≡ n
unfolding zeros
length-zeros zero = refl
length-zeros (suc n) = let ih = length-zeros n in omega arith

drop-zeros : (n m : ℕ) → drop n (zeros m) ≡ zeros (m - n)
unfolding zeros drop
drop-zeros zero m = let same : m - 0 ≡ m = omega arith in ap zeros (sym same)
drop-zeros (suc n) zero = let none_left : 0 - suc n ≡ 0 = omega arith in ap zeros (sym none_left)
drop-zeros (suc n) (suc m) =
    let same : suc m - suc n ≡ m - n = omega arith in drop-zeros n m ∙ ap zeros (sym same)

-- A part of the array that is overwritten.
blit-here :
    (ys part : Bytes) → length part ≤ length ys → blit ys 0 part ≡ part ++ drop (length part) ys
unfolding blit drop
blit-here [] [] h = refl
blit-here [] (d ∷ ds) h = absurd (omega arith)
blit-here (y ∷ ys) [] h = refl
blit-here (y ∷ ys) (d ∷ ds) h = ap (λ l. d ∷ l) (blit-here ys ds (omega arith))

blit-append :
    (xs ys part : Bytes)
    → length part ≤ length ys
    → blit (xs ++ ys) (length xs) part ≡ xs ++ (part ++ drop (length part) ys)
unfolding blit
blit-append [] ys part h = blit-here ys part h
blit-append (x ∷ xs) ys part h = ap (λ l. x ∷ l) (blit-append xs ys part h)

fill-append : (full : Bytes) (cs ds : List Chunk) → fill full (cs ++ ds) ≡ fill (fill full cs) ds
unfolding fill
fill-append full [] ds = refl
fill-append full ((offset, part) ∷ cs) ds = fill-append (blit full offset part) cs ds

-- Chunks in ascending order, from an offset on.
abbrev pub Ascending : ℕ → List Chunk → Type 0
Ascending low [] = Unit
Ascending low (c ∷ cs) = (low ≤ c.0) × Ascending c.0 cs

-- All their offsets are below `high`.
abbrev pub Below : ℕ → List Chunk → Type 0
Below high [] = Unit
Below high (c ∷ cs) = (c.0 < high) × Below high cs

Ascending-by_offset : (low : ℕ) (cs : List Chunk) → Ascending low cs → by_offset cs ≡ cs
unfolding by_offset insert_chunk
Ascending-by_offset low [] h = refl
Ascending-by_offset low (c ∷ []) h = refl
Ascending-by_offset low (c ∷ d ∷ cs) h =
    rw (Ascending-by_offset c.0 (d ∷ cs) h.1) (rw (le→leb c.0 d.0 h.1.0) refl)

Ascending-append :
    (low : ℕ) (cs : List Chunk) (c : Chunk)
    → Ascending low cs
    → Below c.0 cs
    → low ≤ c.0
    → Ascending low (cs ++ (c ∷ []))
Ascending-append low [] c h b l = (l, tt)
Ascending-append low (d ∷ cs) c h b l = (h.0, Ascending-append d.0 cs c h.1 b.1 (omega arith))

Below-append :
    (high more : ℕ) (cs : List Chunk) (c : Chunk)
    → Below high cs
    → high ≤ more
    → c.0 < more
    → Below more (cs ++ (c ∷ []))
Below-append high more [] c h l k = (k, tt)
Below-append high more (d ∷ cs) c h l k = (omega arith, Below-append high more cs c h.1 l k)

-- The chunks of a block up to an offset: the bytes before it are in place.
pub record Partial (block : Bytes) (offset : ℕ) (p : Pending) : Type 0 where
  pub whole : p.total ≡ length block
  pub received : p.bytes_received ≡ offset
  pub ascending : Ascending 0 p.chunks
  pub below : Below offset p.chunks
  pub filled :
      fill (zeros (length block)) p.chunks ≡ take offset block ++ zeros (length block - offset)

-- How many bytes a chunk has.
abbrev pub taken : Bytes → (size offset : ℕ) → ℕ
taken block size offset = min (offset + size) (length block) - offset

pub length-chunk_at :
    (cid block : Bytes) (size offset : ℕ)
    → offset < length block
    → length (chunk_at cid block size offset).block ≡ taken block size offset
unfolding chunk_at
length-chunk_at cid block size offset h =
    let rest = length-drop_exact offset block (omega arith) in
    length-take (taken block size offset) (drop offset block) (omega arith)

fill-chunk :
    (block : Bytes) (n offset : ℕ)
    → offset + n ≤ length block
    → blit (take offset block ++ zeros (length block - offset)) offset (take n (drop offset block))
      ≡ take (offset + n) block ++ zeros (length block - (offset + n))
fill-chunk block n offset h =
    let part = take n (drop offset block) in
    let len = length block in
    let rest = length-drop_exact offset block (omega arith) in
    let part_length = length-take n (drop offset block) (omega arith) in
    let front = length-take offset block (omega arith) in
    let room = length-zeros (len - offset) in
    let less : len - offset - n ≡ len - (offset + n) = omega arith in
    let tail =
      ap (λ k. drop k (zeros (len - offset))) part_length
      ∙ drop-zeros n (len - offset)
      ∙ ap zeros less in
    ap (λ k. blit (take offset block ++ zeros (len - offset)) k part) (sym front)
    ∙ blit-append (take offset block) (zeros (len - offset)) part (omega arith)
    ∙ ap (λ l. take offset block ++ (part ++ l)) tail
    ∙ sym (append_assoc (take offset block) part (zeros (len - (offset + n))))
    ∙ ap (λ l. l ++ zeros (len - (offset + n))) (sym (take_add offset n block))

pub Partial-step :
    (cid block : Bytes) (size offset : ℕ) (p : Pending)
    → 0 < size
    → offset < length block
    → Partial block offset p
    → Partial block
        (offset + taken block size offset)
        (with_chunk p (chunk_at cid block size offset))
unfolding chunk_at fill
Partial-step cid block size offset p pos h partial =
    let n = taken block size offset in
    let count = length-chunk_at cid block size offset h in
    record {
      whole = partial.whole;
      received = ap₂ ◌+◌ partial.received count;
      ascending = Ascending-append 0 p.chunks _ partial.ascending partial.below (omega arith);
      below = Below-append offset (offset + n) p.chunks _ partial.below (omega arith) (omega arith);
      filled =
          fill-append (zeros (length block)) p.chunks _
          ∙ ap (λ l. blit l offset (take n (drop offset block))) partial.filled
          ∙ fill-chunk block n offset (omega arith);
    }

pub Partial-assemble :
    (block : Bytes) (offset : ℕ) (p : Pending)
    → Partial block offset p
    → offset ≡ length block
    → assemble p.total p.chunks ≡ block
unfolding assemble zeros
Partial-assemble block offset p h e =
    let none_left : length block - offset ≡ 0 = omega arith in
    ap₂ (λ n cs. fill (zeros n) cs) h.whole (Ascending-by_offset 0 p.chunks h.ascending)
    ∙ h.filled
    ∙ ap₂ (λ l n. l ++ zeros n) (ap (λ k. take k block) e ∙ take_all block) none_left
    ∙ append-nil block
