-- ===== src/Sync/Messages/RoundTrip.antt =====
-- packages/sync/src/reconciliation/messages.ts: encoding and then decoding.
use pokapali.Prelude.{ℕ, ◌<◌, ◌≡◌, refl, Bool, true, false, Option, none, some, ◌++◌, length, arith}
use pokapali.Facts.Types.{Bytes}
use pokapali.Wire.{
  Lib0, ◌>>=◌, give, throw, Reads, Reads-give, Reads-bind, Reads-then, Reads-last, Reads-many, All,
  IsUint, IsBytes,
}
use pokapali.Sync.Messages.{
  Edit, CatalogEntry, Message, reconcile_start, trie_query, trie_response, edit_set, edit_batch,
  full_state, snapshot_catalog, snapshot_request, snapshot_block, message_type, flag, write_edit,
  write_entry, write_tip, write_body, encode_message, read_edit, read_entry, is_one, read_tip,
  read_start, read_query, read_response, read_edit_set, read_edit_batch, read_full_state,
  read_catalog, read_request, read_block, read_body, decode_message,
}

-- An array of bytes, of a length that is a safe integer.
abbrev pub IsArray : Bytes → Type 0
IsArray b = IsBytes b × IsUint (length b)

abbrev pub IsEdit : Edit → Type 0
IsEdit e = IsArray e.payload × IsArray e.signature

abbrev pub IsEntry : {Float : Type 0} → CatalogEntry Float → Type 0
IsEntry e = IsArray e.cid × IsUint e.seq

abbrev pub IsTip : Option Bytes → Type 0
IsTip none = Unit
IsTip (some tip) = IsArray tip

-- The numbers of a message are safe integers, its lengths too, and its arrays hold bytes.
abbrev pub IsMessage : {Float : Type 0} → Message Float → Type 0
IsMessage (reconcile_start channel fingerprint edit_count) = IsArray fingerprint × IsUint edit_count
IsMessage (trie_query channel prefix depth fingerprint edit_count) =
    IsArray prefix × IsUint depth × IsArray fingerprint × IsUint edit_count
IsMessage (trie_response channel prefix depth fingerprint matches) =
    IsArray prefix × IsUint depth × IsArray fingerprint
IsMessage (edit_set channel prefix depth hashes) =
    IsArray prefix × IsUint depth × IsUint (length hashes) × All IsArray hashes
IsMessage (edit_batch channel edits) = IsUint (length edits) × All IsEdit edits
IsMessage (full_state channel snapshot) = IsArray snapshot
IsMessage (snapshot_catalog entries tip) = IsUint (length entries) × All IsEntry entries × IsTip tip
IsMessage (snapshot_request cids) = IsUint (length cids) × All IsArray cids
IsMessage (snapshot_block cid block offset total is_last) =
    IsArray cid × IsArray block × IsUint offset × IsUint total

module _ (w : Lib0) where
  Reads-flag :
      (f : Bool → Message w.Float) (b : Bool)
      → Reads (w.read_uint >>= λ n. give (f (is_one n))) (w.write_uint (flag b)) (f b)
  Reads-flag f false = Reads-last _ (w.uint 0 (omega arith))
  Reads-flag f true = Reads-last _ (w.uint 1 (omega arith))

  array : (b : Bytes) → IsArray b → Reads w.read_bytes (w.write_bytes b) b
  array b h = w.bytes b h.0 h.1

  edit : (e : Edit) → IsEdit e → Reads (read_edit w) (write_edit w e) e
  unfolding read_edit write_edit
  edit e h = Reads-bind _ (array e.payload h.0) (Reads-last _ (array e.signature h.1))

  entry : (e : CatalogEntry w.Float) → IsEntry e → Reads (read_entry w) (write_entry w e) e
  unfolding read_entry write_entry
  entry e h =
      Reads-bind _ (array e.cid h.0) (Reads-bind _ (w.uint e.seq h.1) (Reads-last _ (w.float e.ts)))

  tip_reads : (tip : Option Bytes) → IsTip tip → Reads (read_tip w) (write_tip w tip) tip
  unfolding read_tip write_tip
  tip_reads none h = Reads-then _ (w.uint 0 (omega arith)) (Reads-give none)
  tip_reads (some tip) h = Reads-bind _ (w.uint 1 (omega arith)) (Reads-last _ (array tip h))

  body :
      (m : Message w.Float) → IsMessage m → Reads (read_body w (message_type m)) (write_body w m) m
  unfolding read_body write_body read_start read_query read_response read_edit_set read_edit_batch
      read_full_state read_catalog read_request read_block
  body (reconcile_start channel fingerprint edit_count) h =
      Reads-bind _ (w.string channel)
        (Reads-bind _ (array fingerprint h.0) (Reads-last _ (w.uint edit_count h.1)))
  body (trie_query channel prefix depth fingerprint edit_count) h =
      Reads-bind _ (w.string channel) (
        Reads-bind _ (array prefix h.0) (
          Reads-bind _ (w.uint depth h.1)
            (Reads-bind _ (array fingerprint h.2) (Reads-last _ (w.uint edit_count h.3)))))
  body (trie_response channel prefix depth fingerprint matches) h =
      Reads-bind _ (w.string channel) (
        Reads-bind _ (array prefix h.0) (
          Reads-bind _ (w.uint depth h.1) (
            Reads-bind _ (array fingerprint h.2)
              (Reads-flag (trie_response channel prefix depth fingerprint) matches))))
  body (edit_set channel prefix depth hashes) h = Reads-bind _ (w.string channel) (
      Reads-bind _ (array prefix h.0) (
        Reads-bind _ (w.uint depth h.1) (
          Reads-bind _ (w.uint (length hashes) h.2)
            (Reads-last _ (Reads-many IsArray w.read_bytes w.write_bytes array hashes h.3)))))
  body (edit_batch channel edits) h = Reads-bind _ (w.string channel) (
      Reads-bind _ (w.uint (length edits) h.0)
        (Reads-last _ (Reads-many IsEdit (read_edit w) (write_edit w) edit edits h.1)))
  body (full_state channel snapshot) h =
      Reads-bind _ (w.string channel) (Reads-last _ (array snapshot h))
  body (snapshot_catalog entries tip) h = Reads-bind _ (w.uint (length entries) h.0) (
      Reads-bind _ (Reads-many IsEntry (read_entry w) (write_entry w) entry entries h.1)
        (Reads-last _ (tip_reads tip h.2)))
  body (snapshot_request cids) h =
      Reads-bind _ (w.uint (length cids) h.0)
        (Reads-last _ (Reads-many IsArray w.read_bytes w.write_bytes array cids h.1))
  body (snapshot_block cid block offset total is_last) h = Reads-bind _ (array cid h.0) (
      Reads-bind _ (array block h.1) (
        Reads-bind _ (w.uint offset h.2) (
          Reads-bind _ (w.uint total h.3)
            (Reads-flag (snapshot_block cid block offset total) is_last))))

  message_type-IsUint : (m : Message w.Float) → IsUint (message_type m)
  message_type-IsUint (reconcile_start channel fingerprint edit_count) = omega arith
  message_type-IsUint (trie_query channel prefix depth fingerprint edit_count) = omega arith
  message_type-IsUint (trie_response channel prefix depth fingerprint matches) = omega arith
  message_type-IsUint (edit_set channel prefix depth hashes) = omega arith
  message_type-IsUint (edit_batch channel edits) = omega arith
  message_type-IsUint (full_state channel snapshot) = omega arith
  message_type-IsUint (snapshot_catalog entries tip) = omega arith
  message_type-IsUint (snapshot_request cids) = omega arith
  message_type-IsUint (snapshot_block cid block offset total is_last) = omega arith

  message :
      (m : Message w.Float)
      → IsMessage m
      → Reads (w.read_uint >>= read_body w) (encode_message w m) m
  unfolding encode_message
  message m h = Reads-bind _ (w.uint (message_type m) (message_type-IsUint m)) (body m h)

  -- A message whose numbers and lengths are safe integers, and whose arrays hold bytes, is decoded
  -- from its encoding as it was, whatever bytes follow it.
  pub decode_message-encode_message :
      (m : Message w.Float) (rest : Bytes)
      → IsMessage m
      → decode_message w (encode_message w m ++ rest) ≡ some m
  unfolding decode_message
  decode_message-encode_message m rest h = rw (decode_message, (message m h).reads rest) refl

  read_body-unknown : (type : ℕ) → 8 < type → read_body w type ≡ throw
  unfolding read_body
  read_body-unknown type h = ground arith

  -- A message whose type is a safe integer but none of the nine is refused.
  pub decode_message-unknown :
      (type : ℕ) (rest : Bytes)
      → IsUint type
      → 8 < type
      → decode_message w (w.write_uint type ++ rest) ≡ none
  unfolding decode_message read_body
  decode_message-unknown type rest h k =
      rw (decode_message, ◌>>=◌, (w.uint type h).reads rest, read_body-unknown type k) refl
