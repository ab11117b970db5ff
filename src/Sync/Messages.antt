-- ===== src/Sync/Messages.antt =====
-- packages/sync/src/reconciliation/messages.ts: the messages and their wire format.
pub mod RoundTrip
use pokapali.Prelude.{
  ℕ, String, Bool, true, false, Option, none, some, List, [], ◌∷◌, ◌++◌, length, ◌==◌,
  if◌then◌else◌,
}
use pokapali.Facts.Types.{Bytes}
use pokapali.Wire.{Lib0, Parser, ◌>>=◌, give, throw, write_all, read_many}

pub record Edit : Type 0 where
  pub payload : Bytes
  pub signature : Bytes

pub record CatalogEntry (Float : Type 0) : Type 0 where
  pub cid : Bytes
  pub seq : ℕ
  pub ts : Float

-- `Float` is the type of the timestamps, which are JavaScript numbers.
pub data Message (Float : Type 0) : Type 0 where
  reconcile_start : (channel : String) (fingerprint : Bytes) (edit_count : ℕ) → Message Float
  trie_query :
      (channel : String) (prefix : Bytes) (depth : ℕ) (fingerprint : Bytes) (edit_count : ℕ)
      → Message Float
  trie_response :
      (channel : String) (prefix : Bytes) (depth : ℕ) (fingerprint : Bytes) (matches : Bool)
      → Message Float
  edit_set : (channel : String) (prefix : Bytes) (depth : ℕ) (hashes : List Bytes) → Message Float
  edit_batch : (channel : String) (edits : List Edit) → Message Float
  full_state : (channel : String) (snapshot : Bytes) → Message Float
  snapshot_catalog : (entries : List (CatalogEntry Float)) (tip : Option Bytes) → Message Float
  snapshot_request : (cids : List Bytes) → Message Float
  snapshot_block :
      (cid : Bytes) (block : Bytes) (offset : ℕ) (total : ℕ) (is_last : Bool) → Message Float

-- `MessageType`
abbrev pub message_type : {Float : Type 0} → Message Float → ℕ
message_type (reconcile_start channel fingerprint edit_count) = 0
message_type (trie_query channel prefix depth fingerprint edit_count) = 1
message_type (trie_response channel prefix depth fingerprint matches) = 2
message_type (edit_set channel prefix depth hashes) = 3
message_type (edit_batch channel edits) = 4
message_type (full_state channel snapshot) = 5
message_type (snapshot_catalog entries tip) = 6
message_type (snapshot_request cids) = 7
message_type (snapshot_block cid block offset total is_last) = 8

-- `b ? 1 : 0`
abbrev pub flag : Bool → ℕ
flag false = 0
flag true = 1

-- `readVarUint(decoder) === 1`
abbrev pub is_one : ℕ → Bool
is_one n = n == 1

module _ (w : Lib0) where
  open w use {
    Float, write_uint, read_uint, write_string, read_string, write_bytes, read_bytes, write_float,
    read_float,
  }

  unfoldable pub write_edit : Edit → Bytes
  write_edit e = write_bytes e.payload ++ write_bytes e.signature

  unfoldable pub write_entry : CatalogEntry Float → Bytes
  write_entry e = write_bytes e.cid ++ (write_uint e.seq ++ write_float e.ts)

  unfoldable pub write_tip : Option Bytes → Bytes
  write_tip none = write_uint 0
  write_tip (some tip) = write_uint 1 ++ write_bytes tip

  -- What `encodeMessage` writes after the type.
  unfoldable pub write_body : Message Float → Bytes
  unfolding write_edit write_entry write_tip write_all
  write_body (reconcile_start channel fingerprint edit_count) =
      write_string channel ++ (write_bytes fingerprint ++ write_uint edit_count)
  write_body (trie_query channel prefix depth fingerprint edit_count) =
      write_string channel
      ++ (write_bytes prefix
          ++ (write_uint depth ++ (write_bytes fingerprint ++ write_uint edit_count)))
  write_body (trie_response channel prefix depth fingerprint matches) =
      write_string channel
      ++ (write_bytes prefix
          ++ (write_uint depth ++ (write_bytes fingerprint ++ write_uint (flag matches))))
  write_body (edit_set channel prefix depth hashes) =
      write_string channel
      ++ (write_bytes prefix
          ++ (write_uint depth ++ (write_uint (length hashes) ++ write_all write_bytes hashes)))
  write_body (edit_batch channel edits) =
      write_string channel ++ (write_uint (length edits) ++ write_all write_edit edits)
  write_body (full_state channel snapshot) = write_string channel ++ write_bytes snapshot
  write_body (snapshot_catalog entries tip) =
      write_uint (length entries) ++ (write_all write_entry entries ++ write_tip tip)
  write_body (snapshot_request cids) = write_uint (length cids) ++ write_all write_bytes cids
  write_body (snapshot_block cid block offset total is_last) =
      write_bytes cid
      ++ (write_bytes block
          ++ (write_uint offset ++ (write_uint total ++ write_uint (flag is_last))))

  unfoldable pub encode_message : Message Float → Bytes
  unfolding write_body
  encode_message m = write_uint (message_type m) ++ write_body m

  unfoldable pub read_edit : Parser Edit
  read_edit = do
    payload ← read_bytes
    signature ← read_bytes
    give (record { payload = payload; signature = signature })

  unfoldable pub read_entry : Parser (CatalogEntry Float)
  read_entry = do
    cid ← read_bytes
    seq ← read_uint
    ts ← read_float
    give (record { cid = cid; seq = seq; ts = ts })

  abbrev pub optional : Bool → Parser (Option Bytes)
  optional true = do tip ← read_bytes; give (some tip)
  optional false = give none

  unfoldable pub read_tip : Parser (Option Bytes)
  read_tip = do has_tip ← read_uint; optional (is_one has_tip)

  -- The cases of `decodeMessage`, one for each message, with the reads in the order of the source.
  unfoldable pub read_start : Parser (Message Float)
  read_start = do
    channel ← read_string
    fingerprint ← read_bytes
    edit_count ← read_uint
    give (reconcile_start channel fingerprint edit_count)

  unfoldable pub read_query : Parser (Message Float)
  read_query = do
    channel ← read_string
    prefix ← read_bytes
    depth ← read_uint
    fingerprint ← read_bytes
    edit_count ← read_uint
    give (trie_query channel prefix depth fingerprint edit_count)

  unfoldable pub read_response : Parser (Message Float)
  read_response = do
    channel ← read_string
    prefix ← read_bytes
    depth ← read_uint
    fingerprint ← read_bytes
    matches ← read_uint
    give (trie_response channel prefix depth fingerprint (is_one matches))

  unfoldable pub read_edit_set : Parser (Message Float)
  unfolding read_many
  read_edit_set = do
    channel ← read_string
    prefix ← read_bytes
    depth ← read_uint
    count ← read_uint
    hashes ← read_many count read_bytes
    give (edit_set channel prefix depth hashes)

  unfoldable pub read_edit_batch : Parser (Message Float)
  unfolding read_many read_edit
  read_edit_batch = do
    channel ← read_string
    count ← read_uint
    edits ← read_many count read_edit
    give (edit_batch channel edits)

  unfoldable pub read_full_state : Parser (Message Float)
  read_full_state = do
    channel ← read_string
    snapshot ← read_bytes
    give (full_state channel snapshot)

  unfoldable pub read_catalog : Parser (Message Float)
  unfolding read_many read_entry read_tip
  read_catalog = do
    count ← read_uint
    entries ← read_many count read_entry
    tip ← read_tip
    give (snapshot_catalog entries tip)

  unfoldable pub read_request : Parser (Message Float)
  unfolding read_many
  read_request = do
    count ← read_uint
    cids ← read_many count read_bytes
    give (snapshot_request cids)

  unfoldable pub read_block : Parser (Message Float)
  read_block = do
    cid ← read_bytes
    block ← read_bytes
    offset ← read_uint
    total ← read_uint
    is_last ← read_uint
    give (snapshot_block cid block offset total (is_one is_last))

  unfoldable pub read_body : ℕ → Parser (Message Float)
  read_body type =
      if type == 0
      then read_start
      else if type == 1
      then read_query
      else if type == 2
      then read_response
      else if type == 3
      then read_edit_set
      else if type == 4
      then read_edit_batch
      else if type == 5
      then read_full_state
      else if type == 6
      then read_catalog
      else if type == 7
      then read_request
      else if type == 8
      then read_block
      else throw

  -- `none` is a throw: of a read past the end, or of an unknown type. What follows the message is ignored.
  unfoldable pub decode_message : Bytes → Option (Message Float)
  unfolding read_body
  decode_message bytes = elim ((read_uint >>= read_body) bytes) [
    | none ↦ none
    | some (m, rest) ↦ some m
  ]
