-- ===== src/Update.antt =====
-- `PZGDatabaseUpdate` (src/private/PZGDatabaseUpdate.cpp and its header): one entry of an update
-- log, whose payload is kept as a message, as a compressed buffer, or as both.
use zg_choir.Base.{ℕ, Option, none, some, List, length, min}
use zg_choir.Peer.{PeerId, no_peer}
use zg_choir.Platform.{Platform}

-- `PZG_DATABASE_UPDATE_TYPE_*`.
pub data Kind : Type 0 where
  noop reset replace update : Kind
  unknown : ℕ → Kind

pub record Update (P : Platform) : Type 0 where
  pub kind : Kind
  pub database_index : ℕ
  pub elapsed_millis : ℕ
  pub start_micros : ℕ
  pub source : PeerId
  pub update_id : ℕ
  pub pre_checksum : ℕ
  pub post_checksum : ℕ
  pub buf : Option (List ℕ)
  pub msg : Option P.Message

module _ (P : Platform) where
  -- The default constructor.
  unfoldable pub empty_update : Update P
  empty_update = record {
    kind = noop;
    database_index = 0;
    elapsed_millis = 0;
    start_micros = 0;
    source = no_peer;
    update_id = 0;
    pre_checksum = 0;
    post_checksum = 0;
    buf = none;
    msg = none;
  }

  -- `GetPZGDatabaseUpdateFromPool(updateType, databaseIndex, …)`.
  unfoldable pub fresh_update : Kind → ℕ → ℕ → PeerId → ℕ → Update P
  unfolding empty_update
  fresh_update k index uid from pre = record empty_update {
    kind = k;
    database_index = index;
    update_id = uid;
    source = from;
    pre_checksum = pre;
  }

module _ {P : Platform} where
  -- The cached buffer, or the compressed message.
  unfoldable pub get_payload_buffer : Update P → Option (List ℕ)
  get_payload_buffer u = elim u.buf [
    | some b ↦ some b
    | none ↦ elim u.msg [ some m ↦ some (P.deflate m) | none ↦ none ]
  ]

  -- The cached message, or the inflated buffer.
  unfoldable pub get_payload_message : Update P → Option P.Message
  get_payload_message u = elim u.msg [
    | some m ↦ some m
    | none ↦ elim u.buf [ some b ↦ P.inflate b | none ↦ none ]
  ]

  -- What `GetPayloadBuffer` leaves in its object.
  unfoldable pub cache_buffer : Update P → Update P
  unfolding get_payload_buffer
  cache_buffer u = record u { buf = get_payload_buffer u }

  -- What `GetPayloadBufferAsMessage` leaves in its object.
  unfoldable pub cache_message : Update P → Update P
  unfolding get_payload_message
  cache_message u = record u { msg = get_payload_message u }

  -- `UncachePayloadBufferAsMessage`: the message goes if the buffer is there to make it anew.
  unfoldable pub uncache_message : Update P → Update P
  uncache_message u = elim u.buf [ some b ↦ record u { msg = none } | none ↦ u ]

  unfoldable pub set_payload_message : Option P.Message → Update P → Update P
  set_payload_message m u = record u { buf = none; msg = m }

  unfoldable pub set_senior_elapsed_micros : ℕ → Update P → Update P
  set_senior_elapsed_micros micros u = record u {
    elapsed_millis = min 65535 (P.micros_to_millis micros);
  }

  -- `GetPayloadBuffer()->GetNumBytes()`, or 0 where there is no buffer.
  unfoldable pub payload_bytes : Update P → ℕ
  unfolding get_payload_buffer
  payload_bytes u = elim (get_payload_buffer u) [ some b ↦ length b | none ↦ 0 ]
