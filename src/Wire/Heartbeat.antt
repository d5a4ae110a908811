-- ===== src/Wire/Heartbeat.antt =====
-- `PZGHeartbeatPacket` and `PZGHeartbeatPeerInfo`: what a peer tells the others that it is there.
pub mod RoundTrip
use zg_choir.Base.{
  if_false, ◌≢◌, length-append, ℕ, ◌+◌, ◌^◌, ◌%◌, ◌≤◌, ◌<◌, ◌≡◌, refl, Bool, true, false, Option,
  none, some, List, [], ◌∷◌, ◌++◌, length, take, drop, ltb, leb, arith, if◌then◌else◌, All, add32,
  ◌==◌, ◌&&◌,
}
use zg_choir.Peer.{PeerId, peer_eq}
use zg_choir.Wire.Codec.{
  Codec, Fits, read, read_many, write_many, saturating_multiply, read_many-write_many,
  length-write_many, take-append, drop-append, flatten_id, unflatten_id, IsSizedId,
  unflatten-flatten_id,
}

-- `PZGTimingInfo`.
pub record TimingInfo : Type 0 where
  pub source_tag : ℕ
  pub packet_id : ℕ
  pub dwell_micros : ℕ

-- `PZGHeartbeatPeerInfo`.
pub record PeerInfo : Type 0 where
  pub peer_id : PeerId
  pub timings : List TimingInfo

-- The fields of `PZGHeartbeatPacket` that are flattened; the attributes in their flattened form.
pub record HeartbeatPacket : Type 0 where
  pub packet_id : ℕ
  pub version_code : ℕ
  pub system_key : ℕ
  pub tcp_port : ℕ
  pub uptime_seconds : ℕ
  pub source : PeerId
  pub peer_type : ℕ
  pub fully_attached : Bool
  pub ordered_peers : List PeerInfo
  pub attributes : Option (List ℕ)

-- `PutTimingInfo`.
unfoldable pub put_timing_info : ℕ → ℕ → ℕ → PeerInfo → PeerInfo
put_timing_info tag packet dwell p = record p {
  timings =
      p.timings ++ (record { source_tag = tag; packet_id = packet; dwell_micros = dwell } ∷ []);
}

-- `PZGTimingInfo::CalculateChecksum`.
unfoldable pub timing_checksum : TimingInfo → ℕ
timing_checksum t = add32 (add32 t.source_tag t.packet_id) t.dwell_micros

-- The loop of `PZGHeartbeatPeerInfo::CalculateChecksum`, on what it has summed so far.
unfoldable pub timings_checksum : List TimingInfo → ℕ → ℕ
timings_checksum [] sum = sum
timings_checksum (t ∷ ts) sum = timings_checksum ts (add32 sum (timing_checksum t))

-- `AreByteBufferRefsEqual`.
unfoldable pub buffers_equal : Option (List ℕ) → Option (List ℕ) → Bool
buffers_equal none none = true
buffers_equal none (some b) = false
buffers_equal (some a) none = false
buffers_equal (some a) (some b) = go a b
  where
    go : List ℕ → List ℕ → Bool
    go [] [] = true
    go [] (y ∷ ys) = false
    go (x ∷ xs) [] = false
    go (x ∷ xs) (y ∷ ys) = (x == y) && go xs ys

-- `IsEqualIgnoreTransients`.
unfoldable pub equal_ignoring_transients : HeartbeatPacket → HeartbeatPacket → Bool
equal_ignoring_transients p q =
    (p.system_key == q.system_key)
    && ((p.tcp_port == q.tcp_port)
        && ((p.peer_type == q.peer_type)
            && (peer_eq p.source q.source && buffers_equal p.attributes q.attributes)))

-- `PZG_HEARTBEAT_PACKET_TYPE_CODE`, and the size of the packet's fixed part.
abbrev pub heartbeat_type_code : ℕ
heartbeat_type_code = 2053597282

abbrev pub heartbeat_static_size : ℕ
heartbeat_static_size = 50

-- The bytes of a buffer, or none where there is no buffer.
abbrev pub buffer_bytes : Option (List ℕ) → List ℕ
buffer_bytes none = []
buffer_bytes (some b) = b

-- The end of `PZGHeartbeatPacket::Unflatten`: the attributes' bytes.
unfoldable pub unflatten_attributes : ℕ → List ℕ → Option (Option (List ℕ) × List ℕ)
unflatten_attributes n b =
    if ltb 0 n
    then (if ltb (length b) n then none else some (some (take n b), drop n b))
    else some (none, b)

module _ (W : Codec) where
  -- `PZGTimingInfo::Flatten` and `Unflatten`.
  unfoldable pub flatten_timing : TimingInfo → List ℕ → List ℕ
  flatten_timing t rest =
      W.put 2 t.source_tag (W.put 2 0 (W.put 4 t.packet_id (W.put 4 t.dwell_micros rest)))

  unfoldable pub unflatten_timing : List ℕ → Option (TimingInfo × List ℕ)
  unflatten_timing b = read (W.get 2 b) (λ tag b. read (W.get 2 b) (λ reserved b.
      read (W.get 4 b) (λ packet b. read (W.get 4 b) (λ dwell b.
        some (record { source_tag = tag; packet_id = packet; dwell_micros = dwell }, b)))))

  -- `PZGHeartbeatPeerInfo::Flatten` and `Unflatten`.
  unfoldable pub flatten_peer_info : PeerInfo → List ℕ → List ℕ
  flatten_peer_info p rest =
      flatten_id W p.peer_id (W.put 4 (length p.timings) (write_many flatten_timing p.timings rest))

  unfoldable pub unflatten_peer_info : List ℕ → Option (PeerInfo × List ℕ)
  unflatten_peer_info b = read (unflatten_id W b) (λ p b. read (W.get 4 b) (λ n b.
      if ltb (length b) (saturating_multiply n 12)
      then none
      else read (read_many unflatten_timing n b)
          (λ ts b. some (record { peer_id = p; timings = ts }, b))))

  -- `PZGHeartbeatPacket::Flatten` and `Unflatten`.
  unfoldable pub flatten_fields : HeartbeatPacket → List ℕ → List ℕ
  flatten_fields p rest = W.put 4 p.packet_id (
      W.put 4 p.version_code (
        W.put 8 p.system_key (
          W.put 2 p.tcp_port (
            W.put 4 p.uptime_seconds (
              flatten_id W p.source (
                W.put 2 (if p.fully_attached then p.peer_type % 2 ^ 15 + 2 ^ 15 else p.peer_type) (
                  W.put 2 (length p.ordered_peers % 2 ^ 16) (
                    W.put 2 (length (buffer_bytes p.attributes) % 2 ^ 16) (
                      W.put 2 0 (
                        write_many flatten_peer_info p.ordered_peers
                          (buffer_bytes p.attributes ++ rest)))))))))))

  unfoldable pub flatten_heartbeat : HeartbeatPacket → List ℕ → List ℕ
  flatten_heartbeat p rest = W.put 4 heartbeat_type_code (flatten_fields p rest)

  unfoldable pub unflatten_fields : List ℕ → Option (HeartbeatPacket × List ℕ)
  unflatten_fields b = read (W.get 4 b) (λ packet b. read (W.get 4 b) (λ version b.
      read (W.get 8 b) (λ key b. read (W.get 2 b) (λ port b. read (W.get 4 b) (λ uptime b.
        read (unflatten_id W b) (λ source b. read (W.get 2 b) (λ kind b.
          read (W.get 2 b) (λ count b. read (W.get 2 b) (λ size b. read (W.get 2 b) (λ reserved b.
            read (read_many unflatten_peer_info count b) (λ peers b.
              read (unflatten_attributes size b) (λ attributes b. some (
                record {
                  packet_id = packet;
                  version_code = version;
                  system_key = key;
                  tcp_port = port;
                  uptime_seconds = uptime;
                  source = source;
                  peer_type = kind % 2 ^ 15;
                  fully_attached = leb (2 ^ 15) kind;
                  ordered_peers = peers;
                  attributes = attributes;
                },
                b,
              )))))))))))))

  unfoldable pub unflatten_heartbeat : List ℕ → Option (HeartbeatPacket × List ℕ)
  unflatten_heartbeat b =
      if ltb (length b) heartbeat_static_size
      then none
      else read (W.get 4 b)
          (λ code b. if code == heartbeat_type_code then unflatten_fields b else none)
