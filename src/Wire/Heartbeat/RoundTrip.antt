-- ===== src/Wire/Heartbeat/RoundTrip.antt =====
-- Heartbeat packets, and what is in them, are read back as they were written.
use zg_choir.Base.{
  if_false, ◌≢◌, length-append, ℕ, ◌+◌, ◌^◌, ◌%◌, ◌≤◌, ◌<◌, ◌≡◌, refl, Bool, true, false, Option,
  none, some, List, [], ◌∷◌, ◌++◌, length, ltb, leb, arith, if◌then◌else◌, All,
}
use zg_choir.Wire.Codec.{
  Codec, Fits, read, write_many, saturating_multiply, read_many-write_many, length-write_many,
  take-append, drop-append, flatten_id, IsSizedId, unflatten-flatten_id,
}
use zg_choir.Wire.Heartbeat.{
  TimingInfo, PeerInfo, HeartbeatPacket, heartbeat_type_code, heartbeat_static_size, buffer_bytes,
  flatten_timing, unflatten_timing, flatten_peer_info, unflatten_peer_info, unflatten_attributes,
  flatten_fields, flatten_heartbeat, unflatten_fields, unflatten_heartbeat,
}

unflatten_attributes_lem :
    (a : Option (List ℕ)) (rest : List ℕ)
    → a ≢ some []
    → unflatten_attributes (length (buffer_bytes a)) (buffer_bytes a ++ rest) ≡ some (a, rest)
unfolding unflatten_attributes
unflatten_attributes_lem none rest h = refl
unflatten_attributes_lem (some []) rest h = absurd (h refl)
unflatten_attributes_lem (some (x ∷ b)) rest h =
    rw (some_bytes, fits, take-append b rest, drop-append b rest) refl
  where
    some_bytes : ltb 0 (length (x ∷ b)) ≡ true
    some_bytes = ground arith

    fits : ltb (length ((x ∷ b) ++ rest)) (length (x ∷ b)) ≡ false
    fits = rw (length-append (x ∷ b) rest) (ground arith)

module _ (W : Codec) where
  pub unflatten-flatten_timing :
      (t : TimingInfo) (rest : List ℕ)
      → Fits 2 t.source_tag × Fits 4 t.packet_id × Fits 4 t.dwell_micros
      → unflatten_timing W (flatten_timing W t rest) ≡ some (t, rest)
  unfolding unflatten_timing flatten_timing read
  unflatten-flatten_timing t rest (h, i, j) =
      rw
        (
          W.get-put 2 t.source_tag _ h,
          read,
          W.get-put 2 0 _ (omega arith),
          read,
          W.get-put 4 t.packet_id _ i,
          read,
          W.get-put 4 t.dwell_micros _ j,
          read,
        )
        refl

  length-flatten_timing :
      (t : TimingInfo) (rest : List ℕ) → length (flatten_timing W t rest) ≡ 12 + length rest
  unfolding flatten_timing
  length-flatten_timing t rest =
      rw
        (
          W.length-put 2 t.source_tag,
          W.length-put 2 0,
          W.length-put 4 t.packet_id,
          W.length-put 4 t.dwell_micros,
        )
        (omega arith)

  -- The fields of a peer's entry fit in their integers.
  abbrev pub IsSizedInfo : PeerInfo → Type 0
  IsSizedInfo p =
      IsSizedId W p.peer_id
      × Fits 4 (length p.timings)
      × All (λ (t : TimingInfo). Fits 2 t.source_tag × Fits 4 t.packet_id × Fits 4 t.dwell_micros)
          p.timings

  pub unflatten-flatten_peer_info :
      (p : PeerInfo) (rest : List ℕ)
      → IsSizedInfo p
      → unflatten_peer_info W (flatten_peer_info W p rest) ≡ some (p, rest)
  unfolding unflatten_peer_info flatten_peer_info read
  unflatten-flatten_peer_info p rest (h, i, j) =
      rw
        (
          unflatten-flatten_id W p.peer_id _ h,
          read,
          W.get-put 4 (length p.timings) _ i,
          read,
          room,
          read_many-write_many _ (unflatten_timing W) (flatten_timing W) unflatten-flatten_timing
              p.timings rest j,
          read,
        )
        refl
    where
      room :
          ltb
            (length (write_many (flatten_timing W) p.timings rest))
            (saturating_multiply (length p.timings) 12)
          ≡ false
      room =
          rw (length-write_many 12 (flatten_timing W) length-flatten_timing p.timings rest)
            (ground arith)

  -- The fields of a packet fit in their integers, and an attribute buffer is not empty.
  pub record IsSizedPacket (p : HeartbeatPacket) : Type 0 where
    pub packet_fits : Fits 4 p.packet_id
    pub version_fits : Fits 4 p.version_code
    pub key_fits : Fits 8 p.system_key
    pub port_fits : Fits 2 p.tcp_port
    pub uptime_fits : Fits 4 p.uptime_seconds
    pub source_fits : IsSizedId W p.source
    pub type_fits : p.peer_type < 2 ^ 15
    pub count_fits : length p.ordered_peers < 2 ^ 16
    pub size_fits : length (buffer_bytes p.attributes) < 2 ^ 16
    pub peers_fit : All IsSizedInfo p.ordered_peers
    pub attributes_present : p.attributes ≢ some []

  -- The peer type and the attached flag share sixteen bits.
  type_bits :
      (t : ℕ) (full : Bool)
      → t < 2 ^ 15
      → ((if full then t % 2 ^ 15 + 2 ^ 15 else t) % 2 ^ 15 ≡ t)
        × (leb (2 ^ 15) (if full then t % 2 ^ 15 + 2 ^ 15 else t) ≡ full)
        × Fits 2 (if full then t % 2 ^ 15 + 2 ^ 15 else t)
  type_bits t true h = ground arith
  type_bits t false h = ground arith

  unflatten_fields_lem :
      (p : HeartbeatPacket) (rest : List ℕ)
      → IsSizedPacket p
      → unflatten_fields W (flatten_fields W p rest) ≡ some (p, rest)
  unfolding unflatten_fields flatten_fields read
  unflatten_fields_lem p rest v =
      rw
        (
          W.get-put 4 p.packet_id _ v.packet_fits,
          read,
          W.get-put 4 p.version_code _ v.version_fits,
          read,
          W.get-put 8 p.system_key _ v.key_fits,
          read,
          W.get-put 2 p.tcp_port _ v.port_fits,
          read,
          W.get-put 4 p.uptime_seconds _ v.uptime_fits,
          read,
          unflatten-flatten_id W p.source _ v.source_fits,
          read,
          W.get-put 2 _ _ (type_bits p.peer_type p.fully_attached v.type_fits).2,
          read,
          small (length p.ordered_peers) v.count_fits,
          W.get-put 2 _ _ v.count_fits,
          read,
          small (length (buffer_bytes p.attributes)) v.size_fits,
          W.get-put 2 _ _ v.size_fits,
          read,
          W.get-put 2 0 _ (omega arith),
          read,
          read_many-write_many _ (unflatten_peer_info W) (flatten_peer_info W)
              unflatten-flatten_peer_info p.ordered_peers _ v.peers_fit,
          read,
          unflatten_attributes_lem p.attributes rest v.attributes_present,
          read,
          (type_bits p.peer_type p.fully_attached v.type_fits).0,
          (type_bits p.peer_type p.fully_attached v.type_fits).1,
        )
        refl
    where
      small : (n : ℕ) → n < 2 ^ 16 → n % 2 ^ 16 ≡ n
      small n h = omega (arith, h)

  length-flatten_heartbeat :
      (p : HeartbeatPacket) (rest : List ℕ)
      → heartbeat_static_size ≤ length (flatten_heartbeat W p rest)
  unfolding flatten_heartbeat flatten_fields flatten_id
  length-flatten_heartbeat p rest = simp (W.length-put) (omega arith)

  -- A heartbeat packet is read back as it was written, whatever follows it: where each field fits
  -- in its integer, the peer type in fifteen bits, the list of peers and the attributes in
  -- sixteen-bit lengths, and an attribute buffer is not empty.
  pub unflatten-flatten_heartbeat :
      (p : HeartbeatPacket) (rest : List ℕ)
      → IsSizedPacket p
      → unflatten_heartbeat W (flatten_heartbeat W p rest) ≡ some (p, rest)
  unfolding unflatten_heartbeat flatten_heartbeat read
  unflatten-flatten_heartbeat p rest v =
      if_false (λ x. x ≡ some (p, rest))
        (ltb (length (flatten_heartbeat W p rest)) heartbeat_static_size) _ _
        (ground (arith, length-flatten_heartbeat p rest))
        (rw (W.get-put 4 heartbeat_type_code _ (omega arith), read) (unflatten_fields_lem p rest v))
