-- ===== src/Heartbeat/Frame.antt =====
-- The datagram that carries a heartbeat packet (`ParseHeartbeatPacketBuffer`, and what
-- `SendHeartbeatPackets` writes). Deflation and the checksum are MUSCLE's, parameters.
use zg_choir.Base.{
  ℕ, ◌^◌, ◌<◌, ◌≡◌, refl, false, not, Option, none, some, List, [], ◌==◌, if◌then◌else◌, arith,
  length, ltb, if_false, ==_iff,
}
use zg_choir.Wire.Codec.{Codec, Fits}
use zg_choir.Wire.Heartbeat.{HeartbeatPacket, flatten_heartbeat, unflatten_heartbeat}
use zg_choir.Wire.Heartbeat.RoundTrip.{IsSizedPacket, unflatten-flatten_heartbeat}
use zg_choir.Heartbeat.State.{Beat}

-- `ZLibCodec`, whose inflation takes back what its deflation made, and `CalculateChecksum`.
pub record Zlib : Type 0 where
  pub deflate : List ℕ → Option (List ℕ)
  pub inflate : List ℕ → Option (List ℕ)
  pub checksum : List ℕ → ℕ
  pub inflate-deflate : (raw z : List ℕ) → deflate raw ≡ some z → inflate z ≡ some raw
  pub checksum_fits : (z : List ℕ) → checksum z < 256 ^ 4

-- `HB_HEADER_SIZE` and `HB_HEADER_MAGIC`.
abbrev pub header_size : ℕ
header_size = 16

abbrev pub header_magic : ℕ
header_magic = 25874

abbrev pub after : {A B : Type 0} → Option (A × List ℕ) → (A → List ℕ → Option B) → Option B
after none k = none
after (some (a, rest)) k = k a rest

abbrev pub after_inflate : {B : Type 0} → Option (List ℕ) → (List ℕ → Option B) → Option B
after_inflate none k = none
after_inflate (some raw) k = k raw

module _ (W : Codec) (Z : Zlib) where
  -- What is sent: the header, in which the tag says which socket sends, and the deflated packet.
  unfoldable pub frame : ℕ → ℕ → List ℕ → List ℕ
  frame tag time z = W.put 2 header_magic (W.put 2 tag (W.put 8 time (W.put 4 (Z.checksum z) z)))

  -- The packet in an inflated datagram, with what the receiver notes of it.
  unfoldable pub parse_payload : ℕ → ℕ → ℕ → ℕ → List ℕ → Option Beat
  parse_payload tag time address now z = after_inflate (Z.inflate z) (λ raw.
      after (unflatten_heartbeat W raw) (λ p rest. some (record {
        packet = p;
        network_send = time;
        local_receive = now;
        address = address;
        source_tag = tag;
        sent_reply = false;
      })))

  -- `ParseHeartbeatPacketBuffer`.
  unfoldable pub parse_frame : ℕ → ℕ → List ℕ → Option Beat
  parse_frame address now b =
      if ltb (length b) header_size
      then none
      else after (W.get 2 b) (λ magic b. after (W.get 2 b) (λ tag b. after (W.get 8 b) (λ time b.
        after (W.get 4 b) (λ sum z.
          if not (magic == header_magic)
          then none
          else (if not (sum == Z.checksum z)
              then none
              else parse_payload tag time address now z)))))

  parse_payload_lem :
      (p : HeartbeatPacket) (tag time address now : ℕ) (z : List ℕ)
      → Z.deflate (flatten_heartbeat W p []) ≡ some z
      → IsSizedPacket W p
      → parse_payload tag time address now z
        ≡ some (record {
          packet = p;
          network_send = time;
          local_receive = now;
          address = address;
          source_tag = tag;
          sent_reply = false;
        })
  unfolding parse_payload
  parse_payload_lem p tag time address now z h v =
      rw (Z.inflate-deflate _ z h, unflatten-flatten_heartbeat W p [] v) refl

  length-frame : (tag time : ℕ) (z : List ℕ) → ltb (length (frame tag time z)) header_size ≡ false
  unfolding frame
  length-frame tag time z = simp (W.length-put) (ground arith)

  -- A heartbeat packet that is deflated and sent in a datagram is parsed as it was, with the tag
  -- and the network time that the header carries: for a packet whose fields fit, and a tag and a
  -- time that do.
  pub parse-frame :
      (p : HeartbeatPacket) (tag time address now : ℕ) (z : List ℕ)
      → Z.deflate (flatten_heartbeat W p []) ≡ some z
      → IsSizedPacket W p
      → Fits 2 tag
      → Fits 8 time
      → parse_frame address now (frame tag time z)
        ≡ some (record {
          packet = p;
          network_send = time;
          local_receive = now;
          address = address;
          source_tag = tag;
          sent_reply = false;
        })
  unfolding parse_frame frame
  parse-frame p tag time address now z h v ht hm =
      rw
        (
          length-frame tag time z,
          W.get-put 2 header_magic _ (omega arith),
          W.get-put 2 tag _ ht,
          W.get-put 8 time _ hm,
          W.get-put 4 (Z.checksum z) _ (Z.checksum_fits z),
          (==_iff (Z.checksum z) (Z.checksum z)).1 refl,
        )
        (parse_payload_lem p tag time address now z h v)

  -- A datagram whose payload does not have the checksum of its header is not taken for a
  -- heartbeat.
  pub parse-frame_corrupt :
      (tag time sum address now : ℕ) (z : List ℕ)
      → Fits 2 tag
      → Fits 8 time
      → Fits 4 sum
      → (sum == Z.checksum z) ≡ false
      → parse_frame address now (W.put 2 header_magic (W.put 2 tag (W.put 8 time (W.put 4 sum z))))
        ≡ none
  unfolding parse_frame
  parse-frame_corrupt tag time sum address now z ht hm hs h =
      if_false (λ x. x ≡ none)
        (ltb (length (W.put 2 header_magic (W.put 2 tag (W.put 8 time (W.put 4 sum z)))))
          header_size)
        _ _ (simp (W.length-put) (ground arith))
        (rw
          (
            W.get-put 2 header_magic _ (omega arith),
            W.get-put 2 tag _ ht,
            W.get-put 8 time _ hm,
            W.get-put 4 sum _ hs,
            h,
          )
          refl)
