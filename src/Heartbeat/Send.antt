-- ===== src/Heartbeat/Send.antt =====
-- What the heartbeat thread sends, and its pulse: `SendHeartbeatPackets`,
-- `GetPZGHeartbeatPeerInfoRefFor`, `EnsureHeartbeatSourceTagsTableUpdated`, `GetPulseTime` and `Pulse`.
-- The time at which each socket sends is a parameter.
use zg_choir.Base.{
  ℕ, ◌+◌, ◌-◌, ◌/◌, ◌%◌, ◌^◌, Bool, true, false, ◌&&◌, ◌||◌, Option, none, some, List, [], ◌∷◌,
  ◌==◌, if◌then◌else◌, leb, ltb, length, drop, min, add64, sub64, add32,
}
use zg_choir.Peer.{PeerId}
use zg_choir.Assoc.{peer_key, number_key, lookup, insert, erase, has, holds}
use zg_choir.Averager.{Arithmetic}
use zg_choir.Wire.Codec.{Codec}
use zg_choir.Wire.Heartbeat.{HeartbeatPacket, PeerInfo, put_timing_info, flatten_heartbeat}
use zg_choir.Heartbeat.State.{
  SourceKey, Beat, Source, Dio, Thread, source_key, full_peer, is_fully_attached, is_half_attached,
}
use zg_choir.Heartbeat.Sources.{queue_of, expire_all}
use zg_choir.Heartbeat.Election.{Muscle, Sort, ordered_peers}
use zg_choir.Heartbeat.Clock.{to_network, update_offset}
use zg_choir.Heartbeat.Traffic.{pulse_update, refresh_latencies, report_attachment}
use zg_choir.Heartbeat.Frame.{Zlib, frame}

-- The loop of `GetPZGHeartbeatPeerInfoRefFor`: each packet of the peer is answered once.
unfoldable pub answer : SourceKey → Option Source → PeerInfo → Thread → PeerInfo × Thread
answer k none i t = (i, t)
answer k (some s) i t =
    let b = s.beat in
    let dwell = min (sub64 t.now b.local_receive) (2 ^ 32 - 1) in
    if b.sent_reply then (i, t) else (
      put_timing_info b.source_tag b.packet.packet_id dwell i,
      record t { online = insert k (record s { beat = record b { sent_reply = true } }) t.online },
    )

unfoldable pub answer_all : PeerId → List ℕ → PeerInfo → Thread → PeerInfo × Thread
answer_all p [] i t = (i, t)
answer_all p (a ∷ q) i t =
    let k : SourceKey = record { address = a; peer = p } in
    let (i', t') = answer k (lookup k t.online) i t in answer_all p q i' t'

unfoldable pub peer_info : PeerId → Thread → PeerInfo × Thread
peer_info p t = answer_all p (queue_of p t.addresses) (record { peer_id = p; timings = [] }) t

unfoldable pub peer_infos : List PeerId → Thread → List PeerInfo × Thread
peer_infos [] t = ([], t)
peer_infos (p ∷ l) t =
    let (i, t') = peer_info p t in let (is, t'') = peer_infos l t' in (i ∷ is, t'')

-- `PZGHeartbeatPacket::Initialize`, as `SendHeartbeatPackets` calls it.
unfoldable pub new_packet : ℕ → Thread → HeartbeatPacket
new_packet id t = record {
  packet_id = id;
  version_code = t.settings.version_code;
  system_key = t.settings.system_key;
  tcp_port = t.settings.tcp_port;
  uptime_seconds = (sub64 t.now t.birthdate / 1000000) % 2 ^ 32;
  source = t.settings.local_peer;
  peer_type = t.settings.peer_type;
  fully_attached = is_fully_attached t;
  ordered_peers = [];
  attributes = t.settings.attributes;
}

-- The packet to send: a full peer that is half attached adds its list of peers.
unfoldable pub make_packet : Muscle → Sort → Thread → HeartbeatPacket × Thread
make_packet C sort t =
    let id = add32 t.packet_counter 1 in
    let u : Thread = record t { packet_counter = id } in
    let (peers, u') = ordered_peers C sort u in
    let (infos, u'') = peer_infos peers u' in
    if (t.settings.peer_type == full_peer) && is_half_attached t
    then (record (new_packet id t) { ordered_peers = infos }, u'')
    else (new_packet id t, u)

-- `DiscardRoundTripTimeAverager` on every source.
unfoldable pub discard_averagers : ℕ → List (SourceKey × Source) → List (SourceKey × Source)
discard_averagers a [] = []
discard_averagers a ((k, s) ∷ l) =
    (k, record s { averagers = erase a s.averagers }) ∷ discard_averagers a l

-- The first loop of `EnsureHeartbeatSourceTagsTableUpdated`: the destinations that are gone.
unfoldable pub drop_tags : List ℕ → List (ℕ × ℕ) → Thread → Thread
drop_tags dests [] t = t
drop_tags dests ((a, tag) ∷ l) t = drop_tags dests l (
    if holds a dests then t else record t {
      online = discard_averagers a t.online;
      address_to_tag = erase a t.address_to_tag;
      tag_to_address = erase tag t.tag_to_address;
    })

-- The second loop: the destinations that are new. The tag 0 is not given out.
unfoldable pub next_tag : ℕ → ℕ
next_tag counter = if (counter + 1) % 2 ^ 16 == 0 then 1 else (counter + 1) % 2 ^ 16

unfoldable pub add_tags : List ℕ → Thread → Thread
add_tags [] t = t
add_tags (a ∷ l) t = add_tags l (
    if has a t.address_to_tag then t else record t {
      tag_counter = next_tag t.tag_counter;
      tag_to_address = insert (next_tag t.tag_counter) a t.tag_to_address;
      address_to_tag = insert a (next_tag t.tag_counter) t.address_to_tag;
    })

unfoldable pub destinations : (ℕ → Bool) → List Dio → List ℕ
destinations valid [] = []
destinations valid (d ∷ l) =
    let rest = destinations valid l in if valid d.destination then d.destination ∷ rest else rest

-- Whether two lists are of the same sockets.
unfoldable pub same_sockets : List Dio → List Dio → Bool
same_sockets [] [] = true
same_sockets (d ∷ l) (e ∷ m) = (d.socket == e.socket) && same_sockets l m
same_sockets _ _ = false

unfoldable pub tag_all : List Dio → List ℕ → Thread → Thread
tag_all [] dests t = t
tag_all (_ ∷ _) dests t = add_tags dests t

-- `EnsureHeartbeatSourceTagsTableUpdated`.
unfoldable pub ensure_tags : (ℕ → Bool) → Thread → Thread
ensure_tags valid t =
    let dests = destinations valid t.dios in
    let t' = drop_tags dests t.address_to_tag (record t { dio_keys = t.dios }) in
    if same_sockets t.dios t.dio_keys then t else tag_all t.dios dests t'

-- The local times at which the last hundred heartbeats were sent.
unfoldable pub remember_send : ℕ → Thread → Thread
remember_send id t =
    let sent = insert id t.now t.send_times in
    record t { send_times = if ltb 100 (length sent) then drop 1 sent else sent }

module _ (W : Codec) (Z : Zlib) (sent_at : ℕ → ℕ) where
  -- The datagrams that `SendHeartbeatPackets` writes: to each destination that has a tag, with the
  -- time at which its socket sends.
  unfoldable pub frames : List ℕ → List Dio → Thread → List (ℕ × List ℕ)
  frames z [] t = []
  frames z (d ∷ l) t =
      let rest = frames z l t in
      elim (lookup d.destination t.address_to_tag) [
        | none ↦ rest
        | some tag ↦
            (d.destination, frame W Z tag (to_network t.offset (sent_at d.socket)) z) ∷ rest
      ]

  module _ (C : Muscle) where
    -- The end of `SendHeartbeatPackets`, once the packet is deflated, or where that fails.
    unfoldable pub send_deflated : ℕ → Option (List ℕ) → Thread → List (ℕ × List ℕ) × Thread
    send_deflated id none t = ([], t)
    send_deflated id (some z) t =
        let u = ensure_tags C.valid_address t in (frames z u.dios u, remember_send id u)

    module _ (sort : Sort) where
      -- `SendHeartbeatPackets`: nothing where there is no socket to send to.
      unfoldable pub send_on : List Dio → Thread → List (ℕ × List ℕ) × Thread
      send_on [] t = ([], t)
      send_on (_ ∷ _) t =
          let (p, u) = make_packet C sort t in
          send_deflated p.packet_id (Z.deflate (flatten_heartbeat W p [])) u

      unfoldable pub send_heartbeats : Thread → List (ℕ × List ℕ) × Thread
      send_heartbeats t = send_on t.dios t

      module _ (M : Arithmetic) where
        -- The part of `Pulse` that sends.
        unfoldable pub pulse_send : Thread → List (ℕ × List ℕ) × Thread
        pulse_send t =
            let (out, u) = send_heartbeats (record t { next_send = add64 t.now t.ping_interval }) in
            if leb t.next_send t.now then (out, refresh_latencies M u.addresses u) else ([], t)

        -- `Pulse`: the message for the owner, the datagrams, and the state.
        unfoldable pub pulse :
            (List SourceKey → List SourceKey → Bool)
            → Thread
            → Option (List Beat) × (List (ℕ × List ℕ) × Thread)
        pulse same_keys t =
            let (message, t1) = pulse_update M C sort same_keys t in
            let t2 : Thread = if t1.offset_pending then update_offset M t1 else t1 in
            let (out, t3) = pulse_send t2 in
            (message, (out, report_attachment (expire_all t3.online t3)))

-- `GetPulseTime`.
unfoldable pub earliest : List (SourceKey × Source) → ℕ → ℕ
earliest [] time = time
earliest ((k, s) ∷ l) time = earliest l (min time s.expires)

unfoldable pub pulse_time : Thread → ℕ
pulse_time t = if t.update_pending || t.offset_pending then 0 else earliest t.online t.next_send
