-- ===== src/Heartbeat/Sources.antt =====
-- How `PZGHeartbeatThreadState` comes to know of a source of heartbeats, and how it forgets one.
use zg_choir.Base.{
  ℕ, true, not, Option, none, some, List, [], ◌∷◌, ◌++◌, ◌==◌, if◌then◌else◌, leb, add64, sub64,
}
use zg_choir.Peer.{PeerId, peer_eq}
use zg_choir.Assoc.{peer_key, number_key, lookup, insert, erase}
use zg_choir.Averager.{Arithmetic}
use zg_choir.Wire.Heartbeat.{PeerInfo, TimingInfo, equal_ignoring_transients}
use zg_choir.Heartbeat.State.{
  SourceKey, Beat, Source, Thread, source_key, schedule_update, set_beat, source_measurement,
  time_never,
}

-- `RemoveFirstInstanceOf`.
unfoldable pub remove_first : ℕ → List ℕ → List ℕ
remove_first a [] = []
remove_first a (b ∷ l) = let rest = b ∷ remove_first a l in if b == a then l else rest

-- What `ExpireSource` does to the queue of a peer's addresses: a queue that it empties goes.
unfoldable pub settle_queue : PeerId → List ℕ → Thread → Thread
settle_queue p [] t = record t { addresses = erase p t.addresses; latencies = erase p t.latencies }
settle_queue p (b ∷ l) t = record t { addresses = insert p (b ∷ l) t.addresses }

unfoldable pub forget_address : PeerId → ℕ → Option (List ℕ) → Thread → Thread
forget_address p a none t = t
forget_address p a (some []) t = t
forget_address p a (some (b ∷ q)) t = settle_queue p (remove_first a (b ∷ q)) t

-- `ExpireSource`.
unfoldable pub expire_found : SourceKey → Option Source → Thread → Thread
expire_found k none t = t
expire_found k (some s) t =
    let p = s.beat.packet.source in
    let t' : Thread = forget_address p k.address (lookup p t.addresses) t in
    schedule_update true (record t' { online = erase k t'.online })

unfoldable pub expire_source : SourceKey → Thread → Thread
expire_source k t = expire_found k (lookup k t.online) t

-- The queue that `GetOrPut` finds or makes.
abbrev pub or_empty : Option (List ℕ) → List ℕ
or_empty none = []
or_empty (some q) = q

abbrev pub queue_of : PeerId → List (PeerId × List ℕ) → List ℕ
queue_of p l = or_empty (lookup p l)

-- `IntroduceSource`.
unfoldable pub introduce_source : SourceKey → Beat → ℕ → Thread → Thread
introduce_source k b expires t =
    let p = b.packet.source in
    schedule_update true (record t {
      online = insert k (record { beat = b; expires = expires; averagers = [] }) t.online;
      addresses = insert p (queue_of p t.addresses ++ (k.address ∷ [])) t.addresses;
    })

-- The loop of `Pulse` over the sources that have expired.
unfoldable pub expire_all : List (SourceKey × Source) → Thread → Thread
expire_all [] t = t
expire_all ((k, s) ∷ l) t = expire_all l (if leb s.expires t.now then expire_source k t else t)

-- The first timing of this peer's list that names an address in use.
unfoldable pub known_timing : List TimingInfo → Thread → Option (ℕ × TimingInfo)
known_timing [] t = none
known_timing (i ∷ l) t =
    let rest = known_timing l t in
    elim (lookup i.source_tag t.tag_to_address) [ some m ↦ some (m, i) | none ↦ rest ]

-- The entry of this peer in the list that the packet carries.
unfoldable pub own_timings : PeerId → List PeerInfo → List TimingInfo
own_timings p [] = []
own_timings p (i ∷ l) =
    let rest = own_timings p l in if peer_eq i.peer_id p then i.timings else rest

-- When a source will be taken for offline: never, for this peer itself.
abbrev pub expiration : Beat → Thread → ℕ
expiration b t =
    if peer_eq b.packet.source t.settings.local_peer
    then time_never
    else add64 b.local_receive t.expiration_micros

-- A packet of a source that is known, or of one that is new or has changed.
unfoldable pub refresh_found : SourceKey → Beat → Option Source → Thread → Thread
refresh_found k b none t = introduce_source k b (expiration b t) t
refresh_found k b (some s) t =
    let changed =
      if s.beat.packet.fully_attached
      then not b.packet.fully_attached
      else b.packet.fully_attached in
    let t' : Thread = if changed then schedule_update true t else t in
    if equal_ignoring_transients b.packet s.beat.packet
    then record t' { online = insert k (set_beat b (expiration b t) s) t'.online }
    else introduce_source k b (expiration b t) (expire_source k t)

unfoldable pub refresh_source : SourceKey → Beat → Thread → Thread
refresh_source k b t = refresh_found k b (lookup k t.online) t

module _ (M : Arithmetic) where
  -- A measured round trip goes into the source's averager.
  unfoldable pub measure_source : SourceKey → ℕ → ℕ → Option Source → Thread → Thread
  measure_source k multicast micros none t = t
  measure_source k multicast micros (some s) t = record t {
    online = insert k (source_measurement M multicast micros t.now s) t.online;
  }

  unfoldable pub measure_sent : SourceKey → ℕ → TimingInfo → Beat → Option ℕ → Thread → Thread
  measure_sent k multicast i b none t = t
  measure_sent k multicast i b (some sent) t =
      if i.dwell_micros == 4294967295
      then t
      else measure_source k multicast (sub64 b.local_receive (add64 sent i.dwell_micros))
          (lookup k t.online) t

  unfoldable pub measure_timing : SourceKey → Beat → Option (ℕ × TimingInfo) → Thread → Thread
  measure_timing k b none t = t
  measure_timing k b (some (multicast, i)) t =
      measure_sent k multicast i b (lookup i.packet_id t.send_times) t

  unfoldable pub measure : SourceKey → Beat → Thread → Thread
  measure k b t =
      measure_timing k b (known_timing (own_timings t.settings.local_peer b.packet.ordered_peers) t)
        t
