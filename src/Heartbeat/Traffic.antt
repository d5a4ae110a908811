-- ===== src/Heartbeat/Traffic.antt =====
-- What the heartbeat thread does with a packet that it receives (`ReceiveMulticastTraffic`), and with
-- the list of peers that it reports (`UpdateOfficialPeersList`). Whether two tables have the same
-- keys is MUSCLE's comparison, a parameter.
use zg_choir.Base.{
  ℕ, Bool, true, false, not, ◌&&◌, ◌||◌, Option, none, some, List, [], ◌∷◌, ◌++◌, ◌==◌,
  if◌then◌else◌,
}
use zg_choir.Peer.{PeerId, peer_eq}
use zg_choir.Assoc.{peer_key, number_key, lookup, insert, holds}
use zg_choir.Averager.{Arithmetic}
use zg_choir.Heartbeat.State.{
  SourceKey, Beat, Source, Thread, source_key, schedule_update, is_fully_attached, time_never,
  preferred_average,
}
use zg_choir.Heartbeat.Sources.{measure, refresh_source, queue_of}
use zg_choir.Heartbeat.Election.{Muscle, Sort, kingmaker, ordered_peers}
use zg_choir.Heartbeat.Clock.{senior_peer, update_offset, source_of}

-- What a packet of a peer makes the next pulse do.
unfoldable pub schedule_for : PeerId → Thread → Thread
schedule_for p t =
    let u : Thread =
      if not t.update_pending && peer_eq p (kingmaker t) then schedule_update false t else t in
    if peer_eq p (senior_peer u) then record u { offset_pending = true } else u

-- The keys of the sources of the peers, in the peers' order: a key that is there keeps its place.
unfoldable pub add_keys : PeerId → List ℕ → List SourceKey → List SourceKey
add_keys p [] l = l
add_keys p (a ∷ q) l =
    let k : SourceKey = record { address = a; peer = p } in
    add_keys p q (if holds k l then l else l ++ (k ∷ []))

unfoldable pub source_keys : List PeerId → List (PeerId × List ℕ) → List SourceKey → List SourceKey
source_keys [] addresses l = l
source_keys (p ∷ ps) addresses l = source_keys ps addresses (add_keys p (queue_of p addresses) l)

-- The packets that go to the owner: those of the sources that are fully attached.
unfoldable pub reported : List SourceKey → List (SourceKey × Source) → List Beat
reported [] online = []
reported (k ∷ l) online =
    let rest = reported l online in
    elim (lookup k online) [
      | none ↦ rest
      | some s ↦ if s.beat.packet.fully_attached then s.beat ∷ rest else rest
    ]

module _ (M : Arithmetic) where
  -- One packet in `ReceiveMulticastTraffic`: those of another version or another system are
  -- ignored.
  unfoldable pub receive_beat : Beat → Thread → Thread
  receive_beat b t =
      let k : SourceKey = record { address = b.address; peer = b.packet.source } in
      let t' = schedule_for b.packet.source (refresh_source k b (measure M k b t)) in
      if (b.packet.version_code == t.settings.version_code)
        && (b.packet.system_key == t.settings.system_key)
      then t'
      else t

  module _ (C : Muscle) (sort : Sort) (same_keys : List SourceKey → List SourceKey → Bool) where
    -- `UpdateOfficialPeersList`.
    unfoldable pub update_official : Bool → Thread → Option (List Beat) × Thread
    update_official force t =
        let (peers, u) = ordered_peers C sort t in
        let keys = source_keys peers u.addresses [] in
        let changed = force || not (same_keys keys u.last_sources) in
        let u' : Thread = if changed then record u { last_sources = keys } else u in
        let message = if is_fully_attached u' then some (reported keys u'.online) else none in
        (if changed then message else none, update_offset M u')

    -- The first part of `Pulse`.
    unfoldable pub pulse_update : Thread → Option (List Beat) × Thread
    pulse_update t =
        if t.update_pending
        then update_official t.force_update
            (record t { update_pending = false; force_update = false })
        else (none, t)

  -- The loop of `Pulse` that puts the latencies where the main thread reads them.
  unfoldable pub peer_latency : PeerId → Option (SourceKey × Source) → Thread → Thread
  peer_latency p none t = record t { latencies = insert p time_never t.latencies }
  peer_latency p (some (k, s)) t =
      let (v, s') = preferred_average M 0 s in
      record t { latencies = insert p v t.latencies; online = insert k s' t.online }

  unfoldable pub refresh_latencies : List (PeerId × List ℕ) → Thread → Thread
  refresh_latencies [] t = t
  refresh_latencies ((p, q) ∷ l) t = refresh_latencies l (peer_latency p (source_of p t) t)

-- The end of `Pulse`.
unfoldable pub report_attachment : Thread → Thread
report_attachment t =
    if not t.attachment_reported && is_fully_attached t
    then schedule_update true (record t { attachment_reported = true })
    else t
