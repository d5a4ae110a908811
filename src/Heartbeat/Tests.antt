-- ===== src/Heartbeat/Tests.antt =====
-- The heartbeat thread on two peers.
use Prim.Native.Nat.{compare, Ordering}
use zg_choir.Base.{
  ◌/◌, ◌≡◌, ◌⊎◌, ◌↔◌, refl, sym, ◌∙◌, true, false, none, some, [], ◌∷◌, if◌then◌else◌, All, arith,
  add64, sub64,
}
use zg_choir.Peer.{peer_lt, no_peer}
use zg_choir.Assoc.{peer_key, number_key, lookup}
use zg_choir.Averager.{average, average_aux, raw_average, near_mean, sum_of_squares}
use zg_choir.Averager.Tests.{saturating, full}
use zg_choir.Replica.Example.{first_peer, second_peer}
use zg_choir.Wire.Heartbeat.{HeartbeatPacket, flatten_heartbeat}
use zg_choir.Wire.Tests.{simple, packet, packet-IsSizedPacket}
use zg_choir.Heartbeat.State.{
  SourceKey, Beat, Source, Settings, Thread, source_key, invalid_offset, preferred_average,
  preferred_average_from,
}
use zg_choir.Heartbeat.Election.{
  Muscle, Sort, kingmaker, list_matches, compare_by_seniority, type_of, uptime_of, largest,
}
use zg_choir.Heartbeat.Clock.{
  to_network, update_offset, source_of, head_key, found_source, follow_clock, update_offset_sync,
}
use zg_choir.Heartbeat.Index.{IsIndexed}
use zg_choir.Heartbeat.Traffic.{receive_beat}
use zg_choir.Heartbeat.Steady.{receive_beat-IsIndexed}
use zg_choir.Heartbeat.Sources.{expire_all}
use zg_choir.Heartbeat.Expiry.{survives, expire_all-lookup}
use zg_choir.Heartbeat.Kingmaker.{Least, IsMatched, kingmaker-Least}
use zg_choir.Heartbeat.Seniority.{Outranks, compare_by_seniority_iff, junior_only_first}
use zg_choir.Heartbeat.Frame.{Zlib, frame, parse_frame, parse-frame}
use zg_choir.Heartbeat.Send.{pulse}
use zg_choir.Heartbeat.Pulse.{Sorts, pulse-IsIndexed}
use zg_choir.Heartbeat.Members.{group, update_members, member_events, hear_all}
use zg_choir.Heartbeat.Heard.{Matches, hear-member_events}
use zg_choir.Heartbeat.Roster.{lookup-update_members}

abbrev own : Settings
own = record {
  local_peer = first_peer;
  peer_type = 0;
  system_key = 77;
  version_code = 1;
  tcp_port = 4001;
  attributes = none;
  heartbeats_per_second = 4;
  max_missing = 4;
  before_attached = 4;
}

abbrev heard : HeartbeatPacket
heard = record packet {
  source = second_peer;
  ordered_peers = record { peer_id = second_peer; timings = [] } ∷ [];
}

abbrev other_key : SourceKey
other_key = record { address = 7; peer = second_peer }

abbrev other_beat : Beat
other_beat = record {
  packet = heard;
  network_send = 400;
  local_receive = 900;
  address = 7;
  source_tag = 1;
  sent_reply = false;
}

abbrev other_source : Source
other_source = record { beat = other_beat; expires = 1900; averagers = (3, full) ∷ [] }

-- A thread that has heard of one other peer, which it takes for the senior.
abbrev one : Thread
one = record {
  settings = own;
  birthdate = 0;
  ping_interval = 250;
  expiration_micros = 1000;
  next_send = 1000;
  now = 1000;
  half_attached = 500;
  fully_attached = 1000;
  attachment_reported = false;
  offset = invalid_offset;
  offset_pending = true;
  dios = record { socket = 1; destination = 3 } ∷ [];
  recreate_requested = false;
  send_times = (1, 850) ∷ [];
  online = (other_key, other_source) ∷ [];
  addresses = (second_peer, 7 ∷ []) ∷ [];
  update_pending = true;
  force_update = false;
  last_sources = other_key ∷ [];
  tag_counter = 0;
  dio_keys = [];
  tag_to_address = [];
  address_to_tag = [];
  latencies = [];
  packet_counter = 3;
}

one-IsIndexed : IsIndexed one
unfolding lookup
one-IsIndexed = record {
  online_table = (refl, tt);
  addresses_table = (refl, tt);
  named = (refl, tt);
  filled = λ p e. ground arith;
  indexed = λ p. ground arith;
}

abbrev plain : Muscle
plain = record {
  valid_address = λ a. true;
  numbers = compare;
  peers =
      λ p q. if peer_lt p q then Ordering.lt else if peer_lt q p then Ordering.gt else Ordering.eq;
  numbers_lem = λ a b. refl;
  peers_lem = λ p q. refl;
}

abbrev unsorted : Sort
unsorted c l = l

unsorted-Sorts : Sorts unsorted
unsorted-Sorts = record { lookup-sort = λ c l p h. refl; sort-IsTable = λ c l h. h }

abbrev stored : Zlib
stored = record {
  deflate = λ raw. some raw;
  inflate = λ z. some z;
  checksum = λ z. 5;
  inflate-deflate = λ raw z h. sym h;
  checksum_fits = λ z. omega arith;
}

receive_beat-IsIndexed_example : IsIndexed (receive_beat saturating other_beat one)
receive_beat-IsIndexed_example = receive_beat-IsIndexed saturating other_beat one one-IsIndexed

pulse-IsIndexed_example :
    IsIndexed (pulse simple stored (λ d. 5) plain unsorted saturating (λ l m. false) one).1.1
pulse-IsIndexed_example =
    pulse-IsIndexed simple stored (λ d. 5) plain unsorted unsorted-Sorts saturating (λ l m. false)
      one one-IsIndexed

expire_all-lookup_example :
    lookup other_key (expire_all one.online one).online
    ≡ survives 1000 (lookup other_key one.online)
unfolding lookup
expire_all-lookup_example = expire_all-lookup other_key one (refl, tt)

kingmaker-Least_example :
    ((kingmaker one ≡ no_peer) ⊎ IsMatched one (kingmaker one) one.online)
    × All
        (λ (e : SourceKey × Source).
          list_matches e.1.beat.packet.ordered_peers one ≡ true
          → Least (kingmaker one) e.1.beat.packet.source)
        one.online
kingmaker-Least_example = kingmaker-Least one (refl, tt)

-- Two peers with a queue each.
abbrev two : Thread
two = record one { addresses = (second_peer, 7 ∷ []) ∷ ((first_peer, []) ∷ []) }

compare_by_seniority_iff_example :
    (compare_by_seniority plain two second_peer first_peer ≡ Ordering.lt)
    ↔ Outranks
        (type_of second_peer (7 ∷ []) two)
        (type_of first_peer [] two)
        (uptime_of second_peer (7 ∷ []) two)
        (uptime_of first_peer [] two)
        second_peer
        first_peer
unfolding lookup
compare_by_seniority_iff_example =
    compare_by_seniority_iff plain two second_peer first_peer (7 ∷ []) [] refl refl

parse-frame_example :
    parse_frame simple stored 7 900 (frame simple stored 1 400 (flatten_heartbeat simple packet []))
    ≡ some (record {
      packet = packet;
      network_send = 400;
      local_receive = 900;
      address = 7;
      source_tag = 1;
      sent_reply = false;
    })
parse-frame_example =
    parse-frame simple stored packet 1 400 7 900 (flatten_heartbeat simple packet []) refl
      packet-IsSizedPacket (omega arith) (omega arith)

lookup-update_members_example :
    lookup first_peer (update_members (other_beat ∷ []) ((first_peer, other_beat ∷ []) ∷ []))
    ≡ lookup first_peer (group (other_beat ∷ []) [])
unfolding lookup
lookup-update_members_example =
    lookup-update_members (other_beat ∷ []) ((first_peer, other_beat ∷ []) ∷ []) first_peer
      (refl, tt)

one-offset : (update_offset saturating one).offset ≡ 18446744073709551122
unfolding update_offset follow_clock source_of head_key found_source lookup preferred_average
    preferred_average_from average average_aux raw_average near_mean sum_of_squares
one-offset = refl

update_offset_sync_example :
    to_network (update_offset saturating one).offset 900
    ≡ add64 400 ((preferred_average saturating (sub64 1000 1000) other_source).0 / 2)
unfolding lookup source_of head_key found_source
update_offset_sync_example =
    update_offset_sync saturating one other_key other_source refl refl refl (λ e. omega (arith, e))
      (λ e. omega (arith, sym one-offset ∙ e))

-- A junior-only peer and a full peer.
abbrev mixed : Thread
mixed = record two { addresses = (second_peer, 7 ∷ []) ∷ ((first_peer, []) ∷ []) }

junior_only_first_example : compare_by_seniority plain mixed second_peer first_peer ≡ Ordering.lt
unfolding lookup largest
junior_only_first_example =
    junior_only_first plain mixed second_peer first_peer (7 ∷ []) [] refl refl refl refl

heard-Matches : Matches ((second_peer, some (4 ∷ [])) ∷ []) ((second_peer, other_beat ∷ []) ∷ [])
unfolding lookup
heard-Matches r = ground arith

hear-member_events_example :
    Matches
      (hear_all
        (member_events (other_beat ∷ []) ((second_peer, other_beat ∷ []) ∷ []))
        ((second_peer, some (4 ∷ [])) ∷ []))
      (update_members (other_beat ∷ []) ((second_peer, other_beat ∷ []) ∷ []))
unfolding lookup
hear-member_events_example =
    hear-member_events (other_beat ∷ []) ((second_peer, other_beat ∷ []) ∷ [])
      ((second_peer, some (4 ∷ [])) ∷ []) (refl, tt) (refl, tt) heard-Matches
