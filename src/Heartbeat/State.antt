-- ===== src/Heartbeat/State.antt =====
-- The data of `PZGHeartbeatThreadState` (include/zg/private/PZGHeartbeatThreadState.h) and of
-- `PZGHeartbeatSourceState` (src/private/PZGHeartbeatSourceState.cpp).
use zg_choir.Base.{
  ℕ, ◌-◌, ◌^◌, ◌*◌, ◌/◌, ◌%◌, max, add64, ◌≡◌, ◌↔◌, Bool, true, false, ◌&&◌, Option, none, some,
  List, [], ◌∷◌, ◌++◌, ◌==◌, if◌then◌else◌, arith, max_u64, leb,
}
use zg_choir.Peer.{PeerId, peer_eq}
use zg_choir.Assoc.{Key, number_key, lookup, insert}
use zg_choir.Averager.{Averager, Arithmetic, new_averager, add_measurement, average}
use zg_choir.Wire.Heartbeat.{HeartbeatPacket}

-- `PZGHeartbeatSourceKey`: a network address, and the peer that sends from it.
pub record SourceKey : Type 0 where
  pub address : ℕ
  pub peer : PeerId

abbrev pub source_eq : SourceKey → SourceKey → Bool
source_eq a b = (a.address == b.address) && peer_eq a.peer b.peer

pub source_eq_iff : (a b : SourceKey) → (source_eq a b ≡ true) ↔ (a ≡ b)
source_eq_iff a b = ground arith

instance abbrev pub source_key : Key SourceKey
source_key = record { same = source_eq; same_iff = source_eq_iff }

-- `PZGHeartbeatPacketWithMetaData`, past what the packet itself says.
pub record Beat : Type 0 where
  pub packet : HeartbeatPacket
  pub network_send : ℕ
  pub local_receive : ℕ
  pub address : ℕ
  pub source_tag : ℕ
  pub sent_reply : Bool

-- `PZGHeartbeatSourceState`: an averager for each multicast address.
pub record Source : Type 0 where
  pub beat : Beat
  pub expires : ℕ
  pub averagers : List (ℕ × Averager)

-- What `PZGHeartbeatThreadState` reads of its `PZGHeartbeatSettings`.
pub record Settings : Type 0 where
  pub local_peer : PeerId
  pub peer_type : ℕ
  pub system_key : ℕ
  pub version_code : ℕ
  pub tcp_port : ℕ
  pub attributes : Option (List ℕ)
  pub heartbeats_per_second : ℕ
  pub max_missing : ℕ
  pub before_attached : ℕ

-- A multicast socket: which one it is, and the address that it sends to.
pub record Dio : Type 0 where
  pub socket : ℕ
  pub destination : ℕ

-- The times, flags and tables of `PZGHeartbeatThreadState`. A time offset is a 64-bit word; the
-- counter of packet ids is the settings' own.
pub record Thread : Type 0 where
  pub settings : Settings
  pub birthdate : ℕ
  pub ping_interval : ℕ
  pub expiration_micros : ℕ
  pub next_send : ℕ
  pub now : ℕ
  pub half_attached : ℕ
  pub fully_attached : ℕ
  pub attachment_reported : Bool
  pub offset : ℕ
  pub offset_pending : Bool
  pub dios : List Dio
  pub recreate_requested : Bool
  pub send_times : List (ℕ × ℕ)
  pub online : List (SourceKey × Source)
  pub addresses : List (PeerId × List ℕ)
  pub update_pending : Bool
  pub force_update : Bool
  pub last_sources : List SourceKey
  pub tag_counter : ℕ
  pub dio_keys : List Dio
  pub tag_to_address : List (ℕ × ℕ)
  pub address_to_tag : List (ℕ × ℕ)
  pub latencies : List (PeerId × ℕ)
  pub packet_counter : ℕ

-- `Initialize`; what it does not set stays.
unfoldable pub initialize : Settings → ℕ → Thread → Thread
initialize s start t =
    let ping = 1000000 / max 1 s.heartbeats_per_second in
    record t {
      settings = s;
      birthdate = start;
      ping_interval = ping;
      expiration_micros = (ping * s.max_missing) % 2 ^ 64;
      next_send = start;
      now = start;
      half_attached = add64 start ((s.before_attached * ping) % 2 ^ 64 / 2);
      fully_attached = add64 start ((s.before_attached * ping) % 2 ^ 64);
      attachment_reported = false;
      offset = 2 ^ 63 - 1;
      offset_pending = false;
      recreate_requested = true;
      update_pending = false;
      force_update = false;
      tag_counter = 0;
      dio_keys = [];
    }

-- `PEER_TYPE_FULL_PEER` and `PEER_TYPE_JUNIOR_ONLY`.
abbrev pub full_peer : ℕ
full_peer = 0

abbrev pub junior_only : ℕ
junior_only = 1

-- `INVALID_TIME_OFFSET` and `MUSCLE_TIME_NEVER`.
abbrev pub invalid_offset : ℕ
invalid_offset = 2 ^ 63 - 1

abbrev pub time_never : ℕ
time_never = max_u64

-- `IsAtLeastHalfAttached` and `IsFullyAttached`.
abbrev pub is_half_attached : Thread → Bool
is_half_attached t = leb t.half_attached t.now

abbrev pub is_fully_attached : Thread → Bool
is_fully_attached t = leb t.fully_attached t.now

-- `ScheduleUpdateOfficialPeersList`.
abbrev pub schedule_update : Bool → Thread → Thread
schedule_update force t = record t {
  update_pending = true;
  force_update = if force then true else t.force_update;
}

-- `PZGHeartbeatSourceState::SetHeartbeatPacket`.
abbrev pub set_beat : Beat → ℕ → Source → Source
set_beat b expires s = record s { beat = b; expires = expires }

module _ (M : Arithmetic) where
  -- `PZGHeartbeatSourceState::AddMeasurement`; the averagers hold twenty measurements at most.
  unfoldable pub source_measurement : ℕ → ℕ → ℕ → Source → Source
  source_measurement multicast micros now s =
      let old : Averager = elim (lookup multicast s.averagers) [
        | none ↦ new_averager 20
        | some a ↦ a
      ] in
      elim (add_measurement M 21 micros now old) [
        | none ↦ s
        | some a ↦ record s { averagers = insert multicast a s.averagers }
      ]

  -- The loop of `PZGHeartbeatSourceState::GetPreferredAverageValue`: the averagers that it has
  -- passed go to the back, and what it calculates stays in the averager that it takes.
  unfoldable pub preferred_average_from :
      ℕ → List (ℕ × Averager) → List (ℕ × Averager) → ℕ × List (ℕ × Averager)
  preferred_average_from after passed [] = (0, passed)
  preferred_average_from after passed ((m, a) ∷ l) =
      let rest = preferred_average_from after (passed ++ ((m, a) ∷ [])) l in
      if leb after a.last_time
      then ((average M a).0, (m, (average M a).1) ∷ (l ++ passed))
      else rest

  unfoldable pub preferred_average : ℕ → Source → ℕ × Source
  preferred_average after s =
      let (v, l) = preferred_average_from after [] s.averagers in (v, record s { averagers = l })
