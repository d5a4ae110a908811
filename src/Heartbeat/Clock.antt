-- ===== src/Heartbeat/Clock.antt =====
-- The clock that the peers share (src/private/PZGHeartbeatThreadState.cpp and its header): the offset
-- of the network's clock from this computer's.
use zg_choir.Base.{
  ℕ, ◌^◌, ◌/◌, ◌≡◌, ◌≢◌, ◌<◌, subst, refl, Bool, true, false, ◌||◌, Option, none, some, List, [],
  ◌∷◌, ◌==◌, if◌then◌else◌, add64, sub64, arith, ==_iff,
}
use zg_choir.Peer.{PeerId, peer_eq, no_peer}
use zg_choir.Assoc.{lookup, insert, peer_key}
use zg_choir.Averager.{Arithmetic}
use zg_choir.Heartbeat.State.{
  SourceKey, Source, Thread, source_key, invalid_offset, time_never, is_half_attached,
  preferred_average,
}

-- `GetNetworkTime64ForRunTime64` and `GetRunTime64ForNetworkTime64`.
unfoldable pub to_network : ℕ → ℕ → ℕ
to_network offset local =
    if (offset == invalid_offset) || (local == time_never) then time_never else add64 local offset

unfoldable pub to_local : ℕ → ℕ → ℕ
to_local offset network =
    if (offset == invalid_offset) || (network == time_never)
    then time_never
    else sub64 network offset

-- `GetSeniorPeerID` and `IAmTheSeniorPeer`.
abbrev pub first_peer : List SourceKey → PeerId
first_peer [] = no_peer
first_peer (k ∷ l) = k.peer

abbrev pub senior_peer : Thread → PeerId
senior_peer t = first_peer t.last_sources

abbrev pub is_senior : Thread → Bool
is_senior t = peer_eq (senior_peer t) t.settings.local_peer

-- The first source of a peer, as `UpdateToNetworkTimeOffset` and `Pulse` look for it.
unfoldable pub head_key : PeerId → Option (List ℕ) → Option SourceKey
head_key p none = none
head_key p (some []) = none
head_key p (some (a ∷ l)) = some (record { address = a; peer = p })

abbrev pub with_key : SourceKey → Option Source → Option (SourceKey × Source)
with_key k none = none
with_key k (some s) = some (k, s)

unfoldable pub found_source : Option SourceKey → Thread → Option (SourceKey × Source)
found_source none t = none
found_source (some k) t = with_key k (lookup k t.online)

unfoldable pub source_of : PeerId → Thread → Option (SourceKey × Source)
source_of p t = found_source (head_key p (lookup p t.addresses)) t

to_network_lem :
    (sent received half : ℕ)
    → sub64 sent (sub64 received half) ≢ invalid_offset
    → received ≢ time_never
    → to_network (sub64 sent (sub64 received half)) received ≡ add64 sent half
unfolding to_network
to_network_lem sent received half h hn =
    ground
      (arith, ==_iff (sub64 sent (sub64 received half)) invalid_offset, ==_iff received time_never)

module _ (M : Arithmetic) where
  -- The offset that the senior peer's packet gives, half a round trip after it was sent.
  unfoldable pub follow_clock : Option (SourceKey × Source) → Thread → Thread
  follow_clock none t = t
  follow_clock (some (k, s)) t =
      let (round_trip, s') = preferred_average M (sub64 t.now t.expiration_micros) s in
      record t {
        offset = sub64 s.beat.network_send (sub64 s.beat.local_receive (round_trip / 2));
        online = insert k s' t.online;
      }

  -- `UpdateToNetworkTimeOffset`.
  unfoldable pub update_offset : Thread → Thread
  update_offset t =
      let u : Thread = record t { offset_pending = false } in
      if is_half_attached t
      then (if is_senior t
          then record u { offset = 0 }
          else follow_clock (source_of (senior_peer t) t) u)
      else u

  abbrev round_trip : Thread → Source → ℕ
  round_trip t s = (preferred_average M (sub64 t.now t.expiration_micros) s).0

  update_offset_lem :
      (t : Thread) (k : SourceKey) (s : Source)
      → is_half_attached t ≡ true
      → is_senior t ≡ false
      → source_of (senior_peer t) t ≡ some (k, s)
      → (update_offset t).offset
        ≡ sub64 s.beat.network_send (sub64 s.beat.local_receive (round_trip t s / 2))
  unfolding update_offset follow_clock
  update_offset_lem t k s hh hs he = rw (hh, hs, he) refl

  -- Once this peer has followed the senior peer's packet, the network's time at the moment of its
  -- receipt is the time that it was sent at and half of the preferred round trip: for a half
  -- attached peer that is not the senior and has a source for it, where the new offset is known
  -- and the packet's time of receipt is not the one that stands for never.
  pub update_offset_sync :
      (t : Thread) (k : SourceKey) (s : Source)
      → is_half_attached t ≡ true
      → is_senior t ≡ false
      → source_of (senior_peer t) t ≡ some (k, s)
      → s.beat.local_receive ≢ time_never
      → (update_offset t).offset ≢ invalid_offset
      → to_network (update_offset t).offset s.beat.local_receive
        ≡ add64 s.beat.network_send
            ((preferred_average M (sub64 t.now t.expiration_micros) s).0 / 2)
  update_offset_sync t k s hh hs he hn hi = rw (update_offset_lem t k s hh hs he) (
      to_network_lem s.beat.network_send s.beat.local_receive (round_trip t s / 2)
        (subst (λ o. o ≢ invalid_offset) (update_offset_lem t k s hh hs he) hi) hn)

-- A local time taken to the network's clock comes back: for 64-bit words, where the offset is
-- known and neither time is the one that stands for never.
pub to_local-to_network :
    (offset local : ℕ)
    → offset < 2 ^ 64
    → local < 2 ^ 64
    → offset ≢ invalid_offset
    → local ≢ time_never
    → to_network offset local ≢ time_never
    → to_local offset (to_network offset local) ≡ local
unfolding to_local to_network
to_local-to_network offset local ho hl h hn hm =
    ground (arith, ==_iff offset invalid_offset, ==_iff local time_never)
