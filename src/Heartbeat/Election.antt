-- ===== src/Heartbeat/Election.antt =====
-- The order of the peers, and whose order counts: `CalculateOrderedPeersList` of
-- `PZGHeartbeatThreadState`, with MUSCLE's three-way comparison and its sort as parameters.
use Prim.Native.Nat.{compare, Ordering}
use zg_choir.Base.{
  ℕ, ◌≡◌, Bool, true, not, ◌&&◌, ◌||◌, Option, none, some, List, [], ◌∷◌, ◌==◌, if◌then◌else◌,
  length, max,
}
use zg_choir.Peer.{PeerId, peer_lt, is_valid, no_peer}
use zg_choir.Assoc.{peer_key, number_key, lookup, keys_of, has}
use zg_choir.Wire.Heartbeat.{HeartbeatPacket, PeerInfo}
use zg_choir.Heartbeat.State.{SourceKey, Source, Thread, source_key}

-- `muscleCompare` on numbers, and on peer ids, where it goes by their `operator<`, and whether an
-- address is valid.
pub record Muscle : Type 0 where
  pub valid_address : ℕ → Bool
  pub numbers : ℕ → ℕ → Ordering
  pub peers : PeerId → PeerId → Ordering
  pub numbers_lem : (a b : ℕ) → numbers a b ≡ compare a b
  pub peers_lem :
      (p q : PeerId)
      → peers p q
        ≡ (if peer_lt p q then Ordering.lt else if peer_lt q p then Ordering.gt else Ordering.eq)

abbrev pub negate : Ordering → Ordering
negate Ordering.lt = Ordering.gt
negate Ordering.eq = Ordering.eq
negate Ordering.gt = Ordering.lt

-- `if (ret) return ret;`
abbrev pub or_else : Ordering → Ordering → Ordering
or_else Ordering.eq o = o
or_else o _ = o

-- The largest of a number that the packets of a peer's sources carry: `GetPeerTypeFromQueue` and
-- `GetPeerUptimeSecondsFromQueue`.
unfoldable pub largest : (HeartbeatPacket → ℕ) → PeerId → List ℕ → List (SourceKey × Source) → ℕ → ℕ
largest f p [] online best = best
largest f p (a ∷ l) online best =
    largest f p l online (elim (lookup (record { address = a; peer = p }) online) [
      | none ↦ best
      | some s ↦ max best (f s.beat.packet)
    ])

abbrev pub type_of : PeerId → List ℕ → Thread → ℕ
type_of p q t = largest (λ h. h.peer_type) p q t.online 0

abbrev pub uptime_of : PeerId → List ℕ → Thread → ℕ
uptime_of p q t = largest (λ h. h.uptime_seconds) p q t.online 0

-- `ComparePeerIDsBySeniority`.
unfoldable pub compare_found :
    Muscle → PeerId → PeerId → Option (List ℕ) → Option (List ℕ) → Thread → Ordering
compare_found C p q (some l) (some m) t =
    or_else (negate (C.numbers (type_of p l t) (type_of q m t)))
      (or_else (negate (C.numbers (uptime_of p l t) (uptime_of q m t))) (negate (C.peers p q)))
compare_found C p q _ _ t = Ordering.eq

unfoldable pub compare_by_seniority : Muscle → Thread → PeerId → PeerId → Ordering
compare_by_seniority C t p q = compare_found C p q (lookup p t.addresses) (lookup q t.addresses) t

-- `PeersListMatchesIgnoreOrdering`.
unfoldable pub all_known : List PeerInfo → List (PeerId × List ℕ) → Bool
all_known [] addresses = true
all_known (i ∷ l) addresses = has i.peer_id addresses && all_known l addresses

unfoldable pub list_matches : List PeerInfo → Thread → Bool
list_matches l t = (length l == length t.addresses) && all_known l t.addresses

-- The test of the loops that look for the kingmaker, on the smallest peer id so far.
unfoldable pub improves : PeerId → HeartbeatPacket → Thread → Bool
improves best h t = (not (is_valid best) || peer_lt h.source best) && list_matches h.ordered_peers t

-- The loop of `GetKingmakerPeerID`.
unfoldable pub kingmaker_from : PeerId → List (SourceKey × Source) → Thread → PeerId
kingmaker_from best [] t = best
kingmaker_from best ((k, s) ∷ l) t =
    kingmaker_from (if improves best s.beat.packet t then s.beat.packet.source else best) l t

unfoldable pub kingmaker : Thread → PeerId
kingmaker t = kingmaker_from no_peer t.online t

-- The loop of `GetKingmakerPeerSource`, which keeps the source's key beside the peer id.
unfoldable pub kingmaker_source_from :
    Option SourceKey → PeerId → List (SourceKey × Source) → Thread → Option SourceKey
kingmaker_source_from found best [] t = found
kingmaker_source_from found best ((k, s) ∷ l) t =
    let better = improves best s.beat.packet t in
    kingmaker_source_from (if better then some k else found)
      (if better then s.beat.packet.source else best) l t

unfoldable pub kingmaker_source : Thread → Option SourceKey
kingmaker_source t = kingmaker_source_from none no_peer t.online t

-- The peer ids of a list of entries.
abbrev pub ids_of : List PeerInfo → List PeerId
ids_of [] = []
ids_of (i ∷ l) = i.peer_id ∷ ids_of l

-- MUSCLE's `SortByKey` on the table of addresses.
abbrev pub Sort : Type 0
Sort = (PeerId → PeerId → Ordering) → List (PeerId × List ℕ) → List (PeerId × List ℕ)

-- `CalculateOrderedPeersList`: the order of the kingmaker's source, or this peer's own, in which it
-- leaves the table.
unfoldable pub order_by : Muscle → Sort → Option SourceKey → Thread → List PeerId × Thread
order_by C sort none t =
    let own = sort (compare_by_seniority C t) t.addresses in
    (keys_of own, record t { addresses = own })
order_by C sort (some k) t =
    (elim (lookup k t.online) [ none ↦ [] | some s ↦ ids_of s.beat.packet.ordered_peers ], t)

unfoldable pub valid_key : Muscle → Option SourceKey → Option SourceKey
valid_key C none = none
valid_key C (some k) = if C.valid_address k.address && is_valid k.peer then some k else none

unfoldable pub ordered_peers : Muscle → Sort → Thread → List PeerId × Thread
ordered_peers C sort t = order_by C sort (valid_key C (kingmaker_source t)) t
