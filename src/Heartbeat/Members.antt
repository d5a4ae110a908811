-- ===== src/Heartbeat/Members.antt =====
-- The peers that the main thread knows of: `PZGHeartbeatSession` (src/private/PZGHeartbeatSession.cpp),
-- what an update from the heartbeat thread changes, and what its master is told.
use zg_choir.Base.{ℕ, Bool, false, Option, none, some, List, [], ◌∷◌, ◌++◌, ◌==◌, if◌then◌else◌}
use zg_choir.Peer.{PeerId, peer_eq, no_peer}
use zg_choir.Assoc.{peer_key, same_key, lookup, insert, erase, has}
use zg_choir.Wire.Heartbeat.{equal_ignoring_transients}
use zg_choir.Heartbeat.State.{Beat, full_peer}

-- `_mainThreadPeers`: each peer with the packets of its sources.
abbrev pub Members : Type 0
Members = List (PeerId × List Beat)

-- The calls of the master: `PeerHasGoneOffline` and `PeerHasComeOnline`, with the attributes of the
-- peer's first packet, and `SeniorPeerChanged`.
pub data PeerEvent : Type 0 where
  went_offline : PeerId → Option (List ℕ) → PeerEvent
  came_online : PeerId → Option (List ℕ) → PeerEvent
  senior_changed : PeerId → PeerId → PeerEvent

-- The packets of an update, by peer.
abbrev pub packets_of : PeerId → Members → List Beat
packets_of p l = elim (lookup p l) [ none ↦ [] | some q ↦ q ]

unfoldable pub group : List Beat → Members → Members
group [] l = l
group (b ∷ bs) l = group bs (insert b.packet.source (packets_of b.packet.source l ++ (b ∷ [])) l)

-- `GetSeniorPeerID`: the first peer, where it is a full peer.
unfoldable pub senior_of : Members → PeerId
senior_of [] = no_peer
senior_of ((p, []) ∷ l) = no_peer
senior_of ((p, b ∷ q) ∷ l) = if b.packet.peer_type == full_peer then p else no_peer

abbrev pub attributes_of : List Beat → Option (List ℕ)
attributes_of [] = none
attributes_of (b ∷ q) = b.packet.attributes

-- Whether a peer goes on as it was.
unfoldable pub goes_on : Option (List Beat) → List Beat → Bool
goes_on (some (b ∷ _)) (c ∷ _) = equal_ignoring_transients b.packet c.packet
goes_on _ _ = false

-- The loop over the peers that there were: those that are gone or have changed go.
unfoldable pub depart : Members → PeerId → List Beat → Members → Members
depart new p q l = if goes_on (lookup p new) q then l else erase p l

unfoldable pub depart_all : Members → Members → Members → Members
depart_all new [] l = l
depart_all new ((p, q) ∷ old) l = depart_all new old (depart new p q l)

unfoldable pub offline_events : Members → Members → List PeerEvent
offline_events new [] = []
offline_events new ((p, q) ∷ old) =
    let rest = offline_events new old in
    if goes_on (lookup p new) q then rest else went_offline p (attributes_of q) ∷ rest

-- `Put` and `MoveToBehind`: a new entry behind that of another key, or at the end.
unfoldable pub put_behind : PeerId → PeerId → List Beat → Members → Members
put_behind r p q [] = (p, q) ∷ []
put_behind r p q ((s, w) ∷ l) =
    let rest = (s, w) ∷ put_behind r p q l in if same_key s r then (s, w) ∷ ((p, q) ∷ l) else rest

unfoldable pub place : Option PeerId → PeerId → List Beat → Members → Members
place none p q l = (p, q) ∷ l
place (some r) p q l = put_behind r p q l

-- The loop over the peers of the update: those that are there get their new packets, and the others
-- go behind the peer before them.
unfoldable pub arrive : Option PeerId → PeerId → List Beat → Members → Members
arrive before p q l = if has p l then insert p q l else place before p q l

unfoldable pub arrive_all : Option PeerId → Members → Members → Members
arrive_all before [] l = l
arrive_all before ((p, q) ∷ new) l = arrive_all (some p) new (arrive before p q l)

unfoldable pub online_events : Option PeerId → Members → Members → List PeerEvent
online_events before [] l = []
online_events before ((p, q) ∷ new) l =
    let rest = online_events (some p) new (arrive before p q l) in
    if has p l then rest else came_online p (attributes_of q) ∷ rest

unfoldable pub senior_events : PeerId → PeerId → List PeerEvent
senior_events old new = if peer_eq new old then [] else senior_changed old new ∷ []

-- `MessageReceivedFromInternalThread`, on an update of the peers: the table, and what the master is
-- told, in order.
unfoldable pub update_members : List Beat → Members → Members
update_members beats old = let new = group beats [] in arrive_all none new (depart_all new old old)

unfoldable pub member_events : List Beat → Members → List PeerEvent
member_events beats old =
    let new = group beats [] in
    let kept = depart_all new old old in
    offline_events new old
    ++ (online_events none new kept
        ++ senior_events (senior_of old) (senior_of (arrive_all none new kept)))

-- What the events leave of `ZGPeerSession`'s `_onlinePeers`, to which `PeerHasComeOnline` and
-- `PeerHasGoneOffline` of `PZGNetworkIOSession` pass them on; the attributes in their flattened form.
abbrev pub OnlinePeers : Type 0
OnlinePeers = List (PeerId × Option (List ℕ))

unfoldable pub hear : PeerEvent → OnlinePeers → OnlinePeers
hear (went_offline p a) l = erase p l
hear (came_online p a) l = insert p a l
hear (senior_changed old new) l = l

unfoldable pub hear_all : List PeerEvent → OnlinePeers → OnlinePeers
hear_all [] l = l
hear_all (e ∷ es) l = hear_all es (hear e l)
