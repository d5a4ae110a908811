-- ===== src/Session/State.antt =====
-- The state of a `ZGPeerSession` (include/zg/ZGPeerSession.h), who is senior, and who is online.
use zg_choir.Base.{ℕ, Bool, true, false, not, ◌&&◌, Option, List, [], ◌∷◌, if◌then◌else◌}
use zg_choir.Peer.{PeerId, peer_eq}
use zg_choir.Platform.{Platform, DatabaseObject, Status}
use zg_choir.Update.{Update}
use zg_choir.Replica.State.{Replica, Master, BackOrderKey, StateInfo}
use zg_choir.Replica.Log.{schedule_rescan}
use zg_choir.Replica.Senior.{reset_local_database}

-- The messages that one session sends to another.
pub data Envelope (P : Platform) : Type 0 where
  reset_request : ℕ → Envelope P
  replace_request : ℕ → Option P.Message → Envelope P
  update_request : ℕ → Option P.Message → Envelope P
  junior_update : Option (Update P) → Envelope P
  user_message : Option P.Message → Envelope P
  text_message : Option (List ℕ) → Envelope P
  other_message : ℕ → Envelope P

-- What a session hands to its network session.
pub data Outgoing (P : Platform) : Type 0 where
  to_peer : PeerId → Envelope P → Outgoing P
  to_all : Bool → Envelope P → Outgoing P
  multicast : Envelope P → Outgoing P
  beacon : Option (List StateInfo) → Outgoing P

-- What the network session answers: whether it takes a message, an update or a back-order.
pub record Network (P : Platform) : Type 0 where
  pub send : Outgoing P → Status
  pub takes_update : Update P → Bool
  pub takes_order : BackOrderKey → Bool

pub record Session {P : Platform} (D : DatabaseObject P) : Type 0 where
  pub databases : List (Replica D)
  pub local_peer : PeerId
  pub senior_peer : PeerId
  pub network : Bool
  pub fully_attached : Bool
  pub beacon_pending : Bool
  pub online_peers : List (PeerId × Option P.Message)
  pub outbox : List (Outgoing P)
  pub delivered : List (PeerId × P.Message)
  pub commands : List (List ℕ)

abbrev pub same : Bool → Bool → Bool
same true b = b
same false b = not b

-- A change of each database.
abbrev pub each {ℓ} : {A : Type ℓ} → (A → A) → List A → List A
each f [] = []
each f (x ∷ xs) = f x ∷ each f xs

module _ {A : Type 0} where
  -- `_onlinePeers.Put` and `_onlinePeers.Remove`.
  unfoldable pub put_peer : PeerId → A → List (PeerId × A) → List (PeerId × A)
  put_peer p info [] = (p, info) ∷ []
  put_peer p info ((q, i) ∷ l) =
      let rest = put_peer p info l in if peer_eq q p then (q, info) ∷ l else (q, i) ∷ rest

  unfoldable pub remove_peer : PeerId → List (PeerId × A) → List (PeerId × A)
  remove_peer p [] = []
  remove_peer p ((q, i) ∷ l) =
      let rest = remove_peer p l in if peer_eq q p then l else (q, i) ∷ rest

module _ {P : Platform} {D : DatabaseObject P} where
  -- What the session's databases see of it.
  abbrev pub master_of : Network P → Session D → Master P
  master_of N s = record {
    attached = s.fully_attached;
    network = s.network;
    local_peer = s.local_peer;
    senior_peer = s.senior_peer;
    takes_update = N.takes_update;
    takes_order = N.takes_order;
  }

  -- `IAmTheSeniorPeer`.
  abbrev pub is_senior : Session D → Bool
  is_senior s = s.network && peer_eq s.senior_peer s.local_peer

  -- `ScheduleSetBeaconData`.
  unfoldable pub schedule_beacon : Session D → Session D
  schedule_beacon s = if s.beacon_pending then s else record s { beacon_pending = true }

  -- `AttachedToServer`, past the start of the network session.
  unfoldable pub attached_to_server : Session D → Session D
  attached_to_server s =
      let s' = schedule_beacon (record s { network = true }) in
      record s' { databases = each reset_local_database s'.databases }

  -- `AboutToDetachFromServer`, with `ShutdownChildSessions`.
  unfoldable pub about_to_detach : Session D → Session D
  about_to_detach s = record s { network = false; fully_attached = false; online_peers = [] }

  -- `PeerHasComeOnline`: the first peer to come online makes this one fully attached.
  unfoldable pub peer_has_come_online :
      Network P → PeerId → Option P.Message → Session D → Session D
  peer_has_come_online N p info s =
      let s' = record s { online_peers = put_peer p info s.online_peers } in
      let s'' = record s' { fully_attached = true } in
      if s.fully_attached
      then s'
      else record s'' { databases = each (schedule_rescan (master_of N s'')) s.databases }

  -- `PeerHasGoneOffline`.
  unfoldable pub peer_has_gone_offline : PeerId → Session D → Session D
  peer_has_gone_offline p s = record s { online_peers = remove_peer p s.online_peers }

  -- `SeniorPeerChanged`.
  unfoldable pub senior_peer_changed : PeerId → Session D → Session D
  senior_peer_changed new s =
      let s' = record s { senior_peer = new } in
      if same (is_senior s) (is_senior s') then s' else schedule_beacon s'
