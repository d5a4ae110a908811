-- ===== src/Replica/State.antt =====
-- The data of `PZGDatabaseState` (include/zg/private/PZGDatabaseState.h): its fields, its requests,
-- its back-order keys, and what it asks of the peer session.
use zg_choir.Base.{ℕ, Bool, false, ◌&&◌, ◌||◌, Option, List, [], ◌∷◌, ◌==◌, if◌then◌else◌, max_u64}
use zg_choir.Table.{Table}
use zg_choir.Peer.{PeerId, peer_eq}
use zg_choir.Platform.{Platform, DatabaseObject}
use zg_choir.Update.{Update}

-- `PZGUpdateBackOrderKey`: an update that is on order, from which peer and for which database.
pub record BackOrderKey : Type 0 where
  pub target : PeerId
  pub database : ℕ
  pub update_id : ℕ

abbrev pub key_eq : BackOrderKey → BackOrderKey → Bool
key_eq a b =
    peer_eq a.target b.target && ((a.database == b.database) && (a.update_id == b.update_id))

-- `DATABASE_UPDATE_ID_FULL_UPDATE`.
abbrev pub full_update_id : ℕ
full_update_id = max_u64

-- `_backorders.ContainsKey`.
unfoldable pub on_order : BackOrderKey → List BackOrderKey → Bool
on_order k [] = false
on_order k (j ∷ js) = key_eq j k || on_order k js

-- `_backorders.Remove`.
unfoldable pub cancel : BackOrderKey → List BackOrderKey → List BackOrderKey
cancel k [] = []
cancel k (j ∷ js) = let rest = j ∷ cancel k js in if key_eq j k then js else rest

-- `PZGDatabaseStateInfo`, what the senior's beacon says of one database.
pub record StateInfo : Type 0 where
  pub current_id : ℕ
  pub oldest_id : ℕ
  pub db_checksum : ℕ

-- What a `PZGDatabaseState` asks of its `_master` session: the peer's standing, and whether the
-- network session takes an update to multicast or a back-order to send.
pub record Master (P : Platform) : Type 0 where
  pub attached : Bool
  pub network : Bool
  pub local_peer : PeerId
  pub senior_peer : PeerId
  pub takes_update : Update P → Bool
  pub takes_order : BackOrderKey → Bool

-- `ZGPeerSession::IAmTheSeniorPeer`.
abbrev pub i_am_senior : {P : Platform} → Master P → Bool
i_am_senior m = m.network && peer_eq m.senior_peer m.local_peer

-- The clock readings of one senior update: the network time of its start, and how long it ran.
pub record Timing : Type 0 where
  pub network_start : ℕ
  pub elapsed_micros : ℕ

pub data Request (P : Platform) : Type 0 where
  reset_senior : Request P
  replace_senior : Option P.Message → Request P
  update_senior : Option P.Message → Request P
  update_junior : Option (Update P) → Request P
  unknown_request : Request P

pub record Replica {P : Platform} (D : DatabaseObject P) : Type 0 where
  pub which_database : ℕ
  pub max_payload_bytes : ℕ
  pub log : Table (Update P)
  pub total_payload_bytes : ℕ
  pub total_elapsed_millis : ℕ
  pub local_id : ℕ
  pub senior_id : ℕ
  pub senior_oldest_id : ℕ
  pub senior_received : Bool
  pub checksum : ℕ
  pub first_unsent_id : ℕ
  pub rescan_pending : Bool
  pub print_comparison : Bool
  pub backorders : List BackOrderKey
  pub update_time : ℕ
  pub db : D.State
  pub multicasts : List (Update P)
  pub orders : List (BackOrderKey × Bool)
