-- ===== src/Session/Requests.antt =====
-- How a `ZGPeerSession` receives the messages of other peers: `PrivateMessageReceivedFromPeer` and
-- `HandleDatabaseUpdateRequest`, and the calls that name one of its databases.
use zg_choir.Base.{
  ℕ, Bool, true, false, not, ◌&&◌, ◌||◌, Option, none, some, [], ◌∷◌, ◌++◌, if◌then◌else◌,
  get_elem?, set,
}
use zg_choir.Table.{contains}
use zg_choir.Peer.{PeerId, peer_eq}
use zg_choir.Platform.{Platform, DatabaseObject, Status, bad_argument, bad_data, is_ok}
use zg_choir.Update.{Update}
use zg_choir.Replica.State.{
  Replica, Timing, Request, reset_senior, replace_senior, update_senior, update_junior,
  BackOrderKey,
}
use zg_choir.Replica.Senior.{handle_database_update_request}
use zg_choir.Replica.Exchange.{
  back_order_result_received, get_update_by_id, get_update_payload_by_id, verify_or_fix_checksum,
}
use zg_choir.Session.State.{
  Session, Network, Envelope, reset_request, replace_request, update_request, junior_update,
  user_message, text_message, is_senior, master_of, schedule_beacon,
}

module _ {P : Platform} where
  -- Whether a message is meant for the senior peer, for which database, and what it asks of it.
  unfoldable pub database_request : Envelope P → Option (Bool × ℕ × Request P)
  database_request (reset_request which) = some (true, which, reset_senior)
  database_request (replace_request which m) = some (true, which, replace_senior m)
  database_request (update_request which m) = some (true, which, update_senior m)
  database_request (junior_update (some u)) = some (false, u.database_index, update_junior (some u))
  database_request _ = none

module _ {P : Platform} {D : DatabaseObject P} where
  -- One database's answer to a request. A senior's request that succeeds schedules a new beacon.
  unfoldable pub run_request :
      Network P
      → Timing
      → PeerId
      → Bool
      → ℕ
      → Request P
      → Replica D
      → Session D
      → Status × Session D
  run_request N c from for_senior which q r s =
      let (status, r') = handle_database_update_request (master_of N s) c from q r in
      let s' = record s { databases = set s.databases which r' } in
      (status, if for_senior && is_ok status then schedule_beacon s' else s')

  -- The last guard, on the database's index.
  unfoldable pub find_database :
      Network P → Timing → PeerId → Bool → ℕ → Request P → Session D → Status × Session D
  find_database N c from for_senior which q s = elim (get_elem? s.databases which) [
    | none ↦ (bad_argument, s)
    | some r ↦ run_request N c from for_senior which q r s
  ]

  -- `HandleDatabaseUpdateRequest`, on a message that could be read.
  unfoldable pub handle_update_request :
      Network P → Timing → PeerId → Bool → ℕ → Request P → Session D → Status × Session D
  handle_update_request N c from for_senior which q s =
      let found = find_database N c from for_senior which q s in
      if (for_senior && not (is_senior s)) || (not for_senior && is_senior s)
      then (bad_data, s)
      else (if not for_senior && not (peer_eq from s.senior_peer) then (bad_data, s) else found)

  -- `PrivateMessageReceivedFromPeer`.
  unfoldable pub private_message_received :
      Network P → Timing → PeerId → Envelope P → Session D → Session D
  private_message_received N c from (user_message (some m)) s = record s {
    delivered = s.delivered ++ ((from, m) ∷ []);
  }
  private_message_received N c from (text_message (some t)) s = record s {
    commands = s.commands ++ (t ∷ []);
  }
  private_message_received N c from e s = elim (database_request e) [
    | none ↦ s
    | some (for_senior, which, q) ↦ (handle_update_request N c from for_senior which q s).1
  ]

  -- `BackOrderResultReceived`.
  unfoldable pub order_result_received :
      Network P → BackOrderKey → Option (Update P) → Session D → Session D
  order_result_received N k answer s = elim (get_elem? s.databases k.database) [
    | none ↦ s
    | some r ↦ record s {
      databases =
          set s.databases k.database (back_order_result_received (master_of N s) k answer r);
    }
  ]

  -- `VerifyOrFixLocalDatabaseChecksum`.
  unfoldable pub verify_or_fix : ℕ → Session D → Session D
  verify_or_fix which s = elim (get_elem? s.databases which) [
    | none ↦ s
    | some r ↦ record s { databases = set s.databases which (verify_or_fix_checksum r) }
  ]

  -- `GetDatabaseUpdateByID`, `GetUpdatePayload`, `GetCurrentDatabaseStateID` and
  -- `UpdateLogContainsUpdate`.
  unfoldable pub update_by_id : Network P → Timing → ℕ → ℕ → Session D → Option (Update P)
  update_by_id N c which uid s = elim (get_elem? s.databases which) [
    | none ↦ none
    | some r ↦ get_update_by_id (master_of N s) c uid r
  ]

  unfoldable pub update_payload : ℕ → ℕ → Session D → Option P.Message
  update_payload which uid s = elim (get_elem? s.databases which) [
    | none ↦ none
    | some r ↦ get_update_payload_by_id uid r
  ]

  unfoldable pub current_state_id : ℕ → Session D → ℕ
  current_state_id which s = elim (get_elem? s.databases which) [ none ↦ 0 | some r ↦ r.local_id ]

  unfoldable pub log_contains : ℕ → ℕ → Session D → Bool
  log_contains which uid s = elim (get_elem? s.databases which) [
    | none ↦ false
    | some r ↦ contains uid r.log
  ]
