-- ===== src/Replica/Exchange.antt =====
-- What a `PZGDatabaseState` exchanges with the session: beacon data in both directions, the
-- results of back-orders, updates that another peer asks for, and the checksum's repair.
use zg_choir.Base.{
  ℕ, ◌%◌, ◌^◌, true, false, not, ◌&&◌, ◌||◌, Option, none, some, ◌==◌, if◌then◌else◌, max_u64,
}
use zg_choir.Table.{get, first_key}
use zg_choir.Peer.{peer_eq}
use zg_choir.Platform.{Platform, DatabaseObject, is_ok}
use zg_choir.Update.{
  Update, replace, fresh_update, get_payload_message, set_payload_message,
  set_senior_elapsed_micros,
}
use zg_choir.Replica.State.{
  Replica, Master, Timing, BackOrderKey, StateInfo, on_order, cancel, full_update_id, i_am_senior,
}
use zg_choir.Replica.Log.{schedule_rescan, add_update}
use zg_choir.Replica.Junior.{junior_execute_replace, request_full_resend}

module _ {P : Platform} {D : DatabaseObject P} where
  -- `GetDatabaseStateInfo`.
  unfoldable pub get_state_info : Replica D → StateInfo
  get_state_info r = record {
    current_id = r.local_id;
    oldest_id = first_key max_u64 r.log;
    db_checksum = r.checksum;
  }

  -- `SeniorDatabaseStateInfoChanged`.
  unfoldable pub senior_state_info_changed : Master P → StateInfo → Replica D → Replica D
  senior_state_info_changed m info r =
      if not (info.current_id == r.senior_id) || not (info.oldest_id == r.senior_oldest_id)
      then schedule_rescan m (record r {
        senior_received = true;
        senior_id = info.current_id;
        senior_oldest_id = info.oldest_id;
      })
      else r

  -- The full-database case of `BackOrderResultReceived`.
  unfoldable pub full_database_received : Master P → Option (Update P) → Replica D → Replica D
  full_database_received m none r = r
  full_database_received m (some u) r =
      let (status, r') = junior_execute_replace u r in
      if is_ok status then schedule_rescan m r' else r'

  -- The case of a single update.
  unfoldable pub update_received : Master P → Option (Update P) → Replica D → Replica D
  update_received m none r = (request_full_resend m false r).1
  update_received m (some u) r = schedule_rescan m (add_update m u r)

  -- `BackOrderResultReceived`: an answer counts if it was on order, comes from the peer that is
  -- senior now, and this peer is a junior.
  unfoldable pub back_order_result_received :
      Master P → BackOrderKey → Option (Update P) → Replica D → Replica D
  back_order_result_received m k answer r =
      let r' = record r { backorders = cancel k r.backorders } in
      if on_order k r.backorders && (peer_eq k.target m.senior_peer && not (i_am_senior m))
      then (if k.update_id == full_update_id
          then full_database_received m answer r'
          else update_received m answer r')
      else r'

  -- The full-database case of `GetDatabaseUpdateByID`, where the save succeeds.
  unfoldable pub saved_update : Master P → Timing → P.Message → Replica D → Update P
  saved_update m c msg r =
      set_payload_message (some msg)
        (record (set_senior_elapsed_micros c.elapsed_micros
          (record (fresh_update P replace (r.which_database % 2 ^ 16) r.local_id m.local_peer
            r.checksum) { start_micros = c.network_start })) { post_checksum = r.checksum })

  -- `GetDatabaseUpdateByID`.
  unfoldable pub get_update_by_id : Master P → Timing → ℕ → Replica D → Option (Update P)
  get_update_by_id m c uid r =
      if uid == full_update_id
      then elim (D.save_to_archive r.db) [ none ↦ none | some msg ↦ some (saved_update m c msg r) ]
      else get uid r.log

  -- `GetDatabaseUpdatePayloadByID`.
  unfoldable pub get_update_payload_by_id : ℕ → Replica D → Option P.Message
  get_update_payload_by_id uid r = elim (get uid r.log) [
    | none ↦ none
    | some u ↦ get_payload_message u
  ]

  -- `VerifyOrFixLocalDatabaseChecksum`.
  unfoldable pub verify_or_fix_checksum : Replica D → Replica D
  verify_or_fix_checksum r =
      let again = D.calculate_checksum r.db in
      if again == r.checksum then r else record r { checksum = again }
