-- ===== src/Replica/Junior.antt =====
-- The junior peer's side of `PZGDatabaseState`: running one update against the local database, and
-- ordering from the senior peer what is missing.
use zg_choir.Base.{
  ℕ, Bool, true, false, ◌&&◌, Option, none, some, [], ◌∷◌, ◌++◌, ltb, leb, ◌==◌, if◌then◌else◌,
  add64, max,
}
use zg_choir.Table.{last_key}
use zg_choir.Platform.{
  Platform, DatabaseObject, Status, ok, bad_object, logic_error, unimplemented, is_ok,
}
use zg_choir.Update.{Update, Kind, noop, reset, replace, update, unknown, get_payload_message}
use zg_choir.Replica.State.{Replica, Master, BackOrderKey, on_order, cancel, full_update_id}
use zg_choir.Replica.Senior.{reset_local_database, set_local_database, junior_update_local_database}

module _ {P : Platform} {D : DatabaseObject P} where
  -- What `JuniorExecuteDatabaseUpdateAux` runs, by the kind of update.
  unfoldable pub run_update : Kind → Option P.Message → Replica D → Status × Replica D
  run_update noop msg r = (ok, r)
  run_update reset msg r = (ok, reset_local_database r)
  run_update replace none r = (bad_object, r)
  run_update replace (some msg) r = set_local_database msg r
  run_update update none r = (bad_object, r)
  run_update update (some msg) r = junior_update_local_database msg r
  run_update (unknown code) msg r = (unimplemented, r)

  -- `JuniorExecuteDatabaseUpdateAux`. That it drops the cached message afterwards is not seen
  -- through the getters of the update.
  unfoldable pub junior_execute_aux : Update P → Replica D → Status × Replica D
  junior_execute_aux u r =
      run_update u.kind (get_payload_message u) (record r { update_time = u.start_micros })

  -- The end of `JuniorExecuteDatabaseUpdate`: the checksum is compared, and the state advances.
  unfoldable pub confirm_update : Update P → Status × Replica D → Status × Replica D
  confirm_update u (status, r) =
      if is_ok status
      then (if r.checksum == u.post_checksum
          then (ok, record r { local_id = u.update_id })
          else (bad_object, record r { print_comparison = true }))
      else (status, r)

  -- `JuniorExecuteDatabaseUpdate`.
  unfoldable pub junior_execute_update : Update P → Replica D → Status × Replica D
  junior_execute_update u r =
      if add64 r.local_id 1 == u.update_id
      then (if r.checksum == u.pre_checksum
          then confirm_update u (junior_execute_aux u r)
          else (bad_object, r))
      else (bad_object, r)

  -- The end of `JuniorExecuteDatabaseReplace`.
  unfoldable pub confirm_replace : Update P → Status × Replica D → Status × Replica D
  confirm_replace u (status, r) =
      if is_ok status
      then (if r.checksum == u.post_checksum
          then (ok, record r { local_id = u.update_id })
          else (bad_object, r))
      else (status, r)

  -- `JuniorExecuteDatabaseReplace`.
  unfoldable pub junior_execute_replace : Update P → Replica D → Status × Replica D
  junior_execute_replace u r =
      confirm_replace u (junior_execute_aux u (record r { print_comparison = false }))

  -- The call of `ZGPeerSession::RequestBackOrderFromSeniorPeer`, with the record of what was sent.
  unfoldable pub send_order : Master P → BackOrderKey → Bool → Replica D → Status × Replica D
  send_order m k due_to_checksum r =
      if m.network && m.takes_order k
      then (ok, record r { orders = r.orders ++ ((k, due_to_checksum) ∷ []) })
      else (logic_error, r)

  -- `RequestBackOrderFromSeniorPeer`: a key is entered before the call and struck out if it fails.
  unfoldable pub request_back_order :
      Master P → BackOrderKey → Bool → Replica D → Status × Replica D
  request_back_order m k due_to_checksum r =
      if on_order k r.backorders
      then (ok, r)
      else (let (status, r') =
            send_order m k due_to_checksum (record r { backorders = r.backorders ++ (k ∷ []) }) in
          if is_ok status
          then (ok, r')
          else (status, record r' { backorders = cancel k r'.backorders }))

  -- The key of an order to the senior peer.
  abbrev pub order_key : Master P → ℕ → Replica D → BackOrderKey
  order_key m uid r = record {
    target = m.senior_peer;
    database = r.which_database;
    update_id = uid;
  }

  abbrev pub full_resend_key : Master P → Replica D → BackOrderKey
  full_resend_key m r = order_key m full_update_id r

  -- `RequestFullDatabaseResendFromSeniorPeer`.
  unfoldable pub request_full_resend : Master P → Bool → Replica D → Status × Replica D
  request_full_resend m due_to_checksum r =
      request_back_order m (full_resend_key m r) due_to_checksum r

  -- `IsAwaitingFullDatabaseResendReply`.
  unfoldable pub awaiting_full_resend : Master P → Replica D → Bool
  awaiting_full_resend m r = on_order (full_resend_key m r) r.backorders

  -- `GetTargetDatabaseStateID`.
  abbrev pub target_id : Replica D → ℕ
  target_id r = max (last_key 0 r.log) r.senior_id

  -- `IsDatabaseUpdateStillNeededToAdvanceJuniorPeerState`.
  unfoldable pub is_still_needed : Master P → ℕ → Replica D → Bool
  is_still_needed m uid r =
      if leb uid r.local_id
      then false
      else (if ltb (target_id r) uid
          then false
          else (if awaiting_full_resend m r then false else true))
