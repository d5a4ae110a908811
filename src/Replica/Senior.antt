-- ===== src/Replica/Senior.antt =====
-- The senior peer's side of `PZGDatabaseState`: `HandleDatabaseUpdateRequest` and
-- `SeniorUpdateCompleted`, with the calls of `ZGDatabasePeerSession` that they make.
use zg_choir.Base.{ℕ, ◌%◌, ◌^◌, true, false, Option, none, some, add64, sub64}
use zg_choir.Table.{put}
use zg_choir.Peer.{PeerId}
use zg_choir.Platform.{
  Platform, DatabaseObject, Status, ok, bad_data, logic_error, unimplemented, is_ok,
}
use zg_choir.Update.{
  Update, Kind, reset, replace, update, fresh_update, get_payload_message, set_payload_message,
  set_senior_elapsed_micros,
}
use zg_choir.Replica.State.{
  Replica, Master, Timing, Request, reset_senior, replace_senior, update_senior, update_junior,
  unknown_request,
}
use zg_choir.Replica.Log.{add_update, remove_update, tally}

module _ {P : Platform} where
  -- The payload that `SeniorUpdateCompleted` leaves in the update: a test on references, which
  -- are equal where both are null.
  unfoldable pub settle_payload : Option P.Message → Update P → Update P
  settle_payload none u = elim (get_payload_message u) [
    | none ↦ u
    | some _ ↦ set_payload_message none u
  ]
  settle_payload (some m) u = set_payload_message (some m) u

  -- The byte count across the same test.
  unfoldable pub settle_tally : Option P.Message → ℕ → Update P → ℕ
  settle_tally none t u = elim (get_payload_message u) [
    | none ↦ t
    | some _ ↦ tally add64 (tally sub64 t u) (set_payload_message none u)
  ]
  settle_tally (some m) t u = tally add64 (tally sub64 t u) (set_payload_message (some m) u)

  -- The update as `SeniorUpdateCompleted` leaves it.
  unfoldable pub completed : Timing → ℕ → Option P.Message → Update P → Update P
  completed c chk payload u =
      settle_payload payload
        (record (set_senior_elapsed_micros c.elapsed_micros
          (record u { start_micros = c.network_start })) { post_checksum = chk })

module _ {P : Platform} {D : DatabaseObject P} where
  -- `SeniorUpdateCompleted`. The update is shared with the log, so its entry there changes too.
  unfoldable pub senior_update_completed :
      Timing → Update P → Option P.Message → Replica D → Replica D
  senior_update_completed c u payload r =
      let u' = completed c r.checksum payload u in
      let next = add64 r.local_id 1 in
      record r {
        log = put u.update_id u' r.log;
        total_payload_bytes = settle_tally payload r.total_payload_bytes u;
        total_elapsed_millis =
            add64 (sub64 r.total_elapsed_millis u.elapsed_millis) u'.elapsed_millis;
        local_id = next;
        senior_id = next;
      }

  -- `ZGDatabasePeerSession` hands each call on to the database object, and reads its checksum.
  unfoldable pub with_database : D.State → Replica D → Replica D
  with_database s r = record r { db = s; checksum = D.get_current_checksum s }

  unfoldable pub reset_local_database : Replica D → Replica D
  reset_local_database r = with_database (D.set_to_default_state r.db) r

  unfoldable pub set_local_database : P.Message → Replica D → Status × Replica D
  set_local_database msg r =
      let (status, s) = D.set_from_archive msg r.db in (status, with_database s r)

  unfoldable pub senior_update_local_database :
      ℕ → P.Message → Replica D → Option P.Message × Replica D
  senior_update_local_database now msg r =
      let (reply, s) = D.senior_update now msg r.db in (reply, with_database s r)

  unfoldable pub junior_update_local_database : P.Message → Replica D → Status × Replica D
  junior_update_local_database msg r =
      let (status, s) = D.junior_update msg r.db in (status, with_database s r)

  -- The update that a senior request puts into the log before it runs.
  unfoldable pub new_update : Kind → PeerId → Replica D → Update P
  new_update k from r =
      fresh_update P k (r.which_database % 2 ^ 16) (add64 r.local_id 1) from r.checksum

  -- The three senior cases of `HandleDatabaseUpdateRequest`.
  unfoldable pub handle_reset : Master P → Timing → PeerId → Replica D → Status × Replica D
  handle_reset m c from r =
      let u = new_update reset from r in
      (ok, senior_update_completed c u none (reset_local_database (add_update m u r)))

  unfoldable pub handle_replace :
      Master P → Timing → PeerId → P.Message → Replica D → Status × Replica D
  handle_replace m c from msg r =
      let u = new_update replace from r in
      let (status, r') = set_local_database msg (add_update m u r) in
      elim (is_ok status) [
        | true ↦ (status, senior_update_completed c u (some msg) r')
        | false ↦ (status, remove_update m u r')
      ]

  unfoldable pub handle_update :
      Master P → Timing → PeerId → P.Message → Replica D → Status × Replica D
  handle_update m c from msg r =
      let u = new_update update from r in
      let (reply, r') = senior_update_local_database c.network_start msg (add_update m u r) in
      elim reply [
        | some j ↦ (ok, senior_update_completed c u (some j) r')
        | none ↦ (logic_error, remove_update m u r')
      ]

  -- `HandleDatabaseUpdateRequest`.
  unfoldable pub handle_database_update_request :
      Master P → Timing → PeerId → Request P → Replica D → Status × Replica D
  handle_database_update_request m c from reset_senior r = handle_reset m c from r
  handle_database_update_request m c from (replace_senior none) r = (bad_data, r)
  handle_database_update_request m c from (replace_senior (some msg)) r =
      handle_replace m c from msg r
  handle_database_update_request m c from (update_senior none) r = (bad_data, r)
  handle_database_update_request m c from (update_senior (some msg)) r =
      handle_update m c from msg r
  handle_database_update_request m c from (update_junior none) r = (unimplemented, r)
  handle_database_update_request m c from (update_junior (some u)) r = (ok, add_update m u r)
  handle_database_update_request m c from unknown_request r = (unimplemented, r)
