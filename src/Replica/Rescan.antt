-- ===== src/Replica/Rescan.antt =====
-- `RescanUpdateLog` of `PZGDatabaseState`: the senior sends out what is new in its log, a junior
-- catches up with the senior, and both trim the log to its budget.
use zg_choir.Base.{
  ℕ, zero, suc, ◌+◌, ◌-◌, Bool, true, false, not, ◌&&◌, ◌||◌, none, some, [], ◌∷◌, ◌++◌, length,
  ltb, leb, ◌==◌, if◌then◌else◌, add64,
}
use zg_choir.Table.{Table, get, contains}
use zg_choir.Peer.{is_valid}
use zg_choir.Platform.{Platform, DatabaseObject, is_ok}
use zg_choir.Update.{Update}
use zg_choir.Replica.State.{Replica, Master, on_order, i_am_senior}
use zg_choir.Replica.Log.{remove_update}
use zg_choir.Replica.Junior.{
  junior_execute_update, request_back_order, request_full_resend, awaiting_full_resend, order_key,
  target_id, is_still_needed,
}

module _ {P : Platform} where
  -- The first stage of the senior's loop, from the newest entry backwards: it turns round at an
  -- entry that was sent, or at the oldest one. The second list is what the loop has passed.
  unfoldable pub rewind : ℕ → ℕ → Table (Update P) → Table (Update P) → Table (Update P)
  rewind unsent oldest [] passed = passed
  rewind unsent oldest ((k, u) ∷ older) passed =
      let back = rewind unsent oldest older ((k, u) ∷ passed) in
      if leb k unsent || (k == oldest) then (k, u) ∷ passed else back

  unfoldable pub backwards : Table (Update P) → Table (Update P) → Table (Update P)
  backwards [] passed = passed
  backwards (e ∷ t) passed = backwards t (e ∷ passed)

  -- `ZGPeerSession::SendDatabaseUpdateViaMulticast`.
  abbrev pub can_multicast : Master P → Update P → Bool
  can_multicast m u = m.network && m.takes_update u

module _ {P : Platform} {D : DatabaseObject P} where
  -- The second stage, forwards: an update that was not sent yet is sent.
  unfoldable pub send_unsent : Master P → Table (Update P) → Replica D → Replica D
  send_unsent m [] r = r
  send_unsent m ((k, u) ∷ t) r = send_unsent m t (
      if leb r.first_unsent_id k && can_multicast m u
      then record r { first_unsent_id = add64 k 1; multicasts = r.multicasts ++ (u ∷ []) }
      else r)

  -- The senior's trimming loop, at most one round for each entry.
  unfoldable pub trim_senior : Master P → ℕ → Replica D → Replica D
  trim_senior m zero r = r
  trim_senior m (suc fuel) r = elim r.log [
    | (_, u) ∷ _ ∷ _ ↦
        let rest = trim_senior m fuel (remove_update m u r) in
        if ltb r.max_payload_bytes r.total_payload_bytes then rest else r
    | _ ↦ r
  ]

  -- The senior's half of `RescanUpdateLog`, over the entries of its log.
  unfoldable pub rescan_entries : Master P → Table (Update P) → Replica D → Replica D
  rescan_entries m [] r = r
  rescan_entries m ((oldest, u) ∷ t) r =
      trim_senior m (length ((oldest, u) ∷ t))
        (send_unsent m (rewind r.first_unsent_id oldest (backwards ((oldest, u) ∷ t) []) []) r)

  unfoldable pub rescan_senior : Master P → Replica D → Replica D
  rescan_senior m r = rescan_entries m r.log r

  -- The loop that puts each missing update from `uid` up to `target` on back-order. It ends early
  -- if an order fails, and asks for the whole database.
  unfoldable pub order_missing : Master P → ℕ → ℕ → Replica D → Replica D
  order_missing m zero uid r = r
  order_missing m (suc rounds) uid r =
      let key = order_key m uid r in
      let attempt = request_back_order m key false r in
      let skip = order_missing m rounds (uid + 1) r in
      let next = order_missing m rounds (uid + 1) attempt.1 in
      let whole = (request_full_resend m false attempt.1).1 in
      if contains uid r.log || on_order key r.backorders
      then skip
      else (if is_ok attempt.0 then next else whole)

  -- What a junior does when the next update is not in its log.
  unfoldable pub missing_next : Master P → ℕ → Replica D → Replica D
  missing_next m target r =
      let next = add64 r.local_id 1 in
      if is_valid m.senior_peer
      then (if ltb next r.senior_oldest_id
          then (request_full_resend m false r).1
          else order_missing m (target + 1 - next) next r)
      else r

  -- The catch-up loop, with one round for each state that is still to reach.
  unfoldable pub catch_up : Master P → ℕ → ℕ → Replica D → Replica D
  catch_up m target zero r = r
  catch_up m target (suc rounds) r = elim (ltb r.local_id target) [
    | false ↦ r
    | true ↦ elim (get (add64 r.local_id 1) r.log) [
      | none ↦ missing_next m target r
      | some u ↦
          let (status, r') = junior_execute_update u r in
          elim (is_ok status) [
            | true ↦ catch_up m target rounds r'
            | false ↦ (request_full_resend m true r').1
          ]
    ]
  ]

  -- A junior's trimming loop: an update that is still needed stays.
  unfoldable pub trim_junior : Master P → ℕ → Replica D → Replica D
  trim_junior m zero r = r
  trim_junior m (suc fuel) r = elim r.log [
    | (k, u) ∷ _ ∷ _ ↦
        let rest = trim_junior m fuel (remove_update m u r) in
        if ltb r.max_payload_bytes r.total_payload_bytes && not (is_still_needed m k r)
        then rest
        else r
    | _ ↦ r
  ]

  -- A junior's effort to move forward, between the two tests and the trimming.
  unfoldable pub advance : Master P → Replica D → Replica D
  advance m r =
      if awaiting_full_resend m r
      then r
      else (if (r.local_id == 0) && ltb 1 (target_id r)
          then (request_full_resend m false r).1
          else catch_up m (target_id r) (target_id r - r.local_id) r)

  unfoldable pub rescan_junior : Master P → Replica D → Replica D
  rescan_junior m r =
      let r' = advance m (record r { first_unsent_id = add64 r.local_id 1 }) in
      if r.senior_received then trim_junior m (length r'.log) r' else r

  -- `RescanUpdateLog`.
  unfoldable pub rescan_update_log : Master P → Replica D → Replica D
  rescan_update_log m r = if i_am_senior m then rescan_senior m r else rescan_junior m r

  -- `RescanUpdateLogIfNecessary`, which is also the work of `Pulse`.
  unfoldable pub rescan_if_necessary : Master P → Replica D → Replica D
  rescan_if_necessary m r =
      if r.rescan_pending then rescan_update_log m (record r { rescan_pending = false }) else r
