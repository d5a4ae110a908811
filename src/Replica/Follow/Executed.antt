-- ===== src/Replica/Follow/Executed.antt =====
-- The junior's side: `JuniorExecuteDatabaseUpdate` and the catch-up loop.
use zg_choir.Base.{
  ℕ, zero, suc, ◌+◌, ◌^◌, ◌<◌, ◌≡◌, refl, ap, ◌∙◌, true, false, Option, add64, arith, lt→ltb,
}
use zg_choir.Table.{get}
use zg_choir.Platform.{Platform, DatabaseObject, Status, ok, is_ok}
use zg_choir.Update.{Update, Kind, noop, reset, replace, update, unknown, get_payload_message}
use zg_choir.Replica.State.{Replica, Master}
use zg_choir.Replica.Senior.{
  with_database, reset_local_database, set_local_database, junior_update_local_database,
}
use zg_choir.Replica.Junior.{
  run_update, junior_execute_aux, confirm_update, junior_execute_update, request_full_resend,
}
use zg_choir.Replica.Rescan.{catch_up}
use zg_choir.Replica.Follow.{Applies, Follows, Leads, IsChecked}

module _ {P : Platform} {D : DatabaseObject P} where
  -- A junior after a run of updates, in the fields that a run changes.
  abbrev pub moved : ℕ → D.State → ℕ → Replica D → Replica D
  moved uid t time r = record r {
    db = t;
    checksum = D.get_current_checksum t;
    local_id = uid;
    update_time = time;
  }

  run_update-Applies :
      (k : Kind) (msg : Option P.Message) (t : D.State) (r : Replica D)
      → IsChecked r
      → Applies D k msg r.db t
      → run_update k msg r ≡ (ok, with_database t r)
  unfolding run_update with_database reset_local_database set_local_database
      junior_update_local_database
  run_update-Applies noop msg t r c h = ground (arith, c, h)
  run_update-Applies reset msg t r c h = ground arith
  run_update-Applies replace msg t r c (a, e, h) = rw e (rw h refl)
  run_update-Applies update msg t r c (a, e, h) = rw e (rw h refl)
  run_update-Applies (unknown code) msg t r c h = absurd h

  -- An update that follows a junior's state takes the junior to the next state.
  pub execute-Follows :
      (u : Update P) (t : D.State) (r : Replica D)
      → IsChecked r
      → Follows D u r.local_id r.db t
      → junior_execute_update u r ≡ (ok, moved (add64 r.local_id 1) t u.start_micros r)
  unfolding junior_execute_update junior_execute_aux confirm_update with_database
  execute-Follows u t r c f = ground (
    arith,
    run_update-Applies u.kind (get_payload_message u) t (record r { update_time = u.start_micros })
        c f.applies,
  )

  -- An update that a junior peer accepts was the next one, started from the junior's checksum,
  -- gave the checksum that it names, and its id is the junior's new state id.
  pub execute-ok :
      (u : Update P) (r r' : Replica D)
      → junior_execute_update u r ≡ (ok, r')
      → (u.update_id ≡ add64 r.local_id 1)
        × (u.pre_checksum ≡ r.checksum)
        × (r'.checksum ≡ u.post_checksum)
        × (r'.local_id ≡ u.update_id)
  unfolding junior_execute_update confirm_update
  execute-ok u r r' h = ground arith

  -- The rest of a round of the loop, once an update has run.
  abbrev after_step : Master P → ℕ → ℕ → Status × Replica D → Replica D
  after_step m target n (status, r) = elim (is_ok status) [
    | true ↦ catch_up m target n r
    | false ↦ (request_full_resend m true r).1
  ]

  -- The loop follows its log step by step, as far as the log leads.
  pub catch_up-Leads :
      (m : Master P) (n target : ℕ) (r : Replica D) (t : D.State)
      → IsChecked r
      → target < 2 ^ 64
      → r.local_id + n ≡ target
      → Leads D (λ k. get k r.log) n r.local_id r.db target t
      → (time : ℕ) × (catch_up m target n r ≡ moved target t time r)
  unfolding catch_up
  catch_up-Leads m zero target r t c small e (same, there) = (r.update_time, ground (arith, c))
  catch_up-Leads m (suc n) target r t c small e (u, mid, held, f, rest) =
      let step : add64 r.local_id 1 ≡ r.local_id + 1 = omega arith in
      let (time, done) =
        catch_up-Leads m n target (moved (add64 r.local_id 1) mid u.start_micros r) t refl small
          (omega arith) rest in
      (
        time,
        rw (lt→ltb r.local_id target (omega arith), catch_up)
            (rw (held, catch_up) (ap (after_step m target n) (execute-Follows u mid r c f) ∙ done)),
      )
