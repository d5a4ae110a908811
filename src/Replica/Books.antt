-- ===== src/Replica/Books.antt =====
-- That the senior's requests keep the books of `PZGDatabaseState`.
use zg_choir.Base.{
  ℕ, ◌^◌, ◌<◌, ◌≡◌, refl, Option, none, some, add64, sub64, arith, inl, inr, Option-cases,
}
use zg_choir.Table.{Table, get, put}
use zg_choir.Table.Laws.{put-IsOrdered, total-put_over, get-put}
use zg_choir.Peer.{PeerId}
use zg_choir.Platform.{Platform, DatabaseObject}
use zg_choir.Update.{
  Update, Kind, payload_bytes, get_payload_buffer, get_payload_message, set_payload_message,
  set_senior_elapsed_micros, fresh_update, reset, replace, update,
}
use zg_choir.Replica.State.{
  Replica, Master, Timing, Request, reset_senior, replace_senior, update_senior, update_junior,
  unknown_request,
}
use zg_choir.Replica.Log.{add_update, remove_update, tally}
use zg_choir.Replica.Senior.{
  settle_payload, settle_tally, completed, senior_update_completed, handle_reset, handle_replace,
  handle_update, handle_database_update_request, reset_local_database, set_local_database,
  senior_update_local_database, new_update, with_database,
}
use zg_choir.Replica.Invariant.{
  IsConsistent, IsKeyed, add-IsConsistent, remove-IsConsistent, put-IsKeyed, log-add,
}

module _ {P : Platform} where
  settle_tally_lem :
      (c : Timing) (chk t : ℕ) (p : Option P.Message) (u : Update P)
      → t < 2 ^ 64
      → settle_tally p t u ≡ add64 (sub64 t (payload_bytes u)) (payload_bytes (completed c chk p u))
  unfolding settle_tally settle_payload completed payload_bytes get_payload_buffer tally
      set_payload_message set_senior_elapsed_micros get_payload_message
  settle_tally_lem c chk t none u h = ground arith
  settle_tally_lem c chk t (some m) u h = ground arith

  update_id-completed :
      (c : Timing) (chk : ℕ) (p : Option P.Message) (u : Update P)
      → (completed c chk p u).update_id ≡ u.update_id
  unfolding completed settle_payload set_payload_message set_senior_elapsed_micros
  update_id-completed c chk none u = ground arith
  update_id-completed c chk (some m) u = refl

  replace-IsKeyed :
      (u w : Update P) (t : Table (Update P))
      → w.update_id ≡ u.update_id
      → IsKeyed t
      → IsKeyed (put u.update_id w t)
  replace-IsKeyed u w t e h = rw (← e) (put-IsKeyed w t h)

module _ {P : Platform} {D : DatabaseObject P} where
  completed-IsConsistent :
      (c : Timing) (u : Update P) (p : Option P.Message) (r : Replica D)
      → get u.update_id r.log ≡ some u
      → IsConsistent r
      → IsConsistent (senior_update_completed c u p r)
  unfolding senior_update_completed
  completed-IsConsistent c u p r held v =
      let u' : Update P = completed c r.checksum p u in
      record {
        ordered = put-IsOrdered u.update_id u' r.log v.ordered;
        keyed = replace-IsKeyed u u' r.log (update_id-completed c r.checksum p u) v.keyed;
        bytes = omega (
          arith,
          settle_tally_lem c r.checksum r.total_payload_bytes p u,
          v.bytes,
          total-put_over payload_bytes u.update_id u' u r.log v.ordered held,
        );
        millis = omega (
          arith,
          v.millis,
          total-put_over (λ (x : Update P). x.elapsed_millis) u.update_id u' u r.log v.ordered held,
        );
      }

  with_database-IsConsistent :
      (s : D.State) (r : Replica D) → IsConsistent r → IsConsistent (with_database s r)
  unfolding with_database
  with_database-IsConsistent s r v = record {
    ordered = v.ordered;
    keyed = v.keyed;
    bytes = v.bytes;
    millis = v.millis;
  }

  pub get-add :
      (m : Master P) (u : Update P) (r : Replica D)
      → get u.update_id (add_update m u r).log ≡ some u
  get-add m u r = rw (log-add m u r, get-put u.update_id u.update_id u r.log) (ground arith)

  -- The id under which a request will be logged is not in the log yet.
  abbrev pub IsFreshFor : Request P → Replica D → Type 0
  IsFreshFor (update_junior none) r = Unit {0}
  IsFreshFor (update_junior (some u)) r = get u.update_id r.log ≡ none
  IsFreshFor _ r = get (add64 r.local_id 1) r.log ≡ none

  pub update_id-new :
      (k : Kind) (from : PeerId) (r : Replica D)
      → (new_update k from r).update_id ≡ add64 r.local_id 1
  unfolding new_update fresh_update
  update_id-new k from r = refl

  -- A senior request runs on a log that already holds its update.
  pub logged-IsConsistent :
      (m : Master P) (k : Kind) (from : PeerId) (s : D.State) (r : Replica D)
      → get (add64 r.local_id 1) r.log ≡ none
      → IsConsistent r
      → IsConsistent (with_database s (add_update m (new_update k from r) r))
  logged-IsConsistent m k from s r fresh v =
      with_database-IsConsistent s _
        (add-IsConsistent m (new_update k from r) r (rw (update_id-new k from r) fresh) v)

  pub get-logged :
      (m : Master P) (u : Update P) (s : D.State) (r : Replica D)
      → get u.update_id (with_database s (add_update m u r)).log ≡ some u
  unfolding with_database
  get-logged m u s r = get-add m u r

  handle_reset-IsConsistent :
      (m : Master P) (c : Timing) (from : PeerId) (r : Replica D)
      → get (add64 r.local_id 1) r.log ≡ none
      → IsConsistent r
      → IsConsistent (handle_reset m c from r).1
  unfolding handle_reset reset_local_database
  handle_reset-IsConsistent m c from r fresh v =
      completed-IsConsistent c (new_update reset from r) none
        (with_database (D.set_to_default_state (add_update m (new_update reset from r) r).db)
          (add_update m (new_update reset from r) r))
        (get-logged m (new_update reset from r) _ r) (logged-IsConsistent m reset from _ r fresh v)

  -- What a senior request leaves: completed with a payload, or taken back.
  finished-IsConsistent :
      (m : Master P) (c : Timing) (k : Kind) (from : PeerId) (p : Option P.Message) (s : D.State)
      (r : Replica D)
      → get (add64 r.local_id 1) r.log ≡ none
      → IsConsistent r
      → IsConsistent (
          senior_update_completed c
            (new_update k from r)
            p
            (with_database s (add_update m (new_update k from r) r)))
        × IsConsistent (
            remove_update m
              (new_update k from r)
              (with_database s (add_update m (new_update k from r) r)))
  finished-IsConsistent m c k from p s r fresh v = (
    completed-IsConsistent c (new_update k from r) p _ (get-logged m (new_update k from r) s r)
        (logged-IsConsistent m k from s r fresh v),
    remove-IsConsistent m (new_update k from r) _ (logged-IsConsistent m k from s r fresh v),
  )

  handle_replace-IsConsistent :
      (m : Master P) (c : Timing) (from : PeerId) (msg : P.Message) (r : Replica D)
      → get (add64 r.local_id 1) r.log ≡ none
      → IsConsistent r
      → IsConsistent (handle_replace m c from msg r).1
  unfolding handle_replace set_local_database
  handle_replace-IsConsistent m c from msg r fresh v = ground (
    arith,
    finished-IsConsistent m c replace from (some msg)
        (D.set_from_archive msg (add_update m (new_update replace from r) r).db).1 r fresh v,
  )

  handle_update-IsConsistent :
      (m : Master P) (c : Timing) (from : PeerId) (msg : P.Message) (r : Replica D)
      → get (add64 r.local_id 1) r.log ≡ none
      → IsConsistent r
      → IsConsistent (handle_update m c from msg r).1
  unfolding handle_update senior_update_local_database
  handle_update-IsConsistent m c from msg r fresh v =
      let logged : Replica D = add_update m (new_update update from r) r in
      let s : D.State = (D.senior_update c.network_start msg logged.db).1 in
      elim (Option-cases (D.senior_update c.network_start msg logged.db).0) [
        | inl e ↦ rw (e, handle_update) (finished-IsConsistent m c update from none s r fresh v).1
        | inr (j, e) ↦
            rw (e, handle_update) (finished-IsConsistent m c update from (some j) s r fresh v).0
      ]

  -- A request keeps the log in order and keyed by update id, and its tallies of payload bytes and
  -- milliseconds equal to the sums over the log modulo 2 ^ 64, on every branch: where the id that
  -- the request will be logged under is not in the log.
  pub request-IsConsistent :
      (m : Master P) (c : Timing) (from : PeerId) (q : Request P) (r : Replica D)
      → IsFreshFor q r
      → IsConsistent r
      → IsConsistent (handle_database_update_request m c from q r).1
  unfolding handle_database_update_request
  request-IsConsistent m c from reset_senior r fresh v =
      handle_reset-IsConsistent m c from r fresh v
  request-IsConsistent m c from (replace_senior none) r fresh v = v
  request-IsConsistent m c from (replace_senior (some msg)) r fresh v =
      handle_replace-IsConsistent m c from msg r fresh v
  request-IsConsistent m c from (update_senior none) r fresh v = v
  request-IsConsistent m c from (update_senior (some msg)) r fresh v =
      handle_update-IsConsistent m c from msg r fresh v
  request-IsConsistent m c from (update_junior none) r fresh v = v
  request-IsConsistent m c from (update_junior (some u)) r fresh v = add-IsConsistent m u r fresh v
  request-IsConsistent m c from unknown_request r fresh v = v
