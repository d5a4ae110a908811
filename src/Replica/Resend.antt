-- ===== src/Replica/Resend.antt =====
-- Full resends and refused requests of `PZGDatabaseState`.
use zg_choir.Base.{◌≡◌, ◌≢◌, refl, ap, subst, ◌∙◌, none, some, add64, arith, inl, inr, Option-cases}
use zg_choir.Table.{get, remove}
use zg_choir.Table.Laws.{remove-put}
use zg_choir.Peer.{PeerId}
use zg_choir.Platform.{Platform, DatabaseObject, IsLawful, ok}
use zg_choir.Update.{
  Update, update, get_payload_message, set_payload_message, set_senior_elapsed_micros, fresh_update,
}
use zg_choir.Replica.State.{Replica, Master, Timing, full_update_id}
use zg_choir.Replica.Log.{add_update, remove_update, tally}
use zg_choir.Replica.Senior.{
  set_local_database, senior_update_local_database, new_update, with_database, handle_update,
}
use zg_choir.Replica.Junior.{
  run_update, junior_execute_aux, confirm_replace, junior_execute_replace,
}
use zg_choir.Replica.Exchange.{saved_update, get_update_by_id}
use zg_choir.Replica.Invariant.{
  IsConsistent, add_keeps, log-add, bytes-add, millis-add, tally-add64, tally-sub64,
}
use zg_choir.Replica.Books.{update_id-new, get-logged}
use zg_choir.Replica.Follow.{IsChecked}
use zg_choir.Replica.Converge.{IsAt}

some_inj : {A : Type 0} {a b : A} → some a ≡ some b → a ≡ b
some_inj h = cc

none_not_some {ℓ} : {A : Type ℓ} {a : A} → none ≡ some a → ⊥
none_not_some h = cc

module _ {P : Platform} {D : DatabaseObject P} where
  saved-IsAt :
      (m : Master P) (c : Timing) (msg : P.Message) (a j : Replica D)
      → IsLawful D
      → IsChecked a
      → D.save_to_archive a.db ≡ some msg
      → (junior_execute_replace (saved_update m c msg a) j).0 ≡ ok
        × IsAt a.local_id a.db (junior_execute_replace (saved_update m c msg a) j).1
  unfolding junior_execute_replace junior_execute_aux run_update confirm_replace saved_update
      set_payload_message get_payload_message set_senior_elapsed_micros fresh_update
      set_local_database with_database
  saved-IsAt m c msg a j law chk e = ground (arith, chk, law.archive_restores msg a.db j.db e)

  -- Where a senior peer with a lawful database object and a current checksum answers a request for
  -- its whole database, a junior peer that runs the answer succeeds, and has the senior's
  -- database, state id and checksum, whatever it had before.
  pub full_resend_restores :
      (m : Master P) (c : Timing) (a j : Replica D) (u : Update P)
      → IsLawful D
      → IsChecked a
      → get_update_by_id m c full_update_id a ≡ some u
      → (junior_execute_replace u j).0 ≡ ok × IsAt a.local_id a.db (junior_execute_replace u j).1
  unfolding get_update_by_id
  full_resend_restores m c a j u law chk h = elim (Option-cases (D.save_to_archive a.db)) [
    | inl e ↦ absurd (none_not_some (rw (e, get_update_by_id) at h))
    | inr (msg, e) ↦
        subst
          (λ (v : Update P).
            ((junior_execute_replace v j).0 ≡ ok)
            × IsAt a.local_id a.db (junior_execute_replace v j).1)
          (some_inj (rw (e, get_update_by_id) at h)) (saved-IsAt m c msg a j law chk e)
  ]

  -- What a replica has of its log and position, as another has it.
  pub record IsTakenBack (r s : Replica D) : Type 0 where
    pub log : r.log ≡ s.log
    pub bytes : r.total_payload_bytes ≡ s.total_payload_bytes
    pub millis : r.total_elapsed_millis ≡ s.total_elapsed_millis
    pub local_id : r.local_id ≡ s.local_id

  -- A new entry taken back leaves the log, the tallies and the state id as they were.
  take_back :
      (m : Master P) (u : Update P) (s : D.State) (r : Replica D)
      → get u.update_id r.log ≡ none
      → IsConsistent r
      → IsTakenBack (remove_update m u (with_database s (add_update m u r))) r
  unfolding remove_update with_database
  take_back m u s r fresh v =
      rw (get-logged m u s r, remove_update)
        (record {
          log = ap (remove u.update_id) (log-add m u r) ∙ remove-put u.update_id u r.log fresh;
          bytes = rw (bytes-add m u r) (
              omega (
                arith,
                tally-add64 r.total_payload_bytes u,
                tally-sub64 (tally add64 r.total_payload_bytes u) u,
                v.bytes,
              ));
          millis = rw (millis-add m u r) (omega (arith, v.millis));
          local_id = (add_keeps m u r).0;
        })

  -- An update that the senior's database object refuses leaves the log, its tallies and the state
  -- id as they were: on a replica with consistent books whose next id is free.
  pub refused_update-IsTakenBack :
      (m : Master P) (c : Timing) (from : PeerId) (msg : P.Message) (r : Replica D)
      → get (add64 r.local_id 1) r.log ≡ none
      → IsConsistent r
      → (handle_update m c from msg r).0 ≢ ok
      → IsTakenBack (handle_update m c from msg r).1 r
  unfolding handle_update senior_update_local_database
  refused_update-IsTakenBack m c from msg r fresh v bad =
      let logged : Replica D = add_update m (new_update update from r) r in
      let s : D.State = (D.senior_update c.network_start msg logged.db).1 in
      elim (Option-cases (D.senior_update c.network_start msg logged.db).0) [
        | inl e ↦
            rw (e, handle_update)
              (take_back m (new_update update from r) s r (rw (update_id-new update from r) fresh)
                v)
        | inr (j, e) ↦ absurd (bad (rw (e, handle_update) refl))
      ]
