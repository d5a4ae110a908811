-- ===== src/Replica/Follow/Produced.antt =====
-- The senior's side: what `HandleDatabaseUpdateRequest` puts into the log.
use zg_choir.Base.{
  ℕ, ◌≡◌, ◌≢◌, refl, sym, ap, subst, ◌∙◌, true, false, Option, none, some, add64, arith, inl, inr,
  Option-cases, Bool-cases,
}
use zg_choir.Table.{Table, get, put}
use zg_choir.Table.Laws.{get-put}
use zg_choir.Peer.{PeerId}
use zg_choir.Platform.{Platform, DatabaseObject, IsLawful, Status, ok, is_ok, bad_data}
use zg_choir.Update.{
  Update, Kind, reset, replace, update, get_payload_message, set_payload_message,
  set_senior_elapsed_micros, fresh_update,
}
use zg_choir.Replica.State.{
  Replica, Master, Timing, Request, reset_senior, replace_senior, update_senior, update_junior,
  unknown_request,
}
use zg_choir.Replica.Log.{add_update}
use zg_choir.Replica.Senior.{
  with_database, reset_local_database, set_local_database, senior_update_local_database,
  settle_payload, completed, new_update, senior_update_completed, handle_reset, handle_replace,
  handle_update, handle_database_update_request,
}
use zg_choir.Replica.Invariant.{log-add, add_keeps}
use zg_choir.Replica.Books.{update_id-new}
use zg_choir.Replica.Follow.{Applies, Follows, IsChecked}

is_ok→ok : (s : Status) → is_ok s ≡ true → s ≡ ok
is_ok→ok s h = ground arith

not_ok : {s : Status} → is_ok s ≡ false → s ≡ ok → ⊥
not_ok e h = cc

pair-ok {ℓ} : {A : Type ℓ} {B : Type 0} (x : A × B) (v : A) → x.0 ≡ v → x ≡ (v, x.1)
pair-ok (a, b) v e = rw e

module _ {P : Platform} where
  get-replaced :
      (j uid : ℕ) (v w : Update P) (t : Table (Update P)) {u : Table (Update P)}
      → u ≡ put uid w t
      → j ≢ uid
      → get j (put uid v u) ≡ get j t
  get-replaced j uid v w t {u} e ne = ground (arith, get-put j uid v u, get-put j uid w t)

  -- A request that only a senior peer serves.
  abbrev pub IsForSenior : Request P → Type 0
  IsForSenior reset_senior = Unit {0}
  IsForSenior (replace_senior msg) = Unit {0}
  IsForSenior (update_senior msg) = Unit {0}
  IsForSenior _ = ⊥

module _ {P : Platform} {D : DatabaseObject P} where
  -- What one served request leaves: the next state, and an entry that leads to it. No other entry
  -- of the log has changed.
  pub record Served (a b : Replica D) : Type 0 where
    pub entry : Update P
    pub held : get (add64 a.local_id 1) b.log ≡ some entry
    pub others : (k : ℕ) → k ≢ add64 a.local_id 1 → get k b.log ≡ get k a.log
    pub follows : Follows D entry a.local_id a.db b.db
    pub id_is : b.local_id ≡ add64 a.local_id 1
    pub checked : IsChecked b

  -- An update as the senior completes it.
  finished_entry : Timing → Kind → PeerId → Option P.Message → D.State → Replica D → Update P
  finished_entry c k from p s r = completed c (D.get_current_checksum s) p (new_update k from r)

  finished-Follows :
      (c : Timing) (k : Kind) (from : PeerId) (p : Option P.Message) (s : D.State) (r : Replica D)
      → IsChecked r
      → Applies D k p r.db s
      → Follows D (finished_entry c k from p s r) r.local_id r.db s
  unfolding finished_entry completed new_update settle_payload set_payload_message
      set_senior_elapsed_micros get_payload_message fresh_update
  finished-Follows c k from none s r chk h = record {
    next_id = refl;
    before = chk;
    after = refl;
    applies = h;
  }
  finished-Follows c k from (some m) s r chk h = record {
    next_id = refl;
    before = chk;
    after = refl;
    applies = h;
  }

  finished-Served :
      (m : Master P) (c : Timing) (k : Kind) (from : PeerId) (p : Option P.Message) (s : D.State)
      (r : Replica D)
      → IsChecked r
      → Applies D k p r.db s
      → Served r (
          senior_update_completed c
            (new_update k from r)
            p
            (with_database s (add_update m (new_update k from r) r)))
  unfolding senior_update_completed with_database finished_entry new_update fresh_update
  finished-Served m c k from p s r chk h = record {
    entry = finished_entry c k from p s r;
    held =
        rw (update_id-new k from r, get-put (add64 r.local_id 1) (add64 r.local_id 1))
          (ground arith);
    others = λ j ne.
        get-replaced j (add64 r.local_id 1) _ (new_update k from r) r.log
          (log-add m (new_update k from r) r) ne;
    follows = finished-Follows c k from p s r chk h;
    id_is = ap (λ n. add64 n 1) (add_keeps m (new_update k from r) r).0;
    checked = refl;
  }

  bad_data_not_ok : {r b : Replica D} → ◌≡◌ {A = Status × Replica D} (bad_data, r) (ok, b) → ⊥
  bad_data_not_ok h = cc (ap (λ (x : Status × Replica D). x.0) h)

  db-add : (m : Master P) (u : Update P) (r : Replica D) → (add_update m u r).db ≡ r.db
  db-add m u r = (add_keeps m u r).1

  reset-Served :
      (m : Master P) (c : Timing) (from : PeerId) (a b : Replica D)
      → IsChecked a
      → handle_reset m c from a ≡ (ok, b)
      → Served a b
  unfolding handle_reset reset_local_database
  reset-Served m c from a b chk h = subst (Served a) (ap (λ (x : Status × Replica D). x.1) h) (
      finished-Served m c reset from none _ a chk
        (ap D.set_to_default_state (db-add m (new_update reset from a) a)))

  replace-Served :
      (m : Master P) (c : Timing) (from : PeerId) (msg : P.Message) (a b : Replica D)
      → IsChecked a
      → handle_replace m c from msg a ≡ (ok, b)
      → Served a b
  unfolding handle_replace set_local_database
  replace-Served m c from msg a b chk h =
      let logged : Replica D = add_update m (new_update replace from a) a in
      let ran : Status × D.State = D.set_from_archive msg logged.db in
      elim (Bool-cases (is_ok ran.0)) [
        | inl e ↦
            subst (Served a) (ap (λ (x : Status × Replica D). x.1) (rw (e, handle_replace) at h)) (
              finished-Served m c replace from (some msg) ran.1 a chk (
                msg,
                refl,
                ap (D.set_from_archive msg) (sym (db-add m (new_update replace from a) a))
                    ∙ pair-ok ran ok (is_ok→ok ran.0 e),
              ))
        | inr e ↦
            absurd (not_ok e (ap (λ (x : Status × Replica D). x.0) (rw (e, handle_replace) at h)))
      ]

  update-Served :
      (m : Master P) (c : Timing) (from : PeerId) (msg : P.Message) (a b : Replica D)
      → IsLawful D
      → IsChecked a
      → handle_update m c from msg a ≡ (ok, b)
      → Served a b
  unfolding handle_update senior_update_local_database
  update-Served m c from msg a b law chk h =
      let logged : Replica D = add_update m (new_update update from a) a in
      let ran : Option P.Message × D.State = D.senior_update c.network_start msg logged.db in
      elim (Option-cases ran.0) [
        | inr (j, e) ↦
            subst (Served a) (ap (λ (x : Status × Replica D). x.1) (rw (e, handle_update) at h)) (
              finished-Served m c update from (some j) ran.1 a chk (
                j,
                refl,
                law.junior_follows c.network_start msg j a.db ran.1 (
                    ap (D.senior_update c.network_start msg)
                      (sym (db-add m (new_update update from a) a))
                    ∙ pair-ok ran (some j) e),
              ))
        | inl e ↦
            absurd (not_ok refl (ap (λ (x : Status × Replica D). x.0) (rw (e, handle_update) at h)))
      ]

  -- Where the database object is lawful and the checksum current, a request for the senior peer
  -- that succeeds puts one entry into the log under the next state id and changes no entry under
  -- another id. That entry names both checksums and takes the old database to the new one, the
  -- state id goes up by one, and the checksum stays current.
  pub request-Served :
      (m : Master P) (c : Timing) (from : PeerId) (q : Request P) (a b : Replica D)
      → IsLawful D
      → IsChecked a
      → IsForSenior q
      → handle_database_update_request m c from q a ≡ (ok, b)
      → Served a b
  unfolding handle_database_update_request
  request-Served m c from reset_senior a b law chk for_senior h = reset-Served m c from a b chk h
  request-Served m c from (replace_senior none) a b law chk for_senior h =
      absurd (bad_data_not_ok h)
  request-Served m c from (replace_senior (some msg)) a b law chk for_senior h =
      replace-Served m c from msg a b chk h
  request-Served m c from (update_senior none) a b law chk for_senior h = absurd (bad_data_not_ok h)
  request-Served m c from (update_senior (some msg)) a b law chk for_senior h =
      update-Served m c from msg a b law chk h
  request-Served m c from (update_junior u) a b law chk for_senior h = absurd for_senior
  request-Served m c from unknown_request a b law chk for_senior h = absurd for_senior
