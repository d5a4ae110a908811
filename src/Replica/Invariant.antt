-- ===== src/Replica/Invariant.antt =====
-- The bookkeeping invariant of `PZGDatabaseState`: the log's order, its keys, and the running
-- tallies of PZGDatabaseState.h, which count payload bytes and milliseconds modulo 2 ^ 64.
use zg_choir.Base.{
  ℕ, ◌%◌, ◌^◌, ◌<◌, ◌≡◌, ◌≢◌, refl, none, some, [], ◌∷◌, add64, sub64, arith, inl, inr,
  Option-cases,
}
use zg_choir.Table.{Table, get, put, remove, total}
use zg_choir.Table.Laws.{
  IsOrdered, put-IsOrdered, remove-IsOrdered, total-put, total-put_over, total-remove,
}
use zg_choir.Platform.{Platform, DatabaseObject}
use zg_choir.Update.{Update, payload_bytes}
use zg_choir.Replica.State.{Replica, Master}
use zg_choir.Replica.Log.{add_update, remove_update, tally, schedule_rescan}

module _ {P : Platform} where
  abbrev pub bytes_in : Table (Update P) → ℕ
  bytes_in = total payload_bytes

  abbrev pub millis_in : Table (Update P) → ℕ
  millis_in = total (λ u. u.elapsed_millis)

  -- Every entry stands under its own update id.
  abbrev pub IsKeyed : Table (Update P) → Type 0
  IsKeyed [] = Unit {0}
  IsKeyed ((k, u) ∷ t) = (u.update_id ≡ k) × IsKeyed t

  pub tally-add64 :
      (t : ℕ) (u : Update P) → t < 2 ^ 64 → tally add64 t u ≡ add64 t (payload_bytes u)
  unfolding tally payload_bytes
  tally-add64 t u h = ground arith

  pub tally-sub64 :
      (t : ℕ) (u : Update P) → t < 2 ^ 64 → tally sub64 t u ≡ sub64 t (payload_bytes u)
  unfolding tally payload_bytes
  tally-sub64 t u h = ground arith

  pub put-IsKeyed :
      (u : Update P) (t : Table (Update P)) → IsKeyed t → IsKeyed (put u.update_id u t)
  unfolding put
  put-IsKeyed u [] h = (refl, tt)
  put-IsKeyed u ((j, w) ∷ t) h = ground (arith, put-IsKeyed u t)

  pub remove-IsKeyed : (k : ℕ) (t : Table (Update P)) → IsKeyed t → IsKeyed (remove k t)
  unfolding remove
  remove-IsKeyed k [] h = tt
  remove-IsKeyed k ((j, w) ∷ t) h = ground (arith, remove-IsKeyed k t)

module _ {P : Platform} {D : DatabaseObject P} where
  pub record IsConsistent (r : Replica D) : Type 0 where
    pub ordered : IsOrdered r.log
    pub keyed : IsKeyed r.log
    pub bytes : r.total_payload_bytes ≡ bytes_in r.log % 2 ^ 64
    pub millis : r.total_elapsed_millis ≡ millis_in r.log % 2 ^ 64

  pub log-add :
      (m : Master P) (u : Update P) (r : Replica D)
      → (add_update m u r).log ≡ put u.update_id u r.log
  unfolding add_update schedule_rescan
  log-add m u r = ground arith

  pub bytes-add :
      (m : Master P) (u : Update P) (r : Replica D)
      → (add_update m u r).total_payload_bytes ≡ tally add64 r.total_payload_bytes u
  unfolding add_update schedule_rescan
  bytes-add m u r = ground arith

  pub millis-add :
      (m : Master P) (u : Update P) (r : Replica D)
      → (add_update m u r).total_elapsed_millis ≡ add64 r.total_elapsed_millis u.elapsed_millis
  unfolding add_update schedule_rescan
  millis-add m u r = ground arith

  -- What a new entry in the log leaves alone.
  pub add_keeps :
      (m : Master P) (u : Update P) (r : Replica D)
      → ((add_update m u r).local_id ≡ r.local_id)
        × ((add_update m u r).db ≡ r.db)
        × ((add_update m u r).checksum ≡ r.checksum)
        × ((add_update m u r).which_database ≡ r.which_database)
        × ((add_update m u r).backorders ≡ r.backorders)
        × ((add_update m u r).senior_id ≡ r.senior_id)
  unfolding add_update schedule_rescan
  add_keeps m u r = ground arith

  -- An update under a fresh id keeps the books.
  pub add-IsConsistent :
      (m : Master P) (u : Update P) (r : Replica D)
      → get u.update_id r.log ≡ none
      → IsConsistent r
      → IsConsistent (add_update m u r)
  add-IsConsistent m u r fresh v = record {
    ordered = rw (log-add m u r) (put-IsOrdered u.update_id u r.log v.ordered);
    keyed = rw (log-add m u r) (put-IsKeyed u r.log v.keyed);
    bytes =
        rw (log-add m u r, bytes-add m u r, total-put payload_bytes u.update_id u r.log fresh)
          (omega (arith, tally-add64 r.total_payload_bytes u, v.bytes));
    millis =
        rw
          (
            log-add m u r,
            millis-add m u r,
            total-put (λ (w : Update P). w.elapsed_millis) u.update_id u r.log fresh,
          )
          (omega (arith, v.millis));
  }

  -- An update whose id is already in the log replaces the entry there, and the tally of payload
  -- bytes is then not the number of bytes in the log: on a replica with consistent books, where
  -- the replaced entry has between 1 and 2 ^ 64 - 1 payload bytes.
  pub add_again-overcounts :
      (m : Master P) (u w : Update P) (r : Replica D)
      → IsConsistent r
      → get u.update_id r.log ≡ some w
      → 0 < payload_bytes w
      → payload_bytes w < 2 ^ 64
      → (add_update m u r).total_payload_bytes ≢ bytes_in (add_update m u r).log % 2 ^ 64
  add_again-overcounts m u w r v held pos small =
      rw (log-add m u r, bytes-add m u r)
        (omega (
          arith,
          tally-add64 r.total_payload_bytes u,
          v.bytes,
          total-put_over payload_bytes u.update_id u w r.log v.ordered held,
        ))

  pub remove-IsConsistent :
      (m : Master P) (u : Update P) (r : Replica D)
      → IsConsistent r
      → IsConsistent (remove_update m u r)
  unfolding remove_update
  remove-IsConsistent m u r v = elim (Option-cases (get u.update_id r.log)) [
    | inl e ↦ rw (e, remove_update) v
    | inr (w, e) ↦
        rw (e, remove_update)
          (record {
            ordered = remove-IsOrdered u.update_id r.log v.ordered;
            keyed = remove-IsKeyed u.update_id r.log v.keyed;
            bytes = omega (
              arith,
              tally-sub64 r.total_payload_bytes w,
              v.bytes,
              total-remove payload_bytes u.update_id w r.log e,
            );
            millis = omega (
              arith,
              v.millis,
              total-remove (λ (x : Update P). x.elapsed_millis) u.update_id w r.log e,
            );
          })
  ]
