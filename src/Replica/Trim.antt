-- ===== src/Replica/Trim.antt =====
-- The trimming loops of `RescanUpdateLog`.
use zg_choir.Base.{
  ℕ, zero, suc, ◌≤◌, ◌≡◌, refl, ◌∙◌, true, [], ◌∷◌, arith, inl, inr, Bool-cases, ltb, ◌⊎◌, length,
  if_inv, if_true, if_false, ltb-false,
}
use zg_choir.Table.{Table, get, remove}
use zg_choir.Platform.{Platform, DatabaseObject}
use zg_choir.Update.{Update}
use zg_choir.Replica.State.{Replica, Master, i_am_senior}
use zg_choir.Replica.Log.{remove_update}
use zg_choir.Replica.Rescan.{
  trim_senior, trim_junior, send_unsent, rescan_entries, rescan_senior, rescan_update_log,
}
use zg_choir.Replica.Invariant.{IsKeyed}

module _ {P : Platform} {D : DatabaseObject P} where
  -- What removing an entry keeps, the loops keep.
  pub trim_junior_inv {ℓ} :
      (Q : Replica D → Type ℓ) (m : Master P)
      → ((u : Update P) (r : Replica D) → Q r → Q (remove_update m u r))
      → (fuel : ℕ) (r : Replica D) → Q r
      → Q (trim_junior m fuel r)
  unfolding trim_junior
  trim_junior_inv Q m keep zero r q = q
  trim_junior_inv Q m keep (suc fuel) r q =
      go r.log refl (λ u. trim_junior_inv Q m keep fuel (remove_update m u r) (keep u r q))
    where
      go :
          (l : Table (Update P))
          → r.log ≡ l
          → ((u : Update P) → Q (trim_junior m fuel (remove_update m u r)))
          → Q (trim_junior m (suc fuel) r)
      go [] e ih = rw (e, trim_junior) q
      go (a ∷ []) e ih = rw (e, trim_junior) q
      go ((k, u) ∷ a ∷ t) e ih = rw (e, trim_junior) (if_inv Q _ (ih u) q)

  pub trim_senior_inv {ℓ} :
      (Q : Replica D → Type ℓ) (m : Master P)
      → ((u : Update P) (r : Replica D) → Q r → Q (remove_update m u r))
      → (fuel : ℕ) (r : Replica D) → Q r
      → Q (trim_senior m fuel r)
  unfolding trim_senior
  trim_senior_inv Q m keep zero r q = q
  trim_senior_inv Q m keep (suc fuel) r q =
      go r.log refl (λ u. trim_senior_inv Q m keep fuel (remove_update m u r) (keep u r q))
    where
      go :
          (l : Table (Update P))
          → r.log ≡ l
          → ((u : Update P) → Q (trim_senior m fuel (remove_update m u r)))
          → Q (trim_senior m (suc fuel) r)
      go [] e ih = rw (e, trim_senior) q
      go (a ∷ []) e ih = rw (e, trim_senior) q
      go ((k, u) ∷ a ∷ t) e ih = rw (e, trim_senior) (if_inv Q _ (ih u) q)

  -- The log's first entry goes, and the budget stays.
  remove_first :
      (m : Master P) (k : ℕ) (u : Update P) (a : ℕ × Update P) (t : Table (Update P))
      (r : Replica D)
      → r.log ≡ (k, u) ∷ a ∷ t
      → u.update_id ≡ k
      → ((remove_update m u r).log ≡ a ∷ t)
        × ((remove_update m u r).max_payload_bytes ≡ r.max_payload_bytes)
  unfolding remove_update get remove
  remove_first m k u a t r e same = rw (e, remove_update) (ground (arith, same))

  -- Within the budget, or down to the last entry.
  abbrev pub IsTrimmed : Replica D → Type 0
  IsTrimmed r = (r.total_payload_bytes ≤ r.max_payload_bytes) ⊎ (length r.log ≤ 1)

  trim_senior-IsTrimmed :
      (m : Master P) (fuel : ℕ) (l : Table (Update P)) (r : Replica D)
      → r.log ≡ l
      → IsKeyed l
      → length l ≤ fuel
      → IsTrimmed (trim_senior m fuel r)
  unfolding trim_senior
  trim_senior-IsTrimmed m zero [] r e keyed h = inr (rw e (omega arith))
  trim_senior-IsTrimmed m (suc fuel) [] r e keyed h = rw (e, trim_senior) (inr (rw e (omega arith)))
  trim_senior-IsTrimmed m zero (b ∷ t) r e keyed h = absurd (omega arith)
  trim_senior-IsTrimmed m (suc fuel) (b ∷ []) r e keyed h =
      rw (e, trim_senior) (inr (rw e (omega arith)))
  trim_senior-IsTrimmed m (suc fuel) ((k, u) ∷ b ∷ t) r e keyed h =
      elim (Bool-cases (ltb r.max_payload_bytes r.total_payload_bytes)) [
        | inl over ↦
            rw (e, trim_senior)
              (if_true IsTrimmed (ltb r.max_payload_bytes r.total_payload_bytes) _ _ over (
                trim_senior-IsTrimmed m fuel (b ∷ t) (remove_update m u r)
                  (remove_first m k u b t r e keyed.0).0 keyed.1 (omega arith)))
        | inr fits ↦
            rw (e, trim_senior)
              (if_false IsTrimmed (ltb r.max_payload_bytes r.total_payload_bytes) _ _ fits
                (inl (ltb-false _ _ fits)))
      ]

  send_unsent-log :
      (m : Master P) (t : Table (Update P)) (r : Replica D) → (send_unsent m t r).log ≡ r.log
  unfolding send_unsent
  send_unsent-log m [] r = refl
  send_unsent-log m ((k, u) ∷ t) r = send_unsent-log m t _ ∙ ground arith

  rescan_entries-IsTrimmed :
      (m : Master P) (l : Table (Update P)) (r : Replica D)
      → r.log ≡ l
      → IsKeyed l
      → IsTrimmed (rescan_entries m l r)
  unfolding rescan_entries
  rescan_entries-IsTrimmed m [] r e keyed = inr (rw e (omega arith))
  rescan_entries-IsTrimmed m ((k, u) ∷ t) r e keyed =
      trim_senior-IsTrimmed m (length ((k, u) ∷ t)) ((k, u) ∷ t) _ (send_unsent-log m _ r ∙ e) keyed
        (omega arith)

  -- A scan by the senior peer leaves the log within its budget of payload bytes, or with one entry
  -- at most: where every entry stands under its own id.
  pub rescan-IsTrimmed :
      (m : Master P) (r : Replica D)
      → IsKeyed r.log
      → i_am_senior m ≡ true
      → IsTrimmed (rescan_update_log m r)
  unfolding rescan_update_log rescan_senior
  rescan-IsTrimmed m r keyed senior =
      if_true IsTrimmed (i_am_senior m) _ _ senior (rescan_entries-IsTrimmed m r.log r refl keyed)
