-- ===== src/Replica/Multicast.antt =====
-- The senior's half of `RescanUpdateLog`: which updates go out by multicast.
use zg_choir.Base.{
  ℕ, ◌+◌, ◌^◌, ◌≤◌, ◌<◌, ◌≡◌, refl, sym, ap, ◌∙◌, Bool, true, List, [], ◌∷◌, ◌++◌, add64, arith,
  inl, inr, Option-cases, Bool-cases, leb, ◌==◌, ◌&&◌, ◌||◌, length, keep, keep-true, keep-false,
  All, map, if_true, if_inv,
}
use mathlib.Core.List.{append_assoc, append-nil}
use zg_choir.Table.{Table, get}
use zg_choir.Table.Laws.{Above, IsOrdered, Above-IsOrdered, Above-mono}
use zg_choir.Platform.{Platform, DatabaseObject}
use zg_choir.Update.{Update}
use zg_choir.Replica.State.{Replica, Master, i_am_senior}
use zg_choir.Replica.Log.{remove_update}
use zg_choir.Replica.Rescan.{
  rewind, backwards, can_multicast, send_unsent, rescan_entries, rescan_senior, rescan_update_log,
}
use zg_choir.Replica.Trim.{trim_senior_inv}

module _ {P : Platform} where
  -- The entries that a scan finds unsent.
  abbrev unsent : ℕ → ℕ × Update P → Bool
  unsent first (k, u) = leb first k

  -- The unsent entries that the network takes.
  abbrev pub due : Master P → ℕ → ℕ × Update P → Bool
  due m first (k, u) = leb first k && can_multicast m u

  abbrev Descends : Table (Update P) → Type 0
  Descends [] = Unit {0}
  Descends ((k, u) ∷ t) = All (λ (e : ℕ × Update P). e.0 < k) t × Descends t

  backwards-backwards : (l p : Table (Update P)) → backwards (backwards l p) [] ≡ backwards p l
  unfolding backwards
  backwards-backwards [] p = refl
  backwards-backwards (e ∷ t) p = backwards-backwards t (e ∷ p)

  All-lt_of_le :
      (b c : ℕ) (p : Table (Update P))
      → b < c
      → All (λ (e : ℕ × Update P). e.0 ≤ b) p
      → All (λ (e : ℕ × Update P). e.0 < c) p × All (λ (e : ℕ × Update P). e.0 ≤ c) p
  All-lt_of_le b c [] h a = (tt, tt)
  All-lt_of_le b c (e ∷ p) h a = ground (arith, All-lt_of_le b c p h a.1)

  backwards-Descends :
      (b : ℕ) (l p : Table (Update P))
      → Above b l
      → All (λ (e : ℕ × Update P). e.0 ≤ b) p
      → Descends p
      → Descends (backwards l p)
  unfolding backwards
  backwards-Descends b [] p a q d = d
  backwards-Descends b ((j, w) ∷ t) p a q d =
      let below = All-lt_of_le b j p a.0 q in
      backwards-Descends j t ((j, w) ∷ p) a.1 ((omega arith), below.1) (below.0, d)

  backwards-All :
      (b : ℕ) (l p : Table (Update P))
      → Above b l
      → All (λ (e : ℕ × Update P). b ≤ e.0) p
      → All (λ (e : ℕ × Update P). b ≤ e.0) (backwards l p)
  unfolding backwards
  backwards-All b [] p a q = q
  backwards-All b ((j, w) ∷ t) p a q =
      backwards-All b t ((j, w) ∷ p) (Above-mono b j t (omega arith) a.1) (omega arith, q)

  keep-backwards :
      (first k : ℕ) (older p : Table (Update P))
      → k ≤ first
      → All (λ (e : ℕ × Update P). e.0 < k) older
      → keep (unsent first) (backwards older p) ≡ keep (unsent first) p
  unfolding backwards
  keep-backwards first k [] p h a = refl
  keep-backwards first k ((j, w) ∷ t) p h a =
      ground (arith, keep-backwards first k t ((j, w) ∷ p) h a.1)

  -- Turning round early skips only entries that were sent.
  rewind-keep :
      (first oldest : ℕ) (rev passed : Table (Update P))
      → Descends rev
      → All (λ (e : ℕ × Update P). oldest ≤ e.0) rev
      → keep (unsent first) (rewind first oldest rev passed)
        ≡ keep (unsent first) (backwards rev passed)
  unfolding rewind backwards
  rewind-keep first oldest [] passed d a = refl
  rewind-keep first oldest ((k, u) ∷ []) passed d a = ground arith
  rewind-keep first oldest ((k, u) ∷ e ∷ older) passed d a = ground (
    arith,
    rewind-keep first oldest (e ∷ older) ((k, u) ∷ passed) d.1 a.1,
    keep-backwards first k (e ∷ older) ((k, u) ∷ passed),
  )

  keep-due :
      (m : Master P) (first : ℕ) (s t : Table (Update P))
      → keep (unsent first) s ≡ keep (unsent first) t
      → keep (due m first) s ≡ keep (due m first) t
  keep-due m first s t e = sym (keep-keep s) ∙ ap (keep (due m first)) e ∙ keep-keep t
    where
      keep-keep :
          (l : Table (Update P)) → keep (due m first) (keep (unsent first) l) ≡ keep (due m first) l
      keep-keep [] = refl
      keep-keep ((k, u) ∷ l) = ground (arith, keep-keep l)

  -- The entries among which the senior looks for what to send, whatever the part that it passes.
  rewind-due :
      (m : Master P) (first oldest : ℕ) (u : Update P) (t : Table (Update P))
      → Above oldest t
      → keep (due m first) (rewind first oldest (backwards ((oldest, u) ∷ t) []) [])
        ≡ keep (due m first) ((oldest, u) ∷ t)
  unfolding backwards
  rewind-due m first oldest u t a = keep-due m first _ ((oldest, u) ∷ t) (
      rewind-keep first oldest (backwards t ((oldest, u) ∷ [])) []
        (backwards-Descends oldest t ((oldest, u) ∷ []) a (omega arith, tt) (tt, tt))
        (backwards-All oldest t ((oldest, u) ∷ []) a (omega arith, tt))
      ∙ ap (keep (unsent first)) (backwards-backwards t ((oldest, u) ∷ [])))

  -- Above a bound, every id from the one after it on will do as the first unsent one.
  due-Above :
      (m : Master P) (b first first' : ℕ) (t : Table (Update P))
      → Above b t
      → first ≤ b + 1
      → first' ≤ b + 1
      → keep (due m first) t ≡ keep (due m first') t
  due-Above m b first first' [] a h h' = refl
  due-Above m b first first' ((k, u) ∷ t) a h h' =
      ground (arith, due-Above m b first first' t (Above-mono b k t (omega arith) a.1) h h')

  -- Ascending, with ids that have a successor in 64 bits.
  abbrev pub IsSendable : Table (Update P) → Type 0
  IsSendable t = IsOrdered t × All (λ (e : ℕ × Update P). e.0 + 1 < 2 ^ 64) t

  Sendable-tail :
      (k : ℕ) (u : Update P) (t : Table (Update P)) → IsSendable ((k, u) ∷ t) → IsSendable t
  Sendable-tail k u t a = (Above-IsOrdered k t a.0, a.1.1)

  backwards-Sendable : (l p : Table (Update P)) → IsSendable (backwards l p) → IsSendable p
  unfolding backwards
  backwards-Sendable [] p a = a
  backwards-Sendable ((k, u) ∷ l) p a = Sendable-tail k u p (backwards-Sendable l ((k, u) ∷ p) a)

  rewind-Sendable :
      (first oldest : ℕ) (rev p : Table (Update P))
      → IsSendable (backwards rev p)
      → IsSendable (rewind first oldest rev p)
  unfolding rewind backwards
  rewind-Sendable first oldest [] p a = a
  rewind-Sendable first oldest ((k, u) ∷ rev) p a =
      if_inv IsSendable (leb k first || (k == oldest)) {x = (k, u) ∷ p}
        (backwards-Sendable rev ((k, u) ∷ p) a) (rewind-Sendable first oldest rev ((k, u) ∷ p) a)

  -- The id after the last entry, or a default.
  abbrev pub id_after : ℕ → Table (Update P) → ℕ
  id_after first [] = first
  id_after first ((k, u) ∷ t) = id_after (k + 1) t

  abbrev pub updates : Table (Update P) → List (Update P)
  updates = map (λ e. e.1)

module _ {P : Platform} {D : DatabaseObject P} where
  abbrev HasSent : ℕ → List (Update P) → Replica D → Type 0
  HasSent first sent r = (r.multicasts ≡ sent) × (r.first_unsent_id ≡ first)

  send_unsent-HasSent :
      (m : Master P) (t : Table (Update P)) (r : Replica D)
      → IsSendable t
      → HasSent
          (id_after r.first_unsent_id (keep (due m r.first_unsent_id) t))
          (r.multicasts ++ updates (keep (due m r.first_unsent_id) t))
          (send_unsent m t r)
  unfolding send_unsent
  send_unsent-HasSent m [] r a = (sym (append-nil r.multicasts), refl)
  send_unsent-HasSent m ((k, u) ∷ t) r a = elim (Bool-cases (due m r.first_unsent_id (k, u))) [
    | inl e ↦
        let r' : Replica D = record r {
          first_unsent_id = add64 k 1;
          multicasts = r.multicasts ++ (u ∷ []);
        } in
        let wrap : add64 k 1 ≡ k + 1 = omega arith in
        let le : r.first_unsent_id ≤ k = ground (arith, e) in
        let same = due-Above m k (add64 k 1) r.first_unsent_id t a.0 (omega arith) (omega arith) in
        let (sent, first) = send_unsent-HasSent m t r' (Sendable-tail k u t a) in
        rw (keep-true (due m r.first_unsent_id) (k, u) t e, e, send_unsent)
          (
            sent
                ∙ append_assoc r.multicasts (u ∷ []) (updates (keep (due m (add64 k 1)) t))
                ∙ ap (λ l. r.multicasts ++ (u ∷ updates l)) same,
            first
                ∙ ap (λ l. id_after (add64 k 1) l) same
                ∙ ap (λ n. id_after n (keep (due m r.first_unsent_id) t)) wrap,
          )
    | inr e ↦
        rw (keep-false (due m r.first_unsent_id) (k, u) t e, e, send_unsent)
          (send_unsent-HasSent m t r (Sendable-tail k u t a))
  ]

  remove-HasSent :
      (m : Master P) (first : ℕ) (sent : List (Update P)) (u : Update P) (r : Replica D)
      → HasSent first sent r
      → HasSent first sent (remove_update m u r)
  unfolding remove_update
  remove-HasSent m first sent u r h = ground (arith, h, Option-cases (get u.update_id r.log))

  rescan_senior-HasSent :
      (m : Master P) (oldest : ℕ) (u : Update P) (t : Table (Update P)) (r : Replica D)
      → IsSendable ((oldest, u) ∷ t)
      → HasSent
          (id_after r.first_unsent_id (keep (due m r.first_unsent_id) ((oldest, u) ∷ t)))
          (r.multicasts ++ updates (keep (due m r.first_unsent_id) ((oldest, u) ∷ t)))
          (send_unsent m (rewind r.first_unsent_id oldest (backwards ((oldest, u) ∷ t) []) []) r)
  unfolding backwards
  rescan_senior-HasSent m oldest u t r a = rw (← rewind-due m r.first_unsent_id oldest u t a.0) (
      send_unsent-HasSent m _ r (
        rewind-Sendable r.first_unsent_id oldest (backwards ((oldest, u) ∷ t) []) []
          (rw (backwards-backwards ((oldest, u) ∷ t) [], backwards) a)))

  rescan_entries-HasSent :
      (m : Master P) (l : Table (Update P)) (r : Replica D)
      → IsSendable l
      → HasSent
          (id_after r.first_unsent_id (keep (due m r.first_unsent_id) l))
          (r.multicasts ++ updates (keep (due m r.first_unsent_id) l))
          (rescan_entries m l r)
  unfolding rescan_entries
  rescan_entries-HasSent m [] r a = (sym (append-nil r.multicasts), refl)
  rescan_entries-HasSent m ((oldest, u) ∷ t) r a =
      let l : Table (Update P) = (oldest, u) ∷ t in
      let sent = keep (due m r.first_unsent_id) l in
      trim_senior_inv (HasSent (id_after r.first_unsent_id sent) (r.multicasts ++ updates sent)) m
        (remove-HasSent m (id_after r.first_unsent_id sent) (r.multicasts ++ updates sent))
        (length l) (send_unsent m (rewind r.first_unsent_id oldest (backwards l []) []) r)
        (rescan_senior-HasSent m oldest u t r a)

  -- A scan by the senior peer multicasts, in the order of their ids, exactly the entries from the
  -- first unsent id on that the network takes, and next time starts after the last of them, for a
  -- log in ascending order whose ids lie below 2 ^ 64 - 1.
  pub rescan_sends_unsent :
      (m : Master P) (r : Replica D)
      → IsSendable r.log
      → i_am_senior m ≡ true
      → ((rescan_update_log m r).multicasts
          ≡ r.multicasts ++ updates (keep (due m r.first_unsent_id) r.log))
        × ((rescan_update_log m r).first_unsent_id
            ≡ id_after r.first_unsent_id (keep (due m r.first_unsent_id) r.log))
  unfolding rescan_update_log rescan_senior
  rescan_sends_unsent m r sendable senior =
      let sent = keep (due m r.first_unsent_id) r.log in
      if_true (HasSent (id_after r.first_unsent_id sent) (r.multicasts ++ updates sent))
        (i_am_senior m) _ _ senior (rescan_entries-HasSent m r.log r sendable)
