-- ===== src/Replica/Converge.antt =====
-- Replication as a whole: what a senior peer's requests put into its log takes a junior peer that
-- holds the same entries to the senior's state, by `RescanUpdateLog`.
use zg_choir.Base.{
  ℕ, zero, suc, ◌+◌, ◌-◌, ◌^◌, ◌≤◌, ◌<◌, ◌≡◌, ◌≢◌, refl, sym, ap, ◌∙◌, true, false, Option, some,
  add64, arith, Option-cases, ltb, ◌==◌, ◌&&◌, length, if_true, if_false,
}
use zg_choir.Table.{get}
use zg_choir.Peer.{PeerId}
use zg_choir.Platform.{Platform, DatabaseObject, IsLawful, ok}
use zg_choir.Update.{Update}
use zg_choir.Replica.State.{Replica, Master, Timing, Request, i_am_senior}
use zg_choir.Replica.Log.{remove_update}
use zg_choir.Replica.Senior.{handle_database_update_request}
use zg_choir.Replica.Junior.{awaiting_full_resend, target_id}
use zg_choir.Replica.Rescan.{advance, rescan_junior, rescan_update_log}
use zg_choir.Replica.Trim.{trim_junior_inv}
use zg_choir.Replica.Follow.{Follows, Leads, IsChecked}
use zg_choir.Replica.Follow.Produced.{IsForSenior, Served, request-Served}
use zg_choir.Replica.Follow.Executed.{catch_up-Leads}

-- A senior peer that serves a number of requests, one after the other.
pub data Serves {P : Platform} {D : DatabaseObject P} (m : Master P) (a : Replica D)
    : ℕ → Replica D → Type 0 where
  start : Serves m a zero a
  next :
      {n : ℕ} {b c : Replica D} (t : Timing) (from : PeerId) (q : Request P)
      → Serves m a n b
      → IsForSenior q
      → handle_database_update_request m t from q b ≡ (ok, c)
      → Serves m a (suc n) c

module _ {P : Platform} (D : DatabaseObject P) where
  Leads-agree :
      (find find' : ℕ → Option (Update P)) (n uid uid' : ℕ) (s t : D.State)
      → uid + n ≡ uid'
      → uid' < 2 ^ 64
      → ((k : ℕ) → uid < k → k ≤ uid' → find' k ≡ find k)
      → Leads D find n uid s uid' t
      → Leads D find' n uid s uid' t
  Leads-agree find find' zero uid uid' s t e small same leads = leads
  Leads-agree find find' (suc n) uid uid' s t e small same (u, mid, found, f, rest) = (
    u,
    mid,
    same (add64 uid 1) (omega arith) (omega arith) ∙ found,
    f,
    Leads-agree find find' n (add64 uid 1) uid' mid t (omega arith) small
        (λ k above below. same k (omega arith) below) rest,
  )

module _ {P : Platform} {D : DatabaseObject P} where
  Leads-snoc :
      (find find' : ℕ → Option (Update P)) (n uid uid' : ℕ) (s t t' : D.State) (u : Update P)
      → uid + n ≡ uid'
      → uid' + 1 < 2 ^ 64
      → ((k : ℕ) → k ≢ add64 uid' 1 → find' k ≡ find k)
      → Leads D find n uid s uid' t
      → find' (add64 uid' 1) ≡ some u
      → Follows D u uid' t t'
      → Leads D find' (suc n) uid s (add64 uid' 1) t'
  Leads-snoc find find' zero uid uid' s t t' u e small same (there, is) held f =
      (u, t', rw there at held, rw (← is) (rw (← there) f), (ap (λ k. add64 k 1) there, refl))
  Leads-snoc find find' (suc n) uid uid' s t t' u e small same (v, mid, found, g, rest) held f = (
    v,
    mid,
    same (add64 uid 1) (omega arith) ∙ found,
    g,
    Leads-snoc find find' n (add64 uid 1) uid' mid t t' u (omega arith) small same rest held f,
  )

  -- The updates of a run of requests lead from the first state to the last.
  pub Serves-Leads :
      (m : Master P) (a b : Replica D) (n : ℕ)
      → IsLawful D
      → IsChecked a
      → a.local_id + n < 2 ^ 64
      → Serves m a n b
      → Leads D (λ k. get k b.log) n a.local_id a.db b.local_id b.db
        × (b.local_id ≡ a.local_id + n)
        × IsChecked b
  Serves-Leads m a b n law chk small start = ((refl, refl), omega arith, chk)
  Serves-Leads m a b (suc n) law chk small (next {b = b'} t from q run for_senior e) =
      let (leads, count, chk') = Serves-Leads m a b' n law chk (omega arith) run in
      let s : Served b' b = request-Served m t from q b' b law chk' for_senior e in
      (
        rw s.id_is (
            Leads-snoc (λ k. get k b'.log) (λ k. get k b.log) n a.local_id b'.local_id a.db b'.db
              b.db s.entry (omega arith) (omega arith) s.others leads s.held s.follows),
        omega (arith, s.id_is),
        s.checked,
      )

  -- What a run of updates ends with, kept by the trimming that follows.
  abbrev pub IsAt : ℕ → D.State → Replica D → Type 0
  IsAt uid t r = (r.db ≡ t) × (r.local_id ≡ uid) × (r.checksum ≡ D.get_current_checksum t)

  remove-IsAt :
      (m : Master P) (uid : ℕ) (t : D.State) (u : Update P) (r : Replica D)
      → IsAt uid t r
      → IsAt uid t (remove_update m u r)
  unfolding remove_update
  remove-IsAt m uid t u r h = ground (arith, h, Option-cases (get u.update_id r.log))

  advance-IsAt :
      (m : Master P) (n target : ℕ) (r : Replica D) (t : D.State)
      → IsChecked r
      → target < 2 ^ 64
      → r.local_id + n ≡ target
      → target_id r ≡ target
      → awaiting_full_resend m r ≡ false
      → (r.local_id == 0) && ltb 1 (target_id r) ≡ false
      → Leads D (λ k. get k r.log) n r.local_id r.db target t
      → IsAt target t (advance m r)
  unfolding advance
  advance-IsAt m n target r t c small count goal free started leads =
      let rounds : target - r.local_id ≡ n = omega arith in
      let (time, done) = catch_up-Leads m n target r t c small count leads in
      rw (free, started) (rw goal (rw rounds (rw done (refl, refl, refl))))

  -- A junior whose log leads to its target state reaches that state in one scan.
  pub rescan-Leads :
      (m : Master P) (n target : ℕ) (r : Replica D) (t : D.State)
      → i_am_senior m ≡ false
      → r.senior_received ≡ true
      → awaiting_full_resend m r ≡ false
      → (r.local_id == 0) && ltb 1 (target_id r) ≡ false
      → IsChecked r
      → target < 2 ^ 64
      → r.local_id + n ≡ target
      → target_id r ≡ target
      → Leads D (λ k. get k r.log) n r.local_id r.db target t
      → IsAt target t (rescan_update_log m r)
  unfolding rescan_update_log rescan_junior awaiting_full_resend
  rescan-Leads m n target r t junior received free started c small count goal leads =
      if_false (IsAt target t) (i_am_senior m) _ _ junior (
        if_true (IsAt target t) r.senior_received _ _ received (
          trim_junior_inv (IsAt target t) m (remove-IsAt m target t)
            (length (advance m (record r { first_unsent_id = add64 r.local_id 1 })).log)
            (advance m (record r { first_unsent_id = add64 r.local_id 1 }))
            (advance-IsAt m n target (record r { first_unsent_id = add64 r.local_id 1 }) t c small
              count goal free started leads)))

  -- Replication. A senior peer with a lawful database object and a current checksum has served n
  -- requests, all below state 2 ^ 64. A junior peer with a current checksum, which has heard a
  -- beacon, was in the senior's first state, has the log entries since then, and knows of no later
  -- state, has the senior's last database, state id and checksum after one scan: where it does not
  -- wait for a whole database, and does not start from state 0 with more than one update to run.
  pub rescan-converges :
      (ms mj : Master P) (n : ℕ) (a b : Replica D) (j : Replica D)
      → IsLawful D
      → IsChecked a
      → a.local_id + n < 2 ^ 64
      → Serves ms a n b
      → i_am_senior mj ≡ false
      → j.senior_received ≡ true
      → awaiting_full_resend mj j ≡ false
      → (j.local_id == 0) && ltb 1 (target_id j) ≡ false
      → IsChecked j
      → j.local_id ≡ a.local_id
      → j.db ≡ a.db
      → ((k : ℕ) → a.local_id < k → k ≤ b.local_id → get k j.log ≡ get k b.log)
      → target_id j ≡ b.local_id
      → ((rescan_update_log mj j).db ≡ b.db)
        × ((rescan_update_log mj j).local_id ≡ b.local_id)
        × ((rescan_update_log mj j).checksum ≡ b.checksum)
  rescan-converges ms mj n a b j law chk small run junior received free started c same_id same_db
        same_log goal =
      let (leads, count, chk') = Serves-Leads ms a b n law chk small run in
      let here =
        rescan-Leads mj n b.local_id j b.db junior received free started c (omega arith)
          (omega arith) goal
          (rw (same_id, same_db)
            (Leads-agree D (λ k. get k b.log) (λ k. get k j.log) n a.local_id b.local_id a.db b.db
              (omega arith) (omega arith) same_log leads)) in
      (here.0, here.1, here.2 ∙ sym chk')
