-- ===== src/Choir/Updated.antt =====
-- That the junior peers follow the senior in the note assignments.
use zg_choir.Base.{
  ℕ, ◌≡◌, refl, sym, subst, Bool, true, false, Option, none, some, List, [], ◌∷◌, inl, inr,
  Bool-cases,
}
use zg_choir.Peer.{PeerId}
use zg_choir.Choir.Assignments.{Assignments, unassign_offline, save}
use zg_choir.Choir.Running.{
  IsSummed, set_strategy-IsSummed, toggle-IsSummed, unassign_offline-IsSummed, load-IsSummed,
}
use zg_choir.Choir.Archive.{load-save}
use zg_choir.Choir.Review.{
  Command, toggle_assignment, set_strategy_to, unassign_orphans, review_assignments, no_operation,
  replace_assignments, auto_update, any_orphans, full_state_if, run_senior, run_junior,
}
use zg_choir.Choir.Reviewed.{IsTracked, auto_update-IsTracked}

module _ (sum : PeerId → ℕ → ℕ) where
  -- A junior has the same notes, in order, the same strategy and the same checksum as the senior,
  -- and the checksum is the one that is calculated from them.
  pub record Agrees (junior senior : Assignments) : Type 0 where
    pub is_summed : IsSummed sum junior
    pub same_notes : junior.notes ≡ senior.notes
    pub same_strategy : junior.strategy ≡ senior.strategy
    pub same_checksum : junior.checksum ≡ senior.checksum

  -- What came of an update of the senior's, whose assignments were the first ones: where it failed,
  -- nothing; otherwise a junior with the same assignments does what it is sent, and agrees.
  abbrev pub IsFollowed : Assignments → Option Command × Assignments → Type 0
  IsFollowed a (none, a') = a' ≡ a
  IsFollowed a (some c, a') = ((run_junior sum c a).0 ≡ true) × Agrees (run_junior sum c a).1 a'

  Agrees-refl : (a : Assignments) → IsSummed sum a → Agrees a a
  Agrees-refl a v = record {
    is_summed = v;
    same_notes = refl;
    same_strategy = refl;
    same_checksum = refl;
  }

  -- The full state where something has changed, and nothing to do where nothing has.
  full_state-IsFollowed :
      (a : Assignments) (changed : Bool) (a' : Assignments)
      → IsTracked sum a (a', changed)
      → IsFollowed a (full_state_if changed a')
  unfolding run_junior
  full_state-IsFollowed a true a' (v, same) =
      let back = load-save sum a' v in
      (
        refl,
        record {
          is_summed = load-IsSummed sum (save a');
          same_notes = back.0;
          same_strategy = back.1;
          same_checksum = back.2;
        },
      )
  full_state-IsFollowed a false a' (v, same) = (
    refl,
    subst (Agrees a) (sym (same refl)) (Agrees-refl a (subst (IsSummed sum) (same refl) v)),
  )

  unassign_offline-same :
      (online : PeerId → Bool) (l : List (PeerId × ℕ)) (a : Assignments)
      → any_orphans online l ≡ false
      → unassign_offline sum online l a ≡ a
  unfolding any_orphans unassign_offline
  unassign_offline-same online [] a h = refl
  unassign_offline-same online ((p, c) ∷ l) a h = elim (Bool-cases (online p)) [
    | inl e ↦ rw e (unassign_offline-same online l a (rw e at h))
    | inr e ↦ absurd (cc (rw e at h))
  ]

  -- Whatever the senior peer does in an update of the note assignments, a review included, its
  -- running checksum stays the one that is calculated from all entries, each peer is there once,
  -- and none without notes. Where the update fails, nothing has changed. Where it does not, a
  -- junior with the same assignments succeeds at what it is sent, has the senior's notes, in
  -- order, strategy and checksum, and the same is true of its assignments. This holds after any
  -- number of rounds of the loop that balances the peers.
  pub run_senior-IsFollowed :
      (visited : List (PeerId × ℕ) → List (PeerId × ℕ)) (rounds : ℕ) (c : Command) (a : Assignments)
      → IsSummed sum a
      → let r = run_senior sum visited rounds c a in IsSummed sum r.1 × IsFollowed a r
  unfolding run_senior run_junior
  run_senior-IsFollowed visited rounds (toggle_assignment p note) a v =
      let w = toggle-IsSummed sum p note a v in (w, (refl, Agrees-refl _ w))
  run_senior-IsFollowed visited rounds (set_strategy_to k) a v =
      let w = set_strategy-IsSummed sum k a v in (w, (refl, Agrees-refl _ w))
  run_senior-IsFollowed visited rounds (unassign_orphans online) a v =
      let w = unassign_offline-IsSummed sum online a.notes a v in
      (
        w,
        full_state-IsFollowed a (any_orphans online a.notes) (unassign_offline sum online a.notes a)
            (w, unassign_offline-same online a.notes a),
      )
  run_senior-IsFollowed visited rounds (review_assignments none online) a v = (v, refl)
  run_senior-IsFollowed visited rounds (review_assignments (some used) online) a v =
      let r = auto_update sum visited rounds used online a in
      let t = auto_update-IsTracked sum a visited rounds used online v in
      (t.0, full_state-IsFollowed a r.1 r.0 t)
  run_senior-IsFollowed visited rounds no_operation a v = (v, (refl, Agrees-refl a v))
  run_senior-IsFollowed visited rounds (replace_assignments r) a v = (v, refl)
