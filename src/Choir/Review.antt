-- ===== src/Choir/Review.antt =====
-- What the senior peer and the junior peers do with an update of the note assignments, and the review
-- that shares out the notes: `SeniorUpdate`, `SeniorAutoUpdateAssignments` and `JuniorUpdate` of
-- demos/choir/NoteAssignmentsMap.cpp.
--
-- The review is a chain of calls of `SetNoteAssignmentsForPeerID`, each of which also sets the flag
-- that something has changed. Its loops walk over the table of assignments, and over the histogram,
-- while they change it. They change the entry that they are at, and put notes that one peer plays to
-- the end of the histogram, which the loop over it skips: so here they walk over the table as it was.
-- Messages of another type, or without the fields that theirs has, are left out: they fail at once.
use zg_choir.Base.{
  ℕ, zero, suc, ◌+◌, ◌-◌, ◌^◌, Bool, true, false, not, ◌&&◌, ◌||◌, Option, none, some, List, [],
  ◌∷◌, ◌==◌, ltb, if◌then◌else◌,
}
use zg_choir.Peer.{PeerId, peer_eq}
use zg_choir.Choir.Notes.{has_note, with_note, without_note, count_of}
use zg_choir.Choir.Assignments.{
  Assignments, Archive, notes_of, set_notes, toggle, unassign_offline, set_strategy, save, load,
}

-- The updates: the first five come to the senior peer, and all but the third and the fourth, with
-- `MUSIC_TYPE_ASSIGNMENTS_MAP`, to the juniors. A review is told which notes the music sheet uses,
-- if there is one, and which peers are online.
pub data Command : Type 0 where
  toggle_assignment : PeerId → ℕ → Command
  set_strategy_to : ℕ → Command
  unassign_orphans : (PeerId → Bool) → Command
  review_assignments : Option ℕ → List PeerId → Command
  no_operation : Command
  replace_assignments : Archive → Command

-- `NUM_CHOIR_NOTES`.
abbrev pub num_choir_notes : ℕ
num_choir_notes = 21

-- `CountBits` and `GetLastNoteInChord`, on the notes below a number.
unfoldable pub bits_below : ℕ → ℕ → ℕ
bits_below zero chord = 0
bits_below (suc n) chord = bits_below n chord + (if has_note n chord then 1 else 0)

abbrev pub count_bits : ℕ → ℕ
count_bits chord = bits_below num_choir_notes chord

unfoldable pub last_note_below : ℕ → ℕ → ℕ
last_note_below zero chord = 0
last_note_below (suc n) chord =
    let lower = last_note_below n chord in if has_note n chord then n else lower

abbrev pub last_note : ℕ → ℕ
last_note chord = last_note_below num_choir_notes chord

-- `ContainsKey` of the table of online peers.
unfoldable pub is_online : PeerId → List PeerId → Bool
is_online p [] = false
is_online p (q ∷ l) = peer_eq p q || is_online p l

-- `GetLightestPeer` and `GetHeaviestPeer`, with the count.
unfoldable pub lightest_from : PeerId → ℕ → List PeerId → Assignments → PeerId × ℕ
lightest_from best count [] a = (best, count)
lightest_from best count (p ∷ l) a =
    let n = count_bits (notes_of p a) in
    lightest_from (if ltb n count then p else best) (if ltb n count then n else count) l a

unfoldable pub heaviest_from : PeerId → ℕ → List PeerId → Assignments → PeerId × ℕ
heaviest_from best count [] a = (best, count)
heaviest_from best count (p ∷ l) a =
    let n = count_bits (notes_of p a) in
    heaviest_from (if ltb count n then p else best) (if ltb count n then n else count) l a

-- The peers that are online, of which there is one at least: the first, and the others.
abbrev pub Online : Type 0
Online = PeerId × List PeerId

unfoldable pub lightest : Online → Assignments → PeerId × ℕ
unfolding lightest_from
lightest (p, l) a = lightest_from p (2 ^ 32 - 1) (p ∷ l) a

unfoldable pub heaviest : Online → Assignments → PeerId × ℕ
unfolding heaviest_from
heaviest (p, l) a = heaviest_from p 0 (p ∷ l) a

-- Whether a peer with notes is not online.
unfoldable pub any_orphans : (PeerId → Bool) → List (PeerId × ℕ) → Bool
any_orphans online [] = false
any_orphans online ((p, c) ∷ l) = not (online p) || any_orphans online l

-- What the juniors are sent: the whole state where something has changed.
abbrev pub full_state_if : Bool → Assignments → Option Command × Assignments
full_state_if changed a = (some (if changed then replace_assignments (save a) else no_operation), a)

module _ (sum : PeerId → ℕ → ℕ) where
  -- One call of `SetNoteAssignmentsForPeerID`, and `retChangedAnything = true`.
  unfoldable pub change : PeerId → ℕ → Assignments × Bool → Assignments × Bool
  change p chord (a, changed) = (set_notes sum p chord a, true)

  -- The peers that are not online lose their notes.
  unfoldable pub forget_offline :
      List PeerId → List (PeerId × ℕ) → Assignments × Bool → Assignments × Bool
  unfolding change
  forget_offline online [] s = s
  forget_offline online ((p, c) ∷ l) s =
      forget_offline online l (if is_online p online then s else change p 0 s)

  -- Each note that is used, and that no one plays, goes to the peer with the fewest notes.
  unfoldable pub assign_note : ℕ → ℕ → Online → Assignments × Bool → Assignments × Bool
  unfolding change
  assign_note note used online s =
      let light = (lightest online s.0).0 in
      if has_note note used && not (has_note note s.0.histogram.chord)
      then change light (with_note note (notes_of light s.0)) s
      else s

  unfoldable pub assign_notes : ℕ → ℕ → Online → Assignments × Bool → Assignments × Bool
  unfolding assign_note
  assign_notes zero used online s = s
  assign_notes (suc rounds) used online s =
      assign_notes rounds used online (assign_note (num_choir_notes - suc rounds) used online s)

  -- All but the first of the peers that play a note lose it.
  unfoldable pub thin_note : ℕ → Bool → List (PeerId × ℕ) → Assignments × Bool → Assignments × Bool
  unfolding change
  thin_note note found [] s = s
  thin_note note found ((p, c) ∷ l) s =
      thin_note note (found || has_note note c) l
        (if found && has_note note c then change p (without_note note (notes_of p s.0)) s else s)

  -- The loop over the histogram, for the notes that more than one peer plays.
  unfoldable pub thin_notes : List (ℕ × ℕ) → Assignments × Bool → Assignments × Bool
  unfolding thin_note
  thin_notes [] s = s
  thin_notes ((note, n) ∷ l) s =
      thin_notes l
        (if ltb 1 (count_of note s.0.histogram) then thin_note note false s.0.notes s else s)

  -- The last note of the peer with the most notes goes to the one with the fewest.
  unfoldable pub move_note : PeerId → PeerId → Assignments × Bool → Assignments × Bool
  unfolding change
  move_note heavy light s =
      let note = last_note (notes_of heavy s.0) in
      let s' = change heavy (without_note note (notes_of heavy s.0)) s in
      change light (with_note note (notes_of light s'.0)) s'

  -- Whether their counts are more than one apart.
  abbrev pub is_uneven : Online → Assignments → Bool
  is_uneven online a =
      let heavy = (heaviest online a).1 in
      let light = (lightest online a).1 in ltb 1 (heavy - light + (light - heavy))

  -- `while(true)`, for a number of rounds.
  unfoldable pub balance : ℕ → Online → Assignments × Bool → Assignments × Bool
  unfolding move_note
  balance zero online s = s
  balance (suc rounds) online s = elim (is_uneven online s.0) [
    | true ↦ balance rounds online (move_note (heaviest online s.0).0 (lightest online s.0).0 s)
    | false ↦ s
  ]

  unfoldable pub share_out : ℕ → ℕ → ℕ → List PeerId → Assignments × Bool → Assignments × Bool
  unfolding assign_notes thin_notes balance
  share_out rounds strategy used [] s = s
  share_out rounds strategy used (p ∷ l) s =
      let assigned = assign_notes num_choir_notes used (p, l) s in
      let thinned = thin_notes assigned.0.histogram.counts assigned in
      let balanced = balance rounds (p, l) thinned in
      if strategy == 1 then assigned else elim l [ [] ↦ thinned | q ∷ m ↦ balanced ]

  -- `SeniorAutoUpdateAssignments`: the strategies are 0, automatic, 1, assisted, and 2, manual. The
  -- loop that forgets peers begins at the first assignment and steps with `iter--`: which of them
  -- it visits is up to MUSCLE's iterator.
  unfoldable pub auto_update :
      (List (PeerId × ℕ) → List (PeerId × ℕ))
      → ℕ
      → ℕ
      → List PeerId
      → Assignments
      → Assignments × Bool
  unfolding forget_offline share_out
  auto_update visited rounds used online a =
      let kept = forget_offline online (visited a.notes) (a, false) in
      let shared = share_out rounds a.strategy used online kept in
      if a.strategy == 2 then (a, false) else shared

  -- `SeniorUpdate`: what the juniors are to do, unless it fails.
  unfoldable pub run_senior :
      (List (PeerId × ℕ) → List (PeerId × ℕ))
      → ℕ
      → Command
      → Assignments
      → Option Command × Assignments
  unfolding auto_update any_orphans
  run_senior visited rounds (toggle_assignment p note) a =
      (some (toggle_assignment p note), toggle sum p note a)
  run_senior visited rounds (set_strategy_to k) a = (some (set_strategy_to k), set_strategy k a)
  run_senior visited rounds (unassign_orphans online) a =
      full_state_if (any_orphans online a.notes) (unassign_offline sum online a.notes a)
  run_senior visited rounds (review_assignments none online) a = (none, a)
  run_senior visited rounds (review_assignments (some used) online) a =
      let (a', changed) = auto_update visited rounds used online a in full_state_if changed a'
  run_senior visited rounds no_operation a = (some no_operation, a)
  run_senior visited rounds (replace_assignments r) a = (none, a)

  -- `JuniorUpdate`, and whether it succeeds.
  unfoldable pub run_junior : Command → Assignments → Bool × Assignments
  run_junior (toggle_assignment p note) a = (true, toggle sum p note a)
  run_junior (set_strategy_to k) a = (true, set_strategy k a)
  run_junior (unassign_orphans online) a = (false, a)
  run_junior (review_assignments used online) a = (false, a)
  run_junior no_operation a = (true, a)
  run_junior (replace_assignments r) a = (true, load sum r)
