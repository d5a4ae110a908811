-- ===== src/Choir/Assignments.antt =====
-- `NoteAssignmentsMap` (demos/choir/NoteAssignmentsMap.cpp): which peer plays which notes, with a
-- checksum that each change keeps up. The checksum of one entry rests on MUSCLE's, a parameter; what
-- is sent to the graphical interface is left out.
use zg_choir.Base.{
  ℕ, ◌+◌, ◌%◌, ◌^◌, Bool, true, false, Option, none, some, List, [], ◌∷◌, ◌==◌, if◌then◌else◌,
  add32, sub32,
}
use zg_choir.Peer.{PeerId, is_valid}
use zg_choir.Assoc.{peer_key, lookup, insert, erase}
use zg_choir.Choir.Notes.{
  Histogram, no_notes, update_histogram, has_note, without_note, toggle_note,
}

-- The fields of `NoteAssignmentsMap`.
pub record Assignments : Type 0 where
  pub notes : List (PeerId × ℕ)
  pub strategy : ℕ
  pub histogram : Histogram
  pub checksum : ℕ

-- The archive that `SaveToArchive` writes.
pub record Archive : Type 0 where
  pub entries : List (PeerId × ℕ)
  pub strategy : ℕ

-- `GetNoteAssignmentsForPeerID`.
abbrev pub or_no_notes : Option ℕ → ℕ
or_no_notes none = 0
or_no_notes (some c) = c

abbrev pub notes_of : PeerId → Assignments → ℕ
notes_of p a = or_no_notes (lookup p a.notes)

module _ (sum : PeerId → ℕ → ℕ) where
  -- `CalculateChecksum`.
  unfoldable pub total : List (PeerId × ℕ) → ℕ
  total [] = 0
  total ((p, c) ∷ l) = sum p c + total l

  unfoldable pub calculate_checksum : Assignments → ℕ
  calculate_checksum a = (a.strategy + total a.notes) % 2 ^ 32

  -- What a peer had leaves the histogram and the checksum.
  unfoldable pub forget_notes : PeerId → Option ℕ → Assignments → Assignments
  forget_notes p none a = a
  forget_notes p (some c) a = if c == 0 then a else record a {
    histogram = update_histogram c false a.histogram;
    checksum = sub32 a.checksum (sum p c);
  }

  -- What a peer without notes had leaves all three.
  unfoldable pub drop_notes : PeerId → Option ℕ → Assignments → Assignments
  drop_notes p none a = a
  drop_notes p (some c) a = record a {
    notes = erase p a.notes;
    histogram = update_histogram c false a.histogram;
    checksum = sub32 a.checksum (sum p c);
  }

  unfoldable pub put_notes : PeerId → ℕ → Assignments → Assignments
  put_notes p chord a = record a {
    notes = insert p chord a.notes;
    histogram = update_histogram chord true a.histogram;
    checksum = add32 a.checksum (sum p chord);
  }

  -- `SetNoteAssignmentsForPeerID`.
  unfoldable pub set_notes : PeerId → ℕ → Assignments → Assignments
  set_notes p chord a =
      if chord == 0
      then drop_notes p (lookup p a.notes) a
      else put_notes p chord (forget_notes p (lookup p a.notes) a)

  -- `UnassignNote`.
  unfoldable pub unassign_note : ℕ → List (PeerId × ℕ) → Assignments → Assignments
  unassign_note note [] a = a
  unassign_note note ((p, c) ∷ l) a =
      unassign_note note l (if has_note note c then set_notes p (without_note note c) a else a)

  -- `HandleToggleAssignmentMessage`.
  unfoldable pub toggle : PeerId → ℕ → Assignments → Assignments
  toggle p note a =
      if is_valid p
      then set_notes p (toggle_note note (notes_of p a)) a
      else (if a.histogram.chord == 0 then a else unassign_note note a.notes a)

  -- The loop of `SeniorUpdate` over the peers that are not online.
  unfoldable pub unassign_offline : (PeerId → Bool) → List (PeerId × ℕ) → Assignments → Assignments
  unassign_offline online [] a = a
  unassign_offline online ((p, c) ∷ l) a =
      unassign_offline online l (if online p then a else set_notes p 0 a)

-- `SetToDefaultStateAux`: the automatic strategy is 0.
abbrev pub default_assignments : Assignments
default_assignments = record { notes = []; strategy = 0; histogram = no_notes; checksum = 0 }

-- `SetAssignmentStrategy`.
unfoldable pub set_strategy : ℕ → Assignments → Assignments
set_strategy s a = record a { strategy = s; checksum = add32 (sub32 a.checksum a.strategy) s }

-- `SaveToArchive`.
abbrev pub save : Assignments → Archive
save a = record { entries = a.notes; strategy = a.strategy }

module _ (sum : PeerId → ℕ → ℕ) where
  -- `SetFromArchive`.
  unfoldable pub load_entries : List (PeerId × ℕ) → Assignments → Assignments
  load_entries [] a = a
  load_entries ((p, c) ∷ l) a = load_entries l (set_notes sum p c a)

  unfoldable pub load : Archive → Assignments
  load r = load_entries r.entries (set_strategy r.strategy default_assignments)
