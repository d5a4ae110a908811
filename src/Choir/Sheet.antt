-- ===== src/Choir/Sheet.antt =====
-- `MusicSheet` (demos/choir/MusicSheet.cpp): the chords of a song by their places, with the histogram
-- of their notes and a running checksum. The checksum of a chord rests on MUSCLE's, a parameter; the
-- path of the song's file and what is sent to the graphical interface are left out.
use zg_choir.Base.{
  ℕ, ◌+◌, ◌-◌, ◌*◌, ◌%◌, ◌^◌, true, false, Option, none, some, [], ◌∷◌, ◌==◌, ltb, if◌then◌else◌,
  add32, sub32,
}
use zg_choir.Table.{Table, get, put, remove, last_key}
use zg_choir.Choir.Notes.{Histogram, update_histogram}

-- The fields of `MusicSheet`.
pub record Sheet : Type 0 where
  pub chords : Table ℕ
  pub histogram : Histogram
  pub checksum : ℕ

module _ (chord_sum : ℕ → ℕ) where
  -- `CalculateChecksumForChord`.
  unfoldable pub chord_checksum : ℕ → ℕ → ℕ
  chord_checksum place chord = ((place + 1) * chord_sum chord) % 2 ^ 32

  -- What was at a place leaves the histogram and the checksum.
  unfoldable pub forget_chord : ℕ → Option ℕ → Sheet → Sheet
  unfolding chord_checksum
  forget_chord place none s = s
  forget_chord place (some c) s = record s {
    histogram = update_histogram c false s.histogram;
    checksum = sub32 s.checksum (chord_checksum place c);
  }

  -- `PutChord`: an empty chord is not kept.
  unfoldable pub put_chord : ℕ → ℕ → Sheet → Sheet
  unfolding forget_chord
  put_chord place chord s =
      let forgotten = forget_chord place (get place s.chords) s in
      if chord == 0 then record forgotten { chords = remove place s.chords } else record {
        chords = put place chord s.chords;
        histogram = update_histogram chord true forgotten.histogram;
        checksum = add32 forgotten.checksum (chord_checksum place chord);
      }

  -- The loop of `InsertChordAt`, from the last chord back to the place: those behind a chord have
  -- been moved when it is.
  unfoldable pub move_forward : ℕ → Table ℕ → Sheet → Sheet
  unfolding put_chord
  move_forward place [] s = s
  move_forward place ((k, c) ∷ t) s =
      let s' = move_forward place t s in
      if ltb k place then s' else put_chord ((k + 1) % 2 ^ 32) c (put_chord k 0 s')

  -- `InsertChordAt`.
  unfoldable pub insert_chord_at : ℕ → Sheet → Sheet
  unfolding move_forward
  insert_chord_at place s = move_forward place s.chords s

  -- `MoveChordsBackOneStartingAt`, over the chords from the place on.
  unfoldable pub move_back : ℕ → Table ℕ → Sheet → Sheet
  unfolding put_chord
  move_back place [] s = s
  move_back place ((k, c) ∷ t) s =
      move_back place t (if ltb k place then s else put_chord (k - 1) c (put_chord k 0 s))

  -- `DeleteChordAt`.
  unfoldable pub delete_chord_at : ℕ → Sheet → Sheet
  unfolding move_back
  delete_chord_at place s =
      let s' = put_chord place 0 s in
      if ltb (last_key 0 s'.chords) place then s' else move_back place s'.chords s'

-- `GetSongLengthInChords`, without looping.
unfoldable pub song_length : Sheet → ℕ
song_length s = (last_key 0 s.chords + 1) % 2 ^ 32
