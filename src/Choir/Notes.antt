-- ===== src/Choir/Notes.antt =====
-- Chords of notes in the bits of a number, and how many chords a note is in (`UpdateNoteHistogram` of
-- demos/choir/MusicData.cpp).
use zg_choir.Base.{
  ℕ, zero, suc, ◌+◌, ◌-◌, ◌/◌, ◌%◌, ◌^◌, Bool, Option, none, some, List, [], ◌==◌, if◌then◌else◌,
  add32, sub32,
}
use zg_choir.Assoc.{number_key, lookup, insert, erase}

-- Whether a note is in a chord, and a chord with, without and with the other of a note.
abbrev pub has_note : ℕ → ℕ → Bool
has_note note chord = (chord / 2 ^ note) % 2 == 1

abbrev pub with_note : ℕ → ℕ → ℕ
with_note note chord = if has_note note chord then chord else chord + 2 ^ note

abbrev pub without_note : ℕ → ℕ → ℕ
without_note note chord = if has_note note chord then chord - 2 ^ note else chord

abbrev pub toggle_note : ℕ → ℕ → ℕ
toggle_note note chord = if has_note note chord then chord - 2 ^ note else chord + 2 ^ note

-- The counts of the notes, and the chord of those that are counted.
pub record Histogram : Type 0 where
  pub counts : List (ℕ × ℕ)
  pub chord : ℕ

abbrev pub no_notes : Histogram
no_notes = record { counts = []; chord = 0 }

abbrev pub count_of : ℕ → Histogram → ℕ
count_of note h = elim (lookup note h.counts) [ none ↦ 0 | some n ↦ n ]

unfoldable pub add_note : ℕ → Histogram → Histogram
add_note note h =
    let n = add32 (count_of note h) 1 in
    record {
      counts = insert note n h.counts;
      chord = if n == 1 then with_note note h.chord else h.chord;
    }

unfoldable pub drop_note : ℕ → Option ℕ → Histogram → Histogram
drop_note note none h = h
drop_note note (some n) h =
    if sub32 n 1 == 0
    then record { counts = erase note h.counts; chord = without_note note h.chord }
    else record h { counts = insert note (sub32 n 1) h.counts }

-- `UpdateNoteHistogram`, on the notes from a number of notes below 64 on.
unfoldable pub update_notes : ℕ → ℕ → Bool → Histogram → Histogram
update_notes zero chord is_add h = h
update_notes (suc rounds) chord is_add h =
    let note = 64 - suc rounds in
    let changed = if is_add then add_note note h else drop_note note (lookup note h.counts) h in
    update_notes rounds chord is_add (if has_note note chord then changed else h)

unfoldable pub update_histogram : ℕ → Bool → Histogram → Histogram
update_histogram chord is_add h = update_notes 64 chord is_add h
