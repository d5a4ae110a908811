-- ===== src/Choir/Tests.antt =====
-- Two players of the choir.
use zg_choir.Base.{ℕ, ◌+◌, ◌≡◌, refl, false, some, [], ◌∷◌, ltb, if◌then◌else◌, arith}
use zg_choir.Replica.Example.{first_peer, second_peer}
use zg_choir.Assoc.{lookup, insert, erase}
use zg_choir.Peer.{PeerId}
use zg_choir.Table.{get, put, remove, last_key}
use zg_choir.Choir.Notes.{no_notes, update_histogram, update_notes, add_note, drop_note}
use zg_choir.Choir.Sheet.{Sheet, put_chord, insert_chord_at, delete_chord_at, song_length}
use zg_choir.Choir.Shift.{moved, get-insert_chord_at}
use zg_choir.Choir.Closing.{get-delete_chord_at}
use zg_choir.Choir.Assignments.{
  Assignments, default_assignments, load, save, set_notes, put_notes, forget_notes, drop_notes,
  total, calculate_checksum,
}
use zg_choir.Choir.Running.{IsSummed}
use zg_choir.Choir.Review.{
  Command, review_assignments, run_senior, auto_update, forget_offline, share_out, assign_notes,
  assign_note, change, thin_notes, thin_note, balance, move_note, lightest, heaviest, lightest_from,
  heaviest_from, bits_below, last_note_below,
}
use zg_choir.Choir.Updated.{IsFollowed, run_senior-IsFollowed}
use zg_choir.Choir.Archive.{load-save}
use zg_choir.Choir.Playback.{Playback, no_limit}

abbrev simple_sum : PeerId → ℕ → ℕ
simple_sum p c = p.low + c

abbrev players : Assignments
players = record default_assignments {
  notes = (first_peer, 5) ∷ ((second_peer, 2) ∷ []);
  checksum = first_peer.low + 5 + (second_peer.low + 2);
}

players-IsSummed : IsSummed simple_sum players
unfolding lookup total calculate_checksum
players-IsSummed = record {
  table = (refl, (refl, tt));
  noted = ((λ e. omega (arith, e)), ((λ e. omega (arith, e)), tt));
  summed = refl;
}

-- The senior peer shares out the notes 0, 1 and 2 between two peers that are online.
abbrev review : Command
review = review_assignments (some 7) (first_peer ∷ second_peer ∷ [])

reviewed :
    (run_senior simple_sum (λ l. l) 4 review default_assignments).1.notes
    ≡ (first_peer, 5) ∷ ((second_peer, 2) ∷ [])
unfolding run_senior auto_update forget_offline share_out assign_notes assign_note change set_notes
    put_notes forget_notes drop_notes thin_notes thin_note balance move_note lightest heaviest
    lightest_from heaviest_from bits_below last_note_below update_histogram update_notes add_note
    drop_note lookup insert erase
reviewed = refl

run_senior-IsFollowed_example :
    let r = run_senior simple_sum (λ l. l) 4 review players in
    IsSummed simple_sum r.1 × IsFollowed simple_sum players r
run_senior-IsFollowed_example =
    run_senior-IsFollowed simple_sum (λ l. l) 4 review players players-IsSummed

load-save_example :
    ((load simple_sum (save players)).notes ≡ (first_peer, 5) ∷ ((second_peer, 2) ∷ []))
    × ((load simple_sum (save players)).strategy ≡ 0)
    × ((load simple_sum (save players)).checksum ≡ first_peer.low + 5 + (second_peer.low + 2))
load-save_example = load-save simple_sum players players-IsSummed

abbrev playing : Playback
playing = record { start = 1000; micros_per_chord = 100; paused_index = no_limit; loop = false }

-- Chords at the places 0, 2 and 3.
abbrev song : Sheet
song = record { chords = (0, 1) ∷ (2, 5) ∷ (3, 4) ∷ []; histogram = no_notes; checksum = 0 }

inserted : (insert_chord_at (λ c. c) 2 song).chords ≡ (0, 1) ∷ (3, 5) ∷ (4, 4) ∷ []
unfolding insert_chord_at put_chord get put remove
inserted = refl

deleted : (delete_chord_at (λ c. c) 2 song).chords ≡ (0, 1) ∷ (2, 4) ∷ []
unfolding delete_chord_at put_chord get put remove last_key
deleted = refl

length_of_song : song_length song ≡ 4
unfolding song_length last_key
length_of_song = refl

get-delete_chord_at_example :
    get 1 (delete_chord_at (λ c. c) 1 song).chords
    ≡ (if ltb 1 1 then get 1 song.chords else get (1 + 1) song.chords)
get-delete_chord_at_example = get-delete_chord_at (λ c. c) 1 song 1 (omega arith) (omega arith)

get-insert_chord_at_example : get 3 (insert_chord_at (λ c. c) 2 song).chords ≡ moved 2 3 song.chords
get-insert_chord_at_example = get-insert_chord_at (λ c. c) 2 song 3 (omega arith) (omega arith)
