-- ===== src/Choir/Playback.antt =====
-- `PlaybackState` (demos/choir/PlaybackState.cpp): where the choir is in its song. The product that
-- the code takes in floating point when the tempo changes is a parameter.
use zg_choir.Base.{
  ℕ, ◌-◌, ◌*◌, ◌/◌, ◌%◌, ◌^◌, ◌<◌, ◌≡◌, refl, Bool, false, not, ◌&&◌, Option, none, some, ◌==◌,
  ==_iff, if◌then◌else◌, ltb, add64, sub64, max_u64, arith, lt→ltb,
}

pub record Playback : Type 0 where
  pub start : ℕ
  pub micros_per_chord : ℕ
  pub paused_index : ℕ
  pub loop : Bool

-- `MUSCLE_NO_LIMIT`, the index of one that plays, and `MUSCLE_TIME_NEVER`.
abbrev pub no_limit : ℕ
no_limit = 2 ^ 32 - 1

abbrev pub is_paused : Playback → Bool
is_paused s = not (s.paused_index == no_limit)

-- A time in a song, in chords of a length.
abbrev pub chords_long : ℕ → ℕ → ℕ
chords_long n micros = (n * micros) % 2 ^ 64

-- `StartPlayback`, `PausePlayback` and `SeekTo`.
unfoldable pub start_playback : ℕ → Playback → Playback
start_playback now s =
    if is_paused s
    then record s {
      start = sub64 now (chords_long s.paused_index s.micros_per_chord);
      paused_index = no_limit;
    }
    else s

unfoldable pub pause_playback : ℕ → Playback → Playback
pause_playback now s =
    let index =
      if ltb 0 s.micros_per_chord && ltb s.start now
      then ((now - s.start) / s.micros_per_chord) % 2 ^ 32
      else 0 in
    if is_paused s then s else record s { paused_index = index; start = max_u64 }

unfoldable pub seek_to : ℕ → ℕ → Playback → Playback
seek_to now chord s =
    if is_paused s
    then record s { paused_index = chord }
    else record s { start = sub64 now (chords_long chord s.micros_per_chord) }

-- `GetPlaybackPositionForNetworkTimeMicroseconds` and `GetNetworkTimeToPlayChord`.
unfoldable pub position_at : ℕ → Playback → ℕ
position_at time s =
    if is_paused s then chords_long s.paused_index s.micros_per_chord else sub64 time s.start

unfoldable pub time_of_chord : ℕ → Playback → ℕ
time_of_chord chord s =
    if is_paused s then max_u64 else add64 s.start (chords_long chord s.micros_per_chord)

-- `GetChordIndexForNetworkTimeStamp`; `none` where it divides by 0.
unfoldable pub chord_index_at : ℕ → ℕ → Playback → Option ℕ
chord_index_at time loop_length s =
    let offset = if loop_length == 0 then time else time % loop_length in
    if is_paused s
    then some s.paused_index
    else (if s.micros_per_chord == 0
        then some 0
        else (if s.start == 0
            then none
            else some ((offset / s.start / s.micros_per_chord) % 2 ^ 32)))

-- `SetMicrosPerChord`, at a time, or without one.
unfoldable pub set_micros : (ℕ → ℕ → ℕ → ℕ) → ℕ → Option ℕ → Playback → Playback
set_micros scaled micros none s = record s { micros_per_chord = micros }
set_micros scaled micros (some now) s =
    if is_paused s then record s { micros_per_chord = micros } else record s {
      start = sub64 now (scaled (position_at now s) s.micros_per_chord micros);
      micros_per_chord = micros;
    }

-- The adjustment of `SeniorAdjustPlaybackState`, past the loop.
pub data Adjustment : Type 0 where
  play : Adjustment
  pause : Adjustment
  adjust : Adjustment

abbrev pub maybe_seek : ℕ → Option ℕ → Playback → Playback
maybe_seek now none s = s
maybe_seek now (some chord) s = seek_to now chord s

abbrev pub maybe_micros : (ℕ → ℕ → ℕ → ℕ) → Option ℕ → Option ℕ → Playback → Playback
maybe_micros scaled none time s = s
maybe_micros scaled (some micros) time s = set_micros scaled micros time s

unfoldable pub adjust_playback :
    (ℕ → ℕ → ℕ → ℕ) → Adjustment → ℕ → Option ℕ → Option ℕ → Playback → Playback
adjust_playback scaled play now micros chord s =
    if is_paused s
    then start_playback now (maybe_seek now chord (maybe_micros scaled micros none s))
    else s
adjust_playback scaled pause now micros chord s =
    maybe_seek now chord (maybe_micros scaled micros none (pause_playback now s))
adjust_playback scaled adjust now micros chord s =
    maybe_seek now chord
      (maybe_micros scaled micros (elim chord [ none ↦ some now | some c ↦ none ]) s)

paused_lem :
    (now : ℕ) (s : Playback)
    → s.paused_index ≡ no_limit
    → 0 < s.micros_per_chord
    → s.start < now
    → (now - s.start) / s.micros_per_chord < no_limit
    → pause_playback now s
      ≡ record s { paused_index = (now - s.start) / s.micros_per_chord; start = max_u64 }
unfolding pause_playback
paused_lem now s hp hm hs hi =
    rw
      (
        (==_iff s.paused_index no_limit).1 hp,
        lt→ltb 0 s.micros_per_chord hm,
        lt→ltb s.start now hs,
        mod_small ((now - s.start) / s.micros_per_chord) hi,
      )
      refl
  where
    mod_small : (n : ℕ) → n < no_limit → n % 2 ^ 32 ≡ n
    mod_small n h = omega (arith, h)

position-started :
    (later index : ℕ) (s : Playback)
    → later < 2 ^ 64
    → index < no_limit
    → position_at later (start_playback later (record s { paused_index = index; start = max_u64 }))
      ≡ chords_long index s.micros_per_chord
unfolding position_at start_playback
position-started later index s hl hi = rw (below index hi) (omega (arith, hl))
  where
    below : (n : ℕ) → n < no_limit → (n == no_limit) ≡ false
    below n h = ground arith

-- A song that is paused and started again goes on from the beginning of the chord at which it was
-- paused: where it was playing, had begun, its chords have a length, the index of the chord is
-- below 2 ^ 32 - 1, and the time of the start is a 64-bit word.
pub position-resumed :
    (now later : ℕ) (s : Playback)
    → later < 2 ^ 64
    → s.paused_index ≡ no_limit
    → 0 < s.micros_per_chord
    → s.start < now
    → (now - s.start) / s.micros_per_chord < no_limit
    → position_at later (start_playback later (pause_playback now s))
      ≡ chords_long ((now - s.start) / s.micros_per_chord) s.micros_per_chord
position-resumed now later s hl hp hm hs hi =
    rw (paused_lem now s hp hm hs hi)
      (position-started later ((now - s.start) / s.micros_per_chord) s hl hi)
