-- ===== src/Choir/Shift.antt =====
-- What the insertion of a place does to the chords of a song.
use zg_choir.Base.{
  ℕ, ◌+◌, ◌-◌, ◌%◌, ◌^◌, ◌<◌, ◌≤◌, ◌≡◌, ◌≢◌, refl, ◌∙◌, Option, none, some, [], ◌∷◌, ◌==◌, ==_iff,
  ltb, ltb→lt, ltb-false, if◌then◌else◌, arith, inl, inr, Bool-cases, All,
}
use zg_choir.Table.{Table, get, put, remove}
use zg_choir.Table.Laws.{
  Above, IsOrdered, get-Above, get-put, get-remove, put-IsOrdered, remove-IsOrdered,
}
use zg_choir.Choir.Sheet.{Sheet, put_chord, move_forward, insert_chord_at}

-- No chord is empty, and none is at the last place that there is.
abbrev pub CanMove : Table ℕ → Type 0
CanMove t = All (λ (e : ℕ × ℕ). (e.1 ≢ 0) × (e.0 + 1 < 2 ^ 32)) t

-- The chord at a place after the insertion of another.
unfoldable pub moved : ℕ → ℕ → Table ℕ → Option ℕ
moved place j t = if ltb j place then get j t else if j == place then none else get (j - 1) t

module _ (chord_sum : ℕ → ℕ) where
  pub chords-put_chord_none :
      (k : ℕ) (s : Sheet) → (put_chord chord_sum k 0 s).chords ≡ remove k s.chords
  unfolding put_chord
  chords-put_chord_none k s = refl

  pub chords-put_chord :
      (k c : ℕ) (s : Sheet) → c ≢ 0 → (put_chord chord_sum k c s).chords ≡ put k c s.chords
  unfolding put_chord
  chords-put_chord k c s n = ground (arith, ==_iff c 0)

  move_forward-IsOrdered :
      (place : ℕ) (t : Table ℕ) (s : Sheet)
      → CanMove t
      → IsOrdered s.chords
      → IsOrdered (move_forward chord_sum place t s).chords
  unfolding move_forward
  move_forward-IsOrdered place [] s m o = o
  move_forward-IsOrdered place ((k, c) ∷ t) s (m, ms) o =
      let rest = move_forward chord_sum place t s in
      let o' = move_forward-IsOrdered place t s ms o in
      elim (Bool-cases (ltb k place)) [
        | inl e ↦ rw e o'
        | inr e ↦
            rw
              (
                e,
                chords-put_chord ((k + 1) % 2 ^ 32) c (put_chord chord_sum k 0 rest) m.0,
                chords-put_chord_none k rest,
              )
              (put-IsOrdered ((k + 1) % 2 ^ 32) c (remove k rest.chords)
                (remove-IsOrdered k rest.chords o'))
      ]

-- The keys rise from a bound on.
abbrev pub From : ℕ → Table ℕ → Type 0
From lo [] = Unit
From lo ((k, c) ∷ t) = (lo ≤ k) × Above k t

pub From-Above : (k : ℕ) (t : Table ℕ) → Above k t → From (k + 1) t
From-Above k [] a = tt
From-Above k ((i, c) ∷ t) a = (omega arith, a.1)

pub get_later : (k c j : ℕ) (t : Table ℕ) → k + 1 ≤ j → get j ((k, c) ∷ t) ≡ get j t
unfolding get
get_later k c j t h = ground arith

pub get_before : (k c j : ℕ) (t : Table ℕ) → Above k t → j < k → get j ((k, c) ∷ t) ≡ none
unfolding get
get_before k c j t a h = ground (arith, get-Above k j t)

get-moved_nil : (place j : ℕ) → (get {V = ℕ} j [] ≡ none) × (moved place j [] ≡ none)
unfolding get moved
get-moved_nil place j = ground arith

moved_stay :
    (place k c j : ℕ) (t : Table ℕ)
    → Above k t
    → k < place
    → moved place j ((k, c) ∷ t) ≡ (if ltb j (k + 1) then get j ((k, c) ∷ t) else moved place j t)
unfolding moved get
moved_stay place k c j t a h = ground (arith, get-Above k j t, get-Above k (j - 1) t)

moved_on :
    (place k c j : ℕ) (t : Table ℕ)
    → Above k t
    → place ≤ k
    → moved place j ((k, c) ∷ t) ≡ (
        if k + 1 == j
        then some c
        else if k == j
        then none
        else if ltb j k
        then none
        else moved place j t)
unfolding moved get
moved_on place k c j t a h = ground (arith, get-Above k j t, get-Above k (j - 1) t)

module _ (chord_sum : ℕ → ℕ) (place : ℕ) where
  get-move_forward :
      (t : Table ℕ) (lo j : ℕ) (s : Sheet)
      → CanMove t
      → From lo t
      → IsOrdered s.chords
      → ((i : ℕ) → lo ≤ i → get i s.chords ≡ get i t)
      → get j (move_forward chord_sum place t s).chords
        ≡ (if ltb j lo then get j s.chords else moved place j t)
  unfolding move_forward
  get-move_forward [] lo j s m f o h = ground (arith, h j, get-moved_nil place j)
  get-move_forward ((k, c) ∷ t) lo j s (m, ms) (le, a) o h =
      let rest = move_forward chord_sum place t s in
      let o' = move_forward-IsOrdered chord_sum place t s ms o in
      let ih =
        get-move_forward t (k + 1) j s ms (From-Above k t a) o
          (λ i g. h i (omega arith) ∙ get_later k c i t g) in
      elim (Bool-cases (ltb k place)) [
        | inl e ↦ rw (e, ih) (ground (arith, h j, moved_stay place k c j t a (ltb→lt k place e)))
        | inr e ↦
            let wrap : (k + 1) % 2 ^ 32 ≡ k + 1 = omega arith in
            rw
              (
                e,
                chords-put_chord chord_sum ((k + 1) % 2 ^ 32) c (put_chord chord_sum k 0 rest) m.0,
                chords-put_chord_none chord_sum k rest,
                wrap,
                get-put,
                get-remove j k rest.chords o',
                ih,
              )
              (ground
                (arith, h j, get_before k c j t a, moved_on place k c j t a (ltb-false k place e)))
      ]

  -- After a place is inserted into a song, the chords before it are where they were, the place has
  -- none, and every chord from it on stands one place later: where the places rise, no chord is
  -- empty, and none stands at the last place that there is.
  pub get-insert_chord_at :
      (s : Sheet) (j : ℕ)
      → IsOrdered s.chords
      → CanMove s.chords
      → get j (insert_chord_at chord_sum place s).chords ≡ moved place j s.chords
  unfolding insert_chord_at
  get-insert_chord_at s j o m =
      get-move_forward s.chords 0 j s m (from_zero s.chords o) o (λ i h. refl) ∙ ground arith
    where
      from_zero : (t : Table ℕ) → IsOrdered t → From 0 t
      from_zero [] o = tt
      from_zero ((k, c) ∷ t) o = (omega arith, o)
