-- ===== src/Choir/Closing.antt =====
-- What the deletion of a place does to the chords of a song.
use zg_choir.Base.{
  ℕ, ◌+◌, ◌-◌, ◌<◌, ◌≤◌, ◌≡◌, ◌≢◌, refl, sym, ap, subst, ◌∙◌, Bool, true, false, Option, none, some,
  [], ◌∷◌, ◌==◌, ltb, ltb→lt, ltb-false, if◌then◌else◌, arith, inl, inr, Bool-cases, All,
}
use zg_choir.Table.{Table, get, remove, last_key}
use zg_choir.Table.Laws.{
  Above, IsOrdered, Above-IsOrdered, get-Above, get-put, get-remove, put-IsOrdered,
  remove-IsOrdered,
}
use zg_choir.Choir.Sheet.{Sheet, put_chord, move_back, delete_chord_at}
use zg_choir.Choir.Shift.{From, From-Above, get_later, chords-put_chord, chords-put_chord_none}

-- No chord is empty.
abbrev pub IsFilled : Table ℕ → Type 0
IsFilled t = All (λ (e : ℕ × ℕ). e.1 ≢ 0) t

unfoldable or_else : Option ℕ → Option ℕ → Option ℕ
or_else none o = o
or_else (some c) o = some c

-- The chord at a place after those of a table, whose places are `lo` at least, have moved back.
unfoldable closed : ℕ → ℕ → ℕ → Option ℕ → Table ℕ → Option ℕ
closed place lo j old t =
    if ltb j place
    then old
    else if ltb (j + 1) lo
    then old
    else or_else (get (j + 1) t) (if ltb j lo then old else none)

closed_stay :
    (place lo k c j : ℕ) (old : Option ℕ) (t : Table ℕ)
    → k < place
    → lo ≤ k
    → closed place lo j old ((k, c) ∷ t) ≡ closed place (k + 1) j old t
unfolding closed get
closed_stay place lo k c j old t h le = ground arith

closed_on :
    (place lo k c j : ℕ) (old : Option ℕ) (t : Table ℕ)
    → Above k t
    → place < k
    → lo ≤ k
    → (lo ≤ j → old ≡ get j ((k, c) ∷ t))
    → closed place lo j old ((k, c) ∷ t)
      ≡ closed place (k + 1) j (if k - 1 == j then some c else if k == j then none else old) t
unfolding closed or_else get
closed_on place lo k c j old t a h le same = ground (arith, get-Above k j t, get-Above k (j + 1) t)

get-closed_nil :
    (place lo j : ℕ) (old : Option ℕ) → (lo ≤ j → old ≡ none) → old ≡ closed place lo j old []
unfolding closed or_else get
get-closed_nil place lo j old h = ground arith

absent_later :
    (k c place : ℕ) (t : Table ℕ) → Above k t → get place ((k, c) ∷ t) ≡ none → get place t ≡ none
unfolding get
absent_later k c place t a q = ground (arith, get-Above k place t)

absent_first : (k c place : ℕ) (t : Table ℕ) → get place ((k, c) ∷ t) ≡ none → place ≤ k → place < k
unfolding get
absent_first k c place t q h = ground arith

untouched :
    (k c i : ℕ) (o : Option ℕ)
    → k + 1 ≤ i
    → (if k - 1 == i then some c else if k == i then none else o) ≡ o
untouched k c i o h = ground arith

key_le_last : (k : ℕ) (t : Table ℕ) → Above k t → k ≤ last_key k t
unfolding last_key
key_le_last k [] a = omega arith
key_le_last k ((j, c) ∷ t) a = let later = key_le_last j t a.1 in let rise = a.0 in omega arith

closed_all :
    (place j : ℕ) (t u : Table ℕ)
    → get j t ≡ (if place == j then none else get j u)
    → get (j + 1) t ≡ (if place == j + 1 then none else get (j + 1) u)
    → closed place 0 j (get j t) t ≡ (if ltb j place then get j u else get (j + 1) u)
unfolding closed or_else
closed_all place j t u here next = ground arith

get_past : (i d : ℕ) (t : Table ℕ) → IsOrdered t → last_key d t < i → get i t ≡ none
unfolding get last_key
get_past i d [] o h = refl
get_past i d ((k, c) ∷ t) o h =
    ground (arith, get_past i k t (Above-IsOrdered k t o) h, key_le_last k t o)

remove-IsFilled : (k : ℕ) (t : Table ℕ) → IsFilled t → IsFilled (remove k t)
unfolding remove
remove-IsFilled k [] f = tt
remove-IsFilled k ((i, c) ∷ t) (f, fs) =
    elim (Bool-cases (i == k)) as (λ x. IsFilled (remove k ((i, c) ∷ t))) [
      | inl e ↦ subst (λ b. IsFilled (if b then t else (i, c) ∷ remove k t)) (sym e) fs
      | inr e ↦
          subst (λ b. IsFilled (if b then t else (i, c) ∷ remove k t)) (sym e)
            (f, remove-IsFilled k t fs)
    ]

absent_after :
    (place j : ℕ) (t u : Table ℕ)
    → get j t ≡ (if place == j then none else get j u)
    → get (j + 1) t ≡ (if place == j + 1 then none else get (j + 1) u)
    → ((i : ℕ) → place ≤ i → get i t ≡ none)
    → get j t ≡ (if ltb j place then get j u else get (j + 1) u)
absent_after place j t u here next gone = ground (arith, gone j, gone (j + 1))

From-zero : (t : Table ℕ) → IsOrdered t → From 0 t
From-zero [] o = tt
From-zero ((k, c) ∷ t) o = (omega arith, o)

module _ (chord_sum : ℕ → ℕ) (place : ℕ) where
  stepped :
      (k c j : ℕ) (s : Sheet)
      → c ≢ 0
      → IsOrdered s.chords
      → get j (put_chord chord_sum (k - 1) c (put_chord chord_sum k 0 s)).chords
        ≡ (if k - 1 == j then some c else if k == j then none else get j s.chords)
  stepped k c j s n o =
      rw
        (
          chords-put_chord chord_sum (k - 1) c (put_chord chord_sum k 0 s) n,
          chords-put_chord_none chord_sum k s,
          get-put,
          get-remove j k s.chords o,
        )
        refl

  stepped-IsOrdered :
      (k c : ℕ) (s : Sheet)
      → c ≢ 0
      → IsOrdered s.chords
      → IsOrdered (put_chord chord_sum (k - 1) c (put_chord chord_sum k 0 s)).chords
  stepped-IsOrdered k c s n o =
      rw
        (
          chords-put_chord chord_sum (k - 1) c (put_chord chord_sum k 0 s) n,
          chords-put_chord_none chord_sum k s,
        )
        (put-IsOrdered (k - 1) c (remove k s.chords) (remove-IsOrdered k s.chords o))

  get-move_back :
      (t : Table ℕ) (lo j : ℕ) (s : Sheet)
      → IsFilled t
      → From lo t
      → get place t ≡ none
      → IsOrdered s.chords
      → ((i : ℕ) → lo ≤ i → get i s.chords ≡ get i t)
      → get j (move_back chord_sum place t s).chords ≡ closed place lo j (get j s.chords) t
  unfolding move_back get
  get-move_back [] lo j s m f q o h = get-closed_nil place lo j (get j s.chords) (h j)
  get-move_back ((k, c) ∷ t) lo j s (m, ms) (le, a) q o h =
      let opened : (b : Bool)
          → ltb k place ≡ b
          → get j (move_back chord_sum place ((k, c) ∷ t) s).chords
            ≡ get j
                (move_back chord_sum place t (
                  if b
                  then s
                  else put_chord chord_sum (k - 1) c (put_chord chord_sum k 0 s))).chords =
        (λ b e.
          ap
            (λ x.
              get j
                (move_back chord_sum place t (
                  if x
                  then s
                  else put_chord chord_sum (k - 1) c (put_chord chord_sum k 0 s))).chords)
            e) in
      let past = λ (i : ℕ) (g : k + 1 ≤ i). h i (omega arith) ∙ get_later k c i t g in
      elim (Bool-cases (ltb k place)) [
        | inl e ↦
            opened true e
            ∙ (get-move_back t (k + 1) j s ms (From-Above k t a) (absent_later k c place t a q) o
                  past
                ∙ sym (closed_stay place lo k c j (get j s.chords) t (ltb→lt k place e) le))
        | inr e ↦
            let s2 = put_chord chord_sum (k - 1) c (put_chord chord_sum k 0 s) in
            opened false e
            ∙ (get-move_back t (k + 1) j s2 ms (From-Above k t a) (absent_later k c place t a q)
                  (stepped-IsOrdered k c s m o)
                  (λ i g. stepped k c i s m o ∙ untouched k c i (get i s.chords) g ∙ past i g)
                ∙ ap (λ x. closed place (k + 1) j x t) (stepped k c j s m o)
                ∙ sym (
                    closed_on place lo k c j (get j s.chords) t a
                      (absent_first k c place t q (ltb-false k place e)) le (h j)))
      ]

  -- After a place is deleted from a song, the chords before it are where they were, and every
  -- chord after it stands one place earlier, the chord at the place itself being gone: where the
  -- places rise and no chord is empty.
  pub get-delete_chord_at :
      (s : Sheet) (j : ℕ)
      → IsOrdered s.chords
      → IsFilled s.chords
      → get j (delete_chord_at chord_sum place s).chords
        ≡ (if ltb j place then get j s.chords else get (j + 1) s.chords)
  unfolding delete_chord_at
  get-delete_chord_at s j o f =
      let s' = put_chord chord_sum place 0 s in
      let t = remove place s.chords in
      let same : s'.chords ≡ t = chords-put_chord_none chord_sum place s in
      let o' : IsOrdered s'.chords =
        subst IsOrdered (sym same) (remove-IsOrdered place s.chords o) in
      let f' : IsFilled s'.chords = subst IsFilled (sym same) (remove-IsFilled place s.chords f) in
      let at : (i : ℕ) → get i s'.chords ≡ (if place == i then none else get i s.chords) =
        λ i. ap (get i) same ∙ get-remove i place s.chords o in
      let branch : (b : Bool)
          → ltb (last_key 0 s'.chords) place ≡ b
          → get j (delete_chord_at chord_sum place s).chords
            ≡ get j (if b then s' else move_back chord_sum place s'.chords s').chords =
        λ b e.
          ap (λ b. get j (if b then s' else move_back chord_sum place s'.chords s').chords) e in
      elim (Bool-cases (ltb (last_key 0 s'.chords) place)) [
        | inl e ↦
            let all_before = ltb→lt (last_key 0 s'.chords) place e in
            branch true e
            ∙ absent_after place j s'.chords s.chords (at j) (at (j + 1))
                (λ i le. get_past i 0 s'.chords o' (omega arith))
        | inr e ↦
            branch false e
            ∙ get-move_back s'.chords 0 j s' f' (From-zero s'.chords o') (at place ∙ ground arith)
                o' (λ i h. refl)
            ∙ closed_all place j s'.chords s.chords (at j) (at (j + 1))
      ]
