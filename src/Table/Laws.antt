-- ===== src/Table/Laws.antt =====
-- Laws of the ordered table.
use zg_choir.Base.{ℕ, ◌+◌, ◌≤◌, ◌<◌, ◌≡◌, refl, none, some, [], ◌∷◌, arith, ◌==◌, if◌then◌else◌}
use zg_choir.Table.{Table, get, put, remove, total}

module _ {ℓ} {V : Type ℓ} where
  -- The keys rise, and all lie above a bound.
  abbrev pub Above : ℕ → Table V → Type 0
  Above b [] = Unit {0}
  Above b ((j, w) ∷ t) = (b < j) × Above j t

  -- The keys rise.
  abbrev pub IsOrdered : Table V → Type 0
  IsOrdered [] = Unit {0}
  IsOrdered ((j, w) ∷ t) = Above j t

  pub Above-mono : (b c : ℕ) (t : Table V) → b ≤ c → Above c t → Above b t
  Above-mono b c [] h a = tt
  Above-mono b c ((j, w) ∷ t) h a = (omega arith, a.1)

  pub Above-IsOrdered : (b : ℕ) (t : Table V) → Above b t → IsOrdered t
  Above-IsOrdered b [] a = tt
  Above-IsOrdered b ((j, w) ∷ t) a = a.1

  pub put-Above : (b k : ℕ) (v : V) (t : Table V) → b < k → Above b t → Above b (put k v t)
  unfolding put
  put-Above b k v [] h a = (h, tt)
  put-Above b k v ((j, w) ∷ t) h a = ground (arith, put-Above j k v t, Above-mono k j t)

  pub put-IsOrdered : (k : ℕ) (v : V) (t : Table V) → IsOrdered t → IsOrdered (put k v t)
  unfolding put
  put-IsOrdered k v [] a = tt
  put-IsOrdered k v ((j, w) ∷ t) a = ground (arith, put-Above j k v t)

  pub remove-Above : (b k : ℕ) (t : Table V) → Above b t → Above b (remove k t)
  unfolding remove
  remove-Above b k [] a = tt
  remove-Above b k ((j, w) ∷ t) a = ground (arith, remove-Above j k t, Above-mono b j t)

  pub remove-IsOrdered : (k : ℕ) (t : Table V) → IsOrdered t → IsOrdered (remove k t)
  unfolding remove
  remove-IsOrdered k [] a = tt
  remove-IsOrdered k ((j, w) ∷ t) a = ground (arith, remove-Above j k t, Above-IsOrdered j t)

  pub get-Above : (b k : ℕ) (t : Table V) → Above b t → k ≤ b → get k t ≡ none
  unfolding get
  get-Above b k [] a h = refl
  get-Above b k ((j, w) ∷ t) a h = ground (arith, get-Above j k t)

  -- A look-up after `Put`.
  pub get-put :
      (j k : ℕ) (v : V) (t : Table V) → get j (put k v t) ≡ (if k == j then some v else get j t)
  unfolding get put
  get-put j k v [] = refl
  get-put j k v ((i, w) ∷ t) = ground (arith, get-put j k v t)

  -- A look-up after `Remove`.
  pub get-remove :
      (j k : ℕ) (t : Table V)
      → IsOrdered t
      → get j (remove k t) ≡ (if k == j then none else get j t)
  unfolding get remove
  get-remove j k [] a = ground arith
  get-remove j k ((i, w) ∷ t) a =
      ground (arith, get-remove j k t, Above-IsOrdered i t, get-Above i j t)

  -- Putting under a fresh key and removing it again changes nothing.
  pub remove-put : (k : ℕ) (v : V) (t : Table V) → get k t ≡ none → remove k (put k v t) ≡ t
  unfolding get put remove
  remove-put k v [] h = ground arith
  remove-put k v ((j, w) ∷ t) h = ground (arith, remove-put k v t)

  -- A fresh entry adds its measure to the total.
  pub total-put :
      (f : V → ℕ) (k : ℕ) (v : V) (t : Table V)
      → get k t ≡ none
      → total f (put k v t) ≡ f v + total f t
  unfolding get put total
  total-put f k v [] h = refl
  total-put f k v ((j, w) ∷ t) h = ground (arith, total-put f k v t)

  -- An entry that replaces another puts its measure in the other's place.
  pub total-put_over :
      (f : V → ℕ) (k : ℕ) (v w : V) (t : Table V)
      → IsOrdered t
      → get k t ≡ some w
      → total f (put k v t) + f w ≡ f v + total f t
  unfolding get put total
  total-put_over f k v w [] a h = ground arith
  total-put_over f k v w ((j, x) ∷ t) a h =
      ground (arith, total-put_over f k v w t, Above-IsOrdered j t, get-Above j k t)

  -- A removed entry takes its measure off the total.
  pub total-remove :
      (f : V → ℕ) (k : ℕ) (v : V) (t : Table V)
      → get k t ≡ some v
      → total f (remove k t) + f v ≡ total f t
  unfolding get remove total
  total-remove f k v [] h = ground arith
  total-remove f k v ((j, w) ∷ t) h = ground (arith, total-remove f k v t)

  pub remove_absent : (k : ℕ) (t : Table V) → get k t ≡ none → remove k t ≡ t
  unfolding get remove
  remove_absent k [] h = refl
  remove_absent k ((j, w) ∷ t) h = ground (arith, remove_absent k t)
