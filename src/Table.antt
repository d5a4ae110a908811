-- ===== src/Table.antt =====
-- A table with its keys in ascending order, as a list of pairs: what the program keeps in an
-- `OrderedKeysHashtable`. Iteration runs over the list, forwards or backwards.
pub mod Laws
use zg_choir.Base.{
  ℕ, suc, ◌+◌, Bool, true, false, Option, none, some, List, [], ◌∷◌, ltb, ◌==◌, if◌then◌else◌,
  is_some,
}

abbrev pub Table {ℓ} : Type ℓ → Type ℓ
Table V = List (ℕ × V)

module _ {ℓ} {V : Type ℓ} where
  -- `Get`, and `operator[]` on a table of references: `none` for a key that is not there.
  unfoldable pub get : ℕ → Table V → Option V
  get k [] = none
  get k ((j, v) ∷ t) = if j == k then some v else get k t

  -- `Put`: an entry under the same key is replaced.
  unfoldable pub put : ℕ → V → Table V → Table V
  put k v [] = (k, v) ∷ []
  put k v ((j, w) ∷ t) =
      let rest = (j, w) ∷ put k v t in
      if k == j then (k, v) ∷ t else if ltb k j then (k, v) ∷ (j, w) ∷ t else rest

  -- `Remove`.
  unfoldable pub remove : ℕ → Table V → Table V
  remove k [] = []
  remove k ((j, w) ∷ t) = let rest = (j, w) ∷ remove k t in if j == k then t else rest

  -- `ContainsKey`.
  abbrev pub contains : ℕ → Table V → Bool
  contains k t = is_some (get k t)

  -- `GetLastKeyWithDefault` and `GetFirstKeyWithDefault`.
  unfoldable pub last_key : ℕ → Table V → ℕ
  last_key d [] = d
  last_key d ((j, w) ∷ t) = last_key j t

  unfoldable pub first_key : ℕ → Table V → ℕ
  first_key d [] = d
  first_key d ((j, w) ∷ t) = j

  -- The sum of a measure over the entries.
  unfoldable pub total : (V → ℕ) → Table V → ℕ
  total f [] = 0
  total f ((j, w) ∷ t) = f w + total f t
