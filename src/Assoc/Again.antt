-- ===== src/Assoc/Again.antt =====
-- Tables that are changed twice under one key.
use zg_choir.Base.{◌≡◌, refl, none, some, List, [], ◌∷◌, arith, inl, inr, Bool-cases}
use zg_choir.Assoc.{Key, same_key, lookup, insert, erase}
use zg_choir.Assoc.Laws.{same_refl, found_here, found_later}

module _ {K V : Type 0} ⦃k : Key K⦄ where
  -- The second value counts.
  pub insert-insert :
      (p : K) (v w : V) (l : List (K × V)) → insert p v (insert p w l) ≡ insert p v l
  unfolding insert
  insert-insert p v w [] = rw (same_refl p) refl
  insert-insert p v w ((q, u) ∷ l) = elim (Bool-cases (same_key q p)) [
    | inl e ↦ rw (e, insert, e) refl
    | inr e ↦ rw (e, insert, e, insert-insert p v w l) refl
  ]

  -- A value that is there already changes nothing.
  pub insert_known : (p : K) (v : V) (l : List (K × V)) → lookup p l ≡ some v → insert p v l ≡ l
  unfolding insert lookup
  insert_known p v [] h = ground arith
  insert_known p v ((q, u) ∷ l) h = elim (Bool-cases (same_key q p)) [
    | inl e ↦ rw (e, found_here p q u v l e h) refl
    | inr e ↦ rw (e, insert_known p v l (found_later p q u v l e h)) refl
  ]

  -- A new key that is taken out again.
  pub erase-insert_fresh :
      (p : K) (v : V) (l : List (K × V)) → lookup p l ≡ none → erase p (insert p v l) ≡ l
  unfolding insert erase lookup
  erase-insert_fresh p v [] h = rw (same_refl p) refl
  erase-insert_fresh p v ((q, u) ∷ l) h = elim (Bool-cases (same_key q p)) [
    | inl e ↦ ground (arith, e)
    | inr e ↦ rw (e, erase, e, erase-insert_fresh p v l (ground (arith, e))) refl
  ]
