-- ===== src/Assoc/Distinct.antt =====
-- Tables that hold each key once: what `insert` and `erase` do to them.
use zg_choir.Base.{
  ◌≡◌, refl, false, none, some, List, [], ◌∷◌, ◌++◌, arith, inl, inr, subst, ◌∙◌, Bool-cases,
}
use zg_choir.Assoc.{Key, same_key, lookup, insert, erase, keys_of}
use zg_choir.Assoc.Laws.{same_refl, same-cases, same_comm, lookup-insert}

module _ {K V : Type 0} ⦃k : Key K⦄ where
  -- No key is there twice.
  abbrev pub IsTable : List (K × V) → Type 0
  IsTable [] = Unit
  IsTable ((p, v) ∷ l) = (lookup p l ≡ none) × IsTable l

  pub lookup-erase_other :
      (p q : K) (l : List (K × V)) → same_key p q ≡ false → lookup q (erase p l) ≡ lookup q l
  unfolding lookup erase
  lookup-erase_other p q [] h = refl
  lookup-erase_other p q ((r, w) ∷ l) h = elim (same-cases r p) [
    | inl e ↦ rw (e, same_refl p, h) refl
    | inr e ↦ rw e (elim (same-cases r q) [
      | inl e' ↦ rw (e', same_refl q) refl
      | inr e' ↦ rw e' (lookup-erase_other p q l h)
    ])
  ]

  pub lookup-erase_same : (p : K) (l : List (K × V)) → IsTable l → lookup p (erase p l) ≡ none
  unfolding lookup erase
  lookup-erase_same p [] h = refl
  lookup-erase_same p ((r, w) ∷ l) h = elim (same-cases r p) [
    | inl e ↦ rw (e, same_refl p) (subst (λ x. lookup x l ≡ none) e h.0)
    | inr e ↦ rw (e, lookup, e) (lookup-erase_same p l h.1)
  ]

  pub erase-IsTable : (p : K) (l : List (K × V)) → IsTable l → IsTable (erase p l)
  unfolding erase
  erase-IsTable p [] h = h
  erase-IsTable p ((r, w) ∷ l) h = elim (same-cases r p) [
    | inl e ↦ rw (e, same_refl p) h.1
    | inr e ↦ rw e (rw (lookup-erase_other p r l (same_comm p r ∙ e)) h.0, erase-IsTable p l h.1)
  ]

  pub insert-IsTable : (p : K) (v : V) (l : List (K × V)) → IsTable l → IsTable (insert p v l)
  unfolding insert lookup
  insert-IsTable p v [] h = (refl, tt)
  insert-IsTable p v ((r, w) ∷ l) h = elim (same-cases r p) [
    | inl e ↦ rw (e, same_refl p) (subst (λ x. lookup x l ≡ none) e h.0, h.1)
    | inr e ↦ rw e (rw (lookup-insert p r v l, same_comm p r, e) h.0, insert-IsTable p v l h.1)
  ]

  -- A key that is new goes to the end.
  pub insert_fresh :
      (p : K) (v : V) (l : List (K × V)) → lookup p l ≡ none → insert p v l ≡ l ++ ((p, v) ∷ [])
  unfolding insert lookup
  insert_fresh p v [] h = refl
  insert_fresh p v ((r, w) ∷ l) h = elim (Bool-cases (same_key r p)) [
    | inl e ↦ ground (arith, e)
    | inr e ↦ rw (e, insert_fresh p v l (ground (arith, e))) refl
  ]

  -- A key that is there keeps its place.
  pub keys_of-insert :
      (p : K) (v w : V) (l : List (K × V))
      → lookup p l ≡ some w
      → keys_of (insert p v l) ≡ keys_of l
  unfolding insert lookup
  keys_of-insert p v w [] h = ground arith
  keys_of-insert p v w ((r, u) ∷ l) h = elim (same-cases r p) [
    | inl e ↦ rw (e, same_refl p) refl
    | inr e ↦ rw (e, keys_of-insert p v w l (ground (arith, e))) refl
  ]
