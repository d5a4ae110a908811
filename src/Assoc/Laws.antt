-- ===== src/Assoc/Laws.antt =====
-- Laws of the table in insertion order.
use zg_choir.Base.{
  none, ap, sym, ◌∙◌, ◌≡◌, refl, true, false, some, List, [], ◌∷◌, if◌then◌else◌, arith, inl, inr,
  ◌⊎◌, Bool-cases,
}
use zg_choir.Assoc.{Key, same_key, lookup, insert, keys_of, holds, has}

module _ {K : Type 0} ⦃k : Key K⦄ where
  pub same_refl : (p : K) → same_key p p ≡ true
  same_refl p = (k.same_iff p p).1 refl

  pub same_eq : (p q : K) → same_key p q ≡ true → p ≡ q
  same_eq p q h = (k.same_iff p q).0 h

  -- Two keys are the same, or the test tells them apart.
  pub same-cases : (p q : K) → (p ≡ q) ⊎ (same_key p q ≡ false)
  same-cases p q = elim (Bool-cases (same_key p q)) [ inl e ↦ inl (same_eq p q e) | inr e ↦ inr e ]

  pub same_comm : (p q : K) → same_key p q ≡ same_key q p
  same_comm p q = elim (same-cases p q) [
    | inl e ↦ rw e refl
    | inr e ↦ elim (same-cases q p) [ inl e' ↦ rw e' refl | inr e' ↦ rw (e, e') refl ]
  ]

module _ {K V : Type 0} ⦃k : Key K⦄ where
  pub lookup-nil : (p : K) → lookup {V = V} p [] ≡ none
  unfolding lookup
  lookup-nil p = refl

  pub lookup-insert :
      (p q : K) (v : V) (l : List (K × V))
      → lookup q (insert p v l) ≡ (if same_key p q then some v else lookup q l)
  unfolding lookup insert
  lookup-insert p q v [] = refl
  lookup-insert p q v ((r, w) ∷ l) = elim (same-cases r p) [
    | inl e ↦ rw (e, same_refl p) (ground arith)
    | inr e ↦ rw e (elim (same-cases r q) [
      | inl e' ↦ rw (← e', same_refl r, same_comm p r, e) refl
      | inr e' ↦ rw e' (lookup-insert p q v l)
    ])
  ]

  pub lookup_here : (p q : K) (v : V) (l : List (K × V)) → q ≡ p → lookup p ((q, v) ∷ l) ≡ some v
  unfolding lookup
  lookup_here p q v l e = rw (e, same_refl p) refl

  pub lookup_later :
      (p q : K) (v : V) (l : List (K × V))
      → same_key q p ≡ false
      → lookup p ((q, v) ∷ l) ≡ lookup p l
  unfolding lookup
  lookup_later p q v l e = rw e refl

  -- What a lookup found, in front or behind.
  pub found_here :
      (p q : K) (v w : V) (l : List (K × V))
      → same_key q p ≡ true
      → lookup p ((q, v) ∷ l) ≡ some w
      → v ≡ w
  found_here p q v w l e h =
      ap (λ o. elim o [ none ↦ v | some x ↦ x ]) (sym (lookup_here p q v l (same_eq q p e)) ∙ h)

  pub found_later :
      (p q : K) (v w : V) (l : List (K × V))
      → same_key q p ≡ false
      → lookup p ((q, v) ∷ l) ≡ some w
      → lookup p l ≡ some w
  found_later p q v w l e h = sym (lookup_later p q v l e) ∙ h

  pub lookup-insert_same : (p : K) (v : V) (l : List (K × V)) → lookup p (insert p v l) ≡ some v
  lookup-insert_same p v l = rw (lookup-insert p p v l, same_refl p) refl

  pub lookup-insert_other :
      (p q : K) (v : V) (l : List (K × V))
      → same_key p q ≡ false
      → lookup q (insert p v l) ≡ lookup q l
  lookup-insert_other p q v l h = rw (lookup-insert p q v l, h) refl

  pub holds-keys : (p : K) (l : List (K × V)) → holds p (keys_of l) ≡ has p l
  unfolding holds lookup
  holds-keys p [] = refl
  holds-keys p ((q, w) ∷ l) = ground (arith, holds-keys p l)
