-- ===== src/Undo/Order.antt =====
-- What holds of one client's sequences: the undo stack and the reversed redo stack are one history,
-- in the order of the database's states.
use mathlib.Core.List.{reverse, append_assoc, reverse-append}
use zg_choir.Base.{
  ℕ, zero, suc, ◌≤◌, ◌<◌, ◌≡◌, refl, sym, ap, Bool, false, none, some, List, [], ◌∷◌, ◌++◌, arith,
  ◌⊎◌, inl, inr, Bool-cases,
}
use zg_choir.Undo.Sequences.{Payload, end_of, but_last, last}
use zg_choir.Undo.Trim.{is_stale, trim_index}

-- The last entry of a list that ends with it, and the others.
pub last-append : (l : List Payload) (p : Payload) → last (l ++ p ∷ []) ≡ some p
unfolding last
last-append [] p = refl
last-append (q ∷ []) p = refl
last-append (q ∷ r ∷ l) p = last-append (r ∷ l) p

pub but_last-append : (l : List Payload) (p : Payload) → but_last (l ++ p ∷ []) ≡ l
unfolding but_last
but_last-append [] p = refl
but_last-append (q ∷ []) p = refl
but_last-append (q ∷ r ∷ l) p = ap (λ x. q ∷ x) (but_last-append (r ∷ l) p)

pub eq-but_last : (l : List Payload) (p : Payload) → last l ≡ some p → l ≡ but_last l ++ p ∷ []
unfolding last but_last
eq-but_last [] p e = ground arith
eq-but_last (q ∷ []) p e = ground arith
eq-but_last (q ∷ r ∷ l) p e = ap (λ x. q ∷ x) (eq-but_last (r ∷ l) p e)

pub eq-nil_of_last : (l : List Payload) → last l ≡ none → l ≡ []
unfolding last
eq-nil_of_last [] e = refl
eq-nil_of_last (q ∷ []) e = ground arith
eq-nil_of_last (q ∷ r ∷ l) e = absurd (cc (eq-nil_of_last (r ∷ l) e))

-- Finished sequences, one after the other, between two states of the database.
abbrev pub Runs : ℕ → ℕ → List Payload → Type 0
Runs hi lo [] = lo ≤ hi
Runs hi lo (p ∷ l) =
    (p.nest ≡ 0) × (lo ≤ p.start_id) × (p.start_id ≤ end_of p) × Runs hi (end_of p) l

pub Runs-le : (l : List Payload) (hi lo : ℕ) → Runs hi lo l → lo ≤ hi
Runs-le [] hi lo h = h
Runs-le (p ∷ l) hi lo (n, a, b, h) = omega (arith, Runs-le l hi (end_of p) h)

pub Runs-mono :
    (l : List Payload) (hi hi' lo lo' : ℕ) → hi ≤ hi' → lo' ≤ lo → Runs hi lo l → Runs hi' lo' l
Runs-mono [] hi hi' lo lo' a b h = omega arith
Runs-mono (p ∷ l) hi hi' lo lo' a b (n, c, d, h) =
    (n, omega arith, d, Runs-mono l hi hi' (end_of p) (end_of p) a (omega arith) h)

pub Runs-front : (xs ys : List Payload) (hi lo : ℕ) → Runs hi lo (xs ++ ys) → Runs hi lo xs
Runs-front [] ys hi lo h = Runs-le ys hi lo h
Runs-front (p ∷ xs) ys hi lo (n, a, b, h) = (n, a, b, Runs-front xs ys hi (end_of p) h)

pub Runs-tail : (p : Payload) (l : List Payload) (hi lo : ℕ) → Runs hi lo (p ∷ l) → Runs hi lo l
Runs-tail p l hi lo (n, a, b, h) = Runs-mono l hi hi (end_of p) lo (omega arith) (omega arith) h

-- A sequence that ends later can follow.
pub Runs-then :
    (l : List Payload) (p : Payload) (hi lo : ℕ)
    → Runs p.start_id lo l
    → p.nest ≡ 0
    → p.start_id ≤ end_of p
    → end_of p ≤ hi
    → Runs hi lo (l ++ p ∷ [])
Runs-then [] p hi lo h n a b = (n, h, a, b)
Runs-then (q ∷ l) p hi lo (m, c, d, h) n a b = (m, c, d, Runs-then l p hi (end_of q) h n a b)

-- The sequence at a place of a history has no nesting left.
pub Runs-last :
    (l ys : List Payload) (p : Payload) (hi lo : ℕ) → Runs hi lo ((l ++ p ∷ []) ++ ys) → p.nest ≡ 0
Runs-last [] ys p hi lo h = h.0
Runs-last (q ∷ l) ys p hi lo (n, a, b, h) = Runs-last l ys p hi (end_of q) h

-- What one client has: where it has no sequence open, a history of finished ones; else one that has
-- begun and not ended, behind the finished ones, and nothing to do again.
abbrev pub IsOrdered : ℕ → ℕ → List Payload → List Payload → Type 0
IsOrdered now zero index redo = Runs now 0 (index ++ reverse redo)
IsOrdered now (suc n) index redo =
    (redo ≡ [])
    × ((p : Payload) × (l : List Payload) × (index ≡ l ++ p ∷ [])
        × (end_of p ≡ 0)
        × (p.end_id ≡ none)
        × (0 < p.start_id)
        × (p.start_id ≤ now)
        × Runs p.start_id 0 l)

-- Undo moves the last sequence over, and the history stays.
pub history_move :
    (l r : List Payload) (p : Payload) → l ++ reverse (r ++ p ∷ []) ≡ (l ++ p ∷ []) ++ reverse r
history_move l r p = rw reverse-append (sym (append_assoc l (p ∷ []) (reverse r)))

module _ (contains : ℕ → Bool) (now : ℕ) where
  -- A trimmed index is empty, or ends as before.
  pub trim_index-last :
      (l : List Payload)
      → (trim_index contains now l ≡ []) ⊎ (last (trim_index contains now l) ≡ last l)
  unfolding trim_index last
  trim_index-last [] = inl refl
  trim_index-last (p ∷ l) = elim (Bool-cases (is_stale contains now p)) [
    | inl e ↦ rw e (later l (trim_index-last l))
    | inr e ↦ rw e (inr refl)
  ]
    where
      later :
          (m : List Payload)
          → (trim_index contains now m ≡ []) ⊎ (last (trim_index contains now m) ≡ last m)
          → (trim_index contains now m ≡ []) ⊎ (last (trim_index contains now m) ≡ last (p ∷ m))
      later [] h = inl refl
      later (q ∷ m) h = h

  pub trim_index-Runs :
      (l ys : List Payload) (hi lo : ℕ)
      → Runs hi lo (l ++ ys)
      → Runs hi lo (trim_index contains now l ++ ys)
  unfolding trim_index
  trim_index-Runs [] ys hi lo h = h
  trim_index-Runs (p ∷ l) ys hi lo h = elim (Bool-cases (is_stale contains now p)) [
    | inl e ↦ rw e (trim_index-Runs l ys hi lo (Runs-tail p (l ++ ys) hi lo h))
    | inr e ↦ rw e h
  ]

  -- A second trim removes nothing more.
  pub trim_index_idem :
      (l : List Payload)
      → trim_index contains now (trim_index contains now l) ≡ trim_index contains now l
  unfolding trim_index
  trim_index_idem [] = refl
  trim_index_idem (p ∷ l) = elim (Bool-cases (is_stale contains now p)) [
    | inl e ↦ rw e (trim_index_idem l)
    | inr e ↦ rw (e, trim_index, e) refl
  ]

  -- Where the last sequence stays, those before it are trimmed.
  pub trim_index_then :
      (l : List Payload) (p : Payload)
      → (trim_index contains now (l ++ p ∷ []) ≡ [])
        ⊎ (trim_index contains now (l ++ p ∷ []) ≡ trim_index contains now l ++ p ∷ [])
  unfolding trim_index
  trim_index_then [] p = elim (Bool-cases (is_stale contains now p)) [
    | inl e ↦ rw e (inl refl)
    | inr e ↦ rw e (inr refl)
  ]
  trim_index_then (q ∷ l) p = elim (Bool-cases (is_stale contains now q)) [
    | inl e ↦ rw e (trim_index_then l p)
    | inr e ↦ rw e (inr refl)
  ]

  pub trim_index_keeps :
      (l : List Payload) (p : Payload)
      → is_stale contains now p ≡ false
      → trim_index contains now (l ++ p ∷ []) ≡ trim_index contains now l ++ p ∷ []
  unfolding trim_index
  trim_index_keeps [] p h = rw h refl
  trim_index_keeps (q ∷ l) p h = elim (Bool-cases (is_stale contains now q)) [
    | inl e ↦ rw e (trim_index_keeps l p h)
    | inr e ↦ rw e refl
  ]
