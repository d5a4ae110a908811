-- ===== src/Choir/Running.antt =====
-- The running checksum of the note assignments is the one that `CalculateChecksum` gives.
use zg_choir.Base.{
  ℕ, ◌+◌, ◌≡◌, ◌≢◌, refl, Bool, Option, none, some, List, [], ◌∷◌, ◌==◌, ==_iff, arith, inl, inr,
  if_true, if_false, if_inv, ◌∙◌, Bool-cases, All,
}
use zg_choir.Peer.{PeerId, is_valid}
use zg_choir.Assoc.{peer_key, same_key, lookup, insert, erase}
use zg_choir.Assoc.Laws.{found_here, found_later, same_eq}
use zg_choir.Assoc.Distinct.{IsTable, erase-IsTable, insert-IsTable}
use zg_choir.Choir.Notes.{has_note, without_note}
use zg_choir.Choir.Assignments.{
  Assignments, Archive, total, calculate_checksum, forget_notes, drop_notes, put_notes, set_notes,
  unassign_note, toggle, unassign_offline, default_assignments, set_strategy, load_entries, load,
}

-- No peer is kept without notes.
abbrev pub IsNoted : List (PeerId × ℕ) → Type 0
IsNoted l = All (λ (e : PeerId × ℕ). e.1 ≢ 0) l

erase-IsNoted : (p : PeerId) (l : List (PeerId × ℕ)) → IsNoted l → IsNoted (erase p l)
unfolding erase
erase-IsNoted p [] h = h
erase-IsNoted p ((q, c) ∷ l) h = if_inv IsNoted (same_key q p) h.1 (h.0, erase-IsNoted p l h.1)

insert-IsNoted :
    (p : PeerId) (c : ℕ) (l : List (PeerId × ℕ)) → c ≢ 0 → IsNoted l → IsNoted (insert p c l)
unfolding insert
insert-IsNoted p c [] n h = (n, tt)
insert-IsNoted p c ((q, d) ∷ l) n h =
    if_inv IsNoted (same_key q p) (n, h.1) (h.0, insert-IsNoted p c l n h.1)

lookup-IsNoted :
    (p : PeerId) (c : ℕ) (l : List (PeerId × ℕ)) → IsNoted l → lookup p l ≡ some c → c ≢ 0
unfolding lookup
lookup-IsNoted p c [] h e = ground arith
lookup-IsNoted p c ((q, d) ∷ l) h e = elim (Bool-cases (same_key q p)) [
  | inl i ↦ λ z. h.0 (found_here p q d c l i e ∙ z)
  | inr i ↦ lookup-IsNoted p c l h.1 (found_later p q d c l i e)
]

module _ (sum : PeerId → ℕ → ℕ) where
  total-erase :
      (p : PeerId) (c : ℕ) (l : List (PeerId × ℕ))
      → lookup p l ≡ some c
      → total sum (erase p l) + sum p c ≡ total sum l
  unfolding total erase lookup
  total-erase p c [] e = ground arith
  total-erase p c ((q, d) ∷ l) e = elim (Bool-cases (same_key q p)) [
    | inl i ↦ rw (i, ← found_here p q d c l i e, same_eq q p i) (omega arith)
    | inr i ↦ rw i (omega (arith, total-erase p c l (found_later p q d c l i e)))
  ]

  total-insert :
      (p : PeerId) (c d : ℕ) (l : List (PeerId × ℕ))
      → lookup p l ≡ some c
      → total sum (insert p d l) + sum p c ≡ total sum l + sum p d
  unfolding total insert lookup
  total-insert p c d [] e = ground arith
  total-insert p c d ((q, b) ∷ l) e = elim (Bool-cases (same_key q p)) [
    | inl i ↦ rw (i, ← found_here p q b c l i e, same_eq q p i) (omega arith)
    | inr i ↦ rw i (omega (arith, total-insert p c d l (found_later p q b c l i e)))
  ]

  total-insert_fresh :
      (p : PeerId) (d : ℕ) (l : List (PeerId × ℕ))
      → lookup p l ≡ none
      → total sum (insert p d l) ≡ total sum l + sum p d
  unfolding total insert lookup
  total-insert_fresh p d [] e = omega arith
  total-insert_fresh p d ((q, b) ∷ l) e = elim (Bool-cases (same_key q p)) [
    | inl i ↦ ground (arith, i)
    | inr i ↦ rw i (omega (arith, total-insert_fresh p d l (ground (arith, i))))
  ]

  -- The running checksum is the one that is calculated, no peer is there twice, and none without
  -- notes.
  pub record IsSummed (a : Assignments) : Type 0 where
    pub table : IsTable a.notes
    pub noted : IsNoted a.notes
    pub summed : a.checksum ≡ calculate_checksum sum a

  drop_notes-IsSummed :
      (p : PeerId) (o : Option ℕ) (a : Assignments)
      → lookup p a.notes ≡ o
      → IsSummed a
      → IsSummed (drop_notes sum p o a)
  unfolding drop_notes calculate_checksum
  drop_notes-IsSummed p none a e v = v
  drop_notes-IsSummed p (some c) a e v = record {
    table = erase-IsTable p a.notes v.table;
    noted = erase-IsNoted p a.notes v.noted;
    summed = omega (arith, v.summed, total-erase p c a.notes e);
  }

  put_notes-IsSummed :
      (p : PeerId) (d : ℕ) (o : Option ℕ) (a : Assignments)
      → lookup p a.notes ≡ o
      → d ≢ 0
      → IsSummed a
      → IsSummed (put_notes sum p d (forget_notes sum p o a))
  unfolding put_notes forget_notes calculate_checksum
  put_notes-IsSummed p d none a e n v = record {
    table = insert-IsTable p d a.notes v.table;
    noted = insert-IsNoted p d a.notes n v.noted;
    summed = omega (arith, v.summed, total-insert_fresh p d a.notes e);
  }
  put_notes-IsSummed p d (some c) a e n v =
      if_false (λ (x : Assignments). IsSummed (put_notes sum p d x)) (c == 0) _ _
        (ground (arith, ==_iff c 0, lookup-IsNoted p c a.notes v.noted e))
        (record {
          table = insert-IsTable p d a.notes v.table;
          noted = insert-IsNoted p d a.notes n v.noted;
          summed = omega (arith, v.summed, total-insert p c d a.notes e);
        })

  pub set_notes-IsSummed :
      (p : PeerId) (d : ℕ) (a : Assignments) → IsSummed a → IsSummed (set_notes sum p d a)
  unfolding set_notes
  set_notes-IsSummed p d a v = elim (Bool-cases (d == 0)) [
    | inl e ↦
        if_true (λ (x : Assignments). IsSummed x) (d == 0) _ _ e
          (drop_notes-IsSummed p (lookup p a.notes) a refl v)
    | inr e ↦
        if_false (λ (x : Assignments). IsSummed x) (d == 0) _ _ e
          (put_notes-IsSummed p d (lookup p a.notes) a refl (λ z. ground (arith, ==_iff d 0)) v)
  ]

  unassign_note-IsSummed :
      (note : ℕ) (l : List (PeerId × ℕ)) (a : Assignments)
      → IsSummed a
      → IsSummed (unassign_note sum note l a)
  unfolding unassign_note
  unassign_note-IsSummed note [] a v = v
  unassign_note-IsSummed note ((p, c) ∷ l) a v =
      unassign_note-IsSummed note l _
        (if_inv IsSummed (has_note note c) (set_notes-IsSummed p (without_note note c) a v) v)

  pub unassign_offline-IsSummed :
      (online : PeerId → Bool) (l : List (PeerId × ℕ)) (a : Assignments)
      → IsSummed a
      → IsSummed (unassign_offline sum online l a)
  unfolding unassign_offline
  unassign_offline-IsSummed online [] a v = v
  unassign_offline-IsSummed online ((p, c) ∷ l) a v =
      unassign_offline-IsSummed online l _
        (if_inv IsSummed (online p) v (set_notes-IsSummed p 0 a v))

  pub load_entries-IsSummed :
      (l : List (PeerId × ℕ)) (a : Assignments) → IsSummed a → IsSummed (load_entries sum l a)
  unfolding load_entries
  load_entries-IsSummed [] a v = v
  load_entries-IsSummed ((p, c) ∷ l) a v = load_entries-IsSummed l _ (set_notes-IsSummed p c a v)

  pub set_strategy-IsSummed : (s : ℕ) (a : Assignments) → IsSummed a → IsSummed (set_strategy s a)
  unfolding set_strategy calculate_checksum
  set_strategy-IsSummed s a v = record {
    table = v.table;
    noted = v.noted;
    summed = omega (arith, v.summed);
  }

  pub default-IsSummed : IsSummed default_assignments
  unfolding calculate_checksum total
  default-IsSummed = record { table = tt; noted = tt; summed = refl }

  pub toggle-IsSummed :
      (p : PeerId) (note : ℕ) (a : Assignments) → IsSummed a → IsSummed (toggle sum p note a)
  unfolding toggle
  toggle-IsSummed p note a v =
      if_inv IsSummed (is_valid p) (set_notes-IsSummed p _ a v)
        (if_inv IsSummed (a.histogram.chord == 0) v (unassign_note-IsSummed note a.notes a v))

  pub load-IsSummed : (r : Archive) → IsSummed (load sum r)
  unfolding load
  load-IsSummed r =
      load_entries-IsSummed r.entries _ (set_strategy-IsSummed r.strategy _ default-IsSummed)
