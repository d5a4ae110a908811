-- ===== src/Choir/Archive.antt =====
-- The note assignments come back from their archive.
use zg_choir.Base.{
  ℕ, ◌+◌, ◌%◌, ◌^◌, ◌≡◌, ◌≢◌, refl, sym, ap, false, Option, none, some, List, [], ◌∷◌, ◌++◌, ◌==◌,
  ==_iff, arith, inl, inr, if_false, if_inv, subst, ◌∙◌, Bool-cases, All,
}
use zg_choir.Peer.{PeerId}
use zg_choir.Assoc.{peer_key, same_key, lookup, insert}
use zg_choir.Assoc.Laws.{same_comm, lookup-insert_other}
use zg_choir.Assoc.Distinct.{IsTable, insert_fresh}
use zg_choir.Choir.Assignments.{
  Assignments, total, calculate_checksum, forget_notes, drop_notes, put_notes, set_notes,
  default_assignments, set_strategy, save, load_entries, load,
}
use zg_choir.Choir.Running.{
  IsNoted, IsSummed, load_entries-IsSummed, set_strategy-IsSummed, default-IsSummed,
}

-- A list of entries has no entry of a peer, or of no peer of a table.
abbrev Apart : PeerId → List (PeerId × ℕ) → Type 0
Apart p l = All (λ (e : PeerId × ℕ). same_key p e.0 ≡ false) l

abbrev New : List (PeerId × ℕ) → List (PeerId × ℕ) → Type 0
New l notes = All (λ (e : PeerId × ℕ). lookup e.0 notes ≡ none) l

lookup-Apart : (p : PeerId) (l : List (PeerId × ℕ)) → lookup p l ≡ none → Apart p l
unfolding lookup
lookup-Apart p [] h = tt
lookup-Apart p ((q, c) ∷ l) h = elim (Bool-cases (same_key q p)) [
  | inl e ↦ ground (arith, e)
  | inr e ↦ (same_comm p q ∙ e, lookup-Apart p l (ground (arith, e)))
]

insert-New :
    (p : PeerId) (c : ℕ) (l notes : List (PeerId × ℕ))
    → Apart p l
    → New l notes
    → New l (insert p c notes)
insert-New p c [] notes a n = tt
insert-New p c ((q, d) ∷ l) notes a n =
    (lookup-insert_other p q c notes a.0 ∙ n.0, insert-New p c l notes a.1 n.1)

append-nil : (l : List (PeerId × ℕ)) → l ≡ l ++ []
append-nil [] = refl
append-nil (x ∷ l) = ap (x ∷◌) (append-nil l)

append_assoc :
    (l : List (PeerId × ℕ)) (e : PeerId × ℕ) (m : List (PeerId × ℕ))
    → (l ++ (e ∷ [])) ++ m ≡ l ++ (e ∷ m)
append_assoc [] e m = refl
append_assoc (x ∷ l) e m = ap (x ∷◌) (append_assoc l e m)

module _ (sum : PeerId → ℕ → ℕ) where
  set_notes-fresh :
      (p : PeerId) (c : ℕ) (a : Assignments)
      → c ≢ 0
      → lookup p a.notes ≡ none
      → (set_notes sum p c a).notes ≡ insert p c a.notes
  unfolding set_notes put_notes forget_notes
  set_notes-fresh p c a n h =
      if_false (λ (x : Assignments). x.notes ≡ insert p c a.notes) (c == 0) _ _
        (ground (arith, ==_iff c 0)) (rw h refl)

  drop_notes_strategy :
      (p : PeerId) (o : Option ℕ) (a : Assignments) → (drop_notes sum p o a).strategy ≡ a.strategy
  unfolding drop_notes
  drop_notes_strategy p none a = refl
  drop_notes_strategy p (some c) a = refl

  forget_notes_strategy :
      (p : PeerId) (o : Option ℕ) (a : Assignments) → (forget_notes sum p o a).strategy ≡ a.strategy
  unfolding forget_notes
  forget_notes_strategy p none a = refl
  forget_notes_strategy p (some c) a =
      if_inv (λ (x : Assignments). x.strategy ≡ a.strategy) (c == 0) refl refl

  set_notes_strategy :
      (p : PeerId) (c : ℕ) (a : Assignments) → (set_notes sum p c a).strategy ≡ a.strategy
  unfolding set_notes put_notes
  set_notes_strategy p c a =
      if_inv (λ (x : Assignments). x.strategy ≡ a.strategy) (c == 0)
        (drop_notes_strategy p (lookup p a.notes) a) (forget_notes_strategy p (lookup p a.notes) a)

  load_entries_strategy :
      (l : List (PeerId × ℕ)) (a : Assignments) → (load_entries sum l a).strategy ≡ a.strategy
  unfolding load_entries
  load_entries_strategy [] a = refl
  load_entries_strategy ((p, c) ∷ l) a =
      load_entries_strategy l (set_notes sum p c a) ∙ set_notes_strategy p c a

  load_entries_notes :
      (l : List (PeerId × ℕ)) (a : Assignments)
      → IsTable l
      → IsNoted l
      → New l a.notes
      → (load_entries sum l a).notes ≡ a.notes ++ l
  unfolding load_entries
  load_entries_notes [] a t n f = append-nil a.notes
  load_entries_notes ((p, c) ∷ l) a t n f =
      load_entries_notes l (set_notes sum p c a) t.1 n.1
        (rw (set_notes-fresh p c a n.0 f.0) (insert-New p c l a.notes (lookup-Apart p l t.0) f.1))
      ∙ rw (set_notes-fresh p c a n.0 f.0, insert_fresh p c a.notes f.0)
          (append_assoc a.notes (p, c) l)

  calculate_same :
      (a b : Assignments)
      → a.notes ≡ b.notes
      → a.strategy ≡ b.strategy
      → calculate_checksum sum a ≡ calculate_checksum sum b
  unfolding calculate_checksum
  calculate_same a b h k =
      subst (λ n. (a.strategy + total sum a.notes) % 2 ^ 32 ≡ (b.strategy + total sum n) % 2 ^ 32) h
        (subst (λ s. (a.strategy + total sum a.notes) % 2 ^ 32 ≡ (s + total sum a.notes) % 2 ^ 32) k
          refl)

  all-New : (l : List (PeerId × ℕ)) → New l []
  unfolding lookup
  all-New [] = tt
  all-New ((p, c) ∷ l) = (refl, all-New l)

  -- Note assignments that are saved and loaded again are the same, in order, with the same
  -- strategy and checksum: where the running checksum is right, and no peer is there twice or
  -- without notes.
  pub load-save :
      (a : Assignments)
      → IsSummed sum a
      → ((load sum (save a)).notes ≡ a.notes)
        × ((load sum (save a)).strategy ≡ a.strategy)
        × ((load sum (save a)).checksum ≡ a.checksum)
  unfolding load set_strategy
  load-save a v = (same_notes, same_strategy, same_sum)
    where
      loaded : Assignments
      loaded = load_entries sum a.notes (set_strategy a.strategy default_assignments)

      same_notes : loaded.notes ≡ a.notes
      same_notes =
          load_entries_notes a.notes (set_strategy a.strategy default_assignments) v.table v.noted
            (all-New a.notes)

      same_strategy : loaded.strategy ≡ a.strategy
      same_strategy = load_entries_strategy a.notes (set_strategy a.strategy default_assignments)

      same_sum : loaded.checksum ≡ a.checksum
      same_sum =
          (load_entries-IsSummed sum a.notes _
            (set_strategy-IsSummed sum a.strategy _ (default-IsSummed sum))).summed
          ∙ (calculate_same loaded a same_notes same_strategy ∙ sym v.summed)
