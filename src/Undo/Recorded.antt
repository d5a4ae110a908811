-- ===== src/Undo/Recorded.antt =====
-- What the senior peer records of an update takes a junior's tree to the senior's.
use Prim.Native.String.{String}
use mathlib.Core.List.{append_assoc, append-nil}
use zg_choir.Base.{
  ◌≤◌, ◌≡◌, ◌≢◌, refl, sym, ap, ◌∙◌, true, false, Option, none, some, List, [], ◌∷◌, ◌++◌, is_some,
  length, get_elem?,
}
use zg_choir.Undo.Sequences.{Status, fine, bad_argument, bad_object, refused}
use zg_choir.Undo.Travel.{NodeUpdate, in_stacks, and_then}
use zg_choir.Undo.Record.{
  Change, insert_entry, remove_entry, Event, payload_changed, entry_inserted, entry_removed,
  create_node_update, create_index_update, record_event, record_all, assembled, or_noop,
  senior_update, Store, IsStore, change_tree, junior_all, junior_message, junior_update,
}

module _ {P : Type 0} where
  -- What is recorded of one event, for the juniors and for an undo.
  unfoldable pub done : Event P → NodeUpdate (Change P)
  done (payload_changed path interim old new) = create_node_update path interim new
  done (entry_inserted path i key) = create_index_update path (insert_entry i key)
  done (entry_removed path i key) = create_index_update path (remove_entry i key)

  unfoldable pub undone : Event P → NodeUpdate (Change P)
  undone (payload_changed path interim old new) = create_node_update path interim old
  undone (entry_inserted path i key) = create_index_update path (remove_entry i key)
  undone (entry_removed path i key) = create_index_update path (insert_entry i key)

  unfoldable pub undone_all : List (Event P) → List (NodeUpdate (Change P))
  undone_all [] = []
  undone_all (e ∷ l) = undone_all l ++ undone e ∷ []

  unfoldable pub done_all : List (Event P) → List (NodeUpdate (Change P))
  done_all [] = []
  done_all (e ∷ l) = done e ∷ done_all l

  -- Not within an interim update, and not below the stacks.
  abbrev pub IsReplayed : Event P → Type 0
  IsReplayed (payload_changed path interim old new) = (interim ≡ false) × (in_stacks path ≡ false)
  IsReplayed (entry_inserted path i key) = in_stacks path ≡ false
  IsReplayed (entry_removed path i key) = in_stacks path ≡ false

  record_event-eq :
      (e : Event P) (a b : List (NodeUpdate (Change P)))
      → record_event e (a, b) ≡ (a ++ done e ∷ [], undone e ∷ b)
  unfolding record_event done undone
  record_event-eq (payload_changed path interim old new) a b = refl
  record_event-eq (entry_inserted path i key) a b = refl
  record_event-eq (entry_removed path i key) a b = refl

  pub record_all-eq :
      (l : List (Event P)) (a b : List (NodeUpdate (Change P)))
      → record_all l (a, b) ≡ (a ++ done_all l, undone_all l ++ b)
  unfolding record_all done_all undone_all
  record_all-eq [] a b = ap (λ x. (x, b)) (sym (append-nil a))
  record_all-eq (e ∷ l) a b =
      ap (record_all l) (record_event-eq e a b)
      ∙ record_all-eq l (a ++ done e ∷ []) (undone e ∷ b)
      ∙ rw (append_assoc, append_assoc) refl

and_then_run :
    {S : Type 0} (m : S × Status) (f : S → S × Status) (t u : S)
    → m ≡ (t, fine)
    → f t ≡ (u, fine)
    → and_then m f ≡ (u, fine)
unfolding and_then
and_then_run m f t u e h = ap (λ x. and_then x f) e ∙ h

pub and_then_done : {S : Type 0} (m : S × Status) → and_then m (λ s. (s, fine)) ≡ m
unfolding and_then
and_then_done (s, fine) = refl
and_then_done (s, bad_argument) = refl
and_then_done (s, bad_object) = refl
and_then_done (s, refused) = refl

module _ {T P : Type 0} (store : Store T P) where
  -- The event tells what happened to the tree.
  abbrev pub Happens : Event P → T → T → Type 0
  Happens (payload_changed path interim old new) t t' =
      (store.payload_at path t ≡ old)
      × (new ≡ none → store.is_leaf path t ≡ true)
      × (t' ≡ store.put path new t)
  Happens (entry_inserted path i key) t t' =
      (store.payload_at path t ≢ none)
      × (i ≤ length (store.index_at path t))
      × (t' ≡ store.insert_at path i key t)
  Happens (entry_removed path i key) t t' =
      (store.payload_at path t ≢ none)
      × (get_elem? (store.index_at path t) i ≡ some key)
      × (t' ≡ store.remove_at path i t)

  abbrev pub Trace : List (Event P) → T → T → Type 0
  Trace [] t t' = t ≡ t'
  Trace (e ∷ l) t t' = (mid : T) × Happens e t mid × Trace l mid t'

  is_some_of : (o : Option P) → o ≢ none → is_some o ≡ true
  is_some_of none h = absurd (h refl)
  is_some_of (some x) h = refl

  change-done :
      (e : Event P) (t t' : T)
      → Happens e t t'
      → change_tree store (done e).path (done e).change t ≡ (t', fine)
  unfolding change_tree done create_node_update create_index_update
  change-done (payload_changed path interim old new) t t' h = ap (λ x. (x, fine)) (sym h.2)
  change-done (entry_inserted path i key) t t' h =
      rw (is_some_of (store.payload_at path t) h.0) (ap (λ x. (x, fine)) (sym h.2))
  change-done (entry_removed path i key) t t' h =
      rw (is_some_of (store.payload_at path t) h.0) (ap (λ x. (x, fine)) (sym h.2))

  pub change-undone :
      IsStore store
      → (e : Event P) (t t' : T) → Happens e t t'
      → change_tree store (undone e).path (undone e).change t' ≡ (t, fine)
  unfolding change_tree undone create_node_update create_index_update
  change-undone laws (payload_changed path interim old new) t t' h =
      ap (λ x. (x, fine))
        (ap (λ x. store.put path old x) h.2
          ∙ ap (λ x. store.put path x (store.put path new t)) (sym h.0)
          ∙ laws.put_back path new t h.1)
  change-undone laws (entry_inserted path i key) t t' h =
      let there = is_some_of (store.payload_at path t) h.0 in
      rw (h.2, laws.payload-insert path i key t, there)
        (ap (λ x. (x, fine)) (laws.remove_inserted path i key t h.1))
  change-undone laws (entry_removed path i key) t t' h =
      let there = is_some_of (store.payload_at path t) h.0 in
      rw (h.2, laws.payload-remove path i t, there)
        (ap (λ x. (x, fine)) (laws.insert_removed path i key t h.1))

  -- A junior that runs what the senior has recorded.
  junior_all-done :
      (l : List (Event P)) (t t' : T) → Trace l t t' → junior_all store (done_all l) t ≡ (t', fine)
  unfolding junior_all done_all
  junior_all-done [] t t' h = ap (λ x. (x, fine)) h
  junior_all-done (e ∷ l) t t' (mid, h, r) =
      and_then_run _ _ _ _ (change-done e t mid h) (junior_all-done l mid t' r)

  junior_message-assembled :
      (l : List (NodeUpdate (Change P))) (t t' : T)
      → junior_all store l t ≡ (t', fine)
      → junior_message store (or_noop (assembled l)) t ≡ (t', fine)
  unfolding junior_message assembled or_noop junior_all
  junior_message-assembled [] t t' h = h
  junior_message-assembled (u ∷ []) t t' h = sym (and_then_done _) ∙ h
  junior_message-assembled (u ∷ v ∷ l) t t' h = h

  -- A junior peer that runs what the senior recorded of an update, on the tree that the senior had
  -- before it, gets the tree that the senior has after it, without an error: where the recorded
  -- events tell what happened to the tree.
  pub junior_update-senior_update :
      (key : String) (l : List (Event P)) (t t' : T)
      → Trace l t t'
      → junior_update store (senior_update key l) t ≡ (t', fine)
  unfolding junior_update senior_update
  junior_update-senior_update key l t t' h =
      let e : (record_all l ([], [])).0 ≡ done_all l =
        ap (λ (x : List (NodeUpdate (Change P)) × List (NodeUpdate (Change P))). x.0)
          (record_all-eq l [] []) in
      ap (λ x. junior_message store (or_noop (assembled x)) t) e
      ∙ junior_message-assembled (done_all l) t t' (junior_all-done l t t' h)
