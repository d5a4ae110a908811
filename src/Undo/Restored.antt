-- ===== src/Undo/Restored.antt =====
-- An undo that replays the records of a sequence takes the tree back.
use Prim.Native.String.{String}
use mathlib.Core.Path.{fun_ext}
use text.Mathlib.TextPositions.{eq_refl}
use mathlib.Core.List.{append-nil}
use zg_choir.Base.{
  ℕ, zero, suc, ◌+◌, ◌-◌, ◌<◌, ◌≤◌, ◌≡◌, refl, sym, subst, ap, ◌∙◌, Bool, true, false, some, List,
  [], ◌∷◌, ◌++◌, arith, ◌⊎◌, inl, inr, le→leb,
}
use zg_choir.Assoc.{text_key, lookup}
use zg_choir.Undo.Sequences.{
  Status, fine, bad_argument, bad_object, refused, Payload, Client, Undoable, node_name, end_of,
  last,
}
use zg_choir.Undo.Trim.{trimmed, trim_stack}
use zg_choir.Undo.Move.{source, with_source, move}
use zg_choir.Undo.Moving.{undo-move}
use zg_choir.Undo.Replay.{LeavesStacks, Beside, replay_range-Beside}
use zg_choir.Undo.Step.{travel_tail, travel_client, travel}
use zg_choir.Undo.Travel.{
  NodeUpdate, Log, in_stacks, is_okay, and_then, handle, handle_all, replay, replay_option,
  replay_pair, replay_range, log_has,
}
use zg_choir.Undo.Record.{
  Change, Event, payload_changed, entry_inserted, entry_removed, create_node_update,
  create_index_update, record_all, assembled, senior_update, Store, IsStore, change_tree,
  apply_update,
}
use zg_choir.Undo.Recorded.{
  undone, undone_all, record_all-eq, Happens, IsReplayed, change-undone, and_then_done,
}

module _ {T P : Type 0} (store : Store T P) (laws : IsStore store) where
  -- An update in an undo or a redo, outside the stacks and not an interim one.
  abbrev Plays : (Undoable T → Undoable T × Status) → T → T → Type 0
  Plays f t t' = (s : Undoable T) → s.tree ≡ t → ((f s).0.tree ≡ t') × ((f s).1 ≡ fine)

  Plays-then :
      (f g : Undoable T → Undoable T × Status) (t t' t'' : T)
      → Plays f t t'
      → Plays g t' t''
      → Plays (λ s. and_then (f s) g) t t''
  unfolding and_then
  Plays-then f g t t' t'' hf hg s e = let r = hf s e in by_status (f s) r.0 r.1
    where
      by_status :
          (m : Undoable T × Status)
          → m.0.tree ≡ t'
          → m.1 ≡ fine
          → ((and_then m g).0.tree ≡ t'') × ((and_then m g).1 ≡ fine)
      by_status (x, fine) a b = hg x a
      by_status (x, bad_argument) a b = absurd (cc b)
      by_status (x, bad_object) a b = absurd (cc b)
      by_status (x, refused) a b = absurd (cc b)

  trimmed_tree :
      (contains : ℕ → Bool) (now : ℕ) (m : Undoable T × Status)
      → ((trimmed contains now m).0.tree ≡ m.0.tree) × ((trimmed contains now m).1 ≡ m.1)
  unfolding trimmed
  trimmed_tree contains now (x, fine) = (refl, refl)
  trimmed_tree contains now (x, bad_argument) = (refl, refl)
  trimmed_tree contains now (x, bad_object) = (refl, refl)
  trimmed_tree contains now (x, refused) = (refl, refl)

  and_then_assoc :
      (m : Undoable T × Status) (f g : Undoable T → Undoable T × Status)
      → and_then (and_then m f) g ≡ and_then m (λ s. and_then (f s) g)
  unfolding and_then
  and_then_assoc (x, fine) f g = refl
  and_then_assoc (x, bad_argument) f g = refl
  and_then_assoc (x, bad_object) f g = refl
  and_then_assoc (x, refused) f g = refl

  undone-is_okay : (e : Event P) → IsReplayed e → is_okay true (undone e) ≡ true
  unfolding is_okay undone create_node_update create_index_update
  undone-is_okay (payload_changed path interim old new) h = rw (h.0, h.1) refl
  undone-is_okay (entry_inserted path i key) h = rw h refl
  undone-is_okay (entry_removed path i key) h = rw h refl

  Plays-handle :
      (e : Event P) (t t' : T)
      → IsReplayed e
      → Happens store e t t'
      → Plays (handle (apply_update store) true (undone e)) t' t
  unfolding handle apply_update
  Plays-handle e t t' o h s same =
      let c =
        ap (change_tree store (undone e).path (undone e).change) same
        ∙ change-undone store laws e t t' h in
      rw (undone-is_okay e o) (ap (λ m. m.0) c, ap (λ m. m.1) c)

  apply_leaves : LeavesStacks (apply_update store)
  unfolding apply_update
  apply_leaves u s h = (refl, refl)

  -- The path that an event is at.
  abbrev pub path_of : Event P → String
  path_of (payload_changed path interim old new) = path
  path_of (entry_inserted path i key) = path
  path_of (entry_removed path i key) = path

  -- An event below the stacks, as those that begin and end a sequence, leaves the rest of the tree
  -- alone; any other tells what happened to it, and is not within an interim update.
  abbrev pub Affects : Event P → T → T → Type 0
  Affects e t t' =
      ((in_stacks (path_of e) ≡ true) × (t' ≡ t)) ⊎ (IsReplayed e × Happens store e t t')

  -- What happened to the tree in a transaction.
  abbrev pub History : List (Event P) → T → T → Type 0
  History [] t t' = t ≡ t'
  History (e ∷ l) t t' = (mid : T) × Affects e t mid × History l mid t'

  undone-skipped : (e : Event P) → in_stacks (path_of e) ≡ true → is_okay true (undone e) ≡ false
  unfolding is_okay undone create_node_update create_index_update
  undone-skipped (payload_changed path true old new) h = refl
  undone-skipped (payload_changed path false old new) h = rw h refl
  undone-skipped (entry_inserted path i key) h = rw h refl
  undone-skipped (entry_removed path i key) h = rw h refl

  Plays-Affects :
      (e : Event P) (t t' : T)
      → Affects e t t'
      → Plays (handle (apply_update store) true (undone e)) t' t
  unfolding handle
  Plays-Affects e t t' (inl (below, kept)) s same = rw (undone-skipped e below) (same ∙ kept, refl)
  Plays-Affects e t t' (inr (replayed, happened)) s same =
      Plays-handle e t t' replayed happened s same

  module _ (log : Log (Change P)) where
    handle_all-nil : (s : Undoable T) → handle_all (apply_update store) log [] s ≡ (s, fine)
    unfolding handle_all
    handle_all-nil s = refl

    handle_all-append :
        (xs ys : List (NodeUpdate (Change P))) (s : Undoable T)
        → handle_all (apply_update store) log (xs ++ ys) s
          ≡ and_then
              (handle_all (apply_update store) log xs s)
              (handle_all (apply_update store) log ys)
    unfolding handle_all and_then
    handle_all-append [] ys s = refl
    handle_all-append (u ∷ xs) ys s =
        let m = trimmed log.contains log.now (handle (apply_update store) true u s) in
        ap (and_then m) (fun_ext (handle_all-append xs ys))
        ∙ sym (
            and_then_assoc m (handle_all (apply_update store) log xs)
              (handle_all (apply_update store) log ys))

    Plays-handle_one :
        (e : Event P) (t t' : T)
        → Affects e t t'
        → Plays (handle_all (apply_update store) log (undone e ∷ [])) t' t
    unfolding handle_all
    Plays-handle_one e t t' h s same =
        let m = handle (apply_update store) true (undone e) s in
        let r = Plays-Affects e t t' h s same in
        let k = trimmed_tree log.contains log.now m in
        rw (and_then_done (trimmed log.contains log.now m)) (k.0 ∙ r.0, k.1 ∙ r.1)

    Plays-handle_all :
        (l : List (Event P)) (t t' : T)
        → History l t t'
        → Plays (handle_all (apply_update store) log (undone_all l)) t' t
    unfolding undone_all
    Plays-handle_all [] t t' h s same = rw (handle_all-nil s) (same ∙ sym h, refl)
    Plays-handle_all (e ∷ l) t t' (mid, h, r) s same =
        rw (handle_all-append (undone_all l) (undone e ∷ []) s) (
          Plays-then (handle_all (apply_update store) log (undone_all l))
            (handle_all (apply_update store) log (undone e ∷ [])) t' mid t
            (Plays-handle_all l mid t' r) (Plays-handle_one e t mid h) s same)

    -- One update's own pair, replayed by an undo.
    Plays-assembled :
        (l : List (NodeUpdate (Change P))) (t t' : T)
        → Plays (handle_all (apply_update store) log l) t t'
        → Plays (replay_option (apply_update store) log (assembled l)) t t'
    unfolding replay_option replay assembled handle_all
    Plays-assembled [] t t' h s same = h s same
    Plays-assembled (u ∷ []) t t' h s same =
        let m = handle (apply_update store) true u s in
        let k = trimmed_tree log.contains log.now m in
        let e = and_then_done (trimmed log.contains log.now m) in
        let r = h s same in
        (
          sym k.0 ∙ ap (λ (x : Undoable T × Status). x.0.tree) (sym e) ∙ r.0,
          sym k.1 ∙ ap (λ (x : Undoable T × Status). x.1) (sym e) ∙ r.1,
        )
    Plays-assembled (u ∷ v ∷ l) t t' h s same = h s same

    Plays-pair :
        (key : String) (l : List (Event P)) (t t' : T)
        → History l t t'
        → Plays (replay_pair (apply_update store) log false key (some (senior_update key l))) t' t
    unfolding replay_pair senior_update
    Plays-pair key l t t' h =
        let e : (record_all l ([], [])).1 ≡ undone_all l =
          ap (λ (x : List (NodeUpdate (Change P)) × List (NodeUpdate (Change P))). x.1)
            (record_all-eq l [] [])
          ∙ append-nil (undone_all l) in
        rw (eq_refl key) (
          subst (λ x. Plays (replay_option (apply_update store) log (assembled x)) t' t) (sym e)
            (Plays-assembled (undone_all l) t' t (Plays-handle_all l t t' h)))

    -- The senior's record of what a client did in each of `n` transactions from `first` on, between
    -- the trees `tree`.
    abbrev pub IsLogged : String → ℕ → ℕ → (ℕ → T) → Type 0
    IsLogged key first n tree =
        (k : ℕ)
        → k < n
        → (l : List (Event P)) × (log.payload_of (first + k) ≡ some (senior_update key l))
          × History l (tree k) (tree (suc k))

    -- The loop over the transactions takes the tree back to before the first of them.
    replay_range-back :
        (key : String) (first final : ℕ) (n : ℕ) (tree : ℕ → T)
        → IsLogged key first n tree
        → (s : Undoable T) → s.tree ≡ tree n
        → let r = replay_range (apply_update store) log false key first final (first + n - 1) n s in
          (r.0.tree ≡ tree 0) × (r.1 ≡ fine)
    unfolding replay_range
    replay_range-back key first final zero tree h s e = (e, refl)
    replay_range-back key first final (suc n) tree h s e =
        let (l, there, trace) = h n (omega arith) in
        let id : first + suc n - 1 ≡ first + n = omega arith in
        rw (id, there)
          (Plays-then (replay_pair (apply_update store) log false key (some (senior_update key l)))
            (replay_range (apply_update store) log false key first final (first + n - 1) n)
            (tree (suc n)) (tree n) (tree 0) (Plays-pair key l (tree n) (tree (suc n)) trace)
            (replay_range-back key first final n tree (λ k lt. h k (omega arith))) s e)

    move-restores :
        (key : String) (p : Payload) (c : Client) (s t : Undoable T)
        → lookup (node_name key) s.undo ≡ some c
        → trim_stack log.contains log.now s.undo ≡ s.undo
        → Beside log s t
        → ((move false (node_name key) p t).0.tree ≡ t.tree)
          × ((move false (node_name key) p t).1 ≡ fine)
    unfolding with_source
    move-restores key p c s t found fixed b =
        let same : t.undo ≡ s.undo = elim b.undo_beside [ inl e ↦ e | inr e ↦ e ∙ fixed ] in
        let e = undo-move (node_name key) p c t (ap (lookup (node_name key)) same ∙ found) in
        (ap (λ (m : Undoable T × Status). m.0.tree) e, ap (λ (m : Undoable T × Status). m.1) e)

    and_then-restores :
        (m : Undoable T × Status) (f : Undoable T → Undoable T × Status) (t : T)
        → m.0.tree ≡ t
        → m.1 ≡ fine
        → ((f m.0).0.tree ≡ m.0.tree) × ((f m.0).1 ≡ fine)
        → ((and_then m f).0.tree ≡ t) × ((and_then m f).1 ≡ fine)
    unfolding and_then
    and_then-restores (x, fine) f t a b h = (h.0 ∙ a, h.1)
    and_then-restores (x, bad_argument) f t a b h = absurd (cc b)
    and_then-restores (x, bad_object) f t a b h = absurd (cc b)
    and_then-restores (x, refused) f t a b h = absurd (cc b)

    -- An undo succeeds, and takes the tree outside the stacks back to what it was before the
    -- client's last sequence: where that sequence has ended, the log has each of its transactions,
    -- those included that began and ended it, with the pair that the senior recorded for this
    -- client of what happened in it, nothing outside the stacks was an interim update, and the
    -- tree is as after the last one. The undo stack needs no trimming, and the store of nodes is
    -- one in which a change can be taken back.
    pub travel-restores :
        (key : String) (c : Client) (p : Payload) (tree : ℕ → T) (s : Undoable T)
        → lookup (node_name key) s.undo ≡ some c
        → last c.index ≡ some p
        → p.start_id ≤ end_of p
        → log_has log (end_of p) (suc (end_of p - p.start_id)) ≡ true
        → IsLogged key p.start_id (suc (end_of p - p.start_id)) tree
        → s.tree ≡ tree (suc (end_of p - p.start_id))
        → trim_stack log.contains log.now s.undo ≡ s.undo
        → ((travel (apply_update store) log false key s).0.tree ≡ tree 0)
          × ((travel (apply_update store) log false key s).1 ≡ fine)
    unfolding travel travel_client travel_tail source
    travel-restores key c p tree s found at_end ended there logged now_at fixed =
        let final = end_of p in
        let rounds = suc (final - p.start_id) in
        let from_end : p.start_id + rounds - 1 ≡ final = omega arith in
        let back =
          subst
            (λ id.
              let r =
                replay_range (apply_update store) log false key p.start_id final id rounds s in
              (r.0.tree ≡ tree 0) × (r.1 ≡ fine))
            from_end (replay_range-back key p.start_id final rounds tree logged s now_at) in
        rw (found, at_end, le→leb p.start_id final ended, there)
          (and_then-restores
            (replay_range (apply_update store) log false key p.start_id final final rounds s)
            (move false (node_name key) p) (tree 0) back.0 back.1
            (move-restores key p c s _ found fixed (
              replay_range-Beside log (apply_update store) apply_leaves false key p.start_id final
                final rounds s)))
