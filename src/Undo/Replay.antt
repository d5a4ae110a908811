-- ===== src/Undo/Replay.antt =====
-- What a replay leaves of the stacks: they are as they were, or the undo stack is trimmed.
use Prim.Native.String.{String}
use text.Mathlib.Text.{◌==◌ as str_eq}
use native.Mathlib.Nat.{sub-zero}
use zg_choir.Assoc.{text_key}
use zg_choir.Base.{
  ℕ, zero, suc, ◌+◌, ◌-◌, ◌<◌, ◌≡◌, refl, ap, ◌∙◌, Bool, true, false, Option, none, some, List, [],
  ◌∷◌, arith, ◌⊎◌, inl, inr, Bool-cases, if◌then◌else◌, if_inv,
}
use zg_choir.Undo.Sequences.{Status, fine, bad_argument, bad_object, refused, Undoable}
use zg_choir.Undo.Trim.{trim_stack, trimmed}
use zg_choir.Undo.Travel.{
  NodeUpdate, Recorded, noop, single, batch, Pair, Log, in_stacks, is_okay, and_then, message_of,
  log_has, handle, handle_all, replay, replay_option, replay_pair, replay_range,
}
use zg_choir.Undo.Kept.{IsKept}
use zg_choir.Undo.Trimming.{trim_stack_idem, trim_stack-IsKept}

-- What MUSCLE does with an update of a node outside the stacks leaves them alone.
abbrev pub LeavesStacks :
    {C T : Type 0} → (NodeUpdate C → Undoable T → Undoable T × Status) → Type 0
LeavesStacks {C} {T} apply =
    (u : NodeUpdate C) (s : Undoable T)
    → in_stacks u.path ≡ false
    → ((apply u s).0.undo ≡ s.undo) × ((apply u s).0.redo ≡ s.redo)

module _ {C T : Type 0} (log : Log C) where
  -- The stacks of the second state are those of the first, or the undo stack is trimmed.
  pub record Beside (s s' : Undoable T) : Type 0 where
    pub undo_beside : (s'.undo ≡ s.undo) ⊎ (s'.undo ≡ trim_stack log.contains log.now s.undo)
    pub redo_beside : s'.redo ≡ s.redo

  pub Beside-refl : (s : Undoable T) → Beside s s
  Beside-refl s = record { undo_beside = inl refl; redo_beside = refl }

  Beside-trans : (s t u : Undoable T) → Beside s t → Beside t u → Beside s u
  Beside-trans s t u a b = record {
    undo_beside = elim b.undo_beside [
      | inl e ↦ elim a.undo_beside [ inl f ↦ inl (e ∙ f) | inr f ↦ inr (e ∙ f) ]
      | inr e ↦ elim a.undo_beside [
        | inl f ↦ inr (e ∙ ap (trim_stack log.contains log.now) f)
        | inr f ↦ inr (
            e
            ∙ ap (trim_stack log.contains log.now) f
            ∙ trim_stack_idem log.contains log.now s.undo)
      ]
    ];
    redo_beside = b.redo_beside ∙ a.redo_beside;
  }

  and_then-Beside :
      (s : Undoable T) (m : Undoable T × Status) (f : Undoable T → Undoable T × Status)
      → Beside s m.0
      → ((t : Undoable T) → Beside t (f t).0)
      → Beside s (and_then m f).0
  unfolding and_then
  and_then-Beside s (t, fine) f h g = Beside-trans s t (f t).0 h (g t)
  and_then-Beside s (t, bad_argument) f h g = h
  and_then-Beside s (t, bad_object) f h g = h
  and_then-Beside s (t, refused) f h g = h

  trimmed-Beside :
      (s : Undoable T) (m : Undoable T × Status)
      → Beside s m.0
      → Beside s (trimmed log.contains log.now m).0
  unfolding trimmed
  trimmed-Beside s (t, fine) h =
      Beside-trans s t _ h (record { undo_beside = inr refl; redo_beside = refl })
  trimmed-Beside s (t, bad_argument) h = h
  trimmed-Beside s (t, bad_object) h = h
  trimmed-Beside s (t, refused) h = h

  pub Beside-IsKept : (now : ℕ) (s s' : Undoable T) → Beside s s' → IsKept now s → IsKept now s'
  Beside-IsKept now s s' b k = elim b.undo_beside [
    | inl e ↦ record {
      undo_table = rw e k.undo_table;
      redo_table = rw b.redo_beside k.redo_table;
      clients = λ name. rw (e, b.redo_beside) (k.clients name);
    }
    | inr e ↦
        let k' = trim_stack-IsKept log.contains log.now now s k in
        record {
          undo_table = rw e k'.undo_table;
          redo_table = rw b.redo_beside k'.redo_table;
          clients = λ name. rw (e, b.redo_beside) (k'.clients name);
        }
  ]

  module _ (apply : NodeUpdate C → Undoable T → Undoable T × Status)
      (leaves : LeavesStacks apply) where
    handle-Beside : (u : NodeUpdate C) (s : Undoable T) → Beside s (handle apply true u s).0
    unfolding handle is_okay
    handle-Beside u s = elim (Bool-cases (is_okay true u)) [
      | inl okay ↦ rw okay (
          let kept = leaves u s (ground (arith, okay)) in
          record { undo_beside = inl kept.0; redo_beside = kept.1 })
      | inr skipped ↦ rw skipped (Beside-refl s)
    ]

    handle_all-Beside :
        (l : List (NodeUpdate C)) (s : Undoable T) → Beside s (handle_all apply log l s).0
    unfolding handle_all
    handle_all-Beside [] s = Beside-refl s
    handle_all-Beside (u ∷ l) s =
        and_then-Beside s (trimmed log.contains log.now (handle apply true u s))
          (handle_all apply log l) (trimmed-Beside s (handle apply true u s) (handle-Beside u s))
          (handle_all-Beside l)

    replay_option-Beside :
        (o : Option (Recorded C)) (s : Undoable T) → Beside s (replay_option apply log o s).0
    unfolding replay_option replay
    replay_option-Beside none s = Beside-refl s
    replay_option-Beside (some noop) s = Beside-refl s
    replay_option-Beside (some (single u)) s = handle-Beside u s
    replay_option-Beside (some (batch l)) s = handle_all-Beside l s

    replay_pair-Beside :
        (is_redo : Bool) (key : String) (o : Option (Pair C)) (s : Undoable T)
        → Beside s (replay_pair apply log is_redo key o s).0
    unfolding replay_pair
    replay_pair-Beside is_redo key none s = Beside-refl s
    replay_pair-Beside is_redo key (some p) s =
        if_inv (λ (m : Undoable T × Status). Beside s m.0) (str_eq p.key key)
          (replay_option-Beside (message_of is_redo p) s) (Beside-refl s)

    pub replay_range-Beside :
        (is_redo : Bool) (key : String) (first final id n : ℕ) (s : Undoable T)
        → Beside s (replay_range apply log is_redo key first final id n s).0
    unfolding replay_range
    replay_range-Beside is_redo key first final id zero s = Beside-refl s
    replay_range-Beside is_redo key first final id (suc n) s =
        let trans = if is_redo then first + (final - id) else id in
        and_then-Beside s (replay_pair apply log is_redo key (log.payload_of trans) s)
          (replay_range apply log is_redo key first final (id - 1) n)
          (replay_pair-Beside is_redo key (log.payload_of trans) s)
          (λ t. replay_range-Beside is_redo key first final (id - 1) n t)

-- A log that has a run of transactions has the first of them.
pub log_has-contains :
    {C : Type 0} (log : Log C) (n id k : ℕ)
    → k < n
    → log_has log id n ≡ true
    → log.contains (id - k) ≡ true
unfolding log_has
log_has-contains log zero id k lt h = absurd (omega arith)
log_has-contains log (suc n) id zero lt h = elim (Bool-cases (log.contains id)) [
  | inl e ↦ rw sub-zero e
  | inr e ↦ ground (arith, e)
]
log_has-contains log (suc n) id (suc k) lt h =
    let e : id - suc k ≡ id - 1 - k = omega arith in
    rw e (log_has-contains log n (id - 1) k (omega arith) (rest h))
  where
    rest :
        (if log.contains id then log_has log (id - 1) n else false) ≡ true
        → log_has log (id - 1) n ≡ true
    rest g = ground arith
