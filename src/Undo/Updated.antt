-- ===== src/Undo/Updated.antt =====
-- Every update keeps what the two stacks keep: `SeniorMessageTreeUpdate`.
use Prim.Native.String.{String}
use zg_choir.Base.{
  ℕ, suc, ◌+◌, ◌-◌, ◌^◌, ◌≤◌, ◌<◌, ◌≡◌, refl, subst, ap, ◌∙◌, Bool, true, false, Option, none, some,
  List, [], ◌∷◌, ◌++◌, arith, inl, inr, Bool-cases, leb, leb→le,
}
use zg_choir.Assoc.{text_key, lookup}
use zg_choir.Undo.Sequences.{
  Status, fine, bad_argument, bad_object, refused, Payload, Client, Undoable, node_name, end_of,
  but_last, last,
}
use zg_choir.Undo.Trim.{is_stale, trim_index, trimmed}
use zg_choir.Undo.Travel.{
  NodeUpdate, Log, in_stacks, is_okay, and_then, log_has, handle, replay_range,
}
use zg_choir.Undo.Move.{source, move}
use zg_choir.Undo.Step.{
  Single, begin_sequence_of, end_sequence_of, undo_of, redo_of, node_update, Command, one, batch_of,
  Commands, nil, cons, travel_tail, travel_client, travel, update_aux, update, update_all,
}
use zg_choir.Undo.Order.{last-append, eq-but_last, trim_index_keeps}
use zg_choir.Undo.Kept.{nest_of, IsKept}
use zg_choir.Undo.Nesting.{begin_sequence-IsKept, end_sequence-IsKept}
use zg_choir.Undo.Trimming.{client_with, trim_client, lookup-trim_stack, trim_stack-IsKept}
use zg_choir.Undo.Moving.{move-undo_IsKept, move-redo_IsKept}
use zg_choir.Undo.Replay.{
  LeavesStacks, Beside, Beside-IsKept, replay_range-Beside, log_has-contains,
}

module _ {T : Type 0} (now : ℕ) where
  pub and_then-IsKept :
      (m : Undoable T × Status) (f : Undoable T → Undoable T × Status)
      → IsKept now m.0
      → (IsKept now m.0 → IsKept now (f m.0).0)
      → IsKept now (and_then m f).0
  unfolding and_then
  and_then-IsKept (t, fine) f h g = g h
  and_then-IsKept (t, bad_argument) f h g = h
  and_then-IsKept (t, bad_object) f h g = h
  and_then-IsKept (t, refused) f h g = h

  trimmed-IsKept :
      (contains : ℕ → Bool) (m : Undoable T × Status)
      → IsKept now m.0
      → IsKept now (trimmed contains now m).0
  unfolding trimmed
  trimmed-IsKept contains (t, fine) h = trim_stack-IsKept contains now now t h
  trimmed-IsKept contains (t, bad_argument) h = h
  trimmed-IsKept contains (t, bad_object) h = h
  trimmed-IsKept contains (t, refused) h = h

-- What is asked of a command: a client begins no sequence at the largest nest count, and it does
-- not itself write below the stacks.
abbrev pub Allowed : {C T : Type 0} → Single C → Undoable T → Type 0
Allowed (begin_sequence_of key label) s = nest_of (lookup (node_name key) s.undo) + 1 < 2 ^ 32
Allowed (node_update u) s = in_stacks u.path ≡ false
Allowed _ s = Unit

-- The sequence at the end of an index is at the end of the client who is left of a trim, where the
-- log has its first transaction.
trim_client-last :
    (contains : ℕ → Bool) (now : ℕ) (c : Client) (p : Payload)
    → last c.index ≡ some p
    → contains p.start_id ≡ true
    → (d : Client) × (trim_client contains now (some c) ≡ some d) × (last d.index ≡ some p)
unfolding is_stale last
trim_client-last contains now c p e h = left (trim_index contains now c.index) ends
  where
    front : List Payload
    front = trim_index contains now (but_last c.index)

    ends : trim_index contains now c.index ≡ front ++ p ∷ []
    ends =
        ap (trim_index contains now) (eq-but_last c.index p e)
        ∙ trim_index_keeps contains now (but_last c.index) p (ground (arith, h))

    left :
        (l : List Payload)
        → l ≡ front ++ p ∷ []
        → (d : Client) × (client_with c.top l ≡ some d) × (last d.index ≡ some p)
    left [] e' = absurd (let z : none ≡ some p = ap last e' ∙ last-append front p in cc z)
    left (q ∷ l) e' =
        (record { top = c.top; index = q ∷ l }, refl, ap last e' ∙ last-append front p)

module _ {C T : Type 0} (apply : NodeUpdate C → Undoable T → Undoable T × Status) (log : Log C)
    (leaves : LeavesStacks apply) where
  -- After a replay, the client still has the sequence at the end.
  found_after :
      (name : String) (c : Client) (p : Payload) (s s' : Undoable T)
      → IsKept log.now s
      → Beside log s s'
      → lookup name s.undo ≡ some c
      → last c.index ≡ some p
      → log.contains p.start_id ≡ true
      → (d : Client) × (lookup name s'.undo ≡ some d) × (last d.index ≡ some p)
  found_after name c p s s' k b e h l = elim b.undo_beside [
    | inl same ↦ (c, ap (lookup name) same ∙ e, h)
    | inr cut ↦
        let (d, found, ends) = trim_client-last log.contains log.now c p h l in
        (
          d,
          ap (lookup name) cut
              ∙ lookup-trim_stack log.contains log.now name s.undo k.undo_table
              ∙ ap (trim_client log.contains log.now) e
              ∙ found,
          ends,
        )
  ]

  move_after :
      (is_redo : Bool) (name : String) (c : Client) (p : Payload) (s s' : Undoable T)
      → IsKept log.now s
      → Beside log s s'
      → lookup name (source is_redo s) ≡ some c
      → last c.index ≡ some p
      → p.start_id ≤ end_of p
      → log.contains p.start_id ≡ true
      → IsKept log.now (move is_redo name p s').0
  unfolding source
  move_after true name c p s s' k b e h le l =
      move-redo_IsKept log.now name p c s' (ap (lookup name) b.redo_beside ∙ e) h
        (Beside-IsKept log log.now s s' b k)
  move_after false name c p s s' k b e h le l =
      let (d, found, ends) = found_after name c p s s' k b e h l in
      move-undo_IsKept log.now name p d s' found ends le (Beside-IsKept log log.now s s' b k)

  travel_tail-IsKept :
      (is_redo : Bool) (key : String) (c : Client) (o : Option Payload) (s : Undoable T)
      → IsKept log.now s
      → lookup (node_name key) (source is_redo s) ≡ some c
      → last c.index ≡ o
      → IsKept log.now (travel_tail apply log is_redo key o s).0
  unfolding travel_tail
  travel_tail-IsKept is_redo key c none s k e h = k
  travel_tail-IsKept is_redo key c (some p) s k e h =
      elim (Bool-cases (leb p.start_id (end_of p))) [
        | inr never ↦ rw never k
        | inl ended ↦ rw ended (elim (Bool-cases (log_has log final rounds)) [
          | inr gone ↦ rw gone k
          | inl there ↦ rw there (
              let m = replay_range apply log is_redo key p.start_id final final rounds s in
              let b : Beside log s m.0 =
                replay_range-Beside log apply leaves is_redo key p.start_id final final rounds s in
              let le = leb→le p.start_id final ended in
              and_then-IsKept log.now m (move is_redo (node_name key) p)
                (Beside-IsKept log log.now s m.0 b k)
                (λ _. move_after is_redo (node_name key) c p s m.0 k b e h le (
                  let back : final - (final - p.start_id) ≡ p.start_id = omega arith in
                  subst (λ x. log.contains x ≡ true) back
                    (log_has-contains log rounds final (final - p.start_id) (omega arith) there))))
        ])
      ]
    where
      final : ℕ
      final = end_of p

      rounds : ℕ
      rounds = suc (final - p.start_id)

  travel_client-IsKept :
      (is_redo : Bool) (key : String) (o : Option Client) (s : Undoable T)
      → IsKept log.now s
      → lookup (node_name key) (source is_redo s) ≡ o
      → IsKept log.now (travel_client apply log is_redo key o s).0
  unfolding travel_client
  travel_client-IsKept is_redo key none s k e = k
  travel_client-IsKept is_redo key (some c) s k e =
      travel_tail-IsKept is_redo key c (last c.index) s k e refl

  pub travel-IsKept :
      (is_redo : Bool) (key : String) (s : Undoable T)
      → IsKept log.now s
      → IsKept log.now (travel apply log is_redo key s).0
  unfolding travel
  travel-IsKept is_redo key s k = travel_client-IsKept is_redo key _ s k refl

  update_aux-IsKept :
      (c : Single C) (s : Undoable T)
      → 0 < log.now
      → Allowed c s
      → IsKept log.now s
      → IsKept log.now (update_aux apply log c s).0
  unfolding update_aux handle is_okay
  update_aux-IsKept (begin_sequence_of key label) s z a k =
      begin_sequence-IsKept log.now key label s z a k
  update_aux-IsKept (end_sequence_of key label) s z a k = end_sequence-IsKept log.now key label s k
  update_aux-IsKept (undo_of key) s z a k = travel-IsKept false key s k
  update_aux-IsKept (redo_of key) s z a k = travel-IsKept true key s k
  update_aux-IsKept (node_update u) s z a k =
      let kept = leaves u s a in
      Beside-IsKept log log.now s (apply u s).0
        (record { undo_beside = inl kept.0; redo_beside = kept.1 }) k

-- The same of every command of a batch, in the state in which it is run.
abbrev mutual
  pub AllowedIn :
      {C T : Type 0}
      → (NodeUpdate C → Undoable T → Undoable T × Status)
      → Log C
      → Command C
      → Undoable T
      → Type 0
  AllowedIn apply log (one c) s = Allowed c s
  AllowedIn apply log (batch_of l) s = AllowedAll apply log l s

  pub AllowedAll :
      {C T : Type 0}
      → (NodeUpdate C → Undoable T → Undoable T × Status)
      → Log C
      → Commands C
      → Undoable T
      → Type 0
  AllowedAll apply log nil s = Unit
  AllowedAll apply log (cons c l) s =
      AllowedIn apply log c s × AllowedAll apply log l (update apply log c s).0

mutual
  unfolding update

  one_update-IsKept :
      {C T : Type 0} (c : Command C) (apply : NodeUpdate C → Undoable T → Undoable T × Status)
      (log : Log C) (s : Undoable T)
      → LeavesStacks apply
      → 0 < log.now
      → AllowedIn apply log c s
      → IsKept log.now s
      → IsKept log.now (update apply log c s).0
  one_update-IsKept (one c) apply log s leaves z a k =
      trimmed-IsKept log.now log.contains (update_aux apply log c s)
        (update_aux-IsKept apply log leaves c s z a k)
  one_update-IsKept (batch_of l) apply log s leaves z a k =
      trimmed-IsKept log.now log.contains (update_all apply log l s)
        (all_updates-IsKept l apply log s leaves z a k)

  all_updates-IsKept :
      {C T : Type 0} (l : Commands C) (apply : NodeUpdate C → Undoable T → Undoable T × Status)
      (log : Log C) (s : Undoable T)
      → LeavesStacks apply
      → 0 < log.now
      → AllowedAll apply log l s
      → IsKept log.now s
      → IsKept log.now (update_all apply log l s).0
  all_updates-IsKept nil apply log s leaves z a k = k
  all_updates-IsKept (cons c l) apply log s leaves z a k =
      and_then-IsKept log.now (update apply log c s) (update_all apply log l)
        (one_update-IsKept c apply log s leaves z a.0 k)
        (λ k'. all_updates-IsKept l apply log (update apply log c s).0 leaves z a.1 k')

-- Every command of the undo stack's database, and every batch of commands, keeps both stacks in
-- order, also where it fails. Each client's finished sequences on the undo stack and the reversed
-- redo stack follow one another in the database's states, at most one sequence is unfinished, it
-- is the last, and then the client has nothing to redo; a client's node shows its last sequence.
-- Conditions: what is below handles an update outside the stacks without changing them, clients
-- write nothing below the stacks, and no nest count passes 2 ^ 32 - 1.
pub update-IsKept :
    {C T : Type 0} (apply : NodeUpdate C → Undoable T → Undoable T × Status) (log : Log C)
    (c : Command C) (s : Undoable T)
    → LeavesStacks apply
    → 0 < log.now
    → AllowedIn apply log c s
    → IsKept log.now s
    → IsKept log.now (update apply log c s).0
update-IsKept apply log c s leaves z a k = one_update-IsKept c apply log s leaves z a k
