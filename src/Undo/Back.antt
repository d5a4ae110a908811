-- ===== src/Undo/Back.antt =====
-- A redo gives back what an undo has moved.
use Prim.Native.String.{String}
use zg_choir.Base.{
  ℕ, suc, ◌-◌, ◌≤◌, ◌≡◌, refl, sym, subst, ap, ◌∙◌, Bool, true, false, Option, none, some, List, [],
  ◌∷◌, ◌++◌, inl, inr, Bool-cases, if◌then◌else◌, leb, leb→le,
}
use zg_choir.Assoc.{text_key, lookup}
use zg_choir.Assoc.Laws.{same-cases}
use zg_choir.Assoc.Distinct.{IsTable}
use zg_choir.Undo.Sequences.{
  Status, fine, bad_argument, bad_object, refused, Payload, Client, Stack, Undoable, node_name,
  end_of, but_last, last,
}
use zg_choir.Undo.Trim.{trim_stack}
use zg_choir.Undo.Travel.{NodeUpdate, Log, and_then, log_has, replay_range}
use zg_choir.Undo.Move.{source, move, popped, pushed}
use zg_choir.Undo.Step.{travel_tail, travel_client, travel}
use zg_choir.Undo.Order.{last-append, but_last-append, eq-but_last}
use zg_choir.Undo.Kept.{index_of, AtTop, Fits, IsKept}
use zg_choir.Undo.Moving.{
  less, more, lookup-popped, lookup-popped_other, lookup-pushed, lookup-pushed_other, undo-move,
  redo-move, IsOrdered-finished, index_of-less,
}
use zg_choir.Undo.Replay.{LeavesStacks, Beside, replay_range-Beside}
use zg_choir.Undo.Updated.{travel-IsKept}

and_then_fine :
    {S : Type 0} (m : S × Status) (f : S → S × Status) (t : S)
    → and_then m f ≡ (t, fine)
    → f m.0 ≡ (t, fine)
unfolding and_then
and_then_fine (x, fine) f t h = h
and_then_fine (x, bad_argument) f t h = cc
and_then_fine (x, bad_object) f t h = cc
and_then_fine (x, refused) f t h = cc

module _ {C T : Type 0} (apply : NodeUpdate C → Undoable T → Undoable T × Status)
    (log : Log C) where
  -- What an undo or a redo without an error has done: it has replayed, and then moved the last
  -- sequence of the client.
  record Traveled (is_redo : Bool) (key : String) (s t : Undoable T) : Type 0 where
    pub client : Client
    pub sequence : Payload
    pub middle : Undoable T
    pub found : lookup (node_name key) (source is_redo s) ≡ some client
    pub at_end : last client.index ≡ some sequence
    pub has_ended : sequence.start_id ≤ end_of sequence
    pub beside : Beside log s middle
    pub moved : move is_redo (node_name key) sequence middle ≡ (t, fine)

  module _ (leaves : LeavesStacks apply) where
    travel_tail-Traveled :
        (is_redo : Bool) (key : String) (c : Client) (o : Option Payload) (s t : Undoable T)
        → lookup (node_name key) (source is_redo s) ≡ some c
        → last c.index ≡ o
        → travel_tail apply log is_redo key o s ≡ (t, fine)
        → Traveled is_redo key s t
    unfolding travel_tail
    travel_tail-Traveled is_redo key c none s t e l h = absurd (cc h)
    travel_tail-Traveled is_redo key c (some p) s t e l h =
        elim (Bool-cases (leb p.start_id (end_of p))) [
          | inr never ↦ absurd (cc (rw never at h))
          | inl ended ↦ in_log ended (rw ended at h)
        ]
      where
        final : ℕ
        final = end_of p

        rounds : ℕ
        rounds = suc (final - p.start_id)

        m : Undoable T × Status
        m = replay_range apply log is_redo key p.start_id final final rounds s

        in_log :
            leb p.start_id (end_of p) ≡ true
            → (if log_has log final rounds
                then and_then m (move is_redo (node_name key) p)
                else (s, bad_object))
              ≡ (t, fine)
            → Traveled is_redo key s t
        in_log ended g = elim (Bool-cases (log_has log final rounds)) [
          | inr gone ↦ absurd (cc (rw gone at g))
          | inl there ↦ record {
            client = c;
            sequence = p;
            middle = m.0;
            found = e;
            at_end = l;
            has_ended = leb→le p.start_id final ended;
            beside =
                replay_range-Beside log apply leaves is_redo key p.start_id final final rounds s;
            moved = and_then_fine m (move is_redo (node_name key) p) t (rw there at g);
          }
        ]

    travel-Traveled :
        (is_redo : Bool) (key : String) (o : Option Client) (s t : Undoable T)
        → lookup (node_name key) (source is_redo s) ≡ o
        → travel_client apply log is_redo key o s ≡ (t, fine)
        → Traveled is_redo key s t
    unfolding travel_client
    travel-Traveled is_redo key none s t e h = absurd (cc h)
    travel-Traveled is_redo key (some c) s t e h =
        travel_tail-Traveled is_redo key c (last c.index) s t e refl h

less-last : (o : Option Client) → AtTop o → less (index_of o) (last (index_of o)) ≡ o
unfolding last
less-last none h = refl
less-last (some c) h = rw h refl

module _ {C T : Type 0} (apply : NodeUpdate C → Undoable T → Undoable T × Status) (log : Log C)
    (key : String) (s t : Undoable T)
    (fixed : trim_stack log.contains log.now s.undo ≡ s.undo) where
  undo_middle : (m : Undoable T) → Beside log s m → m.undo ≡ s.undo
  undo_middle m b = elim b.undo_beside [ inl e ↦ e | inr e ↦ e ∙ fixed ]

  -- The stacks after an undo or a redo where the log still has every sequence of the undo stack.
  stacks-undo :
      (v : Traveled apply log false key s t)
      → let rest = but_last v.client.index in
        (t.undo ≡ popped (node_name key) rest (last rest) s.undo)
        × (t.redo ≡ pushed (node_name key) v.sequence s.redo)
  unfolding source
  stacks-undo v =
      let same = undo_middle v.middle v.beside in
      let rest = but_last v.client.index in
      let e =
        sym v.moved
        ∙ undo-move (node_name key) v.sequence v.client v.middle
            (ap (lookup (node_name key)) same ∙ v.found) in
      (
        ap (λ (m : Undoable T × Status). m.0.undo) e
            ∙ ap (popped (node_name key) rest (last rest)) same,
        ap (λ (m : Undoable T × Status). m.0.redo) e
            ∙ ap (pushed (node_name key) v.sequence) v.beside.redo_beside,
      )

  stacks-redo :
      (v : Traveled apply log true key s t)
      → let rest = but_last v.client.index in
        (t.redo ≡ popped (node_name key) rest (last rest) s.redo)
        × (t.undo ≡ pushed (node_name key) v.sequence s.undo)
  unfolding source
  stacks-redo v =
      let same = undo_middle v.middle v.beside in
      let rest = but_last v.client.index in
      let e =
        sym v.moved
        ∙ redo-move (node_name key) v.sequence v.client v.middle
            (ap (lookup (node_name key)) v.beside.redo_beside ∙ v.found) in
      (
        ap (λ (m : Undoable T × Status). m.0.redo) e
            ∙ ap (popped (node_name key) rest (last rest)) v.beside.redo_beside,
        ap (λ (m : Undoable T × Status). m.0.undo) e ∙ ap (pushed (node_name key) v.sequence) same,
      )

-- A sequence that goes to a stack and comes back leaves both lookups as they were.
module _ (name : String) (p : Payload) (c : Client) (a b : Stack) where
  round_trip :
      (a' b' : Stack) (d : Client) (q : Payload)
      → IsTable a
      → IsTable b'
      → let rest = but_last c.index in
        lookup name a ≡ some c
        → last c.index ≡ some p
        → c.top ≡ p
        → AtTop (lookup name b)
        → a' ≡ popped name rest (last rest) a
        → b' ≡ pushed name p b
        → lookup name b' ≡ some d
        → last d.index ≡ some q
        → (n : String)
        → (lookup n (pushed name q a') ≡ lookup n a)
          × (lookup n (popped name (but_last d.index) (last (but_last d.index)) b') ≡ lookup n b)
  round_trip a' b' d q ta tb found ends top shown ea eb found' ends' n = elim (same-cases name n) [
    | inl e ↦
        subst
          (λ x.
            (lookup x (pushed name q a') ≡ lookup x a)
            × (lookup x (popped name (but_last d.index) (last (but_last d.index)) b') ≡ lookup x b))
          e
          (
            lookup-pushed name q a'
                ∙ ap (more q) (ap (lookup name) ea ∙ lookup-popped name rest (last rest) a ta)
                ∙ ap (λ x. more x (less rest (last rest))) back
                ∙ ap (λ (x : List Payload). some (record { top = p; index = x ++ p ∷ [] }))
                    (index_of-less rest)
                ∙ ap (λ (x : List Payload). some (record { top = p; index = x }))
                    (sym (eq-but_last c.index p ends))
                ∙ ap (λ (x : Payload). some (record { top = x; index = c.index })) (sym top)
                ∙ sym found,
            lookup-popped name (but_last d.index) (last (but_last d.index)) b' tb
                ∙ ap (λ (x : List Payload). less x (last x)) front
                ∙ less-last (lookup name b) shown,
          )
    | inr e ↦ (
      lookup-pushed_other name n q a' e
          ∙ ap (lookup n) ea
          ∙ lookup-popped_other name n rest (last rest) a e,
      lookup-popped_other name n (but_last d.index) (last (but_last d.index)) b' e
          ∙ ap (lookup n) eb
          ∙ lookup-pushed_other name n p b e,
    )
  ]
    where
      rest : List Payload
      rest = but_last c.index

      pushed_index : d.index ≡ index_of (lookup name b) ++ p ∷ []
      pushed_index = ap index_of (sym found' ∙ ap (lookup name) eb ∙ lookup-pushed name p b)

      back : q ≡ p
      back =
          let e : some q ≡ some p =
            sym ends' ∙ ap last pushed_index ∙ last-append (index_of (lookup name b)) p in
          cc e

      front : but_last d.index ≡ index_of (lookup name b)
      front = ap but_last pushed_index ∙ but_last-append (index_of (lookup name b)) p

-- An undo and then a redo, both without an error, leave every client the undo stack and the redo
-- stack that it had: where the stacks were in order, the log still has each sequence of the undo
-- stack at both times, and what is below handles an update outside the stacks without changing
-- them.
pub redo-undo :
    {C T : Type 0} (apply : NodeUpdate C → Undoable T → Undoable T × Status) (log log' : Log C)
    (key : String) (s t u : Undoable T)
    → LeavesStacks apply
    → IsKept log.now s
    → trim_stack log.contains log.now s.undo ≡ s.undo
    → trim_stack log'.contains log'.now t.undo ≡ t.undo
    → travel apply log false key s ≡ (t, fine)
    → travel apply log' true key t ≡ (u, fine)
    → (name : String)
    → (lookup name u.undo ≡ lookup name s.undo) × (lookup name u.redo ≡ lookup name s.redo)
unfolding travel source
redo-undo {C} {T} apply log log' key s t u leaves k fixed fixed' there back name =
    let node = node_name key in
    let v : Traveled apply log false key s t =
      travel-Traveled apply log leaves false key (lookup node s.undo) s t refl there in
    let w : Traveled apply log' true key t u =
      travel-Traveled apply log' leaves true key (lookup node t.redo) t u refl back in
    let go = stacks-undo apply log key s t fixed v in
    let come = stacks-redo apply log' key t u fixed' w in
    let kept : IsKept log.now t =
      subst (λ (m : Undoable T × Status). IsKept log.now m.0) there
        (travel-IsKept apply log leaves false key s k) in
    let f : Fits log.now (some v.client) (lookup node s.redo) =
      subst (λ x. Fits log.now x (lookup node s.redo)) v.found (k.clients node) in
    let done =
      IsOrdered-finished v.client.top.nest log.now v.client.index (index_of (lookup node s.redo))
        v.sequence v.at_end v.has_ended f.order in
    let top : some v.client.top ≡ some v.sequence = sym (f.undo_top done.0) ∙ v.at_end in
    rw (come.1, come.0)
      (round_trip node v.sequence v.client s.undo s.redo t.undo t.redo w.client w.sequence
        k.undo_table kept.redo_table v.found v.at_end (cc top) f.redo_top go.0 go.1 w.found w.at_end
        name)
