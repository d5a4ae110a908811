-- ===== src/Undo/Tests.antt =====
-- Undo and redo run on small inputs, and the theorems at them.
use mathlib.Core.List.{reverse}
use zg_choir.Base.{
  ℕ, suc, ◌+◌, ◌-◌, ◌≡◌, refl, subst, true, false, none, some, List, [], ◌∷◌, arith, leb, ◌==◌,
  if◌then◌else◌,
}
use zg_choir.Assoc.{text_key, lookup, insert, erase}
use zg_choir.Undo.Sequences.{
  Status, fine, bad_argument, bad_object, Payload, Undoable, node_name, begin_sequence,
  end_sequence, but_last, last, end_of,
}
use zg_choir.Undo.Trim.{trim_stack}
use zg_choir.Undo.Travel.{NodeUpdate, single, batch, Log, replay_range, handle, in_stacks}
use zg_choir.Undo.Move.{move}
use zg_choir.Undo.Step.{
  begin_sequence_of, end_sequence_of, undo_of, node_update, Command, one, batch_of, nil, cons,
  travel, update,
}
use zg_choir.Undo.Kept.{IsKept, IsKept-mono}
use zg_choir.Undo.Nesting.{begin_sequence-IsKept, end_sequence-IsKept}
use zg_choir.Undo.Replay.{LeavesStacks}
use zg_choir.Undo.Updated.{update-IsKept}
use zg_choir.Undo.Back.{redo-undo}
use zg_choir.Undo.Turns.{numbers_from, replay_all, replay_range-replay_all}

-- A tree that is one list of numbers, to which an update adds its own.
abbrev apply : NodeUpdate ℕ → Undoable (List ℕ) → Undoable (List ℕ) × Status
apply u s = (record s { tree = u.change ∷ s.tree }, fine)

apply-LeavesStacks : LeavesStacks apply
apply-LeavesStacks u s h = (refl, refl)

abbrev node : ℕ → NodeUpdate ℕ
node n = record { path = "x"; interim = false; change = n }

-- An update that an undo passes over.
abbrev drag : NodeUpdate ℕ
drag = record { path = "x"; interim = true; change = 99 }

-- Transaction 2 is that of another client.
abbrev log : ℕ → Log ℕ
log now = record {
  contains = λ id. leb id 3;
  payload_of = λ id.
      if leb id 3
      then some (record {
        key = if id == 2 then "b" else "a";
        do_message = some (single (node id));
        undo_message = some (batch (drag ∷ node (10 + id) ∷ []));
      })
      else none;
  now = now;
}

abbrev empty : Undoable (List ℕ)
empty = record { undo = []; redo = []; tree = [] }

-- The sequence of the transactions 1 to 3, finished.
abbrev moves : Payload
moves = record { nest = 0; start_id = 1; end_id = some 3; label = some "Moves" }

abbrev finished_state : Undoable (List ℕ)
finished_state = record {
  undo = ("a", record { top = moves; index = moves ∷ [] }) ∷ [];
  redo = [];
  tree = [];
}

abbrev undone_state : Undoable (List ℕ)
undone_state = record {
  undo = [];
  redo = ("a", record { top = moves; index = moves ∷ [] }) ∷ [];
  tree = 11 ∷ 13 ∷ [];
}

abbrev redone_state : Undoable (List ℕ)
redone_state = record {
  undo = ("a", record { top = moves; index = moves ∷ [] }) ∷ [];
  redo = [];
  tree = 3 ∷ 1 ∷ 11 ∷ 13 ∷ [];
}

begin_then_end :
    (end_sequence 3 "a" (some "Moves") (begin_sequence 1 "a" none empty).0) ≡ (finished_state, fine)
unfolding begin_sequence end_sequence lookup insert erase node_name last but_last
begin_then_end = refl

end_without_begin : (end_sequence 3 "a" none empty).1 ≡ bad_argument
unfolding end_sequence lookup node_name
end_without_begin = refl

undo_runs : travel apply (log 4) false "a" finished_state ≡ (undone_state, fine)
unfolding travel lookup insert erase node_name last but_last end_of replay_range handle in_stacks
    move trim_stack
undo_runs = refl

redo_runs : travel apply (log 5) true "a" undone_state ≡ (redone_state, fine)
unfolding travel lookup insert erase node_name last but_last end_of replay_range handle in_stacks
    move trim_stack
redo_runs = refl

redo_of_nothing : (travel apply (log 4) true "a" finished_state).1 ≡ bad_object
unfolding travel lookup node_name
redo_of_nothing = refl

-- What is older than the log is forgotten.
trimmed_away : trim_stack (λ id. leb 2 id) 4 finished_state.undo ≡ []
unfolding trim_stack
trimmed_away = refl

empty-IsKept : (now : ℕ) → IsKept now empty
unfolding lookup
empty-IsKept now = record {
  undo_table = tt;
  redo_table = tt;
  clients = λ name. record { order = omega arith; undo_top = λ z. tt; redo_top = tt };
}

-- A client that begins and ends a sequence and undoes it, in one batch.
abbrev batched : Command ℕ
batched = batch_of (
    cons (one (begin_sequence_of "a" none)) (
      cons (one (node_update (node 7)))
        (cons (one (end_sequence_of "a" (some "Moves"))) (cons (one (undo_of "a")) nil))))

update-IsKept_example : IsKept 3 (update apply (log 3) batched empty).0
unfolding update lookup insert erase node_name in_stacks
update-IsKept_example =
    update-IsKept apply (log 3) batched empty apply-LeavesStacks (omega arith)
      (omega arith, (refl, (tt, (tt, tt)))) (empty-IsKept 3)

finished_state-IsKept : IsKept 4 finished_state
unfolding begin_sequence lookup node_name
finished_state-IsKept =
    let begun : IsKept 1 (begin_sequence 1 "a" none empty).0 =
      begin_sequence-IsKept 1 "a" none empty (omega arith) (omega arith) (empty-IsKept 1) in
    let later = IsKept-mono 1 3 (begin_sequence 1 "a" none empty).0 (omega arith) begun in
    let ended =
      end_sequence-IsKept 3 "a" (some "Moves") (begin_sequence 1 "a" none empty).0 later in
    IsKept-mono 3 4 finished_state (omega arith)
      (subst (λ (m : Undoable (List ℕ) × Status). IsKept 3 m.0) begin_then_end ended)

redo-undo_example :
    (lookup "a" redone_state.undo ≡ lookup "a" finished_state.undo)
    × (lookup "a" redone_state.redo ≡ lookup "a" finished_state.redo)
unfolding trim_stack
redo-undo_example =
    redo-undo apply (log 4) (log 5) "a" finished_state undone_state redone_state apply-LeavesStacks
      finished_state-IsKept refl refl undo_runs redo_runs "a"

replay_range-replay_all_example :
    replay_range apply (log 4) false "a" 1 3 3 (suc (3 - 1)) empty
    ≡ replay_all apply (log 4) false "a" (reverse (numbers_from 1 (suc (3 - 1)))) empty
replay_range-replay_all_example =
    replay_range-replay_all apply (log 4) "a" false 1 3 empty (omega arith)
