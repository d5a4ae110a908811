-- ===== src/Undo/Move.antt =====
-- A sequence that has been undone goes to the redo stack, and one that has been done again comes
-- back: the end of `UNDOSTACK_COMMAND_UNDO` and `UNDOSTACK_COMMAND_REDO` in
-- src/messagetree/server/UndoStackMessageTreeDatabaseObject.cpp.
use Prim.Native.String.{String}
use zg_choir.Base.{Bool, true, false, not, Option, none, some, List, [], ◌∷◌, ◌++◌}
use zg_choir.Assoc.{text_key, lookup, insert, erase}
use zg_choir.Undo.Sequences.{
  Status, fine, bad_object, Payload, Client, Stack, Undoable, new_client, but_last, last,
}

module _ {T : Type 0} where
  -- The stack that a command takes from: for the other one, negate the flag.
  unfoldable pub source : Bool → Undoable T → Stack
  source true s = s.redo
  source false s = s.undo

  unfoldable pub with_source : Bool → Stack → Undoable T → Undoable T
  with_source true l s = record s { redo = l }
  with_source false l s = record s { undo = l }

-- A client whose last sequence is gone shows the one before it, or is removed.
unfoldable pub popped : String → List Payload → Option Payload → Stack → Stack
popped name rest none l = erase name l
popped name rest (some p) l = insert name (record { top = p; index = rest }) l

unfoldable pub client_or_new : Option Client → Client
client_or_new none = new_client
client_or_new (some c) = c

-- The sequence becomes the last one of the client, who is created where there is none.
unfoldable pub pushed : String → Payload → Stack → Stack
unfolding client_or_new
pushed name p l =
    let c = client_or_new (lookup name l) in
    insert name (record { top = p; index = c.index ++ p ∷ [] }) l

module _ {T : Type 0} where
  unfoldable pub pop_and_push :
      Bool → String → Payload → Option Client → Undoable T → Undoable T × Status
  unfolding source with_source popped pushed
  pop_and_push is_redo name p none s = (s, bad_object)
  pop_and_push is_redo name p (some c) s =
      let rest = but_last c.index in
      let s' = with_source is_redo (popped name rest (last rest) (source is_redo s)) s in
      (with_source (not is_redo) (pushed name p (source (not is_redo) s')) s', fine)

  unfoldable pub move : Bool → String → Payload → Undoable T → Undoable T × Status
  unfolding pop_and_push source
  move is_redo name p s = pop_and_push is_redo name p (lookup name (source is_redo s)) s
