-- ===== src/Undo/Sequences.antt =====
-- The nodes below `undo` and `redo`, and the commands that begin and end a sequence:
-- src/messagetree/server/UndoStackMessageTreeDatabaseObject.cpp.
--
-- A client's node holds a payload, for those who watch it, and an index of sequences, oldest first.
-- The names of the sequences' nodes are not modelled: the code takes unused ones from MUSCLE.
use Prim.Native.String.{String}
use text.Mathlib.Text.{◌==◌ as str_eq}
use zg_choir.Base.{
  ℕ, ◌+◌, ◌-◌, ◌%◌, ◌^◌, Option, none, some, List, [], ◌∷◌, ◌++◌, ◌==◌, ltb, if◌then◌else◌,
}
use zg_choir.Assoc.{text_key, lookup, insert, erase}

-- `status_t`, as far as the stacks tell the errors apart.
pub data Status : Type 0 where
  fine bad_argument bad_object refused : Status

-- The payload of a node: `what` is the nest count. The ids are those of database states, where 0
-- stands for a field that is not there.
pub record Payload : Type 0 where
  pub nest : ℕ
  pub start_id : ℕ
  pub end_id : Option ℕ
  pub label : Option String

pub record Client : Type 0 where
  pub top : Payload
  pub index : List Payload

abbrev pub Stack : Type 0
Stack = List (String × Client)

-- What the object keeps: the two stacks, and the rest of its tree.
pub record Undoable (T : Type 0) : Type 0 where
  pub undo : Stack
  pub redo : Stack
  pub tree : T

-- A new Message with `what` 0.
abbrev pub empty_payload : Payload
empty_payload = record { nest = 0; start_id = 0; end_id = none; label = none }

abbrev pub new_client : Client
new_client = record { top = empty_payload; index = [] }

-- The name of a client's node.
unfoldable pub node_name : String → String
node_name key = if str_eq key "" then "default" else key

-- `GetInt64(UNDOSTACK_NAME_ENDDBID)`.
unfoldable pub end_of : Payload → ℕ
end_of p = elim p.end_id [ none ↦ 0 | some e ↦ e ]

-- `AddInt64(UNDOSTACK_NAME_ENDDBID)`: what is read is the first of the values.
unfoldable pub add_end : ℕ → Option ℕ → Option ℕ
add_end e none = some e
add_end e (some d) = some d

-- The entries of an index without the last, and the last.
unfoldable pub but_last : List Payload → List Payload
but_last [] = []
but_last (p ∷ []) = []
but_last (p ∷ q ∷ l) = p ∷ but_last (q ∷ l)

unfoldable pub last : List Payload → Option Payload
last [] = none
last (p ∷ []) = some p
last (p ∷ q ∷ l) = last (q ∷ l)

-- A label with characters takes the place of the first one.
unfoldable pub relabel : Option String → Option String → Option String
relabel none old = old
relabel (some l) old = if str_eq l "" then old else some l

unfoldable pub finished : ℕ → Option String → Payload → Payload
unfolding add_end relabel
finished now label p = record p {
  nest = 0;
  end_id = add_end now p.end_id;
  label = relabel label p.label;
}

module _ {T : Type 0} where
  -- Stores a client's node and passes the status on.
  abbrev put_client : String → Client → Undoable T → Undoable T × Status
  put_client name c s = (record s { undo = insert name c s.undo }, fine)

  -- The first level of nesting: the redo stack goes, and a new sequence comes to the undo stack, with
  -- the label if that has characters (`CAddString`).
  unfoldable pub open_sequence :
      ℕ → String → Option String → Client → Undoable T → Undoable T × Status
  open_sequence now name label c s =
      let p : Payload = record {
        nest = 1;
        start_id = now;
        end_id = none;
        label = relabel label none;
      } in
      put_client name (record { top = p; index = c.index ++ p ∷ [] })
        (record s { redo = erase name s.redo })

  -- `newClientPayload()->what++`.
  unfoldable pub deepen : String → Client → Undoable T → Undoable T × Status
  deepen name c s =
      put_client name (record c { top = record c.top { nest = (c.top.nest + 1) % 2 ^ 32 } }) s

  unfoldable pub begin_at :
      ℕ → String → Option String → Option Client → Undoable T → Undoable T × Status
  unfolding open_sequence deepen
  begin_at now name label none s = open_sequence now name label new_client s
  begin_at now name label (some c) s =
      if c.top.nest == 0 then open_sequence now name label c s else deepen name c s

  -- `UNDOSTACK_COMMAND_BEGINSEQUENCE`, in the transaction that makes the database state `now`.
  unfoldable pub begin_sequence : ℕ → String → Option String → Undoable T → Undoable T × Status
  unfolding begin_at
  begin_sequence now key label s =
      let name = node_name key in begin_at now name label (lookup name s.undo) s

  unfoldable pub close_sequence :
      ℕ → String → Option String → Client → Option Payload → Undoable T → Undoable T × Status
  unfolding finished
  close_sequence now name label c none s = (s, bad_object)
  close_sequence now name label c (some p) s =
      let q = finished now label p in
      put_client name (record { top = q; index = but_last c.index ++ q ∷ [] }) s

  unfoldable pub end_at :
      ℕ → String → Option String → Option Client → Undoable T → Undoable T × Status
  unfolding close_sequence
  end_at now name label none s = (s, bad_argument)
  end_at now name label (some c) s =
      if ltb 1 c.top.nest
      then put_client name (record c { top = record c.top { nest = c.top.nest - 1 } }) s
      else if c.top.nest == 0
      then (s, bad_argument)
      else close_sequence now name label c (last c.index) s

  -- `UNDOSTACK_COMMAND_ENDSEQUENCE`.
  unfoldable pub end_sequence : ℕ → String → Option String → Undoable T → Undoable T × Status
  unfolding end_at
  end_sequence now key label s =
      let name = node_name key in end_at now name label (lookup name s.undo) s
