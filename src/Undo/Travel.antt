-- ===== src/Undo/Travel.antt =====
-- Undo and redo: `UNDOSTACK_COMMAND_UNDO` and `UNDOSTACK_COMMAND_REDO` in
-- src/messagetree/server/UndoStackMessageTreeDatabaseObject.cpp.
use Prim.Native.String.{String}
use text.Mathlib.Text.{◌==◌ as str_eq, starts_with}
use zg_choir.Assoc.{text_key}
use zg_choir.Base.{
  ℕ, zero, suc, ◌+◌, ◌-◌, Bool, true, false, not, ◌&&◌, ◌||◌, Option, none, some, List, [], ◌∷◌,
  if◌then◌else◌,
}
use zg_choir.Undo.Sequences.{Status, fine, bad_argument, bad_object, refused, Undoable}
use zg_choir.Undo.Trim.{trimmed}

-- An update of a node or of its index, as the senior peer records it: `change` is what MUSCLE is
-- told to do.
pub record NodeUpdate (C : Type 0) : Type 0 where
  pub path : String
  pub interim : Bool
  pub change : C

-- An assembled message: `AssembleBatchMessage` makes a batch of two updates or more.
pub data Recorded (C : Type 0) : Type 0 where
  noop : Recorded C
  single : NodeUpdate C → Recorded C
  batch : List (NodeUpdate C) → Recorded C

-- The payload of an update in the log: `UNDOSTACK_COMMAND_MESSAGE_PAIR`.
pub record Pair (C : Type 0) : Type 0 where
  pub key : String
  pub do_message : Option (Recorded C)
  pub undo_message : Option (Recorded C)

-- The log of updates: `UpdateLogContainsUpdate`, `GetUpdatePayload`, and the id of the transaction
-- that is being made, `GetCurrentDatabaseStateID() + 1`.
pub record Log (C : Type 0) : Type 0 where
  pub contains : ℕ → Bool
  pub payload_of : ℕ → Option (Pair C)
  pub now : ℕ

-- A path below one of the two stacks.
unfoldable pub in_stacks : String → Bool
in_stacks path = starts_with path "undo/" || starts_with path "redo/"

-- `IsOkayToHandleUpdateMessage`.
unfoldable pub is_okay : {C : Type 0} → Bool → NodeUpdate C → Bool
unfolding in_stacks
is_okay traveling u = not traveling || (not u.interim && not (in_stacks u.path))

-- A step, then the next one unless it failed: `MRETURN_ON_ERROR`. What was written stays written.
unfoldable pub and_then : {S : Type 0} → S × Status → (S → S × Status) → S × Status
and_then (s, fine) f = f s
and_then (s, bad_argument) f = (s, bad_argument)
and_then (s, bad_object) f = (s, bad_object)
and_then (s, refused) f = (s, refused)

-- The message of a pair that is replayed.
abbrev pub message_of : {C : Type 0} → Bool → Pair C → Option (Recorded C)
message_of is_redo p = if is_redo then p.do_message else p.undo_message

-- Whether the log has the `n` transactions that end with `id`.
unfoldable pub log_has : {C : Type 0} → Log C → ℕ → ℕ → Bool
log_has log id zero = true
log_has log id (suc n) =
    let rest = log_has log (id - 1) n in if log.contains id then rest else false

module _ {C T : Type 0} (apply : NodeUpdate C → Undoable T → Undoable T × Status) where
  -- `HandleNodeUpdateMessage` and `HandleNodeIndexUpdateMessage`.
  unfoldable pub handle : Bool → NodeUpdate C → Undoable T → Undoable T × Status
  unfolding is_okay
  handle traveling u s = if is_okay traveling u then apply u s else (s, fine)

  -- The updates of a batch, each handled by `SeniorMessageTreeUpdate`, which trims the stacks.
  unfoldable pub handle_all : Log C → List (NodeUpdate C) → Undoable T → Undoable T × Status
  unfolding handle and_then trimmed
  handle_all log [] s = (s, fine)
  handle_all log (u ∷ l) s =
      and_then (trimmed log.contains log.now (handle true u s)) (handle_all log l)

  -- A recorded message during an undo or a redo.
  unfoldable pub replay : Log C → Recorded C → Undoable T → Undoable T × Status
  unfolding handle_all
  replay log noop s = (s, fine)
  replay log (single u) s = handle true u s
  replay log (batch l) s = handle_all log l s

  unfoldable pub replay_option : Log C → Option (Recorded C) → Undoable T → Undoable T × Status
  unfolding replay
  replay_option log none s = (s, fine)
  replay_option log (some r) s = replay log r s

  -- Only what the client itself has uploaded is undone or done again.
  unfoldable pub replay_pair :
      Log C → Bool → String → Option (Pair C) → Undoable T → Undoable T × Status
  unfolding replay_option
  replay_pair log is_redo key none s = (s, bad_object)
  replay_pair log is_redo key (some p) s =
      if str_eq p.key key then replay_option log (message_of is_redo p) s else (s, fine)

  -- The loop over the transactions from `id` down: an undo takes them in that order, a redo from
  -- the first one up.
  unfoldable pub replay_range :
      Log C → Bool → String → ℕ → ℕ → ℕ → ℕ → Undoable T → Undoable T × Status
  unfolding replay_pair and_then
  replay_range log is_redo key first final id zero s = (s, fine)
  replay_range log is_redo key first final id (suc n) s =
      let trans = if is_redo then first + (final - id) else id in
      and_then (replay_pair log is_redo key (log.payload_of trans) s)
        (replay_range log is_redo key first final (id - 1) n)
