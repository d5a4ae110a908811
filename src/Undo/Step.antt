-- ===== src/Undo/Step.antt =====
-- `SeniorMessageTreeUpdate` and `SeniorMessageTreeUpdateAux` of
-- src/messagetree/server/UndoStackMessageTreeDatabaseObject.cpp.
--
-- `apply` is what the classes below do with an update of a node. Commands come alone or in a batch.
use Prim.Native.String.{String}
use zg_choir.Base.{suc, ◌-◌, Bool, true, false, Option, none, some, leb, if◌then◌else◌}
use zg_choir.Assoc.{text_key, lookup}
use zg_choir.Undo.Sequences.{
  Status, fine, bad_object, Payload, Client, Undoable, node_name, end_of, last, begin_sequence,
  end_sequence,
}
use zg_choir.Undo.Trim.{trimmed}
use zg_choir.Undo.Travel.{NodeUpdate, Log, handle, and_then, log_has, replay_range}
use zg_choir.Undo.Move.{source, move}

-- What `SeniorMessageTreeUpdateAux` tells apart.
pub data Single (C : Type 0) : Type 0 where
  begin_sequence_of : String → Option String → Single C
  end_sequence_of : String → Option String → Single C
  undo_of : String → Single C
  redo_of : String → Single C
  node_update : NodeUpdate C → Single C

mutual
  pub data Command (C : Type 0) : Type 0 where
    one : Single C → Command C
    batch_of : Commands C → Command C

  pub data Commands (C : Type 0) : Type 0 where
    nil : Commands C
    cons : Command C → Commands C → Commands C

module _ {C T : Type 0} (apply : NodeUpdate C → Undoable T → Undoable T × Status)
    (log : Log C) where
  -- The tail of the client's index: nothing is undone unless the sequence has ended, and all of its
  -- transactions are in the log.
  unfoldable pub travel_tail : Bool → String → Option Payload → Undoable T → Undoable T × Status
  unfolding log_has replay_range and_then move
  travel_tail is_redo key none s = (s, bad_object)
  travel_tail is_redo key (some p) s =
      let first = p.start_id in
      let final = end_of p in
      let rounds = suc (final - first) in
      if leb first final
      then (if log_has log final rounds
          then and_then (replay_range apply log is_redo key first final final rounds s)
              (move is_redo (node_name key) p)
          else (s, bad_object))
      else (s, bad_object)

  unfoldable pub travel_client : Bool → String → Option Client → Undoable T → Undoable T × Status
  unfolding travel_tail
  travel_client is_redo key none s = (s, bad_object)
  travel_client is_redo key (some c) s = travel_tail is_redo key (last c.index) s

  -- An undo, or a redo.
  unfoldable pub travel : Bool → String → Undoable T → Undoable T × Status
  unfolding travel_client source
  travel is_redo key s = travel_client is_redo key (lookup (node_name key) (source is_redo s)) s

  -- `SeniorMessageTreeUpdateAux`.
  unfoldable pub update_aux : Single C → Undoable T → Undoable T × Status
  unfolding travel begin_sequence end_sequence handle
  update_aux (begin_sequence_of key label) s = begin_sequence log.now key label s
  update_aux (end_sequence_of key label) s = end_sequence log.now key label s
  update_aux (undo_of key) s = travel false key s
  update_aux (redo_of key) s = travel true key s
  update_aux (node_update u) s = handle apply false u s

  -- `SeniorMessageTreeUpdate`.
  unfoldable mutual
    unfolding update_aux trimmed and_then

    pub update : Command C → Undoable T → Undoable T × Status
    update (one c) s = trimmed log.contains log.now (update_aux c s)
    update (batch_of l) s = trimmed log.contains log.now (update_all l s)

    pub update_all : Commands C → Undoable T → Undoable T × Status
    update_all nil s = (s, fine)
    update_all (cons c l) s = and_then (update c s) (update_all l)
