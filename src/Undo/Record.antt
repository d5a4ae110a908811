-- ===== src/Undo/Record.antt =====
-- What the senior peer records of an update, for the juniors and for an undo, and what is done with
-- it: src/messagetree/server/MessageTreeDatabaseObject.cpp and
-- src/messagetree/server/UndoStackMessageTreeDatabaseObject.cpp.
--
-- MUSCLE calls back for each change of a node. An assembled batch is the list of its messages.
use Prim.Native.String.{String}
use zg_choir.Base.{
  ℕ, ◌≤◌, ◌≡◌, Bool, true, false, Option, none, some, List, [], ◌∷◌, ◌++◌, is_some, length,
  get_elem?, if◌then◌else◌,
}
use zg_choir.Undo.Sequences.{Status, fine, refused, Undoable}
use zg_choir.Undo.Travel.{NodeUpdate, Recorded, noop, single, batch, Pair, and_then}

-- The messages `MTDO_COMMAND_UPDATENODEVALUE`, `..._INSERTINDEXENTRY` and `..._REMOVEINDEXENTRY`.
pub data Change (P : Type 0) : Type 0 where
  set_payload : Option P → Change P
  insert_entry : ℕ → String → Change P
  remove_entry : ℕ → String → Change P

-- What MUSCLE calls back with: a node's old and new payload, and whether this happened within an
-- interim update; or an entry of a node's index.
pub data Event (P : Type 0) : Type 0 where
  payload_changed : String → Bool → Option P → Option P → Event P
  entry_inserted : String → ℕ → String → Event P
  entry_removed : String → ℕ → String → Event P

module _ {P : Type 0} where
  -- `CreateNodeUpdateMessage` and `CreateNodeIndexUpdateMessage`.
  unfoldable pub create_node_update : String → Bool → Option P → NodeUpdate (Change P)
  create_node_update path interim payload = record {
    path = path;
    interim = interim;
    change = set_payload payload;
  }

  unfoldable pub create_index_update : String → Change P → NodeUpdate (Change P)
  create_index_update path change = record { path = path; interim = false; change = change }

  -- `AssembleBatchMessage`.
  unfoldable pub assemble :
      Bool → NodeUpdate (Change P) → List (NodeUpdate (Change P)) → List (NodeUpdate (Change P))
  assemble prepend u l = if prepend then u ∷ l else l ++ u ∷ []

  -- `SeniorRecordNodeUpdateMessage` and `SeniorRecordNodeIndexUpdateMessage`: the junior message, and
  -- the equal and opposite one in front of the undo message.
  unfoldable pub record_event :
      Event P
      → List (NodeUpdate (Change P)) × List (NodeUpdate (Change P))
      → List (NodeUpdate (Change P)) × List (NodeUpdate (Change P))
  unfolding create_node_update create_index_update assemble
  record_event (payload_changed path interim old new) (juniors, undos) = (
    assemble false (create_node_update path interim new) juniors,
    assemble true (create_node_update path interim old) undos,
  )
  record_event (entry_inserted path index key) (juniors, undos) = (
    assemble false (create_index_update path (insert_entry index key)) juniors,
    assemble true (create_index_update path (remove_entry index key)) undos,
  )
  record_event (entry_removed path index key) (juniors, undos) = (
    assemble false (create_index_update path (remove_entry index key)) juniors,
    assemble true (create_index_update path (insert_entry index key)) undos,
  )

  unfoldable pub record_all :
      List (Event P)
      → List (NodeUpdate (Change P)) × List (NodeUpdate (Change P))
      → List (NodeUpdate (Change P)) × List (NodeUpdate (Change P))
  unfolding record_event
  record_all [] acc = acc
  record_all (e ∷ l) acc = record_all l (record_event e acc)

  -- The message that is assembled: none if nothing happened.
  unfoldable pub assembled : List (NodeUpdate (Change P)) → Option (Recorded (Change P))
  assembled [] = none
  assembled (u ∷ []) = some (single u)
  assembled (u ∷ v ∷ l) = some (batch (u ∷ v ∷ l))

  unfoldable pub or_noop : Option (Recorded (Change P)) → Recorded (Change P)
  or_noop none = noop
  or_noop (some r) = r

  -- `SeniorUpdate`, where the update succeeds.
  unfoldable pub senior_update : String → List (Event P) → Pair (Change P)
  unfolding record_all assembled or_noop
  senior_update key events =
      let (juniors, undos) = record_all events ([], []) in
      record {
        key = key;
        do_message = some (or_noop (assembled juniors));
        undo_message = assembled undos;
      }

-- The tree as MUSCLE keeps it: payloads of nodes, and indices.
pub record Store (T P : Type 0) : Type 0 where
  pub payload_at : String → T → Option P
  pub put : String → Option P → T → T
  pub is_leaf : String → T → Bool
  pub index_at : String → T → List String
  pub insert_at : String → ℕ → String → T → T
  pub remove_at : String → ℕ → T → T

-- What is relied on: a change can be taken back.
pub record IsStore {T P : Type 0} (s : Store T P) : Type 0 where
  pub put_back :
      (path : String) (v : Option P) (t : T)
      → (v ≡ none → s.is_leaf path t ≡ true)
      → s.put path (s.payload_at path t) (s.put path v t) ≡ t
  pub remove_inserted :
      (path : String) (i : ℕ) (key : String) (t : T)
      → i ≤ length (s.index_at path t)
      → s.remove_at path i (s.insert_at path i key t) ≡ t
  pub insert_removed :
      (path : String) (i : ℕ) (key : String) (t : T)
      → get_elem? (s.index_at path t) i ≡ some key
      → s.insert_at path i key (s.remove_at path i t) ≡ t
  pub payload-insert :
      (path : String) (i : ℕ) (key : String) (t : T)
      → s.payload_at path (s.insert_at path i key t) ≡ s.payload_at path t
  pub payload-remove :
      (path : String) (i : ℕ) (t : T)
      → s.payload_at path (s.remove_at path i t) ≡ s.payload_at path t

module _ {T P : Type 0} (store : Store T P) where
  -- `HandleNodeUpdateMessageAux` and `HandleNodeIndexUpdateMessage`, for a path of its own.
  unfoldable pub change_tree : String → Change P → T → T × Status
  change_tree path (set_payload v) t = (store.put path v t, fine)
  change_tree path (insert_entry i key) t =
      if is_some (store.payload_at path t)
      then (store.insert_at path i key t, fine)
      else (t, refused)
  change_tree path (remove_entry i key) t =
      if is_some (store.payload_at path t) then (store.remove_at path i t, fine) else (t, refused)

  unfoldable pub apply_update : NodeUpdate (Change P) → Undoable T → Undoable T × Status
  unfolding change_tree
  apply_update u s = let (t, st) = change_tree u.path u.change s.tree in (record s { tree = t }, st)

  -- `JuniorMessageTreeUpdate` of a batch.
  unfoldable pub junior_all : List (NodeUpdate (Change P)) → T → T × Status
  unfolding change_tree and_then
  junior_all [] t = (t, fine)
  junior_all (u ∷ l) t = and_then (change_tree u.path u.change t) (junior_all l)

  -- `JuniorUpdate` of a message pair.
  unfoldable pub junior_message : Recorded (Change P) → T → T × Status
  unfolding junior_all
  junior_message noop t = (t, fine)
  junior_message (single u) t = change_tree u.path u.change t
  junior_message (batch l) t = junior_all l t

  unfoldable pub junior_update : Pair (Change P) → T → T × Status
  unfolding junior_message
  junior_update p t = elim p.do_message [ none ↦ (t, refused) | some r ↦ junior_message r t ]
