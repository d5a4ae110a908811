-- ===== src/Undo/Trim.antt =====
-- What `SeniorMessageTreeUpdate` removes after a success: the sequences whose transactions are no
-- longer in the log, and the clients that have none left.
-- src/messagetree/server/UndoStackMessageTreeDatabaseObject.cpp.
use Prim.Native.String.{String}
use zg_choir.Base.{ℕ, Bool, not, ◌&&◌, List, [], ◌∷◌, ◌==◌, if◌then◌else◌}
use zg_choir.Undo.Sequences.{
  Status, fine, bad_argument, bad_object, refused, Payload, Stack, Undoable,
}

-- A client that has sequences left stays.
unfoldable pub keep_client : String → Payload → List Payload → Stack → Stack
keep_client name top [] rest = rest
keep_client name top (p ∷ l) rest = (name, record { top = top; index = p ∷ l }) ∷ rest

-- `contains` is `UpdateLogContainsUpdate`; `now` is the transaction that is being finished.
module _ (contains : ℕ → Bool) (now : ℕ) where
  -- Whether a sequence can no longer be undone.
  unfoldable pub is_stale : Payload → Bool
  is_stale p = not (p.start_id == now) && not (contains p.start_id)

  unfoldable pub trim_index : List Payload → List Payload
  unfolding is_stale
  trim_index [] = []
  trim_index (p ∷ l) = let rest = trim_index l in if is_stale p then rest else p ∷ l

  unfoldable pub trim_stack : Stack → Stack
  unfolding trim_index keep_client
  trim_stack [] = []
  trim_stack ((name, c) ∷ l) = keep_client name c.top (trim_index c.index) (trim_stack l)

  -- The end of `SeniorMessageTreeUpdate`: nothing is removed after an error.
  unfoldable pub trimmed : {T : Type 0} → Undoable T × Status → Undoable T × Status
  unfolding trim_stack
  trimmed (s, fine) = (record s { undo = trim_stack s.undo }, fine)
  trimmed (s, bad_argument) = (s, bad_argument)
  trimmed (s, bad_object) = (s, bad_object)
  trimmed (s, refused) = (s, refused)
