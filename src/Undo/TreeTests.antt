-- ===== src/Undo/TreeTests.antt =====
-- The record of updates on a tree of one node, and the theorems at it.
use Prim.Native.String.{String}
use zg_choir.Base.{
  ℕ, zero, suc, ◌-◌, ◌≤◌, ◌≡◌, refl, ap, true, false, Option, none, some, List, [], ◌∷◌, arith, inl,
  inr, length, get_elem?,
}
use zg_choir.Undo.Sequences.{fine, Undoable, Payload, Client, node_name, end_of, last}
use zg_choir.Undo.Travel.{Log, log_has, in_stacks}
use zg_choir.Undo.Trim.{trim_stack}
use zg_choir.Undo.Step.{travel}
use zg_choir.Assoc.{text_key, lookup}
use zg_choir.Undo.Record.{
  Change, Event, payload_changed, entry_inserted, senior_update, Store, IsStore, apply_update,
  junior_update,
}
use zg_choir.Undo.Recorded.{junior_update-senior_update}
use zg_choir.Undo.Restored.{IsLogged, travel-restores}

insert_nth : List String → ℕ → String → List String
insert_nth l zero k = k ∷ l
insert_nth [] (suc i) k = k ∷ []
insert_nth (x ∷ l) (suc i) k = x ∷ insert_nth l i k

remove_nth : List String → ℕ → List String
remove_nth [] i = []
remove_nth (x ∷ l) zero = l
remove_nth (x ∷ l) (suc i) = x ∷ remove_nth l i

remove-insert_nth :
    (l : List String) (i : ℕ) (k : String) → i ≤ length l → remove_nth (insert_nth l i k) i ≡ l
unfolding insert_nth remove_nth
remove-insert_nth l zero k h = refl
remove-insert_nth [] (suc i) k h = absurd (omega arith)
remove-insert_nth (x ∷ l) (suc i) k h = ap (λ r. x ∷ r) (remove-insert_nth l i k (omega arith))

insert-remove_nth :
    (l : List String) (i : ℕ) (k : String)
    → get_elem? l i ≡ some k
    → insert_nth (remove_nth l i) i k ≡ l
unfolding insert_nth remove_nth
insert-remove_nth [] i k h = absurd (cc h)
insert-remove_nth (x ∷ l) zero k h = cc
insert-remove_nth (x ∷ l) (suc i) k h = ap (λ r. x ∷ r) (insert-remove_nth l i k h)

abbrev Tree : Type 0
Tree = Option ℕ × List String

-- A tree with one node, whatever its path.
abbrev one_node : Store Tree ℕ
one_node = record {
  payload_at = λ path t. t.0;
  put = λ path v t. (v, t.1);
  is_leaf = λ path t. true;
  index_at = λ path t. t.1;
  insert_at = λ path i k t. (t.0, insert_nth t.1 i k);
  remove_at = λ path i t. (t.0, remove_nth t.1 i);
}

one_node-IsStore : IsStore one_node
one_node-IsStore = record {
  put_back = λ path v t h. refl;
  remove_inserted = λ path i k t h. ap (λ l. (t.0, l)) (remove-insert_nth t.1 i k h);
  insert_removed = λ path i k t h. ap (λ l. (t.0, l)) (insert-remove_nth t.1 i k h);
  payload-insert = λ path i k t. refl;
  payload-remove = λ path i t. refl;
}

abbrev created : Event ℕ
created = payload_changed "x" false none (some 3)

abbrev indexed : Event ℕ
indexed = entry_inserted "x" 0 "I0"

abbrev trees : ℕ → Tree
trees zero = (none, [])
trees (suc zero) = (none, [])
trees (suc (suc zero)) = (some 3, [])
trees (suc (suc (suc k))) = (some 3, "I0" ∷ [])

-- What the transactions that begin and end a sequence change: a client's node and its index.
abbrev begun : List (Event ℕ)
begun =
    payload_changed "undo/a" false none (some 0)
    ∷ payload_changed "undo/a/I0" false none (some 1)
    ∷ entry_inserted "undo/a" 0 "I0"
    ∷ payload_changed "undo/a" false (some 0) (some 1)
    ∷ []

abbrev ended : List (Event ℕ)
ended =
    payload_changed "undo/a/I0" false (some 1) (some 2)
    ∷ payload_changed "undo/a" false (some 1) (some 2)
    ∷ []

-- A sequence of four transactions, from its begin to its end.
abbrev logged : ℕ → List (Event ℕ)
logged zero = begun
logged (suc zero) = created ∷ []
logged (suc (suc zero)) = indexed ∷ []
logged (suc (suc (suc k))) = ended

abbrev log : Log (Change ℕ)
log = record {
  contains = λ id. true;
  payload_of = λ id. some (senior_update "a" (logged (id - 1)));
  now = 5;
}

abbrev sequence : Payload
sequence = record { nest = 0; start_id = 1; end_id = some 4; label = none }

abbrev client : Client
client = record { top = sequence; index = sequence ∷ [] }

abbrev last_state : Undoable Tree
last_state = record { undo = ("a", client) ∷ []; redo = []; tree = trees 4 }

steps : IsLogged one_node one_node-IsStore log "a" 1 4 trees
unfolding in_stacks insert_nth
steps zero h =
    let still : Tree = trees 0 in
    (
      begun,
      refl,
      (
        still,
        inl (refl, refl),
        (still, inl (refl, refl), (still, inl (refl, refl), (still, inl (refl, refl), refl))),
      ),
    )
steps (suc zero) h =
    (created ∷ [], refl, (trees 2, inr ((refl, refl), (refl, (λ e. refl), refl)), refl))
steps (suc (suc zero)) h =
    (indexed ∷ [], refl, (trees 3, inr (refl, ((λ e. cc), omega arith, refl)), refl))
steps (suc (suc (suc zero))) h =
    (ended, refl, (trees 3, inl (refl, refl), (trees 3, inl (refl, refl), refl)))
steps (suc (suc (suc (suc k)))) h = absurd (omega arith)

travel-restores_example :
    ((travel (apply_update one_node) log false "a" last_state).0.tree ≡ trees 0)
    × ((travel (apply_update one_node) log false "a" last_state).1 ≡ fine)
unfolding lookup node_name last end_of log_has trim_stack
travel-restores_example =
    travel-restores one_node one_node-IsStore log "a" client sequence trees last_state refl refl
      (omega arith) refl steps refl refl

junior_update-senior_update_example :
    junior_update one_node (senior_update "a" (created ∷ indexed ∷ [])) (trees 0) ≡ (trees 3, fine)
unfolding insert_nth
junior_update-senior_update_example =
    junior_update-senior_update one_node "a" (created ∷ indexed ∷ []) (trees 0) (trees 3) (
      (some 3, []),
      (refl, (λ e. refl), refl),
      ((some 3, "I0" ∷ []), ((λ e. cc), omega arith, refl), refl),
    )
