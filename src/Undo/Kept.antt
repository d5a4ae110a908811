-- ===== src/Undo/Kept.antt =====
-- What the two stacks keep, for every client, and that a begin and an end of a sequence keep it.
use Prim.Native.String.{String}
use mathlib.Core.List.{reverse, append-nil}
use zg_choir.Base.{
  ℕ, zero, suc, ◌≤◌, ◌<◌, ◌≡◌, ◌≢◌, refl, sym, subst, ap, ◌∙◌, false, Option, none, some, List, [],
  ◌∷◌, ◌++◌, arith, inl, inr,
}
use zg_choir.Assoc.{text_key, lookup, same_key}
use zg_choir.Assoc.Laws.{same-cases}
use zg_choir.Assoc.Distinct.{IsTable}
use zg_choir.Undo.Sequences.{Payload, Client, Undoable, end_of, but_last, last, finished}
use zg_choir.Undo.Order.{
  Runs, Runs-mono, Runs-front, Runs-then, IsOrdered, last-append, but_last-append,
}

-- The nest count and the sequences of a client who may not be there.
abbrev pub nest_of : Option Client → ℕ
nest_of none = 0
nest_of (some c) = c.top.nest

abbrev pub index_of : Option Client → List Payload
index_of none = []
index_of (some c) = c.index

-- The payload of the client's node is that of the last sequence.
abbrev pub AtTop : Option Client → Type 0
AtTop none = Unit
AtTop (some c) = last c.index ≡ some c.top

pub record Fits (now : ℕ) (u r : Option Client) : Type 0 where
  pub order : IsOrdered now (nest_of u) (index_of u) (index_of r)
  pub undo_top : nest_of u ≡ 0 → AtTop u
  pub redo_top : AtTop r

pub record IsKept {T : Type 0} (now : ℕ) (s : Undoable T) : Type 0 where
  pub undo_table : IsTable s.undo
  pub redo_table : IsTable s.redo
  pub clients : (name : String) → Fits now (lookup name s.undo) (lookup name s.redo)

-- The two stacks are as before but for one client.
pub record Elsewhere {T : Type 0} (name : String) (s s' : Undoable T) : Type 0 where
  pub undo_same : (n : String) → same_key name n ≡ false → lookup n s'.undo ≡ lookup n s.undo
  pub redo_same : (n : String) → same_key name n ≡ false → lookup n s'.redo ≡ lookup n s.redo

module _ {T : Type 0} where
  pub IsKept-at :
      (now : ℕ) (name : String) (s s' : Undoable T)
      → IsKept now s
      → IsTable s'.undo
      → IsTable s'.redo
      → Elsewhere name s s'
      → Fits now (lookup name s'.undo) (lookup name s'.redo)
      → IsKept now s'
  IsKept-at now name s s' k tu tr e f = record {
    undo_table = tu;
    redo_table = tr;
    clients = λ n. elim (same-cases name n) [
      | inl same ↦ subst (λ x. Fits now (lookup x s'.undo) (lookup x s'.redo)) same f
      | inr other ↦ rw (e.undo_same n other, e.redo_same n other) (k.clients n)
    ];
  }

pub IsOrdered-nest :
    (n m now : ℕ) (index redo : List Payload)
    → n ≢ 0
    → m ≢ 0
    → IsOrdered now n index redo
    → IsOrdered now m index redo
IsOrdered-nest zero m now index redo a b h = absurd (a refl)
IsOrdered-nest (suc n) zero now index redo a b h = absurd (b refl)
IsOrdered-nest (suc n) (suc m) now index redo a b h = h

pub IsOrdered-open :
    (now : ℕ) (label : Option String) (index redo : List Payload)
    → 0 < now
    → IsOrdered now 0 index redo
    → let p : Payload = record { nest = 1; start_id = now; end_id = none; label = label } in
      IsOrdered now 1 (index ++ p ∷ []) []
unfolding end_of
IsOrdered-open now label index redo z h =
    let p : Payload = record { nest = 1; start_id = now; end_id = none; label = label } in
    (refl, (p, index, refl, refl, refl, z, omega arith, Runs-front index (reverse redo) now 0 h))

pub IsOrdered-close :
    (now : ℕ) (label : Option String) (index redo : List Payload) (p : Payload)
    → last index ≡ some p
    → IsOrdered now 1 index redo
    → IsOrdered now 0 (but_last index ++ finished now label p ∷ []) redo
unfolding finished end_of
IsOrdered-close now label index redo p e
      (none_left, (q, l, split, zero_end, running, pos, le, runs)) =
    let here : some q ≡ some p = sym (last-append l q) ∙ ap last (sym split) ∙ e in
    let same : q ≡ p = cc here in
    let front : but_last index ≡ l = ap but_last split ∙ but_last-append l q in
    let no_end : p.end_id ≡ none = subst (λ x. x.end_id ≡ none) same running in
    rw (none_left, front, append-nil)
      (Runs-then l (finished now label p) now 0 (subst (λ x. Runs x.start_id 0 l) same runs) refl
        (rw no_end (subst (λ x. x.start_id ≤ now) same le)) (rw no_end (omega arith)))

IsOrdered-mono :
    (n now now' : ℕ) (index redo : List Payload)
    → now ≤ now'
    → IsOrdered now n index redo
    → IsOrdered now' n index redo
IsOrdered-mono zero now now' index redo le h =
    Runs-mono (index ++ reverse redo) now now' 0 0 le (omega arith) h
IsOrdered-mono (suc n) now now' index redo le (nil, (p, l, e, z, none_end, pos, before, runs)) =
    (nil, (p, l, e, z, none_end, pos, omega arith, runs))

-- What is kept stays so while the database moves on.
pub IsKept-mono :
    {T : Type 0} (now now' : ℕ) (s : Undoable T) → now ≤ now' → IsKept now s → IsKept now' s
IsKept-mono now now' s le k = record {
  undo_table = k.undo_table;
  redo_table = k.redo_table;
  clients = λ name.
      let f = k.clients name in
      record {
        order = IsOrdered-mono (nest_of (lookup name s.undo)) now now' _ _ le f.order;
        undo_top = f.undo_top;
        redo_top = f.redo_top;
      };
}
