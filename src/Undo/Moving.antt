-- ===== src/Undo/Moving.antt =====
-- Moving a sequence from one stack to the other: what it does to the client, and that it keeps what
-- the stacks keep.
use Prim.Native.String.{String}
use mathlib.Core.List.{reverse}
use zg_choir.Base.{
  ℕ, zero, suc, ◌≤◌, ◌≡◌, refl, sym, subst, ap, ◌∙◌, true, false, Option, none, some, List, [], ◌∷◌,
  ◌++◌, arith, inl, inr, Option-cases,
}
use zg_choir.Assoc.{text_key, lookup, same_key}
use zg_choir.Assoc.Laws.{lookup-insert_same, lookup-insert_other}
use zg_choir.Assoc.Distinct.{
  IsTable, insert-IsTable, erase-IsTable, lookup-erase_same, lookup-erase_other,
}
use zg_choir.Undo.Sequences.{fine, Payload, Client, Stack, Undoable, end_of, but_last, last}
use zg_choir.Undo.Move.{source, with_source, popped, client_or_new, pushed, pop_and_push, move}
use zg_choir.Undo.Order.{
  IsOrdered, Runs, Runs-last, history_move, last-append, eq-but_last, eq-nil_of_last,
}
use zg_choir.Undo.Kept.{nest_of, index_of, AtTop, Fits, IsKept, IsKept-at}

-- The client who has lost a sequence, and the one who has got it.
abbrev pub less : List Payload → Option Payload → Option Client
less rest none = none
less rest (some q) = some (record { top = q; index = rest })

abbrev pub more : Payload → Option Client → Option Client
more p o = some (record { top = p; index = index_of o ++ p ∷ [] })

pub lookup-popped :
    (name : String) (rest : List Payload) (o : Option Payload) (l : Stack)
    → IsTable l
    → lookup name (popped name rest o l) ≡ less rest o
unfolding popped
lookup-popped name rest none l t = lookup-erase_same name l t
lookup-popped name rest (some q) l t = lookup-insert_same name _ l

pub lookup-popped_other :
    (name n : String) (rest : List Payload) (o : Option Payload) (l : Stack)
    → same_key name n ≡ false
    → lookup n (popped name rest o l) ≡ lookup n l
unfolding popped
lookup-popped_other name n rest none l h = lookup-erase_other name n l h
lookup-popped_other name n rest (some q) l h = lookup-insert_other name n _ l h

popped-IsTable :
    (name : String) (rest : List Payload) (o : Option Payload) (l : Stack)
    → IsTable l
    → IsTable (popped name rest o l)
unfolding popped
popped-IsTable name rest none l t = erase-IsTable name l t
popped-IsTable name rest (some q) l t = insert-IsTable name _ l t

index-client_or_new : (o : Option Client) → (client_or_new o).index ≡ index_of o
unfolding client_or_new
index-client_or_new none = refl
index-client_or_new (some c) = refl

pub lookup-pushed :
    (name : String) (p : Payload) (l : Stack)
    → lookup name (pushed name p l) ≡ more p (lookup name l)
unfolding pushed
lookup-pushed name p l =
    lookup-insert_same name _ l
    ∙ ap (λ (x : List Payload). some (record { top = p; index = x ++ p ∷ [] }))
        (index-client_or_new (lookup name l))

pub index_of-less : (rest : List Payload) → index_of (less rest (last rest)) ≡ rest
index_of-less rest = elim (Option-cases (last rest)) [
  | inl e ↦ rw e (sym (eq-nil_of_last rest e))
  | inr (q, e) ↦ rw e refl
]

AtTop-less : (rest : List Payload) → AtTop (less rest (last rest))
AtTop-less rest = elim (Option-cases (last rest)) [ inl e ↦ rw e tt | inr (q, e) ↦ rw e e ]

-- No sequence is open behind a finished one.
nest_of-less :
    (now : ℕ) (rest ys : List Payload)
    → Runs now 0 (rest ++ ys)
    → nest_of (less rest (last rest)) ≡ 0
nest_of-less now rest ys h = elim (Option-cases (last rest)) [
  | inl e ↦ rw e refl
  | inr (q, e) ↦ rw e (
      Runs-last (but_last rest) ys q now 0
        (subst (λ x. Runs now 0 (x ++ ys)) (eq-but_last rest q e) h))
]

-- A finished sequence at the end means that none is open.
pub IsOrdered-finished :
    (n now : ℕ) (index redo : List Payload) (p : Payload)
    → last index ≡ some p
    → p.start_id ≤ end_of p
    → IsOrdered now n index redo
    → (n ≡ 0) × Runs now 0 (index ++ reverse redo)
IsOrdered-finished zero now index redo p e le h = (refl, h)
IsOrdered-finished (suc n) now index redo p e le
      (nil, (q, l, split, zero_end, none_end, pos, le_now, rest)) =
    let here : some q ≡ some p = sym (last-append l q) ∙ ap last (sym split) ∙ e in
    let same : q ≡ p = cc here in
    absurd (omega (arith, ap end_of same, ap (λ (x : Payload). x.start_id) same))

IsOrdered-redo :
    (n now : ℕ) (index redo : List Payload) (p : Payload)
    → last redo ≡ some p
    → IsOrdered now n index redo
    → (n ≡ 0) × Runs now 0 (index ++ reverse redo)
unfolding last
IsOrdered-redo zero now index redo p e h = (refl, h)
IsOrdered-redo (suc n) now index redo p e h =
    absurd (let none_left : none ≡ some p = ap last (sym h.0) ∙ e in cc none_left)

pub Fits-undo :
    (now : ℕ) (u r : Option Client) (p : Payload)
    → last (index_of u) ≡ some p
    → p.start_id ≤ end_of p
    → Fits now u r
    → Fits now (less (but_last (index_of u)) (last (but_last (index_of u)))) (more p r)
Fits-undo now u r p e le f =
    let rest = but_last (index_of u) in
    let runs : Runs now 0 (rest ++ reverse (index_of r ++ p ∷ [])) = rw history_move (
      subst (λ x. Runs now 0 (x ++ reverse (index_of r))) (eq-but_last (index_of u) p e)
        (IsOrdered-finished (nest_of u) now (index_of u) (index_of r) p e le f.order).1) in
    record {
      order = rw (nest_of-less now rest _ runs, index_of-less rest) runs;
      undo_top = λ z. AtTop-less rest;
      redo_top = last-append (index_of r) p;
    }

pub Fits-redo :
    (now : ℕ) (u r : Option Client) (p : Payload)
    → last (index_of r) ≡ some p
    → Fits now u r
    → Fits now (more p u) (less (but_last (index_of r)) (last (but_last (index_of r))))
Fits-redo now u r p e f =
    let rest = but_last (index_of r) in
    let runs : Runs now 0 ((index_of u ++ p ∷ []) ++ reverse rest) =
      rw (← history_move (index_of u) rest p) (
        subst (λ x. Runs now 0 (index_of u ++ reverse x)) (eq-but_last (index_of r) p e)
          (IsOrdered-redo (nest_of u) now (index_of u) (index_of r) p e f.order).1) in
    record {
      order =
          subst (λ n. IsOrdered now n (index_of u ++ p ∷ []) (index_of (less rest (last rest))))
            (sym (Runs-last (index_of u) (reverse rest) p now 0 runs))
            (rw (index_of-less rest) runs);
      undo_top = λ z. last-append (index_of u) p;
      redo_top = AtTop-less rest;
    }

module _ {T : Type 0} where
  -- The stacks after a move, at its client and elsewhere.
  pub undo-move :
      (name : String) (p : Payload) (c : Client) (s : Undoable T)
      → lookup name s.undo ≡ some c
      → move false name p s ≡ (
        record s {
          undo = popped name (but_last c.index) (last (but_last c.index)) s.undo;
          redo = pushed name p s.redo;
        },
        fine,
      )
  unfolding move pop_and_push source with_source
  undo-move name p c s e = rw e refl

  pub redo-move :
      (name : String) (p : Payload) (c : Client) (s : Undoable T)
      → lookup name s.redo ≡ some c
      → move true name p s ≡ (
        record s {
          undo = pushed name p s.undo;
          redo = popped name (but_last c.index) (last (but_last c.index)) s.redo;
        },
        fine,
      )
  unfolding move pop_and_push source with_source
  redo-move name p c s e = rw e refl

pub lookup-pushed_other :
    (name n : String) (p : Payload) (l : Stack)
    → same_key name n ≡ false
    → lookup n (pushed name p l) ≡ lookup n l
unfolding pushed
lookup-pushed_other name n p l h = lookup-insert_other name n _ l h

pushed-IsTable : (name : String) (p : Payload) (l : Stack) → IsTable l → IsTable (pushed name p l)
unfolding pushed
pushed-IsTable name p l t = insert-IsTable name _ l t

module _ {T : Type 0} (now : ℕ) (name : String) (p : Payload) (c : Client) (s : Undoable T) where
  pub move-undo_IsKept :
      lookup name s.undo ≡ some c
      → last c.index ≡ some p
      → p.start_id ≤ end_of p
      → IsKept now s
      → IsKept now (move false name p s).0
  move-undo_IsKept found e le k =
      let rest = but_last c.index in
      let s' : Undoable T = record s {
        undo = popped name rest (last rest) s.undo;
        redo = pushed name p s.redo;
      } in
      rw (undo-move name p c s found) (
        IsKept-at now name s s' k (popped-IsTable name rest (last rest) s.undo k.undo_table)
          (pushed-IsTable name p s.redo k.redo_table)
          (record {
            undo_same = λ n h. lookup-popped_other name n rest (last rest) s.undo h;
            redo_same = λ n h. lookup-pushed_other name n p s.redo h;
          })
          (rw (lookup-popped name rest (last rest) s.undo k.undo_table, lookup-pushed)
            (Fits-undo now (some c) (lookup name s.redo) p e le
              (subst (λ x. Fits now x (lookup name s.redo)) found (k.clients name)))))

  pub move-redo_IsKept :
      lookup name s.redo ≡ some c
      → last c.index ≡ some p
      → IsKept now s
      → IsKept now (move true name p s).0
  move-redo_IsKept found e k =
      let rest = but_last c.index in
      let s' : Undoable T = record s {
        undo = pushed name p s.undo;
        redo = popped name rest (last rest) s.redo;
      } in
      rw (redo-move name p c s found) (
        IsKept-at now name s s' k (pushed-IsTable name p s.undo k.undo_table)
          (popped-IsTable name rest (last rest) s.redo k.redo_table)
          (record {
            undo_same = λ n h. lookup-pushed_other name n p s.undo h;
            redo_same = λ n h. lookup-popped_other name n rest (last rest) s.redo h;
          })
          (rw (lookup-popped name rest (last rest) s.redo k.redo_table, lookup-pushed)
            (Fits-redo now (lookup name s.undo) (some c) p e
              (subst (λ x. Fits now (lookup name s.undo) x) found (k.clients name)))))
