-- ===== src/Undo/Nesting.antt =====
-- A begin and an end of a sequence keep what the stacks keep.
use Prim.Native.String.{String}
use zg_choir.Base.{
  ℕ, ◌+◌, ◌-◌, ◌%◌, ◌^◌, ◌<◌, ◌≡◌, ◌≢◌, refl, subst, Option, none, some, arith, inl, inr,
  Bool-cases, ltb, ltb→lt, ◌==◌, ==_iff,
}
use zg_choir.Assoc.{text_key, lookup, insert}
use zg_choir.Assoc.Laws.{lookup-insert_same, lookup-insert_other}
use zg_choir.Assoc.Distinct.{insert-IsTable, erase-IsTable, lookup-erase_same, lookup-erase_other}
use zg_choir.Undo.Sequences.{
  Payload, Client, Undoable, new_client, node_name, relabel, last, open_sequence, deepen, begin_at,
  begin_sequence, close_sequence, end_at, end_sequence,
}
use zg_choir.Undo.Order.{IsOrdered, last-append}
use zg_choir.Undo.Kept.{
  nest_of, index_of, Fits, IsKept, IsKept-at, IsOrdered-nest, IsOrdered-open, IsOrdered-close,
}

module _ {T : Type 0} (now : ℕ) where
  -- A client's node is stored with something that fits.
  put_client-IsKept :
      (name : String) (c : Client) (s : Undoable T)
      → IsKept now s
      → Fits now (some c) (lookup name s.redo)
      → IsKept now (record s { undo = insert name c s.undo })
  put_client-IsKept name c s k f =
      let s' : Undoable T = record s { undo = insert name c s.undo } in
      IsKept-at now name s s' k (insert-IsTable name c s.undo k.undo_table) k.redo_table
        (record {
          undo_same = λ n e. lookup-insert_other name n c s.undo e;
          redo_same = λ n e. refl;
        })
        (rw lookup-insert_same f)

  open_sequence-IsKept :
      (name : String) (label : Option String) (c : Client) (s : Undoable T)
      → 0 < now
      → IsKept now s
      → IsOrdered now 0 c.index (index_of (lookup name s.redo))
      → IsKept now (open_sequence now name label c s).0
  unfolding open_sequence
  open_sequence-IsKept name label c s z k h =
      let s' : Undoable T = (open_sequence now name label c s).0 in
      IsKept-at now name s s' k (insert-IsTable name _ s.undo k.undo_table)
        (erase-IsTable name s.redo k.redo_table)
        (record {
          undo_same = λ n e. lookup-insert_other name n _ s.undo e;
          redo_same = λ n e. lookup-erase_other name n s.redo e;
        })
        (rw (lookup-insert_same, lookup-erase_same name s.redo k.redo_table)
          (record {
            order =
                IsOrdered-open now (relabel label none) c.index (index_of (lookup name s.redo)) z h;
            undo_top = λ e. absurd (omega (arith, e));
            redo_top = tt;
          }))

  deepen-IsKept :
      (name : String) (c : Client) (s : Undoable T)
      → c.top.nest ≢ 0
      → c.top.nest + 1 < 2 ^ 32
      → IsKept now s
      → Fits now (some c) (lookup name s.redo)
      → IsKept now (deepen name c s).0
  unfolding deepen
  deepen-IsKept name c s n b k f = put_client-IsKept name _ s k (record {
    order =
        IsOrdered-nest c.top.nest ((c.top.nest + 1) % 2 ^ 32) now c.index
          (index_of (lookup name s.redo)) n (omega arith) f.order;
    undo_top = λ e. absurd (omega (arith, e));
    redo_top = f.redo_top;
  })

  begin_at-IsKept :
      (name : String) (label : Option String) (o : Option Client) (s : Undoable T)
      → lookup name s.undo ≡ o
      → 0 < now
      → nest_of o + 1 < 2 ^ 32
      → IsKept now s
      → IsKept now (begin_at now name label o s).0
  unfolding begin_at
  begin_at-IsKept name label none s e z b k =
      open_sequence-IsKept name label new_client s z k (rw e at ((k.clients name).order))
  begin_at-IsKept name label (some c) s e z b k =
      let f : Fits now (some c) (lookup name s.redo) =
        subst (λ x. Fits now x (lookup name s.redo)) e (k.clients name) in
      elim (Bool-cases (c.top.nest == 0)) [
        | inl zero_nest ↦ rw zero_nest (
            open_sequence-IsKept name label c s z k (
              subst (λ x. IsOrdered now x c.index (index_of (lookup name s.redo)))
                ((==_iff c.top.nest 0).0 zero_nest) f.order))
        | inr nested ↦ rw nested (deepen-IsKept name c s (ground (arith, nested)) b k f)
      ]

  pub begin_sequence-IsKept :
      (key : String) (label : Option String) (s : Undoable T)
      → 0 < now
      → nest_of (lookup (node_name key) s.undo) + 1 < 2 ^ 32
      → IsKept now s
      → IsKept now (begin_sequence now key label s).0
  unfolding begin_sequence
  begin_sequence-IsKept key label s z b k = begin_at-IsKept (node_name key) label _ s refl z b k

  close_sequence-IsKept :
      (name : String) (label : Option String) (c : Client) (o : Option Payload) (s : Undoable T)
      → last c.index ≡ o
      → c.top.nest ≡ 1
      → IsKept now s
      → Fits now (some c) (lookup name s.redo)
      → IsKept now (close_sequence now name label c o s).0
  unfolding close_sequence
  close_sequence-IsKept name label c none s e n k f = k
  close_sequence-IsKept name label c (some p) s e n k f = put_client-IsKept name _ s k (record {
    order =
        IsOrdered-close now label c.index (index_of (lookup name s.redo)) p e
          (subst (λ x. IsOrdered now x c.index (index_of (lookup name s.redo))) n f.order);
    undo_top = λ e. last-append _ _;
    redo_top = f.redo_top;
  })

  end_at-IsKept :
      (name : String) (label : Option String) (o : Option Client) (s : Undoable T)
      → lookup name s.undo ≡ o
      → IsKept now s
      → IsKept now (end_at now name label o s).0
  unfolding end_at
  end_at-IsKept name label none s e k = k
  end_at-IsKept name label (some c) s e k =
      let f : Fits now (some c) (lookup name s.redo) =
        subst (λ x. Fits now x (lookup name s.redo)) e (k.clients name) in
      elim (Bool-cases (ltb 1 c.top.nest)) [
        | inl deep ↦ rw deep (
            let big : 1 < c.top.nest = ltb→lt 1 c.top.nest deep in
            put_client-IsKept name _ s k (record {
              order =
                  IsOrdered-nest c.top.nest (c.top.nest - 1) now c.index
                    (index_of (lookup name s.redo)) (omega arith) (omega arith) f.order;
              undo_top = λ e. absurd (omega (arith, e));
              redo_top = f.redo_top;
            }))
        | inr shallow ↦ rw shallow (elim (Bool-cases (c.top.nest == 0)) [
          | inl none_open ↦ rw none_open k
          | inr running ↦ rw running (
              close_sequence-IsKept name label c (last c.index) s refl
                (ground (arith, shallow, running)) k f)
        ])
      ]

  pub end_sequence-IsKept :
      (key : String) (label : Option String) (s : Undoable T)
      → IsKept now s
      → IsKept now (end_sequence now key label s).0
  unfolding end_sequence
  end_sequence-IsKept key label s k = end_at-IsKept (node_name key) label _ s refl k
