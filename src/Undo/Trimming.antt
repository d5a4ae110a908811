-- ===== src/Undo/Trimming.antt =====
-- Trimming the undo stacks: what it does to each client, and that it keeps what the stacks keep.
use Prim.Native.String.{String}
use mathlib.Core.List.{reverse, append-nil}
use zg_choir.Base.{
  ℕ, zero, suc, ◌≡◌, ◌≢◌, refl, sym, subst, ap, ◌∙◌, Bool, false, Option, none, some, List, [], ◌∷◌,
  ◌++◌, arith, inl, inr,
}
use zg_choir.Assoc.{text_key, lookup, same_key}
use zg_choir.Assoc.Laws.{lookup-nil, same-cases, lookup_here, lookup_later}
use zg_choir.Assoc.Distinct.{IsTable}
use zg_choir.Undo.Sequences.{Payload, Client, Stack, Undoable, last}
use zg_choir.Undo.Trim.{trim_index, keep_client, trim_stack}
use zg_choir.Undo.Order.{
  IsOrdered, Runs, trim_index-last, trim_index-Runs, trim_index_idem, trim_index_then,
}
use zg_choir.Undo.Kept.{index_of, Fits, IsKept}

-- A client with these sequences, if there are any.
abbrev pub client_with : Payload → List Payload → Option Client
client_with top [] = none
client_with top (p ∷ l) = some (record { top = top; index = p ∷ l })

module _ (contains : ℕ → Bool) (now : ℕ) where
  abbrev pub trim_client : Option Client → Option Client
  trim_client none = none
  trim_client (some c) = client_with c.top (trim_index contains now c.index)

lookup-keep_client_same :
    (name : String) (top : Payload) (index : List Payload) (rest : Stack)
    → lookup name rest ≡ none
    → lookup name (keep_client name top index rest) ≡ client_with top index
unfolding keep_client
lookup-keep_client_same name top [] rest h = h
lookup-keep_client_same name top (p ∷ l) rest h = lookup_here name name _ rest refl

lookup-keep_client_other :
    (name n : String) (top : Payload) (index : List Payload) (rest : Stack)
    → same_key n name ≡ false
    → lookup name (keep_client n top index rest) ≡ lookup name rest
unfolding keep_client
lookup-keep_client_other name n top [] rest h = refl
lookup-keep_client_other name n top (p ∷ l) rest h = lookup_later name n _ rest h

keep_client-IsTable :
    (n : String) (top : Payload) (index : List Payload) (rest : Stack)
    → lookup n rest ≡ none
    → IsTable rest
    → IsTable (keep_client n top index rest)
unfolding keep_client
keep_client-IsTable n top [] rest h t = t
keep_client-IsTable n top (p ∷ l) rest h t = (h, t)

module _ (contains : ℕ → Bool) (now : ℕ) where
  -- Each client has its own sequences trimmed.
  pub lookup-trim_stack :
      (name : String) (l : Stack)
      → IsTable l
      → lookup name (trim_stack contains now l) ≡ trim_client contains now (lookup name l)
  unfolding trim_stack
  lookup-trim_stack name [] t = rw lookup-nil refl
  lookup-trim_stack name ((n, c) ∷ l) t = elim (same-cases n name) [
    | inl e ↦
        subst
          (λ x.
            lookup x (trim_stack contains now ((n, c) ∷ l))
            ≡ trim_client contains now (lookup x ((n, c) ∷ l)))
          e
          (lookup-keep_client_same n c.top (trim_index contains now c.index)
              (trim_stack contains now l)
              (lookup-trim_stack n l t.1 ∙ ap (trim_client contains now) t.0)
            ∙ ap (trim_client contains now) (sym (lookup_here n n c l refl)))
    | inr e ↦
        lookup-keep_client_other name n c.top (trim_index contains now c.index)
          (trim_stack contains now l) e
        ∙ lookup-trim_stack name l t.1
        ∙ ap (trim_client contains now) (sym (lookup_later name n c l e))
  ]

  pub trim_stack-IsTable : (l : Stack) → IsTable l → IsTable (trim_stack contains now l)
  unfolding trim_stack
  trim_stack-IsTable [] t = t
  trim_stack-IsTable ((n, c) ∷ l) t =
      keep_client-IsTable n c.top (trim_index contains now c.index) (trim_stack contains now l)
        (lookup-trim_stack n l t.1 ∙ ap (trim_client contains now) t.0) (trim_stack-IsTable l t.1)

  keep_client-trim :
      (n : String) (top : Payload) (index : List Payload) (rest : Stack)
      → trim_index contains now index ≡ index
      → trim_stack contains now rest ≡ rest
      → trim_stack contains now (keep_client n top index rest) ≡ keep_client n top index rest
  unfolding trim_stack keep_client
  keep_client-trim n top [] rest e h = h
  keep_client-trim n top (p ∷ l) rest e h = rw (e, h) refl

  -- A second trim removes nothing more.
  pub trim_stack_idem :
      (l : Stack) → trim_stack contains now (trim_stack contains now l) ≡ trim_stack contains now l
  unfolding trim_stack
  trim_stack_idem [] = refl
  trim_stack_idem ((n, c) ∷ l) =
      keep_client-trim n c.top (trim_index contains now c.index) (trim_stack contains now l)
        (trim_index_idem contains now c.index) (trim_stack_idem l)

  IsOrdered-trim :
      (n hi : ℕ) (index redo : List Payload)
      → IsOrdered hi n index redo
      → trim_index contains now index ≢ []
      → IsOrdered hi n (trim_index contains now index) redo
  IsOrdered-trim zero hi index redo h ne = trim_index-Runs contains now index (reverse redo) hi 0 h
  IsOrdered-trim (suc n) hi index redo (nil, (p, l, e, z, none_end, pos, le, runs)) ne =
      (nil, (p, trim_index contains now l, ends, z, none_end, pos, le, runs'))
    where
      ends : trim_index contains now index ≡ trim_index contains now l ++ p ∷ []
      ends = elim (trim_index_then contains now l p) [
        | inl empty ↦ absurd (ne (rw e empty))
        | inr kept ↦ rw e kept
      ]

      runs' : Runs p.start_id 0 (trim_index contains now l)
      runs' = rw append-nil at (trim_index-Runs contains now l [] p.start_id 0 (rw append-nil runs))

  IsOrdered-gone :
      (n hi : ℕ) (index redo : List Payload)
      → IsOrdered hi n index redo
      → trim_index contains now index ≡ []
      → IsOrdered hi 0 [] redo
  IsOrdered-gone zero hi index redo h e =
      rw e at (trim_index-Runs contains now index (reverse redo) hi 0 h)
  IsOrdered-gone (suc n) hi index redo h e = rw (h.0) (omega arith)

  pub Fits-trim :
      (hi : ℕ) (u r : Option Client) → Fits hi u r → Fits hi (trim_client contains now u) r
  Fits-trim hi none r f = f
  Fits-trim hi (some c) r f = left (trim_index contains now c.index) refl
    where
      left :
          (l : List Payload) → trim_index contains now c.index ≡ l → Fits hi (client_with c.top l) r
      left [] e = record {
        order = IsOrdered-gone c.top.nest hi c.index (index_of r) f.order e;
        undo_top = λ z. tt;
        redo_top = f.redo_top;
      }
      left (p ∷ l) e = record {
        order =
            rw e at
              (IsOrdered-trim c.top.nest hi c.index (index_of r) f.order (λ z. cc (sym e ∙ z)));
        undo_top = λ z. elim (trim_index-last contains now c.index) [
          | inl gone ↦ absurd (cc (sym e ∙ gone))
          | inr kept ↦ sym (ap last e) ∙ kept ∙ f.undo_top z
        ];
        redo_top = f.redo_top;
      }

  pub trim_stack-IsKept :
      {T : Type 0} (hi : ℕ) (s : Undoable T)
      → IsKept hi s
      → IsKept hi (record s { undo = trim_stack contains now s.undo })
  trim_stack-IsKept hi s k = record {
    undo_table = trim_stack-IsTable s.undo k.undo_table;
    redo_table = k.redo_table;
    clients = λ name.
        rw (lookup-trim_stack name s.undo k.undo_table)
          (Fits-trim hi (lookup name s.undo) (lookup name s.redo) (k.clients name));
  }
