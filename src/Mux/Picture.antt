-- ===== src/Mux/Picture.antt =====
-- What the subscribers know of the nodes is what the gateway keeps of it.
use Prim.Native.String.{String}
use mathlib.Core.Path.{fun_ext}
use zg_choir.Base.{
  ℕ, ◌≡◌, refl, sym, subst, ap, ◌∙◌, true, false, not, ◌&&◌, Option, none, some, List, [], ◌∷◌,
  ◌++◌, ◌==◌, ==_iff, Bool-cases, inl, inr, if_inv, if◌then◌else◌,
}
use zg_choir.Assoc.{text_key, number_key, lookup, insert, erase, has, holds, keys_of}
use zg_choir.Assoc.Laws.{lookup-insert_same, lookup-insert_other, same-cases}
use zg_choir.Mux.State.{
  Info, Mux, Callback, connection_changed, node_updated, begin_batch, end_batch, Paths,
}
use zg_choir.Mux.Notify.{
  is_none_of, is_excluded, ensure_in_batch, tell, does_path_match, update_subscriber, visit_info,
  visit_all, node_updated_aux,
}

-- The paths that the gateway keeps for a subscriber.
unfoldable pub received_by : Option (Option Info) → List (String × ℕ)
received_by none = []
received_by (some none) = []
received_by (some (some i)) = i.received

module _ {M : Type 0} (paths : Paths M) where
  -- What a subscriber knows of after a callback: nothing fits a removal of a path that he does not
  -- know.
  unfoldable pub know_node : String → Option M → List (String × ℕ) → Option (List (String × ℕ))
  know_node path (some msg) known = some (insert path (paths.segments path) known)
  know_node path none known = if has path known then some (erase path known) else none

  unfoldable pub know : ℕ → Callback M → List (String × ℕ) → Option (List (String × ℕ))
  unfolding know_node
  know sub (node_updated s path msg tag) known =
      if s == sub then know_node path msg known else some known
  know sub (connection_changed s) known = some known
  know sub (begin_batch s) known = some known
  know sub (end_batch s) known = some known

  unfoldable pub and_know :
      Option (List (String × ℕ))
      → (List (String × ℕ) → Option (List (String × ℕ)))
      → Option (List (String × ℕ))
  and_know none f = none
  and_know (some l) f = f l

  unfoldable pub know_all : ℕ → List (Callback M) → List (String × ℕ) → Option (List (String × ℕ))
  unfolding know and_know
  know_all sub [] known = some known
  know_all sub (c ∷ l) known = and_know (know sub c known) (know_all sub l)

  and_know_assoc :
      (o : Option (List (String × ℕ))) (f g : List (String × ℕ) → Option (List (String × ℕ)))
      → and_know (and_know o f) g ≡ and_know o (λ l. and_know (f l) g)
  unfolding and_know
  and_know_assoc none f g = refl
  and_know_assoc (some l) f g = refl

  know_all-append :
      (sub : ℕ) (xs ys : List (Callback M)) (known : List (String × ℕ))
      → know_all sub (xs ++ ys) known ≡ and_know (know_all sub xs known) (know_all sub ys)
  unfolding know_all
  know_all-append sub [] ys known = refl
  know_all-append sub (c ∷ xs) ys known =
      ap (and_know (know sub c known)) (fun_ext (know_all-append sub xs ys))
      ∙ sym (and_know_assoc (know sub c known) (know_all sub xs) (know_all sub ys))

  -- A subscriber hears of a call what the gateway then keeps for him.
  abbrev Agrees : ℕ → Mux → Mux × List (Callback M) → Type 0
  Agrees sub m r =
      know_all sub r.1 (received_by (lookup sub m.infos))
      ≡ some (received_by (lookup sub r.0.infos))

  Agrees-refl : (sub : ℕ) (m : Mux) → Agrees sub m (m, [])
  unfolding know_all
  Agrees-refl sub m = refl

  ensure_in_batch-quiet :
      (s sub : ℕ) (m : Mux) (known : List (String × ℕ))
      → (know_all s (ensure_in_batch sub m).1 known ≡ some known)
        × ((ensure_in_batch {M = M} sub m).0.infos ≡ m.infos)
  unfolding ensure_in_batch know_all
  ensure_in_batch-quiet s sub m known =
      if_inv
        (λ (r : Mux × List (Callback M)).
          (know_all s r.1 known ≡ some known) × (r.0.infos ≡ m.infos))
        (m.in_batch && not (holds sub m.needs_batch_end)) (refl, refl) (refl, refl)

  hear_one_same :
      (sub : ℕ) (path : String) (msg : Option M) (tag : String) (known : List (String × ℕ))
      → know_all sub (node_updated sub path msg tag ∷ []) known ≡ know_node path msg known
  unfolding know_all
  hear_one_same sub path msg tag known =
      let here : (sub == sub) ≡ true = (==_iff sub sub).1 refl in
      rw here (back (know_node path msg known))
    where
      back : (o : Option (List (String × ℕ))) → and_know o (λ l. some l) ≡ o
      back none = refl
      back (some l) = refl

  hear_one_other :
      (s sub : ℕ) (path : String) (msg : Option M) (tag : String) (known : List (String × ℕ))
      → (sub == s) ≡ false
      → know_all s (node_updated sub path msg tag ∷ []) known ≡ some known
  unfolding know_all
  hear_one_other s sub path msg tag known e = rw e refl

  -- The callbacks of a subscriber's batch say nothing of nodes.
  hear_after_begin :
      (s sub : ℕ) (one : List (Callback M)) (m : Mux) (known : List (String × ℕ))
      → know_all s ((ensure_in_batch sub m).1 ++ one) known ≡ know_all s one known
  unfolding and_know
  hear_after_begin s sub one m known =
      know_all-append s (ensure_in_batch sub m).1 one known
      ∙ ap (λ o. and_know o (know_all s one)) (ensure_in_batch-quiet s sub m known).0

  Agrees-tell :
      (s sub : ℕ) (i : Info) (received : List (String × ℕ)) (path : String) (msg : Option M)
      (tag : String) (m : Mux)
      → lookup sub m.infos ≡ some (some i)
      → know_node path msg i.received ≡ some received
      → Agrees s m (tell sub i received path msg tag m)
  unfolding tell received_by
  Agrees-tell s sub i received path msg tag m found known =
      let new : Option Info = some (record i { received = received }) in
      let one = node_updated sub path msg tag ∷ [] in
      let infos_kept = (ensure_in_batch-quiet s sub m []).1 in
      elim (same-cases sub s) [
        | inl e ↦
            subst (λ x. Agrees x m (tell sub i received path msg tag m)) e
              (hear_after_begin sub sub one m (received_by (lookup sub m.infos))
                ∙ hear_one_same sub path msg tag (received_by (lookup sub m.infos))
                ∙ ap (λ o. know_node path msg (received_by o)) found
                ∙ known
                ∙ ap (λ o. some (received_by o))
                    (sym (lookup-insert_same sub new (ensure_in_batch {M = M} sub m).0.infos)))
        | inr e ↦
            hear_after_begin s sub one m (received_by (lookup s m.infos))
            ∙ hear_one_other s sub path msg tag (received_by (lookup s m.infos)) e
            ∙ ap (λ l. some (received_by (lookup s l))) (sym infos_kept)
            ∙ ap (λ o. some (received_by o))
                (sym (lookup-insert_other sub s new (ensure_in_batch {M = M} sub m).0.infos e))
      ]

  Agrees-update :
      (s sub : ℕ) (i : Info) (path : String) (msg : Option M) (tag : String) (m : Mux)
      → lookup sub m.infos ≡ some (some i)
      → Agrees s m (update_subscriber paths sub i path msg tag m)
  unfolding update_subscriber know_node
  Agrees-update s sub i path (some msg) tag m found =
      Agrees-tell s sub i _ path (some msg) tag m found refl
  Agrees-update s sub i path none tag m found = elim (Bool-cases (has path i.received)) [
    | inl e ↦ rw e (Agrees-tell s sub i _ path none tag m found (rw e refl))
    | inr e ↦ rw e (Agrees-refl s m)
  ]

  Agrees-visit :
      (s sub : ℕ) (excluded : Option ℕ) (o : Option (Option Info)) (path : String) (msg : Option M)
      (tag : String) (m : Mux)
      → lookup sub m.infos ≡ o
      → Agrees s m (visit_info paths excluded sub o path msg tag m)
  unfolding visit_info
  Agrees-visit s sub excluded none path msg tag m e = Agrees-refl s m
  Agrees-visit s sub excluded (some none) path msg tag m e = Agrees-refl s m
  Agrees-visit s sub excluded (some (some i)) path msg tag m e =
      if_inv (Agrees s m) (is_excluded excluded sub) (Agrees-refl s m) (
        Agrees-update s sub i path
          (if does_path_match paths m.allowed sub i path msg then msg else none) tag m e)

  Agrees-visit_all :
      (l : List ℕ) (s : ℕ) (excluded : Option ℕ) (path : String) (msg : Option M) (tag : String)
      (m : Mux)
      → Agrees s m (visit_all paths l excluded path msg tag m)
  unfolding visit_all and_know
  Agrees-visit_all [] s excluded path msg tag m = Agrees-refl s m
  Agrees-visit_all (sub ∷ l) s excluded path msg tag m =
      let r = visit_info paths excluded sub (lookup sub m.infos) path msg tag m in
      let q = visit_all paths l excluded path msg tag r.0 in
      know_all-append s r.1 q.1 (received_by (lookup s m.infos))
      ∙ ap (λ o. and_know o (know_all s q.1))
          (Agrees-visit s sub excluded (lookup sub m.infos) path msg tag m refl)
      ∙ Agrees-visit_all l s excluded path msg tag r.0

  -- After an update of a node, the paths that the gateway keeps for a subscriber are those that
  -- the subscriber knows of by the callbacks that he got, and no callback removes a path that he
  -- did not know of.
  pub node_updated_aux-received :
      (s : ℕ) (excluded : Option ℕ) (path : String) (msg : Option M) (tag : String) (m : Mux)
      → let r = node_updated_aux paths excluded path msg tag m in
        know_all s r.1 (received_by (lookup s m.infos)) ≡ some (received_by (lookup s r.0.infos))
  unfolding node_updated_aux
  node_updated_aux-received s excluded path msg tag m =
      Agrees-visit_all (if is_none_of m.allowed then keys_of m.infos else m.allowed) s excluded path
        msg tag m
