-- ===== src/Mux/Leftover.antt =====
-- A subscription with flags outlives its subscriber.
use Prim.Native.String.{String}
use zg_choir.Base.{
  ℕ, ◌≡◌, ◌≢◌, refl, ap, ◌∙◌, Bool, Option, none, some, List, [], ◌∷◌, arith, All, Bool-cases, inl,
  inr, if_inv, Option-cases,
}
use zg_choir.Assoc.{text_key, number_key, same_key, lookup, has}
use zg_choir.Assoc.Laws.{found_here, found_later}
use zg_choir.Mux.Filters.{Subscription}
use zg_choir.Mux.State.{Info, Mux, Upstream, Status, fine, Paths}
use zg_choir.Mux.Unsubscribe.{
  is_same, without_first, remove_given, remove_from, remove_subscription, remove_entries,
  remove_all_of, remove_all, unregister,
}

-- No subscription of the subscriber is without flags.
abbrev pub IsFlagged : ℕ → List Subscription → Type 0
IsFlagged sub q = All (λ (s : Subscription). s.subscriber ≡ sub → s.flags ≢ 0) q

abbrev pub AllFlagged : ℕ → List (String × List Subscription) → Type 0
AllFlagged sub l = All (λ (e : String × List Subscription). IsFlagged sub e.1) l

lookup-AllFlagged :
    (sub : ℕ) (path : String) (q : List Subscription) (l : List (String × List Subscription))
    → AllFlagged sub l
    → lookup path l ≡ some q
    → IsFlagged sub q
unfolding lookup
lookup-AllFlagged sub path q [] h e = ground arith
lookup-AllFlagged sub path q ((p, v) ∷ l) h e = elim (Bool-cases (same_key p path)) [
  | inl i ↦ rw (← found_here path p v q l i e) h.0
  | inr i ↦ lookup-AllFlagged sub path q l h.1 (found_later path p v q l i e)
]

without_first-none :
    (sub : ℕ) (filter : Option ℕ) (q : List Subscription)
    → IsFlagged sub q
    → without_first (record { subscriber = sub; filter = filter; flags = 0 }) q ≡ none
unfolding without_first is_same
without_first-none sub filter [] h = refl
without_first-none sub filter (t ∷ q) h =
    let s : Subscription = record { subscriber = sub; filter = filter; flags = 0 } in
    elim (Bool-cases (is_same s t)) [
      | inl same ↦ absurd (h.0 (ground (arith, same)) (ground (arith, same)))
      | inr other ↦ rw (other, without_first-none sub filter q h.1) refl
    ]

module _ {M : Type 0} (paths : Paths M) (network : Upstream → Bool) where
  remove_subscription-same :
      (sub : ℕ) (path : String) (filter : Option ℕ) (m : Mux)
      → AllFlagged sub m.strings
      → (remove_subscription paths network sub path filter 0 m).0 ≡ m
  unfolding remove_subscription remove_from remove_given
  remove_subscription-same sub path filter m h = elim (Option-cases (lookup path m.strings)) [
    | inl gone ↦ rw gone refl
    | inr (q, e) ↦
        rw (e, without_first-none sub filter q (lookup-AllFlagged sub path q m.strings h e)) refl
  ]

  remove_entries-same :
      (sub : ℕ) (l : List (String × Option ℕ)) (m m' : Mux) (calls : List Upstream) (st : Status)
      → m' ≡ m
      → AllFlagged sub m.strings
      → (remove_entries paths network sub l m' calls st).0 ≡ m
  unfolding remove_entries
  remove_entries-same sub [] m m' calls st e h = e
  remove_entries-same sub ((path, filter) ∷ l) m m' calls st e h =
      remove_entries-same sub l m _ _ _
        (ap (λ x. (remove_subscription paths network sub path filter 0 x).0) e
          ∙ remove_subscription-same sub path filter m h)
        h

  remove_all_of-same :
      (sub : ℕ) (o : Option (Option Info)) (m : Mux)
      → AllFlagged sub m.strings
      → (remove_all_of paths network sub o m).0 ≡ m
  unfolding remove_all_of
  remove_all_of-same sub none m h = refl
  remove_all_of-same sub (some none) m h = refl
  remove_all_of-same sub (some (some i)) m h = remove_entries-same sub i.entries m m [] fine refl h

  remove_all-same :
      (sub : ℕ) (m : Mux) → AllFlagged sub m.strings → (remove_all paths network sub m).0 ≡ m
  unfolding remove_all
  remove_all-same sub m h = remove_all_of-same sub (lookup sub m.infos) m h

  -- The queues of subscriptions are the same after a subscriber unregisters, where none of his
  -- subscriptions is without flags: they outlive their subscriber.
  pub unregister_leaves :
      (dummy sub : ℕ) (m : Mux)
      → AllFlagged sub m.strings
      → (unregister paths network dummy sub m).strings ≡ m.strings
  unfolding unregister
  unregister_leaves dummy sub m h =
      if_inv (λ (x : Mux). x.strings ≡ m.strings) (has sub m.infos)
        (ap (λ (x : Mux). x.strings) (remove_all-same sub m h)) refl
