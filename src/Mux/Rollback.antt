-- ===== src/Mux/Rollback.antt =====
-- A subscription that fails upstream is taken back.
use Prim.Native.String.{String}
use zg_choir.Base.{
  ℕ, ◌≡◌, ◌≢◌, refl, ap, ◌∙◌, Bool, not, Option, none, some, List, [], ◌∷◌, ◌++◌, if_inv,
}
use zg_choir.Assoc.{text_key, number_key, lookup, insert, erase}
use zg_choir.Assoc.Laws.{lookup-nil, lookup-insert_same}
use zg_choir.Assoc.Again.{insert-insert, insert_known, erase-insert_fresh}
use zg_choir.Mux.Filters.{Subscription}
use zg_choir.Mux.State.{
  Info, Mux, Upstream, Callback, Status, fine, bad_argument, bad_object, data_not_found, refused,
  Paths,
}
use zg_choir.Mux.Subscribe.{
  put_queue, queue_or_empty, without_last, none_if_empty, info_or_new, settle, Result,
  update_subscription, roll_back, subscribe_info, add_for, add_subscription,
}

without_last-append : (q : List Subscription) (s : Subscription) → without_last (q ++ s ∷ []) ≡ q
unfolding without_last
without_last-append [] s = refl
without_last-append (t ∷ []) s = refl
without_last-append (t ∷ u ∷ q) s = ap (λ x. t ∷ x) (without_last-append (u ∷ q) s)

-- A queue that has got a subscription and lost it again.
put_queue_back :
    (path : String) (s : Subscription) (o : Option (List Subscription))
    (l : List (String × List Subscription))
    → lookup path l ≡ o
    → o ≢ some []
    → let q = queue_or_empty o ++ s ∷ [] in
      put_queue path
        (without_last (queue_or_empty (lookup path (insert path q l))))
        (insert path q l)
      ≡ l
unfolding put_queue queue_or_empty
put_queue_back path s none l e ne =
    rw (lookup-insert_same path (s ∷ []) l, without_last-append [] s)
      (erase-insert_fresh path (s ∷ []) l e)
put_queue_back path s (some []) l e ne = absurd (ne refl)
put_queue_back path s (some (t ∷ q)) l e ne =
    rw (lookup-insert_same path (t ∷ (q ++ s ∷ [])) l, without_last-append (t ∷ q) s)
      (insert-insert path (t ∷ q) (t ∷ (q ++ s ∷ [])) l ∙ insert_known path (t ∷ q) l e)

-- What a subscriber must have for a roll back to be exact: entries, if any, and none for the path.
abbrev pub IsFree : String → Option Info → Type 0
IsFree ps none = Unit
IsFree ps (some i) = (lookup ps i.entries ≡ none) × (i.entries ≢ [])

some_if_filled : (i : Info) → i.entries ≢ [] → none_if_empty i ≡ some i
some_if_filled i h = by_entries i.entries refl
  where
    by_entries : (l : List (String × Option ℕ)) → i.entries ≡ l → none_if_empty i ≡ some i
    by_entries [] e = absurd (h e)
    by_entries (x ∷ l) e = rw e refl

info_back :
    (ps : String) (filter : Option ℕ) (o : Option Info)
    → IsFree ps o
    → let i = info_or_new o in
      none_if_empty (record i { entries = erase ps (insert ps filter i.entries) }) ≡ o
info_back ps filter none h = rw (erase-insert_fresh ps filter [] (lookup-nil ps)) refl
info_back ps filter (some i) h =
    rw (erase-insert_fresh ps filter i.entries h.0) (some_if_filled i h.1)

module _ {M : Type 0} (paths : Paths M) (network : Upstream → Bool) (sub : ℕ) (path : String)
    (filter : Option ℕ) (flags : ℕ) (m : Mux) where
  abbrev entered : Subscription
  entered = record { subscriber = sub; filter = filter; flags = flags }

  -- The gateway after the subscription has entered its queue.
  abbrev queued : Mux
  queued = record m {
    strings = insert path (queue_or_empty (lookup path m.strings) ++ entered ∷ []) m.strings;
  }

  roll_back_lem :
      (o : Option Info)
      → lookup sub m.infos ≡ some o
      → IsFree (paths.without_slash path) o
      → lookup path m.strings ≢ some []
      → let i = info_or_new o in
        let i' : Info = record i { entries = insert (paths.without_slash path) filter i.entries } in
        roll_back paths network sub path i' (record queued { infos = insert sub (some i') m.infos })
        ≡ m
  unfolding roll_back
  roll_back_lem o e free ne =
      let ps = paths.without_slash path in
      let back = info_back ps filter o free in
      let infos_back =
        insert-insert sub _ _ m.infos
        ∙ ap (λ x. insert sub x m.infos) back
        ∙ insert_known sub o m.infos e in
      let strings_back = put_queue_back path entered (lookup path m.strings) m.strings refl ne in
      λ j. record m { infos = infos_back j; strings = strings_back j }

  settle-refused :
      (new old : Mux) (calls : List Upstream) (told : List (Callback M)) (st : Status)
      → old ≡ m
      → let r = settle paths network new old calls told st in r.3 ≢ fine → r.0 ≡ m
  unfolding settle
  settle-refused new old calls told fine e n = absurd (n refl)
  settle-refused new old calls told bad_argument e n = e
  settle-refused new old calls told bad_object e n = e
  settle-refused new old calls told data_not_found e n = e
  settle-refused new old calls told refused e n = e

  subscribe_info-refused :
      (o : Option Info) (told : List (Callback M))
      → lookup sub m.infos ≡ some o
      → IsFree (paths.without_slash path) o
      → lookup path m.strings ≢ some []
      → let r = subscribe_info paths network sub path filter flags (info_or_new o) queued told in
        r.3 ≢ fine → r.0 ≡ m
  unfolding subscribe_info
  subscribe_info-refused o told e free ne =
      let i = info_or_new o in
      let i' : Info = record i { entries = insert (paths.without_slash path) filter i.entries } in
      let new : Mux = record queued { infos = insert sub (some i') m.infos } in
      let done = update_subscription network path (some sub) flags new in
      if_inv (λ (r : Result paths network). r.3 ≢ fine → r.0 ≡ m) (not m.connected)
        (λ n. absurd (n refl))
        (settle-refused new (roll_back paths network sub path i' new) done.0 told done.1
          (roll_back_lem o e free ne))

-- A subscription that fails leaves the gateway as it was: where the subscriber has no entry for
-- the path yet and, if he has entries kept, some, and no empty queue is kept for the path.
pub add_subscription-refused :
    {M : Type 0} (paths : Paths M) (network : Upstream → Bool) (sub : ℕ) (path : String)
    (filter : Option ℕ) (flags : ℕ) (m : Mux)
    → ((o : Option Info) → lookup sub m.infos ≡ some o → IsFree (paths.without_slash path) o)
    → lookup path m.strings ≢ some []
    → (add_subscription paths network sub path filter flags m).3 ≢ fine
    → (add_subscription paths network sub path filter flags m).0 ≡ m
unfolding add_subscription add_for
add_subscription-refused paths network sub path filter flags m free ne bad =
    by_info (lookup sub m.infos) refl bad
  where
    by_info :
        (o : Option (Option Info))
        → lookup sub m.infos ≡ o
        → (add_for paths network sub path filter flags o m).3 ≢ fine
        → (add_for paths network sub path filter flags o m).0 ≡ m
    by_info none e n = refl
    by_info (some o) e n =
        subscribe_info-refused paths network sub path filter flags m o _ e (free o e) ne n
