-- ===== src/Mux/Unsubscribe.antt =====
-- The end of subscriptions: `TreeGateway_RemoveSubscription`, `TreeGateway_RemoveAllSubscriptions`
-- and `UnregisterSubscriber` in src/messagetree/gateway/MuxTreeGateway.cpp.
use Prim.Native.String.{String}
use zg_choir.Base.{
  ℕ, Bool, true, false, ◌&&◌, Option, none, some, List, [], ◌∷◌, ◌++◌, ◌==◌, if◌then◌else◌, keep,
}
use zg_choir.Assoc.{text_key, number_key, lookup, insert, erase, has, holds}
use zg_choir.Mux.Filters.{Subscription}
use zg_choir.Mux.State.{Info, Mux, Upstream, Status, fine, data_not_found, Paths}
use zg_choir.Mux.Subscribe.{put_queue, update_subscription, none_if_empty}

unfoldable pub same_filter : Option ℕ → Option ℕ → Bool
same_filter none none = true
same_filter (some f) (some g) = f == g
same_filter _ _ = false

unfoldable pub is_same : Subscription → Subscription → Bool
unfolding same_filter
is_same s t = t.subscriber == s.subscriber && (same_filter t.filter s.filter && s.flags == t.flags)

unfoldable pub behind : Subscription → Option (List Subscription) → Option (List Subscription)
behind t none = none
behind t (some l) = some (t ∷ l)

-- The queue without the first equal subscription, if there is one.
unfoldable pub without_first : Subscription → List Subscription → Option (List Subscription)
unfolding is_same behind
without_first s [] = none
without_first s (t ∷ q) =
    let rest = behind t (without_first s q) in if is_same s t then some q else rest

unfoldable pub remove_number : ℕ → List ℕ → List ℕ
remove_number n [] = []
remove_number n (k ∷ l) = let rest = k ∷ remove_number n l in if k == n then l else rest

-- A call's state, its calls upstream, and its status.
abbrev pub Outcome : Type 0
Outcome = Mux × List Upstream × Status

module _ {M : Type 0} (paths : Paths M) (network : Upstream → Bool) where
  -- What is left of the subscriber's own entries, and of the paths that he has heard of.
  unfoldable pub forget_entry : String → Info → Info
  forget_entry path i =
      let left = erase (paths.without_slash path) i.entries in
      record {
        entries = left;
        received = keep (λ (r : String × ℕ). paths.matches left r.0 none) i.received;
      }

  unfoldable pub forget_for : ℕ → String → Option (Option Info) → Mux → Mux
  unfolding forget_entry
  forget_for sub path none m = m
  forget_for sub path (some none) m = m
  forget_for sub path (some (some i)) m = record m {
    infos = insert sub (none_if_empty (forget_entry path i)) m.infos;
  }

  unfoldable pub remove_found : ℕ → String → List Subscription → Mux → Outcome
  unfolding put_queue update_subscription forget_for
  remove_found sub path q m =
      let shorter : Mux = record m { strings = insert path q m.strings } in
      let calls = (update_subscription network path (some sub) 0 shorter).0 in
      let m' : Mux = record m { strings = put_queue path q m.strings } in
      (forget_for sub path (lookup sub m'.infos) m', calls, fine)

  unfoldable pub remove_given : Subscription → String → Option (List Subscription) → Mux → Outcome
  unfolding remove_found
  remove_given s path none m = (m, [], data_not_found)
  remove_given s path (some q) m = remove_found s.subscriber path q m

  unfoldable pub remove_from : Subscription → String → Option (List Subscription) → Mux → Outcome
  unfolding without_first remove_given
  remove_from s path none m = (m, [], fine)
  remove_from s path (some q) m = remove_given s path (without_first s q) m

  -- `TreeGateway_RemoveSubscription`.
  unfoldable pub remove_subscription : ℕ → String → Option ℕ → ℕ → Mux → Outcome
  unfolding remove_from
  remove_subscription sub path filter flags m =
      remove_from (record { subscriber = sub; filter = filter; flags = flags }) path
        (lookup path m.strings) m

  -- The last error of the two, if there is one.
  unfoldable pub last_error : Status → Status → Status
  last_error st fine = st
  last_error st other = other

  -- The loop over a copy of the entries: each one is removed under the text that the path matcher
  -- has for it, and without flags.
  unfoldable pub remove_entries :
      ℕ → List (String × Option ℕ) → Mux → List Upstream → Status → Outcome
  unfolding remove_subscription last_error
  remove_entries sub [] m calls st = (m, calls, st)
  remove_entries sub ((path, filter) ∷ l) m calls st =
      let (m', more, st') = remove_subscription sub path filter 0 m in
      remove_entries sub l m' (calls ++ more) (last_error st st')

  unfoldable pub remove_all_of : ℕ → Option (Option Info) → Mux → Outcome
  unfolding remove_entries
  remove_all_of sub none m = (m, [], data_not_found)
  remove_all_of sub (some none) m = (m, [], fine)
  remove_all_of sub (some (some i)) m = remove_entries sub i.entries m [] fine

  -- `TreeGateway_RemoveAllSubscriptions`.
  unfoldable pub remove_all : ℕ → Mux → Outcome
  unfolding remove_all_of
  remove_all sub m = remove_all_of sub (lookup sub m.infos) m

  -- `UnregisterSubscriber`. The dummy keeps the callbacks of a marked subscriber from all others.
  unfoldable pub unregister : ℕ → ℕ → Mux → Mux
  unfolding remove_all remove_number
  unregister dummy sub m =
      let m' = (remove_all sub m).0 in
      let others = remove_number sub m'.allowed in
      if has sub m.infos
      then record m' {
        infos = erase sub m'.infos;
        allowed =
            if holds sub m'.allowed
            then (if holds dummy others then others else others ++ dummy ∷ [])
            else m'.allowed;
        needs_batch_end = remove_number sub m'.needs_batch_end;
        requested = erase sub m'.requested;
      }
      else m
