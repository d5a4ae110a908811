-- ===== src/Mux/Subscribe.antt =====
-- Subscriptions of `MuxTreeGateway`: `TreeGateway_AddSubscription`, `TreeGateway_RemoveSubscription`,
-- `TreeGateway_RemoveAllSubscriptions` and `UpdateSubscription` in
-- src/messagetree/gateway/MuxTreeGateway.cpp.
--
-- `network` says whether a call upstream succeeds. What is called comes back beside the state.
use mathlib.Core.List.{reverse}
use Prim.Native.String.{String}
use zg_choir.Base.{
  ℕ, Bool, true, false, not, ◌&&◌, Option, none, some, List, [], ◌∷◌, ◌++◌, map, if◌then◌else◌,
}
use zg_choir.Assoc.{text_key, number_key, lookup, insert, erase}
use zg_choir.Mux.Filters.{Subscription, send_filter}
use zg_choir.Mux.State.{
  Info, Mux, Upstream, mark, subscribe, unsubscribe, Callback, connection_changed, Status, fine,
  bad_argument, refused, Paths,
}

-- Calls that are made in turn until one fails.
unfoldable pub call_all : (Upstream → Bool) → List Upstream → List Upstream × Status
call_all network [] = ([], fine)
call_all network (u ∷ l) =
    let rest = call_all network l in if network u then (u ∷ rest.0, rest.1) else (u ∷ [], refused)

-- The subscribers whose initial results are marked: the one that asks, or all of them.
unfoldable pub marked : Option ℕ → List Subscription → List ℕ
marked none q = map (λ (s : Subscription). s.subscriber) (reverse q)
marked (some sub) q = sub ∷ []

-- The calls of `UpdateSubscription`.
unfoldable pub update_calls : String → Option ℕ → ℕ → Option (List Subscription) → List Upstream
unfolding marked
update_calls path sub flags none = unsubscribe path ∷ []
update_calls path sub flags (some []) = unsubscribe path ∷ []
update_calls path sub flags (some (s ∷ q)) =
    mark (marked sub (s ∷ q)) ∷ subscribe path (send_filter (s ∷ q)) flags ∷ mark [] ∷ []

unfoldable pub update_subscription :
    (Upstream → Bool) → String → Option ℕ → ℕ → Mux → List Upstream × Status
unfolding call_all update_calls
update_subscription network path sub flags m =
    call_all network (update_calls path sub flags (lookup path m.strings))

abbrev pub empty_info : Info
empty_info = record { entries = []; received = [] }

unfoldable pub queue_or_empty : Option (List Subscription) → List Subscription
queue_or_empty none = []
queue_or_empty (some q) = q

-- A queue that is empty is not kept.
unfoldable pub put_queue :
    String
    → List Subscription
    → List (String × List Subscription)
    → List (String × List Subscription)
put_queue path [] strings = erase path strings
put_queue path (s ∷ q) strings = insert path (s ∷ q) strings

-- What the loop of a failed subscription takes back: the last subscription of the queue.
unfoldable pub without_last : List Subscription → List Subscription
without_last [] = []
without_last (s ∷ []) = []
without_last (s ∷ t ∷ q) = s ∷ without_last (t ∷ q)

-- The subscriber's information, made on demand.
abbrev pub info_or_new : Option Info → Info
info_or_new none = empty_info
info_or_new (some i) = i

abbrev pub is_new : Option Info → Bool
is_new none = true
is_new (some i) = false

-- Whether there is nothing left of a subscriber's entries.
abbrev pub none_if_empty : Info → Option Info
none_if_empty i = elim i.entries [ [] ↦ none | e ∷ l ↦ some i ]

module _ {M : Type 0} (paths : Paths M) (network : Upstream → Bool) where
  -- What a call leaves: the gateway, the calls upstream, the callbacks, and the status.
  abbrev pub Result : Type 0
  Result = Mux × List Upstream × List (Callback M) × Status

  unfoldable pub roll_back : ℕ → String → Info → Mux → Mux
  unfolding put_queue queue_or_empty without_last
  roll_back sub path i m =
      let ps = paths.without_slash path in
      let i' : Info = record i { entries = erase ps i.entries } in
      let q = queue_or_empty (lookup path m.strings) in
      record m {
        infos = insert sub (none_if_empty i') m.infos;
        strings = put_queue path (without_last q) m.strings;
      }

  -- The gateway as it has become where upstream agrees, else the one that is rolled back.
  unfoldable pub settle : Mux → Mux → List Upstream → List (Callback M) → Status → Result
  settle new old calls told fine = (new, calls, told, fine)
  settle new old calls told st = (old, calls, told, st)

  -- The subscriber's own entry is put, and upstream is told if there is a connection.
  unfoldable pub subscribe_info :
      ℕ → String → Option ℕ → ℕ → Info → Mux → List (Callback M) → Result
  unfolding update_subscription roll_back settle
  subscribe_info sub path filter flags i m told =
      let ps = paths.without_slash path in
      let i' : Info = record i { entries = insert ps filter i.entries } in
      let m' : Mux = record m { infos = insert sub (some i') m.infos } in
      let (calls, st) = update_subscription network path (some sub) flags m' in
      if not m.connected
      then (m', [], told, fine)
      else settle m' (roll_back sub path i' m') calls told st

  unfoldable pub add_for : ℕ → String → Option ℕ → ℕ → Option (Option Info) → Mux → Result
  unfolding subscribe_info queue_or_empty
  add_for sub path filter flags none m = (m, [], [], bad_argument)
  add_for sub path filter flags (some o) m =
      let s : Subscription = record { subscriber = sub; filter = filter; flags = flags } in
      let q = queue_or_empty (lookup path m.strings) ++ s ∷ [] in
      let m' : Mux = record m { strings = insert path q m.strings } in
      subscribe_info sub path filter flags (info_or_new o) m'
        (if m.connected && is_new o then connection_changed sub ∷ [] else [])

  -- `TreeGateway_AddSubscription`.
  unfoldable pub add_subscription : ℕ → String → Option ℕ → ℕ → Mux → Result
  unfolding add_for
  add_subscription sub path filter flags m = add_for sub path filter flags (lookup sub m.infos) m
