-- ===== src/Mux/Tests.antt =====
-- The gateway runs on small inputs, and the theorems at them.
use zg_choir.Base.{
  ℕ, ◌≡◌, refl, true, false, Option, none, some, [], ◌∷◌, ◌==◌, ◌&&◌, arith, is_some,
}
use zg_choir.Assoc.{text_key, number_key, lookup, insert, erase, holds}
use zg_choir.Mux.Filters.{Subscription, any_of, send_filter, any, passes, wants, send_filter-passes}
use zg_choir.Mux.State.{Info, Mux, mark, subscribe, unsubscribe, node_updated, Paths}
use zg_choir.Mux.Subscribe.{add_subscription}
use zg_choir.Mux.Unsubscribe.{remove_subscription, unregister}
use zg_choir.Mux.Notify.{node_updated_aux, tell, ensure_in_batch}
use zg_choir.Mux.Leftover.{unregister_leaves}
use zg_choir.Mux.Rollback.{IsFree, add_subscription-refused}
use zg_choir.Mux.Picture.{received_by, know_all, node_updated_aux-received}

-- Paths without a slash in front, which match where they are equal and there is a payload.
abbrev plain : Paths ℕ
plain = record {
  without_slash = λ s. s;
  segments = λ s. 1;
  matches = λ l path msg. is_some (lookup path l) && is_some msg;
}

abbrev quiet : Subscription
quiet = record { subscriber = 7; filter = some 5; flags = 1 }

abbrev loud : Subscription
loud = record { subscriber = 8; filter = some 6; flags = 0 }

abbrev subscriber_info : Info
subscriber_info = record { entries = ("a", some 5) ∷ []; received = [] }

abbrev gateway : Mux
gateway = record {
  infos = (7, some subscriber_info) ∷ (8, none) ∷ [];
  strings = ("a", quiet ∷ []) ∷ [];
  connected = true;
  allowed = [];
  in_batch = false;
  needs_batch_end = [];
  requested = [];
}

two_filters : send_filter (quiet ∷ loud ∷ []) ≡ some (any_of (6 ∷ 5 ∷ []))
unfolding send_filter
two_filters = refl

-- The second subscriber joins the path of the first.
added :
    (add_subscription plain (λ u. true) 8 "a" (some 6) 0 gateway).1
    ≡ mark (8 ∷ []) ∷ subscribe "a" (some (any_of (6 ∷ 5 ∷ []))) 0 ∷ mark [] ∷ []
unfolding add_subscription lookup insert erase send_filter
added = refl

removed : (remove_subscription plain (λ u. true) 7 "a" (some 5) 1 gateway).1 ≡ unsubscribe "a" ∷ []
unfolding remove_subscription lookup insert erase send_filter
removed = refl

updated :
    (node_updated_aux plain none "a" (some 3) "tag" gateway).1
    ≡ node_updated 7 "a" (some 3) "tag" ∷ []
unfolding node_updated_aux lookup insert erase holds tell ensure_in_batch
updated = refl

-- A subscriber who is left out of the update that creates a node does not know of its removal.
unheard :
    (node_updated_aux plain none "a" none ""
      (node_updated_aux plain (some 7) "a" (some 3) "" gateway).0).1
    ≡ []
unfolding node_updated_aux lookup insert erase holds tell ensure_in_batch
unheard = refl

send_filter-passes_example :
    passes (λ f. f == 6) (any (λ f. f == 6)) (send_filter (quiet ∷ loud ∷ []))
    ≡ any (wants (λ f. f == 6) (any (λ f. f == 6))) (quiet ∷ loud ∷ [])
send_filter-passes_example =
    send_filter-passes (λ f. f == 6) (any (λ f. f == 6)) (λ l. refl) (quiet ∷ loud ∷ []) (λ e. cc)

unregister_leaves_example : (unregister plain (λ u. true) 0 7 gateway).strings ≡ gateway.strings
unregister_leaves_example =
    unregister_leaves plain (λ u. true) 0 7 gateway (((λ e. omega arith), tt), tt)

second_IsFree : (o : Option Info) → lookup 8 gateway.infos ≡ some o → IsFree "a" o
unfolding lookup
second_IsFree none e = tt
second_IsFree (some i) e = absurd (cc e)

add_subscription-refused_example :
    (add_subscription plain (λ u. false) 8 "a" none 0 gateway).0 ≡ gateway
unfolding add_subscription lookup insert erase send_filter
add_subscription-refused_example =
    add_subscription-refused plain (λ u. false) 8 "a" none 0 gateway second_IsFree (λ e. cc)
      (λ e. cc)

node_updated_aux-received_example :
    know_all plain 7
      (node_updated_aux plain none "a" (some 3) "" gateway).1
      (received_by (lookup 7 gateway.infos))
    ≡ some (received_by (lookup 7 (node_updated_aux plain none "a" (some 3) "" gateway).0.infos))
node_updated_aux-received_example = node_updated_aux-received plain 7 none "a" (some 3) "" gateway
