-- ===== src/Network/Orders.antt =====
-- `PZGUnicastSession` (src/private/PZGUnicastSession.cpp): the back-orders over one connection.
use zg_choir.Base.{
  ℕ, suc, ◌+◌, ◌≡◌, refl, ap, ◌∙◌, Bool, true, false, not, ◌&&◌, Option, none, some, List, [], ◌∷◌,
  ◌++◌, if◌then◌else◌, ◌==◌, arith, inl, inr, Bool-cases, if_inv, if_true, if_false,
}
use zg_choir.Peer.{PeerId, is_valid}
use zg_choir.Platform.{Platform, Status, ok, logic_error}
use zg_choir.Update.{Update}
use zg_choir.Replica.State.{BackOrderKey, key_eq, on_order, cancel, full_update_id}

-- The messages of the connection: a peer's name, an order, which may say that it is due to a
-- checksum, an order's answer, and what is passed on.
pub data UnicastMessage (P : Platform) : Type 0 where
  announce : Option PeerId → UnicastMessage P
  order : Option BackOrderKey → Bool → UnicastMessage P
  answer : Option BackOrderKey → Option (Update P) → UnicastMessage P
  passed_on : ℕ → UnicastMessage P

-- The session, with the calls that it makes of its master: the results of back-orders, the
-- checksums to verify, and the messages passed on.
pub record Unicast (P : Platform) : Type 0 where
  pub remote_peer : PeerId
  pub has_master : Bool
  pub registered : Bool
  pub ended : Bool
  pub open_orders : List BackOrderKey
  pub sent : List (UnicastMessage P)
  pub results : List (BackOrderKey × Option (Update P))
  pub to_verify : List ℕ
  pub passed : List ℕ

module _ {P : Platform} where
  abbrev unanswered : List BackOrderKey → List (BackOrderKey × Option (Update P))
  unanswered [] = []
  unanswered (k ∷ l) = (k, none) ∷ unanswered l

  -- `RegisterMyself`.
  unfoldable pub register_myself : Unicast P → Unicast P
  register_myself s = if s.has_master then record s { registered = true } else s

  -- `UnregisterMyself`: the master hears that the open orders will not be answered.
  unfoldable pub unregister_myself : Bool → Unicast P → Unicast P
  unregister_myself for_good s =
      if s.has_master
      then record s {
        results = s.results ++ unanswered s.open_orders;
        open_orders = [];
        registered = false;
        has_master = not for_good;
      }
      else record s { open_orders = [] }

  -- `EndSession`.
  unfoldable pub end_session : Unicast P → Unicast P
  end_session s = record (unregister_myself true s) { ended = true }

  -- `AttachedToServer`: a session that knows its peer says first whose it is.
  unfoldable pub attached : PeerId → (UnicastMessage P → Bool) → Unicast P → Unicast P
  attached local takes s =
      let s' = register_myself s in
      if is_valid s.remote_peer && takes (announce (some local))
      then record s' { sent = s'.sent ++ (announce (some local) ∷ []) }
      else s'

  -- The answer to an order: `find` is `GetDatabaseUpdateByID`, and `takes` tells whether
  -- `AddOutgoingMessage` succeeds.
  unfoldable pub answer_order :
      (ℕ → ℕ → Option (Update P))
      → (UnicastMessage P → Bool)
      → BackOrderKey
      → Bool
      → Unicast P
      → Unicast P
  answer_order find takes k due_to_checksum s =
      let s' =
        if (k.update_id == full_update_id) && due_to_checksum
        then record s { to_verify = s.to_verify ++ (k.database ∷ []) }
        else s in
      let reply = answer (some k) (find k.database k.update_id) in
      let gone = end_session s' in
      if takes reply then record s' { sent = s'.sent ++ (reply ∷ []) } else gone

  -- An order's answer counts if the order is open.
  unfoldable pub take_answer : BackOrderKey → Option (Update P) → Unicast P → Unicast P
  take_answer k u s =
      if on_order k s.open_orders
      then record s { open_orders = cancel k s.open_orders; results = s.results ++ ((k, u) ∷ []) }
      else s

  -- `MessageReceivedFromGateway`.
  unfoldable pub message_received :
      (ℕ → ℕ → Option (Update P))
      → (UnicastMessage P → Bool)
      → UnicastMessage P
      → Unicast P
      → Unicast P
  message_received find takes (announce none) s = end_session (unregister_myself false s)
  message_received find takes (announce (some p)) s =
      register_myself (record (unregister_myself false s) { remote_peer = p })
  message_received find takes (order none due) s = s
  message_received find takes (order (some k) due) s = answer_order find takes k due s
  message_received find takes (answer none u) s = s
  message_received find takes (answer (some k) u) s = take_answer k u s
  message_received find takes (passed_on what) s = record s { passed = s.passed ++ (what ∷ []) }

  -- `RequestBackOrderFromSeniorPeer`.
  unfoldable pub place_order :
      (UnicastMessage P → Bool) → BackOrderKey → Bool → Unicast P → Status × Unicast P
  place_order takes k due s =
      if on_order k s.open_orders
      then (ok, s)
      else (if takes (order (some k) due)
          then (
            ok,
            record s {
              open_orders = s.open_orders ++ (k ∷ []);
              sent = s.sent ++ (order (some k) due ∷ []);
            },
          )
          else (logic_error, s))

-- How often a key stands in a list.
abbrev pub count : BackOrderKey → List BackOrderKey → ℕ
count k [] = 0
count k (j ∷ l) = let rest = count k l in if key_eq j k then suc rest else rest

abbrev pub keys {ℓ} : {A : Type ℓ} → List (BackOrderKey × A) → List BackOrderKey
keys [] = []
keys ((k, a) ∷ l) = k ∷ keys l

count-append :
    (k : BackOrderKey) (l m : List BackOrderKey) → count k (l ++ m) ≡ count k l + count k m
count-append k [] m = omega arith
count-append k (j ∷ l) m = ground (arith, count-append k l m)

key_eq→≡ : (j k : BackOrderKey) → key_eq j k ≡ true → j ≡ k
key_eq→≡ j k h = ground arith

-- An order that is struck out was open once.
count-cancel :
    (i k : BackOrderKey) (l : List BackOrderKey)
    → on_order k l ≡ true
    → count i (cancel k l) + count i (k ∷ []) ≡ count i l
unfolding on_order cancel
count-cancel i k [] h = absurd cc
count-cancel i k (j ∷ l) h = ground (arith, count-cancel i k l)

keys-unanswered : (P : Platform) (l : List BackOrderKey) → keys (unanswered {P = P} l) ≡ l
keys-unanswered P [] = refl
keys-unanswered P (k ∷ l) = ap (k ∷◌) (keys-unanswered P l)

module _ {P : Platform} where
  keys-append : (l m : List (BackOrderKey × Option (Update P))) → keys (l ++ m) ≡ keys l ++ keys m
  keys-append [] m = refl
  keys-append ((k, a) ∷ l) m = ap (k ∷◌) (keys-append l m)

  -- The orders of a key that are open, and those that the master has heard of.
  abbrev pub accounted : BackOrderKey → Unicast P → ℕ
  accounted k s = count k s.open_orders + count k (keys s.results)

  unregister-accounted :
      (i : BackOrderKey) (for_good : Bool) (s : Unicast P)
      → s.has_master ≡ true
      → accounted i (unregister_myself for_good s) ≡ accounted i s
  unfolding unregister_myself
  unregister-accounted i for_good s h =
      if_true (λ x. accounted i x ≡ accounted i s) s.has_master _ _ h
        (rw
          (
            keys-append s.results (unanswered s.open_orders),
            keys-unanswered P s.open_orders,
            count-append i (keys s.results) s.open_orders,
          )
          (omega arith))

  unregister-has_master :
      (s : Unicast P) → s.has_master ≡ true → (unregister_myself false s).has_master ≡ true
  unfolding unregister_myself
  unregister-has_master s h =
      if_true (λ (x : Unicast P). x.has_master ≡ true) s.has_master _ _ h refl

  end_session-accounted :
      (i : BackOrderKey) (s : Unicast P)
      → s.has_master ≡ true
      → accounted i (end_session s) ≡ accounted i s
  unfolding end_session
  end_session-accounted i s h = unregister-accounted i true s h

  register-accounted :
      (i : BackOrderKey) (p : PeerId) (s : Unicast P)
      → accounted i (register_myself (record s { remote_peer = p })) ≡ accounted i s
  unfolding register_myself
  register-accounted i p s = if_inv (λ x. accounted i x ≡ accounted i s) s.has_master refl refl

  answer_order-accounted :
      (i : BackOrderKey) (find : ℕ → ℕ → Option (Update P)) (takes : UnicastMessage P → Bool)
      (k : BackOrderKey) (due : Bool) (s : Unicast P)
      → s.has_master ≡ true
      → accounted i (answer_order find takes k due s) ≡ accounted i s
  unfolding answer_order
  answer_order-accounted i find takes k due s h =
      let verified : Unicast P = record s { to_verify = s.to_verify ++ (k.database ∷ []) } in
      if_inv (λ x. accounted i x ≡ accounted i s)
        (takes (answer (some k) (find k.database k.update_id)))
        (if_inv (λ x. accounted i x ≡ accounted i s) ((k.update_id == full_update_id) && due) refl
          refl)
        (if_inv (λ x. accounted i (end_session x) ≡ accounted i s)
          ((k.update_id == full_update_id) && due) (end_session-accounted i verified h)
          (end_session-accounted i s h))

  take_answer-accounted :
      (i k : BackOrderKey) (u : Option (Update P)) (s : Unicast P)
      → accounted i (take_answer k u s) ≡ accounted i s
  unfolding take_answer
  take_answer-accounted i k u s = elim (Bool-cases (on_order k s.open_orders)) [
    | inl e ↦
        if_true (λ x. accounted i x ≡ accounted i s) (on_order k s.open_orders) _ _ e
          (rw (keys-append s.results ((k, u) ∷ []), count-append i (keys s.results) (k ∷ []))
            (omega (arith, count-cancel i k s.open_orders e)))
    | inr e ↦ if_false (λ x. accounted i x ≡ accounted i s) (on_order k s.open_orders) _ _ e refl
  ]

  -- No back-order is lost on a connection, or answered twice: where the session has its master, a
  -- message from the other side leaves the number of a key's open orders and of the results that
  -- the master has heard for it, taken together, as it was.
  pub message-accounted :
      (i : BackOrderKey) (find : ℕ → ℕ → Option (Update P)) (takes : UnicastMessage P → Bool)
      (e : UnicastMessage P) (s : Unicast P)
      → s.has_master ≡ true
      → accounted i (message_received find takes e s) ≡ accounted i s
  unfolding message_received
  message-accounted i find takes (announce none) s h =
      end_session-accounted i (unregister_myself false s) (unregister-has_master s h)
      ∙ unregister-accounted i false s h
  message-accounted i find takes (announce (some p)) s h =
      register-accounted i p (unregister_myself false s) ∙ unregister-accounted i false s h
  message-accounted i find takes (order none due) s h = refl
  message-accounted i find takes (order (some k) due) s h =
      answer_order-accounted i find takes k due s h
  message-accounted i find takes (answer none u) s h = refl
  message-accounted i find takes (answer (some k) u) s h = take_answer-accounted i k u s
  message-accounted i find takes (passed_on what) s h = refl
