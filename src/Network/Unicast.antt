-- ===== src/Network/Unicast.antt =====
-- The unicast side of `PZGNetworkIOSession`, on the main thread.
use zg_choir.Base.{
  if_inv, ap, ◌∙◌, ◌⊎◌, ℕ, ◌≡◌, refl, Bool, true, false, not, ◌&&◌, Option, none, some, List, [],
  ◌∷◌, ◌++◌, if◌then◌else◌, get_elem?, ◌==◌, arith, inl, inr, keep,
}
use zg_choir.Peer.{PeerId, peer_eq, is_valid}
use zg_choir.Platform.{Status, ok, bad_object, unimplemented, other_error, is_ok}
use zg_choir.Replica.State.{BackOrderKey}

-- `B_DATA_NOT_FOUND`.
abbrev pub data_not_found : Status
data_not_found = other_error 1

-- The TCP sessions by the peer that each is for, the peers that are known with their addresses,
-- the messages to this peer itself, and what was put into each session's queue.
pub record NetworkIo (A : Type 0) : Type 0 where
  pub has_settings : Bool
  pub local_peer : PeerId
  pub senior_peer : PeerId
  pub peers : List (PeerId × List ℕ)
  pub registered : List ℕ
  pub named : List (PeerId × List ℕ)
  pub to_self : List A
  pub queued : List (ℕ × A)

abbrev pub find {ℓ} : {A : Type ℓ} → PeerId → List (PeerId × A) → Option A
find p [] = none
find p ((q, x) ∷ l) = let rest = find p l in if peer_eq q p then some x else rest

-- `GetOrPut` with `AddTail`.
unfoldable pub add_session : PeerId → ℕ → List (PeerId × List ℕ) → List (PeerId × List ℕ)
add_session p s [] = (p, s ∷ []) ∷ []
add_session p s ((q, l) ∷ t) =
    let rest = add_session p s t in if peer_eq q p then (q, l ++ (s ∷ [])) ∷ t else (q, l) ∷ rest

abbrev pub forget : ℕ → List ℕ → List ℕ
forget s l = keep (λ x. not (x == s)) l

abbrev pub is_empty : List ℕ → Bool
is_empty [] = true
is_empty (x ∷ l) = false

-- `RemoveAllInstancesOf`, and the entry goes if that empties its queue.
unfoldable pub drop_session : PeerId → ℕ → List (PeerId × List ℕ) → List (PeerId × List ℕ)
drop_session p s [] = []
drop_session p s ((q, l) ∷ t) =
    let rest = drop_session p s t in
    if peer_eq q p
    then (if is_empty (forget s l) && not (is_empty l) then t else (q, forget s l) ∷ t)
    else (q, l) ∷ rest

bad_not_ok : bad_object ≡ ok → ⊥
bad_not_ok h = cc

-- `PutWithDefault`.
unfoldable pub enter : ℕ → List ℕ → List ℕ
enter s [] = s ∷ []
enter s (x ∷ l) = let rest = x ∷ enter s l in if x == s then x ∷ l else rest

module _ {A : Type 0} where
  -- `RegisterUnicastSession` and `UnregisterUnicastSession`, for a session to the given peer.
  unfoldable pub register_session : PeerId → ℕ → NetworkIo A → NetworkIo A
  register_session p s n = record n {
    registered = enter s n.registered;
    named = if is_valid p then add_session p s n.named else n.named;
  }

  unfoldable pub unregister_session : PeerId → ℕ → NetworkIo A → NetworkIo A
  unregister_session p s n = record n {
    registered = forget s n.registered;
    named = if is_valid p then drop_session p s n.named else n.named;
  }

  -- `GetUnicastIPAddressAndPortForPeerID`.
  unfoldable pub address_of : PeerId → ℕ → NetworkIo A → Option ℕ
  address_of p index n = elim (find p n.peers) [ none ↦ none | some l ↦ get_elem? l index ]

  -- What `GetUnicastSessionForPeerID` does where there is no session yet: `connect` is
  -- `AddNewConnectSession`, which registers the session that it makes, or fails.
  unfoldable pub connect_session :
      (PeerId → ℕ → Option ℕ) → PeerId → NetworkIo A → Option ℕ × NetworkIo A
  connect_session connect p n = elim (address_of p 0 n) [
    | none ↦ (none, n)
    | some a ↦ elim (connect p a) [ none ↦ (none, n) | some s ↦ (some s, register_session p s n) ]
  ]

  -- `GetUnicastSessionForPeerID`, where it may make a session.
  unfoldable pub get_session :
      (PeerId → ℕ → Option ℕ) → PeerId → NetworkIo A → Option ℕ × NetworkIo A
  get_session connect p n = elim (find p n.named) [
    | some (s ∷ l) ↦ (some s, n)
    | some [] ↦ connect_session connect p n
    | none ↦ connect_session connect p n
  ]

  -- The end of a unicast send: the message goes into the session's queue.
  unfoldable pub enqueue : A → Option ℕ × NetworkIo A → Status × NetworkIo A
  enqueue a (none, n) = (data_not_found, n)
  enqueue a (some s, n) = (ok, record n { queued = n.queued ++ ((s, a) ∷ []) })

  -- `SendUnicastMessageToPeer`: a message to this peer itself waits for `Pulse`.
  unfoldable pub send_to_peer :
      (PeerId → ℕ → Option ℕ) → PeerId → A → NetworkIo A → Status × NetworkIo A
  send_to_peer connect p a n =
      if n.has_settings
      then (if peer_eq p n.local_peer
          then (ok, record n { to_self = n.to_self ++ (a ∷ []) })
          else enqueue a (get_session connect p n))
      else (bad_object, n)

  -- The loop of `SendUnicastMessageToAllPeers`, which ends at the first error.
  unfoldable pub send_to_each :
      (PeerId → ℕ → Option ℕ)
      → Bool
      → A
      → List (PeerId × List ℕ)
      → NetworkIo A
      → Status × NetworkIo A
  send_to_each connect to_self a [] n = (ok, n)
  send_to_each connect to_self a ((p, l) ∷ ps) n =
      let (status, n') = send_to_peer connect p a n in
      let skip = send_to_each connect to_self a ps n in
      let next = send_to_each connect to_self a ps n' in
      if not to_self && peer_eq p n.local_peer
      then skip
      else (if is_ok status then next else (status, n'))

  unfoldable pub send_to_all :
      (PeerId → ℕ → Option ℕ) → Bool → A → NetworkIo A → Status × NetworkIo A
  send_to_all connect to_self a n = send_to_each connect to_self a n.peers n

  -- `RequestBackOrderFromSeniorPeer`, up to the session that it hands the order to.
  unfoldable pub request_back_order :
      (PeerId → ℕ → Option ℕ)
      → (BackOrderKey → A)
      → BackOrderKey
      → NetworkIo A
      → Status × NetworkIo A
  request_back_order connect order k n =
      if n.has_settings
      then (if peer_eq k.target n.local_peer
          then (unimplemented, n)
          else enqueue (order k) (get_session connect k.target n))
      else (bad_object, n)

  -- `Pulse`: the messages to this peer itself, in order.
  unfoldable pub take_own : NetworkIo A → List A × NetworkIo A
  take_own n = (n.to_self, record n { to_self = [] })

  connect_session-queued :
      (connect : PeerId → ℕ → Option ℕ) (p : PeerId) (n : NetworkIo A)
      → (connect_session connect p n).1.queued ≡ n.queued
  unfolding connect_session register_session
  connect_session-queued connect p n = ground arith

  get_session-queued :
      (connect : PeerId → ℕ → Option ℕ) (p : PeerId) (n : NetworkIo A)
      → (get_session connect p n).1.queued ≡ n.queued
  unfolding get_session
  get_session-queued connect p n = ground (arith, connect_session-queued connect p n)

  enqueue-queued :
      (a : A) (x : Option ℕ × NetworkIo A)
      → (enqueue a x).0 ≡ ok
      → (s : ℕ) × ((enqueue a x).1.queued ≡ x.1.queued ++ ((s, a) ∷ []))
  unfolding enqueue
  enqueue-queued a (none, n) h = absurd cc
  enqueue-queued a (some s, n) h = (s, refl)

  -- A message to a peer is not lost in silence: where the send succeeds, the message is the last
  -- of the messages to this peer itself, or the last that was put into a session's queue.
  pub sent_is_queued :
      (connect : PeerId → ℕ → Option ℕ) (p : PeerId) (a : A) (n : NetworkIo A)
      → (send_to_peer connect p a n).0 ≡ ok
      → ((send_to_peer connect p a n).1.to_self ≡ n.to_self ++ (a ∷ []))
        ⊎ ((s : ℕ) × ((send_to_peer connect p a n).1.queued ≡ n.queued ++ ((s, a) ∷ [])))
  unfolding send_to_peer
  sent_is_queued connect p a n =
      if_inv IsSent n.has_settings
        (if_inv IsSent (peer_eq p n.local_peer) (λ h. inl refl)
          (λ h. inr (
            let (s, q) = enqueue-queued a (get_session connect p n) h in
            (s, q ∙ ap (◌++ ((s, a) ∷ [])) (get_session-queued connect p n)))))
        (λ h. absurd (bad_not_ok h))
    where
      IsSent : Status × NetworkIo A → Type 0
      IsSent x =
          x.0 ≡ ok
          → (x.1.to_self ≡ n.to_self ++ (a ∷ []))
            ⊎ ((s : ℕ) × (x.1.queued ≡ n.queued ++ ((s, a) ∷ [])))
