-- ===== src/Session/Send.antt =====
-- The messages that a `ZGPeerSession` sends.
use zg_choir.Base.{ℕ, Bool, Option, none, some, [], ◌∷◌, ◌++◌, if◌then◌else◌, length, ltb}
use zg_choir.Peer.{PeerId, is_valid}
use zg_choir.Platform.{
  Platform, DatabaseObject, Status, ok, bad_argument, bad_object, logic_error, is_ok,
}
use zg_choir.Update.{Update}
use zg_choir.Session.State.{
  Session, Network, Envelope, Outgoing, reset_request, replace_request, update_request,
  junior_update, user_message, to_peer, to_all, multicast,
}

module _ {P : Platform} {D : DatabaseObject P} where
  -- A call of the network session, with the record of what it took.
  unfoldable pub hand_over : Network P → Status → Outgoing P → Session D → Status × Session D
  hand_over N absent o s =
      if s.network
      then (if is_ok (N.send o)
          then (ok, record s { outbox = s.outbox ++ (o ∷ []) })
          else (N.send o, s))
      else (absent, s)

  -- `SendUnicastInternalMessageToPeer`, `SendUnicastInternalMessageToAllPeers` and
  -- `SendMulticastInternalMessageToAllPeers`; a message here is never a null reference.
  unfoldable pub send_to_peer : Network P → PeerId → Envelope P → Session D → Status × Session D
  send_to_peer N p e s = hand_over N bad_object (to_peer p e) s

  unfoldable pub send_to_all : Network P → Bool → Envelope P → Session D → Status × Session D
  send_to_all N to_self e s = hand_over N bad_object (to_all to_self e) s

  unfoldable pub send_multicast : Network P → Envelope P → Session D → Status × Session D
  send_multicast N e s = hand_over N bad_object (multicast e) s

  -- `SendUnicastUserMessageToPeer`, `SendUnicastUserMessageToAllPeers` and
  -- `SendMulticastUserMessageToAllPeers`, with `WrapUserMessage`, which fails on a null reference.
  unfoldable pub send_user_message_to_peer :
      Network P → PeerId → Option P.Message → Session D → Status × Session D
  send_user_message_to_peer N p none s = (bad_argument, s)
  send_user_message_to_peer N p (some m) s = send_to_peer N p (user_message (some m)) s

  unfoldable pub send_user_message_to_all :
      Network P → Bool → Option P.Message → Session D → Status × Session D
  send_user_message_to_all N to_self none s = (bad_argument, s)
  send_user_message_to_all N to_self (some m) s = send_to_all N to_self (user_message (some m)) s

  unfoldable pub multicast_user_message :
      Network P → Option P.Message → Session D → Status × Session D
  multicast_user_message N none s = (bad_argument, s)
  multicast_user_message N (some m) s = send_multicast N (user_message (some m)) s

  -- `SendDatabaseUpdateViaMulticast`.
  unfoldable pub send_database_update : Network P → Update P → Session D → Status × Session D
  send_database_update N u s = hand_over N logic_error (multicast (junior_update (some u))) s

  -- `SendRequestToSeniorPeer`.
  unfoldable pub send_request_to_senior :
      Network P → ℕ → Envelope P → Session D → Status × Session D
  send_request_to_senior N which e s =
      if ltb which (length s.databases)
      then (if is_valid s.senior_peer then send_to_peer N s.senior_peer e s else (bad_object, s))
      else (bad_argument, s)

  -- `RequestResetDatabaseStateToDefault`.
  unfoldable pub request_reset : Network P → ℕ → Session D → Status × Session D
  request_reset N which s = send_request_to_senior N which (reset_request which) s

  -- `RequestReplaceDatabaseState`.
  unfoldable pub request_replace : Network P → ℕ → Option P.Message → Session D → Status × Session D
  request_replace N which none s = (bad_argument, s)
  request_replace N which (some m) s =
      send_request_to_senior N which (replace_request which (some m)) s

  -- `RequestUpdateDatabaseState`.
  unfoldable pub request_update : Network P → ℕ → Option P.Message → Session D → Status × Session D
  request_update N which none s = (bad_argument, s)
  request_update N which (some m) s =
      send_request_to_senior N which (update_request which (some m)) s
