-- ===== src/Network/Tests.antt =====
-- Runs of the network session on small numbers for messages.
use zg_choir.Base.{false, true, ℕ, ◌≡◌, ◌≤◌, refl, Option, none, some, [], ◌∷◌, length, arith}
use zg_choir.Peer.{PeerId}
use zg_choir.Platform.{ok}
use zg_choir.Replica.Example.{first_peer, second_peer}
use zg_choir.Replica.State.{BackOrderKey}
use zg_choir.Replica.Example.{numbers}
use zg_choir.Network.Orders.{Unicast, announce, message_received, accounted, message-accounted}
use zg_choir.Network.Receive.{Tag, data_message, Receiver, receive, window, receive_keeps_window}
use zg_choir.Network.Unicast.{
  NetworkIo, send_to_peer, get_session, connect_session, register_session, enqueue, address_of,
}

abbrev tag : Tag
tag = record { source = first_peer; version = 1; tag_id = 3 }

abbrev receiver : Receiver ℕ
receiver = record {
  local_peer = second_peer;
  senior_peer = first_peer;
  version = 1;
  recent = [];
  last_beacon = none;
  forwarded = [];
}

abbrev io : NetworkIo ℕ
io = record {
  has_settings = true;
  local_peer = second_peer;
  senior_peer = first_peer;
  peers = (first_peer, 5 ∷ []) ∷ [];
  registered = [];
  named = [];
  to_self = [];
  queued = [];
}

abbrev connect : PeerId → ℕ → Option ℕ
connect p a = some 1

sent : (send_to_peer connect first_peer 6 io).0 ≡ ok
unfolding send_to_peer get_session connect_session register_session enqueue address_of
sent = refl

receive_keeps_window_example : length (receive tag (data_message 4) receiver).recent ≤ window
receive_keeps_window_example = receive_keeps_window tag (data_message 4) receiver (omega arith)

abbrev open_key : BackOrderKey
open_key = record { target = first_peer; database = 0; update_id = 4 }

abbrev connection : Unicast numbers
connection = record {
  remote_peer = first_peer;
  has_master = true;
  registered = true;
  ended = false;
  open_orders = open_key ∷ [];
  sent = [];
  results = [];
  to_verify = [];
  passed = [];
}

message-accounted_example :
    accounted open_key (message_received (λ db uid. none) (λ e. true) (announce none) connection)
    ≡ accounted open_key connection
message-accounted_example =
    message-accounted open_key (λ db uid. none) (λ e. true) (announce none) connection refl
