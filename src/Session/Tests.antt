-- ===== src/Session/Tests.antt =====
-- Runs of `ZGPeerSession` on the counter of Replica/Example.
use zg_choir.Base.{
  ap, ◌∙◌, subst, get_elem?, add64, ◌≡◌, refl, true, false, none, some, [], ◌∷◌, length,
}
use zg_choir.Table.{total, get}
use zg_choir.Platform.{ok}
use zg_choir.Replica.State.{update_senior}
use zg_choir.Replica.Books.{IsFreshFor}
use zg_choir.Replica.Example.{numbers, counter, first_peer, second_peer, clock, first_replica}
use zg_choir.Session.State.{Session, Network, Envelope, update_request}
use zg_choir.Session.Requests.{private_message_received, database_request}
use zg_choir.Session.Reach.{Reached, message-Reached}
use zg_choir.Session.Beacon.{
  new_beacon_data, beacon_data_changed, believed, announced, beacon_informs,
}
use zg_choir.Session.Delivery.{AllConsistent, IsFreshIn, message-AllConsistent}

abbrev wire : Network numbers
wire = record { send = λ o. ok; takes_update = λ u. true; takes_order = λ k. true }

abbrev senior_session : Session counter
senior_session = record {
  databases = first_replica ∷ [];
  local_peer = first_peer;
  senior_peer = first_peer;
  network = true;
  fully_attached = true;
  beacon_pending = false;
  online_peers = [];
  outbox = [];
  delivered = [];
  commands = [];
}

abbrev junior_session : Session counter
junior_session = record senior_session { local_peer = second_peer }

abbrev ask_five : Envelope numbers
ask_five = update_request 0 (some 5)

five_is_fresh : IsFreshIn ask_five senior_session
unfolding database_request get
five_is_fresh for_senior which q r h e =
    let asked : update_senior (some 5) ≡ q = cc in
    let named : 0 ≡ which = cc in
    let there : some first_replica ≡ some r = ap (get_elem? senior_session.databases) named ∙ e in
    let found : first_replica ≡ r = cc in
    subst (λ v. IsFreshFor v r) asked
      (subst (λ v. get (add64 v.local_id 1) v.log ≡ none) found refl)

first_replica-AllConsistent : AllConsistent senior_session
unfolding total
first_replica-AllConsistent = (record { ordered = tt; keyed = tt; bytes = refl; millis = refl }, tt)

same_databases : length (new_beacon_data senior_session) ≡ length junior_session.databases
unfolding new_beacon_data
same_databases = refl

message-AllConsistent_example :
    AllConsistent (private_message_received wire clock second_peer ask_five senior_session)
message-AllConsistent_example =
    message-AllConsistent wire clock second_peer ask_five senior_session five_is_fresh
      first_replica-AllConsistent

message-Reached_example :
    Reached wire clock second_peer ask_five senior_session 0
      (private_message_received wire clock second_peer ask_five senior_session)
message-Reached_example = message-Reached wire clock second_peer ask_five senior_session 0

beacon_informs_example :
    believed (beacon_data_changed wire (new_beacon_data senior_session) junior_session).databases
    ≡ announced (new_beacon_data senior_session)
beacon_informs_example = beacon_informs wire senior_session junior_session same_databases
