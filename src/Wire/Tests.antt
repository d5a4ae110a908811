-- ===== src/Wire/Tests.antt =====
-- Round trips on a simple codec, where an integer stands in the first of its bytes.
use zg_choir.Base.{
  ap, ℕ, zero, suc, ◌+◌, ◌^◌, ◌<◌, ◌≡◌, refl, true, Option, none, some, List, [], ◌∷◌, length, drop,
  arith, ltb, if◌then◌else◌, if_false,
}
use zg_choir.Update.{get_payload_buffer}
use zg_choir.Replica.State.{StateInfo, BackOrderKey}
use zg_choir.Replica.Example.{first_peer, second_peer, add_five}
use zg_choir.Wire.Codec.{Codec}
use zg_choir.Wire.Heartbeat.{HeartbeatPacket, flatten_heartbeat, unflatten_heartbeat}
use zg_choir.Wire.Heartbeat.RoundTrip.{IsSizedPacket, unflatten-flatten_heartbeat}
use zg_choir.Wire.Payload.{
  kind_code, kind_of, IsSizedUpdate, flatten_update, unflatten_update, on_wire,
  unflatten-flatten_update,
}

abbrev pad : ℕ → List ℕ → List ℕ
pad zero rest = rest
pad (suc n) rest = 0 ∷ pad n rest

abbrev put_simple : ℕ → ℕ → List ℕ → List ℕ
put_simple zero n rest = rest
put_simple (suc w) n rest = n ∷ pad w rest

abbrev get_simple : ℕ → List ℕ → Option (ℕ × List ℕ)
get_simple zero b = some (0, b)
get_simple (suc w) [] = none
get_simple (suc w) (x ∷ b) = if ltb (length b) w then none else some (x, drop w b)

length-pad : (n : ℕ) (rest : List ℕ) → length (pad n rest) ≡ n + length rest
length-pad zero rest = omega arith
length-pad (suc n) rest = omega (arith, length-pad n rest)

drop-pad : (n : ℕ) (rest : List ℕ) → drop n (pad n rest) ≡ rest
drop-pad zero rest = refl
drop-pad (suc n) rest = drop-pad n rest

pub get-put_simple :
    (w n : ℕ) (rest : List ℕ) → n < 256 ^ w → get_simple w (put_simple w n rest) ≡ some (n, rest)
get-put_simple zero n rest h = ap (λ k. some (k, rest)) (omega (arith, h))
get-put_simple (suc w) n rest h =
    if_false (λ x. x ≡ some (n, rest)) (ltb (length (pad w rest)) w) _ _
      (ground (arith, length-pad w rest)) (rw (drop-pad w rest) refl)

pub length-put_simple : (w n : ℕ) (rest : List ℕ) → length (put_simple w n rest) ≡ w + length rest
length-put_simple zero n rest = omega arith
length-put_simple (suc w) n rest = omega (arith, length-pad w rest)

abbrev pub simple : Codec
simple = record {
  put = put_simple;
  get = get_simple;
  checksum = λ l b. 7;
  get-put = get-put_simple;
  length-put = length-put_simple;
  checksum_fits = λ l b. omega arith;
}

abbrev pub packet : HeartbeatPacket
packet = record {
  packet_id = 9;
  version_code = 1;
  system_key = 77;
  tcp_port = 4000;
  uptime_seconds = 12;
  source = first_peer;
  peer_type = 1;
  fully_attached = true;
  ordered_peers =
      record {
        peer_id = second_peer;
        timings = record { source_tag = 1; packet_id = 2; dwell_micros = 3 } ∷ [];
      }
      ∷ [];
  attributes = some (4 ∷ []);
}

pub packet-IsSizedPacket : IsSizedPacket simple packet
packet-IsSizedPacket = record {
  packet_fits = omega arith;
  version_fits = omega arith;
  key_fits = omega arith;
  port_fits = omega arith;
  uptime_fits = omega arith;
  source_fits = (omega arith, omega arith);
  type_fits = omega arith;
  count_fits = omega arith;
  size_fits = omega arith;
  peers_fit = (
    ((omega arith, omega arith), omega arith, ((omega arith, omega arith, omega arith), tt)),
    tt,
  );
  attributes_present = λ h. cc;
}

add_five-IsSizedUpdate : IsSizedUpdate simple add_five
unfolding kind_code kind_of get_payload_buffer
add_five-IsSizedUpdate = record {
  kind_known = refl;
  kind_fits = omega arith;
  index_fits = omega arith;
  elapsed_fits = omega arith;
  start_fits = omega arith;
  source_fits = (omega arith, omega arith);
  id_fits = omega arith;
  pre_fits = omega arith;
  post_fits = omega arith;
  payload_fits = omega arith;
  payload_present = λ h. cc;
}

abbrev infos : List StateInfo
infos = record { current_id = 5; oldest_id = 2; db_checksum = 3 } ∷ []

abbrev key : BackOrderKey
key = record { target = first_peer; database = 0; update_id = 4 }

unflatten-flatten_heartbeat_example :
    unflatten_heartbeat simple (flatten_heartbeat simple packet (8 ∷ [])) ≡ some (packet, 8 ∷ [])
unflatten-flatten_heartbeat_example =
    unflatten-flatten_heartbeat simple packet (8 ∷ []) packet-IsSizedPacket

unflatten-flatten_update_example :
    unflatten_update simple (flatten_update simple add_five (8 ∷ []))
    ≡ some (on_wire simple add_five, 8 ∷ [])
unflatten-flatten_update_example =
    unflatten-flatten_update simple add_five (8 ∷ []) add_five-IsSizedUpdate
