-- ===== src/Replica/Example.antt =====
-- A small database to run the model on: a counter, whose messages are the numbers to add to it.
use zg_choir.Base.{
  ℕ, zero, suc, ◌+◌, ◌%◌, ◌^◌, ◌≡◌, refl, true, false, Option, none, some, List, [], ◌∷◌,
}
use zg_choir.Peer.{PeerId}
use zg_choir.Platform.{Platform, DatabaseObject, IsLawful, Status, ok}
use zg_choir.Update.{Update, update}
use zg_choir.Replica.State.{Replica, Master, Timing}

abbrev inflate : List ℕ → Option ℕ
inflate [] = none
inflate (x ∷ l) = some x

abbrev pub numbers : Platform
numbers = record {
  Message = ℕ;
  deflate = λ m. m ∷ [];
  inflate = inflate;
  inflate-deflate = λ m. refl;
  micros_to_millis = λ t. t;
}

-- The counter refuses to add nothing.
abbrev add_senior : ℕ → ℕ → ℕ → Option ℕ × ℕ
add_senior now zero s = (none, s)
add_senior now (suc m) s = (some (suc m), s + suc m)

abbrev pub counter : DatabaseObject numbers
counter = record {
  State = ℕ;
  set_to_default_state = λ s. 0;
  set_from_archive = λ m s. (ok, m);
  save_to_archive = λ s. some s;
  get_current_checksum = λ s. s % 2 ^ 32;
  calculate_checksum = λ s. s % 2 ^ 32;
  senior_update = add_senior;
  junior_update = λ m s. (ok, s + m);
}

counter_follows :
    (now m j s t : ℕ) → add_senior now m s ≡ (some j, t) → ◌≡◌ {A = Status × ℕ} (ok, s + j) (ok, t)
counter_follows now zero j s t h = absurd cc
counter_follows now (suc m) j s t h = cc

counter_restores : (m s t : ℕ) → some s ≡ some m → ◌≡◌ {A = Status × ℕ} (ok, m) (ok, s)
counter_restores m s t h = cc

pub counter-IsLawful : IsLawful counter
counter-IsLawful = record {
  junior_follows = counter_follows;
  archive_restores = counter_restores;
  checksum_current = λ s. refl;
}

abbrev pub first_peer : PeerId
first_peer = record { high = 1; low = 1 }

abbrev pub second_peer : PeerId
second_peer = record { high = 1; low = 2 }

-- The first peer is senior, and the second one its junior.
abbrev pub senior_master : Master numbers
senior_master = record {
  attached = true;
  network = true;
  local_peer = first_peer;
  senior_peer = first_peer;
  takes_update = λ u. true;
  takes_order = λ k. true;
}

abbrev pub junior_master : Master numbers
junior_master = record senior_master { local_peer = second_peer }

abbrev pub clock : Timing
clock = record { network_start = 10; elapsed_micros = 3 }

-- A database in state 1 with an empty log.
abbrev pub first_replica : Replica counter
first_replica = record {
  which_database = 0;
  max_payload_bytes = 100;
  log = [];
  total_payload_bytes = 0;
  total_elapsed_millis = 0;
  local_id = 1;
  senior_id = 1;
  senior_oldest_id = 2;
  senior_received = true;
  checksum = 0;
  first_unsent_id = 2;
  rescan_pending = false;
  print_comparison = false;
  backorders = [];
  update_time = 0;
  db = 0;
  multicasts = [];
  orders = [];
}

-- An update that adds five, and a replica that has it in its log.
abbrev pub add_five : Update numbers
add_five = record {
  kind = update;
  database_index = 0;
  elapsed_millis = 3;
  start_micros = 10;
  source = first_peer;
  update_id = 2;
  pre_checksum = 0;
  post_checksum = 5;
  buf = none;
  msg = some 5;
}

abbrev pub second_replica : Replica counter
second_replica = record first_replica {
  log = (2, add_five) ∷ [];
  total_payload_bytes = 1;
  total_elapsed_millis = 3;
  local_id = 2;
  senior_id = 2;
  db = 5;
  checksum = 5;
}
