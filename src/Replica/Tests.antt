-- ===== src/Replica/Tests.antt =====
-- Runs of `PZGDatabaseState` on the counter of Replica/Example.
use zg_choir.Base.{
  ltb, ◌==◌, ◌&&◌, ◌%◌, ◌^◌, ◌≡◌, ◌≢◌, ◌<◌, refl, false, none, some, ◌++◌, arith, keep, add64,
}
use zg_choir.Table.{total, get, put, last_key}
use zg_choir.Platform.{ok}
use zg_choir.Update.{Update, fresh_update, get_payload_buffer, get_payload_message, payload_bytes}
use zg_choir.Replica.State.{Replica, Request, update_senior, on_order, full_update_id}
use zg_choir.Replica.Log.{add_update, schedule_rescan}
use zg_choir.Replica.Senior.{
  handle_database_update_request, handle_update, senior_update_local_database, with_database,
  senior_update_completed, new_update, junior_update_local_database,
}
use zg_choir.Replica.Junior.{
  target_id, awaiting_full_resend, junior_execute_replace, junior_execute_update,
  junior_execute_aux, run_update, confirm_update,
}
use zg_choir.Replica.Rescan.{rescan_update_log}
use zg_choir.Replica.Exchange.{get_update_by_id, saved_update}
use zg_choir.Replica.Invariant.{IsConsistent, bytes_in, add_again-overcounts}
use zg_choir.Replica.Books.{request-IsConsistent}
use zg_choir.Replica.Follow.Produced.{Served, request-Served}
use zg_choir.Replica.Follow.Executed.{execute-ok}
use zg_choir.Replica.Converge.{start, next, IsAt, rescan-converges}
use zg_choir.Replica.Multicast.{rescan_sends_unsent, due, updates, id_after}
use zg_choir.Replica.Trim.{IsTrimmed, rescan-IsTrimmed}
use zg_choir.Replica.Resend.{full_resend_restores, refused_update-IsTakenBack, IsTakenBack}
use zg_choir.Replica.Example.{
  numbers, counter, counter-IsLawful, second_peer, senior_master, junior_master, clock,
  first_replica, add_five, second_replica,
}

abbrev ask_five : Request numbers
ask_five = update_senior (some 5)

served_five :
    handle_database_update_request senior_master clock second_peer ask_five first_replica ≡ (
      ok,
      (handle_database_update_request senior_master clock second_peer ask_five first_replica).1,
    )
unfolding handle_database_update_request handle_update senior_update_local_database
served_five = refl

abbrev after_five : Replica counter
after_five =
    (handle_database_update_request senior_master clock second_peer ask_five first_replica).1

-- The senior's log, as a junior has received it.
abbrev junior_replica : Replica counter
junior_replica = record first_replica { log = after_five.log; senior_id = after_five.local_id }

junior_target : (last_key 0 after_five.log ≡ 2) × (after_five.local_id ≡ 2)
unfolding handle_database_update_request handle_update senior_update_local_database with_database
    senior_update_completed new_update fresh_update add_update schedule_rescan put last_key
junior_target = (refl, refl)

first_replica-IsConsistent : IsConsistent first_replica
unfolding total
first_replica-IsConsistent = record { ordered = tt; keyed = tt; bytes = refl; millis = refl }

five_executed :
    junior_execute_update add_five first_replica
    ≡ (ok, record first_replica { db = 5; checksum = 5; local_id = 2; update_time = 10 })
unfolding junior_execute_update junior_execute_aux run_update confirm_update
    junior_update_local_database with_database get_payload_message
five_executed = refl

not_waiting : awaiting_full_resend junior_master junior_replica ≡ false
unfolding awaiting_full_resend on_order
not_waiting = refl

reachable : target_id junior_replica ≡ after_five.local_id
reachable = rw (junior_target.0, junior_target.1) refl

not_first : (junior_replica.local_id == 0) && ltb 1 (target_id junior_replica) ≡ false
not_first = refl

two_free : get 2 first_replica.log ≡ none
unfolding get
two_free = refl

three_free : get 3 second_replica.log ≡ none
unfolding get
three_free = refl

held_five : get 2 second_replica.log ≡ some add_five
unfolding get
held_five = refl

some_bytes : 0 < payload_bytes add_five
unfolding payload_bytes get_payload_buffer
some_bytes = omega arith

few_bytes : payload_bytes add_five < 2 ^ 64
unfolding payload_bytes get_payload_buffer
few_bytes = omega arith

abbrev answer : Update numbers
answer = saved_update senior_master clock 5 second_replica

answered : get_update_by_id senior_master clock full_update_id second_replica ≡ some answer
unfolding get_update_by_id
answered = refl

second_replica-IsConsistent : IsConsistent second_replica
unfolding total payload_bytes get_payload_buffer
second_replica-IsConsistent = record {
  ordered = tt;
  keyed = (refl, tt);
  bytes = refl;
  millis = refl;
}

refused : (handle_update senior_master clock second_peer 0 first_replica).0 ≢ ok
unfolding handle_update senior_update_local_database
refused h = cc

-- The junior adds five too.
rescan-converges_example :
    ((rescan_update_log junior_master junior_replica).db ≡ after_five.db)
    × ((rescan_update_log junior_master junior_replica).local_id ≡ after_five.local_id)
    × ((rescan_update_log junior_master junior_replica).checksum ≡ after_five.checksum)
rescan-converges_example =
    rescan-converges senior_master junior_master 1 first_replica after_five junior_replica
      counter-IsLawful refl (omega arith) (next clock second_peer ask_five start tt served_five)
      refl refl not_waiting not_first refl refl refl (λ k above below. refl) reachable

full_resend_restores_example :
    ((junior_execute_replace answer first_replica).0 ≡ ok)
    × IsAt 2 5 (junior_execute_replace answer first_replica).1
full_resend_restores_example =
    full_resend_restores senior_master clock second_replica first_replica answer counter-IsLawful
      refl answered

request-Served_example : Served first_replica after_five
request-Served_example =
    request-Served senior_master clock second_peer ask_five first_replica after_five
      counter-IsLawful refl tt served_five

rescan_sends_unsent_example :
    ((rescan_update_log senior_master second_replica).multicasts
      ≡ second_replica.multicasts ++ updates (keep (due senior_master 2) second_replica.log))
    × ((rescan_update_log senior_master second_replica).first_unsent_id
        ≡ id_after 2 (keep (due senior_master 2) second_replica.log))
rescan_sends_unsent_example =
    rescan_sends_unsent senior_master second_replica (tt, (omega arith, tt)) refl

request-IsConsistent_example :
    IsConsistent
      (handle_database_update_request senior_master clock second_peer ask_five second_replica).1
request-IsConsistent_example =
    request-IsConsistent senior_master clock second_peer ask_five second_replica three_free
      second_replica-IsConsistent

refused_update-IsTakenBack_example :
    IsTakenBack (handle_update senior_master clock second_peer 0 first_replica).1 first_replica
refused_update-IsTakenBack_example =
    refused_update-IsTakenBack senior_master clock second_peer 0 first_replica two_free
      first_replica-IsConsistent refused

execute-ok_example :
    (add_five.update_id ≡ add64 first_replica.local_id 1)
    × (add_five.pre_checksum ≡ first_replica.checksum)
    × (5 ≡ add_five.post_checksum)
    × (2 ≡ add_five.update_id)
execute-ok_example = execute-ok add_five first_replica _ five_executed

rescan-IsTrimmed_example : IsTrimmed (rescan_update_log senior_master second_replica)
rescan-IsTrimmed_example = rescan-IsTrimmed senior_master second_replica (refl, tt) refl

add_again-overcounts_example :
    (add_update senior_master add_five second_replica).total_payload_bytes
    ≢ bytes_in (add_update senior_master add_five second_replica).log % 2 ^ 64
add_again-overcounts_example =
    add_again-overcounts senior_master add_five add_five second_replica second_replica-IsConsistent
      held_five some_bytes few_bytes
