-- ===== src/Replica/Log.antt =====
-- The update log of `PZGDatabaseState` (src/private/PZGDatabaseState.cpp): entries in, entries
-- out, and the running tallies.
use zg_choir.Base.{ℕ, true, not, ◌&&◌, none, some, [], length, if◌then◌else◌, add64, sub64, max_u64}
use zg_choir.Table.{get, put, remove}
use zg_choir.Platform.{Platform, DatabaseObject}
use zg_choir.Update.{Update, get_payload_buffer}
use zg_choir.Replica.State.{Replica, Master, i_am_senior}

module _ {P : Platform} where
  -- The tallies of the log, a byte count that is touched only where there is a buffer.
  unfoldable pub tally : (ℕ → ℕ → ℕ) → ℕ → Update P → ℕ
  tally op t u = elim (get_payload_buffer u) [ some b ↦ op t (length b) | none ↦ t ]

module _ {P : Platform} {D : DatabaseObject P} where
  -- `ScheduleLogContentsRescan`.
  unfoldable pub schedule_rescan : Master P → Replica D → Replica D
  schedule_rescan m r =
      if not r.rescan_pending && m.attached then record r { rescan_pending = true } else r

  -- `AddDatabaseUpdateToUpdateLog`, past its test for a null reference.
  unfoldable pub add_update : Master P → Update P → Replica D → Replica D
  add_update m u r = schedule_rescan m (record r {
    log = put u.update_id u r.log;
    total_payload_bytes = tally add64 r.total_payload_bytes u;
    total_elapsed_millis = add64 r.total_elapsed_millis u.elapsed_millis;
    senior_oldest_id = elim r.log [
      | [] ↦ if i_am_senior m then u.update_id else r.senior_oldest_id
      | _ ↦ r.senior_oldest_id
    ];
  })

  -- `RemoveDatabaseUpdateFromUpdateLog`.
  unfoldable pub remove_update : Master P → Update P → Replica D → Replica D
  remove_update m u r = elim (get u.update_id r.log) [
    | none ↦ r
    | some t ↦
        let rest = remove u.update_id r.log in
        record r {
          log = rest;
          total_payload_bytes = tally sub64 r.total_payload_bytes t;
          total_elapsed_millis = sub64 r.total_elapsed_millis t.elapsed_millis;
          senior_oldest_id = elim rest [
            | [] ↦ if i_am_senior m then max_u64 else r.senior_oldest_id
            | _ ↦ r.senior_oldest_id
          ];
        }
  ]

  -- `ClearUpdateLog`.
  unfoldable pub clear_update_log : Replica D → Replica D
  clear_update_log r = record r { log = []; total_payload_bytes = 0; total_elapsed_millis = 0 }
