-- ===== src/Replica/Follow.antt =====
-- What it means for an update to lead from one database state to the next, for both sides of
-- `PZGDatabaseState`.
pub mod Produced
pub mod Executed
use zg_choir.Base.{ℕ, suc, zero, ◌+◌, ◌≡◌, Option, some, add64}
use zg_choir.Platform.{Platform, DatabaseObject, ok}
use zg_choir.Update.{Update, Kind, noop, reset, replace, update, unknown, get_payload_message}
use zg_choir.Replica.State.{Replica}

module _ {P : Platform} (D : DatabaseObject P) where
  -- What an update of a kind, with a payload, does to a database.
  abbrev pub Applies : Kind → Option P.Message → D.State → D.State → Type 0
  Applies noop msg s t = t ≡ s
  Applies reset msg s t = t ≡ D.set_to_default_state s
  Applies replace msg s t = (a : P.Message) × (msg ≡ some a) × (D.set_from_archive a s ≡ (ok, t))
  Applies update msg s t = (j : P.Message) × (msg ≡ some j) × (D.junior_update j s ≡ (ok, t))
  Applies (unknown code) msg s t = ⊥

  -- The update leads from state `uid` of the database to the next, and names both checksums.
  pub record Follows (u : Update P) (uid : ℕ) (s t : D.State) : Type 0 where
    pub next_id : u.update_id ≡ add64 uid 1
    pub before : u.pre_checksum ≡ D.get_current_checksum s
    pub after : u.post_checksum ≡ D.get_current_checksum t
    pub applies : Applies u.kind (get_payload_message u) s t

  -- A table of updates leads, in so many steps, from one numbered state to another.
  abbrev pub Leads : (ℕ → Option (Update P)) → ℕ → ℕ → D.State → ℕ → D.State → Type 0
  Leads find zero uid s uid' t = (uid' ≡ uid) × (t ≡ s)
  Leads find (suc n) uid s uid' t =
      (u : Update P) × (mid : D.State) × (find (add64 uid 1) ≡ some u)
      × Follows u uid s mid
      × Leads find n (add64 uid 1) mid uid' t

module _ {P : Platform} {D : DatabaseObject P} where
  -- The running checksum is that of the database.
  abbrev pub IsChecked : Replica D → Type 0
  IsChecked r = r.checksum ≡ D.get_current_checksum r.db
