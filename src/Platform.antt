-- ===== src/Platform.antt =====
-- What the peer code takes from elsewhere: the MUSCLE library's messages and buffers, and the
-- `IDatabaseObject` that the application provides (include/zg/IDatabaseObject.h).
use zg_choir.Base.{ℕ, ◌≡◌, Option, some, List, Bool, true, false}

-- The `status_t` values that the code returns or passes on.
pub data Status : Type 0 where
  ok bad_argument bad_data bad_object logic_error unimplemented type_mismatch : Status
  other_error : ℕ → Status

abbrev pub is_ok : Status → Bool
is_ok ok = true
is_ok _ = false

-- MUSCLE's `Message`, and its compressed flattened form: `DeflateByteBuffer` of
-- `FlattenToByteBuffer`, and `InflateByteBuffer` with `GetMessageFromPool`, which can fail.
pub record Platform : Type 1 where
  pub Message : Type 0
  pub deflate : Message → List ℕ
  pub inflate : List ℕ → Option Message
  pub inflate-deflate : (m : Message) → inflate (deflate m) ≡ some m
  pub micros_to_millis : ℕ → ℕ

-- The pure virtual methods of `IDatabaseObject`. A method that changes the object returns the
-- object's new state; `senior_update` is also given the network time at which it runs.
pub record DatabaseObject (P : Platform) : Type 1 where
  pub State : Type 0
  pub set_to_default_state : State → State
  pub set_from_archive : P.Message → State → Status × State
  pub save_to_archive : State → Option P.Message
  pub get_current_checksum : State → ℕ
  pub calculate_checksum : State → ℕ
  pub senior_update : ℕ → P.Message → State → Option P.Message × State
  pub junior_update : P.Message → State → Status × State

-- What IDatabaseObject.h asks of an implementation: the message that `SeniorUpdate` returns takes
-- a junior copy from the same state to the same state, an archive restores the state that was
-- saved, whatever the state before, and the running checksum is the recalculated one.
pub record IsLawful {P : Platform} (D : DatabaseObject P) : Type 0 where
  pub junior_follows :
      (now : ℕ) (m j : P.Message) (s t : D.State)
      → D.senior_update now m s ≡ (some j, t)
      → D.junior_update j s ≡ (ok, t)
  pub archive_restores :
      (m : P.Message) (s t : D.State)
      → D.save_to_archive s ≡ some m
      → D.set_from_archive m t ≡ (ok, s)
  pub checksum_current : (s : D.State) → D.get_current_checksum s ≡ D.calculate_checksum s
