-- ===== src/Session/Beacon.antt =====
-- The beacon of the senior peer: `GetNewSeniorBeaconData`, `Pulse` and `BeaconDataChanged` of
-- `ZGPeerSession`.
use zg_choir.Base.{
  ℕ, ◌≡◌, refl, false, none, some, List, [], ◌∷◌, if◌then◌else◌, length, ==_iff, ◌==◌, arith,
}
use zg_choir.Platform.{Platform, DatabaseObject}
use zg_choir.Replica.State.{Replica, Master, StateInfo}
use zg_choir.Replica.Log.{schedule_rescan}
use zg_choir.Replica.Rescan.{rescan_if_necessary}
use zg_choir.Replica.Exchange.{get_state_info, senior_state_info_changed}
use zg_choir.Session.State.{Session, Network, is_senior, master_of, each, beacon}
use zg_choir.Session.Send.{hand_over}
use zg_choir.Platform.{bad_object}

-- The same two numbers, as a beacon carries them.
abbrev pub announced : List StateInfo → List (ℕ × ℕ)
announced [] = []
announced (i ∷ l) = (i.current_id, i.oldest_id) ∷ announced l

module _ {P : Platform} {D : DatabaseObject P} where
  abbrev pub state_infos : List (Replica D) → List StateInfo
  state_infos [] = []
  state_infos (r ∷ l) = get_state_info r ∷ state_infos l

  -- `GetNewSeniorBeaconData`.
  unfoldable pub new_beacon_data : Session D → List StateInfo
  new_beacon_data s = state_infos s.databases

  -- `Pulse`: the databases rescan their logs before the beacon goes out.
  unfoldable pub pulse : Network P → Session D → Session D
  pulse N s =
      let s' = record s {
        beacon_pending = false;
        databases = each (rescan_if_necessary (master_of N s)) s.databases;
      } in
      if s.beacon_pending
      then (hand_over N bad_object
          (beacon (if is_senior s' then some (new_beacon_data s') else none)) s').1
      else s

  -- Each database hears what the beacon says of it.
  unfoldable pub tell_each : Master P → List StateInfo → List (Replica D) → List (Replica D)
  tell_each m (i ∷ is) (r ∷ rs) = senior_state_info_changed m i r ∷ tell_each m is rs
  tell_each m _ rs = rs

  -- `BeaconDataChanged`.
  unfoldable pub beacon_data_changed : Network P → List StateInfo → Session D → Session D
  beacon_data_changed N infos s =
      if length infos == length s.databases
      then record s { databases = tell_each (master_of N s) infos s.databases }
      else s

  -- What each database believes of its senior: the newest state, and the oldest update in the log.
  abbrev pub believed : List (Replica D) → List (ℕ × ℕ)
  believed [] = []
  believed (r ∷ l) = (r.senior_id, r.senior_oldest_id) ∷ believed l

  senior_state_info_changed_lem :
      (m : Master P) (i : StateInfo) (r : Replica D)
      → ((senior_state_info_changed m i r).senior_id ≡ i.current_id)
        × ((senior_state_info_changed m i r).senior_oldest_id ≡ i.oldest_id)
  unfolding senior_state_info_changed schedule_rescan
  senior_state_info_changed_lem m i r =
      ground (arith, ==_iff i.current_id r.senior_id, ==_iff i.oldest_id r.senior_oldest_id)

  tell_each_lem :
      (m : Master P) (infos : List StateInfo) (l : List (Replica D))
      → length infos ≡ length l
      → believed (tell_each m infos l) ≡ announced infos
  unfolding tell_each
  tell_each_lem m [] [] h = refl
  tell_each_lem m [] (r ∷ l) h = absurd (omega (arith, h))
  tell_each_lem m (i ∷ infos) [] h = absurd (omega (arith, h))
  tell_each_lem m (i ∷ infos) (r ∷ l) h =
      rw
        (
          (senior_state_info_changed_lem m i r).0,
          (senior_state_info_changed_lem m i r).1,
          tell_each_lem m infos l (omega (arith, h)),
        )
        refl

  -- A senior's beacon informs its junior: where both peers have the same number of databases, each
  -- database of the junior then believes of the senior's newest state and oldest logged update
  -- what the senior's beacon says of them.
  pub beacon_informs :
      (N : Network P) (s j : Session D)
      → length (new_beacon_data s) ≡ length j.databases
      → believed (beacon_data_changed N (new_beacon_data s) j).databases
        ≡ announced (new_beacon_data s)
  unfolding beacon_data_changed
  beacon_informs N s j h =
      rw ((==_iff _ _).1 h, beacon_data_changed)
        (tell_each_lem (master_of N j) (new_beacon_data s) j.databases h)
