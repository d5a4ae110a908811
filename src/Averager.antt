-- ===== src/Averager.antt =====
-- `ZGTimeAverager` (src/clocksync/ZGTimeAverager.cpp and include/zg/clocksync/ZGTimeAverager.h): the
-- average of the last few measured times. MUSCLE's saturating arithmetic and the standard
-- deviation, which the code takes in floating point, are parameters.
pub mod Window
pub mod Tests
use zg_choir.Base.{
  ℕ, zero, suc, ◌+◌, ◌-◌, ◌/◌, ◌*◌, ◌^◌, ◌≤◌, ◌<◌, ◌≡◌, Bool, true, false, Option, none, some, List,
  [], ◌∷◌, ◌++◌, length, leb, ltb, ◌==◌, if◌then◌else◌, add64, max_u64, min,
}

-- `SaturatingUnsignedAdd` and `SaturatingUnsignedMultiply`, and the truncated square root of a
-- quotient.
pub record Arithmetic : Type 0 where
  pub saturating_add : ℕ → ℕ → ℕ
  pub saturating_mul : ℕ → ℕ → ℕ
  pub root_of_quotient : ℕ → ℕ → ℕ
  pub saturating_add_lem : (a b : ℕ) → saturating_add a b ≡ min (a + b) max_u64

pub record Averager : Type 0 where
  pub max_measurements : ℕ
  pub measurements : List ℕ
  pub total_micros : ℕ
  pub last_time : ℕ
  pub cached_average : ℕ

-- The constructor.
abbrev pub new_averager : ℕ → Averager
new_averager max = record {
  max_measurements = max;
  measurements = [];
  total_micros = 0;
  last_time = 0;
  cached_average = max_u64;
}

-- `RemoveOldMeasurement`.
unfoldable pub drop_oldest : List ℕ → Averager → Averager
drop_oldest [] a = a
drop_oldest (x ∷ l) a = record a {
  measurements = l;
  total_micros = if ltb x a.total_micros then a.total_micros - x else 0;
  cached_average = max_u64;
}

unfoldable pub remove_old : Averager → Averager
unfolding drop_oldest
remove_old a = drop_oldest a.measurements a

-- `Clear`.
unfoldable pub clear : Averager → Averager
clear a = record a { measurements = []; total_micros = 0; last_time = 0; cached_average = max_u64 }

-- The loop that makes room for a new measurement; `none` where the rounds run out.
unfoldable pub make_room : ℕ → Averager → Option Averager
make_room zero a = none
make_room (suc rounds) a =
    let rest = make_room rounds (remove_old a) in
    if leb a.max_measurements (length a.measurements) then rest else some a

-- The distance of two times below 2 ^ 63.
abbrev pub distance : ℕ → ℕ → ℕ
distance a b = (a - b) + (b - a)

-- The second loop: the sum and the count of the measurements near the mean.
unfoldable pub near_mean : ℕ → ℕ → List ℕ → ℕ → ℕ → ℕ × ℕ
near_mean mean delta [] sum count = (sum, count)
near_mean mean delta (x ∷ l) sum count =
    let near = leb (distance x mean) delta in
    near_mean mean delta l (if near then add64 sum x else sum) (if near then count + 1 else count)

-- `GetRawAverageValue`.
unfoldable pub raw_average : Averager → ℕ
raw_average a = if length a.measurements == 0 then 0 else a.total_micros / length a.measurements

module _ (M : Arithmetic) where
  unfoldable pub record_measurement : ℕ → ℕ → Averager → Averager
  record_measurement micros now a = record a {
    measurements = a.measurements ++ (micros ∷ []);
    total_micros = M.saturating_add a.total_micros micros;
    last_time = now;
    cached_average = max_u64;
  }

  -- `AddMeasurement`.
  unfoldable pub add_measurement : ℕ → ℕ → ℕ → Averager → Option Averager
  add_measurement rounds micros now a = elim (make_room rounds a) [
    | none ↦ none
    | some a' ↦ some (record_measurement micros now a')
  ]

  unfoldable pub sum_of_squares : ℕ → List ℕ → ℕ → ℕ
  sum_of_squares mean [] sum = sum
  sum_of_squares mean (x ∷ l) sum =
      sum_of_squares mean l
        (M.saturating_add sum (M.saturating_mul (distance x mean) (distance x mean)))

  -- `GetAverageValueIgnoringOutliersAux`.
  unfoldable pub average_aux : Averager → ℕ
  average_aux a =
      let mean = raw_average a in
      let delta =
        M.root_of_quotient (sum_of_squares mean a.measurements 0) (length a.measurements) in
      let (sum, count) = near_mean mean delta a.measurements 0 0 in
      if length a.measurements == 0 then 0 else (if ltb 0 count then sum / count else 0)

  -- `GetAverageValueIgnoringOutliers`, with what it leaves in its cache.
  unfoldable pub average : Averager → ℕ × Averager
  average a =
      if a.cached_average == max_u64
      then (average_aux a, record a { cached_average = average_aux a })
      else (a.cached_average, a)
