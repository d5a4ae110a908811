-- ===== src/Averager/Tests.antt =====
-- The averager on simple arithmetic.
use zg_choir.Base.{
  ℕ, ◌+◌, ◌*◌, ◌-◌, ◌≡◌, ◌≤◌, refl, some, [], ◌∷◌, ◌++◌, length, drop, min, max_u64, arith,
}
use zg_choir.Averager.{Arithmetic, Averager, add_measurement}
use zg_choir.Averager.Window.{IsTotalled, add_measurement_window}

abbrev pub saturating : Arithmetic
saturating = record {
  saturating_add = λ a b. min (a + b) max_u64;
  saturating_mul = λ a b. min (a * b) max_u64;
  root_of_quotient = λ a b. 4;
  saturating_add_lem = λ a b. refl;
}

-- Two measurements, in a window of two.
abbrev pub full : Averager
full = record {
  max_measurements = 2;
  measurements = 10 ∷ (14 ∷ []);
  total_micros = 24;
  last_time = 3;
  cached_average = max_u64;
}

add_measurement_window_example :
    (b : Averager) × (add_measurement saturating 3 20 5 full ≡ some b)
    × (b.measurements
        ≡ drop (length {A = ℕ} (10 ∷ (14 ∷ [])) + 1 - 2) (10 ∷ (14 ∷ [])) ++ (20 ∷ []))
    × (length b.measurements ≤ 2)
    × IsTotalled b
add_measurement_window_example =
    add_measurement_window saturating 3 20 5 full (omega arith) (omega arith) refl (omega arith)
