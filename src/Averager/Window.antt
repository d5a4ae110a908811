-- ===== src/Averager/Window.antt =====
-- The window of a `ZGTimeAverager`: how many measurements it keeps, their total, and their average.
use zg_choir.Base.{
  ltb→lt, add64, subst, sym, leb→le, ◌∙◌, ℕ, zero, suc, ◌+◌, ◌-◌, ◌/◌, ◌*◌, ◌^◌, ◌≤◌, ◌<◌, ◌≡◌,
  refl, ap, Option, none, some, List, [], ◌∷◌, ◌++◌, length, leb, ltb, ◌==◌, arith, All,
  length-append, drop, inl, inr, ◌⊎◌, Bool-cases, if_inv, if_true, if_false,
}
use zg_choir.Averager.{
  Arithmetic, Averager, drop_oldest, remove_old, make_room, record_measurement, add_measurement,
  distance, near_mean, raw_average, average_aux, sum_of_squares,
}

abbrev pub sum : List ℕ → ℕ
sum [] = 0
sum (x ∷ l) = x + sum l

sum-append : (l m : List ℕ) → sum (l ++ m) ≡ sum l + sum m
sum-append [] m = omega arith
sum-append (x ∷ l) m = omega (arith, sum-append l m)

drop-nil : (n : ℕ) → drop {A = ℕ} n [] ≡ []
drop-nil zero = refl
drop-nil (suc n) = refl

drop_none : (l : List ℕ) (n : ℕ) → n ≡ 0 → l ≡ drop n l
drop_none l n e = rw e refl

drop_less : (x : ℕ) (l : List ℕ) (m n : ℕ) → n ≡ suc m → drop m l ≡ drop n (x ∷ l)
drop_less x l m n e = rw e refl

drop_oldest-max :
    (l : List ℕ) (a : Averager) → (drop_oldest l a).max_measurements ≡ a.max_measurements
unfolding drop_oldest
drop_oldest-max [] a = refl
drop_oldest-max (x ∷ l) a = refl

-- The running total is the sum of the measurements.
abbrev pub IsTotalled : Averager → Type 0
IsTotalled a = a.total_micros ≡ sum a.measurements

drop_oldest-IsTotalled :
    (l : List ℕ) (a : Averager) → a.measurements ≡ l → IsTotalled a → IsTotalled (drop_oldest l a)
unfolding drop_oldest
drop_oldest-IsTotalled [] a e h = h
drop_oldest-IsTotalled (x ∷ l) a e h = ground (arith, e, ap sum e)

remove_old_lem :
    (x : ℕ) (l : List ℕ) (a : Averager)
    → a.measurements ≡ x ∷ l
    → ((remove_old a).measurements ≡ l)
      × ((remove_old a).max_measurements ≡ a.max_measurements)
      × (IsTotalled a → IsTotalled (remove_old a))
unfolding remove_old drop_oldest
remove_old_lem x l a e = (
  subst (λ m. (drop_oldest m a).measurements ≡ l) (sym e) refl,
  subst (λ m. (drop_oldest m a).max_measurements ≡ a.max_measurements) (sym e) refl,
  drop_oldest-IsTotalled a.measurements a refl,
)

-- What the loop leaves of the measurements `l`.
abbrev HasRoom : List ℕ → Averager → Option Averager → Type 0
HasRoom l a o =
    (b : Averager) × (o ≡ some b)
    × (b.measurements ≡ drop (length l + 1 - a.max_measurements) l)
    × (b.max_measurements ≡ a.max_measurements)
    × (IsTotalled a → IsTotalled b)

-- With a round for each measurement and one more, room is made, and only what is too old goes.
make_room-HasRoom :
    (rounds : ℕ) (l : List ℕ) (a : Averager)
    → a.measurements ≡ l
    → length l < rounds
    → 0 < a.max_measurements
    → HasRoom l a (make_room rounds a)
unfolding make_room
make_room-HasRoom zero l a e h pos = absurd (omega arith)
make_room-HasRoom (suc rounds) [] a e h pos =
    if_false (HasRoom [] a) (leb a.max_measurements (length a.measurements)) _ _
      (ground (arith, ap (length {0} {A = ℕ}) e))
      (a, refl, e ∙ sym (drop-nil (0 + 1 - a.max_measurements)), refl, λ t. t)
make_room-HasRoom (suc rounds) (x ∷ l) a e h pos =
    let (rest, same_max, totalled) = remove_old_lem x l a e in
    elim (Bool-cases (leb a.max_measurements (length a.measurements))) [
      | inl full ↦
          if_true (HasRoom (x ∷ l) a) (leb a.max_measurements (length a.measurements)) _ _ full (
            let (b, run, kept, max, t) =
              make_room-HasRoom rounds l (remove_old a) rest (omega (arith, h))
                (omega (arith, same_max)) in
            (
              b,
              run,
              kept
                  ∙ drop_less x l _ _
                      (omega (arith, same_max, leb→le _ _ full, ap (length {0} {A = ℕ}) e)),
              max ∙ same_max,
              λ t'. t (totalled t'),
            ))
      | inr room ↦
          if_false (HasRoom (x ∷ l) a) (leb a.max_measurements (length a.measurements)) _ _ room (
            a,
            refl,
            e ∙ drop_none (x ∷ l) _ (ground (arith, ap (length {0} {A = ℕ}) e)),
            refl,
            λ t. t,
          )
    ]

length-drop : (n : ℕ) (l : List ℕ) → length (drop n l) ≡ length l - n
length-drop zero l = omega arith
length-drop (suc n) [] = omega arith
length-drop (suc n) (x ∷ l) = rw (length-drop n l) (omega arith)

sum-drop : (n : ℕ) (l : List ℕ) → sum (drop n l) ≤ sum l
sum-drop zero l = omega arith
sum-drop (suc n) [] = omega arith
sum-drop (suc n) (x ∷ l) = omega (arith, sum-drop n l)

no_room : (rounds : ℕ) (a : Averager) → a.max_measurements ≡ 0 → make_room rounds a ≡ none
unfolding make_room remove_old
no_room zero a h = refl
no_room (suc rounds) a h =
    if_true (λ o. o ≡ none) (leb a.max_measurements (length a.measurements)) _ _ (ground (arith, h))
      (no_room rounds (remove_old a) (drop_oldest-max a.measurements a ∙ h))

quotient_bounds : (lo hi s c : ℕ) → lo * c ≤ s → s ≤ hi * c → 0 < c → (lo ≤ s / c) × (s / c ≤ hi)
quotient_bounds lo hi s c below above pos = grind arith

-- Zero, or between two bounds.
abbrev pub IsWithin : ℕ → ℕ → ℕ → Type 0
IsWithin lo hi x = (x ≡ 0) ⊎ ((lo ≤ x) × (x ≤ hi))

near_mean_bounds :
    (lo hi mean delta : ℕ) (l : List ℕ) (s c : ℕ)
    → All (λ x. (lo ≤ x) × (x ≤ hi)) l
    → s + sum l < 2 ^ 64
    → lo * c ≤ s
    → s ≤ hi * c
    → (lo * (near_mean mean delta l s c).1 ≤ (near_mean mean delta l s c).0)
      × ((near_mean mean delta l s c).0 ≤ hi * (near_mean mean delta l s c).1)
unfolding near_mean
near_mean_bounds lo hi mean delta [] s c all small below above = (below, above)
near_mean_bounds lo hi mean delta (x ∷ l) s c all small below above =
    elim (Bool-cases (leb (distance x mean) delta)) [
      | inl near ↦
          rw (near, near_mean)
            (near_mean_bounds lo hi mean delta l (add64 s x) (c + 1) all.1 (ground arith)
              (ground arith) (ground arith))
      | inr far ↦
          rw (far, near_mean)
            (near_mean_bounds lo hi mean delta l s c all.1 (omega arith) below above)
    ]

module _ (M : Arithmetic) where
  -- A new measurement is added after a number of rounds below the fuel, which exceeds the number
  -- of measurements. The averager then holds the newest measurements, in order and at most its
  -- maximum, and its total is their sum: for a maximum above 0, a total that was the sum, and a
  -- new sum below 2 ^ 64.
  pub add_measurement_window :
      (rounds micros now : ℕ) (a : Averager)
      → length a.measurements < rounds
      → 0 < a.max_measurements
      → IsTotalled a
      → sum a.measurements + micros < 2 ^ 64
      → (b : Averager) × (add_measurement M rounds micros now a ≡ some b)
        × (b.measurements
            ≡ drop (length a.measurements + 1 - a.max_measurements) a.measurements ++ (micros ∷ []))
        × (length b.measurements ≤ a.max_measurements)
        × IsTotalled b
  unfolding add_measurement record_measurement
  add_measurement_window rounds micros now a h pos total small =
      let (b, run, kept, same_max, t) = make_room-HasRoom rounds a.measurements a refl h pos in
      let n = length a.measurements + 1 - a.max_measurements in
      (
        record_measurement M micros now b,
        rw (run, add_measurement) refl,
        ap (λ m. m ++ (micros ∷ [])) kept,
        rw (kept, length-append (drop n a.measurements) (micros ∷ []), length-drop n a.measurements)
            (omega (arith, pos)),
        rw
            (
              kept,
              sum-append (drop n a.measurements) (micros ∷ []),
              M.saturating_add_lem b.total_micros micros,
            )
            (ground (arith, t total, ap sum kept, sum-drop n a.measurements)),
      )

  -- For a maximum of 0 the loop that makes room never ends, however many rounds it has.
  pub add_measurement-none :
      (rounds micros now : ℕ) (a : Averager)
      → a.max_measurements ≡ 0
      → add_measurement M rounds micros now a ≡ none
  unfolding add_measurement
  add_measurement-none rounds micros now a h = rw (no_room rounds a h, add_measurement) refl

  -- The average without outliers is 0, or lies between the bounds of the measurements: where their
  -- sum is below 2 ^ 64.
  pub average_bounds :
      (lo hi : ℕ) (a : Averager)
      → All (λ x. (lo ≤ x) × (x ≤ hi)) a.measurements
      → sum a.measurements < 2 ^ 64
      → IsWithin lo hi (average_aux M a)
  unfolding average_aux
  average_bounds lo hi a all small =
      let mean = raw_average a in
      let delta =
        M.root_of_quotient (sum_of_squares M mean a.measurements 0) (length a.measurements) in
      let (below, above) =
        near_mean_bounds lo hi mean delta a.measurements 0 0 all (omega (arith, small))
          (omega arith) (omega arith) in
      let s : ℕ = (near_mean mean delta a.measurements 0 0).0 in
      let c : ℕ = (near_mean mean delta a.measurements 0 0).1 in
      if_inv (IsWithin lo hi) (length a.measurements == 0) (inl refl) (elim (Bool-cases (ltb 0 c)) [
        | inl found ↦
            if_true (IsWithin lo hi) (ltb 0 c) _ _ found
              (inr (quotient_bounds lo hi s c below above (ltb→lt 0 c found)))
        | inr nothing ↦ if_false (IsWithin lo hi) (ltb 0 c) _ _ nothing (inl refl)
      ])
