-- ===== src/Recurrence/Branches.antt =====
-- The DAILY and the WEEKLY branch of `expandWindowUTC` and the days that they return.
use seatwaves_backend.Common.{
  ℕ, ◌+◌, ◌-◌, ◌*◌, ◌/◌, ◌%◌, ◌≤◌, ◌<◌, ◌≡◌, refl, ap, sym, ◌∙◌, Bool, false, ◌&&◌, List, [], some,
  take, ◌==◌, arith,
}
use mathlib.Core.Path.{ap₂}
use seatwaves_backend.Recurrence.Utc.{ms_per_day, get_utc_day, start_of_utc_week_sun}
use seatwaves_backend.Recurrence.Expand.{
  daily_loop, daily_start, align_loop, weeks_from, expand_weekly, rounds,
}
use seatwaves_backend.Recurrence.Reference.{scan, day_count, contains, week_of, limit_of}
use seatwaves_backend.Recurrence.Start.{daily_branch}
use seatwaves_backend.Recurrence.Days.{IsAscending, clip}
use seatwaves_backend.Recurrence.Left.{after, after-skip}
use seatwaves_backend.Recurrence.Align.{after-from, weeks_lem}

module _ (interval first_day hard_end max_results : ℕ) (positive : 1 ≤ interval)
    (aligned : first_day % ms_per_day ≡ 0) where
  abbrev pub is_day : ℕ → Bool
  is_day t = (t - first_day) / ms_per_day % interval == 0

  is_day-offset : (o : ℕ) → is_day (first_day + o * ms_per_day) ≡ (o % interval == 0)
  is_day-offset o =
      let e : (first_day + o * ms_per_day - first_day) / ms_per_day ≡ o = omega arith in rw e refl

  pub daily_window :
      (k : ℕ)
      → daily_loop
          (rounds hard_end)
          hard_end
          interval
          max_results
          (daily_start interval first_day (first_day + k * ms_per_day))
          []
        ≡ some (
            take (limit_of max_results) (
              scan is_day
                (first_day + k * ms_per_day)
                (day_count (first_day + k * ms_per_day) hard_end)))
  daily_window k =
      daily_branch is_day first_day interval hard_end max_results positive aligned is_day-offset k

module _ (interval first_day hard_end max_results : ℕ) (days : List ℕ) (positive : 1 ≤ interval)
    (aligned : first_day % ms_per_day ≡ 0) (late : 3 * ms_per_day ≤ first_day)
    (ascending : IsAscending 0 days) where
  abbrev pub is_week_day : ℕ → Bool
  is_week_day t = (week_of t - week_of first_day) % interval == 0 && contains days (get_utc_day t)

  abbrev week0 : ℕ
  week0 = start_of_utc_week_sun first_day

  is_week_day-offset :
      (w k : ℕ)
      → k < 7
      → is_week_day (week0 + w * (7 * ms_per_day) + k * ms_per_day)
        ≡ (w % interval == 0 && contains days k)
  is_week_day-offset w k h =
      let e : week_of (week0 + w * (7 * ms_per_day) + k * ms_per_day) - week_of first_day ≡ w =
        omega arith in
      let f : get_utc_day (week0 + w * (7 * ms_per_day) + k * ms_per_day) ≡ k = omega arith in
      ap₂ (λ (a b : ℕ). a % interval == 0 && contains days b) e f

  -- The week of the window's first day, from the event's.
  abbrev weeks_to : ℕ → ℕ
  weeks_to from = (start_of_utc_week_sun from - week0) / (7 * ms_per_day)

  week_start :
      (k : ℕ)
      → start_of_utc_week_sun (first_day + k * ms_per_day)
        ≡ week0 + weeks_to (first_day + k * ms_per_day) * (7 * ms_per_day)
  week_start k = omega (arith, aligned, late)

  week_fuel : (w : ℕ) → day_count (week0 + w * (7 * ms_per_day)) hard_end < rounds hard_end
  week_fuel w = ground arith

  before : (from t : ℕ) → t < from → clip from hard_end is_week_day t ≡ false
  before from t h = ground arith

  -- The first week has no day before the window.
  whole :
      (k : ℕ)
      → after
          (first_day + k * ms_per_day)
          hard_end
          is_week_day
          (week0 + weeks_to (first_day + k * ms_per_day) * (7 * ms_per_day))
        ≡ scan is_week_day
            (first_day + k * ms_per_day)
            (day_count (first_day + k * ms_per_day) hard_end)
  whole k =
      let from : ℕ = first_day + k * ms_per_day in
      let start : ℕ = start_of_utc_week_sun from in
      let moved : start + get_utc_day from * ms_per_day ≡ from = omega (arith, aligned, late) in
      ap (after from hard_end is_week_day) (sym (week_start k))
      ∙ after-skip from hard_end is_week_day (get_utc_day from) start
          (λ i l. before from (start + i * ms_per_day) (omega (arith, aligned, late)))
      ∙ ap (after from hard_end is_week_day) moved
      ∙ after-from from hard_end is_week_day

  pub weekly_window :
      (k : ℕ)
      → expand_weekly
          (rounds hard_end)
          days
          interval
          first_day
          (first_day + k * ms_per_day)
          hard_end
          max_results
        ≡ some (
            take (limit_of max_results) (
              scan is_week_day
                (first_day + k * ms_per_day)
                (day_count (first_day + k * ms_per_day) hard_end)))
  unfolding expand_weekly
  weekly_window k =
      let from : ℕ = first_day + k * ms_per_day in
      let w : ℕ = weeks_to from in
      ap
        (λ t.
          weeks_from (rounds hard_end) days interval from hard_end max_results
            (align_loop (rounds hard_end) hard_end interval week0 t))
        (week_start k)
      ∙ weeks_lem from hard_end interval max_results week0 days is_week_day positive
          (omega (arith, aligned, late)) ascending is_week_day-offset (rounds hard_end)
          (rounds hard_end) w (week_fuel w) (week_fuel w)
      ∙ ap (λ l. some (take (limit_of max_results) l)) (whole k)
