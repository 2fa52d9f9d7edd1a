-- ===== src/Recurrence/Start.antt =====
-- The first cursor of the DAILY branch of `expandWindowUTC`, and the whole branch.
use seatwaves_backend.Common.{
  ℕ, ◌+◌, ◌-◌, ◌*◌, ◌%◌, ◌≤◌, ◌<◌, ◌≡◌, ap, sym, ◌∙◌, Bool, false, [], some, take, ◌==◌, arith,
  Bool-cases, inl, inr,
}
use mathlib.Core.Path.{ap₂}
use seatwaves_backend.Recurrence.Utc.{ms_per_day, days_between_utc}
use seatwaves_backend.Recurrence.Expand.{daily_loop, daily_start, rounds}
use seatwaves_backend.Recurrence.Reference.{scan, day_count, limit_of}
use seatwaves_backend.Recurrence.Daily.{scan_skip, daily_loop_lem, day_count-add}

mod_before : (k i m : ℕ) → k % m + i < m → (k + i) % m ≡ k % m + i
mod_before k i m h = grind arith

mod_next : (k m : ℕ) → 1 ≤ m → 1 ≤ k % m → (k + (m - k % m)) % m ≡ 0
mod_next k m h l = grind arith

days_between_aligned :
    (first_day k : ℕ)
    → first_day % ms_per_day ≡ 0
    → days_between_utc first_day (first_day + k * ms_per_day) ≡ k
days_between_aligned first_day k h = omega arith

module _ (p : ℕ → Bool) (first_day interval hard_end max_results : ℕ) (positive : 1 ≤ interval)
    (aligned : first_day % ms_per_day ≡ 0)
    (tests : (o : ℕ) → p (first_day + o * ms_per_day) ≡ (o % interval == 0)) where
  misses_before :
      (k i : ℕ)
      → 1 ≤ k % interval
      → i < interval - k % interval
      → p (first_day + k * ms_per_day + i * ms_per_day) ≡ false
  misses_before k i h l =
      ap p (omega arith) ∙ tests (k + i) ∙ ground (arith, mod_before k i interval)

  skipped :
      (k : ℕ)
      → 1 ≤ k % interval
      → scan p (first_day + k * ms_per_day) (day_count (first_day + k * ms_per_day) hard_end)
        ≡ scan p
            (first_day + (k + (interval - k % interval)) * ms_per_day)
            (day_count (first_day + (k + (interval - k % interval)) * ms_per_day) hard_end)
  skipped k h =
      let c : ℕ = first_day + k * ms_per_day in
      let d : ℕ = interval - k % interval in
      let moved : c + d * ms_per_day ≡ first_day + (k + d) * ms_per_day = omega arith in
      scan_skip p d (day_count c hard_end) c (λ i l. misses_before k i h l)
      ∙ ap₂ (scan p) moved (sym (day_count-add c d hard_end) ∙ ap (λ x. day_count x hard_end) moved)

  enough : (o : ℕ) → day_count (first_day + o * ms_per_day) hard_end < rounds hard_end
  enough o = ground arith

  run :
      (o : ℕ)
      → o % interval ≡ 0
      → daily_loop (rounds hard_end) hard_end interval max_results (first_day + o * ms_per_day) []
        ≡ some (
            take (limit_of max_results) (
              scan p
                (first_day + o * ms_per_day)
                (day_count (first_day + o * ms_per_day) hard_end)))
  run o h =
      daily_loop_lem p first_day interval hard_end max_results positive tests (rounds hard_end)
        (limit_of max_results) o [] h (enough o) (ground arith) (omega arith)

  -- The DAILY branch returns the days that pass the test.
  pub daily_branch :
      (k : ℕ)
      → daily_loop
          (rounds hard_end)
          hard_end
          interval
          max_results
          (daily_start interval first_day (first_day + k * ms_per_day))
          []
        ≡ some (
            take (limit_of max_results) (
              scan p
                (first_day + k * ms_per_day)
                (day_count (first_day + k * ms_per_day) hard_end)))
  daily_branch k = elim (Bool-cases (k % interval == 0)) [
    | inl e ↦ rw (days_between_aligned first_day k aligned, e) (run k (ground arith))
    | inr e ↦
        let o : ℕ = k + (interval - k % interval) in
        let start : first_day + k * ms_per_day + (interval - k % interval) * ms_per_day
            ≡ first_day + o * ms_per_day =
          omega arith in
        rw (days_between_aligned first_day k aligned, e)
          (ap (λ c. daily_loop (rounds hard_end) hard_end interval max_results c []) start
            ∙ run o (mod_next k interval positive (ground arith))
            ∙ ap (λ l. some (take (limit_of max_results) l)) (sym (skipped k (ground arith))))
  ]
