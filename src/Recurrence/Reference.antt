-- ===== src/Recurrence/Reference.antt =====
-- What a recurrence rule means: the days on which an event occurs, looked at one by one.
use seatwaves_backend.Common.{
  ℕ, zero, suc, ◌+◌, ◌-◌, ◌/◌, ◌%◌, Bool, false, ◌&&◌, ◌||◌, List, [], ◌∷◌, take, ltb, leb, ◌==◌,
  if◌then◌else◌, or_default,
}
use seatwaves_backend.Recurrence.Utc.{ms_per_day, start_of_utc_day, get_utc_day, max_date}
use seatwaves_backend.Recurrence.Rules.{
  RecurringRules, daily, weekly, parse_byday_indices, interval_of,
}
use seatwaves_backend.Recurrence.Expand.{hard_end_of}

-- The day starts that pass a test, of `n` days from `t` on.
unfoldable pub scan : (ℕ → Bool) → ℕ → ℕ → List ℕ
scan p t zero = []
scan p t (suc n) = let rest = scan p (t + ms_per_day) n in if p t then t ∷ rest else rest

-- The number of days that start between two instants, the first a day start.
abbrev pub day_count : ℕ → ℕ → ℕ
day_count from hard_end = if leb from hard_end then (hard_end - from) / ms_per_day + 1 else 0

abbrev pub contains : List ℕ → ℕ → Bool
contains [] k = false
contains (x ∷ xs) k = x == k || contains xs k

-- The week of a day, counted from one that contains the first days of 1970; weeks start on Sunday.
abbrev pub week_of : ℕ → ℕ
week_of t = (t / ms_per_day + 4) / 7

-- An event that starts on `first_day` occurs on the day that starts at `t`, not before it.
abbrev pub occurs : RecurringRules → ℕ → ℕ → Bool
occurs rules first_day t = elim rules.frequency [
  | daily ↦ (t - first_day) / ms_per_day % interval_of rules == 0
  | weekly ↦
      (week_of t - week_of first_day) % interval_of rules == 0
      && contains (or_default (parse_byday_indices rules.byday) (get_utc_day first_day ∷ []))
          (get_utc_day t)
  | _ ↦ false
]

-- At least one result is returned before the limit is looked at.
abbrev pub limit_of : ℕ → ℕ
limit_of max_results = if leb max_results 1 then 1 else max_results

-- The occurrences of a window: from the day on which it or the event starts to its end.
abbrev pub occurrences : RecurringRules → ℕ → ℕ → ℕ → ℕ → List ℕ
occurrences rules dtstart window_start window_end max_results =
    let first_day = start_of_utc_day dtstart in
    let from = start_of_utc_day (max_date window_start first_day) in
    let hard_end = hard_end_of rules window_end in
    if ltb hard_end window_start
    then []
    else take (limit_of max_results) (scan (occurs rules first_day) from (day_count from hard_end))
