-- ===== src/Recurrence/Tests.antt =====
-- Runs of the recurrence rules, and witnesses.
use seatwaves_backend.Common.{ℕ, ◌+◌, ◌*◌, ◌≡◌, refl, [], ◌∷◌, Option, none, some, arith}
use seatwaves_backend.Recurrence.Utc.{ms_per_day}
use seatwaves_backend.Recurrence.Rules.{RecurringRules, daily, weekly}
use seatwaves_backend.Recurrence.Expand.{expand_window_utc, next_occurrence_utc}
use seatwaves_backend.Recurrence.Reference.{occurs, occurrences}
use seatwaves_backend.Recurrence.Window.{expand_window_utc-occurrences}
use seatwaves_backend.Recurrence.Next.{IsFirst, next_occurrence_utc-soonest}

-- Every second week, on Monday and Wednesday.
abbrev fortnightly : RecurringRules
fortnightly = record {
  frequency = weekly;
  interval = some 2;
  byday = some ("WE" ∷ "MO" ∷ []);
  until = none;
  count = none;
}

-- Wednesday 3 January 2024, in the evening.
abbrev third_of_january : ℕ
third_of_january = 19_725 * ms_per_day + 64_800_000

abbrev every_third_day : RecurringRules
every_third_day = record {
  frequency = daily;
  interval = some 3;
  byday = none;
  until = some (19_736 * ms_per_day);
  count = none;
}

abbrev day : ℕ → ℕ
day n = n * ms_per_day

fortnightly_run :
    expand_window_utc fortnightly third_of_january (day 19_724) (day 19_740) 1000
    ≡ some (day 19_725 ∷ day 19_737 ∷ day 19_739 ∷ [])
unfolding expand_window_utc
fortnightly_run = refl

abbrev twice : RecurringRules
twice = record {
  frequency = weekly;
  interval = none;
  byday = some ("MO" ∷ "MO" ∷ []);
  until = none;
  count = none;
}

-- A day that is named twice is returned twice.
named_twice_run :
    expand_window_utc twice third_of_january (day 19_730) (day 19_731) 1000
    ≡ some (day 19_730 ∷ day 19_730 ∷ [])
unfolding expand_window_utc
named_twice_run = refl

expand_window_utc-occurrences_example :
    expand_window_utc fortnightly third_of_january (day 19_724) (day 19_740) 1000
    ≡ some (occurrences fortnightly third_of_january (day 19_724) (day 19_740) 1000)
expand_window_utc-occurrences_example =
    expand_window_utc-occurrences fortnightly third_of_january (day 19_724) (day 19_740) 1000
      (omega arith) (refl, (refl, tt))

next_occurrence_utc-soonest_example :
    (next : Option ℕ) × (next_occurrence_utc every_third_day third_of_january (day 19_729 + 5) 30
      ≡ some next)
    × IsFirst (occurs every_third_day (day 19_725)) (day 19_729) 8 next
next_occurrence_utc-soonest_example =
    next_occurrence_utc-soonest every_third_day third_of_january (day 19_729 + 5) 30 (omega arith)
      tt
