-- ===== src/Recurrence/Window.antt =====
-- The whole of `expandWindowUTC` and of `nextOccurrenceUTC` of src/event/recurrence.ts.
use seatwaves_backend.Common.{
  ℕ, ◌+◌, ◌-◌, ◌*◌, ◌/◌, ◌≤◌, ◌≡◌, refl, ap, sym, subst, ◌∙◌, true, false, List, [], ◌∷◌, some,
  take, ltb, or_default, arith, Bool-cases, inl, inr,
}
use seatwaves_backend.Recurrence.Utc.{ms_per_day, start_of_utc_day, get_utc_day, max_date}
use seatwaves_backend.Recurrence.Rules.{
  Frequency, RecurringRules, daily, weekly, monthly, yearly, parse_byday_indices, interval_of,
}
use seatwaves_backend.Recurrence.Expand.{
  daily_loop, daily_start, expand_weekly, expand_window_utc, hard_end_of, rounds,
}
use seatwaves_backend.Recurrence.Reference.{scan, day_count, limit_of, occurrences}
use seatwaves_backend.Recurrence.Days.{scan-none}
use seatwaves_backend.Recurrence.Left.{take-nil}
use seatwaves_backend.Recurrence.Named.{NamesOnce, days-IsAscending}
use seatwaves_backend.Recurrence.Branches.{is_day, daily_window, is_week_day, weekly_window}

-- The first day of the window or of the event.
abbrev from_of : ℕ → ℕ → ℕ
from_of dtstart window_start = start_of_utc_day (max_date window_start (start_of_utc_day dtstart))

from_of-days :
    (dtstart window_start : ℕ)
    → start_of_utc_day dtstart
        + (from_of dtstart window_start - start_of_utc_day dtstart) / ms_per_day * ms_per_day
      ≡ from_of dtstart window_start
from_of-days dtstart window_start = ground arith

module _ (rules : RecurringRules) (dtstart window_start window_end max_results : ℕ) where
  abbrev first_day : ℕ
  first_day = start_of_utc_day dtstart

  abbrev start : ℕ
  start = from_of dtstart window_start

  abbrev days_before : ℕ
  days_before = (start - first_day) / ms_per_day

  abbrev last : ℕ
  last = hard_end_of rules window_end

  abbrev days : List ℕ
  days = or_default (parse_byday_indices rules.byday) (get_utc_day first_day ∷ [])

  one_or_more : 1 ≤ interval_of rules
  one_or_more = ground arith

  abbrev IsExpanded : Type 0
  IsExpanded =
      expand_window_utc rules dtstart window_start window_end max_results
      ≡ some (occurrences rules dtstart window_start window_end max_results)

  expanded-empty : ltb last window_start ≡ true → IsExpanded
  unfolding expand_window_utc
  expanded-empty e = rw e refl

  expanded-daily : rules.frequency ≡ daily → ltb last window_start ≡ false → IsExpanded
  unfolding expand_window_utc
  expanded-daily f e =
      rw (f, e)
        (subst
          (λ t.
            daily_loop (rounds last) last (interval_of rules) max_results
              (daily_start (interval_of rules) first_day t) []
            ≡ some (
                take (limit_of max_results) (
                  scan
                    (is_day (interval_of rules) first_day last max_results one_or_more
                      (omega arith))
                    t (day_count t last))))
          (from_of-days dtstart window_start)
          (daily_window (interval_of rules) first_day last max_results one_or_more (omega arith)
            days_before))

  expanded-weekly :
      3 * ms_per_day ≤ dtstart
      → NamesOnce rules.byday
      → rules.frequency ≡ weekly
      → ltb last window_start ≡ false
      → IsExpanded
  unfolding expand_window_utc
  expanded-weekly late once f e =
      let ascending = days-IsAscending rules.byday (get_utc_day first_day) (omega arith) once in
      rw (f, e)
        (subst
          (λ t.
            expand_weekly (rounds last) days (interval_of rules) first_day t last max_results
            ≡ some (
                take (limit_of max_results) (
                  scan
                    (is_week_day (interval_of rules) first_day last max_results days one_or_more
                      (omega arith) (omega (arith, late)) ascending)
                    t (day_count t last))))
          (from_of-days dtstart window_start)
          (weekly_window (interval_of rules) first_day last max_results days one_or_more
            (omega arith) (omega (arith, late)) ascending days_before))

  none_of : (n : ℕ) (t : ℕ) → take (limit_of max_results) (scan (λ t. false) t n) ≡ []
  none_of n t =
      ap (take (limit_of max_results)) (scan-none (λ t. false) n t (λ i l. refl))
      ∙ take-nil (limit_of max_results)

  expanded-monthly : rules.frequency ≡ monthly → ltb last window_start ≡ false → IsExpanded
  unfolding expand_window_utc
  expanded-monthly f e = rw (f, e) (ap some (sym (none_of (day_count start last) start)))

  expanded-yearly : rules.frequency ≡ yearly → ltb last window_start ≡ false → IsExpanded
  unfolding expand_window_utc
  expanded-yearly f e = rw (f, e) (ap some (sym (none_of (day_count start last) start)))

  expanded_by :
      3 * ms_per_day ≤ dtstart
      → NamesOnce rules.byday
      → (f : Frequency) → rules.frequency ≡ f
      → ltb last window_start ≡ false
      → IsExpanded
  expanded_by late once daily f e = expanded-daily f e
  expanded_by late once weekly f e = expanded-weekly late once f e
  expanded_by late once monthly f e = expanded-monthly f e
  expanded_by late once yearly f e = expanded-yearly f e

-- For an event that starts at or after Sunday 4 January 1970 and a rule that names no day twice,
-- `expandWindowUTC` ends within its rounds and returns the occurrences of the window: the days from
-- the start of the window or of the event to the end of the window or of the rule that the rule's
-- frequency, interval and days select, in order, up to `maxResults` or one.
pub expand_window_utc-occurrences :
    (rules : RecurringRules) (dtstart window_start window_end max_results : ℕ)
    → 3 * ms_per_day ≤ dtstart
    → NamesOnce rules.byday
    → expand_window_utc rules dtstart window_start window_end max_results
      ≡ some (occurrences rules dtstart window_start window_end max_results)
expand_window_utc-occurrences rules dtstart window_start window_end max_results late once =
    elim (Bool-cases (ltb (hard_end_of rules window_end) window_start)) [
      | inl e ↦ expanded-empty rules dtstart window_start window_end max_results e
      | inr e ↦
          expanded_by rules dtstart window_start window_end max_results late once rules.frequency
            refl e
    ]
