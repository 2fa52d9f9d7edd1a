-- ===== src/Recurrence/Expand.antt =====
-- `expandWindowUTC` and `nextOccurrenceUTC` of src/event/recurrence.ts. A loop that the source
-- leaves by `break` or by its test takes fuel; nothing is returned when the fuel runs out.
use seatwaves_backend.Common.{
  ℕ, zero, suc, ◌+◌, ◌-◌, ◌*◌, ◌/◌, ◌%◌, Bool, true, false, ◌||◌, List, [], ◌∷◌, ◌++◌, length,
  Option, none, some, ltb, leb, ◌==◌, if◌then◌else◌, or_default,
}
use mathlib.Core.List.{head?}
use seatwaves_backend.Recurrence.Utc.{
  ms_per_day, start_of_utc_day, add_days_utc, get_utc_day, max_date, min_date, days_between_utc,
  start_of_utc_week_sun,
}
use seatwaves_backend.Recurrence.Rules.{
  RecurringRules, daily, weekly, parse_byday_indices, interval_of,
}

-- The loop of the DAILY branch.
unfoldable pub daily_loop : ℕ → ℕ → ℕ → ℕ → ℕ → List ℕ → Option (List ℕ)
daily_loop zero hard_end interval max_results cursor list = none
daily_loop (suc fuel) hard_end interval max_results cursor list =
    let list' = list ++ cursor ∷ [] in
    let rest = daily_loop fuel hard_end interval max_results (add_days_utc cursor interval) list' in
    if leb cursor hard_end
    then (if leb max_results (length list') then some list' else rest)
    else some list

-- The first cursor of the DAILY branch.
abbrev pub daily_start : ℕ → ℕ → ℕ → ℕ
daily_start interval first_day from =
    let remainder = days_between_utc first_day from % interval in
    if remainder == 0 then from else add_days_utc from (interval - remainder)

-- The `while (true)` loop of the WEEKLY branch: the first week of the rule, or nothing if the
-- function returns there.
unfoldable pub align_loop : ℕ → ℕ → ℕ → ℕ → ℕ → Option (Option ℕ)
align_loop zero hard_end interval week0 week_start = none
align_loop (suc fuel) hard_end interval week0 week_start =
    let next = add_days_utc week_start 7 in
    let rest = align_loop fuel hard_end interval week0 next in
    if days_between_utc week0 week_start / 7 % interval == 0
    then some (some week_start)
    else (if ltb hard_end next then some none else rest)

-- The days of one week, and whether `maxResults` was reached.
unfoldable pub emit_week : List ℕ → ℕ → ℕ → ℕ → ℕ → List ℕ → Bool × List ℕ
emit_week [] week_start from hard_end max_results list = (false, list)
emit_week (day_idx ∷ days) week_start from hard_end max_results list =
    let occ = add_days_utc week_start day_idx in
    elim (ltb occ from || ltb hard_end occ) [
      | true ↦ emit_week days week_start from hard_end max_results list
      | false ↦ elim (leb max_results (length (list ++ occ ∷ []))) [
        | true ↦ (true, list ++ occ ∷ [])
        | false ↦ emit_week days week_start from hard_end max_results (list ++ occ ∷ [])
      ]
    ]

-- The loop over the weeks.
unfoldable pub week_loop : ℕ → List ℕ → ℕ → ℕ → ℕ → ℕ → ℕ → List ℕ → Option (List ℕ)
unfolding emit_week
week_loop zero days interval from hard_end max_results week_start list = none
week_loop (suc fuel) days interval from hard_end max_results week_start list =
    let (done, list') = emit_week days week_start from hard_end max_results list in
    let rest =
      week_loop fuel days interval from hard_end max_results
        (add_days_utc week_start (7 * interval)) list' in
    if leb week_start hard_end then (if done then some list' else rest) else some list

-- The rest of the WEEKLY branch after its first loop.
unfoldable pub weeks_from : ℕ → List ℕ → ℕ → ℕ → ℕ → ℕ → Option (Option ℕ) → Option (List ℕ)
unfolding week_loop
weeks_from fuel days interval from hard_end max_results none = none
weeks_from fuel days interval from hard_end max_results (some none) = some []
weeks_from fuel days interval from hard_end max_results (some (some week_start)) =
    week_loop fuel days interval from hard_end max_results week_start []

-- The WEEKLY branch, with the days that `byday` names or that of the first day.
unfoldable pub expand_weekly : ℕ → List ℕ → ℕ → ℕ → ℕ → ℕ → ℕ → Option (List ℕ)
unfolding align_loop weeks_from
expand_weekly fuel days interval first_day from hard_end max_results =
    weeks_from fuel days interval from hard_end max_results (
      align_loop fuel hard_end interval (start_of_utc_week_sun first_day)
        (start_of_utc_week_sun from))

abbrev pub hard_end_of : RecurringRules → ℕ → ℕ
hard_end_of rules window_end = elim rules.until [
  | none ↦ window_end
  | some until ↦ min_date window_end until
]

-- A round for each day up to the end, and one more.
abbrev pub rounds : ℕ → ℕ
rounds hard_end = hard_end / ms_per_day + 2

-- `expandWindowUTC`
unfoldable pub expand_window_utc : RecurringRules → ℕ → ℕ → ℕ → ℕ → Option (List ℕ)
unfolding daily_loop expand_weekly parse_byday_indices
expand_window_utc rules dtstart window_start window_end max_results =
    let interval = interval_of rules in
    let hard_end = hard_end_of rules window_end in
    let first_day = start_of_utc_day dtstart in
    let from = start_of_utc_day (max_date window_start first_day) in
    if ltb hard_end window_start then some [] else elim rules.frequency [
      | daily ↦
          daily_loop (rounds hard_end) hard_end interval max_results
            (daily_start interval first_day from) []
      | weekly ↦
          expand_weekly (rounds hard_end)
            (or_default (parse_byday_indices rules.byday) (get_utc_day first_day ∷ [])) interval
            first_day from hard_end max_results
      | _ ↦ some []
    ]

abbrev pub first_of : Option (List ℕ) → Option (Option ℕ)
first_of none = none
first_of (some list) = some (head? list)

-- `nextOccurrenceUTC`
unfoldable pub next_occurrence_utc : RecurringRules → ℕ → ℕ → ℕ → Option (Option ℕ)
unfolding expand_window_utc
next_occurrence_utc rules dtstart from_utc lookahead_days =
    let win_start = start_of_utc_day from_utc in
    first_of (expand_window_utc rules dtstart win_start (add_days_utc win_start lookahead_days) 1)
