-- ===== src/Recurrence/Utc.antt =====
-- src/common/utc.ts. An instant is its `getTime()`, in milliseconds since 1 January 1970 UTC, which
-- was a Thursday. A UTC day has 86,400,000 of them.
use seatwaves_backend.Common.{
  ℕ, ◌+◌, ◌-◌, ◌*◌, ◌/◌, ◌%◌, ◌||◌, Option, none, some, ltb, leb, if◌then◌else◌,
}

abbrev pub ms_per_day : ℕ
ms_per_day = 86_400_000

-- `startOfUTCDay`
abbrev pub start_of_utc_day : ℕ → ℕ
start_of_utc_day d = d / ms_per_day * ms_per_day

-- `endOfUTCDay`
abbrev pub end_of_utc_day : ℕ → ℕ
end_of_utc_day d = start_of_utc_day d + 86_399_999

-- `addDaysUTC`, for days forward.
abbrev pub add_days_utc : ℕ → ℕ → ℕ
add_days_utc d days = d + days * ms_per_day

-- `getUTCDay`: 0 is Sunday.
abbrev pub get_utc_day : ℕ → ℕ
get_utc_day d = (d / ms_per_day + 4) % 7

-- `maxDate` and `minDate`
abbrev pub max_date : ℕ → ℕ → ℕ
max_date a b = if leb b a then a else b

abbrev pub min_date : ℕ → ℕ → ℕ
min_date a b = if leb a b then a else b

-- `clampUTC`
abbrev pub clamp_utc : ℕ → ℕ → ℕ → Option ℕ
clamp_utc d start end = if ltb d start || ltb end d then none else some d

-- `daysBetweenUTC`, for `b` not before `a`.
abbrev pub days_between_utc : ℕ → ℕ → ℕ
days_between_utc a b = (start_of_utc_day b - start_of_utc_day a) / ms_per_day

-- `startOfUTCWeek_Sun`, for an instant at or after Sunday 4 January 1970.
abbrev pub start_of_utc_week_sun : ℕ → ℕ
start_of_utc_week_sun d = start_of_utc_day d - get_utc_day d * ms_per_day
