-- ===== src/Recurrence/Next.antt =====
-- `nextOccurrenceUTC` of src/event/recurrence.ts.
use seatwaves_backend.Common.{
  ℕ, zero, suc, ◌+◌, ◌*◌, ◌≤◌, ◌<◌, ◌≡◌, refl, ap, sym, subst, ◌∙◌, Bool, true, false, List, [],
  Option, none, some, take, ltb, arith, if◌then◌else◌, Bool-cases, inl, inr,
}
use mathlib.Core.List.{head?}
use seatwaves_backend.Recurrence.Utc.{ms_per_day, start_of_utc_day, max_date}
use seatwaves_backend.Recurrence.Rules.{RecurringRules}
use seatwaves_backend.Recurrence.Expand.{
  expand_window_utc, next_occurrence_utc, first_of, hard_end_of,
}
use seatwaves_backend.Recurrence.Reference.{scan, day_count, occurs, occurrences}
use seatwaves_backend.Recurrence.Daily.{scan-hit}
use seatwaves_backend.Recurrence.Days.{scan-miss, scan-none}
use seatwaves_backend.Recurrence.Named.{NamesOnce}
use seatwaves_backend.Recurrence.Window.{expand_window_utc-occurrences}

-- What the first of `n` days that pass a test is; nothing says that none does.
abbrev pub IsFirst : (ℕ → Bool) → ℕ → ℕ → Option ℕ → Type 0
IsFirst p t n none = (i : ℕ) → i < n → p (t + i * ms_per_day) ≡ false
IsFirst p t n (some first) =
    (k : ℕ) × (k < n)
    × (first ≡ t + k * ms_per_day)
    × (p first ≡ true)
    × ((i : ℕ) → i < k → p (t + i * ms_per_day) ≡ false)

abbrev first_in : List ℕ → Option ℕ
first_in list = head? (take 1 list)

module _ (p : ℕ → Bool) where
  -- A day that fails the test, before the rest.
  IsFirst-later :
      (t n : ℕ) (o : Option ℕ)
      → p t ≡ false
      → IsFirst p (t + ms_per_day) n o
      → IsFirst p t (suc n) o
  IsFirst-later t n none e h = later
    where
      later : (i : ℕ) → i < suc n → p (t + i * ms_per_day) ≡ false
      later zero l = ap p (omega arith) ∙ e
      later (suc i) l = ap p (omega arith) ∙ h i (omega arith)
  IsFirst-later t n (some first) e (k, below, same, hit, before) =
      (suc k, omega arith, same ∙ omega arith, hit, earlier)
    where
      earlier : (i : ℕ) → i < suc k → p (t + i * ms_per_day) ≡ false
      earlier zero l = ap p (omega arith) ∙ e
      earlier (suc i) l = ap p (omega arith) ∙ before i (omega arith)

  scan-IsFirst : (t n : ℕ) → IsFirst p t n (first_in (scan p t n))
  scan-IsFirst t zero =
      subst (λ l. IsFirst p t 0 (first_in l)) (sym (scan-none p 0 t (λ i l. absurd (omega arith))))
        (λ i l. absurd (omega arith))
  scan-IsFirst t (suc n) = elim (Bool-cases (p t)) [
    | inl e ↦
        subst (λ l. IsFirst p t (suc n) (first_in l)) (sym (scan-hit p t n e))
          ((0, omega arith, omega arith, e, λ i l. absurd (omega arith)))
    | inr e ↦
        subst (λ l. IsFirst p t (suc n) (first_in l)) (sym (scan-miss p t n e))
          (IsFirst-later t n (first_in (scan p (t + ms_per_day) n)) e
            (scan-IsFirst (t + ms_per_day) n))
  ]

next_occurrence_utc-expand :
    (rules : RecurringRules) (dtstart from_utc lookahead_days : ℕ)
    → next_occurrence_utc rules dtstart from_utc lookahead_days
      ≡ first_of (
          expand_window_utc rules dtstart
            (start_of_utc_day from_utc)
            (start_of_utc_day from_utc + lookahead_days * ms_per_day)
            1)
unfolding next_occurrence_utc
next_occurrence_utc-expand rules dtstart from_utc lookahead_days = refl

-- The days that `nextOccurrenceUTC` looks at.
abbrev first_looked_at : ℕ → ℕ → ℕ
first_looked_at dtstart from_utc =
    start_of_utc_day (max_date (start_of_utc_day from_utc) (start_of_utc_day dtstart))

abbrev looked_at : RecurringRules → ℕ → ℕ → ℕ → ℕ
looked_at rules dtstart from_utc lookahead_days =
    day_count (first_looked_at dtstart from_utc)
      (hard_end_of rules (start_of_utc_day from_utc + lookahead_days * ms_per_day))

empty_window :
    (rules : RecurringRules) (dtstart from_utc lookahead_days : ℕ)
    → ltb
        (hard_end_of rules (start_of_utc_day from_utc + lookahead_days * ms_per_day))
        (start_of_utc_day from_utc)
      ≡ true
    → looked_at rules dtstart from_utc lookahead_days ≡ 0
empty_window rules dtstart from_utc lookahead_days e = ground arith

occurrences-looked_at :
    (rules : RecurringRules) (dtstart from_utc lookahead_days : ℕ)
    → occurrences rules dtstart
        (start_of_utc_day from_utc)
        (start_of_utc_day from_utc + lookahead_days * ms_per_day)
        1
      ≡ take 1 (
          scan
            (occurs rules (start_of_utc_day dtstart))
            (first_looked_at dtstart from_utc)
            (looked_at rules dtstart from_utc lookahead_days))
occurrences-looked_at rules dtstart from_utc lookahead_days =
    let window : ℕ = start_of_utc_day from_utc in
    let last : ℕ = hard_end_of rules (window + lookahead_days * ms_per_day) in
    let start : ℕ = first_looked_at dtstart from_utc in
    let n : ℕ = looked_at rules dtstart from_utc lookahead_days in
    let p : ℕ → Bool = occurs rules (start_of_utc_day dtstart) in
    elim (Bool-cases (ltb last window)) [
      | inl e ↦
          ap (λ b. if b then [] else take 1 (scan p start n)) e
          ∙ sym (
              ap (take 1) (
                ap (scan p start) (empty_window rules dtstart from_utc lookahead_days e)
                ∙ scan-none p 0 start (λ i l. absurd (omega arith))))
      | inr e ↦ ap (λ b. if b then [] else take 1 (scan p start n)) e
    ]

-- For an event that starts at or after Sunday 4 January 1970 and a rule that names no day twice,
-- `nextOccurrenceUTC` answers the soonest day of the rule that is neither before the day asked
-- about nor before that of the event, and not after the days looked ahead or the rule's end; it
-- answers nothing only if there is no such day.
pub next_occurrence_utc-soonest :
    (rules : RecurringRules) (dtstart from_utc lookahead_days : ℕ)
    → 3 * ms_per_day ≤ dtstart
    → NamesOnce rules.byday
    → (next : Option ℕ) × (next_occurrence_utc rules dtstart from_utc lookahead_days ≡ some next)
      × IsFirst
          (occurs rules (start_of_utc_day dtstart))
          (first_looked_at dtstart from_utc)
          (looked_at rules dtstart from_utc lookahead_days)
          next
next_occurrence_utc-soonest rules dtstart from_utc lookahead_days late once =
    let window : ℕ = start_of_utc_day from_utc in
    let window_end : ℕ = window + lookahead_days * ms_per_day in
    let start : ℕ = first_looked_at dtstart from_utc in
    let n : ℕ = looked_at rules dtstart from_utc lookahead_days in
    let p : ℕ → Bool = occurs rules (start_of_utc_day dtstart) in
    (
      first_in (scan p start n),
      next_occurrence_utc-expand rules dtstart from_utc lookahead_days
          ∙ ap first_of (
              expand_window_utc-occurrences rules dtstart window window_end 1 late once
              ∙ ap some (occurrences-looked_at rules dtstart from_utc lookahead_days)),
      scan-IsFirst p start n,
    )
