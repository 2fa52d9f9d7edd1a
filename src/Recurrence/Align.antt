-- ===== src/Recurrence/Align.antt =====
-- The WEEKLY branch of `expandWindowUTC`: the search for the first week, and the weeks from it on.
use seatwaves_backend.Common.{
  ℕ, zero, suc, ◌+◌, ◌*◌, ◌/◌, ◌%◌, ◌≤◌, ◌<◌, ◌≡◌, refl, ap, sym, ◌∙◌, Bool, true, false, ◌&&◌,
  List, [], ◌∷◌, none, some, take, ltb, ltb→lt, ◌==◌, arith, Bool-cases, inl, inr,
}
use seatwaves_backend.Recurrence.Utc.{ms_per_day, days_between_utc}
use seatwaves_backend.Recurrence.Expand.{align_loop, weeks_from}
use seatwaves_backend.Recurrence.Reference.{scan, day_count, contains, limit_of}
use seatwaves_backend.Recurrence.Daily.{scan-hit}
use seatwaves_backend.Recurrence.Days.{IsAscending, clip, clip-false, scan-miss, scan-none}
use seatwaves_backend.Recurrence.Left.{after, after-past, after-skip, take-nil}
use seatwaves_backend.Recurrence.Weekly.{week_loop_lem}

module _ (fuel hard_end interval week0 week_start : ℕ) where
  align_loop-found :
      (days_between_utc week0 week_start / 7 % interval == 0) ≡ true
      → align_loop (suc fuel) hard_end interval week0 week_start ≡ some (some week_start)
  unfolding align_loop
  align_loop-found e = rw e refl

  align_loop-past :
      (days_between_utc week0 week_start / 7 % interval == 0) ≡ false
      → ltb hard_end (week_start + 7 * ms_per_day) ≡ true
      → align_loop (suc fuel) hard_end interval week0 week_start ≡ some none
  unfolding align_loop
  align_loop-past e f = rw (e, f) refl

  align_loop-more :
      (days_between_utc week0 week_start / 7 % interval == 0) ≡ false
      → ltb hard_end (week_start + 7 * ms_per_day) ≡ false
      → align_loop (suc fuel) hard_end interval week0 week_start
        ≡ align_loop fuel hard_end interval week0 (week_start + 7 * ms_per_day)
  unfolding align_loop
  align_loop-more e f = rw (e, f) refl

clip-inside :
    (from hard_end : ℕ) (p : ℕ → Bool) (t : ℕ)
    → from ≤ t
    → t ≤ hard_end
    → clip from hard_end p t ≡ p t
clip-inside from hard_end p t h l = ground arith

-- In the window a clipped test is the test.
scan-clip :
    (from hard_end : ℕ) (p : ℕ → Bool) (n t : ℕ)
    → from ≤ t
    → n ≤ day_count t hard_end
    → scan (clip from hard_end p) t n ≡ scan p t n
scan-clip from hard_end p zero t h l =
    scan-none (clip from hard_end p) 0 t (λ i l. absurd (omega arith))
    ∙ sym (scan-none p 0 t (λ i l. absurd (omega arith)))
scan-clip from hard_end p (suc n) t h l =
    let rest = scan-clip from hard_end p n (t + ms_per_day) (omega arith) (ground arith) in
    elim (Bool-cases (p t)) [
      | inl e ↦
          scan-hit (clip from hard_end p) t n (clip-inside from hard_end p t h (ground arith) ∙ e)
          ∙ ap (λ l. t ∷ l) rest
          ∙ sym (scan-hit p t n e)
      | inr e ↦
          scan-miss (clip from hard_end p) t n (clip-inside from hard_end p t h (ground arith) ∙ e)
          ∙ rest
          ∙ sym (scan-miss p t n e)
    ]

pub after-from :
    (from hard_end : ℕ) (p : ℕ → Bool)
    → after from hard_end p from ≡ scan p from (day_count from hard_end)
unfolding after
after-from from hard_end p =
    scan-clip from hard_end p (day_count from hard_end) from (omega arith) (omega arith)

module _ (from hard_end interval max_results week0 : ℕ) (days : List ℕ) (p : ℕ → Bool)
    (positive : 1 ≤ interval) (aligned : week0 % ms_per_day ≡ 0) (ascending : IsAscending 0 days)
    (tests : (w k : ℕ)
      → k < 7
      → p (week0 + w * (7 * ms_per_day) + k * ms_per_day)
        ≡ (w % interval == 0 && contains days k)) where
  abbrev week : ℕ → ℕ
  week w = week0 + w * (7 * ms_per_day)

  weeks_between : (w : ℕ) → days_between_utc week0 (week w) / 7 ≡ w
  weeks_between w = omega arith

  -- A week that is not of the rule.
  after-off :
      (w : ℕ)
      → (w % interval == 0) ≡ false
      → after from hard_end p (week w) ≡ after from hard_end p (week w + 7 * ms_per_day)
  after-off w e =
      after-skip from hard_end p 7 (week w)
        λ i l. clip-false from hard_end (week w) p _ (tests w i l ∙ ground (arith, e))

  next_fuel :
      (fuel w : ℕ)
      → ltb hard_end (week w + 7 * ms_per_day) ≡ false
      → day_count (week w) hard_end < suc fuel
      → day_count (week (w + 1)) hard_end < fuel
  next_fuel fuel w e f = ground arith

  next_fuel' :
      (fuel w : ℕ) → day_count (week w) hard_end < fuel → day_count (week (w + 1)) hard_end < fuel
  next_fuel' fuel w f = ground arith

  start :
      (rounds w : ℕ)
      → w % interval ≡ 0
      → day_count (week w) hard_end < rounds
      → weeks_from rounds days interval from hard_end max_results (some (some (week w)))
        ≡ some (take (limit_of max_results) (after from hard_end p (week w)))
  unfolding weeks_from
  start rounds w h g =
      week_loop_lem from hard_end interval max_results week0 days p positive aligned ascending tests
        rounds (limit_of max_results) w [] h g (ground arith) (omega arith)

  past :
      (rounds w : ℕ)
      → (w % interval == 0) ≡ false
      → ltb hard_end (week w + 7 * ms_per_day) ≡ true
      → weeks_from rounds days interval from hard_end max_results (some none)
        ≡ some (take (limit_of max_results) (after from hard_end p (week w)))
  unfolding weeks_from
  past rounds w e m = ap some (
      sym (take-nil (limit_of max_results))
      ∙ ap (take (limit_of max_results)) (
          sym (
            after-off w e
            ∙ after-past from hard_end p (week w + 7 * ms_per_day) (ltb→lt hard_end _ m))))

  pub weeks_lem :
      (fuel rounds w : ℕ)
      → day_count (week w) hard_end < fuel
      → day_count (week w) hard_end < rounds
      → weeks_from rounds days interval from hard_end max_results
          (align_loop fuel hard_end interval week0 (week w))
        ≡ some (take (limit_of max_results) (after from hard_end p (week w)))
  weeks_lem zero rounds w f g = absurd (omega arith)
  weeks_lem (suc fuel) rounds w f g =
      let run = weeks_from rounds days interval from hard_end max_results in
      let same = weeks_between w in
      let limit = limit_of max_results in
      elim (Bool-cases (w % interval == 0)) [
        | inl e ↦
            ap run (
              align_loop-found fuel hard_end interval week0 (week w)
                (ap (λ v. v % interval == 0) same ∙ e))
            ∙ start rounds w (ground arith) g
        | inr e ↦
            let off = ap (λ v. v % interval == 0) same ∙ e in
            let moved : week w + 7 * ms_per_day ≡ week (w + 1) = omega arith in
            elim (Bool-cases (ltb hard_end (week w + 7 * ms_per_day))) [
              | inl m ↦
                  ap run (align_loop-past fuel hard_end interval week0 (week w) off m)
                  ∙ past rounds w e m
              | inr m ↦
                  ap run (
                    align_loop-more fuel hard_end interval week0 (week w) off m
                    ∙ ap (align_loop fuel hard_end interval week0) moved)
                  ∙ weeks_lem fuel rounds (w + 1) (next_fuel fuel w m f) (next_fuel' rounds w g)
                  ∙ ap (λ l. some (take limit l))
                      (sym (after-off w e ∙ ap (after from hard_end p) moved))
            ]
      ]
