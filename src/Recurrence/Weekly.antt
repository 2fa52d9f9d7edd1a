-- ===== src/Recurrence/Weekly.antt =====
-- The loops of the WEEKLY branch of `expandWindowUTC`.
use seatwaves_backend.Common.{
  ℕ, zero, suc, ◌+◌, ◌-◌, ◌*◌, ◌/◌, ◌%◌, ◌≤◌, ◌<◌, ◌≡◌, refl, ap, sym, ◌∙◌, Bool, true, false, ◌&&◌,
  List, ◌++◌, some, take, length, length-append, leb, leb-false→lt, ◌==◌, arith, Bool-cases, inl,
  inr,
}
use mathlib.Core.Path.{ap₂}
use mathlib.Core.List.{append_assoc, append-nil}
use seatwaves_backend.Recurrence.Utc.{ms_per_day}
use seatwaves_backend.Recurrence.Expand.{emit_week, week_loop}
use seatwaves_backend.Recurrence.Reference.{scan, day_count, contains, limit_of}
use seatwaves_backend.Recurrence.Daily.{mod_between, mod_step}
use seatwaves_backend.Recurrence.Days.{
  IsAscending, clip, in_window, emit_week_lem, scan-in_window, clip-false,
}
use seatwaves_backend.Recurrence.Left.{
  after, after-past, after-skip, after-split, take-nil, take-append, length-take,
}

module _ (fuel : ℕ) (days : List ℕ) (interval from hard_end max_results week_start : ℕ)
    (list : List ℕ) where
  week_loop-done :
      leb week_start hard_end ≡ false
      → week_loop (suc fuel) days interval from hard_end max_results week_start list ≡ some list
  unfolding week_loop
  week_loop-done e = rw e refl

  week_loop-last :
      (list' : List ℕ)
      → leb week_start hard_end ≡ true
      → emit_week days week_start from hard_end max_results list ≡ (true, list')
      → week_loop (suc fuel) days interval from hard_end max_results week_start list ≡ some list'
  unfolding week_loop
  week_loop-last list' e f = rw (e, f) refl

  week_loop-more :
      (list' : List ℕ)
      → leb week_start hard_end ≡ true
      → emit_week days week_start from hard_end max_results list ≡ (false, list')
      → week_loop (suc fuel) days interval from hard_end max_results week_start list
        ≡ week_loop fuel days interval from hard_end max_results
            (week_start + 7 * interval * ms_per_day)
            list'
  unfolding week_loop
  week_loop-more list' e f = rw (e, f) refl

module _ (from hard_end interval max_results week0 : ℕ) (days : List ℕ) (p : ℕ → Bool)
    (positive : 1 ≤ interval) (aligned : week0 % ms_per_day ≡ 0) (ascending : IsAscending 0 days)
    (tests : (w k : ℕ)
      → k < 7
      → p (week0 + w * (7 * ms_per_day) + k * ms_per_day)
        ≡ (w % interval == 0 && contains days k)) where
  abbrev pub week : ℕ → ℕ
  week w = week0 + w * (7 * ms_per_day)

  scan-week :
      (w : ℕ)
      → w % interval ≡ 0
      → scan (clip from hard_end p) (week w) 7 ≡ in_window from hard_end (week w) days
  scan-week w h =
      let e : week w + 0 * ms_per_day ≡ week w = omega arith in
      ap (λ t. scan (clip from hard_end p) t 7) (sym e)
      ∙ scan-in_window from hard_end (week w) p 7 0 days (omega arith) ascending
          λ k l u. tests w k u ∙ ground (arith, h)

  -- The days of the weeks between two weeks of the rule.
  misses :
      (w i : ℕ)
      → w % interval ≡ 0
      → i < 7 * (interval - 1)
      → p (week w + 7 * ms_per_day + i * ms_per_day) ≡ false
  misses w i h l =
      ap p (omega arith)
      ∙ tests (w + (i / 7 + 1)) (i % 7) (omega arith)
      ∙ ground (arith, mod_between w (i / 7 + 1) interval h)

  after-week :
      (w : ℕ)
      → w % interval ≡ 0
      → after from hard_end p (week w)
        ≡ in_window from hard_end (week w) days ++ after from hard_end p (week (w + interval))
  after-week w h =
      let moved : week w + 7 * ms_per_day + 7 * (interval - 1) * ms_per_day ≡ week (w + interval) =
        omega arith in
      after-split from hard_end p 7 (week w)
      ∙ ap₂ ◌++◌ (scan-week w h) (
          after-skip from hard_end p (7 * (interval - 1)) (week w + 7 * ms_per_day)
            (λ i l. clip-false from hard_end (week w) p _ (misses w i h l))
          ∙ ap (after from hard_end p) moved)

  week_fuel :
      (fuel w : ℕ)
      → leb (week w) hard_end ≡ true
      → day_count (week w) hard_end < suc fuel
      → day_count (week (w + interval)) hard_end < fuel
  week_fuel fuel w e f = ground arith

  pub week_loop_lem :
      (fuel r w : ℕ) (list : List ℕ)
      → w % interval ≡ 0
      → day_count (week w) hard_end < fuel
      → 1 ≤ r
      → length list + r ≡ limit_of max_results
      → week_loop fuel days interval from hard_end max_results (week w) list
        ≡ some (list ++ take r (after from hard_end p (week w)))
  week_loop_lem zero r w list h f pos len = absurd (omega arith)
  week_loop_lem (suc fuel) r w list h f pos len =
      let e : List ℕ = in_window from hard_end (week w) days in
      let emitted = emit_week_lem from hard_end (week w) max_results r days list pos len in
      let rest : List ℕ = after from hard_end p (week (w + interval)) in
      let whole : take r (after from hard_end p (week w)) ≡ take r e ++ take (r - length e) rest =
        ap (take r) (after-week w h) ∙ take-append r e rest in
      elim (Bool-cases (leb (week w) hard_end)) [
        | inr g ↦
            week_loop-done fuel days interval from hard_end max_results (week w) list g
            ∙ ap some (sym (append-nil list))
            ∙ ap (λ l. some (list ++ l)) (sym (take-nil r))
            ∙ ap (λ l. some (list ++ take r l))
                (sym (after-past from hard_end p (week w) (leb-false→lt (week w) hard_end g)))
        | inl g ↦ elim (Bool-cases (leb r (length e))) [
          | inl m ↦
              let full : ◌≡◌ {A = ℕ} 0 (r - length e) = ground arith in
              week_loop-last fuel days interval from hard_end max_results (week w) list
                (list ++ take r e) g (emitted ∙ ap (λ (b : Bool). (b, list ++ take r e)) m)
              ∙ ap (λ l. some (list ++ l))
                  (sym (append-nil (take r e)) ∙ ap (λ k. take r e ++ take k rest) full ∙ sym whole)
          | inr m ↦
              let moved : week w + 7 * interval * ms_per_day ≡ week (w + interval) = omega arith in
              let fits : length e < r = leb-false→lt r (length e) m in
              week_loop-more fuel days interval from hard_end max_results (week w) list
                (list ++ take r e) g (emitted ∙ ap (λ (b : Bool). (b, list ++ take r e)) m)
              ∙ ap
                  (λ c. week_loop fuel days interval from hard_end max_results c (list ++ take r e))
                  moved
              ∙ week_loop_lem fuel (r - length e) (w + interval) (list ++ take r e)
                  (mod_step w interval h positive) (week_fuel fuel w g f) (omega arith)
                  (omega (arith, length-append list (take r e), length-take r e))
              ∙ ap some (
                  append_assoc list (take r e) (take (r - length e) rest)
                  ∙ ap (λ l. list ++ l) (sym whole))
        ]
      ]
