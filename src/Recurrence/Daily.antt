-- ===== src/Recurrence/Daily.antt =====
-- The DAILY branch of `expandWindowUTC` and the days that it stands for.
use seatwaves_backend.Common.{
  ℕ, zero, suc, ◌+◌, ◌-◌, ◌*◌, ◌/◌, ◌%◌, ◌≤◌, ◌<◌, ◌≡◌, refl, ap, sym, ◌∙◌, Bool, true, false, List,
  [], ◌∷◌, ◌++◌, some, take, length, length-append, leb, ◌==◌, arith, if◌then◌else◌, Bool-cases,
  inl, inr,
}
use mathlib.Core.List.{append_assoc, append-nil}
use mathlib.Core.Path.{ap₂}
use seatwaves_backend.Recurrence.Utc.{ms_per_day}
use seatwaves_backend.Recurrence.Expand.{daily_loop}
use seatwaves_backend.Recurrence.Reference.{scan, day_count, limit_of}

-- Days that fail the test.
pub scan_skip :
    (p : ℕ → Bool) (k n t : ℕ)
    → ((i : ℕ) → i < k → p (t + i * ms_per_day) ≡ false)
    → scan p t n ≡ scan p (t + k * ms_per_day) (n - k)
unfolding scan
scan_skip p zero n t h = ap₂ (scan p) (omega arith) (omega arith)
scan_skip p (suc k) zero t h = let e : 0 - suc k ≡ 0 = omega arith in rw e refl
scan_skip p (suc k) (suc n) t h =
    let e : p t ≡ false = ap p (omega arith) ∙ h 0 (omega arith) in
    rw e (
      scan_skip p k n (t + ms_per_day) (λ i l. ap p (omega arith) ∙ h (suc i) (omega arith))
      ∙ ap₂ (scan p) (omega arith) (omega arith))

pub mod_between : (o i m : ℕ) → o % m ≡ 0 → 1 ≤ i → i < m → (o + i) % m ≡ i
mod_between o i m h p l = grind arith

pub mod_step : (o m : ℕ) → o % m ≡ 0 → 1 ≤ m → (o + m) % m ≡ 0
mod_step o m h p = grind arith

pub day_count-add :
    (c k hard_end : ℕ) → day_count (c + k * ms_per_day) hard_end ≡ day_count c hard_end - k
day_count-add c k hard_end = ground arith

pub scan-hit :
    (p : ℕ → Bool) (t n : ℕ) → p t ≡ true → scan p t (suc n) ≡ t ∷ scan p (t + ms_per_day) n
unfolding scan
scan-hit p t n h = rw h refl

module _ (fuel hard_end interval max_results cursor : ℕ) (list : List ℕ) where
  daily_loop-done :
      leb cursor hard_end ≡ false
      → daily_loop (suc fuel) hard_end interval max_results cursor list ≡ some list
  unfolding daily_loop
  daily_loop-done e = rw e refl

  daily_loop-last :
      leb cursor hard_end ≡ true
      → leb max_results (length (list ++ cursor ∷ [])) ≡ true
      → daily_loop (suc fuel) hard_end interval max_results cursor list ≡ some (list ++ cursor ∷ [])
  unfolding daily_loop
  daily_loop-last e f = rw (e, f) refl

  daily_loop-more :
      leb cursor hard_end ≡ true
      → leb max_results (length (list ++ cursor ∷ [])) ≡ false
      → daily_loop (suc fuel) hard_end interval max_results cursor list
        ≡ daily_loop fuel hard_end interval max_results
            (cursor + interval * ms_per_day)
            (list ++ cursor ∷ [])
  unfolding daily_loop
  daily_loop-more e f = rw (e, f) refl

module _ (p : ℕ → Bool) (first_day interval hard_end max_results : ℕ) (positive : 1 ≤ interval)
    (tests : (o : ℕ) → p (first_day + o * ms_per_day) ≡ (o % interval == 0)) where
  misses :
      (o i : ℕ)
      → o % interval ≡ 0
      → i < interval - 1
      → p (first_day + o * ms_per_day + ms_per_day + i * ms_per_day) ≡ false
  misses o i h l =
      ap p (omega arith) ∙ tests (o + (i + 1)) ∙ ground (arith, mod_between o (i + 1) interval h)

  skip_interval :
      (o n : ℕ)
      → o % interval ≡ 0
      → scan p (first_day + o * ms_per_day + ms_per_day) n
        ≡ scan p (first_day + (o + interval) * ms_per_day) (n - (interval - 1))
  skip_interval o n h =
      scan_skip p (interval - 1) n (first_day + o * ms_per_day + ms_per_day) (λ i l. misses o i h l)
      ∙ ap₂ (scan p) (omega arith) refl

  day_count-suc :
      (c : ℕ) → leb c hard_end ≡ true → day_count c hard_end ≡ suc (day_count c hard_end - 1)
  day_count-suc c h = ground arith

  -- The days from one occurrence on.
  scan-occurrence :
      (o : ℕ)
      → o % interval ≡ 0
      → leb (first_day + o * ms_per_day) hard_end ≡ true
      → scan p (first_day + o * ms_per_day) (day_count (first_day + o * ms_per_day) hard_end)
        ≡ (first_day + o * ms_per_day)
          ∷ scan p
              (first_day + (o + interval) * ms_per_day)
              (day_count (first_day + (o + interval) * ms_per_day) hard_end)
  scan-occurrence o h l =
      let c : ℕ = first_day + o * ms_per_day in
      let m : ℕ = day_count c hard_end - 1 in
      let hit : p c ≡ true = tests o ∙ ground (arith, h) in
      ap (scan p c) (day_count-suc c l)
      ∙ scan-hit p c m hit
      ∙ ap (λ l. c ∷ l)
          (skip_interval o m h
            ∙ ap (scan p (first_day + (o + interval) * ms_per_day)) (
                let e : day_count (c + interval * ms_per_day) hard_end
                    ≡ day_count c hard_end - interval =
                  day_count-add c interval hard_end in
                let f : c + interval * ms_per_day ≡ first_day + (o + interval) * ms_per_day =
                  omega arith in
                let g : m - (interval - 1) ≡ day_count c hard_end - interval = omega arith in
                g ∙ sym e ∙ ap (λ x. day_count x hard_end) f))

  abbrev offset : ℕ → ℕ
  offset o = first_day + o * ms_per_day

  abbrev after : ℕ → List ℕ
  after o = scan p (offset o) (day_count (offset o) hard_end)

  fuel_left :
      (fuel o : ℕ)
      → leb (offset o) hard_end ≡ true
      → day_count (offset o) hard_end < suc fuel
      → day_count (offset (o + interval)) hard_end < fuel
  fuel_left fuel o e f = ground (arith, day_count-add (offset o) interval hard_end)

  after-done : (o : ℕ) → leb (offset o) hard_end ≡ false → after o ≡ []
  unfolding scan
  after-done o e =
      ap (λ b. scan p (offset o) (if b then (hard_end - offset o) / ms_per_day + 1 else 0)) e

  pub daily_loop_lem :
      (fuel r o : ℕ) (list : List ℕ)
      → o % interval ≡ 0
      → day_count (offset o) hard_end < fuel
      → 1 ≤ r
      → length list + r ≡ limit_of max_results
      → daily_loop fuel hard_end interval max_results (offset o) list
        ≡ some (list ++ take r (after o))
  daily_loop_lem zero r o list h f pos len = absurd (omega arith)
  daily_loop_lem (suc fuel) zero o list h f pos len = absurd (omega arith)
  daily_loop_lem (suc fuel) (suc r) o list h f pos len =
      let list' : List ℕ = list ++ offset o ∷ [] in
      elim (Bool-cases (leb (offset o) hard_end)) [
        | inr e ↦
            daily_loop-done fuel hard_end interval max_results (offset o) list e
            ∙ ap some (sym (append-nil list))
            ∙ ap (λ l. some (list ++ take (suc r) l)) (sym (after-done o e))
        | inl e ↦
            let unfolded : some (list ++ offset o ∷ take r (after (o + interval)))
                ≡ some (list ++ take (suc r) (after o)) =
              ap (λ l. some (list ++ take (suc r) l)) (sym (scan-occurrence o h e)) in
            elim (Bool-cases (leb max_results (length list'))) [
              | inl g ↦
                  let last : ◌≡◌ {A = ℕ} 0 r = ground (arith, length-append list (offset o ∷ [])) in
                  daily_loop-last fuel hard_end interval max_results (offset o) list e g
                  ∙ ap (λ k. some (list ++ offset o ∷ take k (after (o + interval)))) last
                  ∙ unfolded
              | inr g ↦
                  let moved : offset o + interval * ms_per_day ≡ offset (o + interval) =
                    omega arith in
                  daily_loop-more fuel hard_end interval max_results (offset o) list e g
                  ∙ ap (λ c. daily_loop fuel hard_end interval max_results c list') moved
                  ∙ daily_loop_lem fuel r (o + interval) list' (mod_step o interval h positive)
                      (fuel_left fuel o e f) (ground (arith, length-append list (offset o ∷ [])))
                      (omega (arith, length-append list (offset o ∷ [])))
                  ∙ ap some (append_assoc list (offset o ∷ []) (take r (after (o + interval))))
                  ∙ unfolded
            ]
      ]
