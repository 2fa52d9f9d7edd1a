-- ===== src/Recurrence/Left.antt =====
-- What is left of a window from a day on, and the first results of it.
use seatwaves_backend.Common.{
  ℕ, zero, suc, ◌+◌, ◌-◌, ◌*◌, ◌≤◌, ◌<◌, ◌≡◌, refl, ap, sym, ◌∙◌, Bool, true, false, List, [], ◌∷◌,
  ◌++◌, take, length, leb, leb→le, leb-false→lt, arith, Bool-cases, inl, inr,
}
use mathlib.Core.Path.{ap₂}
use seatwaves_backend.Recurrence.Utc.{ms_per_day}
use seatwaves_backend.Recurrence.Reference.{scan, day_count}
use seatwaves_backend.Recurrence.Daily.{scan-hit}
use seatwaves_backend.Recurrence.Days.{clip, scan-none, scan-miss}

module _ (from hard_end : ℕ) (p : ℕ → Bool) where
  -- All that is left from a day on.
  unfoldable pub after : ℕ → List ℕ
  after t = scan (clip from hard_end p) t (day_count t hard_end)

  pub after-past : (t : ℕ) → hard_end < t → after t ≡ []
  unfolding after
  after-past t h =
      scan-none (clip from hard_end p) (day_count t hard_end) t
        (λ i l. past (t + i * ms_per_day) (omega arith))
    where
      past : (t : ℕ) → hard_end < t → clip from hard_end p t ≡ false
      past t h = ground arith

  day_count-next :
      (t : ℕ) → t ≤ hard_end → day_count t hard_end ≡ suc (day_count (t + ms_per_day) hard_end)
  day_count-next t h = ground arith

  after-hit : (t : ℕ) → clip from hard_end p t ≡ true → after t ≡ t ∷ after (t + ms_per_day)
  unfolding after
  after-hit t h =
      ap (scan (clip from hard_end p) t) (day_count-next t (ground arith))
      ∙ scan-hit (clip from hard_end p) t (day_count (t + ms_per_day) hard_end) h

  after-within :
      (t : ℕ) → clip from hard_end p t ≡ false → t ≤ hard_end → after t ≡ after (t + ms_per_day)
  unfolding after
  after-within t h e =
      ap (scan (clip from hard_end p) t) (day_count-next t e)
      ∙ scan-miss (clip from hard_end p) t (day_count (t + ms_per_day) hard_end) h

  after-miss : (t : ℕ) → clip from hard_end p t ≡ false → after t ≡ after (t + ms_per_day)
  after-miss t h = elim (Bool-cases (leb t hard_end)) [
    | inl e ↦ after-within t h (leb→le t hard_end e)
    | inr e ↦
        after-past t (leb-false→lt t hard_end e)
        ∙ sym (after-past (t + ms_per_day) (omega (arith, leb-false→lt t hard_end e)))
  ]

  pub after-skip :
      (k t : ℕ)
      → ((i : ℕ) → i < k → clip from hard_end p (t + i * ms_per_day) ≡ false)
      → after t ≡ after (t + k * ms_per_day)
  after-skip zero t h = let e : t + 0 * ms_per_day ≡ t = omega arith in rw e refl
  after-skip (suc k) t h =
      let first : clip from hard_end p t ≡ false =
        ap (clip from hard_end p) (omega arith) ∙ h 0 (omega arith) in
      let moved : t + ms_per_day + k * ms_per_day ≡ t + suc k * ms_per_day = omega arith in
      after-miss t first
      ∙ after-skip k (t + ms_per_day)
          (λ i l. ap (clip from hard_end p) (omega arith) ∙ h (suc i) (omega arith))
      ∙ ap after moved

  -- The next `k` days, and all that is left then.
  pub after-split :
      (k t : ℕ) → after t ≡ scan (clip from hard_end p) t k ++ after (t + k * ms_per_day)
  after-split zero t =
      let e : t + 0 * ms_per_day ≡ t = omega arith in
      let none_yet : scan (clip from hard_end p) t 0 ≡ [] =
        scan-none (clip from hard_end p) 0 t (λ i l. absurd (omega arith)) in
      rw (e, none_yet) refl
  after-split (suc k) t =
      let moved : t + ms_per_day + k * ms_per_day ≡ t + suc k * ms_per_day = omega arith in
      elim (Bool-cases (clip from hard_end p t)) [
        | inl e ↦
            after-hit t e
            ∙ ap (λ l. t ∷ l) (after-split k (t + ms_per_day))
            ∙ ap₂ ◌++◌ (sym (scan-hit (clip from hard_end p) t k e)) (ap after moved)
        | inr e ↦
            after-miss t e
            ∙ after-split k (t + ms_per_day)
            ∙ ap₂ ◌++◌ (sym (scan-miss (clip from hard_end p) t k e)) (ap after moved)
      ]

pub take-nil : (r : ℕ) → take {A = ℕ} r [] ≡ []
take-nil zero = refl
take-nil (suc r) = refl

pub take-append :
    (r : ℕ) (xs ys : List ℕ) → take r (xs ++ ys) ≡ take r xs ++ take (r - length xs) ys
take-append zero xs ys = let e : 0 - length xs ≡ 0 = omega arith in rw e refl
take-append (suc r) [] ys = let e : suc r - 0 ≡ suc r = omega arith in rw e refl
take-append (suc r) (x ∷ xs) ys =
    let e : suc r - suc (length xs) ≡ r - length xs = omega arith in
    rw e (ap (λ l. x ∷ l) (take-append r xs ys))

pub length-take : (r : ℕ) (xs : List ℕ) → length xs ≤ r → length (take r xs) ≡ length xs
length-take zero [] h = refl
length-take zero (x ∷ xs) h = absurd (omega arith)
length-take (suc r) [] h = refl
length-take (suc r) (x ∷ xs) h = omega (arith, length-take r xs)
