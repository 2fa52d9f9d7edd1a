-- ===== src/Recurrence/Days.antt =====
-- The days of one week: `emit_week` and the days that it stands for.
use seatwaves_backend.Common.{
  ℕ, zero, suc, ◌+◌, ◌*◌, ◌≤◌, ◌<◌, ◌≡◌, refl, ap, sym, subst, ◌∙◌, Bool, true, false, ◌&&◌, ◌||◌,
  not, List, [], ◌∷◌, ◌++◌, take, length, length-append, ltb, leb, ◌==◌, arith, if◌then◌else◌,
  Bool-cases, inl, inr,
}
use mathlib.Core.Path.{ap₂}
use mathlib.Core.List.{append_assoc, append-nil}
use seatwaves_backend.Recurrence.Utc.{ms_per_day}
use seatwaves_backend.Recurrence.Expand.{emit_week}
use seatwaves_backend.Recurrence.Reference.{scan, contains, limit_of}
use seatwaves_backend.Recurrence.Daily.{scan-hit}

-- Day indices from `j` on, each above the one before.
abbrev pub IsAscending : ℕ → List ℕ → Type 0
IsAscending j [] = Unit
IsAscending j (k ∷ days) = (j ≤ k) × (k < 7) × IsAscending (suc k) days

-- A test that also wants the day in the window.
abbrev pub clip : ℕ → ℕ → (ℕ → Bool) → ℕ → Bool
clip from hard_end p t = not (ltb t from || ltb hard_end t) && p t

-- Whether a day lies outside the window.
abbrev pub is_outside : ℕ → ℕ → ℕ → Bool
is_outside from hard_end t = ltb t from || ltb hard_end t

module _ (from hard_end week_start : ℕ) where
  -- The days of the week that lie in the window.
  pub in_window : List ℕ → List ℕ
  in_window [] = []
  in_window (k ∷ days) =
      let t = week_start + k * ms_per_day in
      if is_outside from hard_end t then in_window days else t ∷ in_window days

  in_window-nil : in_window [] ≡ []
  unfolding in_window
  in_window-nil = refl

  module _ (k : ℕ) (days : List ℕ) where
    in_window-skip :
        is_outside from hard_end (week_start + k * ms_per_day) ≡ true
        → in_window (k ∷ days) ≡ in_window days
    unfolding in_window
    in_window-skip e = rw e refl

    in_window-cons :
        is_outside from hard_end (week_start + k * ms_per_day) ≡ false
        → in_window (k ∷ days) ≡ (week_start + k * ms_per_day) ∷ in_window days
    unfolding in_window
    in_window-cons e = rw e refl

    module _ (max_results : ℕ) (list : List ℕ) where
      emit_week-skip :
          is_outside from hard_end (week_start + k * ms_per_day) ≡ true
          → emit_week (k ∷ days) week_start from hard_end max_results list
            ≡ emit_week days week_start from hard_end max_results list
      unfolding emit_week
      emit_week-skip e = ground arith

      emit_week-last :
          is_outside from hard_end (week_start + k * ms_per_day) ≡ false
          → leb max_results (length (list ++ (week_start + k * ms_per_day) ∷ [])) ≡ true
          → emit_week (k ∷ days) week_start from hard_end max_results list
            ≡ (true, list ++ (week_start + k * ms_per_day) ∷ [])
      unfolding emit_week
      emit_week-last e f = ground arith

      emit_week-more :
          is_outside from hard_end (week_start + k * ms_per_day) ≡ false
          → leb max_results (length (list ++ (week_start + k * ms_per_day) ∷ [])) ≡ false
          → emit_week (k ∷ days) week_start from hard_end max_results list
            ≡ emit_week days week_start from hard_end max_results
                (list ++ (week_start + k * ms_per_day) ∷ [])
      unfolding emit_week
      emit_week-more e f = ground arith

  emit_week-nil :
      (max_results r : ℕ) (list : List ℕ)
      → emit_week [] week_start from hard_end max_results list
        ≡ (leb (suc r) (length (in_window [])), list ++ take (suc r) (in_window []))
  unfolding emit_week in_window
  emit_week-nil max_results r list =
      ap₂ (λ (b : Bool) (l : List ℕ). (b, l)) (ground arith) (sym (append-nil list))

  -- What `emit_week` answers when `r` results are left and the week gives `days`.
  abbrev emitted : ℕ → List ℕ → List ℕ → Bool × List ℕ
  emitted r list days = (leb r (length days), list ++ take r days)

  pub emit_week_lem :
      (max_results r : ℕ) (days list : List ℕ)
      → 1 ≤ r
      → length list + r ≡ limit_of max_results
      → emit_week days week_start from hard_end max_results list
        ≡ (leb r (length (in_window days)), list ++ take r (in_window days))
  emit_week_lem max_results zero days list h len = absurd (omega arith)
  emit_week_lem max_results (suc r) [] list h len = emit_week-nil max_results r list
  emit_week_lem max_results (suc r) (k ∷ days) list h len =
      let t : ℕ = week_start + k * ms_per_day in
      elim (Bool-cases (is_outside from hard_end t)) [
        | inl e ↦
            emit_week-skip k days max_results list e
            ∙ emit_week_lem max_results (suc r) days list h len
            ∙ ap (emitted (suc r) list) (sym (in_window-skip k days e))
        | inr e ↦
            let unfolded : emitted (suc r) list (t ∷ in_window days)
                ≡ emitted (suc r) list (in_window (k ∷ days)) =
              ap (emitted (suc r) list) (sym (in_window-cons k days e)) in
            elim (Bool-cases (leb max_results (length (list ++ t ∷ [])))) [
              | inl g ↦
                  let last : ◌≡◌ {A = ℕ} 0 r = ground (arith, length-append list (t ∷ [])) in
                  emit_week-last k days max_results list e g
                  ∙ ap₂ (λ (b : Bool) (x : ℕ). (b, list ++ t ∷ take x (in_window days)))
                      (ground arith) last
                  ∙ unfolded
              | inr g ↦
                  emit_week-more k days max_results list e g
                  ∙ emit_week_lem max_results r days (list ++ t ∷ [])
                      (ground (arith, length-append list (t ∷ [])))
                      (omega (arith, length-append list (t ∷ [])))
                  ∙ ap₂ (λ (b : Bool) (l : List ℕ). (b, l)) (ground arith)
                      (append_assoc list (t ∷ []) (take r (in_window days)))
                  ∙ unfolded
            ]
      ]

pub scan-none :
    (p : ℕ → Bool) (n t : ℕ) → ((i : ℕ) → i < n → p (t + i * ms_per_day) ≡ false) → scan p t n ≡ []
unfolding scan
scan-none p zero t h = refl
scan-none p (suc n) t h =
    let e : p t ≡ false = ap p (omega arith) ∙ h 0 (omega arith) in
    rw e (scan-none p n (t + ms_per_day) λ i l. ap p (omega arith) ∙ h (suc i) (omega arith))

contains-below : (j : ℕ) (days : List ℕ) → IsAscending (suc j) days → contains days j ≡ false
contains-below j days asc = ascending_above j (suc j) days (omega arith) asc
  where
    ascending_above :
        (i j : ℕ) (days : List ℕ) → i < j → IsAscending j days → contains days i ≡ false
    ascending_above i j [] l asc = refl
    ascending_above i j (k ∷ days) l asc =
        ground (arith, ascending_above i (suc k) days (omega arith) asc.2)

pub scan-miss :
    (p : ℕ → Bool) (t n : ℕ) → p t ≡ false → scan p t (suc n) ≡ scan p (t + ms_per_day) n
unfolding scan
scan-miss p t n h = rw h refl

module _ (from hard_end week_start : ℕ) (p : ℕ → Bool) where
  abbrev Tests : ℕ → List ℕ → Type 0
  Tests j days = (k : ℕ) → j ≤ k → k < 7 → p (week_start + k * ms_per_day) ≡ contains days k

  pub clip-false : (t : ℕ) → p t ≡ false → clip from hard_end p t ≡ false
  clip-false t h = ground arith

  abbrev day : ℕ → ℕ
  day j = week_start + j * ms_per_day

  abbrev GivesWeek : ℕ → ℕ → List ℕ → Type 0
  GivesWeek n j days =
      scan (clip from hard_end p) (day j) n ≡ in_window from hard_end week_start days

  next_day :
      (n j : ℕ)
      → scan (clip from hard_end p) (day j + ms_per_day) n
        ≡ scan (clip from hard_end p) (day (suc j)) n
  next_day n j = let e : day j + ms_per_day ≡ day (suc j) = omega arith in rw e refl

  week-cons :
      (n j : ℕ) (days : List ℕ)
      → p (day j) ≡ true
      → GivesWeek n (suc j) days
      → GivesWeek (suc n) j (j ∷ days)
  week-cons n j days h ih = elim (Bool-cases (is_outside from hard_end (day j))) [
    | inl e ↦
        scan-miss (clip from hard_end p) (day j) n (ground (arith, e))
        ∙ next_day n j
        ∙ ih
        ∙ sym (in_window-skip from hard_end week_start j days e)
    | inr e ↦
        scan-hit (clip from hard_end p) (day j) n (ground (arith, e))
        ∙ ap (λ l. day j ∷ l) (next_day n j ∙ ih)
        ∙ sym (in_window-cons from hard_end week_start j days e)
  ]

  -- The days of the week that pass the test are those of the list.
  pub scan-in_window :
      (n j : ℕ) (days : List ℕ) → j + n ≡ 7 → IsAscending j days → Tests j days → GivesWeek n j days
  scan-in_window zero j [] e asc h =
      scan-none (clip from hard_end p) 0 (day j) (λ i l. absurd (omega arith))
      ∙ sym (in_window-nil from hard_end week_start)
  scan-in_window zero j (k ∷ days) e asc h = absurd (omega arith)
  scan-in_window (suc n) j [] e asc h =
      scan-miss (clip from hard_end p) (day j) n
        (clip-false (day j) (h j (omega arith) (omega arith)))
      ∙ next_day n j
      ∙ scan-in_window n (suc j) [] (omega arith) tt (λ k l. h k (omega arith))
  scan-in_window (suc n) j (k ∷ days) e asc h = elim (Bool-cases (k == j)) [
    | inl f ↦
        let same : j ≡ k = ground arith in
        let hit : p (day j) ≡ true = h j (omega arith) (omega arith) ∙ ground (arith, f) in
        subst (λ x. GivesWeek (suc n) j (x ∷ days)) same
          (week-cons n j days hit (
            scan-in_window n (suc j) days (omega arith)
              (subst (λ x. IsAscending (suc x) days) (sym same) asc.2)
              (λ i l u. h i (omega arith) u ∙ ground arith)))
    | inr f ↦
        let below : suc j ≤ k = ground arith in
        scan-miss (clip from hard_end p) (day j) n (
          clip-false (day j)
            (h j (omega arith) (omega arith) ∙ contains-below j (k ∷ days) (below, asc.1, asc.2)))
        ∙ next_day n j
        ∙ scan-in_window n (suc j) (k ∷ days) (omega arith) (below, asc.1, asc.2)
            (λ i l. h i (omega arith))
  ]
