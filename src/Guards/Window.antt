-- ===== src/Guards/Window.antt =====
-- The requests of one window of the rate limit.
use Prim.Native.String.{String}
use seatwaves_backend.Common.{
  ℕ, suc, ◌+◌, ◌-◌, ◌*◌, ◌≤◌, ◌<◌, ◌≡◌, refl, ap, ◌∙◌, true, false, List, [], ◌∷◌, ltb, leb, length,
  ◌==◌, arith, if◌then◌else◌,
}
use seatwaves_backend.Guards.Counter.{Counter}
use seatwaves_backend.Guards.RateLimit.{
  RateLimitConfig, window_seconds, count_request, can_activate, let_through,
}

-- Times in order, from a first one on, all before an end.
abbrev pub AreWithin : ℕ → ℕ → List ℕ → Type 0
AreWithin now last [] = Unit
AreWithin now last (t ∷ times) = (now ≤ t) × (t < last) × AreWithin t last times

abbrev pub smaller : ℕ → ℕ → ℕ
smaller a b = if leb a b then a else b

module _ (c : Counter) (key : String) (config : RateLimitConfig) where
  -- The key holds `n` until the end of the window.
  abbrev Holds : ℕ → ℕ → ℕ → c.State → Type 0
  Holds now last n s =
      (later : ℕ) → now ≤ later → c.value later key s ≡ (if ltb later last then n else 0)

  after_first :
      (now : ℕ) (s : c.State)
      → c.value now key s ≡ 0
      → Holds now (now + window_seconds config * 1000) 1 (count_request c key config now s).1
  after_first now s h later l =
      let one : (c.incr now key s).0 ≡ 1 = c.incr-answer now key s ∙ omega (arith, h) in
      let test : ((c.incr now key s).0 == 1) ≡ true = ground (arith, one) in
      rw test (c.value-expire now later (window_seconds config) key s h l)

  after_next :
      (from now last n : ℕ) (s : c.State)
      → 1 ≤ n
      → from ≤ now
      → now < last
      → Holds from last n s
      → Holds now last (n + 1) (count_request c key config now s).1
  after_next from now last n s pos f u h later l =
      let here : c.value now key s ≡ n = h now f ∙ ground arith in
      let answer : (c.incr now key s).0 ≡ n + 1 = c.incr-answer now key s ∙ omega (arith, here) in
      let test : ((c.incr now key s).0 == 1) ≡ false = ground (arith, answer) in
      rw test (
        c.value-incr now later key s (omega (arith, here)) l
        ∙ ground (arith, h later (omega arith)))

  abbrev allowed : ℕ → ℕ
  allowed current = if (if ltb config.requests current then false else true) then 1 else 0

  let_through-cons :
      (now : ℕ) (times : List ℕ) (s : c.State) (n : ℕ)
      → (c.incr now key s).0 ≡ n
      → let_through c key config (now ∷ times) s
        ≡ allowed n + let_through c key config times (count_request c key config now s).1
  unfolding let_through can_activate
  let_through-cons now times s n h =
      ap (λ k. allowed k + let_through c key config times (count_request c key config now s).1) h

  let_through-nil : (s : c.State) → let_through c key config [] s ≡ 0
  unfolding let_through
  let_through-nil s = refl

  count_one :
      (n k rest : ℕ)
      → rest ≡ smaller k (config.requests - (n + 1))
      → allowed (n + 1) + rest ≡ smaller (suc k) (config.requests - n)
  count_one n k rest h = ground arith

  rest_exact :
      (from last n : ℕ) (times : List ℕ) (s : c.State)
      → 1 ≤ n
      → AreWithin from last times
      → Holds from last n s
      → let_through c key config times s ≡ smaller (length times) (config.requests - n)
  rest_exact from last n [] s pos w h = let_through-nil s ∙ ground arith
  rest_exact from last n (t ∷ times) s pos w h =
      let here : c.value t key s ≡ n = h t w.0 ∙ ground (arith, w.1) in
      let_through-cons t times s (n + 1) (c.incr-answer t key s ∙ omega (arith, here))
      ∙ count_one n (length times) _ (
          rest_exact t last (n + 1) times (count_request c key config t s).1 (omega arith) w.2
            (after_next from t last n s pos w.0 w.1 h))

-- Of the requests of one window, which begins with the first request that finds no number stored,
-- the guard lets as many through as the limit says, or all if there are fewer.
pub let_through-exact :
    (c : Counter) (key : String) (config : RateLimitConfig) (now : ℕ) (times : List ℕ) (s : c.State)
    → c.value now key s ≡ 0
    → AreWithin now (now + window_seconds config * 1000) times
    → let_through c key config (now ∷ times) s ≡ smaller (length (now ∷ times)) config.requests
let_through-exact c key config now times s free w =
    let_through-cons c key config now times s 1 (c.incr-answer now key s ∙ omega (arith, free))
    ∙ count_one c key config 0 (length times) _ (
        rest_exact c key config now (now + window_seconds config * 1000) 1 times
          (count_request c key config now s).1 (omega arith) w
          (after_first c key config now s free))
    ∙ ap (smaller (length (now ∷ times))) (omega arith)
