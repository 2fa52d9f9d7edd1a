-- ===== src/Guards/Tests.antt =====
-- Runs of the rate limit, and its theorem at a concrete input.
use seatwaves_backend.Common.{ℕ, ◌+◌, ◌*◌, ◌≤◌, ◌≡◌, refl, [], ◌∷◌, ltb, ◌==◌, arith, if◌then◌else◌}
use seatwaves_backend.Guards.Counter.{Counter}
use seatwaves_backend.Guards.RateLimit.{RateLimitConfig, let_through}
use seatwaves_backend.Guards.Window.{smaller, let_through-exact}

-- One key: its number and the time at which it is gone.
abbrev Cell : Type 0
Cell = ℕ × ℕ

abbrev read : ℕ → Cell → ℕ
read now s = if ltb now s.1 then s.0 else 0

abbrev never : ℕ
never = 1_000_000_000_000_000

-- The cell after INCR; a new key has no end.
abbrev add_one : ℕ → Cell → Cell
add_one now s = if read now s == 0 then (1, never) else (s.0 + 1, s.1)

single_incr :
    (now later : ℕ) (s : Cell)
    → 1 ≤ read now s
    → now ≤ later
    → read later (add_one now s) ≡ (if read later s == 0 then 0 else read later s + 1)
single_incr now later s h l = ground arith

abbrev single : Counter
single = record {
  State = Cell;
  value = λ now key s. read now s;
  incr = λ now key s. (read now s + 1, add_one now s);
  expire = λ now key seconds s. (s.0, now + seconds * 1000);
  incr-answer = λ now key s. refl;
  value-incr = λ now later key s h l. single_incr now later s h l;
  value-expire = λ now later seconds key s h l. rw h refl;
}

abbrev two_a_minute : RateLimitConfig
two_a_minute = record { requests = 2; window_ms = 60_000 }

let_through_run :
    let_through single "rate_limit:a" two_a_minute (100 ∷ 200 ∷ 300 ∷ 70_000 ∷ []) (0, 0) ≡ 3
unfolding let_through
let_through_run = refl

let_through-exact_example :
    let_through single "rate_limit:a" two_a_minute (100 ∷ 200 ∷ 300 ∷ []) (0, 0) ≡ smaller 3 2
let_through-exact_example =
    let_through-exact single "rate_limit:a" two_a_minute 100 (200 ∷ 300 ∷ []) (0, 0) refl
      (omega arith, omega arith, (omega arith, omega arith, tt))
