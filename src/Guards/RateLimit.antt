-- ===== src/Guards/RateLimit.antt =====
-- `RateLimitGuard.canActivate` of src/common/guards/rate-limit.guard.ts.
use Prim.Native.String.{String}
use seatwaves_backend.Common.{
  ℕ, ◌+◌, ◌/◌, Bool, true, false, List, [], ◌∷◌, Option, none, some, ltb, ◌==◌, if◌then◌else◌,
}
use seatwaves_backend.Guards.Counter.{Counter}

-- The metadata of `RateLimit(requests, windowMs)`.
pub record RateLimitConfig : Type 0 where
  pub requests : ℕ
  pub window_ms : ℕ

-- `Math.ceil(windowMs / 1000)`
abbrev pub window_seconds : RateLimitConfig → ℕ
window_seconds config = (config.window_ms + 999) / 1000

module _ (c : Counter) (key : String) where
  -- The calls of Redis: the number of requests, and what is stored then.
  abbrev pub count_request : RateLimitConfig → ℕ → c.State → ℕ × c.State
  count_request config now s =
      let (current, s') = c.incr now key s in
      (current, if current == 1 then c.expire now key (window_seconds config) s' else s')

  -- `canActivate`; false stands for the exception 429.
  unfoldable pub can_activate : Option RateLimitConfig → ℕ → c.State → Bool × c.State
  can_activate none now s = (true, s)
  can_activate (some config) now s =
      let (current, s') = count_request config now s in
      (if ltb config.requests current then false else true, s')

  -- Requests at given times, and the number of those that are let through.
  unfoldable pub let_through : RateLimitConfig → List ℕ → c.State → ℕ
  unfolding can_activate
  let_through config [] s = 0
  let_through config (now ∷ times) s =
      let (allowed, s') = can_activate (some config) now s in
      (if allowed then 1 else 0) + let_through config times s'
