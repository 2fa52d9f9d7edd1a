-- ===== src/Guards/Counter.antt =====
-- What the rate limit asks of Redis: INCR and EXPIRE of one key, with the laws that Redis documents.
use Prim.Native.String.{String}
use seatwaves_backend.Common.{ℕ, ◌+◌, ◌*◌, ◌≤◌, ◌≡◌, ltb, ◌==◌, if◌then◌else◌}

pub record Counter : Type 1 where
  pub State : Type 0
  -- The number that a key holds at a time; 0 if there is no key.
  pub value : ℕ → String → State → ℕ
  pub incr : ℕ → String → State → ℕ × State
  -- `EXPIRE key seconds`
  pub expire : ℕ → String → ℕ → State → State
  pub incr-answer : (now : ℕ) (key : String) (s : State) → (incr now key s).0 ≡ value now key s + 1
  -- A key that is there keeps its end.
  pub value-incr :
      (now later : ℕ) (key : String) (s : State)
      → 1 ≤ value now key s
      → now ≤ later
      → value later key (incr now key s).1
        ≡ (if value later key s == 0 then 0 else value later key s + 1)
  -- A new key, with the end that it is given at once.
  pub value-expire :
      (now later seconds : ℕ) (key : String) (s : State)
      → value now key s ≡ 0
      → now ≤ later
      → value later key (expire now key seconds (incr now key s).1)
        ≡ (if ltb later (now + seconds * 1000) then 1 else 0)
