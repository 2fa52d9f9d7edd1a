-- ===== src/Locks/Lock.antt =====
-- `acquireLock`, `releaseLock` and `withLock` of src/common/services/distributed-lock.service.ts.
use Prim.Native.String.{String}
use text.Mathlib.Text.{◌==◌ as str_eq}
use seatwaves_backend.Common.{
  ℕ, zero, suc, ◌+◌, ◌*◌, Bool, true, false, Option, none, some, ◌==◌, if◌then◌else◌, Result, err,
  failure,
}
use seatwaves_backend.Locks.Redis.{Redis}

-- The time and what Redis holds.
pub record World (r : Redis) : Type 0 where
  pub clock : ℕ
  pub redis : r.State

-- `Math.pow(2, attempt)`
abbrev pub power_of_two : ℕ → ℕ
power_of_two zero = 1
power_of_two (suc n) = 2 * power_of_two n

module _ (r : Redis) (lock_key lock_value : String) where
  abbrev pub held_by : Option String → Bool
  held_by none = false
  held_by (some value) = str_eq value lock_value

  -- One `SET` of the loop.
  abbrev pub attempt : ℕ → World r → Bool × World r
  attempt ttl w =
      let (got, s) = r.set_nx w.clock lock_key lock_value ttl w.redis in
      (got, record w { redis = s })

  -- The loop of `acquireLock`, with what happens to the world in a sleep of so many milliseconds.
  unfoldable pub acquire_loop : (ℕ → World r → World r) → ℕ → ℕ → ℕ → ℕ → World r → Bool × World r
  acquire_loop sleep ttl delay zero i w = (false, w)
  acquire_loop sleep ttl delay (suc rounds) i w =
      let (got, w') = attempt ttl w in
      let slept = if rounds == 0 then w' else sleep (delay * power_of_two i) w' in
      let rest = acquire_loop sleep ttl delay rounds (i + 1) slept in
      if got then (true, w') else rest

  -- `acquireLock`: 3 attempts and 100 ms are its defaults.
  unfoldable pub acquire_lock : (ℕ → World r → World r) → ℕ → World r → Bool × World r
  unfolding acquire_loop
  acquire_lock sleep ttl = acquire_loop sleep ttl 100 3 0

  -- `releaseLock`, whose script Redis runs at once.
  unfoldable pub release_lock : World r → Bool × World r
  release_lock w =
      if held_by (r.get w.clock lock_key w.redis)
      then (true, record w { redis = r.del w.clock lock_key w.redis })
      else (false, w)

  -- What `withLock` does with the answer of `acquireLock`.
  unfoldable pub run_locked :
      {A : Type 0} → (World r → Result A × World r) → Bool × World r → Result A × World r
  unfolding release_lock
  run_locked operation (false, w) = (err failure, w)
  run_locked operation (true, w) = let (answer, w') = operation w in (answer, (release_lock w').1)

  -- `withLock`
  unfoldable pub with_lock :
      {A : Type 0}
      → (ℕ → World r → World r)
      → (World r → Result A × World r)
      → ℕ
      → World r
      → Result A × World r
  unfolding run_locked acquire_lock
  with_lock sleep operation ttl w = run_locked operation (acquire_lock sleep ttl w)
