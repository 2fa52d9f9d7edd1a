-- ===== src/Locks/Laws.antt =====
-- `acquireLock` and `withLock` of src/common/services/distributed-lock.service.ts.
use Prim.Native.String.{String}
use seatwaves_backend.Common.{
  ℕ, zero, suc, ◌+◌, ◌≤◌, ◌<◌, ◌≡◌, refl, ap, ◌∙◌, ◌⊎◌, Bool, true, false, some, arith, Bool-cases,
  Option-cases, inl, inr, Result, err, failure,
}
use seatwaves_backend.Locks.Redis.{Redis}
use seatwaves_backend.Locks.Lock.{
  World, attempt, acquire_loop, acquire_lock, release_lock, held_by, run_locked, with_lock,
}

module _ (r : Redis) (key value : String) where
  -- The lock is the caller's for `ttl` milliseconds, and its time is the world's.
  abbrev pub IsHeld : ℕ → World r → Type 0
  IsHeld ttl w =
      (later : ℕ) → w.clock ≤ later → later < w.clock + ttl → r.get later key w.redis ≡ some value

  -- An answer of `acquireLock`: if it is the value, the lock is the caller's.
  abbrev pub IsSound : ℕ → Bool × World r → Type 0
  IsSound ttl (false, w) = Unit
  IsSound ttl (true, w) = IsHeld ttl w

  attempt_cases :
      (ttl : ℕ) (w : World r)
      → ((attempt r key value ttl w).0 ≡ false)
        ⊎ (((attempt r key value ttl w).0 ≡ true) × IsHeld ttl (attempt r key value ttl w).1)
  attempt_cases ttl w = elim (Option-cases (r.get w.clock key w.redis)) [
    | inl free ↦
        let answer = r.set_nx-free w.clock key value ttl w.redis free in
        inr (answer.0, λ later l u. answer.1 later l ∙ ground arith)
    | inr (other, taken) ↦ inl (
        ap (λ (a : Bool × r.State). a.0) (r.set_nx-taken w.clock key value ttl w.redis other taken))
  ]

  pub acquire_loop-IsSound :
      (sleep : ℕ → World r → World r) (ttl delay rounds i : ℕ) (w : World r)
      → IsSound ttl (acquire_loop r key value sleep ttl delay rounds i w)
  unfolding acquire_loop
  acquire_loop-IsSound sleep ttl delay zero i w = tt
  acquire_loop-IsSound sleep ttl delay (suc rounds) i w = elim (attempt_cases ttl w) [
    | inl e ↦ rw e (acquire_loop-IsSound sleep ttl delay rounds (i + 1) _)
    | inr (e, held) ↦ rw e held
  ]

  released_or_gone :
      (w : World r)
      → held_by r key value
          (r.get (release_lock r key value w).1.clock key (release_lock r key value w).1.redis)
        ≡ false
  unfolding release_lock
  released_or_gone w = elim (Bool-cases (held_by r key value (r.get w.clock key w.redis))) [
    | inl e ↦ rw e (ap (held_by r key value) (r.get-del w.clock w.clock key w.redis))
    | inr e ↦ rw e e
  ]

  module _ {A : Type 0} (operation : World r → Result A × World r) (ttl : ℕ) where
    -- What `withLock` does with an answer of `acquireLock`.
    abbrev pub Runs : Bool × World r → Result A × World r → Type 0
    Runs (false, w) answer = answer ≡ (err failure, w)
    Runs (true, w) answer =
        IsHeld ttl w
        × (answer.0 ≡ (operation w).0)
        × (held_by r key value (r.get answer.1.clock key answer.1.redis) ≡ false)

    run_locked-Runs :
        (a : Bool × World r) → IsSound ttl a → Runs a (run_locked r key value operation a)
    unfolding run_locked
    run_locked-Runs (false, w) h = refl
    run_locked-Runs (true, w) h = (h, refl, released_or_gone (operation w).1)

-- If `acquireLock` answers null, `withLock` throws and the operation is not run. Otherwise the lock
-- is the caller's for its time when the operation begins, the answer is that of the operation, an
-- exception included, and the lock is the caller's no longer.
pub with_lock-Runs :
    (r : Redis) (key value : String) {A : Type 0} (sleep : ℕ → World r → World r)
    (operation : World r → Result A × World r) (ttl : ℕ) (w : World r)
    → Runs r key value operation ttl
        (acquire_lock r key value sleep ttl w)
        (with_lock r key value sleep operation ttl w)
unfolding with_lock acquire_lock
with_lock-Runs r key value sleep operation ttl w =
    run_locked-Runs r key value operation ttl (acquire_loop r key value sleep ttl 100 3 0 w)
      (acquire_loop-IsSound r key value sleep ttl 100 3 0 w)
