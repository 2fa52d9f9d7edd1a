-- ===== src/Locks/Tests.antt =====
-- Runs of the lock, and its theorems at concrete inputs.
use Prim.Native.String.{String}
use seatwaves_backend.Common.{
  ℕ, ◌+◌, ◌≡◌, ◌≤◌, refl, Bool, true, false, [], ◌∷◌, Option, none, some, ltb, length, keep, All,
  if◌then◌else◌, Result, ok,
}
use seatwaves_backend.Locks.Redis.{Redis}
use seatwaves_backend.Locks.Lock.{World, acquire_lock, with_lock}
use seatwaves_backend.Locks.Schedule.{Grant, Scene, Step, Reach, lasts}
use seatwaves_backend.Locks.Exclusion.{acquire_lock-exclusive}
use seatwaves_backend.Locks.Laws.{Runs, with_lock-Runs}

-- A Redis of one key: its value and the time at which it is gone.
abbrev Cell : Type 0
Cell = Option (String × ℕ)

abbrev read : ℕ → Cell → Option String
read now none = none
read now (some entry) = if ltb now entry.1 then some entry.0 else none

abbrev write_nx : ℕ → String → ℕ → Cell → Option String → Bool × Cell
write_nx now value ttl s none = (true, some (value, now + ttl))
write_nx now value ttl s (some other) = (false, s)

abbrev single : Redis
single = record {
  State = Cell;
  get = λ now key s. read now s;
  set_nx = λ now key value ttl s. write_nx now value ttl s (read now s);
  del = λ now key s. none;
  set_nx-free = λ now key value ttl s free. rw free ((refl, λ later l. refl));
  set_nx-taken = λ now key value ttl s other taken. rw taken refl;
  get-del = λ now later key s. refl;
}

abbrev empty_world : World single
empty_world = record { clock = 5; redis = none }

abbrev no_sleep : ℕ → World single → World single
no_sleep ms w = record w { clock = w.clock + ms }

-- The second caller waits 100 and 200 milliseconds, and has the lock when the first one's time is
-- over.
second_caller_run :
    acquire_lock single "lock:a" "second" no_sleep 50
      (record { clock = 5; redis = some ("first", 200) })
    ≡ (true, record { clock = 305; redis = some ("second", 355) })
unfolding acquire_lock
second_caller_run = refl

second_caller_fails_run :
    acquire_lock single "lock:a" "second" no_sleep 50
      (record { clock = 5; redis = some ("first", 400) })
    ≡ (false, record { clock = 305; redis = some ("first", 400) })
unfolding acquire_lock
second_caller_fails_run = refl

abbrev two_grants : Scene single
two_grants = record {
  world = record { clock = 20; redis = some ("second", 60) };
  grants =
      record { value = "second"; deadline = 60 } ∷ record { value = "first"; deadline = 15 } ∷ [];
}

two_grants_reached : Reach single "lock:a" empty_world two_grants
two_grants_reached =
    Reach.next (Reach.next (Reach.next Reach.start (Step.acquire "first" 10 _)) (Step.wait 15 _))
      (Step.acquire "second" 40 _)

acquire_lock-exclusive_example :
    (length (keep (lasts 20) two_grants.grants) ≤ 1)
    × All
        (λ (g : Grant). read 20 two_grants.world.redis ≡ some g.value)
        (keep (lasts 20) two_grants.grants)
acquire_lock-exclusive_example =
    acquire_lock-exclusive single "lock:a" empty_world two_grants two_grants_reached

abbrev count : World single → Result ℕ × World single
count w = (ok w.clock, w)

with_lock-Runs_example :
    Runs single "lock:a" "first" count 30
      (acquire_lock single "lock:a" "first" no_sleep 30 empty_world)
      (with_lock single "lock:a" "first" no_sleep count 30 empty_world)
with_lock-Runs_example = with_lock-Runs single "lock:a" "first" no_sleep count 30 empty_world
