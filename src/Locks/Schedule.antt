-- ===== src/Locks/Schedule.antt =====
-- Callers of one lock, in any order: a step is time that passes, one attempt of `acquireLock`, or
-- one `releaseLock`.
use Prim.Native.String.{String}
use text.Mathlib.Text.{◌==◌ as str_eq}
use seatwaves_backend.Common.{ℕ, ◌+◌, Bool, not, List, [], ◌∷◌, keep, ltb, if◌then◌else◌}
use seatwaves_backend.Locks.Redis.{Redis}
use seatwaves_backend.Locks.Lock.{World, attempt, release_lock}

-- A lock that a caller was given: its value and the time to which it lasts.
pub record Grant : Type 0 where
  pub value : String
  pub deadline : ℕ

abbrev pub lasts : ℕ → Grant → Bool
lasts now g = ltb now g.deadline

-- The world and the grants that were not given back.
pub record Scene (r : Redis) : Type 0 where
  pub world : World r
  pub grants : List Grant

module _ (r : Redis) (key : String) where
  abbrev pub attempted : String → ℕ → Scene r → Scene r
  attempted value ttl s =
      let (got, w) = attempt r key value ttl s.world in
      record {
        world = w;
        grants =
            if got
            then record { value = value; deadline = s.world.clock + ttl } ∷ s.grants
            else s.grants;
      }

  abbrev pub released : String → Scene r → Scene r
  released value s = record {
    world = (release_lock r key value s.world).1;
    grants = keep (λ (g : Grant). not (str_eq g.value value)) s.grants;
  }

  abbrev pub passed : ℕ → Scene r → Scene r
  passed n s = record s { world = record s.world { clock = s.world.clock + n } }

  pub data Step : Scene r → Scene r → Type 0 where
    wait : (n : ℕ) (s : Scene r) → Step s (passed n s)
    acquire : (value : String) (ttl : ℕ) (s : Scene r) → Step s (attempted value ttl s)
    release : (value : String) (s : Scene r) → Step s (released value s)

  -- What the callers can come to from a lock that no one has.
  pub data Reach (w : World r) : Scene r → Type 0 where
    start : Reach w (record { world = w; grants = [] })
    next : {s t : Scene r} → Reach w s → Step s t → Reach w t
