-- ===== src/Locks/Redis.antt =====
-- What the services ask of Redis: one key that expires, read at a time. The laws are those of the
-- commands SET with PX and NX, GET and DEL, as Redis documents them.
use Prim.Native.String.{String}
use seatwaves_backend.Common.{
  ℕ, ◌+◌, ◌≤◌, ◌≡◌, Bool, true, false, Option, none, some, ltb, if◌then◌else◌,
}

pub record Redis : Type 1 where
  pub State : Type 0
  pub get : ℕ → String → State → Option String
  -- `SET key value PX ttl NX`, and whether the answer was OK.
  pub set_nx : ℕ → String → String → ℕ → State → Bool × State
  pub del : ℕ → String → State → State
  pub set_nx-free :
      (now : ℕ) (key value : String) (ttl : ℕ) (s : State)
      → get now key s ≡ none
      → ((set_nx now key value ttl s).0 ≡ true)
        × ((later : ℕ)
            → now ≤ later
            → get later key (set_nx now key value ttl s).1
              ≡ (if ltb later (now + ttl) then some value else none))
  pub set_nx-taken :
      (now : ℕ) (key value : String) (ttl : ℕ) (s : State) (other : String)
      → get now key s ≡ some other
      → set_nx now key value ttl s ≡ (false, s)
  pub get-del : (now later : ℕ) (key : String) (s : State) → get later key (del now key s) ≡ none
