-- ===== src/Access/Tests.antt =====
-- A run of the permission guard, and its theorem at a concrete input.
use seatwaves_backend.Common.{
  ℕ, ◌+◌, ◌≤◌, ◌<◌, ◌≡◌, refl, true, [], ◌∷◌, none, some, ◌==◌, if◌then◌else◌,
}
use seatwaves_backend.Access.Guard.{Grants, World, collect, load, every, can_activate, ttl_ms}
use seatwaves_backend.Access.Freshness.{Scene, Step, Reach, can_activate-IsRecent}

abbrev editor : Grants
editor user = if user == 1 then some (("read" ∷ "write" ∷ []) ∷ ("read" ∷ []) ∷ []) else none

abbrev opened : World
opened = record { clock = 0; grants = editor; cache = λ user. none }

abbrev nobody : Grants
nobody user = none

-- The user may write, is asked once, and loses every role; half a minute later the list is cached.
abbrev asked : Scene
asked = record {
  world = record opened {
    cache = λ user.
        if 1 == user then some (record { values = "read" ∷ "write" ∷ []; set_at = 0 }) else none;
  };
  past = λ t. editor;
}

abbrev revoked : Scene
revoked = record {
  world = record asked.world { clock = 30_000; grants = nobody };
  past = λ t. if t == 30_000 then nobody else editor;
}

revoked_reached : Reach opened revoked
unfolding can_activate collect
revoked_reached =
    Reach.next (Reach.next Reach.start (Step.request ("write" ∷ []) (some 1) _))
      (Step.change 29_999 nobody _)

still_allowed_run : (can_activate ("write" ∷ []) (some 1) revoked.world).0 ≡ true
unfolding can_activate
still_allowed_run = refl

can_activate-IsRecent_example :
    (t : ℕ) × (t ≤ 30_000)
    × (30_000 < t + ttl_ms)
    × (every ("write" ∷ []) (load (revoked.past t 1)) ≡ true)
can_activate-IsRecent_example =
    can_activate-IsRecent opened revoked "write" [] 1 revoked_reached still_allowed_run
