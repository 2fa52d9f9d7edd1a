-- ===== src/Access/Freshness.antt =====
-- How old the permissions are that the guard looks at.
use Prim.Native.String.{String}
use seatwaves_backend.Common.{
  ℕ, suc, ◌+◌, ◌≤◌, ◌<◌, ◌≡◌, refl, ap, sym, ◌∙◌, true, false, List, [], ◌∷◌, Option, none, some,
  ltb, ◌==◌, arith, if◌then◌else◌, Bool-cases, inl, inr,
}
use seatwaves_backend.Access.Guard.{
  Grants, Entry, World, load, fresh, put, or_load, get_or_set, every, can_activate, ttl_ms,
}

-- The world and what the database said at each time so far.
pub record Scene : Type 0 where
  pub world : World
  pub past : ℕ → Grants

-- What the database says holds at the time of the clock.
abbrev pub record_now : (ℕ → Grants) → ℕ → Grants → ℕ → Grants
record_now past now grants t = if t == now then grants else past t

-- Time passes and the administration changes what users may do; Redis drops an entry; a request.
pub data Step : Scene → Scene → Type 0 where
  change :
      (n : ℕ) (grants : Grants) (s : Scene)
      → Step s (record {
        world = record s.world { clock = s.world.clock + suc n; grants = grants };
        past = record_now s.past (s.world.clock + suc n) grants;
      })
  drop :
      (user : ℕ) (s : Scene)
      → Step s (record s {
        world = record s.world {
          cache = λ other. if user == other then none else s.world.cache other;
        };
      })
  request :
      (required : List String) (user : Option ℕ) (s : Scene)
      → Step s (record s { world = (can_activate required user s.world).1 })

pub data Reach (w : World) : Scene → Type 0 where
  start : Reach w (record { world = record w { cache = λ user. none }; past = λ t. w.grants })
  next : {s t : Scene} → Reach w s → Step s t → Reach w t

-- A cached list is what the database said when it was set.
abbrev Truthful : Scene → ℕ → Option Entry → Type 0
Truthful s user none = Unit
Truthful s user (some e) = (e.set_at ≤ s.world.clock) × (e.values ≡ load (s.past e.set_at user))

pub record Invariant (s : Scene) : Type 0 where
  pub now_said : s.past s.world.clock ≡ s.world.grants
  pub truthful : (user : ℕ) → Truthful s user (s.world.cache user)

module _ (s : Scene) (user : ℕ) where
  -- A list that is not older than the TTL.
  abbrev Recent : Option Entry → Type 0
  Recent none = Unit
  Recent (some e) =
      (e.set_at ≤ s.world.clock)
      × (s.world.clock < e.set_at + ttl_ms)
      × (e.values ≡ load (s.past e.set_at user))

  fresh-Recent : (o : Option Entry) → Truthful s user o → Recent (fresh s.world.clock o)
  fresh-Recent none h = tt
  fresh-Recent (some e) h = elim (Bool-cases (ltb s.world.clock (e.set_at + ttl_ms))) [
    | inl f ↦ rw f ((h.0, ground (arith, f), h.1))
    | inr f ↦ rw f tt
  ]

  -- The list is what the database said not longer ago than the TTL.
  abbrev WasSaid : List String → Type 0
  WasSaid perms =
      (t : ℕ) × (t ≤ s.world.clock) × (s.world.clock < t + ttl_ms) × (perms ≡ load (s.past t user))

  or_load-WasSaid :
      (o : Option Entry)
      → Recent o
      → s.past s.world.clock ≡ s.world.grants
      → WasSaid (or_load s.world.clock user (load (s.world.grants user)) o s.world.cache).0
  or_load-WasSaid none h now =
      (s.world.clock, omega arith, omega arith, ap (λ (g : Grants). load (g user)) (sym now))
  or_load-WasSaid (some e) h now = (e.set_at, h.0, h.1, h.2)

change-Truthful :
    (n : ℕ) (grants : Grants) (s : Scene) (user : ℕ) (o : Option Entry)
    → Truthful s user o
    → Truthful
        (record {
          world = record s.world { clock = s.world.clock + suc n; grants = grants };
          past = record_now s.past (s.world.clock + suc n) grants;
        })
        user
        o
change-Truthful n grants s user none h = tt
change-Truthful n grants s user (some e) h =
    let other : (e.set_at == (s.world.clock + suc n)) ≡ false = ground (arith, h.0) in
    (
      omega (arith, h.0),
      h.1 ∙ ap (λ b. load ((if b then grants else s.past e.set_at) user)) (sym other),
    )

same_number : (n : ℕ) → (n == n) ≡ true
same_number n = ground arith

change-Invariant :
    (n : ℕ) (grants : Grants) (s : Scene)
    → Invariant s
    → Invariant (record {
      world = record s.world { clock = s.world.clock + suc n; grants = grants };
      past = record_now s.past (s.world.clock + suc n) grants;
    })
change-Invariant n grants s h = record {
  now_said =
      ap (λ b. if b then grants else s.past (s.world.clock + suc n))
        (same_number (s.world.clock + suc n));
  truthful = λ user. change-Truthful n grants s user (s.world.cache user) (h.truthful user);
}

drop-Truthful :
    (user other : ℕ) (s : Scene)
    → Invariant s
    → Truthful s other (if user == other then none else s.world.cache other)
drop-Truthful user other s h = elim (Bool-cases (user == other)) [
  | inl e ↦ rw e tt
  | inr e ↦ rw e (h.truthful other)
]

loaded-Truthful :
    (user other : ℕ) (s : Scene)
    → Invariant s
    → Truthful s other (
        put user
          (record { values = load (s.world.grants user); set_at = s.world.clock })
          s.world.cache
          other)
loaded-Truthful user other s h = elim (Bool-cases (user == other)) [
  | inl e ↦
      let same : user ≡ other = ground (arith, e) in
      rw e (
        (
          omega arith,
          ap (λ i. load (s.world.grants i)) same
              ∙ ap (λ (g : Grants). load (g other)) (sym h.now_said),
        ))
  | inr e ↦ rw e (h.truthful other)
]

or_load-Invariant :
    (user : ℕ) (o : Option Entry) (s : Scene)
    → Invariant s
    → Invariant (record s {
      world = record s.world {
        cache = (or_load s.world.clock user (load (s.world.grants user)) o s.world.cache).1;
      };
    })
or_load-Invariant user (some e) s h = h
or_load-Invariant user none s h = record {
  now_said = h.now_said;
  truthful = λ other. loaded-Truthful user other s h;
}

request-Invariant :
    (required : List String) (user : Option ℕ) (s : Scene)
    → Invariant s
    → Invariant (record s { world = (can_activate required user s.world).1 })
unfolding can_activate get_or_set
request-Invariant [] user s h = h
request-Invariant (p ∷ required) none s h = h
request-Invariant (p ∷ required) (some user) s h =
    or_load-Invariant user (fresh s.world.clock (s.world.cache user)) s h

reach-Invariant : {w : World} {s : Scene} → Reach w s → Invariant s
reach-Invariant Reach.start = record { now_said = refl; truthful = λ user. tt }
reach-Invariant (Reach.next p (Step.change n grants s)) =
    change-Invariant n grants s (reach-Invariant p)
reach-Invariant (Reach.next p (Step.drop user s)) = record {
  now_said = (reach-Invariant p).now_said;
  truthful = λ other. drop-Truthful user other s (reach-Invariant p);
}
reach-Invariant (Reach.next p (Step.request required user s)) =
    request-Invariant required user s (reach-Invariant p)

-- Whatever the administration changes and Redis drops, a request for a route that wants permissions
-- is let through only if its user had, by the database, all of them at some time not longer ago
-- than a minute.
pub can_activate-IsRecent :
    (w : World) (s : Scene) (p : String) (required : List String) (user : ℕ)
    → Reach w s
    → (can_activate (p ∷ required) (some user) s.world).0 ≡ true
    → (t : ℕ) × (t ≤ s.world.clock)
      × (s.world.clock < t + ttl_ms)
      × (every (p ∷ required) (load (s.past t user)) ≡ true)
unfolding can_activate get_or_set
can_activate-IsRecent w s p required user r h =
    let i = reach-Invariant r in
    let (t, past, recent, said) =
      or_load-WasSaid s user (fresh s.world.clock (s.world.cache user))
        (fresh-Recent s user (s.world.cache user) (i.truthful user)) i.now_said in
    (t, past, recent, ap (every (p ∷ required)) (sym said) ∙ h)
