-- ===== src/Locks/Exclusion.antt =====
-- Mutual exclusion of the callers of `acquireLock` and `releaseLock`.
use Prim.Native.String.{String}
use text.Mathlib.Text.{◌==◌ as str_eq}
use mathlib.Core.Option
use mathlib.Core.Bool
use seatwaves_backend.Common.{
  ℕ, ◌+◌, ◌≤◌, ◌<◌, ◌≡◌, refl, ap, sym, subst, ◌∙◌, Bool, true, false, not, List, [], ◌∷◌, none,
  some, keep, length, arith, if◌then◌else◌, Bool-cases, Option-cases, inl, inr, All, All-map,
  All-keep,
}
use seatwaves_backend.Locks.Redis.{Redis}
use seatwaves_backend.Locks.Lock.{World, release_lock, held_by}
use seatwaves_backend.Locks.Schedule.{Grant, Scene, lasts, attempted, released, passed, Step, Reach}

false-of_not : (b : Bool) → not b ≡ true → b ≡ false
false-of_not false h = refl
false-of_not true h = sym h

-- At most one of the grants lasts.
abbrev IsSole : ℕ → List Grant → Type 0
IsSole now [] = Unit
IsSole now (g ∷ gs) =
    (lasts now g ≡ true → All (λ (x : Grant). lasts now x ≡ false) gs) × IsSole now gs

IsSole-later : (now n : ℕ) (gs : List Grant) → IsSole now gs → IsSole (now + n) gs
IsSole-later now n [] h = tt
IsSole-later now n (g ∷ gs) h = (
  (λ l.
      All-map (λ (x : Grant). lasts now x ≡ false) (λ (x : Grant). lasts (now + n) x ≡ false)
        (λ x e. ground arith) gs (h.0 (ground arith))),
  IsSole-later now n gs h.1,
)

none_last-keep :
    (now : ℕ) (p : Grant → Bool) (gs : List Grant)
    → All (λ (x : Grant). lasts now x ≡ false) gs
    → All (λ (x : Grant). lasts now x ≡ false) (keep p gs)
none_last-keep now p [] h = tt
none_last-keep now p (g ∷ gs) h = elim (Bool-cases (p g)) [
  | inl e ↦ rw e ((h.0, none_last-keep now p gs h.1))
  | inr e ↦ rw e (none_last-keep now p gs h.1)
]

IsSole-keep :
    (now : ℕ) (p : Grant → Bool) (gs : List Grant) → IsSole now gs → IsSole now (keep p gs)
IsSole-keep now p [] h = tt
IsSole-keep now p (g ∷ gs) h = elim (Bool-cases (p g)) [
  | inl e ↦ rw e (((λ l. none_last-keep now p gs (h.0 l)), IsSole-keep now p gs h.1))
  | inr e ↦ rw e (IsSole-keep now p gs h.1)
]

none_last :
    (now : ℕ) (gs : List Grant)
    → All (λ (x : Grant). lasts now x ≡ false) gs
    → length (keep (lasts now) gs) ≡ 0
none_last now [] h = refl
none_last now (g ∷ gs) h = rw h.0 (none_last now gs h.1)

IsSole-length : (now : ℕ) (gs : List Grant) → IsSole now gs → length (keep (lasts now) gs) ≤ 1
IsSole-length now [] h = omega arith
IsSole-length now (g ∷ gs) h = elim (Bool-cases (lasts now g)) [
  | inl e ↦ rw e (omega (arith, none_last now gs (h.0 e)))
  | inr e ↦ rw e (IsSole-length now gs h.1)
]

module _ (r : Redis) (key : String) where
  -- Redis has the value of the grant as long as it lasts.
  abbrev Holds : World r → Grant → Type 0
  Holds w g = (t : ℕ) → w.clock ≤ t → t < g.deadline → r.get t key w.redis ≡ some g.value

  abbrev Invariant : Scene r → Type 0
  Invariant s = All (Holds s.world) s.grants × IsSole s.world.clock s.grants

  passed-Invariant : (n : ℕ) (s : Scene r) → Invariant s → Invariant (passed r key n s)
  passed-Invariant n s h = (
    All-map (Holds s.world) (Holds (passed r key n s).world) (λ g k t l u. k t (omega arith) u)
        s.grants h.0,
    IsSole-later s.world.clock n s.grants h.1,
  )

  -- A lock that is free was given to no one, or the time is over.
  over-free :
      (w : World r) (g : Grant)
      → r.get w.clock key w.redis ≡ none
      → Holds w g
      → lasts w.clock g ≡ false
  over-free w g free h = elim (Bool-cases (lasts w.clock g)) [
    | inl e ↦
        absurd (Option.none-ne-some g.value (sym free ∙ h w.clock (omega arith) (ground arith)))
    | inr e ↦ e
  ]

  module _ (value : String) (ttl : ℕ) (s : Scene r) where
    abbrev granted : Scene r
    granted = record {
      world = record s.world { redis = (r.set_nx s.world.clock key value ttl s.world.redis).1 };
      grants = record { value = value; deadline = s.world.clock + ttl } ∷ s.grants;
    }

    granted-Invariant :
        r.get s.world.clock key s.world.redis ≡ none → Invariant s → Invariant granted
    granted-Invariant free h =
        let answer = r.set_nx-free s.world.clock key value ttl s.world.redis free in
        let over : All (λ (x : Grant). lasts s.world.clock x ≡ false) s.grants =
          All-map (Holds s.world) (λ (x : Grant). lasts s.world.clock x ≡ false)
            (λ g k. over-free s.world g free k) s.grants h.0 in
        (
          (
            (λ t l u. answer.1 t l ∙ ground arith),
            All-map (λ (x : Grant). lasts s.world.clock x ≡ false) (Holds granted.world)
                (λ g e t l u. absurd (ground arith)) s.grants over,
          ),
          ((λ l. over), h.1),
        )

    attempted-Invariant : Invariant s → Invariant (attempted r key value ttl s)
    attempted-Invariant h = elim (Option-cases (r.get s.world.clock key s.world.redis)) [
      | inl free ↦
          subst
            (λ b. Invariant (record {
              world = record s.world {
                redis = (r.set_nx s.world.clock key value ttl s.world.redis).1;
              };
              grants =
                  if b
                  then record { value = value; deadline = s.world.clock + ttl } ∷ s.grants
                  else s.grants;
            }))
            (sym (r.set_nx-free s.world.clock key value ttl s.world.redis free).0)
            (granted-Invariant free h)
      | inr (other, taken) ↦
          subst
            (λ (a : Bool × r.State). Invariant (record {
              world = record s.world { redis = a.1 };
              grants =
                  if a.0
                  then record { value = value; deadline = s.world.clock + ttl } ∷ s.grants
                  else s.grants;
            }))
            (sym (r.set_nx-taken s.world.clock key value ttl s.world.redis other taken)) h
    ]

  module _ (value : String) (s : Scene r) where
    abbrev is_other : Grant → Bool
    is_other g = not (str_eq g.value value)

    foreign :
        (g : Grant)
        → Holds s.world g
        → is_other g ≡ true
        → s.world.clock < g.deadline
        → held_by r key value (r.get s.world.clock key s.world.redis) ≡ false
    foreign g h other l =
        ap (held_by r key value) (h s.world.clock (omega arith) l)
        ∙ false-of_not (str_eq g.value value) other

    release_lock-clock : (release_lock r key value s.world).1.clock ≡ s.world.clock
    unfolding release_lock
    release_lock-clock =
        elim (Bool-cases (held_by r key value (r.get s.world.clock key s.world.redis))) [
          | inl e ↦ rw e refl
          | inr e ↦ rw e refl
        ]

    -- The lock of another caller that lasts is not deleted.
    release_lock-Holds :
        (g : Grant)
        → Holds s.world g × (is_other g ≡ true)
        → Holds (release_lock r key value s.world).1 g
    unfolding release_lock
    release_lock-Holds g (h, other) =
        elim (Bool-cases (held_by r key value (r.get s.world.clock key s.world.redis))) [
          | inl e ↦
              rw e (λ t l u. absurd (Bool.false≢true (sym (foreign g h other (omega arith)) ∙ e)))
          | inr e ↦ rw e h
        ]

    released-Invariant : Invariant s → Invariant (released r key value s)
    released-Invariant h = (
      All-map (λ g. Holds s.world g × (is_other g ≡ true))
          (Holds (release_lock r key value s.world).1) release_lock-Holds (keep is_other s.grants)
          (All-keep (Holds s.world) is_other s.grants h.0),
      subst (λ now. IsSole now (keep is_other s.grants)) (sym release_lock-clock)
          (IsSole-keep s.world.clock is_other s.grants h.1),
    )

  reach-Invariant : {w : World r} {s : Scene r} → Reach r key w s → Invariant s
  reach-Invariant Reach.start = (tt, tt)
  reach-Invariant (Reach.next p (Step.wait n s)) = passed-Invariant n s (reach-Invariant p)
  reach-Invariant (Reach.next p (Step.acquire value ttl s)) =
      attempted-Invariant value ttl s (reach-Invariant p)
  reach-Invariant (Reach.next p (Step.release value s)) =
      released-Invariant value s (reach-Invariant p)

  lasting :
      (w : World r) (gs : List Grant)
      → All (Holds w) gs
      → All (λ (g : Grant). r.get w.clock key w.redis ≡ some g.value) (keep (lasts w.clock) gs)
  lasting w gs h =
      All-map (λ (g : Grant). Holds w g × (lasts w.clock g ≡ true))
        (λ (g : Grant). r.get w.clock key w.redis ≡ some g.value)
        (λ g k. k.0 w.clock (omega arith) (ground (arith, k.1))) (keep (lasts w.clock) gs)
        (All-keep (Holds w) (lasts w.clock) gs h)

-- Whatever the callers do in whatever order, at most one of the locks that they were given and did
-- not give back still lasts, and Redis holds its value.
pub acquire_lock-exclusive :
    (r : Redis) (key : String) (w : World r) (s : Scene r)
    → Reach r key w s
    → (length (keep (lasts s.world.clock) s.grants) ≤ 1)
      × All
          (λ (g : Grant). r.get s.world.clock key s.world.redis ≡ some g.value)
          (keep (lasts s.world.clock) s.grants)
acquire_lock-exclusive r key w s p =
    let h = reach-Invariant r key p in
    (IsSole-length s.world.clock s.grants h.1, lasting r key s.world s.grants h.0)
