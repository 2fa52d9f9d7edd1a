-- ===== src/Roles/Coherence.antt =====
-- The caches of the two guards against the tables, under every call.
use Prim.Native.String.{String}
use mathlib.Core.Bool
use seatwaves_backend.Common.{
  ℕ, ◌≡◌, refl, ap, ◌∙◌, Bool, true, false, List, Option, none, some, arith, ltb, ◌==◌, ◌+◌, All,
  Bool-cases, inl, inr,
}
use seatwaves_backend.Access.Guard.{Entry, Cache, fresh, put, or_load, get_or_set, load, ttl_ms}
use seatwaves_backend.Roles.Data.{State}
use seatwaves_backend.Roles.Service.{drop_user, drop_all}
use seatwaves_backend.Roles.Guard.{role_names, grants}
use seatwaves_backend.Roles.Joins.{IsGranted}

-- A cached list is what the database says.
abbrev pub Says : List String → Option Entry → Type 0
Says v none = Unit
Says v (some e) = e.values ≡ v

pub Says-subst : {v w : List String} (o : Option Entry) → v ≡ w → Says v o → Says w o
Says-subst none p h = tt
Says-subst (some e) p h = h ∙ p

-- Redis takes every deletion, and the entries are what the tables say.
pub record Coherent (s : State) : Type 0 where
  pub deletes : (t : ℕ) → s.can_delete t ≡ true
  pub role_says : (user : ℕ) → Says (role_names s.db user) (s.role_cache user)
  pub perm_says : (user : ℕ) → Says (load (grants s.db user)) (s.perm_cache user)
  pub granted : All (IsGranted s.db.roles) s.db.user_roles

module _ (now user : ℕ) (v : ℕ → List String) (c : Cache) (h : (u : ℕ) → Says (v u) (c u)) where
  or_load-Says :
      (o : Option Entry) → Says (v user) o → (or_load now user (v user) (fresh now o) c).0 ≡ v user
  or_load-Says none k = refl
  or_load-Says (some e) k = elim (Bool-cases (ltb now (e.set_at + ttl_ms))) [
    | inl f ↦ rw f k
    | inr f ↦ rw f refl
  ]

  -- A coherent cache answers what the database says.
  pub get_or_set-loaded : (get_or_set now user (v user) c).0 ≡ v user
  unfolding get_or_set
  get_or_set-loaded = or_load-Says (c user) (h user)

  put-Says : (u : ℕ) → Says (v u) (put user (record { values = v user; set_at = now }) c u)
  put-Says u = elim (Bool-cases (user == u)) [
    | inl e ↦ let same : user ≡ u = ground (arith, e) in rw e (ap v same)
    | inr e ↦ rw e (h u)
  ]

  or_load-Says_all : (o : Option Entry) (u : ℕ) → Says (v u) ((or_load now user (v user) o c).1 u)
  or_load-Says_all none u = put-Says u
  or_load-Says_all (some e) u = h u

  pub get_or_set-Says : (u : ℕ) → Says (v u) ((get_or_set now user (v user) c).1 u)
  unfolding get_or_set
  get_or_set-Says u = or_load-Says_all (fresh now (c user)) u

-- An entry that is dropped says nothing, and the others say what they said.
pub drop_user-Says :
    (can : Bool) (user : ℕ) (c : Cache) (v w : ℕ → List String)
    → can ≡ true
    → ((u : ℕ) → Says (v u) (c u))
    → ((u : ℕ) → (user == u) ≡ false → v u ≡ w u)
    → (u : ℕ) → Says (w u) (drop_user can user c u)
drop_user-Says true user c v w d h same u = elim (Bool-cases (user == u)) [
  | inl e ↦ rw e tt
  | inr e ↦ rw e (Says-subst (c u) (same u e) (h u))
]
drop_user-Says false user c v w d h same u = absurd (Bool.false≢true d)

pub drop_all-Says :
    (can : Bool) (c : Cache) (w : ℕ → List String)
    → can ≡ true
    → (u : ℕ) → Says (w u) (drop_all can c u)
drop_all-Says true c w d u = tt
drop_all-Says false c w d u = absurd (Bool.false≢true d)
