-- ===== src/Access/Guard.antt =====
-- `CacheService.getOrSet`, and `PermissionsGuard.canActivate` over a table of what each user may do.
-- A cached value has the time at which it was set; Redis drops it after its TTL, or before.
use Prim.Native.String.{String}
use text.Mathlib.Text.{◌==◌ as str_eq}
use seatwaves_backend.Common.{
  ℕ, ◌+◌, Bool, true, false, ◌&&◌, ◌||◌, List, [], ◌∷◌, ◌++◌, Option, none, some, ltb, ◌==◌,
  if◌then◌else◌,
}

-- The roles of a user with the permissions of each, or nothing for a user who is not there.
abbrev pub Grants : Type 0
Grants = ℕ → Option (List (List String))

pub record Entry : Type 0 where
  pub values : List String
  pub set_at : ℕ

abbrev pub Cache : Type 0
Cache = ℕ → Option Entry

pub record World : Type 0 where
  pub clock : ℕ
  pub grants : Grants
  pub cache : Cache

abbrev pub has : List String → String → Bool
has [] p = false
has (x ∷ xs) p = str_eq x p || has xs p

-- `set.add`
abbrev pub add : String → List String → List String
add p set = if has set p then set else set ++ p ∷ []

abbrev pub add_all : List String → List String → List String
add_all [] set = set
add_all (p ∷ ps) set = add_all ps (add p set)

-- The loop over the roles and their permissions.
unfoldable pub collect : List (List String) → List String → List String
collect [] set = set
collect (role ∷ roles) set = collect roles (add_all role set)

-- The factory of the guard: what the database says.
abbrev pub load : Option (List (List String)) → List String
load none = []
load (some roles) = collect roles []

abbrev pub ttl_ms : ℕ
ttl_ms = 60_000

-- `get`: an entry whose time is over is gone.
abbrev pub fresh : ℕ → Option Entry → Option Entry
fresh now none = none
fresh now (some e) = if ltb now (e.set_at + ttl_ms) then some e else none

abbrev pub put : ℕ → Entry → Cache → Cache
put user e cache other = if user == other then some e else cache other

-- `getOrSet` with the entry that `get` gave, and what the factory returns.
abbrev pub or_load : ℕ → ℕ → List String → Option Entry → Cache → List String × Cache
or_load now user loaded (some e) cache = (e.values, cache)
or_load now user loaded none cache =
    (loaded, put user (record { values = loaded; set_at = now }) cache)

unfoldable pub get_or_set : ℕ → ℕ → List String → Cache → List String × Cache
get_or_set now user loaded cache = or_load now user loaded (fresh now (cache user)) cache

abbrev pub every : List String → List String → Bool
every [] perms = true
every (p ∷ required) perms = has perms p && every required perms

-- `canActivate`, for the permissions of the route and the user of the request.
unfoldable pub can_activate : List String → Option ℕ → World → Bool × World
unfolding get_or_set
can_activate [] user w = (true, w)
can_activate (p ∷ required) none w = (false, w)
can_activate (p ∷ required) (some user) w =
    let (perms, cache) = get_or_set w.clock user (load (w.grants user)) w.cache in
    (every (p ∷ required) perms, record w { cache = cache })
