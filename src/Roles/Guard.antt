-- ===== src/Roles/Guard.antt =====
-- `RolesGuard.canActivate`, and `PermissionsGuard.canActivate` on the same database.
use Prim.Native.String.{String}
use seatwaves_backend.Common.{
  has_id, ℕ, Bool, true, false, List, [], map, Option, none, some, if◌then◌else◌,
}
use seatwaves_backend.Access.Guard.{World, get_or_set}
use seatwaves_backend.Access.Guard as Access
use seatwaves_backend.Roles.Data.{Role, Db, State, roles_of, permission_names}
use seatwaves_backend.Roles.Service.{at_least_one}

-- The factory of the roles guard: what the database says.
unfoldable pub role_names : Db → ℕ → List String
role_names db user =
    if has_id db.users user
    then map (λ (r : Role). r.name) (roles_of db.roles user db.user_roles)
    else []

-- The rows that the permissions guard selects.
unfoldable pub grants : Db → ℕ → Option (List (List String))
grants db user =
    if has_id db.users user
    then some (
        map (λ (r : Role). permission_names db.permissions r.permission_ids)
          (roles_of db.roles user db.user_roles))
    else none

-- `canActivate`: nothing stands for a route without the decorator.
unfoldable pub check_roles : Option (List String) → Option ℕ → State → Bool × State
check_roles none user s = (true, s)
check_roles (some required) none s = (false, s)
check_roles (some required) (some user) s =
    let (names, cache) = get_or_set s.clock user (role_names s.db user) s.role_cache in
    (at_least_one required names, record s { role_cache = cache })

abbrev as_world : State → World
as_world s = record { clock = s.clock; grants = grants s.db; cache = s.perm_cache }

unfoldable pub check_permissions : List String → Option ℕ → State → Bool × State
check_permissions required user s =
    let (allowed, w) = Access.can_activate required user (as_world s) in
    (allowed, record s { perm_cache = w.cache })
