-- ===== src/Roles/Service.antt =====
-- `RoleService`. The id of a new role is an argument.
use Prim.Native.String.{String}
use seatwaves_backend.Common.{
  has_id, ℕ, Bool, true, false, not, ◌&&◌, ◌||◌, List, [], ◌∷◌, ◌++◌, map, none, ◌==◌,
  if◌then◌else◌, is_some, keep, length, not_acceptable, failure, Result, ok, err, Action, pure,
  gets, or_throw, ◌>>=◌, ◌>>◌, throw_if, modify,
}
use seatwaves_backend.Database.Table.{update}
use seatwaves_backend.Access.Guard.{Cache, collect, every, has}
use seatwaves_backend.Roles.Data.{
  Permission, Role, UserRole, Db, State, find_role, find_name, is_assigned, roles_of,
  permission_names,
}

-- `invalidatePattern`: if Redis fails, the error is logged and the entries stay.
abbrev pub drop_all : Bool → Cache → Cache
drop_all true cache user = none
drop_all false cache user = cache user

-- `del`: if Redis fails, the error is logged and the entry stays.
abbrev pub drop_user : Bool → ℕ → Cache → Cache
drop_user true user cache other = if user == other then none else cache other
drop_user false user cache other = cache other

-- `permission.findMany({ where: { id: { in: ids } } })`
abbrev pub find_permissions : List ℕ → List Permission → List Permission
find_permissions ids = keep (λ (p : Permission). has_id ids p.id)

-- `permissions.length !== body.permissions.length`
abbrev pub are_valid : List ℕ → Db → Bool
are_valid ids db = length (find_permissions ids db.permissions) == length ids

abbrev pub forget_permissions : Action State (Unit {0})
forget_permissions =
    modify (λ (s : State). record s { perm_cache = drop_all (s.can_delete s.clock) s.perm_cache })

abbrev pub forget_all : Action State (Unit {0})
forget_all = modify (λ (s : State). record s {
  role_cache = drop_all (s.can_delete s.clock) s.role_cache;
  perm_cache = drop_all (s.can_delete s.clock) s.perm_cache;
})

abbrev pub forget_user : ℕ → Action State (Unit {0})
forget_user user = modify (λ (s : State). record s {
  role_cache = drop_user (s.can_delete s.clock) user s.role_cache;
  perm_cache = drop_user (s.can_delete s.clock) user s.perm_cache;
})

-- The writes.
abbrev pub insert_role : Role → Db → Db
insert_role r db = record db { roles = db.roles ++ r ∷ [] }

abbrev pub set_permissions : ℕ → List ℕ → Db → Db
set_permissions i ids db = record db {
  roles = update (λ (r : Role). r.id) i (λ (r : Role). record r { permission_ids = ids }) db.roles;
}

-- With the rows that `onDelete: Cascade` takes along.
abbrev pub remove_role : ℕ → Db → Db
remove_role i db = record db {
  roles = keep (λ (r : Role). not (r.id == i)) db.roles;
  user_roles = keep (λ (g : UserRole). not (g.role_id == i)) db.user_roles;
}

-- `upsert`
abbrev pub insert_user_role : ℕ → ℕ → Db → Db
insert_user_role user role db = record db {
  user_roles =
      if is_assigned user role db.user_roles
      then db.user_roles
      else db.user_roles ++ record { user_id = user; role_id = role } ∷ [];
}

abbrev pub remove_user_role : ℕ → ℕ → Db → Db
remove_user_role user role db = record db {
  user_roles = keep (λ (g : UserRole). not (g.user_id == user && g.role_id == role)) db.user_roles;
}

abbrev pub write_db : (Db → Db) → Action State (Unit {0})
write_db f = modify (λ (s : State). record s { db = f s.db })

-- `createRolePermissions`, with what `toUpperCase` gives for the name. The primary key of the table
-- refuses an id that is there.
unfoldable pub create_role : ℕ → String → List ℕ → Action State Role
create_role id name ids = gets (λ (s : State). find_name name s.db.roles) >>= λ found.
    throw_if (is_some found) not_acceptable >> gets (λ (s : State). are_valid ids s.db) >>= λ valid.
    throw_if (not valid) not_acceptable
    >> gets (λ (s : State). find_role id s.db.roles)
    >>= λ taken.
        throw_if (is_some taken) failure
        >> write_db (insert_role (record { id = id; name = name; permission_ids = ids }))
        >> forget_permissions
        >> pure (record { id = id; name = name; permission_ids = ids })

-- `updateRolePermissions`
unfoldable pub update_role : ℕ → List ℕ → Action State Role
update_role id ids = gets (λ (s : State). find_role id s.db.roles) >>= λ found.
    or_throw found not_acceptable >>= λ role. gets (λ (s : State). are_valid ids s.db) >>= λ valid.
    throw_if (not valid) not_acceptable
    >> write_db (set_permissions id ids)
    >> forget_permissions
    >> pure (record role { permission_ids = ids })

-- `deleteRole`
unfoldable pub delete_role : ℕ → Action State (Unit {0})
delete_role id = gets (λ (s : State). find_role id s.db.roles) >>= λ found.
    or_throw found not_acceptable >> write_db (remove_role id) >> forget_all

-- `assignRoleToUser`
unfoldable pub assign_role : ℕ → ℕ → Action State (Unit {0})
assign_role user role = gets (λ (s : State). has_id s.db.users user) >>= λ there.
    gets (λ (s : State). find_role role s.db.roles) >>= λ found.
    throw_if (not there) not_acceptable
    >> or_throw found not_acceptable
    >> write_db (insert_user_role user role)
    >> forget_user user

-- `removeRoleFromUser`
unfoldable pub unassign_role : ℕ → ℕ → Action State (Unit {0})
unassign_role user role = gets (λ (s : State). is_assigned user role s.db.user_roles) >>= λ there.
    throw_if (not there) not_acceptable >> write_db (remove_user_role user role) >> forget_user user

-- `getUserRoles`
unfoldable pub get_user_roles : ℕ → Db → Result (List Role)
get_user_roles user db =
    if has_id db.users user then ok (roles_of db.roles user db.user_roles) else err not_acceptable

-- `getUserPermissions`
unfoldable pub get_user_permissions : ℕ → Db → Result (List String)
get_user_permissions user db =
    if has_id db.users user
    then ok (
        collect
          (map (λ (r : Role). permission_names db.permissions r.permission_ids)
            (roles_of db.roles user db.user_roles))
          [])
    else err not_acceptable

pub data Mode : Type 0 where
  any all : Mode

abbrev pub at_least_one : List String → List String → Bool
at_least_one [] names = false
at_least_one (r ∷ required) names = has names r || at_least_one required names

abbrev pub holds : Mode → List String → List String → Bool
holds any required names = at_least_one required names
holds all required names = every required names

abbrev pub map_result : {A B : Type 0} → (A → B) → Result A → Result B
map_result f (ok a) = ok (f a)
map_result f (err e) = err e

-- `hasRoles`
unfoldable pub has_roles : ℕ → List String → Mode → Db → Result Bool
has_roles user required mode db =
    map_result (λ (roles : List Role). holds mode required (map (λ (r : Role). r.name) roles))
      (get_user_roles user db)

-- `hasPermissions`
unfoldable pub has_permissions : ℕ → List String → Mode → Db → Result Bool
has_permissions user required mode db =
    map_result (holds mode required) (get_user_permissions user db)
