-- ===== src/Roles/Data.antt =====
-- The tables of `role/role.service.ts`, as prisma/schema.prisma declares them, and the two caches.
use Prim.Native.String.{String}
use text.Mathlib.Text.{◌==◌ as str_eq}
use seatwaves_backend.Common.{
  ℕ, Bool, false, ◌&&◌, ◌||◌, List, [], ◌∷◌, Option, none, some, ◌==◌, if◌then◌else◌,
}
use seatwaves_backend.Database.Table.{find_unique}
use seatwaves_backend.Access.Guard.{Cache}

pub record Permission : Type 0 where
  pub id : ℕ
  pub name : String
  pub group : String

-- A role with the ids of its rows in `role_permissions`.
pub record Role : Type 0 where
  pub id : ℕ
  pub name : String
  pub permission_ids : List ℕ

pub record UserRole : Type 0 where
  pub user_id : ℕ
  pub role_id : ℕ

pub record Db : Type 0 where
  pub users : List ℕ
  pub permissions : List Permission
  pub roles : List Role
  pub user_roles : List UserRole

-- The database, the clock of Redis, whether Redis takes a deletion at a time, and the entries under
-- `user:roles:` and `user:perms:`.
pub record State : Type 0 where
  pub db : Db
  pub can_delete : ℕ → Bool
  pub clock : ℕ
  pub role_cache : Cache
  pub perm_cache : Cache

-- `role.findUnique({ where: { id } })`
unfoldable pub find_role : ℕ → List Role → Option Role
find_role = find_unique (λ (r : Role). r.id)

-- `role.findUnique({ where: { name } })`
abbrev pub find_name : String → List Role → Option Role
find_name name [] = none
find_name name (r ∷ t) = if str_eq r.name name then some r else find_name name t

-- `userRoles.findUnique({ where: { userId_roleId } })`
abbrev pub is_assigned : ℕ → ℕ → List UserRole → Bool
is_assigned user role [] = false
is_assigned user role (g ∷ t) = (g.user_id == user && g.role_id == role) || is_assigned user role t

abbrev pub add_role : Option Role → List Role → List Role
add_role none roles = roles
add_role (some r) roles = r ∷ roles

-- `include: { roles: { include: { role: true } } }`
unfoldable pub roles_of : List Role → ℕ → List UserRole → List Role
roles_of roles user [] = []
roles_of roles user (g ∷ t) =
    let rest = roles_of roles user t in
    if g.user_id == user then add_role (find_role g.role_id roles) rest else rest

-- `include: { rolePermissions: { include: { permissions: true } } }`, and the names.
abbrev pub permission_names : List Permission → List ℕ → List String
permission_names permissions [] = []
permission_names permissions (i ∷ t) =
    let rest = permission_names permissions t in
    elim (find_unique (λ (p : Permission). p.id) i permissions) [
      | none ↦ rest
      | some p ↦ p.name ∷ rest
    ]
