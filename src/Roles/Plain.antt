-- ===== src/Roles/Plain.antt =====
-- The calls on the tables alone, without a cache: a guard asks the service.
use Prim.Native.String.{String}
use seatwaves_backend.Common.{
  has_id, ℕ, Bool, true, false, not, ◌&&◌, ◌||◌, List, [], ◌∷◌, Option, none, some, if◌then◌else◌,
  is_some, not_acceptable, failure, Result, ok, err,
}
use seatwaves_backend.Roles.Data.{Role, Db, find_role, find_name, is_assigned}
use seatwaves_backend.Roles.Service.{
  are_valid, insert_role, set_permissions, remove_role, insert_user_role, remove_user_role, any,
  all, has_roles, has_permissions,
}
use seatwaves_backend.Roles.Calls.{
  RoleCall, create, update, delete, assign, unassign, ask_roles, ask_permissions, wait,
  forget_roles, forget_perms, Reply, role, done, allowed, silence, reply,
}

abbrev pub is_allowed : Result Bool → Bool
is_allowed (ok b) = b
is_allowed (err e) = false

abbrev pub refusal : {A : Type 0} → Db → Result A × Db
refusal db = (err not_acceptable, db)

abbrev pub created : ℕ → String → List ℕ → Db → Result Role × Db
created i name ids db =
    let r : Role = record { id = i; name = name; permission_ids = ids } in
    if is_some (find_name name db.roles) || not (are_valid ids db)
    then refusal db
    else if is_some (find_role i db.roles)
    then (err failure, db)
    else (ok r, insert_role r db)

abbrev pub updated : ℕ → List ℕ → Option Role → Db → Result Role × Db
updated i ids none db = refusal db
updated i ids (some r) db =
    if are_valid ids db
    then (ok (record r { permission_ids = ids }), set_permissions i ids db)
    else refusal db

abbrev pub write_if : Bool → (Db → Db) → Db → Result (Unit {0}) × Db
write_if b f db = if b then (ok tt, f db) else refusal db

abbrev pub is_admitted : Option (List String) → Option ℕ → Db → Bool
is_admitted none user db = true
is_admitted (some required) none db = false
is_admitted (some required) (some user) db = is_allowed (has_roles user required any db)

abbrev pub is_permitted : List String → Option ℕ → Db → Bool
is_permitted [] user db = true
is_permitted (p ∷ required) none db = false
is_permitted (p ∷ required) (some user) db = is_allowed (has_permissions user (p ∷ required) all db)

unfoldable pub plain_call : RoleCall → Db → Reply × Db
plain_call (create i name ids) db = reply role (created i name ids db)
plain_call (update i ids) db = reply role (updated i ids (find_role i db.roles) db)
plain_call (delete i) db = reply done (write_if (is_some (find_role i db.roles)) (remove_role i) db)
plain_call (assign user r) db =
    reply done (
      write_if (has_id db.users user && is_some (find_role r db.roles)) (insert_user_role user r)
        db)
plain_call (unassign user r) db =
    reply done (write_if (is_assigned user r db.user_roles) (remove_user_role user r) db)
plain_call (ask_roles required user) db = (allowed (is_admitted required user db), db)
plain_call (ask_permissions required user) db = (allowed (is_permitted required user db), db)
plain_call (wait n) db = (silence, db)
plain_call (forget_roles user) db = (silence, db)
plain_call (forget_perms user) db = (silence, db)

unfoldable pub replay : List RoleCall → Db → List Reply
replay [] db = []
replay (c ∷ calls) db = let (a, after) = plain_call c db in a ∷ replay calls after
