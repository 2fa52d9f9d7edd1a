-- ===== src/Roles/Calls.antt =====
-- What the callers of the role service and of the two guards see.
use Prim.Native.String.{String}
use seatwaves_backend.Common.{ℕ, ◌+◌, Bool, true, List, [], ◌∷◌, Option, Result}
use seatwaves_backend.Roles.Data.{Role, State}
use seatwaves_backend.Roles.Service.{
  drop_user, create_role, update_role, delete_role, assign_role, unassign_role,
}
use seatwaves_backend.Roles.Guard.{check_roles, check_permissions}

-- A call of the service, a request that a guard looks at, and what Redis does in between: time
-- passes, and an entry of a user goes.
pub data RoleCall : Type 0 where
  create : ℕ → String → List ℕ → RoleCall
  update : ℕ → List ℕ → RoleCall
  delete : ℕ → RoleCall
  assign unassign : ℕ → ℕ → RoleCall
  ask_roles : Option (List String) → Option ℕ → RoleCall
  ask_permissions : List String → Option ℕ → RoleCall
  wait : ℕ → RoleCall
  forget_roles forget_perms : ℕ → RoleCall

pub data Reply : Type 0 where
  role : Result Role → Reply
  done : Result (Unit {0}) → Reply
  allowed : Bool → Reply
  silence : Reply

abbrev pub reply : {A S : Type 0} → (A → Reply) → A × S → Reply × S
reply f (a, s) = (f a, s)

unfoldable pub call : RoleCall → State → Reply × State
call (create i name ids) s = reply role (create_role i name ids s)
call (update i ids) s = reply role (update_role i ids s)
call (delete i) s = reply done (delete_role i s)
call (assign user r) s = reply done (assign_role user r s)
call (unassign user r) s = reply done (unassign_role user r s)
call (ask_roles required user) s = reply allowed (check_roles required user s)
call (ask_permissions required user) s = reply allowed (check_permissions required user s)
call (wait n) s = (silence, record s { clock = s.clock + n })
call (forget_roles user) s = (silence, record s { role_cache = drop_user true user s.role_cache })
call (forget_perms user) s = (silence, record s { perm_cache = drop_user true user s.perm_cache })

unfoldable pub run : List RoleCall → State → List Reply
run [] s = []
run (c ∷ calls) s = let (a, t) = call c s in a ∷ run calls t
