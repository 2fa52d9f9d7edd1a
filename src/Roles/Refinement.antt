-- ===== src/Roles/Refinement.antt =====
-- The calls with the caches against the calls on the tables alone.
use Prim.Native.String.{String}
use mathlib.Core.Path.{ap₂}
use seatwaves_backend.Common.{
  has_id, ℕ, Bool, true, ◌≡◌, refl, ap, sym, ◌∙◌, List, [], ◌∷◌, Option, none, some, ◌+◌, is_some,
  Bool-cases, Option-cases, inl, inr, All,
}
use seatwaves_backend.Access.Guard.{Cache, get_or_set, load, every}
use seatwaves_backend.Access.Guard as Access
use seatwaves_backend.Roles.Data.{Db, State, find_role, find_name, is_assigned}
use seatwaves_backend.Roles.Service.{
  are_valid, create_role, update_role, delete_role, assign_role, unassign_role, at_least_one,
  drop_user,
}
use seatwaves_backend.Roles.Guard.{check_roles, check_permissions, role_names, grants}
use seatwaves_backend.Roles.Calls.{
  RoleCall, create, update, delete, assign, unassign, ask_roles, ask_permissions, wait,
  forget_roles, forget_perms, Reply, allowed, call, run,
}
use seatwaves_backend.Roles.Plain.{plain_call, replay}
use seatwaves_backend.Roles.Joins.{IsGranted}
use seatwaves_backend.Roles.Factories.{has_roles-names, has_permissions-load}
use seatwaves_backend.Roles.Coherence.{Coherent, get_or_set-loaded, get_or_set-Says, drop_user-Says}
use seatwaves_backend.Roles.Writes.{
  insert_role-Coherent, set_permissions-Coherent, remove_role-Coherent, insert_user_role-Coherent,
  remove_user_role-Coherent,
}

-- A call answers and writes as on the tables alone, and the caches stay coherent.
record Agrees (r : Reply × State) (p : Reply × Db) : Type 0 where
  same_answer : r.0 ≡ p.0
  same_tables : r.1.db ≡ p.1
  coherent : Coherent r.1

abbrev agrees : {r : Reply × State} → Coherent r.1 → Agrees r (r.0, r.1.db)
agrees h = record { same_answer = refl; same_tables = refl; coherent = h }

module _ (s : State) (h : Coherent s) where
  create-Agrees :
      (i : ℕ) (name : String) (ids : List ℕ)
      → Agrees (call (create i name ids) s) (plain_call (create i name ids) s.db)
  unfolding call plain_call create_role
  create-Agrees i name ids = elim (Bool-cases (is_some (find_name name s.db.roles))) [
    | inl e ↦ rw e (agrees h)
    | inr e ↦ elim (Bool-cases (are_valid ids s.db)) [
      | inr v ↦ rw (e, v) (agrees h)
      | inl v ↦ elim (Bool-cases (is_some (find_role i s.db.roles))) [
        | inl t ↦ rw (e, v, t) (agrees h)
        | inr t ↦
            rw (e, v, t)
              (agrees
                (insert_role-Coherent s h (record { id = i; name = name; permission_ids = ids })))
      ]
    ]
  ]

  update-Agrees :
      (i : ℕ) (ids : List ℕ) → Agrees (call (update i ids) s) (plain_call (update i ids) s.db)
  unfolding call plain_call update_role
  update-Agrees i ids = elim (Option-cases (find_role i s.db.roles)) [
    | inl e ↦ rw e (agrees h)
    | inr (r, e) ↦ elim (Bool-cases (are_valid ids s.db)) [
      | inl v ↦ rw (e, v) (agrees (set_permissions-Coherent s h i ids))
      | inr v ↦ rw (e, v) (agrees h)
    ]
  ]

  delete-Agrees : (i : ℕ) → Agrees (call (delete i) s) (plain_call (delete i) s.db)
  unfolding call plain_call delete_role
  delete-Agrees i = elim (Option-cases (find_role i s.db.roles)) [
    | inl e ↦ rw e (agrees h)
    | inr (r, e) ↦ rw e (agrees (remove_role-Coherent s h i))
  ]

  assign-Agrees :
      (user role : ℕ) → Agrees (call (assign user role) s) (plain_call (assign user role) s.db)
  unfolding call plain_call assign_role
  assign-Agrees user role = elim (Bool-cases (has_id s.db.users user)) [
    | inr u ↦ rw u (agrees h)
    | inl u ↦ elim (Option-cases (find_role role s.db.roles)) [
      | inl e ↦ rw (u, e) (agrees h)
      | inr (r, e) ↦ rw (u, e) (agrees (insert_user_role-Coherent s h user role (ap is_some e)))
    ]
  ]

  unassign-Agrees :
      (user role : ℕ) → Agrees (call (unassign user role) s) (plain_call (unassign user role) s.db)
  unfolding call plain_call unassign_role
  unassign-Agrees user role = elim (Bool-cases (is_assigned user role s.db.user_roles)) [
    | inl e ↦ rw e (agrees (remove_user_role-Coherent s h user role))
    | inr e ↦ rw e (agrees h)
  ]

module _ (s : State) (h : Coherent s) where
  ask_roles-Agrees :
      (required : Option (List String)) (user : Option ℕ)
      → Agrees (call (ask_roles required user) s) (plain_call (ask_roles required user) s.db)
  unfolding call plain_call check_roles
  ask_roles-Agrees none user = agrees h
  ask_roles-Agrees (some required) none = agrees h
  ask_roles-Agrees (some required) (some user) = record {
    same_answer =
        ap (λ names. allowed (at_least_one required names))
          (get_or_set-loaded s.clock user (role_names s.db) s.role_cache h.role_says)
        ∙ ap allowed (sym (has_roles-names s.db user required));
    same_tables = refl;
    coherent = record {
      role_says = get_or_set-Says s.clock user (role_names s.db) s.role_cache h.role_says;
      perm_says = h.perm_says;
      granted = h.granted;
      deletes = h.deletes;
    };
  }

  ask_permissions-Agrees :
      (required : List String) (user : Option ℕ)
      → Agrees
          (call (ask_permissions required user) s)
          (plain_call (ask_permissions required user) s.db)
  unfolding call plain_call check_permissions Access.can_activate
  ask_permissions-Agrees [] user = agrees h
  ask_permissions-Agrees (p ∷ required) none = agrees h
  ask_permissions-Agrees (p ∷ required) (some user) =
      let said : ℕ → List String = λ u. load (grants s.db u) in
      record {
        same_answer =
            ap (λ perms. allowed (every (p ∷ required) perms))
              (get_or_set-loaded s.clock user said s.perm_cache h.perm_says)
            ∙ ap allowed (sym (has_permissions-load s.db user required p));
        same_tables = refl;
        coherent = record {
          role_says = h.role_says;
          perm_says = get_or_set-Says s.clock user said s.perm_cache h.perm_says;
          granted = h.granted;
          deletes = h.deletes;
        };
      }

  wait-Coherent : (n : ℕ) → Coherent (record s { clock = s.clock + n })
  wait-Coherent n = record {
    role_says = h.role_says;
    perm_says = h.perm_says;
    granted = h.granted;
    deletes = h.deletes;
  }

  forget_roles-Coherent :
      (user : ℕ) → Coherent (record s { role_cache = drop_user true user s.role_cache })
  forget_roles-Coherent user = record {
    role_says =
        drop_user-Says true user s.role_cache (role_names s.db) (role_names s.db) refl h.role_says
          (λ u e. refl);
    perm_says = h.perm_says;
    granted = h.granted;
    deletes = h.deletes;
  }

  forget_perms-Coherent :
      (user : ℕ) → Coherent (record s { perm_cache = drop_user true user s.perm_cache })
  forget_perms-Coherent user = record {
    role_says = h.role_says;
    perm_says =
        drop_user-Says true user s.perm_cache (λ u. load (grants s.db u))
          (λ u. load (grants s.db u)) refl h.perm_says (λ u e. refl);
    granted = h.granted;
    deletes = h.deletes;
  }

call-Agrees : (c : RoleCall) (s : State) → Coherent s → Agrees (call c s) (plain_call c s.db)
unfolding call plain_call
call-Agrees (create i name ids) s h = create-Agrees s h i name ids
call-Agrees (update i ids) s h = update-Agrees s h i ids
call-Agrees (delete i) s h = delete-Agrees s h i
call-Agrees (assign user r) s h = assign-Agrees s h user r
call-Agrees (unassign user r) s h = unassign-Agrees s h user r
call-Agrees (ask_roles required user) s h = ask_roles-Agrees s h required user
call-Agrees (ask_permissions required user) s h = ask_permissions-Agrees s h required user
call-Agrees (wait n) s h = agrees (wait-Coherent s h n)
call-Agrees (forget_roles user) s h = agrees (forget_roles-Coherent s h user)
call-Agrees (forget_perms user) s h = agrees (forget_perms-Coherent s h user)

run-replay_from : (calls : List RoleCall) (s : State) → Coherent s → run calls s ≡ replay calls s.db
unfolding run replay
run-replay_from [] s h = refl
run-replay_from (c ∷ calls) s h =
    let one = call-Agrees c s h in
    ap₂ ◌∷◌ one.same_answer
      (run-replay_from calls (call c s).1 one.coherent ∙ ap (replay calls) one.same_tables)

abbrev pub no_entry : Cache
no_entry user = none

-- A service that starts with empty caches.
abbrev pub fresh_state : Db → (ℕ → Bool) → ℕ → State
fresh_state db can_delete clock = record {
  db = db;
  can_delete = can_delete;
  clock = clock;
  role_cache = no_entry;
  perm_cache = no_entry;
}

-- From empty caches, a database in which each row of `user_roles` points to a role, and as long as
-- Redis takes the deletions of the service, every sequence of calls of the service and of requests,
-- whatever time passes and whatever entries Redis drops in between, gets the answers that the same
-- calls get without a cache, each guard asking the service's own `hasRoles` and `hasPermissions`.
pub run-replay :
    (calls : List RoleCall) (db : Db) (can_delete : ℕ → Bool) (clock : ℕ)
    → All (IsGranted db.roles) db.user_roles
    → ((t : ℕ) → can_delete t ≡ true)
    → run calls (fresh_state db can_delete clock) ≡ replay calls db
run-replay calls db can_delete clock h d =
    run-replay_from calls (fresh_state db can_delete clock)
      (record { role_says = λ user. tt; perm_says = λ user. tt; granted = h; deletes = d })
