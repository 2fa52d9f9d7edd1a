-- ===== src/Roles/Writes.antt =====
-- Each write of the role service, with the entries that it drops, keeps the caches coherent.
use seatwaves_backend.Common.{
  has_id, ℕ, ◌≡◌, refl, ap, sym, false, not, ◌&&◌, List, [], ◌∷◌, ◌++◌, ◌==◌, keep, All, All-append,
  Bool-cases, inl, inr,
}
use seatwaves_backend.Access.Guard.{load}
use seatwaves_backend.Roles.Data.{Role, UserRole, Db, State, roles_of, is_assigned}
use seatwaves_backend.Roles.Service.{
  insert_role, set_permissions, remove_role, insert_user_role, remove_user_role, drop_user,
  drop_all,
}
use seatwaves_backend.Roles.Guard.{role_names, grants}
use seatwaves_backend.Roles.Joins.{
  names, IsGranted, names-update, roles_of-append, append-IsGranted, update-IsGranted,
  roles_of-assign, roles_of-unassign, keep-IsGranted, remove-IsGranted,
}
use seatwaves_backend.Roles.Coherence.{Says-subst, Coherent, drop_user-Says, drop_all-Says}

module _ (db after : Db) (user : ℕ) (users : has_id after.users user ≡ has_id db.users user) where
  -- The same names of roles.
  role_names-same :
      names (roles_of db.roles user db.user_roles)
        ≡ names (roles_of after.roles user after.user_roles)
      → role_names db user ≡ role_names after user
  unfolding role_names
  role_names-same h = rw (users, h) refl

  -- The same roles, with the same permissions.
  grants-same :
      after.permissions ≡ db.permissions
      → roles_of db.roles user db.user_roles ≡ roles_of after.roles user after.user_roles
      → load (grants db user) ≡ load (grants after user)
  unfolding grants
  grants-same k h = rw (users, k, h) refl

module _ (s : State) (h : Coherent s) where
  pub insert_role-Coherent :
      (r : Role)
      → Coherent (record s {
        db = insert_role r s.db;
        perm_cache = drop_all (s.can_delete s.clock) s.perm_cache;
      })
  insert_role-Coherent r = record {
    role_says = λ user.
        Says-subst (s.role_cache user)
          (role_names-same s.db (insert_role r s.db) user refl
            (ap names (sym (roles_of-append s.db.roles r user s.db.user_roles h.granted))))
          (h.role_says user);
    perm_says =
        drop_all-Says (s.can_delete s.clock) s.perm_cache
          (λ u. load (grants (insert_role r s.db) u)) (h.deletes s.clock);
    deletes = h.deletes;
    granted = append-IsGranted s.db.roles r s.db.user_roles h.granted;
  }

  pub set_permissions-Coherent :
      (i : ℕ) (ids : List ℕ)
      → Coherent (record s {
        db = set_permissions i ids s.db;
        perm_cache = drop_all (s.can_delete s.clock) s.perm_cache;
      })
  set_permissions-Coherent i ids = record {
    role_says = λ user.
        Says-subst (s.role_cache user)
          (role_names-same s.db (set_permissions i ids s.db) user refl
            (sym (names-update s.db.roles i ids user s.db.user_roles)))
          (h.role_says user);
    perm_says =
        drop_all-Says (s.can_delete s.clock) s.perm_cache
          (λ u. load (grants (set_permissions i ids s.db) u)) (h.deletes s.clock);
    deletes = h.deletes;
    granted = update-IsGranted s.db.roles i ids s.db.user_roles h.granted;
  }

  pub remove_role-Coherent :
      (i : ℕ)
      → Coherent (record s {
        db = remove_role i s.db;
        role_cache = drop_all (s.can_delete s.clock) s.role_cache;
        perm_cache = drop_all (s.can_delete s.clock) s.perm_cache;
      })
  remove_role-Coherent i = record {
    role_says =
        drop_all-Says (s.can_delete s.clock) s.role_cache (role_names (remove_role i s.db))
          (h.deletes s.clock);
    perm_says =
        drop_all-Says (s.can_delete s.clock) s.perm_cache
          (λ u. load (grants (remove_role i s.db) u)) (h.deletes s.clock);
    deletes = h.deletes;
    granted = remove-IsGranted s.db.roles i s.db.user_roles h.granted;
  }

  -- A write to the rows of one user.
  rows-Coherent :
      (user : ℕ) (rows : List UserRole)
      → ((other : ℕ)
          → (user == other) ≡ false
          → roles_of s.db.roles other s.db.user_roles ≡ roles_of s.db.roles other rows)
      → All (IsGranted s.db.roles) rows
      → Coherent (record s {
        db = record s.db { user_roles = rows };
        role_cache = drop_user (s.can_delete s.clock) user s.role_cache;
        perm_cache = drop_user (s.can_delete s.clock) user s.perm_cache;
      })
  rows-Coherent user rows same granted =
      let after : Db = record s.db { user_roles = rows } in
      record {
        role_says =
            drop_user-Says (s.can_delete s.clock) user s.role_cache (role_names s.db)
              (role_names after) (h.deletes s.clock) h.role_says
              (λ u e. role_names-same s.db after u refl (ap names (same u e)));
        perm_says =
            drop_user-Says (s.can_delete s.clock) user s.perm_cache (λ u. load (grants s.db u))
              (λ u. load (grants after u)) (h.deletes s.clock) h.perm_says
              (λ u e. grants-same s.db after u refl refl (same u e));
        deletes = h.deletes;
        granted = granted;
      }

  pub insert_user_role-Coherent :
      (user role : ℕ)
      → IsGranted s.db.roles (record { user_id = user; role_id = role })
      → Coherent (record s {
        db = insert_user_role user role s.db;
        role_cache = drop_user (s.can_delete s.clock) user s.role_cache;
        perm_cache = drop_user (s.can_delete s.clock) user s.perm_cache;
      })
  insert_user_role-Coherent user role there =
      let g : UserRole = record { user_id = user; role_id = role } in
      elim (Bool-cases (is_assigned user role s.db.user_roles)) [
        | inl e ↦ rw e (rows-Coherent user s.db.user_roles (λ u k. refl) h.granted)
        | inr e ↦ rw e (
            rows-Coherent user (s.db.user_roles ++ g ∷ [])
              (λ u k. sym (roles_of-assign s.db.roles g u s.db.user_roles k))
              (All-append (IsGranted s.db.roles) s.db.user_roles (g ∷ []) h.granted (there, tt)))
      ]

  pub remove_user_role-Coherent :
      (user role : ℕ)
      → Coherent (record s {
        db = remove_user_role user role s.db;
        role_cache = drop_user (s.can_delete s.clock) user s.role_cache;
        perm_cache = drop_user (s.can_delete s.clock) user s.perm_cache;
      })
  remove_user_role-Coherent user role =
      rows-Coherent user
        (keep (λ (g : UserRole). not (g.user_id == user && g.role_id == role)) s.db.user_roles)
        (λ u k. sym (roles_of-unassign s.db.roles user role u s.db.user_roles k))
        (keep-IsGranted s.db.roles (λ (g : UserRole). not (g.user_id == user && g.role_id == role))
          s.db.user_roles h.granted)
