-- ===== src/Roles/Factories.antt =====
-- The service's own checks, in terms of what the factories of the guards return.
use Prim.Native.String.{String}
use seatwaves_backend.Common.{has_id, ℕ, ◌≡◌, refl, sym, false, List, [], ◌∷◌, Bool-cases, inl, inr}
use seatwaves_backend.Access.Guard.{load, every}
use seatwaves_backend.Roles.Data.{Db}
use seatwaves_backend.Roles.Service.{
  has_roles, has_permissions, get_user_roles, get_user_permissions, at_least_one, any, all,
}
use seatwaves_backend.Roles.Guard.{role_names, grants}
use seatwaves_backend.Roles.Plain.{is_allowed}

none_held : (required : List String) → at_least_one required [] ≡ false
none_held [] = refl
none_held (r ∷ required) = none_held required

module _ (db : Db) (user : ℕ) (required : List String) where
  pub has_roles-names :
      is_allowed (has_roles user required any db) ≡ at_least_one required (role_names db user)
  unfolding has_roles get_user_roles role_names
  has_roles-names = elim (Bool-cases (has_id db.users user)) [
    | inl e ↦ rw e refl
    | inr e ↦ rw e (sym (none_held required))
  ]

  pub has_permissions-load :
      (p : String)
      → is_allowed (has_permissions user (p ∷ required) all db)
        ≡ every (p ∷ required) (load (grants db user))
  unfolding has_permissions get_user_permissions grants
  has_permissions-load p = elim (Bool-cases (has_id db.users user)) [
    | inl e ↦ rw e refl
    | inr e ↦ rw e refl
  ]
