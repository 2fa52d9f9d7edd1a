-- ===== src/Roles/Joins.antt =====
-- What the writes of the role service change in what the tables say of a user.
use Prim.Native.String.{String}
use seatwaves_backend.Common.{
  ℕ, ◌≡◌, refl, ap, ◌∙◌, Bool, true, false, not, ◌&&◌, List, [], ◌∷◌, ◌++◌, map, Option, none, some,
  arith, ◌==◌, if◌then◌else◌, is_some, keep, All, Bool-cases, inl, inr,
}
use mathlib.Core.Option
use seatwaves_backend.Database.Table.{find_unique, update, find_unique-update, find_unique-keep}
use seatwaves_backend.Roles.Data.{Role, UserRole, find_role, add_role, roles_of}

abbrev id_of : Role → ℕ
id_of r = r.id

abbrev pub names : List Role → List String
names = map (λ (r : Role). r.name)

-- Every role that a user has is there.
abbrev pub IsGranted : List Role → UserRole → Type 0
IsGranted roles g = is_some (find_role g.role_id roles) ≡ true

abbrev pub with_ids : List ℕ → Role → Role
with_ids ids r = record r { permission_ids = ids }

module _ (roles : List Role) where
  add_role-names :
      (b : Bool) (ids : List ℕ) (o : Option Role) (xs ys : List Role)
      → names xs ≡ names ys
      → names (add_role (if b then Option.map (with_ids ids) o else o) xs) ≡ names (add_role o ys)
  add_role-names true ids none xs ys h = h
  add_role-names false ids none xs ys h = h
  add_role-names true ids (some r) xs ys h = ap (λ t. r.name ∷ t) h
  add_role-names false ids (some r) xs ys h = ap (λ t. r.name ∷ t) h

  -- New permissions change no name.
  pub names-update :
      (i : ℕ) (ids : List ℕ) (user : ℕ) (rows : List UserRole)
      → names (roles_of (update id_of i (with_ids ids) roles) user rows)
        ≡ names (roles_of roles user rows)
  unfolding roles_of find_role
  names-update i ids user [] = refl
  names-update i ids user (g ∷ t) = elim (Bool-cases (g.user_id == user)) [
    | inl e ↦
        rw (e, find_unique-update id_of i g.role_id (with_ids ids) roles (λ r. refl))
          (add_role-names (i == g.role_id) ids (find_unique id_of g.role_id roles) _ _
            (names-update i ids user t))
    | inr e ↦ rw e (names-update i ids user t)
  ]

  find_role-append :
      (j : ℕ) (r : Role) (t : List Role)
      → is_some (find_role j t) ≡ true
      → find_role j (t ++ r ∷ []) ≡ find_role j t
  unfolding find_role find_unique
  find_role-append j r [] h = cc
  find_role-append j r (x ∷ t) h = ground (arith, find_role-append j r t)

  -- A new role is nobody's.
  pub roles_of-append :
      (r : Role) (user : ℕ) (rows : List UserRole)
      → All (IsGranted roles) rows
      → roles_of (roles ++ r ∷ []) user rows ≡ roles_of roles user rows
  unfolding roles_of
  roles_of-append r user [] h = refl
  roles_of-append r user (g ∷ t) h =
      rw (find_role-append g.role_id r roles h.0, roles_of-append r user t h.1) refl

  pub append-IsGranted :
      (r : Role) (rows : List UserRole)
      → All (IsGranted roles) rows
      → All (IsGranted (roles ++ r ∷ [])) rows
  append-IsGranted r [] h = tt
  append-IsGranted r (g ∷ t) h =
      (ap is_some (find_role-append g.role_id r roles h.0) ∙ h.0, append-IsGranted r t h.1)

  map-is_some :
      (b : Bool) (ids : List ℕ) (o : Option Role)
      → is_some (if b then Option.map (with_ids ids) o else o) ≡ is_some o
  map-is_some true ids none = refl
  map-is_some false ids none = refl
  map-is_some true ids (some r) = refl
  map-is_some false ids (some r) = refl

  pub update-IsGranted :
      (i : ℕ) (ids : List ℕ) (rows : List UserRole)
      → All (IsGranted roles) rows
      → All (IsGranted (update id_of i (with_ids ids) roles)) rows
  unfolding find_role
  update-IsGranted i ids [] h = tt
  update-IsGranted i ids (g ∷ t) h = (
    ap is_some (find_unique-update id_of i g.role_id (with_ids ids) roles (λ r. refl))
        ∙ map-is_some (i == g.role_id) ids (find_unique id_of g.role_id roles)
        ∙ h.0,
    update-IsGranted i ids t h.1,
  )

  -- A row of another user is not looked at.
  pub roles_of-assign :
      (g : UserRole) (user : ℕ) (rows : List UserRole)
      → (g.user_id == user) ≡ false
      → roles_of roles user (rows ++ g ∷ []) ≡ roles_of roles user rows
  unfolding roles_of
  roles_of-assign g user [] h = rw h refl
  roles_of-assign g user (x ∷ t) h = rw (roles_of-assign g user t h) refl

  pub roles_of-unassign :
      (user role other : ℕ) (rows : List UserRole)
      → (user == other) ≡ false
      → roles_of roles other
          (keep (λ (g : UserRole). not (g.user_id == user && g.role_id == role)) rows)
        ≡ roles_of roles other rows
  unfolding roles_of
  roles_of-unassign user role other [] h = refl
  roles_of-unassign user role other (g ∷ t) h =
      elim (Bool-cases (g.user_id == user && g.role_id == role)) [
        | inl e ↦
            let apart : (g.user_id == other) ≡ false = ground (arith, e, h) in
            rw (e, apart) (roles_of-unassign user role other t h)
        | inr e ↦ rw (e, roles_of-unassign user role other t h) refl
      ]

  pub keep-IsGranted :
      (p : UserRole → Bool) (rows : List UserRole)
      → All (IsGranted roles) rows
      → All (IsGranted roles) (keep p rows)
  keep-IsGranted p [] h = tt
  keep-IsGranted p (g ∷ t) h = elim (Bool-cases (p g)) [
    | inl e ↦ rw e (h.0, keep-IsGranted p t h.1)
    | inr e ↦ rw e (keep-IsGranted p t h.1)
  ]

  -- The rows of a role go with it.
  pub remove-IsGranted :
      (i : ℕ) (rows : List UserRole)
      → All (IsGranted roles) rows
      → All
          (IsGranted (keep (λ (r : Role). not (r.id == i)) roles))
          (keep (λ (g : UserRole). not (g.role_id == i)) rows)
  unfolding find_role
  remove-IsGranted i [] h = tt
  remove-IsGranted i (g ∷ t) h = elim (Bool-cases (g.role_id == i)) [
    | inl e ↦ rw e (remove-IsGranted i t h.1)
    | inr e ↦
        rw e
          (ap is_some (find_unique-keep id_of i g.role_id roles e) ∙ h.0, remove-IsGranted i t h.1)
  ]
