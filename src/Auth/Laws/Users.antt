-- ===== src/Auth/Laws/Users.antt =====
-- Users of src/auth/auth.service.ts found by their email, after a write to one of them.
use Prim.Native.String.{String}
use text.Mathlib.Text.{◌==◌ as str_eq}
use text.Mathlib.TextEquality.{eq_iff}
use mathlib.Core.HLevel.{hedberg}
use mathlib.Core.Bool
use mathlib.Core.List.{mem-cons, not-mem-nil}
use mathlib.Core.Logic.Or
use seatwaves_backend.Common.{
  ◌≡◌, ap, sym, subst, ◌∙◌, ◌≢◌, true, List, [], ◌∷◌, none, some, ◌==◌, arith, Bool-cases, inl, inr,
}
use seatwaves_backend.Database.Table.{find_unique, update, HasUniqueIds, option_path_prop}
use seatwaves_backend.Database.Queries.{Queries}
use seatwaves_backend.Auth.Data.{User, find_email, user_id}

pub find_email-email :
    (e : String) (t : List User) {u : User} → find_email e t ≡ some u → str_eq u.email e ≡ true
unfolding find_email
find_email-email e [] h = cc
find_email-email e (x ∷ t) {u} h = ground (arith, find_email-email e t {u = u})

find_email-id :
    (e : String) (t : List User) {u : User}
    → find_email e t ≡ some u
    → find_unique user_id u.id t ≢ none
unfolding find_email find_unique
find_email-id e [] h g = cc
find_email-id e (x ∷ t) {u} h g = ground (arith, find_email-id e t {u = u})

-- A user found by email is found by id.
pub find_email-find_unique :
    (e : String) (t : List User) {u : User}
    → HasUniqueIds user_id t
    → find_email e t ≡ some u
    → find_unique user_id u.id t ≡ some u
unfolding find_email find_unique
find_email-find_unique e [] k h = cc
find_email-find_unique e (x ∷ t) {u} k h = elim (Bool-cases (str_eq x.email e)) [
  | inl a ↦ ground arith
  | inr a ↦ elim (Bool-cases (x.id == u.id)) [
    | inl b ↦
        let same : x.id ≡ u.id = ground arith in
        absurd (
          find_email-id e t {u = u} (ground arith)
            (subst (λ i. find_unique user_id i t ≡ none) same k.0))
    | inr b ↦ ground (arith, find_email-find_unique e t {u = u} k.1)
  ]
]

-- A user found by email, after a write by the id of that user.
pub find_email-update :
    (e : String) (f : User → User) (t : List User) {u : User}
    → HasUniqueIds user_id t
    → ((v : User) → (f v).email ≡ v.email)
    → find_email e t ≡ some u
    → find_email e (update user_id u.id f t) ≡ some (f u)
unfolding find_email update
find_email-update e f [] k m h = cc
find_email-update e f (x ∷ t) {u} k m h = elim (Bool-cases (str_eq x.email e)) [
  | inl a ↦ ground (arith, m x)
  | inr a ↦ elim (Bool-cases (x.id == u.id)) [
    | inl b ↦
        let same : x.id ≡ u.id = ground arith in
        absurd (
          find_email-id e t {u = u} (ground arith)
            (subst (λ i. find_unique user_id i t ≡ none) same k.0))
    | inr b ↦ ground (arith, find_email-update e f t {u = u} k.1 m)
  ]
]

String_discrete : Discrete String
String_discrete s t = elim (Bool-cases (str_eq s t)) [
  | inl e ↦ yes ((eq_iff s t).0 e)
  | inr e ↦ no (λ p. Bool.false≢true (sym e ∙ (eq_iff s t).1 p))
]

pub String_set : IsSet String
String_set = hedberg String_discrete

-- `findFirst` among one row.
pub first-one : (q : Queries) {R : Type 0} → IsSet R → (r : R) → q.first R (r ∷ []) ≡ some r
first-one q {R} set r =
    let (x, found, m) = q.first-cons R r [] in
    Or.elim (option_path_prop set) (mem-cons.0 m) (λ e. found ∙ ap some e)
      (λ n. absurd (not-mem-nil n))
