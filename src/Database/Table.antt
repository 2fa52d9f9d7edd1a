-- ===== src/Database/Table.antt =====
-- A table with a unique id: `findUnique`, `update` and `create` of a prisma model.
use mathlib.Core.List.{not-mem-nil, mem-cons}
use mathlib.Core.List.{foldr}
use mathlib.Core.List.Perm
use mathlib.Core.Logic.Or
use seatwaves_backend.Common.Int.{ℤ, pos, ◌+ℤ◌, int_laws}
use mathlib.Core.Option
use seatwaves_backend.Common.{
  All, inl, inr, map, Bool-cases, ℕ, ◌≡◌, refl, ap, ◌≢◌, Bool, false, List, [], ◌∷◌, Mem, Perm,
  Pairwise, Option, none, some, arith, ◌==◌, if◌then◌else◌, keep, not, ◌++◌,
}

pub option_path_prop : {R : Type 0} → IsSet R → {a b : Option R} → IsProp (a ≡ b)
option_path_prop {R} set {a} {b} = Option_set a b
  where
    Option_set : IsSet (Option R)
    Option_set = hlevel set

module _ {R : Type 0} (id : R → ℕ) where
  -- `findUnique({ where: { id } })`
  unfoldable pub find_unique : ℕ → List R → Option R
  find_unique i [] = none
  find_unique i (r ∷ t) = if id r == i then some r else find_unique i t

  -- `update({ where: { id }, data })`
  unfoldable pub update : ℕ → (R → R) → List R → List R
  update i f [] = []
  update i f (r ∷ t) = if id r == i then f r ∷ t else r ∷ update i f t

  -- No two rows share an id.
  abbrev pub HasUniqueIds : List R → Type 0
  HasUniqueIds [] = Unit
  HasUniqueIds (r ∷ t) = (find_unique (id r) t ≡ none) × HasUniqueIds t

  pub find_unique-id : (i : ℕ) (t : List R) {r : R} → find_unique i t ≡ some r → id r ≡ i
  unfolding find_unique
  find_unique-id i [] h = cc
  find_unique-id i (x ∷ t) {r} h = ground (arith, find_unique-id i t {r = r})

  pub find_unique-update_self :
      (i : ℕ) (f : R → R) (t : List R) {r : R}
      → find_unique i t ≡ some r
      → id (f r) ≡ i
      → find_unique i (update i f t) ≡ some (f r)
  unfolding find_unique update
  find_unique-update_self i f [] h k = cc
  find_unique-update_self i f (x ∷ t) {r} h k =
      ground (arith, find_unique-update_self i f t {r = r})

  pub find_unique-update_ne :
      (i j : ℕ) (f : R → R) (t : List R)
      → ((r : R) → id (f r) ≡ id r)
      → i ≢ j
      → find_unique j (update i f t) ≡ find_unique j t
  unfolding find_unique update
  find_unique-update_ne i j f [] k ne = refl
  find_unique-update_ne i j f (x ∷ t) k ne = ground (arith, k x, find_unique-update_ne i j f t k ne)

  find_unique-update-none :
      (i j : ℕ) (f : R → R) (t : List R)
      → ((r : R) → id (f r) ≡ id r)
      → find_unique j t ≡ none
      → find_unique j (update i f t) ≡ none
  unfolding find_unique update
  find_unique-update-none i j f [] k h = refl
  find_unique-update-none i j f (x ∷ t) k h = ground (arith, k x, find_unique-update-none i j f t k)

  pub update-HasUniqueIds :
      (i : ℕ) (f : R → R) (t : List R)
      → ((r : R) → id (f r) ≡ id r)
      → HasUniqueIds t
      → HasUniqueIds (update i f t)
  unfolding update
  update-HasUniqueIds i f [] k u = tt
  update-HasUniqueIds i f (x ∷ t) k u =
      ground
        (arith, k x, update-HasUniqueIds i f t k u.1, find_unique-update-none i (id x) f t k u.0)

  find_unique-mem_ne : (i : ℕ) (t : List R) → find_unique i t ≡ none → (r : R) → Mem r t → i ≢ id r
  unfolding find_unique
  find_unique-mem_ne i [] h r m e = not-mem-nil m
  find_unique-mem_ne i (x ∷ t) h r m e =
      Or.elim (λ a. elim a [ ]) (mem-cons.0 m) (λ p. ground (arith, ap id p))
        (λ q. find_unique-mem_ne i t (ground arith) r q e)

  -- The ids of the rows of a table with unique ids, pairwise.
  pub HasUniqueIds-Pairwise : (t : List R) → HasUniqueIds t → Pairwise (λ a b. id a ≢ id b) t
  HasUniqueIds-Pairwise [] u = Pairwise.nil
  HasUniqueIds-Pairwise (x ∷ t) u =
      Pairwise.cons (find_unique-mem_ne (id x) t u.0) (HasUniqueIds-Pairwise t u.1)

  -- A row of a table with unique ids is the one that its id finds.
  pub mem-find_unique :
      IsSet R → (t : List R) → HasUniqueIds t → (r : R) → Mem r t → find_unique (id r) t ≡ some r
  unfolding find_unique
  mem-find_unique set [] u r m = absurd (not-mem-nil m)
  mem-find_unique set (x ∷ t) u r m =
      Or.elim (option_path_prop set) (mem-cons.0 m) (λ p. rw p (ground arith))
        (λ q. ground (arith, find_unique-mem_ne (id x) t u.0 r q, mem-find_unique set t u.1 r q))

  -- The sum of a quantity over the rows, after a write to one row.
  abbrev pub total : (R → ℤ) → List R → ℤ
  total w = foldr (λ r s. w r +ℤ s) (pos 0)

  pub total-update :
      (w : R → ℤ) (i : ℕ) (f : R → R) (t : List R) {r : R}
      → find_unique i t ≡ some r
      → total w (update i f t) +ℤ w r ≡ total w t +ℤ w (f r)
  unfolding find_unique update
  total-update w i f [] h = cc
  total-update w i f (x ∷ t) {r} h = grind (int_laws, total-update w i f t {r = r})

  pub total-update_same :
      (w : R → ℤ) (i : ℕ) (f : R → R) (t : List R)
      → ((r : R) → w (f r) ≡ w r)
      → total w (update i f t) ≡ total w t
  unfolding update
  total-update_same w i f [] k = refl
  total-update_same w i f (x ∷ t) k = ground (arith, k x, total-update_same w i f t k)

  pub total-keep :
      (w : R → ℤ) (p : R → Bool) (t : List R)
      → ((r : R) → p r ≡ false → w r ≡ pos 0)
      → total w (keep p t) ≡ total w t
  total-keep w p [] k = refl
  total-keep w p (x ∷ t) k = grind (int_laws, k x, total-keep w p t k)

  pub total-perm : (w : R → ℤ) (s t : List R) → Perm s t → total w s ≡ total w t
  total-perm w s t p =
      Perm.foldr-eq (hlevel) (λ (r : R) (n : ℤ). w r +ℤ n) (λ a b x. omega int_laws) p (pos 0)

  -- `findUnique` after `update`.
  pub find_unique-update :
      (i j : ℕ) (f : R → R) (t : List R)
      → ((r : R) → id (f r) ≡ id r)
      → find_unique j (update i f t)
        ≡ (if i == j then Option.map f (find_unique j t) else find_unique j t)
  unfolding find_unique update
  find_unique-update i j f [] k = ground arith
  find_unique-update i j f (x ∷ t) k = ground (arith, k x, find_unique-update i j f t k)

  -- An id that no row has is not found.
  pub not-mem-find_unique : (i : ℕ) (t : List R) → ¬ Mem i (map id t) → find_unique i t ≡ none
  unfolding find_unique
  not-mem-find_unique i [] h = refl
  not-mem-find_unique i (x ∷ t) h = elim (Bool-cases (id x == i)) [
    | inl e ↦ absurd (h (mem-cons.1 (Or.inl (ground arith))))
    | inr e ↦ rw e (not-mem-find_unique i t (λ m. h (mem-cons.1 (Or.inr m))))
  ]

  pub All-update {ℓ} :
      (P : R → Type ℓ) (i : ℕ) (f : R → R) (t : List R)
      → ((r : R) → P r → P (f r))
      → All P t
      → All P (update i f t)
  unfolding update
  All-update P i f [] k h = tt
  All-update P i f (x ∷ t) k h = elim (Bool-cases (id x == i)) [
    | inl e ↦ rw e (k x h.0, h.1)
    | inr e ↦ rw e (h.0, All-update P i f t k h.1)
  ]

  -- `findUnique` after `delete({ where: { id } })`.
  pub find_unique-keep :
      (i j : ℕ) (t : List R)
      → (j == i) ≡ false
      → find_unique j (keep (λ r. not (id r == i)) t) ≡ find_unique j t
  unfolding find_unique
  find_unique-keep i j [] h = refl
  find_unique-keep i j (x ∷ t) h = elim (Bool-cases (id x == i)) [
    | inl e ↦
        let apart : (id x == j) ≡ false = ground (arith, e, h) in
        rw (e, apart) (find_unique-keep i j t h)
    | inr e ↦ rw (e, find_unique-keep i j t h) refl
  ]

  -- `findUnique` after `create`.
  pub find_unique-append :
      (i : ℕ) (t more : List R) {r : R}
      → find_unique i t ≡ some r
      → find_unique i (t ++ more) ≡ some r
  unfolding find_unique
  find_unique-append i [] more h = cc
  find_unique-append i (x ∷ t) more {r} h = ground (arith, find_unique-append i t more {r = r})
