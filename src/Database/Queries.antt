-- ===== src/Database/Queries.antt =====
-- What a prisma query leaves to the database: which of the matching rows `findFirst` returns, how
-- `orderBy` breaks ties, and the id that `create` gives a new row.
use mathlib.Core.List.{mem-cons, mem-cons_self, not-mem-nil}
use mathlib.Core.List.Perm
use mathlib.Core.Logic.{◌∨₁◌}
use mathlib.Core.Logic.Or
use native.Mathlib.Nat.{le_trans}
use native.Mathlib.Bridge.{le_prop}
use seatwaves_backend.Common.{
  ℕ, ◌+◌, ◌≤◌, ◌<◌, ◌≡◌, refl, Bool, true, false, List, [], ◌∷◌, Mem, Perm, Pairwise, Option, none,
  some, arith, leb, leb→le, leb-false→le, if◌then◌else◌, Bool-cases, inl, inr, ◌⊎◌,
}

pub record Queries : Type 1 where
  -- `findFirst` on the rows that match.
  pub first : (R : Type 0) → List R → Option R
  pub first-nil : (R : Type 0) → first R [] ≡ none
  pub first-cons :
      (R : Type 0) (r : R) (t : List R) → (x : R) × (first R (r ∷ t) ≡ some x) × Mem x (r ∷ t)
  -- `orderBy: { key: 'asc' }`
  pub order_by : (R : Type 0) → (R → ℕ) → List R → List R
  pub order_by-perm : (R : Type 0) (key : R → ℕ) (t : List R) → Perm (order_by R key t) t
  pub order_by-IsSorted :
      (R : Type 0) (key : R → ℕ) (t : List R) → Pairwise (λ a b. key a ≤ key b) (order_by R key t)
  -- `orderBy: { key: 'desc' }`
  pub order_desc : (R : Type 0) → (R → ℕ) → List R → List R
  pub order_desc-perm : (R : Type 0) (key : R → ℕ) (t : List R) → Perm (order_desc R key t) t
  pub order_desc-IsSorted :
      (R : Type 0) (key : R → ℕ) (t : List R) → Pairwise (λ a b. key b ≤ key a) (order_desc R key t)
  -- `@default(ulid())`
  pub fresh_id : List ℕ → ℕ
  pub fresh_id-new : (ids : List ℕ) → ¬ Mem (fresh_id ids) ids
  -- Whether the notification settings of a user can be read at a time; a read that fails throws.
  pub can_read : ℕ → ℕ → Bool

-- `findFirst` finds a row exactly if one matches.
pub first-cases :
    (q : Queries) {R : Type 0} (rows : List R)
    → ((rows ≡ []) × (q.first R rows ≡ none)) ⊎ ((r : R) × (q.first R rows ≡ some r) × Mem r rows)
first-cases q [] = inl (refl, q.first-nil _)
first-cases q (r ∷ rows) = inr (q.first-cons _ r rows)

-- A database that returns the first row, sorts by insertion and numbers the rows.
abbrev pub head_row : (R : Type 0) → List R → Option R
head_row R [] = none
head_row R (r ∷ t) = some r

module _ {R : Type 0} (before : R → R → Bool) where
  abbrev pub insert : R → List R → List R
  insert r [] = r ∷ []
  insert r (x ∷ t) = if before r x then r ∷ x ∷ t else x ∷ insert r t

  abbrev pub sort : List R → List R
  sort [] = []
  sort (r ∷ t) = insert r (sort t)

  insert-perm : (r : R) (t : List R) → Perm (insert r t) (r ∷ t)
  insert-perm r [] = Perm.refl _
  insert-perm r (x ∷ t) = elim (Bool-cases (before r x)) [
    | inl p ↦ rw p (Perm.refl _)
    | inr p ↦ rw p (Perm.trans (Perm.cons x (insert-perm r t)) (Perm.swap r x t))
  ]

  pub sort-perm : (t : List R) → Perm (sort t) t
  sort-perm [] = Perm.refl _
  sort-perm (r ∷ t) = Perm.trans (insert-perm r (sort t)) (Perm.cons r (sort-perm t))

-- The sorted list is in the order `L`, if the test decides between the two directions.
module _ {R : Type 0} (before : R → R → Bool) (L : R → R → Type 0)
    (L-prop : (a b : R) → IsProp (L a b)) (first_le : (a b : R) → before a b ≡ true → L a b)
    (first_ge : (a b : R) → before a b ≡ false → L b a)
    (L-trans : (a b c : R) → L a b → L b c → L a c) where
  insert-Pairwise : (r : R) (t : List R) → Pairwise L t → Pairwise L (insert before r t)
  insert-Pairwise r [] s = Pairwise.cons (λ a m. absurd (not-mem-nil m)) Pairwise.nil
  insert-Pairwise r (x ∷ t) (Pairwise.cons h s) = elim (Bool-cases (before r x)) [
    | inl p ↦
        rw p
          (Pairwise.cons (λ a m. after_first a (first_le r x p) (mem-cons.0 m)) (Pairwise.cons h s))
    | inr p ↦ rw p (
        Pairwise.cons
          (λ a m. in_rest a (first_ge r x p) ((Perm.mem_iff (insert-perm before r t)).0 m))
          (insert-Pairwise r t s))
  ]
    where
      after_first : (a : R) → L r x → (a ≡ x) ∨₁ Mem a t → L r a
      after_first a l m = Or.elim (L-prop r a) m (λ e. rw e l) (λ n. L-trans r x a l (h a n))

      in_rest : (a : R) → L x r → Mem a (r ∷ t) → L x a
      in_rest a l m = Or.elim (L-prop x a) (mem-cons.0 m) (λ e. rw e l) (h a)

  pub sort-Pairwise : (t : List R) → Pairwise L (sort before t)
  sort-Pairwise [] = Pairwise.nil
  sort-Pairwise (r ∷ t) = insert-Pairwise r (sort before t) (sort-Pairwise t)

abbrev pub up : {R : Type 0} → (R → ℕ) → R → R → Bool
up key a b = leb (key a) (key b)

abbrev pub down : {R : Type 0} → (R → ℕ) → R → R → Bool
down key a b = leb (key b) (key a)

abbrev pub next_number : List ℕ → ℕ
next_number [] = 1
next_number (i ∷ ids) = i + next_number ids

next_number-above : (ids : List ℕ) (i : ℕ) → Mem i ids → i < next_number ids
next_number-above [] i m = absurd (not-mem-nil m)
next_number-above (j ∷ ids) i m =
    Or.elim le_prop (mem-cons.0 m) (λ e. rw e (ground (arith, next_number_pos ids)))
      (λ n. ground (arith, next_number-above ids i n))
  where
    next_number_pos : (ks : List ℕ) → 0 < next_number ks
    next_number_pos [] = omega arith
    next_number_pos (k ∷ ks) = omega (arith, next_number_pos ks)

pub next_number-new : (ids : List ℕ) → ¬ Mem (next_number ids) ids
next_number-new ids m = omega (arith, next_number-above ids (next_number ids) m)

-- The assumptions of `Queries` can be met.
abbrev pub in_order : Queries
in_order = record {
  first = head_row;
  first-nil = λ R. refl;
  first-cons = λ R r t. (r, refl, mem-cons_self);
  order_by = λ R key t. sort (up key) t;
  order_by-perm = λ R key t. sort-perm (up key) t;
  order_by-IsSorted = λ R key t.
      sort-Pairwise (up key) (λ a b. key a ≤ key b) (λ a b. le_prop) (λ a b. leb→le (key a) (key b))
        (λ a b. leb-false→le (key a) (key b)) (λ a b c h k. le_trans h k) t;
  order_desc = λ R key t. sort (down key) t;
  order_desc-perm = λ R key t. sort-perm (down key) t;
  order_desc-IsSorted = λ R key t.
      sort-Pairwise (down key) (λ a b. key b ≤ key a) (λ a b. le_prop)
        (λ a b. leb→le (key b) (key a)) (λ a b. leb-false→le (key b) (key a))
        (λ a b c h k. le_trans k h) t;
  fresh_id = next_number;
  fresh_id-new = next_number-new;
  can_read = λ now u. true;
}
