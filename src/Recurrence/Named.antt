-- ===== src/Recurrence/Named.antt =====
-- The days that a rule's `byday` names: `parseBydayIndices` of src/event/recurrence.ts.
use Prim.Native.String.{String}
use text.Mathlib.Text.{◌==◌ as str_eq}
use seatwaves_backend.Common.{
  ℕ, suc, ◌+◌, ◌≤◌, ◌<◌, ◌≡◌, refl, ap, ◌∙◌, Bool, true, false, ◌||◌, List, [], ◌∷◌, Option, none,
  some, length, leb, ◌==◌, or_default, arith, Bool-cases, inl, inr,
}
use seatwaves_backend.Recurrence.Rules.{
  index_of, ical_days, day_indices, insert, sort, non_empty, parse_byday_indices,
}
use seatwaves_backend.Recurrence.Reference.{contains}
use seatwaves_backend.Recurrence.Days.{IsAscending}

-- No number stands twice.
abbrev pub IsDistinct : List ℕ → Type 0
IsDistinct [] = Unit
IsDistinct (x ∷ xs) = (contains xs x ≡ false) × IsDistinct xs

-- Every number is that of a day.
abbrev pub AreDays : List ℕ → Type 0
AreDays [] = Unit
AreDays (x ∷ xs) = (x < 7) × AreDays xs

-- No day of `byday` is named twice.
abbrev pub NamesOnce : Option (List String) → Type 0
NamesOnce none = Unit
NamesOnce (some days) = IsDistinct (day_indices days)

index_of-bounded :
    (d : String) (xs : List String) (i r : ℕ) → index_of d i xs ≡ some r → r < i + length xs
index_of-bounded d [] i r h = absurd (grind arith)
index_of-bounded d (x ∷ xs) i r h = elim (Bool-cases (str_eq x d)) [
  | inl e ↦ ground arith
  | inr e ↦ omega (arith, index_of-bounded d xs (i + 1) r (ground arith))
]

day_indices-cons :
    (d : String) (days : List String) (o : Option ℕ)
    → index_of d 0 ical_days ≡ o
    → AreDays (day_indices days)
    → AreDays (day_indices (d ∷ days))
day_indices-cons d days none e rest = rw (e, AreDays) rest
day_indices-cons d days (some i) e rest =
    rw (e, AreDays) ((index_of-bounded d ical_days 0 i e, rest))

day_indices-AreDays : (days : List String) → AreDays (day_indices days)
day_indices-AreDays [] = tt
day_indices-AreDays (d ∷ days) =
    day_indices-cons d days (index_of d 0 ical_days) refl (day_indices-AreDays days)

or_swap : (a b c : Bool) → (a || (b || c)) ≡ (b || (a || c))
or_swap true true c = refl
or_swap true false c = refl
or_swap false true c = refl
or_swap false false c = refl

contains-insert : (x k : ℕ) (ys : List ℕ) → contains (insert x ys) k ≡ (x == k || contains ys k)
contains-insert x k [] = refl
contains-insert x k (y ∷ ys) = elim (Bool-cases (leb x y)) [
  | inl e ↦ rw e refl
  | inr e ↦ rw (e, contains-insert x k ys) (or_swap (y == k) (x == k) (contains ys k))
]

contains-sort : (k : ℕ) (xs : List ℕ) → contains (sort xs) k ≡ contains xs k
contains-sort k [] = refl
contains-sort k (x ∷ xs) =
    contains-insert x k (sort xs) ∙ ap (λ b. x == k || b) (contains-sort k xs)

insert-IsAscending :
    (j x : ℕ) (ys : List ℕ)
    → j ≤ x
    → x < 7
    → contains ys x ≡ false
    → IsAscending j ys
    → IsAscending j (insert x ys)
insert-IsAscending j x [] h l c asc = (h, l, tt)
insert-IsAscending j x (y ∷ ys) h l c asc = elim (Bool-cases (leb x y)) [
  | inl e ↦ rw e ((h, l, (ground arith, asc.1, asc.2)))
  | inr e ↦
      rw e ((asc.0, asc.1, insert-IsAscending (suc y) x ys (ground arith) l (ground arith) asc.2))
]

sort-IsAscending : (xs : List ℕ) → AreDays xs → IsDistinct xs → IsAscending 0 (sort xs)
sort-IsAscending [] h d = tt
sort-IsAscending (x ∷ xs) (below, rest) (once, distinct) =
    insert-IsAscending 0 x (sort xs) (omega arith) below (contains-sort x xs ∙ once)
      (sort-IsAscending xs rest distinct)

or_first :
    (xs : List ℕ) (k : ℕ)
    → k < 7
    → IsAscending 0 xs
    → IsAscending 0 (or_default (non_empty xs) (k ∷ []))
or_first [] k h asc = (omega arith, h, tt)
or_first (x ∷ xs) k h asc = asc

-- The days of a week, in order: those that are named, or the given one.
pub days-IsAscending :
    (byday : Option (List String)) (k : ℕ)
    → k < 7
    → NamesOnce byday
    → IsAscending 0 (or_default (parse_byday_indices byday) (k ∷ []))
unfolding parse_byday_indices
days-IsAscending none k h d = (omega arith, h, tt)
days-IsAscending (some days) k h d =
    or_first (sort (day_indices days)) k h
      (sort-IsAscending (day_indices days) (day_indices-AreDays days) d)
