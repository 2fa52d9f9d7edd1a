-- ===== src/Recurrence/Rules.antt =====
-- The rules of src/event/recurrence.ts and `parseBydayIndices`.
use Prim.Native.String.{String}
use text.Mathlib.Text.{◌==◌ as str_eq}
use seatwaves_backend.Common.{
  ℕ, ◌+◌, List, [], ◌∷◌, Option, none, some, leb, if◌then◌else◌, or_default,
}

pub data Frequency : Type 0 where
  daily weekly monthly yearly : Frequency

-- `until` is the instant that `new Date(rules.until)` gives.
pub record RecurringRules : Type 0 where
  pub frequency : Frequency
  pub interval : Option ℕ
  pub byday : Option (List String)
  pub until : Option ℕ
  pub count : Option ℕ

-- `ICAL_DAYS`
abbrev pub ical_days : List String
ical_days = "SU" ∷ "MO" ∷ "TU" ∷ "WE" ∷ "TH" ∷ "FR" ∷ "SA" ∷ []

-- `indexOf`; nothing stands for -1.
abbrev pub index_of : String → ℕ → List String → Option ℕ
index_of d i [] = none
index_of d i (x ∷ xs) = if str_eq x d then some i else index_of d (i + 1) xs

-- The indices of the days that there are.
abbrev pub day_indices : List String → List ℕ
day_indices [] = []
day_indices (d ∷ days) = elim (index_of d 0 ical_days) [
  | none ↦ day_indices days
  | some i ↦ i ∷ day_indices days
]

-- `sort((a, b) => a - b)`
abbrev pub insert : ℕ → List ℕ → List ℕ
insert x [] = x ∷ []
insert x (y ∷ ys) = if leb x y then x ∷ y ∷ ys else y ∷ insert x ys

abbrev pub sort : List ℕ → List ℕ
sort [] = []
sort (x ∷ xs) = insert x (sort xs)

abbrev pub non_empty : List ℕ → Option (List ℕ)
non_empty [] = none
non_empty (x ∷ xs) = some (x ∷ xs)

-- `parseBydayIndices`
unfoldable pub parse_byday_indices : Option (List String) → Option (List ℕ)
parse_byday_indices none = none
parse_byday_indices (some days) = non_empty (sort (day_indices days))

-- `Math.max(1, rules.interval ?? 1)`
abbrev pub interval_of : RecurringRules → ℕ
interval_of rules = let n : ℕ = or_default rules.interval 1 in if leb n 1 then 1 else n
