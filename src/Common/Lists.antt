-- ===== src/Common/Lists.antt =====
-- Lists under Boolean predicates, and measured by native numbers.
use Prim.Native.Nat.{ℕ, zero, suc, ◌+◌}
use mathlib.Core.Path.{◌≡◌}
use mathlib.Core.Bool.{Bool, true, false, ◌||◌}
use mathlib.Core.List.{
  List, [], ◌∷◌, ◌++◌, Mem, Mem-prop, Perm, Pairwise, mem-cons, mem-cons_self, mem-cons_of_mem,
  not-mem-nil,
}
use mathlib.Core.List.Perm
use mathlib.Core.Logic.{inl, inr}
use mathlib.Core.Logic.Or
use native.Mathlib.Omega.{arith}
use seatwaves_backend.Common.Tests.{Bool-cases, if◌then◌else◌, ◌==◌}

module _ {ℓ} {A : Type ℓ} where
  abbrev pub length : List A → ℕ
  length [] = 0
  length (x ∷ xs) = suc (length xs)

  abbrev pub take : ℕ → List A → List A
  take zero xs = []
  take (suc n) [] = []
  take (suc n) (x ∷ xs) = x ∷ take n xs

  -- The rows that pass a test, in their order.
  abbrev pub keep : (A → Bool) → List A → List A
  keep p [] = []
  keep p (x ∷ xs) = if p x then x ∷ keep p xs else keep p xs

  pub length-append : (xs ys : List A) → length (xs ++ ys) ≡ length xs + length ys
  length-append [] ys = omega arith
  length-append (x ∷ xs) ys = omega (arith, length-append xs ys)

-- Whether an id is among those of a list.
abbrev pub has_id : List ℕ → ℕ → Bool
has_id [] i = false
has_id (x ∷ xs) i = x == i || has_id xs i

-- A predicate of every element, which computes to a tuple.
abbrev pub All {ℓ κ} : {A : Type ℓ} → (A → Type κ) → List A → Type κ
All P [] = Unit
All P (x ∷ xs) = P x × All P xs

pub All-map {ℓ κ μ} :
    {A : Type ℓ} (P : A → Type κ) (Q : A → Type μ)
    → ((a : A) → P a → Q a)
    → (xs : List A) → All P xs
    → All Q xs
All-map P Q f [] h = tt
All-map P Q f (x ∷ xs) h = (f x h.0, All-map P Q f xs h.1)

pub All-append {ℓ κ} :
    {A : Type ℓ} (P : A → Type κ) (xs ys : List A) → All P xs → All P ys → All P (xs ++ ys)
All-append P [] ys hx hy = hy
All-append P (x ∷ xs) ys hx hy = (hx.0, All-append P xs ys hx.1 hy)

-- A step that may use that the element stands in the list.
pub All-map_mem {ℓ κ μ} :
    {A : Type ℓ} (P : A → Type κ) (Q : A → Type μ) (xs : List A)
    → ((a : A) → Mem a xs → P a → Q a)
    → All P xs
    → All Q xs
All-map_mem P Q [] f h = tt
All-map_mem P Q (x ∷ xs) f h =
    (f x mem-cons_self h.0, All-map_mem P Q xs (λ a m. f a (mem-cons_of_mem x m)) h.1)

pub All-of_mem {ℓ κ} :
    {A : Type ℓ} (P : A → Type κ) (xs : List A) → ((a : A) → Mem a xs → P a) → All P xs
All-of_mem P [] f = tt
All-of_mem P (x ∷ xs) f = (f x mem-cons_self, All-of_mem P xs (λ a m. f a (mem-cons_of_mem x m)))

pub mem-All {ℓ κ} :
    {A : Type ℓ} (P : A → Type κ) (xs : List A)
    → ((a : A) → IsProp (P a))
    → All P xs
    → (a : A) → Mem a xs
    → P a
mem-All P [] pP h a m = absurd (not-mem-nil m)
mem-All P (x ∷ xs) pP h a m = Or.elim (pP a) (mem-cons.0 m) (λ e. rw e h.0) (mem-All P xs pP h.1 a)

pub All-perm {ℓ κ} :
    {A : Type ℓ} (P : A → Type κ) (xs ys : List A)
    → ((a : A) → IsProp (P a))
    → Perm xs ys
    → All P ys
    → All P xs
All-perm P xs ys pP p h = All-of_mem P xs λ a m. mem-All P ys pP h a ((Perm.mem_iff p).0 m)

pub All-keep {ℓ κ} :
    {A : Type ℓ} (P : A → Type κ) (p : A → Bool) (xs : List A)
    → All P xs
    → All (λ a. P a × (p a ≡ true)) (keep p xs)
All-keep P p [] h = tt
All-keep P p (x ∷ xs) h = elim (Bool-cases (p x)) [
  | inl e ↦ rw e ((h.0, e), All-keep P p xs h.1)
  | inr e ↦ rw e (All-keep P p xs h.1)
]

pub keep-subset {ℓ} :
    {A : Type ℓ} (p : A → Bool) (xs : List A) (a : A) → Mem a (keep p xs) → Mem a xs
keep-subset p [] a m = m
keep-subset p (x ∷ xs) a m = elim (Bool-cases (p x)) [
  | inl e ↦
      Or.elim Mem-prop (mem-cons.0 (rw e at m)) (λ q. mem-cons.1 (Or.inl q))
        (λ n. mem-cons_of_mem x (keep-subset p xs a n))
  | inr e ↦ mem-cons_of_mem x (keep-subset p xs a (rw e at m))
]

pub Pairwise-keep {ℓ κ} :
    {A : Type ℓ} (L : A → A → Type κ) (p : A → Bool) (xs : List A)
    → Pairwise L xs
    → Pairwise L (keep p xs)
Pairwise-keep L p [] h = Pairwise.nil
Pairwise-keep L p (x ∷ xs) (Pairwise.cons f h) = elim (Bool-cases (p x)) [
  | inl e ↦ rw e (Pairwise.cons (λ a m. f a (keep-subset p xs a m)) (Pairwise-keep L p xs h))
  | inr e ↦ rw e (Pairwise-keep L p xs h)
]

pub All-take {ℓ κ} :
    {A : Type ℓ} (P : A → Type κ) (n : ℕ) (xs : List A) → All P xs → All P (take n xs)
All-take P zero xs h = tt
All-take P (suc n) [] h = tt
All-take P (suc n) (x ∷ xs) h = (h.0, All-take P n xs h.1)

pub take-subset {ℓ} : {A : Type ℓ} (n : ℕ) (xs : List A) (a : A) → Mem a (take n xs) → Mem a xs
take-subset zero xs a m = absurd (not-mem-nil m)
take-subset (suc n) [] a m = m
take-subset (suc n) (x ∷ xs) a m =
    Or.elim Mem-prop (mem-cons.0 m) (λ q. mem-cons.1 (Or.inl q))
      (λ r. mem-cons_of_mem x (take-subset n xs a r))

pub Pairwise-take {ℓ κ} :
    {A : Type ℓ} (L : A → A → Type κ) (n : ℕ) (xs : List A) → Pairwise L xs → Pairwise L (take n xs)
Pairwise-take L zero xs h = Pairwise.nil
Pairwise-take L (suc n) [] h = Pairwise.nil
Pairwise-take L (suc n) (x ∷ xs) (Pairwise.cons f h) =
    Pairwise.cons (λ a m. f a (take-subset n xs a m)) (Pairwise-take L n xs h)

pub All-zip {ℓ κ μ} :
    {A : Type ℓ} (P : A → Type κ) (Q : A → Type μ) (xs : List A)
    → All P xs
    → All Q xs
    → All (λ a. P a × Q a) xs
All-zip P Q [] f g = tt
All-zip P Q (x ∷ xs) f g = ((f.0, g.0), All-zip P Q xs f.1 g.1)
