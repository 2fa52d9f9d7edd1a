-- ===== src/Points/Ledger/Sums.antt =====
-- The map `byUser` of `expireJob`: the points that each user's batches hold.
use seatwaves_backend.Common.{
  ℕ, ◌≡◌, refl, ◌≢◌, ◌∙◌, List, [], ◌∷◌, some, arith, ◌==◌, if◌then◌else◌, inl, inr, Option-cases,
  All, All-map, All-zip,
}
use seatwaves_backend.Common.Int.{ℤ, pos, ◌+ℤ◌, ◌-ℤ◌, ◌≤ℤ◌, ltb_ℤ, int_laws, zero-+ℤ}
use seatwaves_backend.Database.Table.{find_unique, update, total}
use seatwaves_backend.Points.Data.{RewardPoints, UserLoyalty, reward_id, account_id, balance}
use seatwaves_backend.Points.Expire.{Sums, add_to, by_user, decrement, debit_loop}
use seatwaves_backend.Points.Ledger.Holdings.{IsNonneg, balance-update}

-- What the map holds for a user, 0 if it has no entry.
abbrev pub sum_of : ℕ → Sums → ℤ
sum_of u [] = pos 0
sum_of u ((v, x) ∷ m) = if v == u then x else sum_of u m

abbrev pub IsPositive : ℕ × ℤ → Type 0
IsPositive e = pos 1 ≤ℤ e.1

-- The user of an entry has a positive balance, and so an account.
abbrev pub IsCovered : List UserLoyalty → ℕ × ℤ → Type 0
IsCovered accounts e = pos 1 ≤ℤ balance e.0 accounts

-- Each user has one entry.
abbrev pub OneEntry : Sums → Type 0
OneEntry [] = Unit {0}
OneEntry ((u, x) ∷ m) = All (λ (e : ℕ × ℤ). u ≢ e.0) m × OneEntry m

sum_of-add_to :
    (u v : ℕ) (x : ℤ) (m : Sums)
    → sum_of v (add_to u x m) ≡ (if u == v then sum_of v m +ℤ x else sum_of v m)
unfolding add_to
sum_of-add_to u v x [] = ground (arith, zero-+ℤ x)
sum_of-add_to u v x ((w, y) ∷ m) = ground (arith, sum_of-add_to u v x m)

add_to-ne :
    (u w : ℕ) (x : ℤ) (m : Sums)
    → w ≢ u
    → All (λ (e : ℕ × ℤ). w ≢ e.0) m
    → All (λ (e : ℕ × ℤ). w ≢ e.0) (add_to u x m)
unfolding add_to
add_to-ne u w x [] ne h = (ne, tt)
add_to-ne u w x ((v, y) ∷ m) ne h = ground (arith, add_to-ne u w x m ne h.1)

add_to-OneEntry : (u : ℕ) (x : ℤ) (m : Sums) → OneEntry m → OneEntry (add_to u x m)
unfolding add_to
add_to-OneEntry u x [] h = (tt, tt)
add_to-OneEntry u x ((v, y) ∷ m) h =
    ground (arith, add_to-OneEntry u x m h.1, λ (ne : v ≢ u). add_to-ne u v x m ne h.0)

-- The points that the batches of a user hold.
abbrev pub held_by : ℕ → RewardPoints → ℤ
held_by u b = if b.user_id == u then b.remaining else pos 0

pub sum_of-by_user :
    (u : ℕ) (batches : List RewardPoints) (m : Sums)
    → All IsNonneg batches
    → sum_of u (by_user batches m) ≡ sum_of u m +ℤ total reward_id (held_by u) batches
unfolding by_user
sum_of-by_user u [] m h = omega int_laws
sum_of-by_user u (b ∷ batches) m h =
    sum_of-by_user u batches
      (if ltb_ℤ (pos 0) b.remaining then add_to b.user_id b.remaining m else m) h.1
    ∙ grind (int_laws, sum_of-add_to b.user_id u b.remaining m)

pub by_user-OneEntry :
    (batches : List RewardPoints) (m : Sums) → OneEntry m → OneEntry (by_user batches m)
unfolding by_user
by_user-OneEntry [] m h = h
by_user-OneEntry (b ∷ batches) m h =
    by_user-OneEntry batches
      (if ltb_ℤ (pos 0) b.remaining then add_to b.user_id b.remaining m else m)
      (ground (arith, add_to-OneEntry b.user_id b.remaining m h))

add_to-IsPositive :
    (u : ℕ) (x : ℤ) (m : Sums) → All IsPositive m → pos 1 ≤ℤ x → All IsPositive (add_to u x m)
unfolding add_to
add_to-IsPositive u x [] h p = (p, tt)
add_to-IsPositive u x ((v, y) ∷ m) h p = grind (int_laws, add_to-IsPositive u x m h.1 p)

pub by_user-IsPositive :
    (batches : List RewardPoints) (m : Sums) → All IsPositive m → All IsPositive (by_user batches m)
unfolding by_user
by_user-IsPositive [] m h = h
by_user-IsPositive (b ∷ batches) m h =
    by_user-IsPositive batches
      (if ltb_ℤ (pos 0) b.remaining then add_to b.user_id b.remaining m else m)
      (ground (arith, add_to-IsPositive b.user_id b.remaining m h))

-- An entry is the sum of its user.
pub sum_of-entry : (m : Sums) → OneEntry m → All (λ (e : ℕ × ℤ). sum_of e.0 m ≡ e.1) m
sum_of-entry [] h = tt
sum_of-entry ((u, x) ∷ m) h = (
  ground arith,
  All-map _ _ (λ e f. ground arith) m
      (All-zip (λ (e : ℕ × ℤ). u ≢ e.0) (λ (e : ℕ × ℤ). sum_of e.0 m ≡ e.1) m h.0
        (sum_of-entry m h.1)),
)

debit_loop-cons :
    (u : ℕ) (dec : ℤ) (m : Sums) (accounts : List UserLoyalty) {a : UserLoyalty}
    → find_unique account_id u accounts ≡ some a
    → debit_loop ((u, dec) ∷ m) accounts
      ≡ debit_loop m (update account_id u (decrement dec) accounts)
unfolding debit_loop
debit_loop-cons u dec m accounts e = ground arith

sum_of-absent : (u : ℕ) (m : Sums) → All (λ (e : ℕ × ℤ). u ≢ e.0) m → sum_of u m ≡ pos 0
sum_of-absent u [] h = refl
sum_of-absent u ((v, x) ∷ m) h = ground (arith, sum_of-absent u m h.1)

-- The entries of the other users are not affected by a debit.
decrement-IsCovered :
    (u : ℕ) (dec : ℤ) (m : Sums) (accounts : List UserLoyalty) {a : UserLoyalty}
    → find_unique account_id u accounts ≡ some a
    → All (λ (e : ℕ × ℤ). u ≢ e.0) m
    → All (IsCovered accounts) m
    → All (IsCovered (update account_id u (decrement dec) accounts)) m
decrement-IsCovered u dec m accounts e ne p =
    All-map _ _ (λ f g. ground (arith, balance-update u f.0 (decrement dec) accounts (λ x. refl) e))
      m (All-zip (λ (f : ℕ × ℤ). u ≢ f.0) (IsCovered accounts) m ne p)

-- The second loop takes from each balance what the map holds for its user, and finds every account.
pub debit_loop-balance :
    (m : Sums) (accounts : List UserLoyalty)
    → OneEntry m
    → All (IsCovered accounts) m
    → (accounts' : List UserLoyalty) × (debit_loop m accounts ≡ some accounts')
      × ((v : ℕ) → balance v accounts' ≡ balance v accounts -ℤ sum_of v m)
unfolding debit_loop
debit_loop-balance [] accounts h p = (accounts, refl, λ v. omega int_laws)
debit_loop-balance ((u, dec) ∷ m) accounts h p =
    elim (Option-cases (find_unique account_id u accounts)) [
      | inl e ↦ absurd (ground arith)
      | inr (a, e) ↦
          let accounts' : List UserLoyalty = update account_id u (decrement dec) accounts in
          let (rest, eq, bal) =
            debit_loop-balance m accounts' h.1 (decrement-IsCovered u dec m accounts e h.0 p.1) in
          (
            rest,
            debit_loop-cons u dec m accounts e ∙ eq,
            λ v. grind (
              int_laws,
              bal v,
              balance-update u v (decrement dec) accounts (λ x. refl) e,
              sum_of-absent u m h.0,
            ),
          )
    ]
