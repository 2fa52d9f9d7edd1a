-- ===== src/Points/Ledger/Holdings.antt =====
-- The invariant of the loyalty tables.
use seatwaves_backend.Common.{ℕ, ◌≡◌, ◌∙◌, List, ◌∷◌, none, some, arith, ◌==◌, if◌then◌else◌, All}
use seatwaves_backend.Common.Int.{pos, ◌≤ℤ◌}
use seatwaves_backend.Database.Table.{find_unique, update, HasUniqueIds, find_unique-update}
use seatwaves_backend.Points.Data.{
  RewardPoints, UserLoyalty, Loyalty, reward_id, account_id, held_points, balance, new_account,
  get_or_create_account,
}

-- No batch is negative.
abbrev pub IsNonneg : RewardPoints → Type 0
IsNonneg b = pos 0 ≤ℤ b.remaining

-- Batch ids are unique, no batch is negative, and each balance is what the active batches of the
-- user hold.
pub record IsBalanced (rewards : List RewardPoints) (accounts : List UserLoyalty) : Type 0 where
  pub unique : HasUniqueIds reward_id rewards
  pub nonneg : All IsNonneg rewards
  pub balanced : (u : ℕ) → balance u accounts ≡ held_points u rewards

abbrev pub IsConsistent : {Number : Type 0} → Loyalty Number → Type 0
IsConsistent s = IsBalanced s.rewards s.accounts

-- `userLoyalty.create` for a user without account changes no balance.
pub balance-new_account :
    (u v : ℕ) (accounts : List UserLoyalty)
    → find_unique account_id u accounts ≡ none
    → balance v (new_account u ∷ accounts) ≡ balance v accounts
unfolding find_unique
balance-new_account u v accounts h = ground arith

-- `getOrCreateUserLoyalty` changes no balance and returns the account.
pub balance-get_or_create_account :
    (u v : ℕ) (accounts : List UserLoyalty)
    → balance v (get_or_create_account u accounts).1 ≡ balance v accounts
unfolding get_or_create_account
balance-get_or_create_account u v accounts = ground (arith, balance-new_account u v accounts)

pub find_unique-get_or_create_account :
    (u : ℕ) (accounts : List UserLoyalty)
    → find_unique account_id u (get_or_create_account u accounts).1
      ≡ some (get_or_create_account u accounts).0
unfolding get_or_create_account find_unique
find_unique-get_or_create_account u accounts = ground arith

-- The balances after a write to one account.
pub balance-update :
    (u v : ℕ) (f : UserLoyalty → UserLoyalty) (accounts : List UserLoyalty) {a : UserLoyalty}
    → ((x : UserLoyalty) → (f x).user_id ≡ x.user_id)
    → find_unique account_id u accounts ≡ some a
    → balance v (update account_id u f accounts)
      ≡ (if u == v then (f a).current_points else balance v accounts)
balance-update u v f accounts {a} k h =
    ground (arith, find_unique-update account_id u v f accounts k)

-- The state after `getOrCreateUserLoyalty`.
abbrev pub with_account : {Number : Type 0} → ℕ → Loyalty Number → Loyalty Number
with_account u s = record s { accounts = (get_or_create_account u s.accounts).1 }

pub with_account-IsConsistent :
    {Number : Type 0} (u : ℕ) (s : Loyalty Number)
    → IsConsistent s
    → IsConsistent (with_account u s)
with_account-IsConsistent u s b = record {
  unique = b.unique;
  nonneg = b.nonneg;
  balanced = λ v. balance-get_or_create_account u v s.accounts ∙ b.balanced v;
}
