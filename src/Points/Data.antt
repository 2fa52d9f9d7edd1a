-- ===== src/Points/Data.antt =====
-- The tables of the loyalty program (prisma/schema.prisma) and the helpers of PointsService.
use Prim.Native.String.{String}
use seatwaves_backend.Common.{
  ℕ, ◌+◌, ◌≡◌, Bool, true, false, ◌&&◌, List, ◌∷◌, Option, none, some, ◌==◌, if◌then◌else◌, Action,
  pure,
}
use seatwaves_backend.Common.Int.{ℤ, pos}
use seatwaves_backend.Database.Table.{find_unique, total}

pub data PointRuleAction : Type 0 where
  booking signup referral_signup referral_purchase review_submitted birthday_bonus : PointRuleAction
  manual_adjustment login_streak social_share : PointRuleAction

abbrev pub action_code : PointRuleAction → ℕ
action_code booking = 0
action_code signup = 1
action_code referral_signup = 2
action_code referral_purchase = 3
action_code review_submitted = 4
action_code birthday_bonus = 5
action_code manual_adjustment = 6
action_code login_streak = 7
action_code social_share = 8

-- `===` on actions.
abbrev pub same_action : PointRuleAction → PointRuleAction → Bool
same_action a b = action_code a == action_code b

pub data RewardPointStatus : Type 0 where
  active redeemed expired adjusted : RewardPointStatus

abbrev pub is_active : RewardPointStatus → Bool
is_active active = true
is_active redeemed = false
is_active expired = false
is_active adjusted = false

-- The multipliers of a rule are JavaScript numbers, and so is the product with one.
pub record Numbers : Type 1 where
  pub Number : Type 0
  pub one : Number
  -- neither 0 nor NaN
  pub is_truthy : Number → Bool
  pub is_finite : Number → Bool
  -- `Math.floor(points * mult)`
  pub floor_mul : ℤ → Number → ℤ
  pub floor_mul-one : (points : ℤ) → floor_mul points one ≡ points

-- `Date`: the parts of an instant in UTC, and `Date.UTC`, which takes any month number.
pub record Calendar : Type 0 where
  pub full_year : ℕ → ℕ
  pub month : ℕ → ℕ
  pub date : ℕ → ℕ
  pub utc : ℕ → ℕ → ℕ → ℕ

-- `private addMonths`
pub add_months : Calendar → ℕ → ℕ → ℕ
add_months c now months =
    let d = c.utc (c.full_year now) (c.month now) (c.date now) in
    c.utc (c.full_year d) (c.month d + months) (c.date d)

pub record PointRule (Number : Type 0) : Type 0 where
  pub id : ℕ
  pub action : PointRuleAction
  pub name : String
  pub base_points : ℤ
  pub per_unit : Bool
  pub unit_amount : Option ℕ
  -- from the name of a tier
  pub tier_multipliers : List (String × Number)
  pub expiry_months : ℕ
  pub active : Bool

pub record LoyaltyTier : Type 0 where
  pub id : ℕ
  pub name : String
  pub priority : ℕ
  pub min_points : ℤ
  pub duration_days : ℕ
  pub active : Bool

pub record RewardPoints : Type 0 where
  pub id : ℕ
  pub user_id : ℕ
  pub rule_id : ℕ
  pub action : PointRuleAction
  pub points : ℤ
  pub remaining : ℤ
  pub status : RewardPointStatus
  pub reason : String
  pub earned_at : ℕ
  pub expires_at : Option ℕ
  pub referenced_id : Option ℕ

pub record Redemption : Type 0 where
  pub user_id : ℕ
  pub points : ℤ
  pub reward_code : Option ℕ

pub record UserLoyalty : Type 0 where
  pub user_id : ℕ
  pub tier_id : Option ℕ
  pub current_points : ℤ
  pub total_earned : ℤ
  pub total_redeemed : ℤ

pub record TierHistory : Type 0 where
  pub user_id : ℕ
  pub old_tier_id : Option ℕ
  pub new_tier_id : Option ℕ

pub record Loyalty (Number : Type 0) : Type 0 where
  pub rules : List (PointRule Number)
  pub tiers : List LoyaltyTier
  pub rewards : List RewardPoints
  pub redemptions : List Redemption
  pub accounts : List UserLoyalty
  pub history : List TierHistory

abbrev pub reward_id : RewardPoints → ℕ
reward_id b = b.id

-- `userId` is unique in UserLoyalty.
abbrev pub account_id : UserLoyalty → ℕ
account_id a = a.user_id

abbrev pub tier_id : LoyaltyTier → ℕ
tier_id t = t.id

-- The row that `userLoyalty.create({ data: { userId } })` adds.
abbrev pub new_account : ℕ → UserLoyalty
new_account u = record {
  user_id = u;
  tier_id = none;
  current_points = pos 0;
  total_earned = pos 0;
  total_redeemed = pos 0;
}

unfoldable pub get_or_create_account : ℕ → List UserLoyalty → UserLoyalty × List UserLoyalty
get_or_create_account u accounts = elim (find_unique account_id u accounts) [
  | some a ↦ (a, accounts)
  | none ↦ (new_account u, new_account u ∷ accounts)
]

-- `private getOrCreateUserLoyalty`
unfoldable pub get_or_create_user_loyalty :
    {Number : Type 0} → ℕ → Action (Loyalty Number) UserLoyalty
unfolding get_or_create_account
get_or_create_user_loyalty u s =
    let (a, accounts) = get_or_create_account u s.accounts in
    pure a (record s { accounts = accounts })

-- The points of a user that are still to be spent: what its active batches hold.
abbrev pub held : ℕ → RewardPoints → ℤ
held u b = if b.user_id == u && is_active b.status then b.remaining else pos 0

abbrev pub held_points : ℕ → List RewardPoints → ℤ
held_points u rewards = total reward_id (held u) rewards

-- The balance of a user, 0 if it has no account yet.
abbrev pub account_points : Option UserLoyalty → ℤ
account_points none = pos 0
account_points (some a) = a.current_points

abbrev pub balance : ℕ → List UserLoyalty → ℤ
balance u accounts = account_points (find_unique account_id u accounts)
