-- ===== src/Points/Award.antt =====
-- `awardPoints` and `calcPointsFromRule` of src/points/points.service.ts.
use Prim.Native.String.{String}
use text.Mathlib.Text.{◌==◌ as str_eq}
use mathlib.Core.Option
use seatwaves_backend.Common.{
  ℕ, ◌/◌, ◌&&◌, List, [], ◌∷◌, map, Option, none, some, ◌==◌, if◌then◌else◌, keep, Action, gets,
  pure, ◌>>=◌, ◌>>◌, or_throw, modify, not_found,
}
use seatwaves_backend.Common.Int.{ℤ, pos, ◌+ℤ◌, ◌*ℤ◌, leb_ℤ}
use seatwaves_backend.Database.Table.{find_unique, update}
use seatwaves_backend.Database.Queries.{Queries}
use seatwaves_backend.Points.Data.{
  PointRuleAction, same_action, Numbers, Calendar, add_months, PointRule, LoyaltyTier, RewardPoints,
  UserLoyalty, Loyalty, active, reward_id, account_id, tier_id, get_or_create_user_loyalty,
}

pub record AwardParams : Type 0 where
  pub user_id : ℕ
  pub action : PointRuleAction
  pub amount_cents : Option ℕ
  pub referenced_id : Option ℕ
  pub reason : Option String

-- `s || d` on a string that may be missing; the empty string is falsy.
abbrev pub text_or : Option String → String → String
text_or none d = d
text_or (some s) d = if str_eq s "" then d else s

-- `n || d` on a number that may be missing; 0 is falsy.
abbrev pub number_or : Option ℕ → ℕ → ℕ
number_or none d = d
number_or (some n) d = if n == 0 then d else n

-- `multipliers[name]`
abbrev pub lookup_name : {V : Type 0} → String → List (String × V) → Option V
lookup_name k [] = none
lookup_name k ((j, v) ∷ m) = if str_eq j k then some v else lookup_name k m

-- `ul.tierId ? await prisma.loyaltyTier.findUnique(...) : null`, and its name.
abbrev pub tier_name : Option ℕ → List LoyaltyTier → Option String
tier_name none tiers = none
tier_name (some t) tiers = Option.map (λ r. r.name) (find_unique tier_id t tiers)

module _ (n : Numbers) where
  open n use {Number, one, is_truthy, is_finite, floor_mul}

  -- `multipliers[userTierName] ? Number(multipliers[userTierName]) : 1.0`
  abbrev pub truthy_or_one : Option Number → Number
  truthy_or_one none = one
  truthy_or_one (some m) = if is_truthy m then m else one

  -- The multiplier of a tier, 1 without a tier or a truthy entry.
  unfoldable pub multiplier : List (String × Number) → Option String → Number
  multiplier m none = one
  multiplier m (some name) = if str_eq name "" then one else truthy_or_one (lookup_name name m)

  -- `private calcPointsFromRule`
  unfoldable pub calc_points_from_rule : PointRule Number → Option String → Option ℕ → ℤ
  unfolding multiplier
  calc_points_from_rule rule user_tier_name amount_cents =
      let units = number_or amount_cents 0 / number_or rule.unit_amount 100 in
      let points = if rule.per_unit then pos units *ℤ rule.base_points else rule.base_points in
      let mult = multiplier rule.tier_multipliers user_tier_name in
      floor_mul points (if is_finite mult then mult else one)

  -- The upsert of UserLoyalty in `awardPoints`.
  unfoldable pub credit_account : ℕ → ℤ → List UserLoyalty → List UserLoyalty
  credit_account u points accounts = elim (find_unique account_id u accounts) [
    | none ↦
        record {
          user_id = u;
          tier_id = none;
          current_points = points;
          total_earned = points;
          total_redeemed = pos 0;
        }
        ∷ accounts
    | some _ ↦
        update account_id u
          (λ a. record a {
            current_points = a.current_points +ℤ points;
            total_earned = a.total_earned +ℤ points;
          })
          accounts
  ]

  module _ (c : Calendar) (q : Queries) where
    -- The batch that `awardPoints` creates.
    unfoldable pub new_batch :
        AwardParams → PointRule Number → ℤ → ℕ → List RewardPoints → RewardPoints
    new_batch params rule points now rewards = record {
      id = q.fresh_id (map reward_id rewards);
      user_id = params.user_id;
      rule_id = rule.id;
      action = params.action;
      points = points;
      remaining = points;
      status = active;
      reason = text_or params.reason rule.name;
      earned_at = now;
      expires_at =
          if rule.expiry_months == 0 then none else some (add_months c now rule.expiry_months);
      referenced_id = params.referenced_id;
    }

    -- The transaction of `awardPoints`.
    unfoldable pub store_award :
        AwardParams → PointRule Number → ℤ → ℕ → Loyalty Number → Loyalty Number
    unfolding new_batch credit_account
    store_award params rule points now s = record s {
      rewards = new_batch params rule points now s.rewards ∷ s.rewards;
      accounts = credit_account params.user_id points s.accounts;
    }

    -- The active rules for an action.
    abbrev pub rules_for : PointRuleAction → List (PointRule Number) → List (PointRule Number)
    rules_for action rules = keep (λ r. same_action r.action action && r.active) rules

    -- `awardPoints` with the rule that it found.
    unfoldable pub award_by_rule : AwardParams → ℕ → PointRule Number → Action (Loyalty Number) ℤ
    unfolding get_or_create_user_loyalty calc_points_from_rule store_award
    award_by_rule params now rule = do
      ul ← get_or_create_user_loyalty params.user_id
      tiers ← gets (λ s. s.tiers)
      let points = calc_points_from_rule rule (tier_name ul.tier_id tiers) params.amount_cents
      if leb_ℤ points (pos 0)
          then pure (pos 0)
          else (modify (store_award params rule points now) >> pure points)

    -- `awardPoints`; the result is the number of points awarded.
    unfoldable pub award_points : AwardParams → ℕ → Action (Loyalty Number) ℤ
    unfolding award_by_rule
    award_points params now s =
        (or_throw (q.first (PointRule Number) (rules_for params.action s.rules)) not_found
            >>= award_by_rule params now)
          s
