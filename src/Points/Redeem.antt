-- ===== src/Points/Redeem.antt =====
-- `redeemPoints` of src/points/points.service.ts.
use seatwaves_backend.Common.{
  ℕ, Bool, ◌&&◌, List, [], ◌∷◌, Option, ◌==◌, if◌then◌else◌, keep, Action, gets, pure, ◌>>=◌, ◌>>◌,
  throw_if, transactional, modify, bad_request,
}
use seatwaves_backend.Common.Int.{ℤ, pos, ◌+ℤ◌, ◌-ℤ◌, leb_ℤ, ltb_ℤ, min_ℤ, eqb_ℤ}
use seatwaves_backend.Database.Table.{update}
use seatwaves_backend.Database.Queries.{Queries}
use seatwaves_backend.Points.Data.{
  RewardPoints, UserLoyalty, Loyalty, active, redeemed, is_active, reward_id, account_id,
  get_or_create_user_loyalty,
}

pub record RedeemParams : Type 0 where
  pub user_id : ℕ
  pub points : ℤ
  pub reward_code : Option ℕ

-- The update of one batch `b`, as it was read, by `deduct` points.
abbrev pub spend : RewardPoints → ℤ → RewardPoints → RewardPoints
spend b deduct r = record r {
  remaining = b.remaining -ℤ deduct;
  status = if eqb_ℤ (b.remaining -ℤ deduct) (pos 0) then redeemed else active;
}

-- The loop over the batches: the points still to redeem, and the table.
unfoldable pub redeem_loop : List RewardPoints → ℤ → List RewardPoints → ℤ × List RewardPoints
redeem_loop [] remaining_to_redeem rewards = (remaining_to_redeem, rewards)
redeem_loop (b ∷ batches) remaining_to_redeem rewards =
    let deduct = min_ℤ b.remaining remaining_to_redeem in
    let rest =
      redeem_loop batches (remaining_to_redeem -ℤ deduct)
        (update reward_id b.id (spend b deduct) rewards) in
    if leb_ℤ remaining_to_redeem (pos 0) then (remaining_to_redeem, rewards) else rest

-- The update of UserLoyalty.
abbrev pub debit : ℤ → UserLoyalty → UserLoyalty
debit points a = record a {
  current_points = a.current_points -ℤ points;
  total_redeemed = a.total_redeemed +ℤ points;
}

-- The active batches of a user.
abbrev pub is_active_of : ℕ → RewardPoints → Bool
is_active_of u b = b.user_id == u && is_active b.status

module _ (q : Queries) where
  -- `tx.rewardPoints.findMany`, the oldest first.
  unfoldable pub active_batches : ℕ → List RewardPoints → List RewardPoints
  active_batches u rewards =
      q.order_by RewardPoints (λ b. b.earned_at) (keep (is_active_of u) rewards)

  -- What the transaction writes after the loop.
  abbrev pub record_redemption :
      {Number : Type 0} → RedeemParams → List RewardPoints → Loyalty Number → Loyalty Number
  record_redemption params rewards s = record s {
    rewards = rewards;
    redemptions =
        record {
          user_id = params.user_id;
          points = params.points;
          reward_code = params.reward_code;
        }
        ∷ s.redemptions;
    accounts = update account_id params.user_id (debit params.points) s.accounts;
  }

  -- `redeemPoints`. `getOrCreateUserLoyalty` runs on `this.prisma`, outside the transaction: an
  -- account that it creates stays when the transaction is undone.
  unfoldable pub redeem_points : {Number : Type 0} → RedeemParams → Action (Loyalty Number) ℤ
  unfolding get_or_create_user_loyalty active_batches redeem_loop
  redeem_points params = do
    throw_if (leb_ℤ params.points (pos 0)) bad_request
    ul ← get_or_create_user_loyalty params.user_id
    transactional (do
      throw_if (ltb_ℤ ul.current_points params.points) bad_request
      rewards ← gets (λ s. s.rewards)
      let (left, rewards') =
          redeem_loop (active_batches params.user_id rewards) params.points rewards
      throw_if (ltb_ℤ (pos 0) left) bad_request
      modify (record_redemption params rewards')
      pure params.points)
