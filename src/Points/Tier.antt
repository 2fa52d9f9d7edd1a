-- ===== src/Points/Tier.antt =====
-- `recalcTier` of src/points/points.service.ts.
use seatwaves_backend.Common.{
  ℕ, ◌-◌, ◌*◌, ◌&&◌, List, [], ◌∷◌, Option, none, some, ◌==◌, leb, if◌then◌else◌, keep, Action,
  gets, pure, ◌>>=◌, ◌>>◌, modify, same_id,
}
use seatwaves_backend.Common.Int.{ℤ, pos, leb_ℤ, ltb_ℤ}
use seatwaves_backend.Database.Table.{update, total}
use seatwaves_backend.Database.Queries.{Queries}
use seatwaves_backend.Points.Data.{
  RewardPoints, LoyaltyTier, Loyalty, reward_id, account_id, get_or_create_user_loyalty,
}

-- The sum of the points that a user earned since an instant (`aggregate`).
abbrev pub earned_since : ℕ → ℕ → RewardPoints → ℤ
earned_since u since b =
    if b.user_id == u && leb since b.earned_at && ltb_ℤ (pos 0) b.points then b.points else pos 0

unfoldable pub earned_in_window : ℕ → ℕ → List RewardPoints → ℤ
earned_in_window u since rewards = total reward_id (earned_since u since) rewards

-- `since.setUTCDate(since.getUTCDate() - t.durationDays)`, in milliseconds.
abbrev pub window_start : ℕ → LoyaltyTier → ℕ
window_start now t = now - t.duration_days * 86_400_000

-- The loop of `recalcTier`: the first tier whose minimum the user reached in its window.
unfoldable pub choose_tier : ℕ → ℕ → List RewardPoints → List LoyaltyTier → Option ℕ
unfolding earned_in_window
choose_tier u now rewards [] = none
choose_tier u now rewards (t ∷ tiers) =
    if leb_ℤ t.min_points (earned_in_window u (window_start now t) rewards)
    then some t.id
    else choose_tier u now rewards tiers

pub data TierOutcome : Type 0 where
  no_tiers tier_unchanged tier_updated : TierOutcome

abbrev pub set_tier : {Number : Type 0} → ℕ → Option ℕ → Option ℕ → Loyalty Number → Loyalty Number
set_tier u old_tier new_tier s = record s {
  accounts = update account_id u (λ a. record a { tier_id = new_tier }) s.accounts;
  history = record { user_id = u; old_tier_id = old_tier; new_tier_id = new_tier } ∷ s.history;
}

module _ (q : Queries) where
  -- `loyaltyTier.findMany`, the highest priority first.
  unfoldable pub active_tiers : List LoyaltyTier → List LoyaltyTier
  active_tiers tiers = q.order_desc LoyaltyTier (λ t. t.priority) (keep (λ t. t.active) tiers)

  -- `recalcTier` after the tiers are read.
  unfoldable pub recalc_among :
      {Number : Type 0} → ℕ → ℕ → List LoyaltyTier → Action (Loyalty Number) TierOutcome
  unfolding choose_tier get_or_create_user_loyalty
  recalc_among u now [] = pure no_tiers
  recalc_among u now (t ∷ tiers) = do
    rewards ← gets (λ s. s.rewards)
    ul ← get_or_create_user_loyalty u
    let chosen = choose_tier u now rewards (t ∷ tiers)
    if same_id ul.tier_id chosen
        then pure tier_unchanged
        else (modify (set_tier u ul.tier_id chosen) >> pure tier_updated)

  -- `recalcTier`
  unfoldable pub recalc_tier : {Number : Type 0} → ℕ → ℕ → Action (Loyalty Number) TierOutcome
  unfolding active_tiers recalc_among
  recalc_tier u now s = recalc_among u now (active_tiers s.tiers) s
