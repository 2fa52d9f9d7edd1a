-- ===== src/Points/Ledger/Tiers.antt =====
-- The tier that `recalcTier` chooses, of src/points/points.service.ts.
use mathlib.Core.List.{Mem, Perm}
use mathlib.Core.List.Perm
use seatwaves_backend.Common.{
  ℕ, ◌≡◌, Bool, true, false, not, ◌||◌, List, [], ◌∷◌, Option, none, some, ok, err, Result, All,
  keep, leb,
}
use seatwaves_backend.Common.Int.{leb_ℤ}
use seatwaves_backend.Database.Table.{find_unique}
use seatwaves_backend.Database.Queries.{Queries}
use seatwaves_backend.Points.Data.{RewardPoints, LoyaltyTier, UserLoyalty, Loyalty, account_id}
use seatwaves_backend.Points.Tier.{earned_in_window, window_start, TierOutcome, no_tiers}

module _ (u now : ℕ) (rewards : List RewardPoints) where
  -- The user earned the points of the tier within its window.
  abbrev pub reaches : LoyaltyTier → Bool
  reaches t = leb_ℤ t.min_points (earned_in_window u (window_start now t) rewards)

  -- Of these tiers, the one with the given id is reached and no reached one has a higher priority;
  -- with no id none is reached.
  abbrev pub IsBest : List LoyaltyTier → Option ℕ → Type 0
  IsBest tiers none = All (λ t. reaches t ≡ false) tiers
  IsBest tiers (some i) =
      (t : LoyaltyTier) × Mem t tiers
      × (t.id ≡ i)
      × (reaches t ≡ true)
      × All (λ r. (not (reaches r) || leb r.priority t.priority) ≡ true) tiers

module _ (q : Queries) (u now : ℕ) {Number : Type 0} where
  -- A recalculation that settles the account of the user.
  abbrev pub Settles : Loyalty Number → Result TierOutcome × Loyalty Number → Type 0
  Settles s (err e, s') = ⊥
  Settles s (ok no_tiers, s') = ⊥
  Settles s (ok _, s') =
      (a : UserLoyalty) × (find_unique account_id u s'.accounts ≡ some a)
      × IsBest u now s.rewards (keep (λ t. t.active) s.tiers) a.tier_id

  -- What a recalculation does, by the tiers that are active.
  abbrev pub Chooses :
      Loyalty Number → List LoyaltyTier → Result TierOutcome × Loyalty Number → Type 0
  Chooses s [] r = r ≡ (ok no_tiers, s)
  Chooses s (t ∷ tiers) r = Settles s r
