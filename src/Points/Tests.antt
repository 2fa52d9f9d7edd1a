-- ===== src/Points/Tests.antt =====
-- Runs of the points service, and its theorems at concrete inputs.
use seatwaves_backend.Common.{
  ℕ, ◌≡◌, refl, ◌+◌, ◌*◌, ◌/◌, ◌%◌, true, false, [], ◌∷◌, Option, none, some, arith, ◌==◌,
  if◌then◌else◌, ok,
}
use seatwaves_backend.Common.Int.{ℤ, pos, negsuc, ◌+ℤ◌, ◌-ℤ◌, ◌*ℤ◌, sub_ℕ}
use seatwaves_backend.Database.Table.{find_unique, update}
use seatwaves_backend.Database.Queries.{in_order}
use seatwaves_backend.Points.Data.{
  booking, active, Numbers, Calendar, PointRule, RewardPoints, UserLoyalty, Loyalty, balance,
  held_points,
}
use seatwaves_backend.Points.Award.{AwardParams, award_points}
use seatwaves_backend.Points.Redeem.{RedeemParams, redeem_points}
use seatwaves_backend.Points.Expire.{expire_job}
use seatwaves_backend.Points.Ledger.Holdings.{IsConsistent}
use seatwaves_backend.Points.Ledger.Redeem.{Redeems, redeem_points-Redeems}
use seatwaves_backend.Points.Ledger.Expire.{expire_job-IsConsistent}

abbrev pub scale : ℤ → ℕ → ℤ
scale (pos p) m = pos (p * m / 100)
scale (negsuc p) m = sub_ℕ 0 (((p + 1) * m + 99) / 100)

pub scale-one : (points : ℤ) → scale points 100 ≡ points
scale-one (pos p) = ground arith
scale-one (negsuc p) = ground arith

-- Multipliers in hundredths.
abbrev pub hundredths : Numbers
hundredths = record {
  Number = ℕ;
  one = 100;
  is_truthy = λ m. if m == 0 then false else true;
  is_finite = λ m. true;
  floor_mul = scale;
  floor_mul-one = scale-one;
}

-- Years of 336 days, of 12 months of 28 days.
abbrev pub short_months : Calendar
short_months = record {
  full_year = λ t. t / 336;
  month = λ t. t % 336 / 28;
  date = λ t. t % 28;
  utc = λ y m d. y * 336 + m * 28 + d;
}

abbrev per_dollar : PointRule ℕ
per_dollar = record {
  id = 1;
  action = booking;
  name = "booking";
  base_points = pos 1;
  per_unit = true;
  unit_amount = some 100;
  tier_multipliers = ("gold", 150) ∷ [];
  expiry_months = 12;
  active = true;
}

abbrev batch : ℕ → ℤ → ℕ → Option ℕ → RewardPoints
batch i n earned expires = record {
  id = i;
  user_id = 7;
  rule_id = 1;
  action = booking;
  points = n;
  remaining = n;
  status = active;
  reason = "booking";
  earned_at = earned;
  expires_at = expires;
  referenced_id = none;
}

abbrev gold_account : UserLoyalty
gold_account = record {
  user_id = 7;
  tier_id = some 3;
  current_points = pos 50;
  total_earned = pos 50;
  total_redeemed = pos 0;
}

abbrev pub sample : Loyalty ℕ
sample = record {
  rules = per_dollar ∷ [];
  tiers =
      record {
        id = 3;
        name = "gold";
        priority = 1;
        min_points = pos 40;
        duration_days = 365;
        active = true;
      }
      ∷ [];
  rewards = batch 1 (pos 30) 10 (some 50) ∷ batch 2 (pos 20) 5 none ∷ [];
  redemptions = [];
  accounts = gold_account ∷ [];
  history = [];
}

sample-balanced : (u : ℕ) → balance u sample.accounts ≡ held_points u sample.rewards
unfolding find_unique ◌+ℤ◌
sample-balanced u = ground arith

sample-IsConsistent : IsConsistent sample
unfolding find_unique
sample-IsConsistent = record {
  unique = (refl, (refl, tt));
  nonneg = (omega arith, (omega arith, tt));
  balanced = sample-balanced;
}

abbrev purchase : AwardParams
purchase = record {
  user_id = 7;
  action = booking;
  amount_cents = some 2050;
  referenced_id = none;
  reason = none;
}

-- $20.50 at one point a dollar and 1.5 for the tier.
award-purchase : (award_points hundredths short_months in_order purchase 60 sample).0 ≡ ok (pos 30)
unfolding award_points find_unique ◌*ℤ◌
award-purchase = refl

abbrev voucher : RedeemParams
voucher = record { user_id = 7; points = pos 35; reward_code = none }

redeem-voucher : (redeem_points in_order voucher sample).0 ≡ ok (pos 35)
unfolding redeem_points find_unique update ◌-ℤ◌
redeem-voucher = refl

redeem_points-Redeems_example :
    Redeems in_order voucher sample (redeem_points in_order voucher sample)
redeem_points-Redeems_example =
    redeem_points-Redeems in_order voucher sample sample-IsConsistent (omega arith)

expire_job-IsConsistent_example :
    ((expire_job in_order 60 500 sample).0 ≡ ok 1)
    × IsConsistent (expire_job in_order 60 500 sample).1
unfolding expire_job
expire_job-IsConsistent_example = expire_job-IsConsistent in_order 60 500 sample sample-IsConsistent
